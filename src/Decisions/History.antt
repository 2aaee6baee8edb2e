-- ===== src/Decisions/History.antt =====
-- Any history of the calls of the inbox: what is closed stays as it is, and a key has one open row.
use teskra.Base.{
  String, ◌≡◌, refl, ℕ, ◌≤◌, Bool, true, false, not, ◌&&◌, ◌||◌, List, [], ◌∷◌, Option, none, some,
  Option-cases, Bool-cases, inl, inr, is_empty, any, arith, subst, sym,
}
use teskra.Decisions.{
  PendingDecision, DecisionKind, DecisionStatus, Resolution, SourceRef, shell_confirmation, is_open,
  get_by_id, close_open, conflicts, get_open_by_dedupe_key, same_kind, detail_kind, list_expirable,
  list_open_by_source, list_open_by_kind, is_open_row, DecidedBy, resolved,
}
use teskra.Decisions.Service.{
  Service, OpenInput, open_decision, open_new, new_decision, resolve, closed_one, option_is,
  resolution_of, emit_resolved, winner,
}
use teskra.Decisions.Service.Closings.{
  Closing, expire, cancel_by_source, reconcile_on_startup, on_resolved, unsubscribe, dispose,
  close_each, after_close, expiring, cancelling, reconciling, is_given,
}
use teskra.Decisions.Rows.{
  Written, kept, inserted, closed, then_written, is_closing, count_open, Written-one_open,
  Written-closed_kept,
}

-- One call, with the clock and the new id that it takes.
pub data Call : Type 0 where
  opens : (now id : String) → OpenInput → Call
  resolves : (now id option_id : String) → DecidedBy → Option String → Call
  expires reconciles : (now : String) → Call
  cancels : (now : String) → SourceRef → Call
  subscribes unsubscribes : DecisionKind → (handler : String) → Call
  disposes : Call

unfoldable pub call : (String → ℕ → String) → Service → Call → Service
call later s (opens now id i) = (open_decision later s now id i).0
call later s (resolves now id option by note) = (resolve s now id option by note).0
call later s (expires now) = (expire s now).0
call later s (reconciles now) = (reconcile_on_startup s now).0
call later s (cancels now source) = (cancel_by_source s now source).0
call later s (subscribes k h) = on_resolved s k h
call later s (unsubscribes k h) = unsubscribe s k h
call later s disposes = dispose s

unfoldable pub calls : (String → ℕ → String) → Service → List Call → Service
calls later s [] = s
calls later s (c ∷ cs) = calls later (call later s c) cs

close_open-Written :
    (rows : List PendingDecision) (id : String) (status : DecisionStatus) (r : Option Resolution)
    (now : String)
    → is_closing status ≡ true
    → Written rows (close_open rows id status r now).0
unfolding close_open
close_open-Written rows id status r now closing =
    elim (Bool-cases (is_open_row (get_by_id rows id))) [
      | inl t ↦ rw t (closed id status r now closing)
      | inr u ↦ rw u kept
    ]

emit_resolved-rows :
    (d : PendingDecision) (notify : Bool) (s : Service) → (emit_resolved d notify s).rows ≡ s.rows
emit_resolved-rows d notify s = ground arith

after_close-rows :
    (c : Closing) (s : Service) (ds : List PendingDecision)
    (w : List PendingDecision × Option PendingDecision)
    → (after_close c s ds w).0.rows ≡ w.0
after_close-rows c s ds (rows, none) = refl
after_close-rows c s ds (rows, some d) = ground arith

closed_one-rows :
    (s : Service) (id : String) (w : List PendingDecision × Option PendingDecision)
    → (closed_one s id w).0.rows ≡ w.0
closed_one-rows s id (rows, none) = refl
closed_one-rows s id (rows, some d) = ground arith

close_each-Written :
    (c : Closing) (now : String) (ds : List PendingDecision) (s : Service)
    (done : List PendingDecision)
    → is_closing c.status ≡ true
    → Written s.rows (close_each c now ds (s, done)).0.rows
unfolding close_each
close_each-Written c now [] s done closing = kept
close_each-Written c now (d ∷ ds) s done closing =
    let w = close_open s.rows d.id c.status (c.resolution d) now in
    let t = after_close c s done w in
    let e = after_close-rows c s done w in
    then_written (rw e (close_open-Written s.rows d.id c.status (c.resolution d) now closing))
      (close_each-Written c now ds t.0 t.1 closing)

Written-as :
    {rows rows' rows'' : List PendingDecision}
    → Written rows rows'
    → rows'' ≡ rows'
    → Written rows rows''
Written-as {rows} w e = subst (Written rows) (sym e) w

winner-rows :
    (s : Service) (key : String) (o : Option PendingDecision) → (winner s key o).0.rows ≡ s.rows
winner-rows s key none = refl
winner-rows s key (some d) = refl

open_new-Written : (s : Service) (d : PendingDecision) → Written s.rows (open_new s d).0.rows
open_new-Written s d = elim (Bool-cases (any (conflicts d) s.rows)) [
  | inl t ↦
      let e = winner-rows s d.dedupe_key (get_open_by_dedupe_key s.rows d.dedupe_key) in
      Written-as kept (ground arith)
  | inr free ↦ Written-as (inserted d free) (ground arith)
]

open_decision-Written :
    (later : String → ℕ → String) (s : Service) (now id : String) (i : OpenInput)
    → Written s.rows (open_decision later s now id i).0.rows
unfolding open_decision
open_decision-Written later s now id i =
    elim (Bool-cases
      (s.disposed || not (same_kind (detail_kind i.detail) i.kind) || is_empty i.options)) [
        | inl refused ↦ Written-as kept (ground arith)
        | inr fine ↦ elim (Option-cases (get_open_by_dedupe_key s.rows i.dedupe_key)) [
          | inl free ↦ Written-as (open_new-Written s (new_decision later now id i)) (ground arith)
          | inr (d, found) ↦ Written-as kept (ground arith)
        ]
      ]

resolve-Written :
    (s : Service) (now id option_id : String) (by : DecidedBy) (note_text : Option String)
    → Written s.rows (resolve s now id option_id by note_text).0.rows
unfolding resolve
resolve-Written s now id option_id by note_text =
    let r = some (resolution_of option_id by now note_text) in
    let e = closed_one-rows s id (close_open s.rows id resolved r now) in
    elim (Option-cases (get_by_id s.rows id)) [
      | inl missing ↦ Written-as kept (ground arith)
      | inr (d, found) ↦ elim (Bool-cases (is_open d && any (option_is option_id) d.options)) [
        | inl t ↦ Written-as (close_open-Written s.rows id resolved r now refl) (ground arith)
        | inr u ↦ Written-as kept (ground arith)
      ]
    ]

cancel_by_source-Written :
    (s : Service) (now : String) (source : SourceRef)
    → Written s.rows (cancel_by_source s now source).0.rows
unfolding cancel_by_source
cancel_by_source-Written s now source =
    elim (Bool-cases (is_given source.run_id || is_given source.workflow_run_id)) [
      | inl t ↦
          Written-as
            (close_each-Written cancelling now (list_open_by_source s.rows source) s [] refl)
            (ground arith)
      | inr u ↦ Written-as kept (ground arith)
    ]

on_resolved-rows : (s : Service) (k : DecisionKind) (h : String) → (on_resolved s k h).rows ≡ s.rows
unfolding on_resolved
on_resolved-rows s k h = ground arith

call-Written :
    (later : String → ℕ → String) (s : Service) (c : Call) → Written s.rows (call later s c).rows
unfolding call expire reconcile_on_startup cancel_by_source on_resolved unsubscribe dispose
call-Written later s (opens now id i) = open_decision-Written later s now id i
call-Written later s (resolves now id option by note) = resolve-Written s now id option by note
call-Written later s (expires now) =
    close_each-Written (expiring now) now (list_expirable s.rows now) s [] refl
call-Written later s (reconciles now) =
    close_each-Written (reconciling now) now (list_open_by_kind s.rows shell_confirmation) s [] refl
call-Written later s (cancels now source) = cancel_by_source-Written s now source
call-Written later s (subscribes k h) = Written-as kept (on_resolved-rows s k h)
call-Written later s (unsubscribes k h) = kept
call-Written later s disposes = kept

calls-Written :
    (later : String → ℕ → String) (s : Service) (cs : List Call)
    → Written s.rows (calls later s cs).rows
unfolding calls
calls-Written later s [] = kept
calls-Written later s (c ∷ cs) =
    then_written (call-Written later s c) (calls-Written later (call later s c) cs)

-- Whatever calls the inbox gets: a row that is closed, whether resolved, expired or cancelled, is
-- never written again.
pub calls-keeps_closed :
    (later : String → ℕ → String) (s : Service) (cs : List Call) (id : String) (d : PendingDecision)
    → get_by_id s.rows id ≡ some d
    → is_open d ≡ false
    → get_by_id (calls later s cs).rows id ≡ some d
calls-keeps_closed later s cs id d found shut =
    Written-closed_kept id d (calls-Written later s cs) found shut

-- Whatever calls it gets, a key that has one open row at most keeps to that.
pub calls-one_open :
    (later : String → ℕ → String) (s : Service) (cs : List Call) (key : String)
    → count_open key s.rows ≤ 1
    → count_open key (calls later s cs).rows ≤ 1
calls-one_open later s cs key h = Written-one_open key (calls-Written later s cs) h
