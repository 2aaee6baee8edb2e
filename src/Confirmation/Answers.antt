-- ===== src/Confirmation/Answers.antt =====
-- Every request is answered once.
use teskra.Base.{
  String, ◌==◌, eq_iff, ℕ, suc, ◌+◌, Bool, true, false, inl, inr, List, [], ◌∷◌, ◌++◌, Option, none,
  some, length, drop, lookup, ltb, nat_eq, if◌then◌else◌, ◌≡◌, refl, ap, ◌∙◌, subst, arith,
}
use teskra.Decisions.{PendingDecision, shell_confirmation}
use teskra.Decisions.Service.{
  Service, Event, handler_called, decision_opened, decision_resolved, security_log, Answer,
}
use teskra.Decisions.Service.Closings.{unsubscribe}
use teskra.Confirmation.{
  ShellConfirmationDetails, Parked, Confirmations, delete_step, settle_parked, settle,
  decision_handled, step_of, is_approval, handler_name, deliver, with_inbox, park, requested,
  request, resolved_step, resolve_parked, resolve_step, cancel_parked, cancel_step, settle_all,
  dispose, Call, requests_step, resolves_step, cancels_step, decides, expires, call, calls,
}
use teskra.Confirmation.Settled.{
  bit, parked, answered, Distinct, IsSettled, answered-append, delete-absent, lookup-delete_self,
  Distinct-delete, parked-delete, Distinct-insert, parked-insert,
}

settle_parked-IsSettled :
    (c : Confirmations) (step : String) (b : Bool) (o : Option Parked)
    → lookup step c.pending ≡ o
    → IsSettled c
    → IsSettled (settle_parked o step b c)
settle_parked-IsSettled c step b none e h = h
settle_parked-IsSettled c step b (some p) e h = record {
  distinct = Distinct-delete step c.pending h.distinct;
  once = λ t.
      let all = h.once t in
      let out = parked-delete t step c.pending h.distinct e in
      let in' = answered-append t p.promise b c.answers in omega arith;
}

settle-IsSettled :
    (c : Confirmations) (step : String) (b : Bool) → IsSettled c → IsSettled (settle c step b)
unfolding settle
settle-IsSettled c step b h = settle_parked-IsSettled c step b (lookup step c.pending) refl h

settle_parked-absent :
    (c : Confirmations) (step : String) (b : Bool) (o : Option Parked)
    → lookup step c.pending ≡ o
    → lookup step (settle_parked o step b c).pending ≡ none
settle_parked-absent c step b none e = e
settle_parked-absent c step b (some p) e = lookup-delete_self step c.pending

settle-absent :
    (c : Confirmations) (step : String) (b : Bool) → lookup step (settle c step b).pending ≡ none
unfolding settle
settle-absent c step b = settle_parked-absent c step b (lookup step c.pending) refl

handled-IsSettled :
    (h : String) (d : PendingDecision) (c : Confirmations) (b : Bool)
    → IsSettled c
    → IsSettled (if b then decision_handled c d else c)
unfolding decision_handled
handled-IsSettled h d c true s =
    settle-IsSettled c (step_of d.workflow_step_id d.dedupe_key) (is_approval d) s
handled-IsSettled h d c false s = s

deliver-IsSettled : (es : List Event) (c : Confirmations) → IsSettled c → IsSettled (deliver es c)
deliver-IsSettled [] c h = h
deliver-IsSettled (handler_called n d ∷ es) c h =
    deliver-IsSettled es (if n == handler_name then decision_handled c d else c)
      (handled-IsSettled n d c (n == handler_name) h)
deliver-IsSettled (decision_opened d ∷ es) c h = deliver-IsSettled es c h
deliver-IsSettled (decision_resolved d ∷ es) c h = deliver-IsSettled es c h
deliver-IsSettled (security_log id key title ∷ es) c h = deliver-IsSettled es c h

with_inbox-IsSettled :
    (c : Confirmations) (inbox : Service) → IsSettled c → IsSettled (with_inbox c inbox)
with_inbox-IsSettled c inbox h =
    deliver-IsSettled (drop (length c.inbox.events) inbox.events) (record c { inbox = inbox })
      (record { distinct = h.distinct; once = h.once })

park-IsSettled :
    (c : Confirmations) (d : ShellConfirmationDetails) (id : String)
    → IsSettled c
    → IsSettled (park c d id)
park-IsSettled c d id h =
    let c' = settle c d.step_id false in
    let s = settle-IsSettled c d.step_id false h in
    let free = settle-absent c d.step_id false in
    let p : Parked = record { details = d; decision_id = id; promise = c'.requests } in
    record {
      distinct = Distinct-insert d.step_id p c'.pending s.distinct free;
      once = λ t.
          let all = s.once t in
          let in' = parked-insert t d.step_id p c'.pending free in
          let one : bit (ltb t (suc c'.requests))
              ≡ bit (ltb t c'.requests) + bit (nat_eq c'.requests t) =
            ground arith in
          omega arith;
    }

refused-IsSettled :
    (c : Confirmations)
    → IsSettled c
    → IsSettled
        (record c { answers = c.answers ++ (c.requests, false) ∷ []; requests = suc c.requests })
refused-IsSettled c h = record {
  distinct = h.distinct;
  once = λ t.
      let all = h.once t in
      let in' = answered-append t c.requests false c.answers in
      let one : bit (ltb t (suc c.requests)) ≡ bit (ltb t c.requests) + bit (nat_eq c.requests t) =
        ground arith in
      omega arith;
}

requested-IsSettled :
    (c : Confirmations) (d : ShellConfirmationDetails) (a : Answer PendingDecision)
    → IsSettled c
    → IsSettled (requested c d a)
requested-IsSettled c d (inbox, inl e) h =
    refused-IsSettled (with_inbox c inbox) (with_inbox-IsSettled c inbox h)
requested-IsSettled c d (inbox, inr o) h =
    let c' = with_inbox c inbox in
    let s = with_inbox-IsSettled c inbox h in
    park-IsSettled (record c' { required = c'.required ++ d ∷ [] }) d o.id
      (record { distinct = s.distinct; once = s.once })

resolved_step-IsSettled :
    (c : Confirmations) (a : Answer PendingDecision) → IsSettled c → IsSettled (resolved_step c a).0
resolved_step-IsSettled c (inbox, inl e) h = with_inbox-IsSettled c inbox h
resolved_step-IsSettled c (inbox, inr d) h = with_inbox-IsSettled c inbox h

resolve_parked-IsSettled :
    (c : Confirmations) (now step : String) (b : Bool) (o : Option Parked)
    → IsSettled c
    → IsSettled (resolve_parked c now step b o).0
resolve_parked-IsSettled c now step b none h = h
resolve_parked-IsSettled c now step b (some p) h = resolved_step-IsSettled c _ h

cancel_parked-IsSettled :
    (c : Confirmations) (now step : String) (o : Option Parked)
    → IsSettled c
    → IsSettled (cancel_parked c now step o)
cancel_parked-IsSettled c now step none h = h
cancel_parked-IsSettled c now step (some p) h =
    with_inbox-IsSettled (settle c step false) _ (settle-IsSettled c step false h)

call-IsSettled :
    (later : String → ℕ → String) (c : Confirmations) (x : Call)
    → IsSettled c
    → IsSettled (call later c x)
unfolding call request resolve_step cancel_step
call-IsSettled later c (requests_step now id title d timeout_ms) h = requested-IsSettled c d _ h
call-IsSettled later c (resolves_step now step b) h =
    resolve_parked-IsSettled c now step b (lookup step c.pending) h
call-IsSettled later c (cancels_step now step) h =
    cancel_parked-IsSettled c now step (lookup step c.pending) h
call-IsSettled later c (decides now id option_id by remark) h = with_inbox-IsSettled c _ h
call-IsSettled later c (expires now) h = with_inbox-IsSettled c _ h

calls-IsSettled :
    (later : String → ℕ → String) (c : Confirmations) (xs : List Call)
    → IsSettled c
    → IsSettled (calls later c xs)
unfolding calls
calls-IsSettled later c [] h = h
calls-IsSettled later c (x ∷ xs) h =
    calls-IsSettled later (call later c x) xs (call-IsSettled later c x h)

settle_first :
    (c : Confirmations) (k : String) (p : Parked) (ps : List (String × Parked))
    → c.pending ≡ (k, p) ∷ ps
    → lookup k ps ≡ none
    → (settle c k false).pending ≡ ps
unfolding settle
settle_first c k p ps e h =
    let self = (eq_iff k k).1 refl in
    let there_is : lookup k c.pending ≡ some p = ap (lookup k) e ∙ rw (self) refl in
    ap (λ o. (settle_parked o k false c).pending) there_is
    ∙ ap (delete_step k) e
    ∙ rw (self) (delete-absent k ps h)

settle_parked-requests :
    (c : Confirmations) (k : String) (b : Bool) (o : Option Parked)
    → (settle_parked o k b c).requests ≡ c.requests
settle_parked-requests c k b none = refl
settle_parked-requests c k b (some p) = refl

settle-requests : (c : Confirmations) (k : String) (b : Bool) → (settle c k b).requests ≡ c.requests
unfolding settle
settle-requests c k b = settle_parked-requests c k b (lookup k c.pending)

settle_all-IsSettled :
    (ps : List (String × Parked)) (c : Confirmations)
    → c.pending ≡ ps
    → IsSettled c
    → ((settle_all ps c).pending ≡ [])
      × IsSettled (settle_all ps c)
      × ((settle_all ps c).requests ≡ c.requests)
settle_all-IsSettled [] c e h = (e, h, refl)
settle_all-IsSettled ((k, p) ∷ ps) c e h =
    let d : Distinct ((k, p) ∷ ps) = subst Distinct e h.distinct in
    let (gone, settled, same) =
      settle_all-IsSettled ps (settle c k false) (settle_first c k p ps e d.0)
        (settle-IsSettled c k false h) in
    (gone, settled, same ∙ settle-requests c k false)

-- The service at its start.
abbrev pub fresh : Service → Confirmations
fresh inbox = record { inbox = inbox; pending = []; answers = []; requests = 0; required = [] }

fresh-IsSettled : (inbox : Service) → IsSettled (fresh inbox)
fresh-IsSettled inbox = record { distinct = 0; once = λ t. ground arith }

-- At the end, after any history of requests, answers, cancellations, decisions in the inbox and expiries:
-- each of the requests was answered exactly once, and nothing that was not requested was.
pub calls-dispose :
    (later : String → ℕ → String) (inbox : Service) (xs : List Call) (t : ℕ)
    → let c = calls later (fresh inbox) xs in
      (answered t (dispose c).answers ≡ bit (ltb t c.requests)) × ((dispose c).pending ≡ [])
unfolding dispose
calls-dispose later inbox xs t =
    let c = calls later (fresh inbox) xs in
    let h = calls-IsSettled later (fresh inbox) xs (fresh-IsSettled inbox) in
    let (gone, settled, same) =
      settle_all-IsSettled c.pending
        (record c { inbox = unsubscribe c.inbox shell_confirmation handler_name }) refl
        (record { distinct = h.distinct; once = h.once }) in
    let all = settled.once t in
    let none_waits = ap (parked t) gone in
    let up_to = ap (λ n. bit (ltb t n)) same in (omega arith, gone)
