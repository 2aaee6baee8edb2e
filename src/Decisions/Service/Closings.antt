-- ===== src/Decisions/Service/Closings.antt =====
-- decision-service.ts: expire, cancelBySource, reconcileOnStartup, and the handlers.
use teskra.Base.{
  String, ◌==◌, Bool, true, false, not, ◌&&◌, ◌||◌, inl, inr, List, [], ◌∷◌, ◌++◌, Option, none,
  some, keep, any, if◌then◌else◌,
}
use teskra.Decisions.{
  DecisionKind, shell_confirmation, DecisionStatus, expired, cancelled, timeout, system, Resolution,
  PendingDecision, same_kind, list_expirable, list_open_by_kind, SourceRef, list_open_by_source,
  close_open,
}
use teskra.Decisions.Service.{
  Answer, Service, emit, emit_resolved, no_source, resolution_of, security_log,
  timeout_default_option,
}

-- How a loop closes its decisions: the status, the resolution, and what follows.
pub record Closing : Type 0 where
  pub status : DecisionStatus
  pub resolution : PendingDecision → Option Resolution
  pub notify : Bool
  pub logged : Bool

abbrev pub log_closed : Bool → PendingDecision → Service → Service
log_closed logged d s = if logged then emit (security_log d.id d.dedupe_key d.title) s else s

abbrev pub after_close :
    Closing
    → Service
    → List PendingDecision
    → List PendingDecision × Option PendingDecision
    → Service × List PendingDecision
after_close c s closed (rows, none) = (record s { rows = rows }, closed)
after_close c s closed (rows, some d) =
    (emit_resolved d c.notify (log_closed c.logged d (record s { rows = rows })), closed ++ d ∷ [])

-- The loop of `expire`, `cancelBySource` and `reconcileOnStartup`.
unfoldable pub close_each :
    Closing
    → String
    → List PendingDecision
    → Service × List PendingDecision
    → Service × List PendingDecision
unfolding close_open
close_each c now [] (s, closed) = (s, closed)
close_each c now (d ∷ ds) (s, closed) =
    close_each c now ds
      (after_close c s closed (close_open s.rows d.id c.status (c.resolution d) now))

abbrev pub expiring : String → Closing
expiring now = record {
  status = expired;
  resolution = λ d. some (resolution_of (timeout_default_option d) timeout now none);
  notify = true;
  logged = false;
}

unfoldable pub expire : Service → String → Service × List PendingDecision
unfolding close_each timeout_default_option
expire s now = close_each (expiring now) now (list_expirable s.rows now) (s, [])

abbrev pub cancelling : Closing
cancelling = record { status = cancelled; resolution = λ _. none; notify = false; logged = false }

abbrev pub is_given : Option String → Bool
is_given none = false
is_given (some _) = true

abbrev pub answered : Service × List PendingDecision → Answer (List PendingDecision)
answered (s, ds) = (s, inr ds)

unfoldable pub cancel_by_source : Service → String → SourceRef → Answer (List PendingDecision)
unfolding close_each
cancel_by_source s now source =
    if is_given source.run_id || is_given source.workflow_run_id
    then answered (close_each cancelling now (list_open_by_source s.rows source) (s, []))
    else (s, inl no_source)

abbrev pub restart_note : String
restart_note =
    "Teskra restarted while this confirmation was open; the parked step no longer exists and it can no longer be approved."

abbrev pub reconciling : String → Closing
reconciling now = record {
  status = expired;
  resolution = λ d. some (resolution_of (timeout_default_option d) system now (some restart_note));
  notify = false;
  logged = true;
}

unfoldable pub reconcile_on_startup : Service → String → Service × List PendingDecision
unfolding close_each timeout_default_option
reconcile_on_startup s now =
    close_each (reconciling now) now (list_open_by_kind s.rows shell_confirmation) (s, [])

-- `onResolved` adds to a set, and its result removes the handler; `dispose` clears the handlers.
abbrev pub is_handler : DecisionKind → String → DecisionKind × String → Bool
is_handler k h entry = same_kind entry.0 k && entry.1 == h

unfoldable pub on_resolved : Service → DecisionKind → String → Service
on_resolved s k h =
    if any (is_handler k h) s.handlers then s else record s { handlers = s.handlers ++ (k, h) ∷ [] }

abbrev pub is_other : DecisionKind → String → DecisionKind × String → Bool
is_other k h entry = not (is_handler k h entry)

unfoldable pub unsubscribe : Service → DecisionKind → String → Service
unsubscribe s k h = record s { handlers = keep (is_other k h) s.handlers }

unfoldable pub dispose : Service → Service
dispose s = record s { disposed = true; handlers = [] }
