-- ===== src/Decisions/Service.antt =====
-- decision-service.ts: the operations of the inbox. The events on the bus and the calls of the
-- handlers are logged in order; what a handler does is its own call.
pub mod Closings
use teskra.Base.{
  String, ◌==◌, ℕ, Bool, true, false, not, ◌&&◌, ◌||◌, ◌⊎◌, inl, inr, List, [], ◌∷◌, ◌++◌, map,
  Option, none, some, keep, any, is_empty, ltb, if◌then◌else◌,
}
use teskra.Decisions.{
  DecisionKind, shell_confirmation, agent_blocker, stalled_run, merge_blocked, rate_limit,
  handoff_degraded, DecisionStatus, opened, resolved, expired, cancelled, DecisionSeverity,
  DecidedBy, timeout, system, DecisionOption, Resolution, Detail, detail_kind, PendingDecision,
  same_kind, is_open, get_by_id, get_open_by_dedupe_key, ListFilter, list_decisions, list_expirable,
  list_open_by_kind, SourceRef, list_open_by_source, insert_decision, close_open,
}

pub data Event : Type 0 where
  decision_opened decision_resolved : PendingDecision → Event
  handler_called : (handler : String) → PendingDecision → Event
  security_log : (id dedupe_key title : String) → Event

-- A handler is named; a name stands for one closure.
pub record Service : Type 0 where
  pub rows : List PendingDecision
  pub disposed : Bool
  pub handlers : List (DecisionKind × String)
  pub events : List Event

pub data DecisionError : Type 0 where
  service_disposed detail_mismatch no_options no_source : DecisionError
  conflict_without_row : (dedupe_key : String) → DecisionError
  not_found already_closed : (id : String) → DecisionError
  unknown_option : (id option : String) → DecisionError

abbrev pub Answer {ℓ} : Type ℓ → Type ℓ
Answer A = Service × (DecisionError ⊎ A)

pub record OpenInput : Type 0 where
  pub workspace_id : String
  pub kind : DecisionKind
  pub severity : DecisionSeverity
  pub dedupe_key : String
  pub title : String
  pub detail : Detail
  pub options : List DecisionOption
  pub run_id : Option String
  pub workflow_run_id : Option String
  pub workflow_step_id : Option String
  pub worktree_id : Option String
  pub timeout_ms : ℕ

-- `DECISION_TIMEOUT_DEFAULT_OPTIONS`
abbrev pub timeout_default : DecisionKind → String
timeout_default shell_confirmation = "reject"
timeout_default agent_blocker = "acknowledge"
timeout_default stalled_run = "keep_waiting"
timeout_default merge_blocked = "cancel"
timeout_default rate_limit = "wait"
timeout_default handoff_degraded = "dismiss"

abbrev pub option_is : String → DecisionOption → Bool
option_is id o = o.id == id

abbrev pub first_option : String → List DecisionOption → String
first_option preferred [] = preferred
first_option preferred (o ∷ os) = o.id

unfoldable pub timeout_default_option : PendingDecision → String
timeout_default_option d =
    let preferred = timeout_default d.kind in
    if any (option_is preferred) d.options then preferred else first_option preferred d.options

abbrev pub emit : Event → Service → Service
emit v s = record s { events = s.events ++ v ∷ [] }

abbrev pub handles : DecisionKind → DecisionKind × String → Bool
handles k h = same_kind h.0 k

abbrev pub call_handler : PendingDecision → DecisionKind × String → Event
call_handler d h = handler_called h.1 d

abbrev pub dispatch : PendingDecision → Service → Service
dispatch d s = record s {
  events = s.events ++ map (call_handler d) (keep (handles d.kind) s.handlers);
}

abbrev pub emit_resolved : PendingDecision → Bool → Service → Service
emit_resolved d notify s =
    let s' = emit (decision_resolved d) s in if notify then dispatch d s' else s'

-- `new Date(Date.parse(now) + timeoutMs).toISOString()` is an argument: `later`.
abbrev pub expiry : (String → ℕ → String) → String → ℕ → Option String
expiry later now timeout_ms = if ltb 0 timeout_ms then some (later now timeout_ms) else none

abbrev pub new_decision : (String → ℕ → String) → (now id : String) → OpenInput → PendingDecision
new_decision later now id i = record {
  id = id;
  workspace_id = i.workspace_id;
  kind = i.kind;
  status = opened;
  severity = i.severity;
  run_id = i.run_id;
  workflow_run_id = i.workflow_run_id;
  workflow_step_id = i.workflow_step_id;
  worktree_id = i.worktree_id;
  dedupe_key = i.dedupe_key;
  title = i.title;
  detail = i.detail;
  options = i.options;
  resolution = none;
  expires_at = expiry later now i.timeout_ms;
  created_at = now;
  resolved_at = none;
}

-- The insertion of `open`, and its answer when another row won the race.
abbrev pub winner : Service → String → Option PendingDecision → Answer PendingDecision
winner s key none = (s, inl (conflict_without_row key))
winner s key (some d) = (s, inr d)

abbrev pub open_new : Service → PendingDecision → Answer PendingDecision
open_new s d = elim (insert_decision s.rows d) [
  | none ↦ winner s d.dedupe_key (get_open_by_dedupe_key s.rows d.dedupe_key)
  | some rows ↦ (emit (decision_opened d) (record s { rows = rows }), inr d)
]

unfoldable pub open_decision :
    (String → ℕ → String) → Service → (now id : String) → OpenInput → Answer PendingDecision
open_decision later s now id i =
    if s.disposed
    then (s, inl service_disposed)
    else if not (same_kind (detail_kind i.detail) i.kind)
    then (s, inl detail_mismatch)
    else if is_empty i.options
    then (s, inl no_options)
    else elim (get_open_by_dedupe_key s.rows i.dedupe_key) [
      | some d ↦ (s, inr d)
      | none ↦ open_new s (new_decision later now id i)
    ]

unfoldable pub get : Service → String → Option PendingDecision
unfolding get_by_id
get s id = get_by_id s.rows id

unfoldable pub list : Service → ListFilter → List PendingDecision
unfolding list_decisions
list s f = list_decisions s.rows f

abbrev pub closed_one :
    Service → String → List PendingDecision × Option PendingDecision → Answer PendingDecision
closed_one s id (rows, none) = (record s { rows = rows }, inl (already_closed id))
closed_one s id (rows, some d) = (emit_resolved d true (record s { rows = rows }), inr d)

abbrev pub resolution_of : String → DecidedBy → String → Option String → Resolution
resolution_of option by now note = record {
  option_id = option;
  decided_by = by;
  decided_at = now;
  note = note;
}

unfoldable pub resolve :
    Service → (now id option_id : String) → DecidedBy → Option String → Answer PendingDecision
unfolding get_by_id close_open
resolve s now id option_id by note = elim (get_by_id s.rows id) [
  | none ↦ (s, inl (not_found id))
  | some d ↦
      if not (is_open d)
      then (s, inl (already_closed id))
      else if not (any (option_is option_id) d.options)
      then (s, inl (unknown_option id option_id))
      else closed_one s id
          (close_open s.rows id resolved (some (resolution_of option_id by now note)) now)
]
