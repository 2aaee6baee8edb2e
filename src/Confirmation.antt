-- ===== src/Confirmation.antt =====
-- apps/desktop/src/main/workflows/shell-confirmation.ts over the inbox of Decisions: a shell step waits for
-- its confirmation. A promise is a number; `answers` are the promises that were settled, in order. The
-- handler that is subscribed at the start runs where the inbox logged its call, after the operation of the
-- inbox, to which it does not return.
pub mod Settled
pub mod Answers
pub mod Waiting
pub mod Approvals
pub mod Tests
use teskra.Base.{
  String, ◌==◌, ℕ, suc, ◌+◌, Bool, true, false, not, ◌&&◌, ◌⊎◌, inl, inr, List, [], ◌∷◌, ◌++◌, map,
  Option, none, some, keep, any, length, drop, lookup, insert, if◌then◌else◌,
}
use teskra.Decisions.{
  DecisionKind, shell_confirmation, DecisionStatus, opened, resolved, blocking, DecidedBy, user,
  DecisionOption, Resolution, shell_detail, PendingDecision, ListFilter, SourceRef,
}
use teskra.Decisions.Service.{
  Service, Event, handler_called, decision_opened, decision_resolved, security_log, DecisionError,
  Answer, OpenInput, open_decision, list, resolve,
}
use teskra.Decisions.Service.Closings.{expire, cancel_by_source, unsubscribe}

pub record ShellConfirmationDetails : Type 0 where
  pub workspace_id : String
  pub run_id : String
  pub step_id : String
  pub node_id : String
  pub command : String
  pub cwd : String

pub record Parked : Type 0 where
  pub details : ShellConfirmationDetails
  pub decision_id : String
  pub promise : ℕ

pub record Confirmations : Type 0 where
  pub inbox : Service
  pub pending : List (String × Parked)
  pub answers : List (ℕ × Bool)
  pub requests : ℕ
  pub required : List ShellConfirmationDetails

abbrev pub approve_option : DecisionOption
approve_option = record { id = "approve"; label = "Approve"; danger = none }

abbrev pub reject_option : DecisionOption
reject_option = record { id = "reject"; label = "Reject"; danger = none }

abbrev pub chosen : Option Resolution → String → Bool
chosen none id = false
chosen (some r) id = r.option_id == id

abbrev pub is_resolved : DecisionStatus → Bool
is_resolved resolved = true
is_resolved _ = false

abbrev pub is_approval : PendingDecision → Bool
is_approval d = is_resolved d.status && chosen d.resolution "approve"

abbrev pub other_step : String → String × Parked → Bool
other_step step (k, p) = not (k == step)

abbrev pub delete_step : String → List (String × Parked) → List (String × Parked)
delete_step step pending = keep (other_step step) pending

abbrev pub settle_parked : Option Parked → String → Bool → Confirmations → Confirmations
settle_parked none step approved c = c
settle_parked (some p) step approved c = record c {
  pending = delete_step step c.pending;
  answers = c.answers ++ (p.promise, approved) ∷ [];
}

unfoldable pub settle : Confirmations → (step : String) → (approved : Bool) → Confirmations
settle c step approved = settle_parked (lookup step c.pending) step approved c

-- The handler of `shell_confirmation`.
abbrev pub step_of : Option String → String → String
step_of none key = key
step_of (some step) key = step

unfoldable pub decision_handled : Confirmations → PendingDecision → Confirmations
decision_handled c d = settle c (step_of d.workflow_step_id d.dedupe_key) (is_approval d)

abbrev pub handler_name : String
handler_name = "shell-confirmation"

abbrev pub deliver : List Event → Confirmations → Confirmations
deliver [] c = c
deliver (handler_called h d ∷ es) c =
    deliver es (if h == handler_name then decision_handled c d else c)
deliver (decision_opened d ∷ es) c = deliver es c
deliver (decision_resolved d ∷ es) c = deliver es c
deliver (security_log id key title ∷ es) c = deliver es c

-- The inbox moved on; the handler runs for the calls that it logged.
abbrev pub with_inbox : Confirmations → Service → Confirmations
with_inbox c inbox =
    deliver (drop (length c.inbox.events) inbox.events) (record c { inbox = inbox })

abbrev pub decision_for : ShellConfirmationDetails → (title : String) → ℕ → OpenInput
decision_for d title timeout_ms = record {
  workspace_id = d.workspace_id;
  kind = shell_confirmation;
  severity = blocking;
  dedupe_key = d.step_id;
  title = title;
  detail = shell_detail d.command d.cwd;
  options = approve_option ∷ reject_option ∷ [];
  run_id = none;
  workflow_run_id = some d.run_id;
  workflow_step_id = some d.step_id;
  worktree_id = none;
  timeout_ms = timeout_ms;
}

abbrev pub park : Confirmations → ShellConfirmationDetails → String → Confirmations
park c d decision_id =
    let c' = settle c d.step_id false in
    record c' {
      pending =
          insert d.step_id
            (record { details = d; decision_id = decision_id; promise = c'.requests }) c'.pending;
      requests = suc c'.requests;
    }

abbrev pub requested :
    Confirmations → ShellConfirmationDetails → Answer PendingDecision → Confirmations
requested c d (inbox, inl e) =
    let c' = with_inbox c inbox in
    record c' { answers = c'.answers ++ (c'.requests, false) ∷ []; requests = suc c'.requests }
requested c d (inbox, inr opened_as) =
    let c' = with_inbox c inbox in
    park (record c' { required = c'.required ++ d ∷ [] }) d opened_as.id

unfoldable pub request :
    (String → ℕ → String)
    → Confirmations
    → (now id title : String) → ShellConfirmationDetails
    → (timeout_ms : ℕ) → Confirmations
request later c now id title d timeout_ms =
    requested c d (open_decision later c.inbox now id (decision_for d title timeout_ms))

pub data ConfirmError : Type 0 where
  not_awaiting : (step : String) → ConfirmError
  from_inbox : DecisionError → ConfirmError

abbrev pub resolved_step :
    Confirmations → Answer PendingDecision → Confirmations × (ConfirmError ⊎ Bool)
resolved_step c (inbox, inl e) = (with_inbox c inbox, inl (from_inbox e))
resolved_step c (inbox, inr d) = (with_inbox c inbox, inr true)

abbrev pub resolve_parked :
    Confirmations
    → (now step : String) → Bool
    → Option Parked
    → Confirmations × (ConfirmError ⊎ Bool)
resolve_parked c now step approved none = (c, inl (not_awaiting step))
resolve_parked c now step approved (some p) =
    resolved_step c
      (resolve c.inbox now p.decision_id (if approved then "approve" else "reject") user none)

unfoldable pub resolve_step :
    Confirmations → (now step : String) → Bool → Confirmations × (ConfirmError ⊎ Bool)
resolve_step c now step approved = resolve_parked c now step approved (lookup step c.pending)

abbrev pub cancel_parked : Confirmations → (now step : String) → Option Parked → Confirmations
cancel_parked c now step none = c
cancel_parked c now step (some p) =
    let c' = settle c step false in
    with_inbox c'
      (cancel_by_source c'.inbox now
        (record { run_id = none; workflow_run_id = some p.details.run_id })).0

unfoldable pub cancel_step : Confirmations → (now step : String) → Confirmations
cancel_step c now step = cancel_parked c now step (lookup step c.pending)

abbrev pub key_is : String → PendingDecision → Bool
key_is step d = d.dedupe_key == step

abbrev pub is_listed : List PendingDecision → String × Parked → Bool
is_listed open_ones (k, p) = any (key_is p.details.step_id) open_ones

abbrev pub details_of : String × Parked → ShellConfirmationDetails
details_of (k, p) = p.details

unfoldable pub list_pending : Confirmations → List ShellConfirmationDetails
list_pending c =
    let open_ones =
      list c.inbox
        (record { workspace_id = none; kind = some shell_confirmation; status = some opened }) in
    map details_of (keep (is_listed open_ones) c.pending)

abbrev pub settle_all : List (String × Parked) → Confirmations → Confirmations
settle_all [] c = c
settle_all ((k, p) ∷ ps) c = settle_all ps (settle c k false)

unfoldable pub dispose : Confirmations → Confirmations
dispose c =
    settle_all c.pending (record c { inbox = unsubscribe c.inbox shell_confirmation handler_name })

-- The calls of this service, and those of the inbox that may reach it: a user decides there, a tick expires.
pub data Call : Type 0 where
  requests_step : (now id title : String) → ShellConfirmationDetails → (timeout_ms : ℕ) → Call
  resolves_step : (now step : String) → Bool → Call
  cancels_step : (now step : String) → Call
  decides : (now id option_id : String) → DecidedBy → Option String → Call
  expires : String → Call

unfoldable pub call : (String → ℕ → String) → Confirmations → Call → Confirmations
call later c (requests_step now id title d timeout_ms) = request later c now id title d timeout_ms
call later c (resolves_step now step approved) = (resolve_step c now step approved).0
call later c (cancels_step now step) = cancel_step c now step
call later c (decides now id option_id by remark) =
    with_inbox c (resolve c.inbox now id option_id by remark).0
call later c (expires now) = with_inbox c (expire c.inbox now).0

unfoldable pub calls : (String → ℕ → String) → Confirmations → List Call → Confirmations
calls later c [] = c
calls later c (x ∷ xs) = calls later (call later c x) xs
