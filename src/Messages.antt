-- ===== src/Messages.antt =====
-- apps/desktop/src/main/tasks/send-message-service.ts: a message to a task starts a review, a workflow or a
-- run. The services that it calls are an argument and may fail with an error of theirs; a call that
-- changes something is in the log, in the order of the calls. An id is its text. The mode and
-- the isolation that the defaults give are fixed by their type and left out.
pub mod Runs
pub mod Traces
pub mod Conditions
pub mod Continues
pub mod Tests
use teskra.Base.{
  ℕ, Bool, true, false, not, ◌&&◌, ◌||◌, ◌⊎◌, inl, inr, List, [], ◌∷◌, ◌++◌, Option, none, some,
  is_empty, any, find, take, if◌then◌else◌, Text, text_eq, trim, split_lines, join_lines,
}
use teskra.Directives.{
  ApprovalMode, read_only, manual, safe_auto, full_auto, ExecutionMode, attended, orchestrated,
  inherited, MessageDirectiveError, MessageDirectives, run, review, to_workflow, ipc_name_max,
}
use teskra.Watchdog.{RunStatus, completed, failed, cancelled, interrupted}
use teskra.Directives.Parse.{parse_message_directives}

pub data Kind : Type 0 where
  of_run of_review of_workflow : Kind

pub record Sent : Type 0 where
  pub task_id : Text
  pub kind : Kind
  pub id : Text

pub record Overrides : Type 0 where
  pub agent_type : Option Text
  pub account_profile_id : Option Text
  pub execution_profile_id : Option Text

pub record SendRequest : Type 0 where
  pub workspace_id : Text
  pub task_id : Option Text
  pub text : Text
  pub overrides : Overrides

pub record Defaults : Type 0 where
  pub agent_type : Text
  pub account_profile_id : Option Text
  pub execution_profile_id : Option Text
  pub execution_mode : ExecutionMode
  pub approval_mode : ApprovalMode

pub record TaskRun : Type 0 where
  pub id : Text
  pub is_exec : Bool
  pub status : RunStatus
  pub agent_type : Text
  pub account_profile_id : Option Text
  pub execution_profile_id : Option Text
  pub execution_mode : ExecutionMode
  pub approval_mode : ApprovalMode
  pub model : Option Text
  pub has_session : Bool
  pub worktree_id : Option Text

pub data WorktreeState : Type 0 where
  creating ready dirty conflict merged discarded missing orphaned : WorktreeState

-- What a run is started or continued with.
pub record Plan : Type 0 where
  pub agent_type : Text
  pub account_profile_id : Option Text
  pub execution_profile_id : Option Text
  pub execution_mode : ExecutionMode
  pub approval_mode : ApprovalMode
  pub model : Option Text
  pub prompt : Text

pub data Effect : Type 0 where
  creates_task : (title : Text) → (description : Option Text) → Effect
  starts_review : (agent task prompt : Text) → Effect
  starts_workflow : (task : Text) → (implementer test_command model : Option Text) → Effect
  continues_run : (source : Text) → Plan → Effect
  creates_worktree : (task agent : Text) → Effect
  starts_run : (task : Text) → (worktree : Option Text) → Plan → Effect
  discards_worktree : Text → Effect

pub data SendError (E : Type 0) : Type 0 where
  from_service : E → SendError E
  directive_failure : MessageDirectiveError → SendError E
  task_not_found other_workspace title_missing workflow_needs_task : SendError E
  account_unresolved attended_manual_rejected round_still_running : SendError E

pub record Services (E : Type 0) : Type 0 where
  pub workspace_of_task : Text → E ⊎ Option Text
  pub create_task : (title : Text) → (description : Option Text) → E ⊎ Text
  pub resolve_defaults : E ⊎ Defaults
  pub account_by_id : Text → E ⊎ Option Text
  pub resolve_alias : (agent alias : Text) → E ⊎ Option Text
  pub runs_of_task : Text → E ⊎ List TaskRun
  pub active_runs : E ⊎ List TaskRun
  pub worktree_state : Text → E ⊎ Option WorktreeState
  pub start_review : (agent task prompt : Text) → E ⊎ Text
  pub start_workflow : (task : Text) → (implementer test_command model : Option Text) → E ⊎ Text
  pub continue_run : (source : Text) → Plan → E ⊎ Text
  pub create_worktree : (task agent : Text) → E ⊎ Text
  pub start_run : (task : Text) → (worktree : Option Text) → Plan → E ⊎ Text

abbrev pub or_else_text {ℓ} : {A : Type ℓ} → Option A → A → A
or_else_text none b = b
or_else_text (some a) b = a

abbrev pub or_option {ℓ} : {A : Type ℓ} → Option A → Option A → Option A
or_option none b = b
or_option (some a) b = some a

abbrev pub same_text : Option Text → Option Text → Bool
same_text none none = true
same_text (some a) (some b) = text_eq a b
same_text _ _ = false

abbrev pub same_mode : ExecutionMode → ExecutionMode → Bool
same_mode attended attended = true
same_mode orchestrated orchestrated = true
same_mode _ _ = false

abbrev pub same_approval : ApprovalMode → ApprovalMode → Bool
same_approval read_only read_only = true
same_approval manual manual = true
same_approval safe_auto safe_auto = true
same_approval full_auto full_auto = true
same_approval _ _ = false

abbrev pub is_terminal : RunStatus → Bool
is_terminal completed = true
is_terminal failed = true
is_terminal cancelled = true
is_terminal interrupted = true
is_terminal _ = false

abbrev pub no_task : Option Text → Bool
no_task none = true
no_task (some id) = false

-- `splitTaskMessageText`; an empty description is none.
abbrev pub title_of : List Text → Text
title_of [] = []
title_of (l ∷ ls) = take ipc_name_max (trim l)

abbrev pub description_of : List Text → Option Text
description_of [] = none
description_of (l ∷ ls) = let d = trim (join_lines ls) in if is_empty d then none else some d

abbrev pub split_task_message_text : Text → Text × Option Text
split_task_message_text text = let ls = split_lines text in (title_of ls, description_of ls)

-- The calls that were made, and the answer.
abbrev pub Outcome : Type 0 → Type 0 → Type 0
Outcome E A = List Effect × (SendError E ⊎ A)

module _ {E : Type 0} where
  abbrev pub refuse : {A : Type 0} → SendError E → Outcome E A
  refuse e = ([], inl e)

  -- A call that is logged, and its answer.
  abbrev pub called : {A : Type 0} → Effect → E ⊎ A → Outcome E A
  called e (inl bad) = (e ∷ [], inl (from_service bad))
  called e (inr a) = (e ∷ [], inr a)

  abbrev pub after : {B : Type 0} → List Effect → Outcome E B → Outcome E B
  after es (fs, r) = (es ++ fs, r)

  abbrev pub and_then : {A : Type 0} {B : Type 0} → Outcome E A → (A → Outcome E B) → Outcome E B
  and_then (es, inl e) f = (es, inl e)
  and_then (es, inr a) f = after es (f a)

  -- `ensureTask`
  unfoldable pub ensure_task : Services E → Option Text → (body : Text) → Outcome E Text
  ensure_task s (some id) body = ([], inr id)
  ensure_task s none body =
      let (title, description) = split_task_message_text body in
      if is_empty title
      then refuse title_missing
      else called (creates_task title description) (s.create_task title description)

  abbrev pub sent : Kind → Text → Text → Outcome E Sent
  sent kind task id = ([], inr (record { task_id = task; kind = kind; id = id }))

  unfoldable pub start_review : Services E → SendRequest → (prompt agent : Text) → Outcome E Sent
  start_review s req prompt agent = and_then (ensure_task s req.task_id prompt) (λ task.
      and_then (called (starts_review agent task prompt) (s.start_review agent task prompt))
        (sent of_review task))

  unfoldable pub start_workflow :
      Services E
      → SendRequest
      → (prompt : Text) → (agent model test_command : Option Text) → Outcome E Sent
  start_workflow s req prompt agent model test_command =
      if no_task req.task_id && is_empty prompt
      then refuse workflow_needs_task
      else and_then (ensure_task s req.task_id prompt) (λ task.
        and_then
          (called (starts_workflow task agent test_command model)
            (s.start_workflow task agent test_command model))
          (sent of_workflow task))
