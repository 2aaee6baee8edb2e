-- ===== src/Messages/Runs.antt =====
-- apps/desktop/src/main/tasks/send-message-service.ts: the run of a message, and `sendMessage`.
use teskra.Base.{
  Bool, true, false, not, ◌&&◌, ◌⊎◌, inl, inr, List, [], ◌∷◌, Option, none, some, any, find,
  if◌then◌else◌, Text, text_eq,
}
use teskra.Directives.{
  ApprovalMode, manual, ExecutionMode, attended, MessageDirectiveError, MessageDirectives, run,
  review, to_workflow,
}
use teskra.Directives.Parse.{parse_message_directives}
use teskra.Messages.{
  Sent, of_run, SendRequest, Defaults, TaskRun, WorktreeState, ready, dirty, Plan, continues_run,
  creates_worktree, starts_run, discards_worktree, SendError, from_service, directive_failure,
  task_not_found, other_workspace, account_unresolved, attended_manual_rejected,
  round_still_running, Services, or_else_text, or_option, same_text, same_mode, same_approval,
  is_terminal, Outcome, refuse, called, after, and_then, ensure_task, sent, start_review,
  start_workflow,
}

abbrev pub is_attended : ExecutionMode → Bool
is_attended attended = true
is_attended _ = false

abbrev pub is_manual : ApprovalMode → Bool
is_manual manual = true
is_manual _ = false

abbrev pub unless_model : Option Text → Option Text → Bool
unless_model none own = true
unless_model (some m) own = same_text (some m) own

-- The fourth condition of a continuation.
abbrev pub identity_unchanged : Plan → TaskRun → Bool
identity_unchanged p r =
    text_eq p.agent_type r.agent_type
    && same_text p.account_profile_id r.account_profile_id
    && same_text p.execution_profile_id r.execution_profile_id
    && same_mode p.execution_mode r.execution_mode
    && same_approval p.approval_mode r.approval_mode
    && unless_model p.model r.model

abbrev pub is_usable : Option WorktreeState → Bool
is_usable (some ready) = true
is_usable (some dirty) = true
is_usable _ = false

abbrev pub occupies : Text → Text → TaskRun → Bool
occupies source worktree r = same_text r.worktree_id (some worktree) && not (text_eq r.id source)

abbrev pub is_exec : TaskRun → Bool
is_exec r = r.is_exec

module _ {E : Type 0} (s : Services E) where
  abbrev pub reuse_free : Text → Text → E ⊎ List TaskRun → E ⊎ Bool
  reuse_free source worktree (inl e) = inl e
  reuse_free source worktree (inr active) = inr (not (any (occupies source worktree) active))

  abbrev pub reuse_worktree : Text → Text → E ⊎ Option WorktreeState → E ⊎ Bool
  reuse_worktree source worktree (inl e) = inl e
  reuse_worktree source worktree (inr state) =
      if is_usable state then reuse_free source worktree s.active_runs else inr false

  abbrev pub reuse_in : Text → Option Text → E ⊎ Bool
  reuse_in source none = inr false
  reuse_in source (some worktree) = reuse_worktree source worktree (s.worktree_state worktree)

  abbrev pub reuse_if : (unchanged session : Bool) → E ⊎ Bool → E ⊎ Bool
  reuse_if false session in_place = inr false
  reuse_if true false in_place = inr false
  reuse_if true true in_place = in_place

  -- Whether the run is continued: the conditions of tryContinuation, in their order.
  unfoldable pub can_continue : Plan → TaskRun → E ⊎ Bool
  can_continue p r = reuse_if (identity_unchanged p r) r.has_session (reuse_in r.id r.worktree_id)

  -- What becomes of a worktree whose run was asked for.
  abbrev pub in_worktree : Text → Text → Plan → E ⊎ Text → Outcome E Sent
  in_worktree task worktree p (inl e) =
      (starts_run task (some worktree) p ∷ discards_worktree worktree ∷ [], inl (from_service e))
  in_worktree task worktree p (inr id) =
      after (starts_run task (some worktree) p ∷ []) (sent of_run task id)

  unfoldable pub fresh_round : Plan → Text → Outcome E Sent
  fresh_round p task =
      if is_attended p.execution_mode
      then and_then (called (starts_run task none p) (s.start_run task none p)) (sent of_run task)
      else and_then
          (called (creates_worktree task p.agent_type) (s.create_worktree task p.agent_type))
          (λ worktree. in_worktree task worktree p (s.start_run task (some worktree) p))

  abbrev pub continued_or : Plan → Text → TaskRun → E ⊎ Bool → Outcome E Sent
  continued_or p task r (inl e) = refuse (from_service e)
  continued_or p task r (inr false) = fresh_round p task
  continued_or p task r (inr true) =
      and_then (called (continues_run r.id p) (s.continue_run r.id p)) (sent of_run task)

  abbrev pub after_latest : Plan → Text → Option TaskRun → Outcome E Sent
  after_latest p task none = fresh_round p task
  after_latest p task (some r) =
      if not (is_terminal r.status)
      then refuse round_still_running
      else continued_or p task r (can_continue p r)

  abbrev pub next_round : Plan → Text → E ⊎ List TaskRun → Outcome E Sent
  next_round p task (inl e) = refuse (from_service e)
  next_round p task (inr runs) = after_latest p task (find is_exec runs)

  unfoldable pub launch : SendRequest → Plan → Outcome E Sent
  launch req p =
      if is_attended p.execution_mode && is_manual p.approval_mode
      then refuse attended_manual_rejected
      else and_then (ensure_task s req.task_id p.prompt)
          (λ task. next_round p task (s.runs_of_task task))

  abbrev pub resolved_alias : E ⊎ Option Text → SendError E ⊎ Option Text
  resolved_alias (inl e) = inl (from_service e)
  resolved_alias (inr none) = inl account_unresolved
  resolved_alias (inr (some id)) = inr (some id)

  abbrev pub by_id_or_alias : Text → Text → E ⊎ Option Text → SendError E ⊎ Option Text
  by_id_or_alias agent value (inl e) = inl (from_service e)
  by_id_or_alias agent value (inr (some id)) = inr (some id)
  by_id_or_alias agent value (inr none) = resolved_alias (s.resolve_alias agent value)

  unfoldable pub resolve_account : Text → Option Text → Option Text → SendError E ⊎ Option Text
  resolve_account agent none fallback = inr fallback
  resolve_account agent (some value) fallback = by_id_or_alias agent value (s.account_by_id value)

  abbrev pub plan_with :
      SendRequest
      → Defaults
      → (agent prompt : Text) → Option ExecutionMode
      → Option ApprovalMode
      → Option Text
      → Option Text
      → Plan
  plan_with req d agent prompt mode approval model account = record {
    agent_type = agent;
    account_profile_id = account;
    execution_profile_id = or_option req.overrides.execution_profile_id d.execution_profile_id;
    execution_mode = or_else_text mode d.execution_mode;
    approval_mode = or_else_text approval d.approval_mode;
    model = model;
    prompt = prompt;
  }

  abbrev pub with_account :
      SendRequest → (Option Text → Plan) → SendError E ⊎ Option Text → Outcome E Sent
  with_account req plan (inl e) = refuse e
  with_account req plan (inr account) = launch req (plan account)

  abbrev pub with_defaults :
      SendRequest
      → (prompt : Text) → (agent account : Option Text) → Option ExecutionMode
      → Option ApprovalMode
      → Option Text
      → E ⊎ Defaults
      → Outcome E Sent
  with_defaults req prompt agent account mode approval model (inl e) = refuse (from_service e)
  with_defaults req prompt agent account mode approval model (inr d) =
      let chosen = or_else_text agent (or_else_text req.overrides.agent_type d.agent_type) in
      with_account req (plan_with req d chosen prompt mode approval model) (
        resolve_account chosen account
          (or_option req.overrides.account_profile_id d.account_profile_id))

  unfoldable pub dispatch : SendRequest → MessageDirectives → Outcome E Sent
  dispatch req (run prompt agent account mode approval model) =
      with_defaults req prompt agent account mode approval model s.resolve_defaults
  dispatch req (review prompt agent) = start_review s req prompt agent
  dispatch req (to_workflow prompt agent model test_command) =
      start_workflow s req prompt agent model test_command

  abbrev pub in_workspace : SendRequest → E ⊎ Option Text → SendError E ⊎ Bool
  in_workspace req (inl e) = inl (from_service e)
  in_workspace req (inr none) = inl task_not_found
  in_workspace req (inr (some workspace)) =
      if text_eq workspace req.workspace_id then inr true else inl other_workspace

  abbrev pub check_task : SendRequest → Option Text → SendError E ⊎ Bool
  check_task req none = inr true
  check_task req (some id) = in_workspace req (s.workspace_of_task id)

  abbrev pub after_check : SendRequest → MessageDirectives → SendError E ⊎ Bool → Outcome E Sent
  after_check req d (inl e) = refuse e
  after_check req d (inr known) = dispatch req d

  abbrev pub after_parse : SendRequest → MessageDirectiveError ⊎ MessageDirectives → Outcome E Sent
  after_parse req (inl e) = refuse (directive_failure e)
  after_parse req (inr d) = after_check req d (check_task req req.task_id)

  unfoldable pub send_message : SendRequest → Outcome E Sent
  send_message req = after_parse req (parse_message_directives req.text)
