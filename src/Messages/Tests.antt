-- ===== src/Messages/Tests.antt =====
-- Messages to a task, with services that answer in a fixed way.
use teskra.Base.{
  Bool, true, ◌⊎◌, inl, inr, List, [], ◌∷◌, Option, none, some, Text, units, ◌≡◌, refl, ◌↔◌,
  is_space, trim_start, trim_end, trim, split_lines, join_lines,
}
use teskra.Directives.{safe_auto, orchestrated}
use teskra.Watchdog.{RunStatus, completed, running}
use teskra.Messages.{
  SendRequest, TaskRun, ready, Plan, creates_task, creates_worktree, starts_run, discards_worktree,
  continues_run, round_still_running, from_service, Services, ensure_task,
}
use teskra.Messages.Runs.{can_continue, fresh_round, launch, send_message}
use teskra.Messages.Conditions.{IsSame}
use teskra.Messages.Continues.{CanReuse, can_continue-true_iff}
use teskra.Messages.Traces.{IsTrace, is_ok, send_message-IsTrace}

abbrev services : (runs : List TaskRun) → (started : Text ⊎ Text) → Services Text
services runs started = record {
  workspace_of_task = λ id. inr (some (units "w"));
  create_task = λ title description. inr (units "t");
  resolve_defaults = inr (record {
    agent_type = units "codex";
    account_profile_id = none;
    execution_profile_id = none;
    execution_mode = orchestrated;
    approval_mode = safe_auto;
  });
  account_by_id = λ id. inr none;
  resolve_alias = λ agent alias. inr none;
  runs_of_task = λ id. inr runs;
  active_runs = inr [];
  worktree_state = λ id. inr (some ready);
  start_review = λ agent task prompt. started;
  start_workflow = λ task implementer test_command model. started;
  continue_run = λ source p. started;
  create_worktree = λ task agent. inr (units "wt");
  start_run = λ task worktree p. started;
}

abbrev message : Option Text → Text → SendRequest
message task text = record {
  workspace_id = units "w";
  task_id = task;
  text = text;
  overrides = record { agent_type = none; account_profile_id = none; execution_profile_id = none };
}

abbrev run_of : RunStatus → Bool → TaskRun
run_of status has_session = record {
  id = units "r";
  is_exec = true;
  status = status;
  agent_type = units "codex";
  account_profile_id = none;
  execution_profile_id = none;
  execution_mode = orchestrated;
  approval_mode = safe_auto;
  model = none;
  has_session = has_session;
  worktree_id = some (units "old");
}

abbrev plan : Plan
plan = record {
  agent_type = units "codex";
  account_profile_id = none;
  execution_profile_id = none;
  execution_mode = orchestrated;
  approval_mode = safe_auto;
  model = none;
  prompt = units "fix";
}

send_message-IsTrace_example :
    IsTrace
      (message none (units "fix"))
      (send_message (services [] (inl (units "down"))) (message none (units "fix"))).0
      (is_ok (send_message (services [] (inl (units "down"))) (message none (units "fix"))).1)
send_message-IsTrace_example =
    send_message-IsTrace (services [] (inl (units "down"))) (message none (units "fix"))

-- The run is refused, so its worktree goes.
refused_run : launch (services [] (inl (units "down"))) (message none (units "fix")) plan ≡ (
  creates_task (units "fix") none
      ∷ creates_worktree (units "t") (units "codex")
      ∷ starts_run (units "t") (some (units "wt")) plan
      ∷ discards_worktree (units "wt")
      ∷ [],
  inl (from_service (units "down")),
)
unfolding launch ensure_task fresh_round is_space trim_start trim_end trim split_lines join_lines
refused_run = refl

-- The last round still runs.
running_round :
    launch
      (services (run_of running true ∷ []) (inr (units "new")))
      (message (some (units "t")) (units "fix"))
      plan
    ≡ ([], inl round_still_running)
unfolding launch ensure_task
running_round = refl

-- The last round has ended, and its session goes on.
continued_round :
    (launch
      (services (run_of completed true ∷ []) (inr (units "new")))
      (message (some (units "t")) (units "fix"))
      plan).0
    ≡ continues_run (units "r") plan ∷ []
unfolding launch ensure_task can_continue
continued_round = refl

can_continue-true_iff_example :
    (can_continue (services [] (inr (units "new"))) plan (run_of completed true) ≡ inr true) ↔ (
      IsSame plan (run_of completed true)
      × ((run_of completed true).has_session ≡ true)
      × ((w : Text) × ((run_of completed true).worktree_id ≡ some w)
          × CanReuse (services [] (inr (units "new"))) (units "r") w))
can_continue-true_iff_example =
    can_continue-true_iff (services [] (inr (units "new"))) plan (run_of completed true)
