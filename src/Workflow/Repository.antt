-- ===== src/Workflow/Repository.antt =====
-- apps/desktop/src/main/db/repositories/workflow-run-repository.ts: the tables workflow_runs and
-- workflow_steps as lists in insertion order, which is the order of `created_at`. A statement of SQL
-- succeeds unless it breaks a primary key; rows are typed, so that reading one always decodes.
use mathlib.Core.List.{reverse}
use teskra.Base.{
  true, false, not, ◌&&◌, any, lookup, String, ◌==◌, ℕ, Bool, List, [], ◌∷◌, Option, none, some,
  keep, if◌then◌else◌,
}
use teskra.Workflow.Types.{
  Definition, NodeType, Run, RunStatus, Step, StepStatus, StepResult, created, running, waiting,
  needs_user_review, completed, failed, cancelled, pending,
}

-- The last field is the log of the calls `decisions.cancelBySource({ workflowRunId })`.
pub record Db : Type 0 where
  pub runs : List Run
  pub steps : List Step
  pub cancelled_sources : List String

pub record RunPatch : Type 0 where
  pub status : Option RunStatus
  pub current_iteration : Option ℕ
  pub total_iterations : Option ℕ
  pub criteria_set_id : Option (Option String)
  pub criteria_iteration : Option ℕ
  pub completed_at : Option (Option String)

abbrev pub no_run_patch : RunPatch
no_run_patch = record {
  status = none;
  current_iteration = none;
  total_iterations = none;
  criteria_set_id = none;
  criteria_iteration = none;
  completed_at = none;
}

pub record StepPatch : Type 0 where
  pub status : Option StepStatus
  pub result : Option StepResult
  pub started_at : Option String
  pub finished_at : Option String

abbrev pub get_or {ℓ} : {A : Type ℓ} → Option A → A → A
get_or none a = a
get_or (some b) a = b

-- A field that may be NULL and that the patch sets.
abbrev pub or_old {ℓ} : {A : Type ℓ} → Option A → Option A → Option A
or_old none a = a
or_old (some b) a = some b

unfoldable pub patch_run : RunPatch → Run → Run
patch_run p r = record r {
  status = get_or p.status r.status;
  current_iteration = get_or p.current_iteration r.current_iteration;
  total_iterations = get_or p.total_iterations r.total_iterations;
  criteria_set_id = get_or p.criteria_set_id r.criteria_set_id;
  criteria_iteration = get_or p.criteria_iteration r.criteria_iteration;
  completed_at = get_or p.completed_at r.completed_at;
}

unfoldable pub patch_step : StepPatch → Step → Step
patch_step p s = record s {
  status = get_or p.status s.status;
  result = or_old p.result s.result;
  started_at = or_old p.started_at s.started_at;
  finished_at = or_old p.finished_at s.finished_at;
}

unfoldable pub find_run : String → List Run → Option Run
find_run id [] = none
find_run id (r ∷ rs) = if r.id == id then some r else find_run id rs

unfoldable pub find_step : String → List Step → Option Step
find_step id [] = none
find_step id (s ∷ ss) = if s.id == id then some s else find_step id ss

-- `UPDATE ... WHERE id = ?`: the id is a primary key, so one row at most.
unfoldable pub update_runs : String → RunPatch → List Run → List Run
update_runs id p [] = []
update_runs id p (r ∷ rs) = if r.id == id then patch_run p r ∷ rs else r ∷ update_runs id p rs

unfoldable pub update_steps : String → StepPatch → List Step → List Step
update_steps id p [] = []
update_steps id p (s ∷ ss) = if s.id == id then patch_step p s ∷ ss else s ∷ update_steps id p ss

abbrev pub get_run_by_id : Db → String → Option Run
get_run_by_id db id = find_run id db.runs

abbrev pub get_step_by_id : Db → String → Option Step
get_step_by_id db id = find_step id db.steps

-- `updateRun` and `updateStep` read the row back; none: no row has the id.
unfoldable pub update_run : Db → String → RunPatch → Db × Option Run
unfolding update_runs patch_run find_run
update_run db id p =
    let db' : Db = record db { runs = update_runs id p db.runs } in (db', get_run_by_id db' id)

unfoldable pub update_step : Db → String → StepPatch → Db × Option Step
unfolding update_steps patch_step find_step
update_step db id p =
    let db' : Db = record db { steps = update_steps id p db.steps } in (db', get_step_by_id db' id)

abbrev of_run : String → Step → Bool
of_run run_id s = s.workflow_run_id == run_id

unfoldable pub list_steps : Db → String → List Step
list_steps db run_id = keep (of_run run_id) db.steps

-- The row that `createRun` inserts, with its defaults.
abbrev pub new_run :
    (id now workflow_definition_id : String) (definition : Definition) (task_id : Option String)
    (total_iterations : ℕ) (criteria_set_id : Option String)
    → Run
new_run id now wid definition task_id total criteria_set_id = record {
  id = id;
  task_id = task_id;
  workflow_definition_id = wid;
  definition = definition;
  status = created;
  current_iteration = 0;
  total_iterations = total;
  criteria_iteration = 0;
  criteria_set_id = criteria_set_id;
  created_at = now;
  completed_at = none;
}

-- The row that `createStep` inserts, with its defaults.
abbrev pub new_step :
    (id now run_id node_id : String) (node_type : NodeType) (iteration attempt : ℕ)
    (depends_on : List String)
    → Step
new_step id now run_id node_id node_type iteration attempt depends_on = record {
  id = id;
  workflow_run_id = run_id;
  node_id = node_id;
  node_type = node_type;
  status = pending;
  iteration = iteration;
  attempt = attempt;
  depends_on = some depends_on;
  result = none;
  started_at = none;
  finished_at = none;
  created_at = now;
}

-- `status = ?`, where a status is asked for.
abbrev pub same_run_status : RunStatus → RunStatus → Bool
same_run_status created created = true
same_run_status running running = true
same_run_status waiting waiting = true
same_run_status needs_user_review needs_user_review = true
same_run_status completed completed = true
same_run_status failed failed = true
same_run_status cancelled cancelled = true
same_run_status _ _ = false

abbrev pub has_status : Option RunStatus → Run → Bool
has_status none r = true
has_status (some status) r = same_run_status status r.status

abbrev is_of_task : String → Run → Bool
is_of_task task_id r = elim r.task_id [ none ↦ false | some t ↦ t == task_id ]

-- `ORDER BY created_at DESC`.
unfoldable pub list_runs : Db → Option RunStatus → List Run
list_runs db status = reverse (keep (has_status status) db.runs)

unfoldable pub list_runs_by_task : Db → String → Option RunStatus → List Run
list_runs_by_task db task_id status =
    reverse (keep (λ r. is_of_task task_id r && has_status status r) db.runs)

abbrev names_agent_run : String → Step → Bool
names_agent_run agent_run_id s = elim s.result [
  | none ↦ false
  | some result ↦ elim (lookup "agentRunId" result) [ none ↦ false | some id ↦ id == agent_run_id ]
]

unfoldable pub has_step_with_agent_run : Db → String → Bool
has_step_with_agent_run db agent_run_id = any (names_agent_run agent_run_id) db.steps

abbrev pub other_run : String → Run → Bool
other_run id r = not (r.id == id)

abbrev pub not_of_run : String → Step → Bool
not_of_run id s = not (s.workflow_run_id == id)

-- The steps of the run go with it: ON DELETE CASCADE.
unfoldable pub delete_run : Db → String → Db × Bool
delete_run db id = (
  record db { runs = keep (other_run id) db.runs; steps = keep (not_of_run id) db.steps },
  any (λ r. r.id == id) db.runs,
)
