-- ===== src/Workflow/Store.antt =====
-- apps/desktop/src/main/workflows/workflow-run-store.ts: the domain service over the two tables. An
-- operation returns the tables and a result; `now` and the new ids are arguments.
pub mod Rows
pub mod Transitions
pub mod History
pub mod Definitions
pub mod Snapshots
pub mod Iterations
use teskra.Base.{
  String, ◌==◌, ℕ, ◌+◌, Bool, true, false, not, ◌&&◌, List, [], ◌∷◌, ◌++◌, map, Option, none, some,
  find, ltb, if◌then◌else◌,
}
use teskra.Workflow.Types.{
  Definition, Node, node_type, Run, RunStatus, Step, StepStatus, StepResult, pending, running,
  completed, failed, skipped, cancelled, waiting, needs_user_review, created,
}
use teskra.Workflow.Graph.{NormalizedDependency, normalize_depends_on}
use teskra.Workflow.Validate.{
  Validation, valid, invalid_graph, invalid_shape, Parsed, validate_workflow_definition,
}
use teskra.Workflow.Repository.{
  Db, RunPatch, no_run_patch, StepPatch, get_run_by_id, get_step_by_id, update_run, update_step,
  list_steps, new_run, new_step, get_or,
}

-- The errors of the store, one for each place that makes one, with the values its message shows.
pub data StoreError : Type 0 where
  definition_invalid : Validation → StoreError
  task_not_found run_not_found step_not_found missing_after_update duplicate_id :
      String → StoreError
  run_is_terminal : String → RunStatus → StoreError
  node_not_in_definition : (run node : String) → StoreError
  illegal_transition : String → (from to : StepStatus) → StoreError
  iteration_limit_reached : String → ℕ → StoreError

pub data Result {ℓ} (A : Type ℓ) : Type ℓ where
  ok : A → Result A
  err : StoreError → Result A

pub record RunDetail : Type 0 where
  pub run : Run
  pub steps : List Step

-- STEP_TRANSITIONS, as the test `STEP_TRANSITIONS[from].includes(to)`.
abbrev pub can_transition : StepStatus → StepStatus → Bool
can_transition pending running = true
can_transition pending skipped = true
can_transition pending cancelled = true
can_transition running completed = true
can_transition running failed = true
can_transition running cancelled = true
can_transition _ _ = false

abbrev pub is_terminal_step : StepStatus → Bool
is_terminal_step completed = true
is_terminal_step failed = true
is_terminal_step skipped = true
is_terminal_step cancelled = true
is_terminal_step _ = false

abbrev pub is_terminal_run : RunStatus → Bool
is_terminal_run completed = true
is_terminal_run failed = true
is_terminal_run cancelled = true
is_terminal_run _ = false

abbrev pub is_running_step : StepStatus → Bool
is_running_step running = true
is_running_step _ = false

abbrev pub or_missing {ℓ} : {A : Type ℓ} → String → Db × Option A → Db × Result A
or_missing id (db, none) = (db, err (missing_after_update id))
or_missing id (db, some a) = (db, ok a)

-- The request of `createRun`; the definition is what the schema made of the raw input.
pub record CreateRequest : Type 0 where
  pub definition : Parsed
  pub workflow_definition_id : Option String
  pub task_id : Option String
  pub total_iterations : Option ℕ
  pub criteria_set_id : Option String

abbrev pub insert_run : Db → Run → Db × Result RunDetail
insert_run db r = elim (get_run_by_id db r.id) [
  | some _ ↦ (db, err (duplicate_id r.id))
  | none ↦ (record db { runs = db.runs ++ r ∷ [] }, ok (record { run = r; steps = [] }))
]

-- `createRun` once the definition and the task are accepted.
abbrev pub create_valid : Db → String → String → CreateRequest → Definition → Db × Result RunDetail
create_valid db now id q d = insert_run db (
    new_run id now (get_or q.workflow_definition_id d.id) d q.task_id (get_or q.total_iterations 0)
      q.criteria_set_id)

-- `task_exists` is the look-up in the task repository.
abbrev pub missing_task : (String → Bool) → Option String → Option String
missing_task task_exists none = none
missing_task task_exists (some t) = if task_exists t then none else some t

unfoldable pub create_run :
    (task_exists : String → Bool) → Db → (now id : String) → CreateRequest → Db × Result RunDetail
create_run task_exists db now id q = elim (validate_workflow_definition q.definition) [
  | valid d ↦ elim (missing_task task_exists q.task_id) [
    | some t ↦ (db, err (task_not_found t))
    | none ↦ create_valid db now id q d
  ]
  | invalid_graph issues ↦ (db, err (definition_invalid (invalid_graph issues)))
  | invalid_shape issues ↦ (db, err (definition_invalid (invalid_shape issues)))
]

unfoldable pub get_run : Db → String → Option RunDetail
get_run db id = elim (get_run_by_id db id) [
  | none ↦ none
  | some r ↦ some (record { run = r; steps = list_steps db id })
]

abbrev pub insert_step : Db → Step → Db × Result Step
insert_step db s = elim (get_step_by_id db s.id) [
  | some _ ↦ (db, err (duplicate_id s.id))
  | none ↦ (record db { steps = db.steps ++ s ∷ [] }, ok s)
]

abbrev pub has_id : String → Node → Bool
has_id id n = n.id == id

abbrev pub dependency_ids : Node → List String
dependency_ids n = map (λ (d : NormalizedDependency). d.node) (normalize_depends_on n.depends_on)

abbrev pub add_node_step : Db → String → String → ℕ → Run → String → Option Node → Db × Result Step
add_node_step db now id attempt r node_id none = (db, err (node_not_in_definition r.id node_id))
add_node_step db now id attempt r node_id (some n) =
    insert_step db
      (new_step id now r.id node_id (node_type n) r.current_iteration attempt (dependency_ids n))

-- The attempt is 1 where the caller gives none.
unfoldable pub add_step : Db → (now id run_id node_id : String) → ℕ → Db × Result Step
add_step db now id run_id node_id attempt = elim (get_run_by_id db run_id) [
  | none ↦ (db, err (run_not_found run_id))
  | some r ↦
      if is_terminal_run r.status
      then (db, err (run_is_terminal run_id r.status))
      else add_node_step db now id attempt r node_id (find (has_id node_id) r.definition.steps)
]

abbrev pub transition_patch : String → StepStatus → Option StepResult → StepPatch
transition_patch now to result = record {
  status = some to;
  result = result;
  started_at = if is_running_step to then some now else none;
  finished_at = if is_terminal_step to then some now else none;
}

unfoldable pub transition_step :
    Db → (now step_id : String) → StepStatus → Option StepResult → Db × Result Step
unfolding update_step
transition_step db now step_id to result = elim (get_step_by_id db step_id) [
  | none ↦ (db, err (step_not_found step_id))
  | some s ↦
      if can_transition s.status to
      then or_missing step_id (update_step db step_id (transition_patch now to result))
      else (db, err (illegal_transition step_id s.status to))
]

abbrev pub advance_patch : Run → RunPatch
advance_patch r = record no_run_patch {
  current_iteration = some (r.current_iteration + 1);
  criteria_iteration = some (r.criteria_iteration + 1);
}

abbrev pub at_limit : Run → Bool
at_limit r = ltb 0 r.total_iterations && ltb r.total_iterations (r.current_iteration + 1)

unfoldable pub advance_iteration : Db → String → Db × Result Run
unfolding update_run
advance_iteration db run_id = elim (get_run_by_id db run_id) [
  | none ↦ (db, err (run_not_found run_id))
  | some r ↦
      if is_terminal_run r.status
      then (db, err (run_is_terminal run_id r.status))
      else if at_limit r
      then (db, err (iteration_limit_reached run_id r.total_iterations))
      else or_missing run_id (update_run db run_id (advance_patch r))
]

abbrev pub anchor_patch : Option String → RunPatch
anchor_patch set = record no_run_patch { criteria_set_id = some set; criteria_iteration = some 0 }

unfoldable pub anchor_criteria_set : Db → String → Option String → Db × Result Run
unfolding update_run
anchor_criteria_set db run_id set = elim (get_run_by_id db run_id) [
  | none ↦ (db, err (run_not_found run_id))
  | some r ↦
      if is_terminal_run r.status
      then (db, err (run_is_terminal run_id r.status))
      else or_missing run_id (update_run db run_id (anchor_patch set))
]

abbrev pub status_patch : String → RunStatus → RunPatch
status_patch now status = record no_run_patch {
  status = some status;
  completed_at = if is_terminal_run status then some (some now) else none;
}

-- The decisions of a run are cancelled after its update, whatever comes of the call.
abbrev pub cancel_decisions : String → RunStatus → Db × Result Run → Db × Result Run
cancel_decisions run_id status (db, err e) = (db, err e)
cancel_decisions run_id status (db, ok r) = (
  if is_terminal_run status
      then record db { cancelled_sources = db.cancelled_sources ++ run_id ∷ [] }
      else db,
  ok r,
)

unfoldable pub set_run_status : Db → (now run_id : String) → RunStatus → Db × Result Run
unfolding update_run
set_run_status db now run_id status = elim (get_run_by_id db run_id) [
  | none ↦ (db, err (run_not_found run_id))
  | some r ↦
      cancel_decisions run_id status
        (or_missing run_id (update_run db run_id (status_patch now status)))
]
