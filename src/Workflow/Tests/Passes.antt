-- ===== src/Workflow/Tests/Passes.antt =====
-- Passes of the engine at concrete runs: an iteration of the iterate workflow, and a pass whose only
-- node has no executor.
use teskra.Workflow.Engine.Cancels.{IsRead, terminal_at, cancel-terminal}
use teskra.Workflow.Engine.Begins.{begin_pass-answers}
use teskra.Workflow.Engine.Resolves.{IsSuspended, Records, resolve_step-Records}
use teskra.Workflow.Engine.Quiet.{Settles, schedule-IsQuiet}
use teskra.Workflow.Engine.Counting.{count_open}
use teskra.Base.{
  String, ◌≡◌, refl, ◌⊎◌, inl, inr, ℕ, Bool, true, false, List, [], ◌∷◌, Option, none, some, arith,
  length, all, here,
}
use teskra.Workflow.Types.{
  Definition, Step, shell_body, always, running, review_panel, node_type, NodeType, StepStatus,
  Node, agent, pending, completed,
}
use teskra.Workflow.Graph.{condition_outcomes, NormalizedDependency}
use teskra.Workflow.Repository.{Db, new_run, new_step}
use teskra.Workflow.Store.{RunDetail}
use teskra.Workflow.Engine.{EngineError, Engine, Pass, State, Spawn, Completion, NodeState}
use teskra.Workflow.Engine.Schedule.{schedule, keys}
use teskra.Workflow.Engine.Passes.{begin_pass, Answer}
use teskra.Workflow.Engine.Calls.{resolve_step, cancel}
use teskra.Workflow.Tests.Samples.{iterate_definition, node, implement, review_implement}

abbrev pub spawn : Spawn
spawn = record { custom = λ _. none; has_agents = true; now = "t5" }

abbrev pub idle_engine : Definition → Engine
idle_engine d = record {
  db = record {
    runs = new_run "r" "t0" "w" d none 2 none ∷ [];
    steps = [];
    cancelled_sources = [];
  };
  passes = [];
  suspended_steps = [];
  events = [];
}

abbrev lonely : Definition
lonely = record { id = "lonely"; steps = node "a" always (shell_body "make") [] ∷ [] }

abbrev step_name : String → String
step_name n = n

abbrev pass_of : Option (Answer Pass) → Option Pass
pass_of none = none
pass_of (some (_, inl _)) = none
pass_of (some (_, inr p)) = some p

abbrev finishes : Option Pass → ℕ
finishes none = 0
finishes (some p) = length p.finished

abbrev row : String → NodeType → StepStatus → Step
row id t status = record (new_step id "t1" "r" id t 0 1 []) { status = status }

abbrev entry : Node → StepStatus → Bool → Option String → String × NodeState
entry n status terminal outcome = (
  n.id,
  record {
    node = n;
    step = row n.id (node_type n) status;
    terminal = terminal;
    outcome = outcome;
    activates_edges = terminal;
    has_cancel = false;
  },
)

-- The implementation is done, and its review is next; or the review waits for its verdict.
abbrev pass_with : StepStatus → List (String × String) → Pass
pass_with status suspended = record {
  run_id = "r";
  run = new_run "r" "t0" "w" iterate_definition none 2 none;
  nodes =
      entry implement completed true (some "success")
      ∷ entry review_implement status false none
      ∷ [];
  suspended = suspended;
  cancelling = false;
  finished = [];
}

abbrev engine_with : StepStatus → List (String × String) → Engine
engine_with status suspended = record {
  db = record {
    runs = new_run "r" "t0" "w" iterate_definition none 2 none ∷ [];
    steps = row "implement" agent completed ∷ row "review-implement" review_panel status ∷ [];
    cancelled_sources = [];
  };
  passes = ("r", pass_with status suspended) ∷ [];
  suspended_steps = ("review-implement", "r") ∷ [];
  events = [];
}

abbrev ready : State
ready = (engine_with pending [], pass_with pending [])

abbrev parked : Engine
parked = engine_with running (("review-implement", "review-implement") ∷ [])

abbrev approval : Completion
approval = record { outcome = some "approve"; result = [] }

-- What a run of the engine computes with.
engine_runs : Unit {0}
unfolding begin_pass schedule teskra.Workflow.Store.get_run teskra.Workflow.Repository.find_run
    teskra.Workflow.Repository.list_steps teskra.Workflow.Store.add_step
    teskra.Workflow.Repository.find_step teskra.Workflow.Graph.active_node_ids_for_iteration
    teskra.Workflow.Store.set_run_status teskra.Workflow.Store.transition_step
engine_runs = tt

-- The loop of `schedule` is entered again by `settleNode`, and both ends of it finish the pass.
lonely-finishes_twice :
    finishes (pass_of (begin_pass spawn (λ _. true) step_name (idle_engine lonely) "r")) ≡ 2
unfolding engine_runs
lonely-finishes_twice = refl

implement_waits :
    finishes (pass_of (begin_pass spawn (λ _. true) step_name (idle_engine iterate_definition) "r"))
    ≡ 0
unfolding engine_runs
implement_waits = refl

schedule-IsQuiet_example : Settles ready (schedule 2 spawn ready)
unfolding count_open
schedule-IsQuiet_example = schedule-IsQuiet 2 spawn ready refl (omega arith)

abbrev reviewed : Step
reviewed = row "review-implement" review_panel running

review-IsSuspended :
    IsSuspended parked "review-implement"
      (pass_with running (("review-implement", "review-implement") ∷ []))
      "review-implement"
      (entry review_implement running false none).1
      reviewed
unfolding teskra.Workflow.Repository.find_step
review-IsSuspended = record {
  known = refl;
  registered = refl;
  parked = refl;
  node = refl;
  live = refl;
  stored = refl;
  runs = refl;
}

resolve_step-Records_example :
    (e' : Engine) × (st : Step) × (resolve_step spawn parked "review-implement" approval
      ≡ some (e', inr (some st)))
    × Records reviewed st "approve"
resolve_step-Records_example =
    resolve_step-Records spawn parked "review-implement" "review-implement" "approve" approval
      (pass_with running (("review-implement", "review-implement") ∷ []))
      (entry review_implement running false none).1 reviewed review-IsSuspended refl
      (inr (refl, here refl)) refl

abbrev approve : Option String
approve = some "approve"

abbrev on_failure : NormalizedDependency
on_failure = record { node = "implement"; on = some "failure" }

abbrev failed_outcome : String
failed_outcome = "failure"

begin_pass-answers_example :
    (a : Answer Pass) × (begin_pass spawn (λ _. true) step_name (idle_engine iterate_definition) "r"
      ≡ some a)
begin_pass-answers_example =
    begin_pass-answers spawn (λ _. true) step_name (idle_engine iterate_definition) "r"

cancel-terminal_example :
    (p : Pass) × (r : EngineError ⊎ RunDetail) × ((cancel "t6" parked "r").1 ≡ some p)
    × (p.finished ≡ r ∷ [])
    × IsRead (cancel "t6" parked "r").0.0 "r" r
    × (all
          (terminal_at p.nodes)
          (keys (pass_with running (("review-implement", "review-implement") ∷ [])).nodes)
        ≡ true)
unfolding teskra.Workflow.Store.get_run teskra.Workflow.Repository.find_run
cancel-terminal_example =
    cancel-terminal "t6" parked "r" _
      (pass_with running (("review-implement", "review-implement") ∷ [])) refl refl refl
