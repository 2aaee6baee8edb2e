-- ===== src/Workflow/Tests/Loops.antt =====
-- The loop of rounds over an engine whose passes settle at once.
use teskra.Base.{
  false, none, inr, String, ◌≡◌, refl, ap, ℕ, ◌⊎◌, true, List, [], ◌∷◌, Option, some, arith, sym,
  subst,
}
use teskra.Workflow.Types.{Run, needs_user_review}
use teskra.Workflow.Repository.{Db, new_run, find_run}
use teskra.Workflow.Store.{RunDetail, get_run}
use teskra.Workflow.Iterate.{
  IterationPolicy, IterateError, IterateResult, World, Rounds, CriteriaSet,
}
use teskra.Workflow.Validate.{validation_runs}
use teskra.Workflow.Iterate.Calls.{
  Begins, Controller, IterateRequest, Services, begin_iterate, new_run_of, policy_of, run_again,
}
use teskra.Workflow.Iterate.OneLoop.{
  ControllerCall, IsGuarded, begins, calls, disposes, ends, calls-IsGuarded,
}
use teskra.Workflow.Iterate.Built.{with_loop, with_begun, begun, world_of, begin_iterate-returns}
use teskra.Workflow.Iterate.Loop.{iterate_loop}
use teskra.Workflow.Iterate.Bounded.{Current, Keeps, iterate_loop-returns}
use teskra.Workflow.Tests.Samples.{iterate_definition}

-- A pass that reads the run back.
abbrev read_back : Db → String → Db × Option RunDetail
read_back db id = (db, get_run db id)

abbrev criteria : ℕ → List CriteriaSet
criteria n = record { id = "c1"; version = 1; confirmed = true } ∷ []

abbrev rounds : Rounds
rounds = record {
  start = read_back;
  sets = criteria;
  prepared = λ _. true;
  task_updates = λ _. true;
  now = "t7";
}

read_back-Keeps : Keeps rounds
unfolding get_run
read_back-Keeps db r d held h =
    let e : r ≡ d.run = ground arith in
    (ap (λ (y : Run). y.current_iteration) (sym e), subst (Current db) e held)

abbrev policy : IterationPolicy
policy = record { max_rounds_per_criteria_version = 3; max_total_rounds = 8 }

abbrev fresh : Run
fresh = new_run "r" "t0" "iterate" iterate_definition (some "task") 8 (some "c1")

-- Three rounds under the same criteria.
abbrev spent : Run
spent = record fresh { status = needs_user_review; current_iteration = 3; criteria_iteration = 3 }

abbrev world : Run → World
world r = record {
  db = record { runs = r ∷ []; steps = []; cancelled_sources = [] };
  run_updates = [];
  tasks_for_review = [];
}

iterate_loop-returns_example :
    (w' : World) × (x : IterateError ⊎ IterateResult) × (iterate_loop 9 rounds policy 0
        (world fresh)
        fresh
      ≡ some (w', x))
unfolding find_run
iterate_loop-returns_example =
    iterate_loop-returns rounds policy read_back-Keeps 9 0 (world fresh) fresh refl (omega arith)
      (omega arith)

abbrev services : Services
services = record {
  workspace_of_task = λ _. some "w";
  is_registered = λ _. true;
  sets_of_task = λ _. criteria 0;
}

abbrev idle : Controller
idle = record {
  db = record { runs = []; steps = []; cancelled_sources = [] };
  active_loops = [];
  in_flight_loops = [];
  disposing = false;
  cancels = [];
}

abbrev request : Begins → IterateRequest
request how = record {
  workspace_id = "w";
  task_id = "task";
  begins = how;
  policy = record { max_rounds_per_criteria_version = none; max_total_rounds = none };
}

abbrev for_new_run : IterateRequest
for_new_run = request (new_run_of "codex" ("claude" ∷ []))

begin_iterate-returns_example :
    (begin_iterate services idle "t0" "r" for_new_run ≡ (
      with_loop services idle "t0" "r" for_new_run "codex" ("claude" ∷ []),
      inr (begun services idle "t0" "r" for_new_run "codex" ("claude" ∷ [])),
    ))
    × (w : World) × (x : IterateError ⊎ IterateResult) × (iterate_loop 9 rounds
          (policy_of for_new_run.policy)
          0
          (world_of (with_begun services idle "t0" "r" for_new_run "codex" ("claude" ∷ [])))
          (begun services idle "t0" "r" for_new_run "codex" ("claude" ∷ []))
        ≡ some (w, x))
unfolding policy_of find_run
begin_iterate-returns_example =
    begin_iterate-returns services idle "t0" "r" for_new_run "codex" ("claude" ∷ []) rounds
      read_back-Keeps refl refl refl refl refl refl

-- The run is taken up again while its loop runs, then the loop settles and the controller is disposed.
abbrev requests : List ControllerCall
requests =
    begins "t0" "r" for_new_run
    ∷ begins "t1" "x" (request (run_again "r"))
    ∷ begins "t2" "r2" for_new_run
    ∷ ends "r"
    ∷ disposes
    ∷ begins "t3" "r3" for_new_run
    ∷ []

one_loop_left : (calls services idle requests).in_flight_loops ≡ "r2" ∷ []
unfolding calls find_run validation_runs
one_loop_left = refl

idle-IsGuarded : IsGuarded idle
idle-IsGuarded = record { same = refl; different = refl; told = λ d run h. cc }

calls-IsGuarded_example : IsGuarded (calls services idle requests)
calls-IsGuarded_example = calls-IsGuarded services idle requests idle-IsGuarded
