-- ===== src/Workflow/Tests/Stores.antt =====
-- Runs of the run store, and its theorems at concrete tables.
use teskra.Base.{◌≡◌, ◌↔◌, ◌⊎◌, refl, true, List, [], ◌∷◌, none, some, arith}
use teskra.Workflow.Types.{Run, Step, pending, running, completed, agent, shell}
use teskra.Workflow.Repository.{Db, list_runs, find_run, get_step_by_id, new_run, new_step}
use teskra.Workflow.Store.{
  err, StoreError, illegal_transition, iteration_limit_reached, transition_step, advance_iteration,
  add_step,
}
use teskra.Workflow.Store.Transitions.{
  Move, Transitioned, transition_step-ok, transition_step-err_iff,
}
use teskra.Workflow.Store.History.{
  Call, adds, transitions, advances, sets, call, calls, calls-keeps_terminal,
}
use teskra.Workflow.Store.Definitions.{all_belong}
use teskra.Workflow.Store.Snapshots.{Write, calls_store, deletes, writes, writes-all_belong}
use mathlib.Core.List.{map}
use teskra.Workflow.Store.Iterations.{AllBounded, calls-AllBounded}
use teskra.Workflow.Tests.Samples.{iterate_definition}

abbrev run_row : Run
run_row = new_run "r" "t0" "iterate" iterate_definition none 2 none

abbrev started : Step
started = record (new_step "s1" "t1" "r" "implement" agent 0 1 []) {
  status = running;
  started_at = some "t1";
}

abbrev finished : Step
finished = record (new_step "s2" "t1" "r" "fix" agent 0 1 []) { status = completed }

abbrev sample_db : Db
sample_db = record { runs = run_row ∷ []; steps = started ∷ finished ∷ []; cancelled_sources = [] }

abbrev history : List Call
history =
    adds "t2" "s3" "r" "review-fix" 1
    ∷ transitions "t3" "s1" completed none
    ∷ transitions "t3" "s2" running none
    ∷ advances "r"
    ∷ advances "r"
    ∷ advances "r"
    ∷ sets "t4" "r" teskra.Workflow.Types.RunStatus.cancelled
    ∷ []

restart_refused :
    transition_step sample_db "t3" "s2" running none
    ≡ (sample_db, err (illegal_transition "s2" completed running))
unfolding transition_step
restart_refused = refl

limit_reached :
    (advance_iteration (calls (λ _. true) sample_db (advances "r" ∷ advances "r" ∷ [])) "r").1
    ≡ err (iteration_limit_reached "r" 2)
unfolding advance_iteration calls call
limit_reached = refl

transition_step-ok_example :
    Transitioned sample_db
      (transition_step sample_db "t3" "s1" completed none).0
      "t3"
      "s1"
      completed
      none
      (record started { status = completed; finished_at = some "t3" })
unfolding transition_step
transition_step-ok_example = transition_step-ok sample_db "t3" "s1" completed none _ refl

transition_step-err_iff_example :
    ((e : StoreError) × (transition_step sample_db "t3" "s2" running none ≡ (sample_db, err e))) ↔ (
      (get_step_by_id sample_db "s2" ≡ none)
      ⊎ ((s : Step) × (get_step_by_id sample_db "s2" ≡ some s) × (¬ Move s.status running)))
transition_step-err_iff_example = transition_step-err_iff sample_db "t3" "s2" running none

calls-keeps_terminal_example :
    get_step_by_id (calls (λ _. true) sample_db history) "s2" ≡ some finished
unfolding teskra.Workflow.Repository.find_step
calls-keeps_terminal_example =
    calls-keeps_terminal (λ _. true) sample_db history "s2" finished refl refl

calls-AllBounded_example : AllBounded (calls (λ _. true) sample_db history).runs
calls-AllBounded_example = calls-AllBounded (λ _. true) sample_db history (omega arith)

-- The run is deleted in the middle of its history.
abbrev deletion : List Write
deletion =
    calls_store (adds "t2" "s3" "r" "review-fix" 1)
    ∷ deletes "r"
    ∷ calls_store (adds "t3" "s4" "r" "fix" 1)
    ∷ []

nothing_left : (writes (λ _. true) sample_db deletion).steps ≡ []
unfolding writes add_step find_run teskra.Workflow.Repository.find_step
nothing_left = refl

writes-all_belong_example : all_belong (writes (λ _. true) sample_db deletion) ≡ true
unfolding find_run
writes-all_belong_example = writes-all_belong (λ _. true) sample_db deletion refl

newest_run_first :
    map
      (λ (r : Run). r.id)
      (list_runs (record sample_db { runs = run_row ∷ record run_row { id = "r2" } ∷ [] }) none)
    ≡ "r2" ∷ "r" ∷ []
unfolding list_runs
newest_run_first = refl
