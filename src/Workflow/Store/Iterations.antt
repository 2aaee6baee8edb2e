-- ===== src/Workflow/Store/Iterations.antt =====
-- The iteration counters of a run: bounded, and never going back.
use teskra.Workflow.Validate.{
  Validation, valid, invalid_graph, invalid_shape, Issue, validate_workflow_definition,
}
use teskra.Base.{
  String, ◌==◌, eq_iff, ℕ, ◌≤◌, ◌<◌, ◌≡◌, refl, ◌⊎◌, inl, inr, Bool, true, false, List, [], ◌∷◌,
  ◌++◌, Option, none, some, Option-cases, Bool-cases, if◌then◌else◌, arith, ◌||◌,
}
use teskra.Workflow.Types.{Run, RunStatus, StepStatus, StepResult, Definition}
use teskra.Workflow.Repository.{Db, get_run_by_id, find_run, update_runs, RunPatch, patch_run}
use teskra.Workflow.Store.{
  ok, err, CreateRequest, create_run, add_step, transition_step, advance_iteration,
  anchor_criteria_set, set_run_status, is_terminal_run, advance_patch, anchor_patch, status_patch,
  at_limit, insert_run, run_not_found, run_is_terminal, iteration_limit_reached, missing_task,
  create_valid,
}
use teskra.Workflow.Store.History.{
  Call, creates, adds, transitions, advances, anchors, sets, call, calls,
}
use teskra.Workflow.Store.Rows.{find-update_runs}

-- The current iteration stays within the total where one is set, and the iterations under one set of
-- criteria are among all.
pub record IsBounded (r : Run) : Type 0 where
  pub within : (0 < r.total_iterations) → r.current_iteration ≤ r.total_iterations
  pub counted : r.criteria_iteration ≤ r.current_iteration

abbrev pub AllBounded : List Run → Type 0
AllBounded [] = Unit
AllBounded (r ∷ rs) = IsBounded r × AllBounded rs

update_runs-AllBounded :
    (id : String) (p : RunPatch) (rs : List Run)
    → ((r : Run) → find_run id rs ≡ some r → IsBounded r → IsBounded (patch_run p r))
    → AllBounded rs
    → AllBounded (update_runs id p rs)
unfolding find_run update_runs
update_runs-AllBounded id p [] h b = tt
update_runs-AllBounded id p (r ∷ rs) h (br, brs) = elim (Bool-cases (r.id == id)) [
  | inl hit ↦ rw hit (h r (rw hit refl) br, brs)
  | inr miss ↦ rw miss (br, update_runs-AllBounded id p rs (λ q e. h q (rw miss e)) brs)
]

append-AllBounded :
    (rs : List Run) (r : Run) → AllBounded rs → IsBounded r → AllBounded (rs ++ r ∷ [])
append-AllBounded [] r b h = (h, tt)
append-AllBounded (q ∷ rs) r (bq, b) h = (bq, append-AllBounded rs r b h)

pub advance_iteration-missing :
    (db : Db) (run_id : String)
    → get_run_by_id db run_id ≡ none
    → advance_iteration db run_id ≡ (db, err (run_not_found run_id))
unfolding advance_iteration
advance_iteration-missing db run_id missing = rw (missing, advance_iteration) refl

-- The two refusals have their own errors; the tables stay.
pub advance_iteration-refused :
    (db : Db) (run_id : String) (r : Run)
    → get_run_by_id db run_id ≡ some r
    → (is_terminal_run r.status || at_limit r) ≡ true
    → advance_iteration db run_id ≡ (
      db,
      err (
          if is_terminal_run r.status
          then run_is_terminal run_id r.status
          else iteration_limit_reached run_id r.total_iterations),
    )
unfolding advance_iteration
advance_iteration-refused db run_id r found refused = rw (found, advance_iteration) (ground arith)

pub advance_iteration-free :
    (db : Db) (run_id : String) (r : Run)
    → get_run_by_id db run_id ≡ some r
    → (is_terminal_run r.status || at_limit r) ≡ false
    → advance_iteration db run_id ≡ (
      record db { runs = update_runs run_id (advance_patch r) db.runs },
      ok (patch_run (advance_patch r) r),
    )
unfolding advance_iteration
advance_iteration-free db run_id r found free =
    rw (found, advance_iteration)
      (ground
        (arith, find-update_runs run_id run_id (advance_patch r) db.runs, eq_iff run_id run_id))

advance_patch-IsBounded :
    (r : Run)
    → (is_terminal_run r.status || at_limit r) ≡ false
    → IsBounded r
    → IsBounded (patch_run (advance_patch r) r)
unfolding patch_run
advance_patch-IsBounded r free b = ground arith

anchor_patch-IsBounded :
    (set : Option String) (r : Run) → IsBounded r → IsBounded (patch_run (anchor_patch set) r)
unfolding patch_run
anchor_patch-IsBounded set r b = ground arith

status_patch-IsBounded :
    (now : String) (status : RunStatus) (r : Run)
    → IsBounded r
    → IsBounded (patch_run (status_patch now status) r)
unfolding patch_run
status_patch-IsBounded now status r b = ground arith

advance_iteration-AllBounded :
    (db : Db) (run_id : String)
    → AllBounded db.runs
    → AllBounded (advance_iteration db run_id).0.runs
advance_iteration-AllBounded db run_id b = elim (Option-cases (get_run_by_id db run_id)) [
  | inl missing ↦ rw (advance_iteration-missing db run_id missing) b
  | inr (r, found) ↦ elim (Bool-cases (is_terminal_run r.status || at_limit r)) [
    | inl refused ↦ rw (advance_iteration-refused db run_id r found refused) b
    | inr free ↦ rw (advance_iteration-free db run_id r found free) (
        update_runs-AllBounded run_id (advance_patch r) db.runs
          (λ q e v.
            let same : q ≡ r = cc in rw same (advance_patch-IsBounded r free (rw (← same) v)))
          b)
  ]
]

anchor_criteria_set-AllBounded :
    (db : Db) (run_id : String) (set : Option String)
    → AllBounded db.runs
    → AllBounded (anchor_criteria_set db run_id set).0.runs
unfolding anchor_criteria_set
anchor_criteria_set-AllBounded db run_id set b = ground (
  arith,
  update_runs-AllBounded run_id (anchor_patch set) db.runs (λ q e v. anchor_patch-IsBounded set q v)
      b,
)

set_run_status-AllBounded :
    (db : Db) (now run_id : String) (status : RunStatus)
    → AllBounded db.runs
    → AllBounded (set_run_status db now run_id status).0.runs
unfolding set_run_status
set_run_status-AllBounded db now run_id status b = ground (
  arith,
  update_runs-AllBounded run_id (status_patch now status) db.runs
      (λ q e v. status_patch-IsBounded now status q v) b,
)

insert_run-AllBounded :
    (db : Db) (r : Run) → IsBounded r → AllBounded db.runs → AllBounded (insert_run db r).0.runs
insert_run-AllBounded db r v b = ground (arith, append-AllBounded db.runs r b v)

create_valid-AllBounded :
    (db : Db) (now id : String) (q : CreateRequest) (d : Definition)
    → AllBounded db.runs
    → AllBounded (create_valid db now id q d).0.runs
create_valid-AllBounded db now id q d b = insert_run-AllBounded db _ (omega arith) b

pub Validation-cases :
    (v : Validation)
    → ((d : Definition) × (v ≡ valid d))
      ⊎ (((is : List Issue) × (v ≡ invalid_graph is))
          ⊎ ((is : List (String × String)) × (v ≡ invalid_shape is)))
Validation-cases (valid d) = inl (d, refl)
Validation-cases (invalid_graph is) = inr (inl (is, refl))
Validation-cases (invalid_shape is) = inr (inr (is, refl))

create_run-AllBounded :
    (tasks : String → Bool) (db : Db) (now id : String) (q : CreateRequest)
    → AllBounded db.runs
    → AllBounded (create_run tasks db now id q).0.runs
unfolding create_run
create_run-AllBounded tasks db now id q b =
    elim (Validation-cases (validate_workflow_definition q.definition)) [
      | inr (inl (is, e)) ↦ rw (e, create_run) b
      | inr (inr (is, e)) ↦ rw (e, create_run) b
      | inl (d, e) ↦ elim (Option-cases (missing_task tasks q.task_id)) [
        | inl known ↦ rw (e, known, create_run) (create_valid-AllBounded db now id q d b)
        | inr (t, unknown) ↦ rw (e, unknown, create_run) b
      ]
    ]

pub add_step-runs :
    (db : Db) (now id run_id node_id : String) (attempt : ℕ)
    → (add_step db now id run_id node_id attempt).0.runs ≡ db.runs
unfolding add_step
add_step-runs db now id run_id node_id attempt = ground arith

pub transition_step-runs :
    (db : Db) (now id : String) (to : StepStatus) (result : Option StepResult)
    → (transition_step db now id to result).0.runs ≡ db.runs
unfolding transition_step
transition_step-runs db now id to result = ground arith

call-AllBounded :
    (tasks : String → Bool) (db : Db) (c : Call)
    → AllBounded db.runs
    → AllBounded (call tasks db c).runs
unfolding call
call-AllBounded tasks db (creates now id q) b = create_run-AllBounded tasks db now id q b
call-AllBounded tasks db (adds now id run_id node_id attempt) b =
    rw (add_step-runs db now id run_id node_id attempt) b
call-AllBounded tasks db (transitions now id to result) b =
    rw (transition_step-runs db now id to result) b
call-AllBounded tasks db (advances run_id) b = advance_iteration-AllBounded db run_id b
call-AllBounded tasks db (anchors run_id set) b = anchor_criteria_set-AllBounded db run_id set b
call-AllBounded tasks db (sets now run_id status) b =
    set_run_status-AllBounded db now run_id status b

-- Whatever calls are made, no run is ever in a later iteration than its total where it has one, and
-- its iterations under the current criteria never outnumber all its iterations.
pub calls-AllBounded :
    (tasks : String → Bool) (db : Db) (cs : List Call)
    → AllBounded db.runs
    → AllBounded (calls tasks db cs).runs
unfolding calls
calls-AllBounded tasks db [] b = b
calls-AllBounded tasks db (c ∷ cs) b =
    calls-AllBounded tasks (call tasks db c) cs (call-AllBounded tasks db c b)
