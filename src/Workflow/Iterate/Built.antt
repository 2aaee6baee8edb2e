-- ===== src/Workflow/Iterate/Built.antt =====
-- A request for a new run: the definition that is built for it is valid, and its loop begins and returns.
use teskra.Base.{
  ◌≡◌, refl, ap, ◌∙◌, String, Bool, List, [], ◌∷◌, ◌++◌, true, false, none, some, arith, inr, ◌⊎◌,
  suc, includes, add_id, eq_iff,
}
use teskra.Workflow.Types.{Definition, Run}
use teskra.Workflow.Repository.{Db, get_or, new_run, get_run_by_id}
use teskra.Workflow.Store.{CreateRequest, ok, create_run}
use teskra.Workflow.Iterate.{resolve_criteria_anchor, World, Rounds, IterateError, IterateResult}
use teskra.Workflow.Validate.{success, valid, validate_workflow_definition, validation_runs}
use teskra.Workflow.Store.Rows.{find_run-append}
use teskra.Workflow.Iterate.Bounded.{Current, Keeps, iterate_loop-returns}
use teskra.Workflow.Iterate.Loop.{iterate_loop}
use teskra.Workflow.Iterate.Calls.{
  create_request, created, run_for, unless_disposing, new_run_of, first_unregistered, begin_iterate,
  checked_begin, new_iterate_run, guarded, build_iterate_definition, Services, Controller,
  IterateRequest, policy_of, task_exists, create_iterate_run,
}

-- Whatever the agent and the reviewers: no rule of the graph is broken.
build_iterate_definition-valid :
    (agent : String) (reviewers : List String)
    → validate_workflow_definition (success (build_iterate_definition agent reviewers))
      ≡ valid (build_iterate_definition agent reviewers)
unfolding validation_runs build_iterate_definition
build_iterate_definition-valid agent reviewers = refl

create_run-ok :
    (exists : String → Bool) (db : Db) (now id : String) (q : CreateRequest) (d : Definition)
    (task : String)
    → validate_workflow_definition q.definition ≡ valid d
    → q.task_id ≡ some task
    → exists task ≡ true
    → get_run_by_id db id ≡ none
    → create_run exists db now id q ≡ (
        let r =
          new_run id now
            (get_or q.workflow_definition_id d.id)
            d
            q.task_id
            (get_or q.total_iterations 0)
            q.criteria_set_id in
        (record db { runs = db.runs ++ r ∷ [] }, ok (record { run = r; steps = [] })))
unfolding create_run
create_run-ok exists db now id q d task accepted given known fresh = ground arith

abbrev pub world_of : Db → World
world_of db = record { db = db; run_updates = []; tasks_for_review = [] }

module _ (s : Services) (c : Controller) (now id : String) (q : IterateRequest) (agent : String)
    (reviewers : List String) where
  -- The row of the run.
  abbrev pub begun : Run
  begun =
      new_run id now "iterate" (build_iterate_definition agent reviewers) (some q.task_id)
        (policy_of q.policy).max_total_rounds (resolve_criteria_anchor (s.sets_of_task q.task_id))

  abbrev pub with_begun : Db
  with_begun = record c.db { runs = c.db.runs ++ begun ∷ [] }

  create_iterate_run-ok :
      s.workspace_of_task q.task_id ≡ some q.workspace_id
      → get_run_by_id c.db id ≡ none
      → create_iterate_run s c.db now id q agent reviewers
        ≡ (with_begun, ok (record { run = begun; steps = [] }))
  unfolding create_iterate_run create_request build_iterate_definition
  create_iterate_run-ok found fresh =
      create_run-ok (task_exists s) c.db now id (create_request s q agent reviewers)
        (build_iterate_definition agent reviewers) q.task_id
        (build_iterate_definition-valid agent reviewers) refl (rw (task_exists, found) refl) fresh

  -- The controller with the loop of the run.
  abbrev pub with_loop : Controller
  with_loop = record c {
    db = with_begun;
    active_loops = add_id id c.active_loops;
    in_flight_loops = c.in_flight_loops ++ id ∷ [];
  }

  new_iterate_run-ok :
      s.workspace_of_task q.task_id ≡ some q.workspace_id
      → first_unregistered s (agent ∷ reviewers) ≡ none
      → get_run_by_id c.db id ≡ none
      → new_iterate_run s c now id q agent reviewers ≡ (record c { db = with_begun }, inr begun)
  unfolding new_iterate_run
  new_iterate_run-ok found registered fresh =
      rw (new_iterate_run, registered) (ap (created s c) (create_iterate_run-ok found fresh))

  begin_iterate-ok :
      q.begins ≡ new_run_of agent reviewers
      → c.disposing ≡ false
      → s.workspace_of_task q.task_id ≡ some q.workspace_id
      → first_unregistered s (agent ∷ reviewers) ≡ none
      → get_run_by_id c.db id ≡ none
      → includes c.active_loops id ≡ false
      → begin_iterate s c now id q ≡ (with_loop, inr begun)
  unfolding begin_iterate checked_begin guarded
  begin_iterate-ok asked free found registered fresh idle =
      let c' : Controller = record c { db = with_begun } in
      let run : run_for s c now id q q.begins ≡ (c', inr begun) =
        ap (run_for s c now id q) asked ∙ new_iterate_run-ok found registered fresh in
      let own = (eq_iff q.workspace_id q.workspace_id).1 refl in
      let checked : checked_begin s c now id q ≡ guarded s (run_for s c now id q q.begins) =
        rw (checked_begin, found, own) refl in
      let begins : guarded s (c', inr begun) ≡ (with_loop, inr begun) = rw (guarded, idle) refl in
      ap (λ b. unless_disposing s b c (checked_begin s c now id q)) free
      ∙ checked
      ∙ ap (guarded s) run
      ∙ begins

  begun-Current : get_run_by_id c.db id ≡ none → Current with_begun begun
  unfolding build_iterate_definition
  begun-Current fresh = ground (arith, find_run-append id begun c.db.runs, eq_iff id id)

  -- A request for a new run, of a task in its workspace and of registered agents, with an id that no row
  -- and no loop has, to a controller that is not disposing: its definition is valid, the run is stored
  -- and its loop begins; and the loop returns, on fuel of one more than the limit of all rounds, with an
  -- engine whose passes keep the number of the iteration.
  pub begin_iterate-returns :
      (rs : Rounds)
      → Keeps rs
      → q.begins ≡ new_run_of agent reviewers
      → c.disposing ≡ false
      → s.workspace_of_task q.task_id ≡ some q.workspace_id
      → first_unregistered s (agent ∷ reviewers) ≡ none
      → get_run_by_id c.db id ≡ none
      → includes c.active_loops id ≡ false
      → let policy = policy_of q.policy in
        (begin_iterate s c now id q ≡ (with_loop, inr begun))
        × (w : World) × (x : IterateError ⊎ IterateResult) × (iterate_loop
              (suc policy.max_total_rounds)
              rs
              policy
              0
              (world_of with_begun)
              begun
            ≡ some (w, x))
  begin_iterate-returns rs keeps asked free found registered fresh idle =
      let policy = policy_of q.policy in
      let (w, x, e) =
        iterate_loop-returns rs policy keeps (suc policy.max_total_rounds) 0 (world_of with_begun)
          begun (begun-Current fresh) (omega arith) (omega arith) in
      (begin_iterate-ok asked free found registered fresh idle, w, x, e)
