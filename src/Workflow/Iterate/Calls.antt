-- ===== src/Workflow/Iterate/Calls.antt =====
-- iteration-controller.ts: what `iterate` checks before its loop, the guard against a second loop for a
-- run, and dispose. A promise of a loop is the id of its run.
use teskra.Base.{
  String, ◌==◌, ℕ, Bool, true, false, ◌⊎◌, inl, inr, List, [], ◌∷◌, ◌++◌, Option, none, some,
  includes, add_id, delete_id, if◌then◌else◌,
}
use teskra.Workflow.Types.{
  NodeBody, agent_body, review_panel_body, Node, RunOn, first, subsequent, Dependency, plain,
  Definition, Run,
}
use teskra.Workflow.Repository.{Db, get_or}
use teskra.Workflow.Validate.{success}
use teskra.Workflow.Store.{
  StoreError, Result, ok, err, RunDetail, CreateRequest, create_run, get_run,
}
use teskra.Workflow.Iterate.{IterationPolicy, CriteriaSet, resolve_criteria_anchor}

abbrev iterate_node : String → RunOn → NodeBody → Option (List Dependency) → Node
iterate_node id run_on body deps = record {
  id = id;
  depends_on = deps;
  run_on = run_on;
  body = body;
}

abbrev agent_in_role : String → String → NodeBody
agent_in_role agent role =
    agent_body (record {
      agent = agent;
      role = some role;
      account_profile = none;
      profile = none;
      env = none;
    })

unfoldable pub build_iterate_definition : (agent : String) → (reviewers : List String) → Definition
build_iterate_definition agent reviewers = record {
  id = "iterate";
  steps =
      iterate_node "implement" first (agent_in_role agent "implementer") none
      ∷ iterate_node "fix" subsequent (agent_in_role agent "fixer") none
      ∷ iterate_node "review-implement" first (review_panel_body reviewers)
          (some (plain "implement" ∷ []))
      ∷ iterate_node "review-fix" subsequent (review_panel_body reviewers) (some (plain "fix" ∷ []))
      ∷ [];
}

pub record PolicyPatch : Type 0 where
  pub max_rounds_per_criteria_version : Option ℕ
  pub max_total_rounds : Option ℕ

-- DEFAULT_ITERATION_POLICY for what the request leaves out.
unfoldable pub policy_of : PolicyPatch → IterationPolicy
policy_of p = record {
  max_rounds_per_criteria_version = get_or p.max_rounds_per_criteria_version 3;
  max_total_rounds = get_or p.max_total_rounds 8;
}

-- The schema asks for agent and reviewers where no run is taken up again.
pub data Begins : Type 0 where
  new_run_of : (agent : String) (reviewers : List String) → Begins
  run_again : (run_id : String) → Begins

pub record IterateRequest : Type 0 where
  pub workspace_id : String
  pub task_id : String
  pub begins : Begins
  pub policy : PolicyPatch

pub data Refusal : Type 0 where
  shutting_down : Refusal
  task_missing : String → Refusal
  other_workspace : String → Refusal
  agent_not_registered : String → Refusal
  store_refuses : StoreError → Refusal
  run_not_found : String → Refusal
  other_task : String → Refusal
  already_active : String → Refusal

pub record Services : Type 0 where
  -- The workspace of a task, where there is the task.
  pub workspace_of_task : String → Option String
  pub is_registered : String → Bool
  pub sets_of_task : String → List CriteriaSet

pub record Controller : Type 0 where
  pub db : Db
  pub active_loops : List String
  pub in_flight_loops : List String
  pub disposing : Bool
  -- The calls of `engine.cancel`.
  pub cancels : List String

abbrev pub Admitted : Type 0
Admitted = Controller × (Refusal ⊎ Run)

module _ (s : Services) where
  abbrev pub first_unregistered : List String → Option String
  first_unregistered [] = none
  first_unregistered (a ∷ agents) = if s.is_registered a then first_unregistered agents else some a

  abbrev pub task_exists : String → Bool
  task_exists id = elim (s.workspace_of_task id) [ none ↦ false | some w ↦ true ]

  abbrev pub created : Controller → Db × Result RunDetail → Admitted
  created c (db, err e) = (record c { db = db }, inl (store_refuses e))
  created c (db, ok d) = (record c { db = db }, inr d.run)

  -- The run that a request asks for: its limit is that of all rounds, its anchor the confirmed set.
  unfoldable pub create_request : IterateRequest → String → List String → CreateRequest
  unfolding build_iterate_definition policy_of resolve_criteria_anchor
  create_request q agent reviewers = record {
    definition = success (build_iterate_definition agent reviewers);
    workflow_definition_id = none;
    task_id = some q.task_id;
    total_iterations = some (policy_of q.policy).max_total_rounds;
    criteria_set_id = resolve_criteria_anchor (s.sets_of_task q.task_id);
  }

  unfoldable pub create_iterate_run :
      Db → (now id : String) → IterateRequest → String → List String → Db × Result RunDetail
  unfolding create_request create_run
  create_iterate_run db now id q agent reviewers =
      create_run task_exists db now id (create_request q agent reviewers)

  unfoldable pub new_iterate_run :
      Controller → (now id : String) → IterateRequest → String → List String → Admitted
  unfolding create_iterate_run
  new_iterate_run c now id q agent reviewers = elim (first_unregistered (agent ∷ reviewers)) [
    | some a ↦ (c, inl (agent_not_registered a))
    | none ↦ created c (create_iterate_run c.db now id q agent reviewers)
  ]

  abbrev pub is_of_task : String → Option String → Bool
  is_of_task task_id none = false
  is_of_task task_id (some t) = t == task_id

  unfoldable pub known_run : Controller → IterateRequest → String → Admitted
  unfolding get_run
  known_run c q run_id = elim (get_run c.db run_id) [
    | none ↦ (c, inl (run_not_found run_id))
    | some d ↦
        if is_of_task q.task_id d.run.task_id then (c, inr d.run) else (c, inl (other_task run_id))
  ]

  abbrev pub run_for : Controller → (now id : String) → IterateRequest → Begins → Admitted
  run_for c now id q (new_run_of agent reviewers) = new_iterate_run c now id q agent reviewers
  run_for c now id q (run_again run_id) = known_run c q run_id

  -- The guard: the loop of the run begins unless the run has one.
  unfoldable pub guarded : Admitted → Admitted
  guarded (c, inl e) = (c, inl e)
  guarded (c, inr r) = if includes c.active_loops r.id then (c, inl (already_active r.id)) else (
    record c {
      active_loops = add_id r.id c.active_loops;
      in_flight_loops = c.in_flight_loops ++ r.id ∷ [];
    },
    inr r,
  )

  unfoldable pub checked_begin : Controller → (now id : String) → IterateRequest → Admitted
  unfolding new_iterate_run known_run guarded
  checked_begin c now id q = elim (s.workspace_of_task q.task_id) [
    | none ↦ (c, inl (task_missing q.task_id))
    | some workspace ↦
        if workspace == q.workspace_id
        then guarded (run_for c now id q q.begins)
        else (c, inl (other_workspace q.task_id))
  ]

  abbrev pub unless_disposing : Bool → Controller → Admitted → Admitted
  unless_disposing true c a = (c, inl shutting_down)
  unless_disposing false c a = a

  -- `iterate` up to its loop.
  unfoldable pub begin_iterate : Controller → (now id : String) → IterateRequest → Admitted
  unfolding checked_begin
  begin_iterate c now id q = unless_disposing c.disposing c (checked_begin c now id q)

abbrev pub remove_one : String → List String → List String
remove_one id [] = []
remove_one id (x ∷ xs) = if x == id then xs else x ∷ remove_one id xs

-- A loop in flight settles: its promise goes, and then its run.
unfoldable pub end_iterate : Controller → String → Controller
end_iterate c run_id =
    if includes c.in_flight_loops run_id
    then record c {
      active_loops = delete_id run_id c.active_loops;
      in_flight_loops = remove_one run_id c.in_flight_loops;
    }
    else c

-- `dispose` up to its awaits.
unfoldable pub dispose : Controller → Controller
dispose c = record c { disposing = true; cancels = c.cancels ++ c.active_loops }
