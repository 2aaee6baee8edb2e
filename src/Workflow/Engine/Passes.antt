-- ===== src/Workflow/Engine/Passes.antt =====
-- workflow-engine.ts: how a pass begins.
use teskra.Base.{
  remove, String, ℕ, suc, ◌+◌, Bool, true, false, not, ◌&&◌, ◌||◌, ◌⊎◌, inl, inr, List, [], ◌∷◌,
  map, Option, none, some, length, keep, includes, lookup, insert, is_empty, nat_eq, ltb,
  if◌then◌else◌,
}
use teskra.Workflow.Types.{
  NodeType, agent, shell, checkpoint, condition, criteria_gate, review_panel, AgentFields, NodeBody,
  agent_body, Node, node_type, Run, RunStatus, Step, StepStatus, running, completed, skipped,
}
use teskra.Workflow.Graph.{active_node_ids_for_iteration, is_first}
use teskra.Workflow.Repository.{Db}
use teskra.Workflow.Store.{
  Result, ok, err, is_terminal_step, is_terminal_run, get_run, add_step, set_run_status,
}
use teskra.Workflow.Engine.{
  NodeState, EngineError, store, unknown_run, active_pass, run_closed, steps_in_flight,
  profile_unresolved, Pass, step_updated, run_updated, Engine, State, Spawn, emit, put, transition,
}
use teskra.Workflow.Engine.Schedule.{schedule, keys}

-- `POSITIVE_OUTCOMES`
abbrev pub positive_outcome : NodeType → String
positive_outcome agent = "success"
positive_outcome shell = "success"
positive_outcome checkpoint = "success"
positive_outcome condition = "true"
positive_outcome criteria_gate = "pass"
positive_outcome review_panel = "approve"

abbrev pub is_given {ℓ} : {A : Type ℓ} → Option A → Bool
is_given none = false
is_given (some _) = true

abbrev pub has_aliases : AgentFields → Bool
has_aliases a = is_given a.account_profile || is_given a.profile || is_given a.env

-- `prevalidateWorkflowAgentNodeProfiles`; `resolves` is the manager of profile aliases, where there
-- is one. The result is the node that fails.
abbrev pub unresolved : (AgentFields → Bool) → NodeBody → Bool
unresolved resolves (agent_body a) = has_aliases a && not (resolves a)
unresolved resolves _ = false

pub prevalidate : (AgentFields → Bool) → List Node → Option String
prevalidate resolves [] = none
prevalidate resolves (n ∷ ns) =
    if unresolved resolves n.body then some n.id else prevalidate resolves ns

abbrev pub is_running : StepStatus → Bool
is_running running = true
is_running _ = false

abbrev pub is_completed : StepStatus → Bool
is_completed completed = true
is_completed _ = false

abbrev pub in_flight : ℕ → Step → Bool
in_flight iteration s = nat_eq s.iteration iteration && is_running s.status

-- `new Map(steps.filter(...).map(...))`: the last step of a node counts.
pub existing_steps : ℕ → List Step → List (String × Step) → List (String × Step)
existing_steps iteration [] m = m
existing_steps iteration (s ∷ ss) m =
    existing_steps iteration ss (if nat_eq s.iteration iteration then insert s.node_id s m else m)

abbrev pub node_state : Node → Step → NodeState
node_state n s = record {
  node = n;
  step = s;
  terminal = is_terminal_step s.status;
  outcome = none;
  activates_edges = is_completed s.status;
  has_cancel = false;
}

abbrev pub enter : Node → Step → State → State
enter n s st = put n.id (node_state n s) st

-- The step of one node, added where the iteration has none; `ids` gives its id. The left: refused.
abbrev pub added : Node → State → Db × Result Step → (Engine × EngineError) ⊎ State
added n (e, p) (db, err x) = inl (record e { db = db }, store x)
added n (e, p) (db, ok s) = inr (enter n s (emit (step_updated s) (record e { db = db }), p))

abbrev pub add_node :
    String
    → (String → String)
    → List (String × Step)
    → Node
    → State
    → (Engine × EngineError) ⊎ State
add_node now ids known n s = elim (lookup n.id known) [
  | some st ↦ inr (enter n st s)
  | none ↦ added n s (add_step s.0.db now (ids n.id) s.1.run_id n.id 1)
]

unfoldable pub add_steps :
    String
    → (String → String)
    → List (String × Step)
    → List Node
    → State
    → (Engine × EngineError) ⊎ State
add_steps now ids known [] s = inr s
add_steps now ids known (n ∷ ns) s = elim (add_node now ids known n s) [
  | inl x ↦ inl x
  | inr s' ↦ add_steps now ids known ns s'
]

-- runOn filtering: what a filtered node counts as.
abbrev pub flag : Bool → String
flag true = "true"
flag false = "false"

abbrev pub filtered : Bool → NodeState → NodeState
filtered past ns = record ns {
  terminal = true;
  activates_edges = past;
  outcome = if past then some (positive_outcome (node_type ns.node)) else none;
}

abbrev pub filter_node : String → Bool → String → NodeState → State → State
filter_node now past id ns s =
    let ns' = filtered past ns in
    (transition now (put id ns' s) id ns' skipped
      (some (("reason", "runOn-filtered") ∷ ("edgesActivated", flag past) ∷ []))).0

unfoldable pub filter_nodes : String → ℕ → List String → List String → State → State
unfolding transition
filter_nodes now phase active [] s = s
filter_nodes now phase active (id ∷ ids) s =
    filter_nodes now phase active ids (elim (lookup id s.1.nodes) [
      | none ↦ s
      | some ns ↦
          if ns.terminal || includes active id
          then s
          else filter_node now (is_first ns.node.run_on && ltb 1 phase) id ns s
    ])

-- `run.status !== 'running'`, and the status that the pass sets.
abbrev pub is_running_run : RunStatus → Bool
is_running_run running = true
is_running_run _ = false

abbrev pub set_running : State → Db × Result Run → (Engine × EngineError) ⊎ State
set_running (e, p) (db, err x) =
    inl (record e { db = db; passes = remove p.run_id e.passes }, store x)
set_running (e, p) (db, ok r) =
    inr (emit (run_updated p.run_id running) (record e { db = db }), record p { run = r })

abbrev pub mark_running : String → State → (Engine × EngineError) ⊎ State
mark_running now s =
    if is_running_run s.1.run.status
    then inr s
    else set_running s (set_run_status s.0.db now s.1.run_id running)

abbrev pub register : State → State
register (e, p) = (record e { passes = insert p.run_id p e.passes }, p)

-- The entry of the map is the pass itself: what a call made of it is what the next call sees.
abbrev pub has_pass : Engine → String → Bool
has_pass e run_id = elim (lookup run_id e.passes) [ some _ ↦ true | none ↦ false ]

abbrev pub store_pass : State → Engine
store_pass (e, p) =
    if has_pass e p.run_id then record e { passes = insert p.run_id p e.passes } else e

abbrev pub Answer {ℓ} : Type ℓ → Type ℓ
Answer A = Engine × (EngineError ⊎ A)

-- How deep `settleNode` may call `schedule` again: once for each node.
abbrev pub run_schedule : Spawn → State → Option State
run_schedule sp s = schedule (suc (suc (length s.1.nodes))) sp s

abbrev pub begun : Option State → Option (Answer Pass)
begun none = none
begun (some s) = some (store_pass s, inr s.1)

abbrev pub schedule_running : Spawn → (Engine × EngineError) ⊎ State → Option (Answer Pass)
schedule_running sp (inl (e, x)) = some (e, inl x)
schedule_running sp (inr s) = begun (run_schedule sp s)

abbrev pub new_pass : Run → Pass
new_pass r = record {
  run_id = r.id;
  run = r;
  nodes = [];
  suspended = [];
  cancelling = false;
  finished = [];
}

-- `beginPass` once every step has its row.
abbrev pub enter_pass : Spawn → Run → (Engine × EngineError) ⊎ State → Option (Answer Pass)
enter_pass sp r (inl (e, x)) = some (e, inl x)
enter_pass sp r (inr s) =
    let phase = r.current_iteration + 1 in
    let active = active_node_ids_for_iteration r.definition phase in
    schedule_running sp
      (mark_running sp.now (filter_nodes sp.now phase active (keys s.1.nodes) (register s)))

abbrev pub step_id : Step → String
step_id s = s.id

-- `beginPass`; none: out of fuel.
unfoldable pub begin_pass :
    Spawn → (AgentFields → Bool) → (String → String) → Engine → String → Option (Answer Pass)
unfolding prevalidate existing_steps add_steps filter_nodes
begin_pass sp resolves ids e run_id = elim (get_run e.db run_id) [
  | none ↦ some (e, inl (unknown_run run_id))
  | some d ↦
      if is_terminal_run d.run.status
      then some (e, inl (run_closed run_id d.run.status))
      else if has_pass e run_id
      then some (e, inl (active_pass run_id))
      else if not (is_empty (keep (in_flight d.run.current_iteration) d.steps))
      then some (
        e,
        inl (
            steps_in_flight run_id
              (map step_id (keep (in_flight d.run.current_iteration) d.steps))),
      )
      else elim (prevalidate resolves d.run.definition.steps) [
        | some n ↦ some (e, inl (profile_unresolved n))
        | none ↦ enter_pass sp d.run (
            add_steps sp.now ids (existing_steps d.run.current_iteration d.steps [])
              d.run.definition.steps (e, new_pass d.run))
      ]
]
