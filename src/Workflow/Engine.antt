-- ===== src/Workflow/Engine.antt =====
-- apps/desktop/src/main/workflows/workflow-engine.ts: the scheduling of one pass over the graph of a
-- run. The engine and the pass are passed along; what an executor answers comes in later, by
-- `settle`, so that a pass is a sequence of calls. `Spawn` describes the executors that are not here.
pub mod Schedule
pub mod Passes
pub mod Calls
pub mod Counting
pub mod Moves
pub mod Quiet
pub mod Edges
pub mod Fuel
pub mod Stands
pub mod Resolves
pub mod Begins
pub mod Cancels
use teskra.Base.{
  remove, String, ◌==◌, ℕ, zero, suc, Bool, true, false, not, ◌&&◌, ◌||◌, List, [], ◌∷◌, ◌++◌, map,
  Option, none, some, length, all, keep, includes, lookup, insert, if◌then◌else◌, ◌⊎◌, inl, inr,
}
use teskra.Workflow.Types.{
  NodeType, agent, shell, checkpoint, condition, criteria_gate, review_panel, Node, node_type, Run,
  RunStatus, waiting, Step, StepStatus, StepResult, pending, running, completed, failed, skipped,
}
use teskra.Workflow.Graph.{NormalizedDependency, normalize_depends_on, has_key}
use teskra.Workflow.Repository.{Db, get_or}
use teskra.Workflow.Store.{
  StoreError, Result, ok, err, RunDetail, transition_step, set_run_status, get_run,
}

pub record NodeState : Type 0 where
  pub node : Node
  pub step : Step
  pub terminal : Bool
  pub outcome : Option String
  pub activates_edges : Bool
  pub has_cancel : Bool

-- Why a call of the engine is refused.
pub data EngineError : Type 0 where
  store : StoreError → EngineError
  unknown_run active_pass not_suspended : String → EngineError
  run_closed not_for_review : String → RunStatus → EngineError
  steps_in_flight : String → List String → EngineError
  profile_unresolved : String → EngineError
  takes_no_outcome outcome_required : (node : String) → NodeType → EngineError

-- The last field holds the calls of `finish`; the first one settles the promise.
pub record Pass : Type 0 where
  pub run_id : String
  pub run : Run
  pub nodes : List (String × NodeState)
  pub suspended : List (String × String)
  pub cancelling : Bool
  pub finished : List (EngineError ⊎ RunDetail)

-- The events on the bus, and the calls of `execute` with the outcomes upstream.
pub data Event : Type 0 where
  step_updated : Step → Event
  run_updated : String → RunStatus → Event
  executed : Step → List (String × String) → Event

pub record Engine : Type 0 where
  pub db : Db
  pub passes : List (String × Pass)
  pub suspended_steps : List (String × String)
  pub events : List Event

abbrev pub State : Type 0
State = Engine × Pass

-- An executor: whether it has a `cancel`, and whether `execute` throws before it returns a promise.
pub record StepExecutor : Type 0 where
  pub cancellable : Bool
  pub throws : Bool

pub data Executor : Type 0 where
  suspend absent : Executor
  registered : StepExecutor → Executor

-- The dependencies of `createWorkflowEngine`: the overrides, and whether there is an agent manager.
pub record Spawn : Type 0 where
  pub custom : NodeType → Option StepExecutor
  pub has_agents : Bool
  pub now : String

pub record Completion : Type 0 where
  pub outcome : Option String
  pub result : StepResult

abbrev pub remove_keys {ℓ κ} :
    {V : Type ℓ} {W : Type κ} → List (String × V) → List (String × W) → List (String × W)
remove_keys [] m = m
remove_keys ((k, _) ∷ ks) m = remove_keys ks (remove k m)

abbrev pub matches : String → Option String → Bool
matches on none = false
matches on (some outcome) = outcome == on

unfoldable pub edge_activated : NormalizedDependency → NodeState → Bool
edge_activated d up =
    if up.terminal
    then elim d.on [ some on ↦ matches on up.outcome | none ↦ up.activates_edges ]
    else false

abbrev pub default_executor : Bool → NodeType → Executor
default_executor has_agents agent =
    if has_agents then registered (record { cancellable = true; throws = false }) else absent
default_executor has_agents condition = registered (record { cancellable = false; throws = false })
default_executor has_agents shell = absent
default_executor has_agents _ = suspend

abbrev pub resolve_executor : Spawn → NodeType → Executor
resolve_executor sp t = elim (sp.custom t) [
  | some x ↦ registered x
  | none ↦ default_executor sp.has_agents t
]

abbrev pub emit : Event → Engine → Engine
emit v e = record e { events = e.events ++ v ∷ [] }

abbrev pub put : String → NodeState → State → State
put id ns (e, p) = (e, record p { nodes = insert id ns p.nodes })

-- `ns.step = transitioned.data`, or nothing where the store refuses.
abbrev pub moved_node :
    String → NodeState → Pass → Engine → Db × Result Step → State × Option NodeState
moved_node id ns p e (db, err _) = ((record e { db = db }, p), none)
moved_node id ns p e (db, ok s) =
    let ns' : NodeState = record ns { step = s } in
    (put id ns' (emit (step_updated s) (record e { db = db }), p), some ns')

pub transition :
    String → State → String → NodeState → StepStatus → Option StepResult → State × Option NodeState
transition now (e, p) id ns to result =
    moved_node id ns p e (transition_step e.db now ns.step.id to result)

-- `{ outcome, ...completion.result }`
abbrev pub spread : StepResult → StepResult → StepResult
spread base [] = base
spread base ((k, v) ∷ rest) = spread (insert k v base) rest

abbrev pub is_failure : String → Bool
is_failure outcome = outcome == "failure"

abbrev pub settled : NodeState → String → NodeState
settled ns outcome = record ns {
  terminal = true;
  outcome = some outcome;
  activates_edges = not (is_failure outcome);
}

abbrev pub settle_status : String → StepStatus
settle_status outcome = if is_failure outcome then failed else completed

-- The state of `settleNode` before it schedules.
pub settle_state : String → State → String → NodeState → Completion → State
unfolding transition
settle_state now s id ns c =
    let outcome = get_or c.outcome "success" in
    let ns' = settled ns outcome in
    (transition now (put id ns' s) id ns' (settle_status outcome)
      (some (spread (("outcome", outcome) ∷ []) c.result))).0

unfoldable pub settle_node :
    String → (State → Option State) → State → String → NodeState → Completion → Option State
unfolding settle_state
settle_node now sched s id ns c =
    if has_key (lookup s.1.run_id s.0.passes) && not ns.terminal
    then sched (settle_state now s id ns c)
    else some s

abbrev pub failure : String → Completion
failure message = record { outcome = some "failure"; result = ("error", message) ∷ [] }

abbrev pub note_outcome :
    String → Option NodeState → List (String × String) → List (String × String)
note_outcome id none m = m
note_outcome id (some up) m = elim up.outcome [ some o ↦ insert id o m | none ↦ m ]

pub upstream_outcomes :
    List (String × NodeState)
    → List NormalizedDependency
    → List (String × String)
    → List (String × String)
upstream_outcomes nodes [] m = m
upstream_outcomes nodes (d ∷ ds) m =
    upstream_outcomes nodes ds (note_outcome d.node (lookup d.node nodes) m)

abbrev pub dependencies : NodeState → List NormalizedDependency
dependencies ns = normalize_depends_on ns.node.depends_on

abbrev pub park : State → String → NodeState → State
park (e, p) id ns = (
  record e { suspended_steps = insert ns.step.id p.run_id e.suspended_steps },
  record p { suspended = insert ns.step.id id p.suspended },
)

abbrev pub execute : State → String → NodeState → State
execute (e, p) id ns =
    put id ns (emit (executed ns.step (upstream_outcomes p.nodes (dependencies ns) [])) e, p)

abbrev pub with_cancel : StepExecutor → NodeState → NodeState
with_cancel x ns = if x.cancellable then record ns { has_cancel = true } else ns

-- `startNode` once the step is running.
pub launch : String → (State → Option State) → State → String → NodeState → Executor → Option State
unfolding settle_node upstream_outcomes
launch now sched s id ns suspend = some (park s id ns)
launch now sched s id ns absent =
    settle_node now sched s id ns (failure "No executor registered for the node type.")
launch now sched s id ns (registered x) =
    let ns' = with_cancel x ns in
    let s' = execute s id ns' in
    if x.throws then settle_node now sched s' id ns' (failure "Step executor failed.") else some s'

pub after_start :
    Spawn → (State → Option State) → String → NodeState → State × Option NodeState → Option State
unfolding launch
after_start sp sched id ns (s, none) = some (put id (record ns { terminal = true }) s)
after_start sp sched id ns (s, some ns') =
    launch sp.now sched s id ns' (resolve_executor sp (node_type ns.node))

unfoldable pub start_node :
    Spawn → (State → Option State) → State → String → NodeState → Option State
unfolding transition after_start
start_node sp sched s id ns = after_start sp sched id ns (transition sp.now s id ns running none)

unfoldable pub skip_node : String → State → String → NodeState → State
unfolding transition
skip_node now s id ns =
    let ns' : NodeState = record ns { terminal = true; activates_edges = false } in
    (transition now (put id ns' s) id ns' skipped (some (("reason", "dependency-inactive") ∷ []))).0
