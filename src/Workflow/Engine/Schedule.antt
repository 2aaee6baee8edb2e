-- ===== src/Workflow/Engine/Schedule.antt =====
-- workflow-engine.ts: the loop of schedule, and the end of a pass.
use teskra.Base.{
  remove, String, ℕ, zero, suc, Bool, true, false, not, ◌&&◌, ◌||◌, List, [], ◌∷◌, ◌++◌, Option,
  none, some, length, all, lookup, if◌then◌else◌, ◌⊎◌, inl, inr,
}
use teskra.Workflow.Types.{Run, waiting, StepStatus, pending}
use teskra.Workflow.Graph.{NormalizedDependency}
use teskra.Workflow.Repository.{Db}
use teskra.Workflow.Store.{Result, ok, err, RunDetail, set_run_status, get_run}
use teskra.Workflow.Engine.{
  Engine, EngineError, NodeState, Pass, Spawn, State, dependencies, edge_activated, emit,
  remove_keys, run_updated, skip_node, start_node, store, unknown_run,
}

abbrev pub is_pending : StepStatus → Bool
is_pending pending = true
is_pending _ = false

-- `!(ns.terminal || ns.step.status !== 'pending')`
abbrev pub is_open : NodeState → Bool
is_open ns = not ns.terminal && is_pending ns.step.status

-- The definition of a run is valid, so that every dependency has a node; see Store.create_run.
abbrev pub upstream_terminal : List (String × NodeState) → NormalizedDependency → Bool
upstream_terminal nodes d = elim (lookup d.node nodes) [ some up ↦ up.terminal | none ↦ false ]

abbrev pub upstream_activated : List (String × NodeState) → NormalizedDependency → Bool
upstream_activated nodes d = elim (lookup d.node nodes) [
  | some up ↦ edge_activated d up
  | none ↦ false
]

abbrev pub is_due : List (String × NodeState) → NodeState → Bool
is_due nodes ns = is_open ns && all (upstream_terminal nodes) (dependencies ns)

abbrev pub due_at : List (String × NodeState) → String → Bool
due_at nodes id = elim (lookup id nodes) [ some ns ↦ is_due nodes ns | none ↦ false ]

abbrev pub all_activated : List (String × NodeState) → NodeState → Bool
all_activated nodes ns = all (upstream_activated nodes) (dependencies ns)

-- The body of the loop of `schedule` for one node, and whether it progressed.
abbrev pub progress : Option State → Option (Bool × State)
progress none = none
progress (some s) = some (true, s)

unfoldable pub visit : Spawn → (State → Option State) → String → State → Option (Bool × State)
unfolding start_node skip_node
visit sp sched id s = elim (lookup id s.1.nodes) [
  | none ↦ some (false, s)
  | some ns ↦
      if is_due s.1.nodes ns
      then if all_activated s.1.nodes ns
        then progress (start_node sp sched s id ns)
        else some (true, skip_node sp.now s id ns)
      else some (false, s)
]

unfoldable pub round :
    (String → State → Option (Bool × State)) → List String → Bool → State → Option (Bool × State)
round v [] progressed s = some (progressed, s)
round v (id ∷ ids) progressed s = elim (v id s) [
  | none ↦ none
  | some (moved, s') ↦ round v ids (moved || progressed) s'
]

abbrev pub keys {ℓ} : {V : Type ℓ} → List (String × V) → List String
keys [] = []
keys ((k, _) ∷ rest) = k ∷ keys rest

-- `while (progressed && !state.cancelling)`; none: out of fuel.
unfoldable pub rounds : ℕ → (String → State → Option (Bool × State)) → State → Option State
unfolding round
rounds zero v s = none
rounds (suc n) v s = elim (round v (keys s.1.nodes) false s) [
  | none ↦ none
  | some (false, s') ↦ some s'
  | some (true, s') ↦ elim s'.1.cancelling [ true ↦ some s' | false ↦ rounds n v s' ]
]

abbrev pub finish : EngineError ⊎ RunDetail → Pass → Pass
finish r p = record p { finished = p.finished ++ r ∷ [] }

abbrev pub settle_with_detail : Pass → Option RunDetail → Pass
settle_with_detail p none = finish (inl (unknown_run p.run_id)) p
settle_with_detail p (some d) = finish (inr d) p

abbrev pub unregister : State → Engine
unregister (e, p) = record e {
  passes = remove p.run_id e.passes;
  suspended_steps = remove_keys p.suspended e.suspended_steps;
}

abbrev pub finish_waiting : Engine → Pass → Db × Result Run → State
finish_waiting e p (db, err x) = (record e { db = db }, finish (inl (store x)) p)
finish_waiting e p (db, ok r) = (
  emit (run_updated p.run_id waiting) (record e { db = db }),
  settle_with_detail (record p { run = r }) (get_run db p.run_id),
)

unfoldable pub finish_pass : String → State → State
finish_pass now s =
    let e = unregister s in finish_waiting e s.1 (set_run_status e.db now s.1.run_id waiting)

abbrev pub is_terminal_entry : String × NodeState → Bool
is_terminal_entry entry = entry.1.terminal

abbrev pub finish_if_over : String → State → State
finish_if_over now s =
    if not s.1.cancelling && all is_terminal_entry s.1.nodes then finish_pass now s else s

abbrev pub over : String → Option State → Option State
over now none = none
over now (some s) = some (finish_if_over now s)

-- The fuel bounds how deep `settleNode` calls `schedule` again while a schedule runs.
unfoldable pub schedule : ℕ → Spawn → State → Option State
unfolding rounds visit finish_pass
schedule zero sp s = none
schedule (suc f) sp s = elim s.1.cancelling [
  | true ↦ some s
  | false ↦ over sp.now (rounds (suc (length s.1.nodes)) (visit sp (schedule f sp)) s)
]
