-- ===== src/Workflow/Engine/Calls.antt =====
-- workflow-engine.ts: how an executor settles its step, how a suspended step is resolved, and how a
-- run is cancelled or completed.
use teskra.Base.{
  remove, String, suc, Bool, true, false, inl, inr, List, [], ◌∷◌, Option, none, some, length,
  includes, lookup, is_empty, if◌then◌else◌,
}
use teskra.Workflow.Types.{node_type, Run, RunStatus, needs_user_review, Step, completed, cancelled}
use teskra.Workflow.Graph.{condition_outcomes}
use teskra.Workflow.Repository.{Db, get_or}
use teskra.Workflow.Store.{Result, ok, err, is_terminal_run, get_run, set_run_status}
use teskra.Workflow.Engine.{
  NodeState, EngineError, store, unknown_run, not_suspended, run_closed, not_for_review,
  takes_no_outcome, outcome_required, Pass, run_updated, Engine, State, Spawn, Completion, emit,
  put, transition, settle_node,
}
use teskra.Workflow.Engine.Schedule.{schedule, keys, unregister, settle_with_detail}
use teskra.Workflow.Engine.Passes.{store_pass, Answer}

-- An executor's promise, fulfilled or rejected, reaches `settleNode` of its own pass.
abbrev pub settled_pass : Option State → Option Engine
settled_pass none = none
settled_pass (some s) = some (store_pass s)

unfoldable pub settle_in : Spawn → State → String → NodeState → Completion → Option State
unfolding settle_node
settle_in sp s id ns c = settle_node sp.now (schedule (suc (suc (length s.1.nodes))) sp) s id ns c

unfoldable pub settle : Spawn → Engine → Pass → String → Completion → Option Engine
unfolding settle_in
settle sp e p id c = elim (lookup id p.nodes) [
  | none ↦ some e
  | some ns ↦ settled_pass (settle_in sp (e, p) id ns c)
]

-- `resolveStep`: the outcomes that the type of the node allows.
abbrev pub refusal : NodeState → Option String → Option EngineError
refusal ns outcome =
    let allowed = condition_outcomes (node_type ns.node) in
    if is_empty allowed
    then elim outcome [
      | some _ ↦ some (takes_no_outcome ns.node.id (node_type ns.node))
      | none ↦ none
    ]
    else elim outcome [
      | none ↦ some (outcome_required ns.node.id (node_type ns.node))
      | some o ↦
          if includes allowed o
          then none
          else some (outcome_required ns.node.id (node_type ns.node))
    ]

abbrev pub unpark : String → State → State
unpark id (e, p) = (
  record e { suspended_steps = remove id e.suspended_steps },
  record p { suspended = remove id p.suspended },
)

abbrev pub resolution : Completion → Completion
resolution c = record c { outcome = some (get_or c.outcome "success") }

-- `ns.step` after the call.
abbrev pub step_of : Option NodeState → Option Step
step_of none = none
step_of (some ns) = some ns.step

abbrev pub resolved : String → Option State → Option (Answer (Option Step))
resolved id none = none
resolved id (some s) = some (store_pass s, inr (step_of (lookup id s.1.nodes)))

-- A suspended step of a registered pass.
abbrev pub suspended_node : Engine → String → Option (Pass × String × NodeState)
suspended_node e step = elim (lookup step e.suspended_steps) [
  | none ↦ none
  | some run_id ↦ elim (lookup run_id e.passes) [
    | none ↦ none
    | some p ↦ elim (lookup step p.suspended) [
      | none ↦ none
      | some id ↦ elim (lookup id p.nodes) [ none ↦ none | some ns ↦ some (p, id, ns) ]
    ]
  ]
]

unfoldable pub resolve_step : Spawn → Engine → String → Completion → Option (Answer (Option Step))
unfolding settle_in
resolve_step sp e step c = elim (suspended_node e step) [
  | none ↦ some (e, inl (not_suspended step))
  | some (p, id, ns) ↦ elim (refusal ns c.outcome) [
    | some x ↦ some (e, inl x)
    | none ↦ resolved id (settle_in sp (unpark step (e, p)) id ns (resolution c))
  ]
]

-- `cancel`, where no executor settles its step while its own `cancel` is awaited.
abbrev pub withdraw : String → String → State → State
withdraw now id s = elim (lookup id s.1.nodes) [
  | none ↦ s
  | some ns ↦
      if ns.terminal
      then s
      else let ns' : NodeState = record ns { terminal = true; activates_edges = false } in
        (transition now (put id ns' s) id ns' cancelled (some (("reason", "run-cancelled") ∷ []))).0
]

unfoldable pub withdraw_all : String → List String → State → State
unfolding transition
withdraw_all now [] s = s
withdraw_all now (id ∷ ids) s = withdraw_all now ids (withdraw now id s)

abbrev pub close_run : RunStatus → Engine → String → Db × Result Run → Answer Run
close_run status e run_id (db, err x) = (record e { db = db }, inl (store x))
close_run status e run_id (db, ok r) =
    (emit (run_updated run_id status) (record e { db = db }), inr r)

-- The engine and the answer, with the pass that `finish` settled, where there was one.
abbrev pub settle_cancelled : Pass → Answer Run → Answer Run × Option Pass
settle_cancelled p (e, a) = ((e, a), some (settle_with_detail p (get_run e.db p.run_id)))

abbrev pub cancel_pass : String → Engine → Pass → Answer Run × Option Pass
cancel_pass now e p =
    let s = withdraw_all now (keys p.nodes) (e, record p { cancelling = true }) in
    let e' = unregister s in
    settle_cancelled s.1
      (close_run cancelled e' p.run_id (set_run_status e'.db now p.run_id cancelled))

unfoldable pub cancel : String → Engine → String → Answer Run × Option Pass
unfolding withdraw_all
cancel now e run_id = elim (get_run e.db run_id) [
  | none ↦ ((e, inl (unknown_run run_id)), none)
  | some d ↦
      if is_terminal_run d.run.status
      then ((e, inl (run_closed run_id d.run.status)), none)
      else elim (lookup run_id e.passes) [
        | none ↦ (close_run cancelled e run_id (set_run_status e.db now run_id cancelled), none)
        | some p ↦ cancel_pass now e p
      ]
]

abbrev pub for_review : RunStatus → Bool
for_review needs_user_review = true
for_review _ = false

abbrev pub accept : String → Engine → String → Answer Run
accept now e run_id = close_run completed e run_id (set_run_status e.db now run_id completed)

unfoldable pub complete : String → Engine → String → Answer Run
complete now e run_id = elim (get_run e.db run_id) [
  | none ↦ (e, inl (unknown_run run_id))
  | some d ↦
      if for_review d.run.status
      then accept now (record e { passes = remove run_id e.passes }) run_id
      else (e, inl (not_for_review run_id d.run.status))
]
