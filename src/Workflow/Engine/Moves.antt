-- ===== src/Workflow/Engine/Moves.antt =====
-- One visit of the loop of `schedule`: a due node is started or skipped and waits no longer.
use teskra.Workflow.Repository.{get_or}
use teskra.Base.{
  String, ◌≡◌, refl, ap, ◌∙◌, ℕ, suc, ◌+◌, ◌≤◌, ◌<◌, Bool, true, false, not, inl, inr, List, [],
  ◌∷◌, Option, none, some, Bool-cases, lookup, insert, lookup-insert_self, arith, ◌&&◌,
}
use teskra.Workflow.Types.{StepStatus, StepResult, running, skipped, node_type}
use teskra.Workflow.Graph.{has_key}
use teskra.Workflow.Engine.{
  NodeState, State, Spawn, Completion, Executor, suspend, absent, registered, put, transition,
  settle_state, settle_node, settled, settle_status, start_node, after_start, launch, execute,
  with_cancel, skip_node, resolve_executor, failure, StepExecutor, spread,
}
use teskra.Workflow.Engine.Schedule.{is_open, is_due, all_activated, visit, over, progress}
use teskra.Workflow.Engine.Counting.{
  weight, waiting_in, count_open-insert, Stepped, transition-Stepped,
}

-- A run of the scheduler from `s`: it returns, with at least `n` nodes fewer that wait.
unfoldable pub Returns : ℕ → State → Option State → Type 0
Returns n s o =
    (s' : State) × (o ≡ some s')
    × (n + waiting_in s' ≤ waiting_in s)
    × (s'.1.cancelling ≡ s.1.cancelling)

module _ (now : String) (s : State) (id : String) (old ns : NodeState) (to : StepStatus)
    (result : Option StepResult) where
  -- A node that is put as terminal waits no longer, whatever the store answers.
  closed-transition :
      lookup id s.1.nodes ≡ some old
      → ns.terminal ≡ true
      → (waiting_in (transition now (put id ns s) id ns to result).0 + weight old ≡ waiting_in s)
        × ((transition now (put id ns s) id ns to result).0.1.cancelling ≡ s.1.cancelling)
  closed-transition found over = elim (transition-Stepped now s.0 (put id ns s).1 id ns to result) [
    | inl (_, same) ↦ (
      rw same (let e = count_open-insert id old ns s.1.nodes found in ground arith),
      rw same refl,
    )
    | inr (st, _, _, new) ↦ (
      let one = count_open-insert id old ns s.1.nodes found in
          let two =
            count_open-insert id ns (record ns { step = st }) (insert id ns s.1.nodes)
              (lookup-insert_self id ns s.1.nodes) in
          rw new (ground arith),
      rw new refl,
    )
  ]

-- A visit that progressed.
unfoldable pub Moves : State → Option (Bool × State) → Type 0
Moves s o =
    (s' : State) × (o ≡ some (true, s'))
    × (1 + waiting_in s' ≤ waiting_in s)
    × (s'.1.cancelling ≡ s.1.cancelling)

progress-Moves : (s : State) (o : Option State) → Returns 1 s o → Moves s (progress o)
unfolding Returns Moves
progress-Moves s o (s', e, less, keeps) = (s', ap progress e, less, keeps)

open-weight : (ns : NodeState) → is_open ns ≡ true → weight ns ≡ 1
open-weight ns h = ground arith

due-open :
    (nodes : List (String × NodeState)) (ns : NodeState)
    → is_due nodes ns ≡ true
    → is_open ns ≡ true
due-open nodes ns h = ground arith

settle_state-light :
    (now : String) (s : State) (id : String) (old ns : NodeState) (c : Completion)
    → lookup id s.1.nodes ≡ some old
    → (waiting_in (settle_state now s id ns c) ≤ waiting_in s)
      × ((settle_state now s id ns c).1.cancelling ≡ s.1.cancelling)
unfolding settle_state
settle_state-light now s id old ns c found =
    let outcome = get_or c.outcome "success" in
    let (less, same) =
      closed-transition now s id old (settled ns outcome) (settle_status outcome)
        (some (spread (("outcome", outcome) ∷ []) c.result)) found refl in
    (omega (arith, less), same)

-- What runs after a step of the scheduler returns for both.
Returns-from :
    (n : ℕ) (s s' : State) (o : Option State)
    → n + waiting_in s' ≤ waiting_in s
    → s'.1.cancelling ≡ s.1.cancelling
    → Returns 0 s' o
    → Returns n s o
unfolding Returns
Returns-from n s s' o less same (r, e, le, keeps) = (r, e, omega (arith, less, le), keeps ∙ same)

with_cancel-weight : (x : StepExecutor) (ns : NodeState) → weight (with_cancel x ns) ≡ weight ns
with_cancel-weight x ns = ground arith

executed-light :
    (s : State) (id : String) (old ns : NodeState)
    → lookup id s.1.nodes ≡ some old
    → weight ns ≡ 0
    → waiting_in (execute s id ns) ≤ waiting_in s
executed-light s id old ns found light =
    let e = count_open-insert id old ns s.1.nodes found in omega (arith, e, light)

module _ (sp : Spawn) (f : ℕ) (sched : State → Option State)
    (returns : (s : State)
      → s.1.cancelling ≡ false
      → waiting_in s < f
      → Returns 0 s (sched s)) where
  pub settle_node-Returns :
      (s : State) (id : String) (old ns : NodeState) (c : Completion)
      → lookup id s.1.nodes ≡ some old
      → s.1.cancelling ≡ false
      → waiting_in s < f
      → Returns 0 s (settle_node sp.now sched s id ns c)
  unfolding Returns settle_node
  settle_node-Returns s id old ns c found going enough =
      let (less, same) = settle_state-light sp.now s id old ns c found in
      elim (Bool-cases (has_key (lookup s.1.run_id s.0.passes) && not ns.terminal)) [
        | inl t ↦ rw t (
            Returns-from 0 s (settle_state sp.now s id ns c) _ (omega (arith, less)) same (
              returns (settle_state sp.now s id ns c) (same ∙ going) (omega (arith, less, enough))))
        | inr u ↦ rw u (s, refl, omega arith, refl)
      ]

  launch-Returns :
      (s : State) (id : String) (ns : NodeState) (x : Executor)
      → lookup id s.1.nodes ≡ some ns
      → weight ns ≡ 0
      → s.1.cancelling ≡ false
      → waiting_in s < f
      → Returns 0 s (launch sp.now sched s id ns x)
  unfolding Returns launch
  launch-Returns s id ns suspend found light going enough = (_, refl, omega arith, refl)
  launch-Returns s id ns absent found light going enough =
      settle_node-Returns s id ns ns (failure "No executor registered for the node type.") found
        going enough
  launch-Returns s id ns (registered x) found light going enough =
      let ns' = with_cancel x ns in
      let less = executed-light s id ns ns' found (with_cancel-weight x ns ∙ light) in
      elim (Bool-cases x.throws) [
        | inl t ↦ rw t (
            Returns-from 0 s (execute s id ns') _ (omega (arith, less)) refl (
              settle_node-Returns (execute s id ns') id ns' ns' (failure "Step executor failed.")
                (lookup-insert_self id ns' s.1.nodes) going (omega (arith, less, enough))))
        | inr u ↦ rw u (execute s id ns', refl, omega (arith, less), refl)
      ]

  after_start-Returns :
      (s : State) (id : String) (ns : NodeState) (t : State × Option NodeState)
      → lookup id s.1.nodes ≡ some ns
      → is_open ns ≡ true
      → s.1.cancelling ≡ false
      → waiting_in s < suc f
      → Stepped t s.1 id ns running
      → Returns 1 s (after_start sp sched id ns t)
  unfolding Returns after_start
  after_start-Returns s id ns (s', none) found opened going enough (inl (_, same)) =
      let one = count_open-insert id ns (record ns { terminal = true }) s.1.nodes found in
      (put id (record ns { terminal = true }) s', refl, rw same (ground arith), rw same refl)
  after_start-Returns s id ns (s', none) found opened going enough (inr (st, _, e, _)) = absurd (cc)
  after_start-Returns s id ns (s', some ns') found opened going enough (inl (e, _)) = absurd (cc)
  after_start-Returns s id ns (s', some ns') found opened going enough (inr (st, begun, e, same)) =
      let e' : ns' ≡ record ns { step = st } = ground arith in
      let one = count_open-insert id ns (record ns { step = st }) s.1.nodes found in
      let light : weight (record ns { step = st }) ≡ 0 = rw begun (ground arith) in
      let less : 1 + waiting_in s' ≤ waiting_in s = rw same (ground arith) in
      Returns-from 1 s s' _ less (rw same refl) (
        launch-Returns s' id ns' (resolve_executor sp (node_type ns.node))
          (rw same (rw e' (lookup-insert_self id (record ns { step = st }) s.1.nodes)))
          (rw e' light) (rw same going) (omega (arith, less, enough)))

  start_node-Returns :
      (s : State) (id : String) (ns : NodeState)
      → lookup id s.1.nodes ≡ some ns
      → is_open ns ≡ true
      → s.1.cancelling ≡ false
      → waiting_in s < suc f
      → Returns 1 s (start_node sp sched s id ns)
  unfolding start_node
  start_node-Returns s id ns found opened going enough =
      after_start-Returns s id ns (transition sp.now s id ns running none) found opened going enough
        (transition-Stepped sp.now s.0 s.1 id ns running none)

  skip_node-Moves :
      (s : State) (id : String) (ns : NodeState)
      → lookup id s.1.nodes ≡ some ns
      → is_open ns ≡ true
      → Moves s (some (true, skip_node sp.now s id ns))
  unfolding Moves skip_node
  skip_node-Moves s id ns found opened =
      let ns' : NodeState = record ns { terminal = true; activates_edges = false } in
      let (less, same) =
        closed-transition sp.now s id ns ns' skipped (some (("reason", "dependency-inactive") ∷ []))
          found refl in
      (_, refl, omega (arith, less, open-weight ns opened), same)

  pub visit-Moves :
      (s : State) (id : String) (ns : NodeState)
      → lookup id s.1.nodes ≡ some ns
      → is_due s.1.nodes ns ≡ true
      → s.1.cancelling ≡ false
      → waiting_in s < suc f
      → Moves s (visit sp sched id s)
  unfolding visit
  visit-Moves s id ns found due going enough =
      let opened : is_open ns ≡ true = due-open s.1.nodes ns due in
      elim (Bool-cases (all_activated s.1.nodes ns)) [
        | inl t ↦
            rw (visit, found, due, t)
              (progress-Moves s _ (start_node-Returns s id ns found opened going enough))
        | inr u ↦ rw (visit, found, due, u) (skip_node-Moves s id ns found opened)
      ]
