-- ===== src/Workflow/Engine/Stands.antt =====
-- A node that is over stays as it is while the pass is scheduled.
use teskra.Base.{
  String, ◌==◌, eq_iff, ◌≡◌, refl, ap, ◌∙◌, subst, ℕ, zero, suc, Bool, true, false, not, ◌&&◌, ◌||◌,
  List, [], ◌∷◌, Option, none, some, inl, inr, Option-cases, Bool-cases, length, lookup,
  lookup-insert, arith,
}
use teskra.Workflow.Types.{StepStatus, StepResult, running, skipped, node_type}
use teskra.Workflow.Graph.{has_key}
use teskra.Workflow.Repository.{get_or}
use teskra.Workflow.Engine.{
  NodeState, State, Spawn, Completion, Executor, suspend, absent, registered, put, transition,
  settle_state, settle_node, settled, settle_status, spread, start_node, after_start, launch,
  execute, with_cancel, skip_node, resolve_executor, failure,
}
use teskra.Workflow.Engine.Schedule.{
  is_due, all_activated, visit, progress, round, rounds, keys, schedule, over, finish_if_over,
}
use teskra.Workflow.Engine.Counting.{transition-Stepped}
use teskra.Workflow.Engine.Quiet.{finish_if_over-nodes}

module _ (j : String) (ns : NodeState) where
  abbrev pub Stands : State → Type 0
  Stands s = lookup j s.1.nodes ≡ some ns

  -- Where this returns, the node stands.
  abbrev pub Keeps : Option State → Type 0
  Keeps o = (s' : State) → o ≡ some s' → Stands s'

  abbrev KeepsMoved : Option (Bool × State) → Type 0
  KeepsMoved o = (b : Bool) (s' : State) → o ≡ some (b, s') → Stands s'

  none-Keeps : Keeps none
  none-Keeps s' e = absurd (cc)

  none-KeepsMoved : KeepsMoved none
  none-KeepsMoved b s' e = absurd (cc)

  some-Keeps : (s : State) → Stands s → Keeps (some s)
  some-Keeps s h s' e = let same : s ≡ s' = cc in subst Stands same h

  moved-KeepsMoved : (b : Bool) (s : State) → Stands s → KeepsMoved (some (b, s))
  moved-KeepsMoved b s h b' s' e = let same : s ≡ s' = cc in subst Stands same h

  progress-KeepsMoved : (o : Option State) → Keeps o → KeepsMoved (progress o)
  progress-KeepsMoved none h = none-KeepsMoved
  progress-KeepsMoved (some s) h = moved-KeepsMoved true s (h s refl)

  put-Stands :
      (s : State) (id : String) (x : NodeState) → (id == j) ≡ false → Stands s → Stands (put id x s)
  put-Stands s id x other h = lookup-insert id j x s.1.nodes ∙ rw (other) h

  transition-Stands :
      (now : String) (s : State) (id : String) (x : NodeState) (to : StepStatus)
      (result : Option StepResult)
      → (id == j) ≡ false
      → Stands s
      → Stands (transition now s id x to result).0
  transition-Stands now s id x to result other h =
      elim (transition-Stepped now s.0 s.1 id x to result) [
        | inl (_, same) ↦ rw same h
        | inr (st, _, _, same) ↦ rw same (put-Stands s id (record x { step = st }) other h)
      ]

  module _ (is_over : ns.terminal ≡ true) where
    -- A node that waits is another.
    is_other :
        (s : State) (id : String) (x : NodeState)
        → lookup id s.1.nodes ≡ some x
        → is_due s.1.nodes x ≡ true
        → Stands s
        → (id == j) ≡ false
    is_other s id x found due h = elim (Bool-cases (id == j)) [
      | inr other ↦ other
      | inl same ↦
          let here : lookup j s.1.nodes ≡ some x =
            subst (λ k. lookup k s.1.nodes ≡ some x) ((eq_iff id j).0 same) found in
          let equal : x ≡ ns = cc in
          let closed : x.terminal ≡ true = ap (λ (y : NodeState). y.terminal) equal ∙ is_over in
          absurd (ground arith)
    ]

    module _ (sp : Spawn) (sched : State → Option State)
        (keeps : (s : State) → Stands s → Keeps (sched s)) where
      settle_node-Keeps :
          (s : State) (id : String) (x : NodeState) (c : Completion)
          → (id == j) ≡ false
          → Stands s
          → Keeps (settle_node sp.now sched s id x c)
      unfolding settle_node settle_state
      settle_node-Keeps s id x c other h =
          let outcome = get_or c.outcome "success" in
          let y = settled x outcome in
          elim (Bool-cases (has_key (lookup s.1.run_id s.0.passes) && not x.terminal)) [
            | inl t ↦ rw t (
                keeps (settle_state sp.now s id x c) (
                  transition-Stands sp.now (put id y s) id y (settle_status outcome)
                    (some (spread (("outcome", outcome) ∷ []) c.result)) other
                    (put-Stands s id y other h)))
            | inr u ↦ rw u (some-Keeps s h)
          ]

      launch-Keeps :
          (s : State) (id : String) (x : NodeState) (e : Executor)
          → (id == j) ≡ false
          → Stands s
          → Keeps (launch sp.now sched s id x e)
      unfolding launch
      launch-Keeps s id x suspend other h = some-Keeps _ h
      launch-Keeps s id x absent other h =
          settle_node-Keeps s id x (failure "No executor registered for the node type.") other h
      launch-Keeps s id x (registered e) other h =
          let s' = execute s id (with_cancel e x) in
          let h' : Stands s' = put-Stands s id (with_cancel e x) other h in
          elim (Bool-cases e.throws) [
            | inl t ↦ rw t (
                settle_node-Keeps s' id (with_cancel e x) (failure "Step executor failed.") other
                  h')
            | inr u ↦ rw u (some-Keeps s' h')
          ]

      after_start-Keeps :
          (id : String) (x : NodeState) (t : State × Option NodeState)
          → (id == j) ≡ false
          → Stands t.0
          → Keeps (after_start sp sched id x t)
      unfolding after_start
      after_start-Keeps id x (s, none) other h =
          some-Keeps _ (put-Stands s id (record x { terminal = true }) other h)
      after_start-Keeps id x (s, some y) other h =
          launch-Keeps s id y (resolve_executor sp (node_type x.node)) other h

      visit-KeepsMoved : (id : String) (s : State) → Stands s → KeepsMoved (visit sp sched id s)
      unfolding visit start_node skip_node
      visit-KeepsMoved id s h = elim (Option-cases (lookup id s.1.nodes)) [
        | inl missing ↦ rw (visit, missing) (moved-KeepsMoved false s h)
        | inr (x, found) ↦ elim (Bool-cases (is_due s.1.nodes x)) [
          | inr idle ↦ rw (visit, found, idle) (moved-KeepsMoved false s h)
          | inl due ↦
              let other = is_other s id x found due h in
              let y : NodeState = record x { terminal = true; activates_edges = false } in
              elim (Bool-cases (all_activated s.1.nodes x)) [
                | inl t ↦
                    rw (visit, found, due, t)
                      (progress-KeepsMoved (start_node sp sched s id x) (
                        after_start-Keeps id x (transition sp.now s id x running none) other
                          (transition-Stands sp.now s id x running none other h)))
                | inr u ↦
                    rw (visit, found, due, u)
                      (moved-KeepsMoved true (skip_node sp.now s id x) (
                        transition-Stands sp.now (put id y s) id y skipped
                          (some (("reason", "dependency-inactive") ∷ [])) other
                          (put-Stands s id y other h)))
              ]
        ]
      ]

      round-KeepsMoved :
          (ids : List String) (b : Bool) (s : State)
          → Stands s
          → KeepsMoved (round (visit sp sched) ids b s)
      unfolding round
      round-KeepsMoved [] b s h = moved-KeepsMoved b s h
      round-KeepsMoved (id ∷ ids) b s h = elim (Option-cases (visit sp sched id s)) [
        | inl out ↦ rw (round, out) none-KeepsMoved
        | inr ((moved, s'), e) ↦
            rw (round, e)
              (round-KeepsMoved ids (moved || b) s' (visit-KeepsMoved id s h moved s' e))
      ]

      rounds-Keeps : (n : ℕ) (s : State) → Stands s → Keeps (rounds n (visit sp sched) s)
      unfolding rounds
      rounds-Keeps zero s h = none-Keeps
      rounds-Keeps (suc n) s h =
          elim (Option-cases (round (visit sp sched) (keys s.1.nodes) false s)) [
            | inl out ↦ rw (rounds, out) none-Keeps
            | inr ((false, s'), e) ↦
                rw (rounds, e)
                  (some-Keeps s' (round-KeepsMoved (keys s.1.nodes) false s h false s' e))
            | inr ((true, s'), e) ↦
                let h' = round-KeepsMoved (keys s.1.nodes) false s h true s' e in
                elim (Bool-cases s'.1.cancelling) [
                  | inl t ↦ rw (rounds, e, t) (some-Keeps s' h')
                  | inr u ↦ rw (rounds, e, u) (rounds-Keeps n s' h')
                ]
          ]

    over-Keeps : (now : String) (o : Option State) → Keeps o → Keeps (over now o)
    over-Keeps now none h = none-Keeps
    over-Keeps now (some s) h =
        some-Keeps (finish_if_over now s)
          (ap (λ nodes. lookup j nodes) (finish_if_over-nodes now s).0 ∙ h s refl)

    -- A node that is over stays as it is, however much fuel `schedule` has.
    pub schedule-Keeps : (f : ℕ) (sp : Spawn) (s : State) → Stands s → Keeps (schedule f sp s)
    unfolding schedule
    schedule-Keeps zero sp s h = none-Keeps
    schedule-Keeps (suc f) sp s h = elim (Bool-cases s.1.cancelling) [
      | inl t ↦ rw (schedule, t) (some-Keeps s h)
      | inr u ↦
          rw (schedule, u)
            (over-Keeps sp.now _
              (rounds-Keeps sp (schedule f sp) (schedule-Keeps f sp) (suc (length s.1.nodes)) s h))
    ]
