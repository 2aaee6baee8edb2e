-- ===== src/Workflow/Engine/Fuel.antt =====
-- The fuel that the calls of the engine give to `schedule` is enough; the outcomes that `resolveStep` allows.
use teskra.Workflow.Graph.{condition_outcomes}
use teskra.Workflow.Types.{
  node_type, checkpoint, NodeType, agent, shell, condition, criteria_gate, review_panel,
}
use teskra.Base.{
  String, ◌≡◌, refl, suc, true, false, ◌⊎◌, inl, inr, List, [], ◌∷◌, Option, none, some, Bool-cases,
  length, lookup, arith, In, includes-In, In-includes, includes, is_empty, ◌↔◌,
}
use teskra.Workflow.Engine.{NodeState, State, Spawn, Completion}
use teskra.Workflow.Engine.Schedule.{schedule}
use teskra.Workflow.Engine.Calls.{settle_in, refusal}
use teskra.Workflow.Engine.Counting.{count_open-length}
use teskra.Workflow.Engine.Moves.{Returns, settle_node-Returns}
use teskra.Workflow.Engine.Quiet.{schedule-IsQuiet, Settles-Returns}

pub settle_in-Returns :
    (sp : Spawn) (s : State) (id : String) (old ns : NodeState) (c : Completion)
    → lookup id s.1.nodes ≡ some old
    → s.1.cancelling ≡ false
    → Returns 0 s (settle_in sp s id ns c)
unfolding settle_in
settle_in-Returns sp s id old ns c found going =
    let f = suc (suc (length s.1.nodes)) in
    let bound = count_open-length s.1.nodes in
    settle_node-Returns sp f (schedule f sp)
      (λ t g n. Settles-Returns t _ (schedule-IsQuiet f sp t g n)) s id old ns c found going
      (omega (arith, bound))

empty-checkpoint_iff : (t : NodeType) → (is_empty (condition_outcomes t) ≡ true) ↔ (t ≡ checkpoint)
empty-checkpoint_iff checkpoint = (λ _. refl, λ _. refl)
empty-checkpoint_iff agent = (λ h. absurd (cc), λ h. absurd (cc))
empty-checkpoint_iff shell = (λ h. absurd (cc), λ h. absurd (cc))
empty-checkpoint_iff condition = (λ h. absurd (cc), λ h. absurd (cc))
empty-checkpoint_iff criteria_gate = (λ h. absurd (cc), λ h. absurd (cc))
empty-checkpoint_iff review_panel = (λ h. absurd (cc), λ h. absurd (cc))

is_empty-includes : (xs : List String) (o : String) → includes xs o ≡ true → is_empty xs ≡ false
is_empty-includes [] o h = absurd (cc)
is_empty-includes (x ∷ xs) o h = refl

-- `resolveStep` allows no outcome on a checkpoint, and on another node one of the outcomes of its
-- type: exactly then it does not refuse.
pub refusal-none_iff :
    (ns : NodeState) (outcome : Option String)
    → (refusal ns outcome ≡ none) ↔ (
        ((node_type ns.node ≡ checkpoint) × (outcome ≡ none))
        ⊎ ((o : String) × (outcome ≡ some o) × In o (condition_outcomes (node_type ns.node))))
refusal-none_iff ns none =
    let (bare, full) = empty-checkpoint_iff (node_type ns.node) in
    elim (Bool-cases (is_empty (condition_outcomes (node_type ns.node)))) [
      | inl t ↦ (λ _. inl (bare t, refl), λ _. ground arith)
      | inr u ↦ (
        λ h. absurd (ground arith),
        λ h. elim h [
          | inl (same, _) ↦ let t = full same in absurd (cc)
          | inr (o, e, _) ↦ absurd (cc)
        ],
      )
    ]
refusal-none_iff ns (some o) =
    elim (Bool-cases (includes (condition_outcomes (node_type ns.node)) o)) [
      | inl t ↦
          let full = is_empty-includes (condition_outcomes (node_type ns.node)) o t in
          (
            λ h. inr (o, refl, includes-In (condition_outcomes (node_type ns.node)) o t),
            λ h. ground arith,
          )
      | inr u ↦ (
        λ h. absurd (ground arith),
        λ h. elim h [
          | inl (_, e) ↦ absurd (cc)
          | inr (o', e, m) ↦
              let same : o ≡ o' = ground arith in
              let t = In-includes m in
              let t' : includes (condition_outcomes (node_type ns.node)) o ≡ true = rw same t in
              absurd (cc)
        ],
      )
    ]
