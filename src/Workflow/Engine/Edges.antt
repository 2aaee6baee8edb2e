-- ===== src/Workflow/Engine/Edges.antt =====
-- What a settled step does to the edges that leave it.
use teskra.Base.{
  String, eq_iff, ◌≡◌, ◌≢◌, ◌↔◌, sym, ap, ◌∙◌, true, ◌⊎◌, inl, inr, none, some, Option-cases,
  Bool-cases, arith,
}
use teskra.Workflow.Graph.{NormalizedDependency}
use teskra.Workflow.Engine.{NodeState, edge_activated, settled, is_failure}

-- A step that settles with an outcome activates exactly the edges without a condition, unless the
-- outcome is a failure, and the edges whose condition is the outcome.
settled-edge_activated_iff :
    (ns : NodeState) (outcome : String) (d : NormalizedDependency)
    → (edge_activated d (settled ns outcome) ≡ true)
      ↔ (((d.on ≡ none) × (outcome ≢ "failure")) ⊎ (d.on ≡ some outcome))
unfolding edge_activated
settled-edge_activated_iff ns outcome d = elim (Option-cases d.on) [
  | inl plain ↦ (
    λ h. inl (plain, λ e. let t = (eq_iff outcome "failure").1 e in ground arith),
    λ h. elim h [
      | inl (_, fine) ↦ elim (Bool-cases (is_failure outcome)) [
        | inl t ↦ absurd (fine ((eq_iff outcome "failure").0 t))
        | inr u ↦ ground arith
      ]
      | inr conditional ↦ absurd (cc)
    ],
  )
  | inr (on, conditional) ↦ (
    λ h.
        let e : outcome ≡ on = (eq_iff outcome on).0 (ground arith) in
        inr (conditional ∙ ap some (sym e)),
    λ h. elim h [
      | inl (plain, _) ↦ absurd (cc)
      | inr same ↦
          let e : outcome ≡ on = ground arith in let t = (eq_iff outcome on).1 e in ground arith
    ],
  )
]
