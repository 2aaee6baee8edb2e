-- ===== src/Workflow/Validate/WellFormed.antt =====
-- validateGraph of packages/shared/src/workflow.ts accepts exactly the well-formed definitions.
use teskra.Base.{
  String, ◌≡◌, ◌↔◌, refl, ap, inl, inr, true, List, [], ◌∷◌, Option, none, some, In,
  append-eq-nil_iff, is_empty, Bool-cases, if◌then◌else◌, subst,
}
use teskra.Workflow.Types.{Node, Definition}
use teskra.Workflow.Graph.{
  NormalizedDependency, normalize_depends_on, node_map, find_dependency_cycle,
}
use teskra.Workflow.Graph.Relations.{IsAcyclic}
use teskra.Workflow.Graph.NodeMap.{Distinct, lookup-node_map_complete, lookup-node_map_sound}
use teskra.Workflow.Graph.Cycle.{find_dependency_cycle-eq-none_iff}
use teskra.Workflow.Validate.{
  Issue, Phase, first_phase, subsequent_phase, ids_of, duplicate_issues, edge_issues, cycle_issues,
  phase_issues, graph_issues, validate_graph, Parsed, success, failure, valid,
  validate_workflow_definition,
}
use teskra.Workflow.Validate.Sets.{ActiveTerminal, ids_of-In}
use teskra.Workflow.Validate.Issues.{
  Unique, AllowedOn, Resolved, ConnectedIn, duplicate_issues-eq-nil_iff, edge_issues-eq-nil_iff,
  phase_issues-eq-nil_iff,
}

-- The rules that packages/shared/src/workflow.ts lists for a definition, stated without its code.
pub record IsWellFormed (d : Definition) : Type 0 where
  pub unique : Unique (ids_of d.steps)
  pub resolved :
      (n : Node)
      → In n d.steps
      → (dep : NormalizedDependency) → In dep (normalize_depends_on n.depends_on)
      → (u : Node) × In u d.steps × (u.id ≡ dep.node) × AllowedOn u dep.on
  pub acyclic : IsAcyclic d
  pub connected : (p : Phase) → ConnectedIn d p
  pub terminal : (p : Phase) → (t : String) × ActiveTerminal d p t

cycle_issues-eq-nil_iff : (o : Option (List String)) → (cycle_issues o ≡ []) ↔ (o ≡ none)
cycle_issues-eq-nil_iff none = (λ _. refl, λ _. refl)
cycle_issues-eq-nil_iff (some c) = (λ h. cc, λ h. cc)

both_phases :
    (d : Definition)
    → phase_issues d first_phase ≡ []
    → phase_issues d subsequent_phase ≡ []
    → (p : Phase) → phase_issues d p ≡ []
both_phases d h k first_phase = h
both_phases d h k subsequent_phase = k

graph_issues-eq-nil_iff :
    (d : Definition)
    → (graph_issues d ≡ []) ↔ (
        (edge_issues (node_map d) d.steps ≡ [])
        × (find_dependency_cycle d ≡ none)
        × ((p : Phase) → phase_issues d p ≡ []))
unfolding graph_issues
graph_issues-eq-nil_iff d =
    let (split1, join1) = append-eq-nil_iff (edge_issues (node_map d) d.steps) _ in
    let (split2, join2) = append-eq-nil_iff (cycle_issues (find_dependency_cycle d)) _ in
    let (split3, join3) = append-eq-nil_iff (phase_issues d first_phase) _ in
    let (cto, cfrom) = cycle_issues-eq-nil_iff (find_dependency_cycle d) in
    (
      λ h.
          let (h1, r1) = split1 h in
          let (h2, r2) = split2 r1 in let (h3, h4) = split3 r2 in (h1, cto h2, both_phases d h3 h4),
      λ (h1, h2, h3). join1 (h1, join2 (cfrom h2, join3 (h3 first_phase, h3 subsequent_phase))),
    )

no_issues : (xs ys : List Issue) → (if is_empty xs then ys else xs) ≡ [] → (xs ≡ []) × (ys ≡ [])
no_issues [] ys h = (refl, h)
no_issues (x ∷ xs) ys h = absurd (cc)

dependency_target :
    (d : Definition) (dep : NormalizedDependency)
    → Resolved (node_map d) dep
    → (u : Node) × In u d.steps × (u.id ≡ dep.node) × AllowedOn u dep.on
dependency_target d dep (u, e, ok) = elim (lookup-node_map_sound dep.node d.steps [] u e) [
  | inl e' ↦ absurd (cc)
  | inr (i, same) ↦ (u, i, same, ok)
]

ids-Distinct : (ns : List Node) → Unique (ids_of ns) → Distinct ns
ids-Distinct [] h = tt
ids-Distinct (n ∷ ns) (new, h) =
    (λ a i e. new (subst (λ x. In x (ids_of ns)) e (ids_of-In a ns i)), ids-Distinct ns h)

target_lookup :
    (d : Definition)
    → Unique (ids_of d.steps)
    → (dep : NormalizedDependency)
    → ((u : Node) × In u d.steps × (u.id ≡ dep.node) × AllowedOn u dep.on)
    → Resolved (node_map d) dep
target_lookup d unique dep (u, i, same, ok) =
    (u, rw (← same) (lookup-node_map_complete u d.steps [] (ids-Distinct d.steps unique) i), ok)

-- `validateGraph` reports nothing exactly when the definition is well formed: its ids are distinct,
-- every dependency names a step and an outcome of that step's type if it names one, no step depends
-- on itself through others, and in both phases some active step is terminal and every active step is
-- led to by an active terminal one.
validate_graph-eq-nil_iff : (d : Definition) → (validate_graph d ≡ []) ↔ IsWellFormed d
unfolding validate_graph
validate_graph-eq-nil_iff d =
    let (dto, dfrom) = duplicate_issues-eq-nil_iff d.steps [] in
    let (gto, gfrom) = graph_issues-eq-nil_iff d in
    let (eto, efrom) = edge_issues-eq-nil_iff (node_map d) d.steps in
    (
      λ h.
          let no_duplicates = no_issues (duplicate_issues d.steps []) (graph_issues d) h in
          let (h1, h2, h3) = gto no_duplicates.1 in
          record {
            unique = (dto no_duplicates.0).1;
            resolved = λ n i dep j. dependency_target d dep (eto h1 n i dep j);
            acyclic = (find_dependency_cycle-eq-none_iff d).0 h2;
            connected = λ p. ((phase_issues-eq-nil_iff d p).0 (h3 p)).0;
            terminal = λ p. ((phase_issues-eq-nil_iff d p).0 (h3 p)).1;
          },
      λ w. rw (dfrom (λ n i. refl, w.unique)) (
          gfrom (
            efrom (λ n i dep j. target_lookup d w.unique dep (w.resolved n i dep j)),
            (find_dependency_cycle-eq-none_iff d).1 w.acyclic,
            λ p. (phase_issues-eq-nil_iff d p).1 (w.connected p, w.terminal p),
          )),
    )

is_empty-eq-nil : (xs : List Issue) → is_empty xs ≡ true → xs ≡ []
is_empty-eq-nil [] h = refl
is_empty-eq-nil (x ∷ xs) h = cc

-- A definition is returned as valid exactly when the schema parses the input as that definition and
-- the definition is well formed.
pub validate_workflow_definition-valid_iff :
    (input : Parsed) (d : Definition)
    → (validate_workflow_definition input ≡ valid d) ↔ ((input ≡ success d) × IsWellFormed d)
unfolding validate_workflow_definition
validate_workflow_definition-valid_iff (failure issues) d =
    (λ h. absurd (cc), λ (e, _). absurd (cc))
validate_workflow_definition-valid_iff (success c) d =
    let (to, from) = validate_graph-eq-nil_iff c in
    elim (Bool-cases (is_empty (validate_graph c))) [
      | inl accepted ↦ rw accepted (
        λ h.
            let e : c ≡ d = cc in
            (ap success e, subst IsWellFormed e (to (is_empty-eq-nil _ accepted))),
        λ (e, _). let e' : c ≡ d = cc in ap valid e',
      )
      | inr rejected ↦ rw rejected (
        λ h. absurd (cc),
        λ (e, w).
            let e' : d ≡ c = cc in
            let n = ap is_empty (from (subst IsWellFormed e' w)) in absurd (cc),
      )
    ]
