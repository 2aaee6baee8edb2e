-- ===== src/Workflow/Validate/Sets.antt =====
-- The sets of ids that the validation computes: active nodes, terminal nodes, disconnected nodes.
use teskra.Base.{
  String, ℕ, ◌≡◌, ◌↔◌, refl, sym, ◌∙◌, ap, ◌⊎◌, inl, inr, Bool, true, not, List, [], ◌∷◌, In, here,
  there, In-append_left, In-append_right, In-append_cases, In-keep, keep-In, includes, includes-In,
  In-includes, not_included, keep, Bool-cases, arith, subst,
}
use teskra.Workflow.Types.{Node, Definition}
use teskra.Workflow.Graph.{
  NormalizedDependency, normalize_depends_on, set_add, runs_in, active_from,
  active_node_ids_for_iteration,
}
use teskra.Workflow.Validate.{
  add_dependencies, depended_on, add_ids, ids_of, terminal_node_ids, active_terminals, Phase,
  phase_number,
}

set_add_iff : (x y : String) (s : List String) → In y (set_add x s) ↔ (In y s ⊎ (y ≡ x))
set_add_iff x y s = elim (Bool-cases (includes s x)) [
  | inl old ↦ rw old (λ i. inl i, λ h. elim h [ inl i ↦ i | inr e ↦ rw e (includes-In s x old) ])
  | inr new ↦ rw new (
    λ i. elim (In-append_cases s (x ∷ []) i) [
      | inl j ↦ inl j
      | inr (here e) ↦ inr e
      | inr (there j) ↦ elim j [ ]
    ],
    λ h. elim h [ inl i ↦ In-append_left (x ∷ []) i | inr e ↦ In-append_right s (here e) ],
  )
]

-- A step that runs in an iteration, by its id.
abbrev pub ActiveIn : List Node → ℕ → String → Type 0
ActiveIn ns i x = (n : Node) × In n ns × (runs_in i n.run_on ≡ true) × (n.id ≡ x)

active_from_iff :
    (i : ℕ) (ns : List Node) (s : List String) (x : String)
    → In x (active_from i ns s) ↔ (In x s ⊎ ActiveIn ns i x)
unfolding active_from
active_from_iff i [] s x = (λ h. inl h, λ h. elim h [ inl j ↦ j | inr (n, j, _, _) ↦ elim j [ ] ])
active_from_iff i (n ∷ ns) s x = elim (Bool-cases (runs_in i n.run_on)) [
  | inl runs ↦
      let (to, from) = active_from_iff i ns (set_add n.id s) x in
      let (add_to, add_from) = set_add_iff n.id x s in
      rw runs (
        λ h. elim (to h) [
          | inr (a, j, r, e) ↦ inr (a, there j, r, e)
          | inl j ↦ elim (add_to j) [ inl k ↦ inl k | inr e ↦ inr (n, here refl, runs, sym e) ]
        ],
        λ h. elim h [
          | inl j ↦ from (inl (add_from (inl j)))
          | inr (a, here e, r, q) ↦ from (inl (add_from (inr (sym q ∙ ap (λ (m : Node). m.id) e))))
          | inr (a, there j, r, q) ↦ from (inr (a, j, r, q))
        ],
      )
  | inr rests ↦
      let (to, from) = active_from_iff i ns s x in
      rw rests (
        λ h. elim (to h) [ inl j ↦ inl j | inr (a, j, r, e) ↦ inr (a, there j, r, e) ],
        λ h. elim h [
          | inl j ↦ from (inl j)
          | inr (a, here e, r, q) ↦ let r' = ap (λ (m : Node). runs_in i m.run_on) e in absurd (cc)
          | inr (a, there j, r, q) ↦ from (inr (a, j, r, q))
        ],
      )
]

-- A node is active in an iteration exactly when a step with its id runs then.
pub active_node_ids_iff :
    (d : Definition) (i : ℕ) (x : String)
    → In x (active_node_ids_for_iteration d i) ↔ ActiveIn d.steps i x
unfolding active_node_ids_for_iteration
active_node_ids_iff d i x =
    let (to, from) = active_from_iff i d.steps [] x in
    (λ h. elim (to h) [ inl j ↦ elim j [ ] | inr a ↦ a ], λ a. from (inr a))

abbrev pub DependedOn : List Node → String → Type 0
DependedOn ns x =
    (n : Node) × In n ns
    × (d : NormalizedDependency) × In d (normalize_depends_on n.depends_on)
    × (d.node ≡ x)

add_dependencies_iff :
    (ds : List NormalizedDependency) (s : List String) (x : String)
    → In x (add_dependencies ds s)
      ↔ (In x s ⊎ ((d : NormalizedDependency) × In d ds × (d.node ≡ x)))
unfolding add_dependencies
add_dependencies_iff [] s x = (λ h. inl h, λ h. elim h [ inl j ↦ j | inr (d, j, _) ↦ elim j [ ] ])
add_dependencies_iff (d ∷ ds) s x =
    let (to, from) = add_dependencies_iff ds (set_add d.node s) x in
    let (add_to, add_from) = set_add_iff d.node x s in
    (
      λ h. elim (to h) [
        | inr (c, j, e) ↦ inr (c, there j, e)
        | inl j ↦ elim (add_to j) [ inl k ↦ inl k | inr e ↦ inr (d, here refl, sym e) ]
      ],
      λ h. elim h [
        | inl j ↦ from (inl (add_from (inl j)))
        | inr (c, here e, q) ↦
            from (inl (add_from (inr (sym q ∙ ap (λ (y : NormalizedDependency). y.node) e))))
        | inr (c, there j, q) ↦ from (inr (c, j, q))
      ],
    )

depended_on_iff :
    (ns : List Node) (s : List String) (x : String)
    → In x (depended_on ns s) ↔ (In x s ⊎ DependedOn ns x)
unfolding depended_on
depended_on_iff [] s x = (λ h. inl h, λ h. elim h [ inl j ↦ j | inr (n, j, _, _, _) ↦ elim j [ ] ])
depended_on_iff (n ∷ ns) s x =
    let deps = normalize_depends_on n.depends_on in
    let (to, from) = depended_on_iff ns (add_dependencies deps s) x in
    let (add_to, add_from) = add_dependencies_iff deps s x in
    (
      λ h. elim (to h) [
        | inr (a, j, d, k, e) ↦ inr (a, there j, d, k, e)
        | inl j ↦ elim (add_to j) [ inl k ↦ inl k | inr (d, k, e) ↦ inr (n, here refl, d, k, e) ]
      ],
      λ h. elim h [
        | inl j ↦ from (inl (add_from (inl j)))
        | inr (a, here e, d, k, q) ↦ from (
            inl (
              add_from
                (inr (d, subst (λ (m : Node). In d (normalize_depends_on m.depends_on)) e k, q))))
        | inr (a, there j, d, k, q) ↦ from (inr (a, j, d, k, q))
      ],
    )

add_ids_iff : (xs s : List String) (x : String) → In x (add_ids xs s) ↔ (In x s ⊎ In x xs)
unfolding add_ids
add_ids_iff [] s x = (λ h. inl h, λ h. elim h [ inl j ↦ j | inr j ↦ elim j [ ] ])
add_ids_iff (y ∷ xs) s x =
    let (to, from) = add_ids_iff xs (set_add y s) x in
    let (add_to, add_from) = set_add_iff y x s in
    (
      λ h. elim (to h) [
        | inr j ↦ inr (there j)
        | inl j ↦ elim (add_to j) [ inl k ↦ inl k | inr e ↦ inr (here e) ]
      ],
      λ h. elim h [
        | inl j ↦ from (inl (add_from (inl j)))
        | inr (here e) ↦ from (inl (add_from (inr e)))
        | inr (there j) ↦ from (inr j)
      ],
    )

pub In-ids_of : (ns : List Node) (x : String) → In x (ids_of ns) → (n : Node) × In n ns × (n.id ≡ x)
In-ids_of [] x i = elim i [ ]
In-ids_of (n ∷ ns) x (here e) = (n, here refl, sym e)
In-ids_of (n ∷ ns) x (there i) = let (a, j, e) = In-ids_of ns x i in (a, there j, e)

pub ids_of-In : (n : Node) (ns : List Node) → In n ns → In n.id (ids_of ns)
ids_of-In n [] i = elim i [ ]
ids_of-In n (a ∷ ns) (here e) = here (ap (λ (m : Node). m.id) e)
ids_of-In n (a ∷ ns) (there i) = there (ids_of-In n ns i)

absent_of_test : (s : List String) (x : String) → not (includes s x) ≡ true → ¬ In x s
absent_of_test s x h = not_included (ground arith)

test_of_absent : (s : List String) (x : String) → ¬ In x s → not (includes s x) ≡ true
test_of_absent s x h = elim (Bool-cases (includes s x)) [
  | inl e ↦ absurd (h (includes-In s x e))
  | inr e ↦ rw e
]

-- A step runs in the phase and no dependency names it.
abbrev pub ActiveTerminal : Definition → Phase → String → Type 0
ActiveTerminal d p x = ActiveIn d.steps (phase_number p) x × (¬ DependedOn d.steps x)

pub active_terminals_iff :
    (d : Definition) (p : Phase) (x : String) → In x (active_terminals d p) ↔ ActiveTerminal d p x
unfolding active_terminals terminal_node_ids
active_terminals_iff d p x = (to, from)
  where
    named : List String
    named = depended_on d.steps []

    is_active : String → Bool
    is_active id = includes (active_node_ids_for_iteration d (phase_number p)) id

    to : In x (active_terminals d p) → ActiveTerminal d p x
    to i =
        let (j, a) = In-keep is_active (terminal_node_ids d) i in
        let act = (active_node_ids_iff d (phase_number p) x).0 (includes-In _ x a) in
        elim ((add_ids_iff (keep (λ id. not (includes named id)) (ids_of d.steps)) [] x).0 j) [
          | inl k ↦ elim k [ ]
          | inr k ↦
              let (_, free) = In-keep (λ id. not (includes named id)) (ids_of d.steps) k in
              (act, λ dep. absent_of_test named x free ((depended_on_iff d.steps [] x).1 (inr dep)))
        ]

    not_named : ¬ DependedOn d.steps x → ¬ In x named
    not_named free i = elim ((depended_on_iff d.steps [] x).0 i) [
      | inl j ↦ elim j [ ]
      | inr dep ↦ free dep
    ]

    from : ActiveTerminal d p x → In x (active_terminals d p)
    from (act, free) =
        let (n, j, _, e) = act in
        let id_in = subst (λ y. In y (ids_of d.steps)) e (ids_of-In n d.steps j) in
        let kept =
          keep-In (λ id. not (includes named id)) id_in (test_of_absent named x (not_named free)) in
        keep-In is_active
          ((add_ids_iff (keep (λ id. not (includes named id)) (ids_of d.steps)) [] x).1 (inr kept))
          (In-includes ((active_node_ids_iff d (phase_number p) x).1 act))
