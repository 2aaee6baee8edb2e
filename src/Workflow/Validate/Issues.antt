-- ===== src/Workflow/Validate/Issues.antt =====
-- When each group of checks of `validateGraph` finds nothing.
use teskra.Base.{
  String, eq_iff, ◌≡◌, ◌≢◌, ◌↔◌, refl, sym, ap, inl, inr, Bool, true, false, not, List, [], ◌∷◌,
  Option, none, some, In, here, there, In-keep, keep-In, In-cons_all, includes, includes-In,
  In-includes, lookup, insert, lookup-insert, append-eq-nil_iff, eq_nil_of_not_In, is_empty,
  Bool-cases, Option-cases, arith, subst,
}
use teskra.Workflow.Types.{Node, Definition, node_type}
use teskra.Workflow.Graph.{
  NormalizedDependency, normalize_depends_on, condition_outcomes, node_map,
  active_node_ids_for_iteration,
}
use teskra.Workflow.Validate.{
  Phase, phase_number, ids_of, duplicate_issues, on_issues, dependency_issues, edge_issues, sort,
  sort_insert, disconnected, active_terminals, reaching_from, phase_issues,
}
use teskra.Workflow.Validate.Connected.{reaching_from_iff, Leads}
use teskra.Workflow.Validate.Sets.{
  In-ids_of, ActiveIn, ActiveTerminal, active_node_ids_iff, active_terminals_iff, ids_of-In,
}

abbrev pub Unique : List String → Type 0
Unique [] = Unit
Unique (x ∷ xs) = (¬ In x xs) × Unique xs

fresh_iff :
    (n : Node) (m : List (String × Node)) (a : Node)
    → (lookup a.id (insert n.id n m) ≡ none) ↔ ((n.id ≢ a.id) × (lookup a.id m ≡ none))
fresh_iff n m a = ground (arith, lookup-insert n.id a.id n m, eq_iff n.id a.id)

pub duplicate_issues-eq-nil_iff :
    (ns : List Node) (m : List (String × Node))
    → (duplicate_issues ns m ≡ [])
      ↔ (((n : Node) → In n ns → lookup n.id m ≡ none) × Unique (ids_of ns))
unfolding duplicate_issues
duplicate_issues-eq-nil_iff [] m = (λ _. (λ n i. elim i [ ], tt), λ _. refl)
duplicate_issues-eq-nil_iff (n ∷ ns) m = elim (Option-cases (lookup n.id m)) [
  | inr (u, e) ↦
      rw (e, duplicate_issues)
        (λ h. absurd (cc), λ (free, _). let e' = free n (here refl) in absurd (cc))
  | inl e ↦
      let (to, from) = duplicate_issues-eq-nil_iff ns (insert n.id n m) in
      rw (e, duplicate_issues)
        (
          λ h.
              let (free, u) = to h in
              (
                In-cons_all (λ (a : Node). lookup a.id m ≡ none) n ns e
                    (λ a i. ((fresh_iff n m a).0 (free a i)).1),
                (
                  λ i.
                      let (a, j, q) = In-ids_of ns n.id i in
                      ((fresh_iff n m a).0 (free a j)).0 (sym q),
                  u,
                ),
              ),
          λ (free, (new, u)). from (
            λ a i. (fresh_iff n m a).1 (λ q. new (rw q (ids_of-In a ns i)), free a (there i)),
            u,
          ),
        )
]

abbrev pub AllowedOn : Node → Option String → Type 0
AllowedOn u none = Unit
AllowedOn u (some on) = In on (condition_outcomes (node_type u))

on_issues-eq-nil_iff :
    (id : String) (u : Node) (on : Option String) → (on_issues id u on ≡ []) ↔ AllowedOn u on
unfolding on_issues
on_issues-eq-nil_iff id u none = (λ _. tt, λ _. refl)
on_issues-eq-nil_iff id u (some on) =
    elim (Bool-cases (includes (condition_outcomes (node_type u)) on)) [
      | inl e ↦ rw e (λ _. includes-In _ on e, λ _. refl)
      | inr e ↦ rw e (λ h. absurd (cc), λ i. let e' = In-includes i in absurd (cc))
    ]

-- The dependency names a node of the map, and an outcome of its type if it names one.
abbrev pub Resolved : List (String × Node) → NormalizedDependency → Type 0
Resolved by_id d = (u : Node) × (lookup d.node by_id ≡ some u) × AllowedOn u d.on

dependency_issues-eq-nil_iff :
    (by_id : List (String × Node)) (id : String) (ds : List NormalizedDependency)
    → (dependency_issues by_id id ds ≡ [])
      ↔ ((d : NormalizedDependency) → In d ds → Resolved by_id d)
unfolding dependency_issues
dependency_issues-eq-nil_iff by_id id [] = (λ _ d i. elim i [ ], λ _. refl)
dependency_issues-eq-nil_iff by_id id (d ∷ ds) = elim (Option-cases (lookup d.node by_id)) [
  | inl e ↦
      rw (e, dependency_issues)
        (λ h. absurd (cc), λ all. let (u, e', _) = all d (here refl) in absurd (cc))
  | inr (u, e) ↦
      let (split, join) = append-eq-nil_iff (on_issues id u d.on) (dependency_issues by_id id ds) in
      let (to, from) = dependency_issues-eq-nil_iff by_id id ds in
      rw (e, dependency_issues)
        (
          λ h.
              let (h1, h2) = split h in
              In-cons_all (Resolved by_id) d ds (u, e, (on_issues-eq-nil_iff id u d.on).0 h1)
                (to h2),
          λ all.
              let (u', e', ok) = all d (here refl) in
              let same : u' ≡ u = cc in
              join (
                (on_issues-eq-nil_iff id u d.on).1 (subst (λ v. AllowedOn v d.on) same ok),
                from (λ c i. all c (there i)),
              ),
        )
]

pub edge_issues-eq-nil_iff :
    (by_id : List (String × Node)) (ns : List Node)
    → (edge_issues by_id ns ≡ []) ↔ (
        (n : Node)
        → In n ns
        → (d : NormalizedDependency) → In d (normalize_depends_on n.depends_on)
        → Resolved by_id d)
unfolding edge_issues
edge_issues-eq-nil_iff by_id [] = (λ _ n i. elim i [ ], λ _. refl)
edge_issues-eq-nil_iff by_id (n ∷ ns) =
    let deps = normalize_depends_on n.depends_on in
    let (split, join) =
      append-eq-nil_iff (dependency_issues by_id n.id deps) (edge_issues by_id ns) in
    let (to, from) = edge_issues-eq-nil_iff by_id ns in
    let (dto, dfrom) = dependency_issues-eq-nil_iff by_id n.id deps in
    (
      λ h.
          let (h1, h2) = split h in
          In-cons_all
            (λ (a : Node).
              (d : NormalizedDependency)
              → In d (normalize_depends_on a.depends_on)
              → Resolved by_id d)
            n ns (dto h1) (to h2),
      λ all. join (dfrom (all n (here refl)), from (λ a i. all a (there i))),
    )

sort_insert-ne-nil : (x : String) (xs : List String) → sort_insert x xs ≢ []
unfolding sort_insert
sort_insert-ne-nil x [] h = cc
sort_insert-ne-nil x (y ∷ ys) h = ground arith

sort-eq-nil_iff : (xs : List String) → (sort xs ≡ []) ↔ (xs ≡ [])
unfolding sort
sort-eq-nil_iff [] = (λ h. refl, λ h. refl)
sort-eq-nil_iff (x ∷ xs) = (λ h. absurd (sort_insert-ne-nil x (sort xs) h), λ h. absurd (cc))

not-In-nil : {x : String} → ¬ In x []
not-In-nil i = elim i [ ]

is_empty-eq-nil : (xs : List String) → is_empty xs ≡ true → xs ≡ []
is_empty-eq-nil [] h = refl
is_empty-eq-nil (x ∷ xs) h = cc

has_member : (xs : List String) → is_empty xs ≡ false → (x : String) × In x xs
has_member [] h = absurd (cc)
has_member (x ∷ xs) h = (x, here refl)

-- Every node that is active in the phase is led to by a terminal node that is active in it.
abbrev pub ConnectedIn : Definition → Phase → Type 0
ConnectedIn d p =
    (x : String)
    → ActiveIn d.steps (phase_number p) x
    → (t : String) × ActiveTerminal d p t × Leads (node_map d) t x

disconnected-eq-nil_iff : (d : Definition) (p : Phase) → (disconnected d p ≡ []) ↔ ConnectedIn d p
unfolding disconnected
disconnected-eq-nil_iff d p = (to, from)
  where
    nodes : List (String × Node)
    nodes = node_map d

    stranded : String → Bool
    stranded id = not (includes (reaching_from nodes (active_terminals d p)) id)

    to : disconnected d p ≡ [] → ConnectedIn d p
    to h x a =
        let none_kept = (sort-eq-nil_iff _).0 h in
        let i = (active_node_ids_iff d (phase_number p) x).1 a in
        elim (Bool-cases (includes (reaching_from nodes (active_terminals d p)) x)) [
          | inl reached ↦
              let (t, j, l) =
                (reaching_from_iff nodes (active_terminals d p) x).0 (includes-In _ x reached) in
              (t, (active_terminals_iff d p t).0 j, l)
          | inr not_reached ↦
              absurd (not-In-nil (subst (In x) none_kept (keep-In stranded i (rw not_reached))))
        ]

    from : ConnectedIn d p → disconnected d p ≡ []
    from c = (sort-eq-nil_iff _).1 (
        eq_nil_of_not_In _ (λ x i.
          let (j, e) = In-keep stranded (active_node_ids_for_iteration d (phase_number p)) i in
          let (t, k, l) = c x ((active_node_ids_iff d (phase_number p) x).0 j) in
          let r =
            (reaching_from_iff nodes (active_terminals d p) x).1
              (t, (active_terminals_iff d p t).1 k, l) in
          let e' = In-includes r in ground arith))

pub phase_issues-eq-nil_iff :
    (d : Definition) (p : Phase)
    → (phase_issues d p ≡ []) ↔ (ConnectedIn d p × ((t : String) × ActiveTerminal d p t))
unfolding phase_issues
phase_issues-eq-nil_iff d p = elim (Bool-cases (is_empty (disconnected d p))) [
  | inr some_stranded ↦
      rw (some_stranded, phase_issues)
        (
          λ h. absurd (cc),
          λ (c, _).
              let e = (disconnected-eq-nil_iff d p).1 c in let e' = ap is_empty e in absurd (cc),
        )
  | inl none_stranded ↦
      let c = (disconnected-eq-nil_iff d p).0 (is_empty-eq-nil _ none_stranded) in
      elim (Bool-cases (is_empty (active_terminals d p))) [
        | inr found ↦
            let (t, i) = has_member (active_terminals d p) found in
            rw (none_stranded, found, phase_issues)
              (λ _. (c, (t, (active_terminals_iff d p t).0 i)), λ _. refl)
        | inl missing ↦
            rw (none_stranded, missing, phase_issues)
              (
                λ h. absurd (cc),
                λ (_, (t, a)). absurd (
                    not-In-nil (
                      subst (In t) (is_empty-eq-nil _ missing) ((active_terminals_iff d p t).1 a))),
              )
      ]
]
