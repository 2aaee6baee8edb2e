-- ===== src/Workflow/Graph/Closed.antt =====
-- A cycle that the depth-first search reports is a closed chain of dependencies.
use teskra.Base.{
  String, ◌==◌, eq_iff, ℕ, zero, suc, ◌≡◌, refl, sym, ap, ◌⊎◌, inl, inr, true, false, List, [], ◌∷◌,
  ◌++◌, some, In, here, there, In-append_left, In-append_right, lookup, insert, lookup-insert,
  Bool-cases, arith, subst,
}
use teskra.Workflow.Types.{Node}
use teskra.Workflow.Graph.{
  NormalizedDependency, deps_of, has_key, visiting, Marks, Search, exhausted, cycle, clear,
  mark_done, and_then, visit_deps, visit, slice_from,
}
use teskra.Workflow.Graph.Marked.{
  Extends, IsRanked, IsCleared, visit-clear, visiting-IsRanked, mark_cases,
}
use teskra.Workflow.Graph.Relations.{Edge, Chain, one, link, IsCycle}

-- The open nodes are those of the stack.
abbrev pub OnStack : List String → Marks → Type 0
OnStack stack m = (x : String) → lookup x m ≡ some visiting → In x stack

pub OnStack-Extends :
    (stack : List String) (m m' : Marks) → Extends m m' → OnStack stack m → OnStack stack m'
OnStack-Extends stack m m' h o x e = let h' = h x in o x (ground arith)

OnStack-insert :
    (stack : List String) (id : String) (m : Marks)
    → OnStack stack m
    → OnStack (stack ++ id ∷ []) (insert id visiting m)
OnStack-insert stack id m o x e = elim (Bool-cases (id == x)) [
  | inl same ↦ In-append_right stack (here (sym ((eq_iff id x).0 same)))
  | inr other ↦ In-append_left (id ∷ []) (o x (ground (arith, lookup-insert id x visiting m)))
]

pub and_then-cycle :
    (r : Search) (k : Marks → Search) (c : List String)
    → and_then r k ≡ cycle c
    → (r ≡ cycle c) ⊎ ((m : Marks) × (r ≡ clear m) × (k m ≡ cycle c))
and_then-cycle (clear m) k c h = inr (m, refl, h)
and_then-cycle exhausted k c h = cc
and_then-cycle (cycle c') k c h = inl h

mark_done-cycle :
    (id : String) (r : Search) (c : List String) → mark_done id r ≡ cycle c → r ≡ cycle c
mark_done-cycle id (clear m) c h = cc
mark_done-cycle id exhausted c h = cc
mark_done-cycle id (cycle c') c h = h

In-tail : (id x : String) (xs : List String) → (x == id) ≡ false → In id (x ∷ xs) → In id xs
In-tail id x xs other (here e) = absurd (ground (arith, eq_iff x id))
In-tail id x xs other (there m) = m

module _ (nodes : List (String × Node)) where
  Chain-concat :
      (xs : List String) (x y : String)
      → Chain nodes (xs ++ x ∷ [])
      → Edge nodes x y
      → Chain nodes ((xs ++ x ∷ []) ++ y ∷ [])
  Chain-concat [] x y c g = link g (one y)
  Chain-concat (z ∷ []) x y (link h c) g = link h (Chain-concat [] x y c g)
  Chain-concat (z ∷ w ∷ xs) x y (link h c) g = link h (Chain-concat (w ∷ xs) x y c g)

  Chain-tail :
      (x : String) (xs : List String) (y : String)
      → Chain nodes (x ∷ (xs ++ y ∷ []))
      → Chain nodes (xs ++ y ∷ [])
  Chain-tail x [] y (link h c) = c
  Chain-tail x (z ∷ xs) y (link h c) = c

  slice_from-IsCycle :
      (id : String) (stack : List String)
      → In id stack
      → Chain nodes (stack ++ id ∷ [])
      → IsCycle nodes (slice_from id stack ++ id ∷ [])
  slice_from-IsCycle id [] m c = elim m [ ]
  slice_from-IsCycle id (x ∷ xs) m c = elim (Bool-cases (x == id)) [
    | inl same ↦
        let e : x ≡ id = (eq_iff x id).0 same in
        rw (same, slice_from)
          (record {
            start = x;
            inner = xs;
            shape = ap (λ y. x ∷ (xs ++ y ∷ [])) (sym e);
            chain = subst (λ y. Chain nodes (x ∷ (xs ++ y ∷ []))) (sym e) c;
          })
    | inr other ↦
        rw (other, slice_from)
          (slice_from-IsCycle id xs (In-tail id x xs other m) (Chain-tail x xs id c))
  ]

  visit_deps-cycle :
      (stack : List String) (v : String → Marks → Search) (ds : List NormalizedDependency)
      → ((id : String) (m m' : Marks)
          → IsRanked nodes m
          → v id m ≡ clear m'
          → IsCleared nodes id m m')
      → ((d : NormalizedDependency)
          → In d ds
          → (m : Marks) (c : List String) → has_key (lookup d.node nodes) ≡ true
          → IsRanked nodes m
          → OnStack stack m
          → v d.node m ≡ cycle c
          → IsCycle nodes c)
      → (m : Marks) (c : List String) → IsRanked nodes m
      → OnStack stack m
      → visit_deps nodes v ds m ≡ cycle c
      → IsCycle nodes c
  unfolding visit_deps
  visit_deps-cycle stack v [] vs vc m c t o h = cc
  visit_deps-cycle stack v (d ∷ ds) vs vc m c t o h =
      let vc' = λ (e : NormalizedDependency) (i : In e ds). vc e (there i) in
      elim (Bool-cases (has_key (lookup d.node nodes))) [
        | inl known ↦
            let h' : and_then (v d.node m) (visit_deps nodes v ds) ≡ cycle c = ground arith in
            elim (and_then-cycle (v d.node m) (visit_deps nodes v ds) c h') [
              | inl e ↦ vc d (here refl) m c known t o e
              | inr (m1, e1, e2) ↦
                  let r = vs d.node m m1 t e1 in
                  visit_deps-cycle stack v ds vs vc' m1 c r.ranked
                    (OnStack-Extends stack m m1 r.extends o) e2
            ]
        | inr unknown ↦
            let h' : visit_deps nodes v ds m ≡ cycle c = ground arith in
            visit_deps-cycle stack v ds vs vc' m c t o h'
      ]

  pub visit-cycle :
      (f : ℕ) (stack : List String) (id : String) (m : Marks) (c : List String)
      → Chain nodes (stack ++ id ∷ [])
      → IsRanked nodes m
      → OnStack stack m
      → visit f nodes stack id m ≡ cycle c
      → IsCycle nodes c
  unfolding visit
  visit-cycle zero stack id m c p t o h = cc
  visit-cycle (suc f) stack id m c p t o h = elim (mark_cases (lookup id m)) [
    | inl fresh ↦
        let h' = mark_done-cycle id _ c (rw (fresh, visit) at h) in
        visit_deps-cycle (stack ++ id ∷ []) (visit f nodes (stack ++ id ∷ [])) (deps_of nodes id)
          (visit-clear nodes f (stack ++ id ∷ []))
          (λ d i m2 c2 known t2 o2.
            visit-cycle f (stack ++ id ∷ []) d.node m2 c2
              (Chain-concat stack id d.node p
                (record { dependency = d; listed = i; named = refl; known = known }))
              t2 o2)
          (insert id visiting m) c (visiting-IsRanked nodes id m t fresh)
          (OnStack-insert stack id m o) h'
    | inr (inl open_mark) ↦
        let h' : cycle (slice_from id stack ++ id ∷ []) ≡ cycle c = rw (open_mark, visit) at h in
        let e : slice_from id stack ++ id ∷ [] ≡ c = cc in
        subst (IsCycle nodes) e (slice_from-IsCycle id stack (o id open_mark) p)
    | inr (inr closed_mark) ↦ let h' = rw (closed_mark, visit) at h in absurd (cc)
  ]
