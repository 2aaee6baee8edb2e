-- ===== src/Workflow/Graph/Fuel.antt =====
-- The fuel of the depth-first search: one more than the nodes that are not marked yet.
use teskra.Base.{
  String, ◌==◌, eq_iff, ℕ, zero, suc, ◌+◌, ◌≤◌, ◌<◌, ◌≡◌, ◌≢◌, refl, ap, ◌⊎◌, inl, inr, true, List,
  [], ◌∷◌, ◌++◌, Option, none, some, lookup, insert, length, lookup-insert, Bool-cases, arith,
}
use teskra.Workflow.Types.{Node}
use teskra.Workflow.Graph.{
  NormalizedDependency, deps_of, has_key, Marker, visiting, Marks, Search, exhausted, cycle, clear,
  mark_done, and_then, visit_deps, visit,
}
use teskra.Workflow.Graph.Marked.{
  Extends, IsRanked, IsCleared, visit-clear, visiting-IsRanked, mark_cases,
}

abbrev one_if_fresh : Option Marker → ℕ
one_if_fresh none = 1
one_if_fresh (some _) = 0

-- How many of the nodes have no mark.
pub fresh_count : List (String × Node) → Marks → ℕ
fresh_count [] m = 0
fresh_count ((k, n) ∷ ns) m = one_if_fresh (lookup k m) + fresh_count ns m

pub fresh_count-nil : (ns : List (String × Node)) → fresh_count ns [] ≡ length ns
unfolding fresh_count
fresh_count-nil [] = refl
fresh_count-nil ((k, n) ∷ ns) = omega (arith, fresh_count-nil ns)

pub fresh_count-Extends :
    (ns : List (String × Node)) (m m' : Marks) → Extends m m' → fresh_count ns m' ≤ fresh_count ns m
unfolding fresh_count
fresh_count-Extends [] m m' h = omega arith
fresh_count-Extends ((k, n) ∷ ns) m m' h =
    let h' = h k in ground (arith, fresh_count-Extends ns m m' h)

fresh_count-insert-le :
    (ns : List (String × Node)) (id : String) (v : Marker) (m : Marks)
    → fresh_count ns (insert id v m) ≤ fresh_count ns m
unfolding fresh_count
fresh_count-insert-le [] id v m = omega arith
fresh_count-insert-le ((k, n) ∷ ns) id v m =
    ground (arith, lookup-insert id k v m, fresh_count-insert-le ns id v m)

pub fresh_count-insert-lt :
    (ns : List (String × Node)) (id : String) (v : Marker) (m : Marks)
    → has_key (lookup id ns) ≡ true
    → lookup id m ≡ none
    → fresh_count ns (insert id v m) < fresh_count ns m
unfolding fresh_count
fresh_count-insert-lt [] id v m known fresh = cc
fresh_count-insert-lt ((k, n) ∷ ns) id v m known fresh = elim (Bool-cases (k == id)) [
  | inl same ↦
      let e : k ≡ id = (eq_iff k id).0 same in
      ground (
        arith,
        lookup-insert id k v m,
        eq_iff id k,
        fresh_count-insert-le ns id v m,
        ap (λ x. lookup x m) e,
      )
  | inr other ↦ ground (
    arith,
    lookup-insert id k v m,
    fresh_count-insert-lt ns id v m (ground arith) fresh,
    fresh_count-insert-le ns id v m,
    eq_iff id k,
    eq_iff k id,
  )
]

pub and_then-exhausted :
    (r : Search) (k : Marks → Search)
    → and_then r k ≡ exhausted
    → (r ≡ exhausted) ⊎ ((m : Marks) × (r ≡ clear m) × (k m ≡ exhausted))
and_then-exhausted (clear m) k h = inr (m, refl, h)
and_then-exhausted exhausted k h = inl refl
and_then-exhausted (cycle c) k h = cc

mark_done-exhausted : (id : String) (r : Search) → mark_done id r ≡ exhausted → r ≡ exhausted
mark_done-exhausted id (clear m) h = cc
mark_done-exhausted id exhausted h = refl
mark_done-exhausted id (cycle c) h = cc

module _ (nodes : List (String × Node)) where
  visit_deps-total :
      (f : ℕ) (v : String → Marks → Search)
      → ((id : String) (m m' : Marks)
          → IsRanked nodes m
          → v id m ≡ clear m'
          → IsCleared nodes id m m')
      → ((id : String) (m : Marks)
          → has_key (lookup id nodes) ≡ true
          → IsRanked nodes m
          → fresh_count nodes m < f
          → v id m ≢ exhausted)
      → (ds : List NormalizedDependency) (m : Marks) → IsRanked nodes m
      → fresh_count nodes m < f
      → visit_deps nodes v ds m ≢ exhausted
  unfolding visit_deps
  visit_deps-total f v vs vt [] m t lt h = cc
  visit_deps-total f v vs vt (d ∷ ds) m t lt h = elim (Bool-cases (has_key (lookup d.node nodes))) [
    | inl known ↦
        let h' : and_then (v d.node m) (visit_deps nodes v ds) ≡ exhausted = ground arith in
        elim (and_then-exhausted (v d.node m) (visit_deps nodes v ds) h') [
          | inl e ↦ vt d.node m known t lt e
          | inr (m1, e1, e2) ↦
              let c = vs d.node m m1 t e1 in
              visit_deps-total f v vs vt ds m1 c.ranked
                (omega (arith, fresh_count-Extends nodes m m1 c.extends)) e2
        ]
    | inr unknown ↦
        let h' : visit_deps nodes v ds m ≡ exhausted = ground arith in
        visit_deps-total f v vs vt ds m t lt h'
  ]

  pub visit-total :
      (f : ℕ) (stack : List String) (id : String) (m : Marks)
      → has_key (lookup id nodes) ≡ true
      → IsRanked nodes m
      → fresh_count nodes m < f
      → visit f nodes stack id m ≢ exhausted
  unfolding visit
  visit-total zero stack id m known t lt h = elim lt [ ]
  visit-total (suc f) stack id m known t lt h = elim (mark_cases (lookup id m)) [
    | inl fresh ↦
        let h' = rw (fresh, visit) at h in
        let m1 = insert id visiting m in
        visit_deps-total f (visit f nodes (stack ++ id ∷ []))
          (visit-clear nodes f (stack ++ id ∷ [])) (visit-total f (stack ++ id ∷ []))
          (deps_of nodes id) m1 (visiting-IsRanked nodes id m t fresh)
          (omega (arith, fresh_count-insert-lt nodes id visiting m known fresh))
          (mark_done-exhausted id _ h')
    | inr (inl open_mark) ↦ let h' = rw (open_mark, visit) at h in cc
    | inr (inr closed_mark) ↦ let h' = rw (closed_mark, visit) at h in cc
  ]
