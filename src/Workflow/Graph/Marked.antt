-- ===== src/Workflow/Graph/Marked.antt =====
-- What the depth-first search of packages/shared/src/workflow.ts leaves in its marks when it finds
-- no cycle: the done nodes are closed under dependencies, and can be ranked along them.
use teskra.Base.{
  String, ◌==◌, eq_iff, ℕ, zero, suc, ◌<◌, ◌≡◌, refl, sym, ◌⊎◌, inl, inr, true, List, [], ◌∷◌, ◌++◌,
  Option, none, some, In, lookup, insert, lookup-insert, lookup-insert_self, In-cons_all,
  Bool-cases, if◌then◌else◌, arith, subst,
}
use teskra.Workflow.Types.{Node}
use teskra.Workflow.Graph.{
  NormalizedDependency, deps_of, has_key, Marker, visiting, done, Marks, Search, exhausted, cycle,
  clear, mark_done, and_then, visit_deps, visit,
}
use teskra.Workflow.Graph.Relations.{Edge}

abbrev pub Extends : Marks → Marks → Type 0
Extends m m' =
    (x : String) → (lookup x m' ≡ lookup x m) ⊎ ((lookup x m ≡ none) × (lookup x m' ≡ some done))

pub Extends-refl : (m : Marks) → Extends m m
Extends-refl m x = inl refl

pub Extends-trans : (m m' m'' : Marks) → Extends m m' → Extends m' m'' → Extends m m''
Extends-trans m m' m'' h k x = let h' = h x in let k' = k x in ground arith

pub Extends-done :
    (m m' : Marks) (x : String) → Extends m m' → lookup x m ≡ some done → lookup x m' ≡ some done
Extends-done m m' x h e = let h' = h x in ground arith

pub Extends-visiting :
    (m m' : Marks) (x : String)
    → Extends m m'
    → lookup x m ≡ some visiting
    → lookup x m' ≡ some visiting
Extends-visiting m m' x h e = let h' = h x in ground arith

-- What lies between the mark `visiting` on a fresh node and its mark `done`.
pub Extends-finish :
    (id : String) (m m' : Marks)
    → lookup id m ≡ none
    → Extends (insert id visiting m) m'
    → Extends m (insert id done m')
Extends-finish id m m' e h x =
    let h' = h x in
    ground (arith, lookup-insert id x visiting m, lookup-insert id x done m', eq_iff id x)

pub record IsRanked (nodes : List (String × Node)) (m : Marks) : Type 0 where
  pub rank : String → ℕ
  pub bound : ℕ
  pub below : (x : String) → lookup x m ≡ some done → rank x < bound
  pub closed :
      (x y : String)
      → lookup x m ≡ some done
      → Edge nodes x y
      → (lookup y m ≡ some done) × (rank y < rank x)

pub record IsCleared (nodes : List (String × Node)) (id : String) (m m' : Marks) : Type 0 where
  pub ranked : IsRanked nodes m'
  pub marked : lookup id m' ≡ some done
  pub extends : Extends m m'

pub and_then-clear :
    (r : Search) (k : Marks → Search) (m' : Marks)
    → and_then r k ≡ clear m'
    → (m : Marks) × (r ≡ clear m) × (k m ≡ clear m')
and_then-clear (clear m) k m' h = (m, refl, h)
and_then-clear exhausted k m' h = cc
and_then-clear (cycle c) k m' h = cc

mark_done-clear :
    (id : String) (r : Search) (m' : Marks)
    → mark_done id r ≡ clear m'
    → (m : Marks) × (r ≡ clear m) × (insert id done m ≡ m')
mark_done-clear id (clear m) m' h = (m, refl, cc)
mark_done-clear id exhausted m' h = cc
mark_done-clear id (cycle c) m' h = cc

pub mark_cases : (o : Option Marker) → (o ≡ none) ⊎ ((o ≡ some visiting) ⊎ (o ≡ some done))
mark_cases none = inl refl
mark_cases (some visiting) = inr (inl refl)
mark_cases (some done) = inr (inr refl)

module _ (nodes : List (String × Node)) where
  pub visiting-IsRanked :
      (id : String) (m : Marks)
      → IsRanked nodes m
      → lookup id m ≡ none
      → IsRanked nodes (insert id visiting m)
  visiting-IsRanked id m t fresh = record {
    rank = t.rank;
    bound = t.bound;
    below = λ x e. ground (arith, t.below x, lookup-insert id x visiting m, eq_iff id x);
    closed = λ x y e g. ground (
      arith,
      λ (h : lookup x m ≡ some done). t.closed x y h g,
      lookup-insert id x visiting m,
      lookup-insert id y visiting m,
      eq_iff id x,
      eq_iff id y,
    );
  }

  -- A node that was fresh joins the done ones on top of them.
  finish-IsRanked :
      (id : String) (m : Marks)
      → IsRanked nodes m
      → lookup id m ≡ some visiting
      → ((y : String) → Edge nodes id y → lookup y m ≡ some done)
      → IsRanked nodes (insert id done m)
  finish-IsRanked id m t v deps = record {
    rank = λ x. if id == x then t.bound else t.rank x;
    bound = suc t.bound;
    below = λ x e. ground (arith, t.below x, lookup-insert id x done m, eq_iff id x);
    closed = λ x y e g. ground (
      arith,
      t.below x,
      t.below y,
      λ (h : lookup x m ≡ some done). t.closed x y h g,
      λ (h : id ≡ x). deps y (subst (λ z. Edge nodes z y) (sym h) g),
      lookup-insert id x done m,
      lookup-insert id y done m,
      eq_iff id x,
      eq_iff id y,
    );
  }

  pub visit_deps-clear :
      (v : String → Marks → Search)
      → ((id : String) (m m' : Marks)
          → IsRanked nodes m
          → v id m ≡ clear m'
          → IsCleared nodes id m m')
      → (ds : List NormalizedDependency) (m m' : Marks) → IsRanked nodes m
      → visit_deps nodes v ds m ≡ clear m'
      → IsRanked nodes m'
        × Extends m m'
        × ((d : NormalizedDependency)
            → In d ds
            → has_key (lookup d.node nodes) ≡ true
            → lookup d.node m' ≡ some done)
  unfolding visit_deps
  visit_deps-clear v vs [] m m' t h =
      let e : m ≡ m' = cc in
      (subst (IsRanked nodes) e t, subst (Extends m) e (Extends-refl m), λ d i _. elim i [ ])
  visit_deps-clear v vs (d ∷ ds) m m' t h = elim (Bool-cases (has_key (lookup d.node nodes))) [
    | inl known ↦
        let h' : and_then (v d.node m) (visit_deps nodes v ds) ≡ clear m' = ground arith in
        let (m1, e1, e2) = and_then-clear (v d.node m) (visit_deps nodes v ds) m' h' in
        let c = vs d.node m m1 t e1 in
        let (t2, x2, all2) = visit_deps-clear v vs ds m1 m' c.ranked e2 in
        (
          t2,
          Extends-trans m m1 m' c.extends x2,
          In-cons_all _ d ds (λ _. Extends-done m1 m' d.node x2 c.marked) all2,
        )
    | inr unknown ↦
        let h' : visit_deps nodes v ds m ≡ clear m' = ground arith in
        let (t2, x2, all2) = visit_deps-clear v vs ds m m' t h' in
        (t2, x2, In-cons_all _ d ds (λ known. absurd (cc)) all2)
  ]

  abbrev SearchClears : ℕ → Type 0
  SearchClears f =
      (stack : List String) (id : String) (m m' : Marks)
      → IsRanked nodes m
      → visit f nodes stack id m ≡ clear m'
      → IsCleared nodes id m m'

  visit-clear_fresh :
      (f : ℕ) (stack : List String) (id : String) (m m' : Marks)
      → IsRanked nodes m
      → lookup id m ≡ none
      → SearchClears f
      → mark_done id (
          visit_deps nodes
            (visit f nodes (stack ++ id ∷ []))
            (deps_of nodes id)
            (insert id visiting m))
        ≡ clear m'
      → IsCleared nodes id m m'
  visit-clear_fresh f stack id m m' t fresh ih h =
      let (m2, e1, e2) = mark_done-clear id _ m' h in
      let m1 = insert id visiting m in
      let (t2, x2, all2) =
        visit_deps-clear (visit f nodes (stack ++ id ∷ [])) (ih (stack ++ id ∷ []))
          (deps_of nodes id) m1 m2 (visiting-IsRanked id m t fresh) e1 in
      let kept = Extends-visiting m1 m2 id x2 (lookup-insert_self id visiting m) in
      subst (IsCleared nodes id m) e2 (record {
        ranked =
            finish-IsRanked id m2 t2 kept
              (λ y g. rw (← g.named) (all2 g.dependency g.listed (rw g.named g.known)));
        marked = lookup-insert_self id done m2;
        extends = Extends-finish id m m2 fresh x2;
      })

  pub visit-clear :
      (f : ℕ) (stack : List String) (id : String) (m m' : Marks)
      → IsRanked nodes m
      → visit f nodes stack id m ≡ clear m'
      → IsCleared nodes id m m'
  unfolding visit
  visit-clear zero stack id m m' t h = cc
  visit-clear (suc f) stack id m m' t h = elim (mark_cases (lookup id m)) [
    | inl fresh ↦ visit-clear_fresh f stack id m m' t fresh (visit-clear f) (rw (fresh, visit) at h)
    | inr (inl open_mark) ↦ let h' = rw (open_mark, visit) at h in absurd (cc)
    | inr (inr closed_mark) ↦
        let h' : clear m ≡ clear m' = rw (closed_mark, visit) at h in
        let e : m ≡ m' = cc in
        record {
          ranked = subst (IsRanked nodes) e t;
          marked = rw (← e) closed_mark;
          extends = subst (Extends m) e (Extends-refl m);
        }
  ]
