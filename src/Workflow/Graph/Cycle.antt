-- ===== src/Workflow/Graph/Cycle.antt =====
-- findDependencyCycle decides whether the dependencies of a definition are acyclic.
use teskra.Base.{
  String, ℕ, ◌+◌, ◌<◌, ◌≡◌, ◌≢◌, ◌↔◌, refl, ◌⊎◌, inl, inr, true, List, [], ◌∷◌, ◌++◌, none, some,
  In, here, there, lookup, length, In-cons_all, arith, subst,
}
use teskra.Workflow.Types.{Node, Definition}
use teskra.Workflow.Graph.{
  has_key, done, Marks, Search, exhausted, cycle, clear, visit, visit_nodes, node_map, search_cycle,
  found, find_dependency_cycle,
}
use teskra.Workflow.Graph.NodeMap.{known_of_step, step_of_known, length-node_map_from}
use teskra.Workflow.Graph.Marked.{
  Extends, Extends-done, Extends-refl, Extends-trans, IsRanked, visit-clear, and_then-clear,
}
use teskra.Workflow.Graph.Fuel.{
  fresh_count, fresh_count-nil, fresh_count-Extends, visit-total, and_then-exhausted,
}
use teskra.Workflow.Graph.Closed.{visit-cycle, OnStack, OnStack-Extends, and_then-cycle}
use teskra.Workflow.Graph.Relations.{
  Edge, Reaches, step, more, Chain, one, link, IsCycle, IsAcyclic,
}

nil-IsRanked : (nodes : List (String × Node)) → IsRanked nodes []
nil-IsRanked nodes = record {
  rank = λ x. 0;
  bound = 0;
  below = λ x e. cc;
  closed = λ x y e g. absurd (cc);
}

module _ (f : ℕ) (nodes : List (String × Node)) where
  visit_nodes-clear :
      (ns : List Node) (m m' : Marks)
      → IsRanked nodes m
      → visit_nodes f nodes ns m ≡ clear m'
      → IsRanked nodes m' × Extends m m' × ((n : Node) → In n ns → lookup n.id m' ≡ some done)
  unfolding visit_nodes
  visit_nodes-clear [] m m' t h =
      let e : m ≡ m' = cc in
      (subst (IsRanked nodes) e t, subst (Extends m) e (Extends-refl m), λ n i. elim i [ ])
  visit_nodes-clear (n ∷ ns) m m' t h =
      let (m1, e1, e2) = and_then-clear (visit f nodes [] n.id m) (visit_nodes f nodes ns) m' h in
      let c = visit-clear nodes f [] n.id m m1 t e1 in
      let (t2, x2, all2) = visit_nodes-clear ns m1 m' c.ranked e2 in
      (
        t2,
        Extends-trans m m1 m' c.extends x2,
        In-cons_all (λ (a : Node). lookup a.id m' ≡ some done) n ns
            (Extends-done m1 m' n.id x2 c.marked) all2,
      )

  visit_nodes-total :
      (ns : List Node) (m : Marks)
      → ((n : Node) → In n ns → has_key (lookup n.id nodes) ≡ true)
      → IsRanked nodes m
      → fresh_count nodes m < f
      → visit_nodes f nodes ns m ≢ exhausted
  unfolding visit_nodes
  visit_nodes-total [] m k t lt h = cc
  visit_nodes-total (n ∷ ns) m k t lt h =
      elim (and_then-exhausted (visit f nodes [] n.id m) (visit_nodes f nodes ns) h) [
        | inl e ↦ visit-total nodes f [] n.id m (k n (here refl)) t lt e
        | inr (m1, e1, e2) ↦
            let c = visit-clear nodes f [] n.id m m1 t e1 in
            visit_nodes-total ns m1 (λ a i. k a (there i)) c.ranked
              (omega (arith, fresh_count-Extends nodes m m1 c.extends)) e2
      ]

  visit_nodes-cycle :
      (ns : List Node) (m : Marks) (c : List String)
      → IsRanked nodes m
      → OnStack [] m
      → visit_nodes f nodes ns m ≡ cycle c
      → IsCycle nodes c
  unfolding visit_nodes
  visit_nodes-cycle [] m c t o h = absurd (cc)
  visit_nodes-cycle (n ∷ ns) m c t o h =
      elim (and_then-cycle (visit f nodes [] n.id m) (visit_nodes f nodes ns) c h) [
        | inl e ↦ visit-cycle nodes f [] n.id m c (one n.id) t o e
        | inr (m1, e1, e2) ↦
            let r = visit-clear nodes f [] n.id m m1 t e1 in
            visit_nodes-cycle ns m1 c r.ranked (OnStack-Extends [] m m1 r.extends o) e2
      ]

-- The search never runs out of the fuel that it is given, one more than the number of steps.
search_cycle-ne-exhausted : (d : Definition) → search_cycle d ≢ exhausted
search_cycle-ne-exhausted d =
    visit_nodes-total (length d.steps + 1) (node_map d) d.steps []
      (λ n i. known_of_step n d.steps [] i) (nil-IsRanked (node_map d))
      (omega (arith, fresh_count-nil (node_map d), length-node_map_from d.steps []))

search_cases :
    (r : Search)
    → (r ≡ exhausted) ⊎ (((c : List String) × (r ≡ cycle c)) ⊎ ((m : Marks) × (r ≡ clear m)))
search_cases exhausted = inl refl
search_cases (cycle c) = inr (inl (c, refl))
search_cases (clear m) = inr (inr (m, refl))

found-some : (r : Search) (c : List String) → found r ≡ some c → r ≡ cycle c
found-some exhausted c h = cc
found-some (cycle c') c h = cc
found-some (clear m) c h = cc

-- A list of ids that `find_dependency_cycle` returns is a cycle of the definition: its first and its
-- last id are the same, and each id depends on the next, which is a node of the definition.
pub find_dependency_cycle-IsCycle :
    (d : Definition) (c : List String) → find_dependency_cycle d ≡ some c → IsCycle (node_map d) c
unfolding find_dependency_cycle
find_dependency_cycle-IsCycle d c h =
    visit_nodes-cycle (length d.steps + 1) (node_map d) d.steps [] c (nil-IsRanked (node_map d))
      (λ x e. absurd (cc)) (found-some (search_cycle d) c h)

Reaches-ranked :
    (nodes : List (String × Node)) (m : Marks) (t : IsRanked nodes m) {x y : String}
    → Reaches nodes x y
    → lookup x m ≡ some done
    → (lookup y m ≡ some done) × (t.rank y < t.rank x)
Reaches-ranked nodes m t {x} (step {y} g) e = t.closed x y e g
Reaches-ranked nodes m t {x} (more {y} {z} r g) e =
    let (dy, ly) = Reaches-ranked nodes m t r e in
    let (dz, lz) = t.closed y z dy g in (dz, omega arith)

Reaches-cons :
    (nodes : List (String × Node)) {x y z : String}
    → Edge nodes x y
    → Reaches nodes y z
    → Reaches nodes x z
Reaches-cons nodes g (step h) = more (step g) h
Reaches-cons nodes g (more r h) = more (Reaches-cons nodes g r) h

Chain-Reaches :
    (nodes : List (String × Node)) (x : String) (inner : List String) (y : String)
    → Chain nodes (x ∷ (inner ++ y ∷ []))
    → Reaches nodes x y
Chain-Reaches nodes x [] y (link g c) = step g
Chain-Reaches nodes x (z ∷ inner) y (link g c) =
    Reaches-cons nodes g (Chain-Reaches nodes z inner y c)

known_of_Reaches :
    (nodes : List (String × Node)) {x y : String}
    → Reaches nodes x y
    → has_key (lookup y nodes) ≡ true
known_of_Reaches nodes (step g) = g.known
known_of_Reaches nodes (more r g) = g.known

-- `find_dependency_cycle` returns null exactly when no node of the definition reaches itself along
-- dependencies, whether or not ids are repeated and dependencies dangle.
pub find_dependency_cycle-eq-none_iff :
    (d : Definition) → (find_dependency_cycle d ≡ none) ↔ IsAcyclic d
unfolding find_dependency_cycle
find_dependency_cycle-eq-none_iff d = elim (search_cases (search_cycle d)) [
  | inl e ↦ absurd (search_cycle-ne-exhausted d e)
  | inr (inl (c, e)) ↦ (
    λ h. absurd (ground arith),
    λ a.
        let y = find_dependency_cycle-IsCycle d c (rw (e, found)) in
        absurd (a y.start (Chain-Reaches (node_map d) y.start y.inner y.start y.chain)),
  )
  | inr (inr (m, e)) ↦ (
    λ _ x r.
        let (t, _, each) =
          visit_nodes-clear (length d.steps + 1) (node_map d) d.steps [] m
            (nil-IsRanked (node_map d)) e in
        elim (step_of_known x d.steps [] (known_of_Reaches (node_map d) r)) [
          | inl none_known ↦ absurd (cc)
          | inr (n, i, same) ↦
              let dx : lookup x m ≡ some done = rw (← same) (each n i) in
              let low = (Reaches-ranked (node_map d) m t r dx).1 in absurd (omega arith)
        ],
    λ _. rw (e, found),
  )
]
