-- ===== src/Workflow/Graph/NodeMap.antt =====
-- The map from ids to the nodes of a definition.
use teskra.Base.{
  String, ◌==◌, eq_iff, suc, ◌+◌, ◌≤◌, ◌≡◌, ◌≢◌, refl, ◌∙◌, ap, ◌⊎◌, inl, inr, true, List, [], ◌∷◌,
  some, In, here, there, lookup, insert, length, lookup-insert, lookup-insert_self, Bool-cases,
  arith,
}
use teskra.Workflow.Types.{Node}
use teskra.Workflow.Graph.{has_key, node_map_from}

-- The nodes of the map are the steps.
has_key-insert :
    (k : String) (n : Node) (x : String) (m : List (String × Node))
    → has_key (lookup x m) ≡ true
    → has_key (lookup x (insert k n m)) ≡ true
has_key-insert k n x m h = ground (arith, lookup-insert k x n m)

has_key-node_map_from :
    (x : String) (ns : List Node) (m : List (String × Node))
    → has_key (lookup x m) ≡ true
    → has_key (lookup x (node_map_from ns m)) ≡ true
unfolding node_map_from
has_key-node_map_from x [] m h = h
has_key-node_map_from x (n ∷ ns) m h =
    has_key-node_map_from x ns (insert n.id n m) (has_key-insert n.id n x m h)

pub known_of_step :
    (n : Node) (ns : List Node) (m : List (String × Node))
    → In n ns
    → has_key (lookup n.id (node_map_from ns m)) ≡ true
unfolding node_map_from
known_of_step n [] m i = elim i [ ]
known_of_step n (a ∷ ns) m (here e) =
    has_key-node_map_from n.id ns (insert a.id a m)
      (rw (ap (λ (x : Node). x.id) e) (rw (lookup-insert_self a.id a m)))
known_of_step n (a ∷ ns) m (there i) = known_of_step n ns (insert a.id a m) i

pub step_of_known :
    (x : String) (ns : List Node) (m : List (String × Node))
    → has_key (lookup x (node_map_from ns m)) ≡ true
    → (has_key (lookup x m) ≡ true) ⊎ ((n : Node) × In n ns × (n.id ≡ x))
unfolding node_map_from
step_of_known x [] m h = inl h
step_of_known x (a ∷ ns) m h = elim (step_of_known x ns (insert a.id a m) h) [
  | inr (n, i, e) ↦ inr (n, there i, e)
  | inl k ↦ elim (Bool-cases (a.id == x)) [
    | inl same ↦ inr (a, here refl, (eq_iff a.id x).0 same)
    | inr other ↦ inl (ground (arith, lookup-insert a.id x a m))
  ]
]

length-insert-le :
    (k : String) (n : Node) (m : List (String × Node)) → length (insert k n m) ≤ suc (length m)
length-insert-le k n [] = omega arith
length-insert-le k n ((j, w) ∷ m) = ground (arith, length-insert-le k n m)

pub length-node_map_from :
    (ns : List Node) (m : List (String × Node)) → length (node_map_from ns m) ≤ length ns + length m
unfolding node_map_from
length-node_map_from [] m = omega arith
length-node_map_from (n ∷ ns) m =
    omega (arith, length-node_map_from ns (insert n.id n m), length-insert-le n.id n m)

-- The ids of the steps are distinct.
abbrev pub Distinct : List Node → Type 0
Distinct [] = Unit
Distinct (n ∷ ns) = ((a : Node) → In a ns → a.id ≢ n.id) × Distinct ns

pub lookup-node_map_sound :
    (x : String) (ns : List Node) (m : List (String × Node)) (u : Node)
    → lookup x (node_map_from ns m) ≡ some u
    → (lookup x m ≡ some u) ⊎ (In u ns × (u.id ≡ x))
unfolding node_map_from
lookup-node_map_sound x [] m u h = inl h
lookup-node_map_sound x (n ∷ ns) m u h = elim (lookup-node_map_sound x ns (insert n.id n m) u h) [
  | inr (i, e) ↦ inr (there i, e)
  | inl e ↦ elim (Bool-cases (n.id == x)) [
    | inl same ↦
        let q : u ≡ n = ground (arith, lookup-insert n.id x n m) in
        inr (here q, ap (λ (m : Node). m.id) q ∙ (eq_iff n.id x).0 same)
    | inr other ↦ inl (ground (arith, lookup-insert n.id x n m))
  ]
]

lookup-node_map_other :
    (x : String) (ns : List Node) (m : List (String × Node))
    → ((n : Node) → In n ns → n.id ≢ x)
    → lookup x (node_map_from ns m) ≡ lookup x m
unfolding node_map_from
lookup-node_map_other x [] m h = refl
lookup-node_map_other x (n ∷ ns) m h =
    let ne = h n (here refl) in
    lookup-node_map_other x ns (insert n.id n m) (λ a i. h a (there i))
    ∙ ground (arith, lookup-insert n.id x n m, eq_iff n.id x)

-- Where ids are distinct, the map finds each step.
pub lookup-node_map_complete :
    (u : Node) (ns : List Node) (m : List (String × Node))
    → Distinct ns
    → In u ns
    → lookup u.id (node_map_from ns m) ≡ some u
unfolding node_map_from
lookup-node_map_complete u [] m d i = elim i [ ]
lookup-node_map_complete u (n ∷ ns) m (new, d) (here e) =
    rw e (lookup-node_map_other n.id ns (insert n.id n m) new ∙ lookup-insert_self n.id n m)
lookup-node_map_complete u (n ∷ ns) m (new, d) (there i) =
    lookup-node_map_complete u ns (insert n.id n m) d i
