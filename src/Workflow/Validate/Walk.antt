-- ===== src/Workflow/Validate/Walk.antt =====
-- The backward walk of `unreachableAfterFiltering`: what it returns, and that its fuel is enough.
use teskra.Base.{
  String, ◌==◌, eq_iff, ℕ, zero, suc, ◌+◌, ◌≤◌, ◌<◌, ◌≡◌, refl, sym, ap, ◌⊎◌, inl, inr, false, ◌||◌,
  List, [], ◌∷◌, ◌++◌, some, In, here, there, In-append_left, In-append_right, In-append_cases,
  includes, includes-In, length, Bool-cases, if◌then◌else◌, arith, subst,
}
use teskra.Workflow.Types.{Node}
use teskra.Workflow.Graph.{NormalizedDependency, normalize_depends_on, deps_of}
use teskra.Workflow.Validate.{push_nodes, walk, deps_count}

push_nodes-queue :
    (ds : List NormalizedDependency) (q : List String) {x : String}
    → In x q
    → In x (push_nodes ds q)
unfolding push_nodes
push_nodes-queue [] q i = i
push_nodes-queue (d ∷ ds) q i = push_nodes-queue ds (d.node ∷ q) (there i)

push_nodes-dep :
    (ds : List NormalizedDependency) (q : List String) {d : NormalizedDependency}
    → In d ds
    → In d.node (push_nodes ds q)
unfolding push_nodes
push_nodes-dep [] q i = elim i [ ]
push_nodes-dep (d ∷ ds) q (here e) =
    push_nodes-queue ds (d.node ∷ q) (here (ap (λ (x : NormalizedDependency). x.node) e))
push_nodes-dep (d ∷ ds) q (there i) = push_nodes-dep ds (d.node ∷ q) i

push_nodes-cases :
    (ds : List NormalizedDependency) (q : List String) (x : String)
    → In x (push_nodes ds q)
    → In x q ⊎ ((d : NormalizedDependency) × In d ds × (d.node ≡ x))
unfolding push_nodes
push_nodes-cases [] q x i = inl i
push_nodes-cases (d ∷ ds) q x i = elim (push_nodes-cases ds (d.node ∷ q) x i) [
  | inr (c, j, e) ↦ inr (c, there j, e)
  | inl (here e) ↦ inr (d, here refl, sym e)
  | inl (there j) ↦ inl j
]

length-push_nodes :
    (ds : List NormalizedDependency) (q : List String)
    → length (push_nodes ds q) ≡ length ds + length q
unfolding push_nodes
length-push_nodes [] q = omega arith
length-push_nodes (d ∷ ds) q = omega (arith, length-push_nodes ds (d.node ∷ q))

-- The dependencies of the nodes that the walk has not taken yet.
abbrev pub weight : List (String × Node) → List String → ℕ
weight [] r = 0
weight ((k, n) ∷ ns) r =
    (if includes r k then 0 else length (normalize_depends_on n.depends_on)) + weight ns r

pub weight-nil : (ns : List (String × Node)) → weight ns [] ≡ deps_count ns
unfolding deps_count
weight-nil [] = refl
weight-nil ((k, n) ∷ ns) = omega (arith, weight-nil ns)

includes-concat :
    (r : List String) (x k : String) → includes (r ++ x ∷ []) k ≡ (includes r k || x == k)
includes-concat [] x k = ground arith
includes-concat (y ∷ r) x k = ground (arith, includes-concat r x k)

weight-concat-le :
    (ns : List (String × Node)) (r : List String) (x : String)
    → weight ns (r ++ x ∷ []) ≤ weight ns r
weight-concat-le [] r x = omega arith
weight-concat-le ((k, n) ∷ ns) r x = ground (arith, includes-concat r x k, weight-concat-le ns r x)

weight-concat :
    (ns : List (String × Node)) (r : List String) (x : String)
    → includes r x ≡ false
    → weight ns (r ++ x ∷ []) + length (deps_of ns x) ≤ weight ns r
weight-concat [] r x h = omega arith
weight-concat ((k, n) ∷ ns) r x h = elim (Bool-cases (k == x)) [
  | inl same ↦
      let e : k ≡ x = (eq_iff k x).0 same in
      let out : includes r k ≡ false = rw e h in
      ground (arith, includes-concat r x k, weight-concat-le ns r x, eq_iff x k)
  | inr other ↦
      ground (arith, includes-concat r x k, weight-concat ns r x h, eq_iff x k, eq_iff k x)
]

module _ (nodes : List (String × Node)) where
  pub walk-total :
      (f : ℕ) (q r : List String)
      → length q + weight nodes r < f
      → (r' : List String) × (walk f nodes q r ≡ some r')
  unfolding walk
  walk-total zero q r h = elim h [ ]
  walk-total (suc f) [] r h = (r, refl)
  walk-total (suc f) (id ∷ q) r h = elim (Bool-cases (includes r id)) [
    | inl taken ↦ rw taken (walk-total f q r (omega arith))
    | inr new ↦ rw new (
        walk-total f (push_nodes (deps_of nodes id) q) (r ++ id ∷ [])
          (omega (arith, weight-concat nodes r id new, length-push_nodes (deps_of nodes id) q)))
  ]

  grow_queue {ℓ} :
      (P : String → Type ℓ)
      → ((x : String) (d : NormalizedDependency) → P x → In d (deps_of nodes x) → P d.node)
      → (id : String) (q : List String) → ((x : String) → In x (id ∷ q) → P x)
      → (x : String) → In x (push_nodes (deps_of nodes id) q)
      → P x
  grow_queue P c id q hq x i = elim (push_nodes-cases (deps_of nodes id) q x i) [
    | inl j ↦ hq x (there j)
    | inr (d, j, e) ↦ subst P e (c id d (hq id (here refl)) j)
  ]

  grow_taken {ℓ} :
      (P : String → Type ℓ) (id : String) (q r : List String)
      → ((x : String) → In x (id ∷ q) → P x)
      → ((x : String) → In x r → P x)
      → (x : String) → In x (r ++ id ∷ [])
      → P x
  grow_taken P id q r hq hr x i = elim (In-append_cases r (id ∷ []) i) [
    | inl j ↦ hr x j
    | inr (here e) ↦ hq x (here e)
    | inr (there j) ↦ elim j [ ]
  ]

  -- Nothing is taken that the queue does not lead to.
  pub walk_sound {ℓ} :
      (P : String → Type ℓ)
      → ((x : String) (d : NormalizedDependency) → P x → In d (deps_of nodes x) → P d.node)
      → (f : ℕ) (q r r' : List String) → ((x : String) → In x q → P x)
      → ((x : String) → In x r → P x)
      → walk f nodes q r ≡ some r'
      → (x : String) → In x r'
      → P x
  unfolding walk
  walk_sound P c zero q r r' hq hr h x i = absurd (cc)
  walk_sound P c (suc f) [] r r' hq hr h x i = hr x (let e : r ≡ r' = cc in rw e i)
  walk_sound P c (suc f) (id ∷ q) r r' hq hr h x i = elim (Bool-cases (includes r id)) [
    | inl taken ↦ walk_sound P c f q r r' (λ y j. hq y (there j)) hr (rw (taken, walk) at h) x i
    | inr new ↦
        walk_sound P c f (push_nodes (deps_of nodes id) q) (r ++ id ∷ []) r'
          (grow_queue P c id q hq) (grow_taken P id q r hq hr) (rw (new, walk) at h) x i
  ]

  -- A dependency of what is taken is taken or queued.
  abbrev pub IsOpen : List String → List String → Type 0
  IsOpen q r =
      (x : String) (d : NormalizedDependency)
      → In x r
      → In d (deps_of nodes x)
      → In d.node r ⊎ In d.node q

  abbrev pub IsClosed : List String → Type 0
  IsClosed r =
      (x : String) (d : NormalizedDependency) → In x r → In d (deps_of nodes x) → In d.node r

  abbrev pub Keeps : List String → List String → List String → Type 0
  Keeps q r r' = (x : String) → In x q ⊎ In x r → In x r'

  IsOpen-skip : (id : String) (q r : List String) → In id r → IsOpen (id ∷ q) r → IsOpen q r
  IsOpen-skip id q r taken o x d i j = elim (o x d i j) [
    | inl k ↦ inl k
    | inr (here e) ↦ inl (rw e taken)
    | inr (there k) ↦ inr k
  ]

  IsOpen-take :
      (id : String) (q r : List String)
      → IsOpen (id ∷ q) r
      → IsOpen (push_nodes (deps_of nodes id) q) (r ++ id ∷ [])
  IsOpen-take id q r o x d i j = elim (In-append_cases r (id ∷ []) i) [
    | inl k ↦ elim (o x d k j) [
      | inl l ↦ inl (In-append_left (id ∷ []) l)
      | inr (here e) ↦ inl (In-append_right r (here e))
      | inr (there l) ↦ inr (push_nodes-queue (deps_of nodes id) q l)
    ]
    | inr (here e) ↦
        inr (push_nodes-dep (deps_of nodes id) q (subst (λ y. In d (deps_of nodes y)) e j))
    | inr (there k) ↦ elim k [ ]
  ]

  Keeps-skip : (id : String) (q r r' : List String) → In id r → Keeps q r r' → Keeps (id ∷ q) r r'
  Keeps-skip id q r r' taken k x (inl (here e)) = k x (inr (rw e taken))
  Keeps-skip id q r r' taken k x (inl (there i)) = k x (inl i)
  Keeps-skip id q r r' taken k x (inr i) = k x (inr i)

  Keeps-take :
      (id : String) (q r r' : List String)
      → Keeps (push_nodes (deps_of nodes id) q) (r ++ id ∷ []) r'
      → Keeps (id ∷ q) r r'
  Keeps-take id q r r' k x (inl (here e)) = k x (inr (In-append_right r (here e)))
  Keeps-take id q r r' k x (inl (there i)) = k x (inl (push_nodes-queue (deps_of nodes id) q i))
  Keeps-take id q r r' k x (inr i) = k x (inr (In-append_left (id ∷ []) i))

  IsClosed-empty : (r : List String) → IsOpen [] r → Keeps [] r r × IsClosed r
  IsClosed-empty r o = (kept, closed)
    where
      kept : Keeps [] r r
      kept x (inl i) = elim i [ ]
      kept x (inr i) = i

      closed : IsClosed r
      closed x d i j = elim (o x d i j) [ inl k ↦ k | inr k ↦ elim k [ ] ]

  -- What is taken is closed under dependencies, and keeps the queue and what was taken before.
  pub walk_complete :
      (f : ℕ) (q r r' : List String)
      → IsOpen q r
      → walk f nodes q r ≡ some r'
      → Keeps q r r' × IsClosed r'
  unfolding walk
  walk_complete zero q r r' o h = absurd (cc)
  walk_complete (suc f) [] r r' o h =
      let e : r ≡ r' = cc in subst (λ z. Keeps [] r z × IsClosed z) e (IsClosed-empty r o)
  walk_complete (suc f) (id ∷ q) r r' o h = elim (Bool-cases (includes r id)) [
    | inl taken ↦
        let i = includes-In r id taken in
        let (k, c) = walk_complete f q r r' (IsOpen-skip id q r i o) (rw (taken, walk) at h) in
        (Keeps-skip id q r r' i k, c)
    | inr new ↦
        let (k, c) =
          walk_complete f (push_nodes (deps_of nodes id) q) (r ++ id ∷ []) r' (IsOpen-take id q r o)
            (rw (new, walk) at h) in
        (Keeps-take id q r r' k, c)
  ]
