-- ===== src/Workflow/Validate/Connected.antt =====
-- The nodes that the walk finds are those which an active terminal node leads to.
use mathlib.Core.List.{reverse, reverse-cons}
use teskra.Base.{
  String, suc, ◌+◌, ◌≡◌, ◌↔◌, refl, inl, inr, List, [], ◌∷◌, some, In, here, there, In-append_left,
  In-append_right, In-append_cases, length, length-append, arith,
}
use teskra.Workflow.Types.{Node}
use teskra.Workflow.Graph.{NormalizedDependency, deps_of}
use teskra.Workflow.Validate.{walk, deps_count, reaching_from}
use teskra.Workflow.Validate.Walk.{walk-total, walk_sound, walk_complete, weight-nil, IsClosed}

-- `t` leads to `x`: `x` is `t`, or a dependency of a node that `t` leads to.
pub data Leads (nodes : List (String × Node)) (t : String) : String → Type 0 where
  self : Leads nodes t t
  via :
      {x y : String} (d : NormalizedDependency)
      → Leads nodes t x
      → In d (deps_of nodes x)
      → d.node ≡ y
      → Leads nodes t y

abbrev pub LedTo : List (String × Node) → List String → String → Type 0
LedTo nodes ts x = (t : String) × In t ts × Leads nodes t x

In-reverse : (xs : List String) (x : String) → In x (reverse xs) → In x xs
In-reverse [] x i = i
In-reverse (y ∷ xs) x i = elim (In-append_cases (reverse xs) (y ∷ []) (rw reverse-cons at i)) [
  | inl j ↦ there (In-reverse xs x j)
  | inr (here e) ↦ here e
  | inr (there j) ↦ elim j [ ]
]

reverse-In : (xs : List String) (x : String) → In x xs → In x (reverse xs)
reverse-In [] x i = i
reverse-In (y ∷ xs) x (here e) = rw reverse-cons (In-append_right (reverse xs) (here e))
reverse-In (y ∷ xs) x (there i) = rw reverse-cons (In-append_left (y ∷ []) (reverse-In xs x i))

length-reverse : (xs : List String) → length (reverse xs) ≡ length xs
length-reverse [] = refl
length-reverse (x ∷ xs) =
    rw reverse-cons (omega (arith, length-append (reverse xs) (x ∷ []), length-reverse xs))

Leads-closed :
    (nodes : List (String × Node)) (r : List String)
    → IsClosed nodes r
    → (t : String) → In t r
    → {x : String} → Leads nodes t x
    → In x r
Leads-closed nodes r c t i self = i
Leads-closed nodes r c t i (via {x} d l k e) = rw (← e) (c x d (Leads-closed nodes r c t i l) k)

module _ (nodes : List (String × Node)) (ts : List String) where
  reaching_from-walk :
      (r' : List String) × (walk (suc (length ts + deps_count nodes)) nodes (reverse ts) []
        ≡ some r')
      × (reaching_from nodes ts ≡ r')
  unfolding reaching_from
  reaching_from-walk =
      let (r', e) =
        walk-total nodes (suc (length ts + deps_count nodes)) (reverse ts) []
          (omega (arith, length-reverse ts, weight-nil nodes)) in
      (r', e, rw e)

  -- The walk, whose fuel suffices, finds exactly the nodes that some start of it leads to.
  pub reaching_from_iff : (x : String) → In x (reaching_from nodes ts) ↔ LedTo nodes ts x
  reaching_from_iff x = (to, from)
    where
      to : In x (reaching_from nodes ts) → LedTo nodes ts x
      to i =
          let (r', e, same) = reaching_from-walk in
          walk_sound nodes (LedTo nodes ts) (λ y d (t, j, l) k. (t, j, via d l k refl))
            (suc (length ts + deps_count nodes)) (reverse ts) [] r'
            (λ y j. (y, In-reverse ts y j, self)) (λ y j. elim j [ ]) e x (rw same at i)

      from : LedTo nodes ts x → In x (reaching_from nodes ts)
      from (t, j, l) =
          let (r', e, same) = reaching_from-walk in
          let (kept, closed) =
            walk_complete nodes (suc (length ts + deps_count nodes)) (reverse ts) [] r'
              (λ y d i k. elim i [ ]) e in
          rw same (Leads-closed nodes r' closed t (kept t (inl (reverse-In ts t j))) l)
