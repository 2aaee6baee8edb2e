-- ===== src/Base/Sort.antt =====
-- The stable sort by a comparator: nothing is lost, and neighbours are in order.
use Prim.Native.Nat.{ℕ, compare, Ordering, lt, eq, gt}
use mathlib.Core.Path.{◌≡◌, refl, ap, ◌∙◌}
use mathlib.Core.Bool.{Bool, true, false, not, ◌&&◌}
use mathlib.Core.List.{List, [], ◌∷◌}
use native.Mathlib.Omega.{arith}
use teskra.Base.Tests.{leb}
use teskra.Base.Lists.{length, all, keep}

abbrev pub flip : Ordering → Ordering
flip lt = gt
flip eq = eq
flip gt = lt

abbrev pub is_after : Ordering → Bool
is_after gt = true
is_after _ = false

pub compare-flip : (a b : ℕ) → compare b a ≡ flip (compare a b)
compare-flip a b = ground arith

module _ {ℓ} {A : Type ℓ} where
  -- Where `a` meets `b`, by what the comparator says of the two.
  abbrev pub insert_where : Ordering → (a b : A) → (bs rest : List A) → List A
  insert_where gt a b bs rest = b ∷ rest
  insert_where lt a b bs rest = a ∷ b ∷ bs
  insert_where eq a b bs rest = a ∷ b ∷ bs

  abbrev pub insert_by : (A → A → Ordering) → A → List A → List A
  insert_by cmp a [] = a ∷ []
  insert_by cmp a (b ∷ bs) = insert_where (cmp a b) a b bs (insert_by cmp a bs)

  -- `Array.prototype.sort`
  abbrev pub sort_by : (A → A → Ordering) → List A → List A
  sort_by cmp [] = []
  sort_by cmp (a ∷ xs) = insert_by cmp a (sort_by cmp xs)

  -- Nothing stands right before what it comes after.
  abbrev pub in_order : (A → A → Ordering) → List A → Bool
  in_order cmp [] = true
  in_order cmp (a ∷ []) = true
  in_order cmp (a ∷ b ∷ bs) = not (is_after (cmp a b)) && in_order cmp (b ∷ bs)

  abbrev pub at_least : (A → ℕ) → ℕ → A → Bool
  at_least f n d = leb n (f d)

  -- The values never fall.
  abbrev pub ascending : (A → ℕ) → List A → Bool
  ascending f [] = true
  ascending f (a ∷ xs) = all (at_least f (f a)) xs && ascending f xs

module _ {ℓ} {A : Type ℓ} (cmp : A → A → Ordering) where
  count-where :
      (p : A → Bool) (o : Ordering) (a b : A) (bs rest : List A)
      → length (keep p rest) ≡ length (keep p (a ∷ bs))
      → length (keep p (insert_where o a b bs rest)) ≡ length (keep p (a ∷ b ∷ bs))
  count-where p lt a b bs rest h = refl
  count-where p eq a b bs rest h = refl
  count-where p gt a b bs rest h = ground arith

  count-insert :
      (p : A → Bool) (a : A) (xs : List A)
      → length (keep p (insert_by cmp a xs)) ≡ length (keep p (a ∷ xs))
  count-insert p a [] = refl
  count-insert p a (b ∷ bs) =
      count-where p (cmp a b) a b bs (insert_by cmp a bs) (count-insert p a bs)

  pub count-sort :
      (p : A → Bool) (xs : List A) → length (keep p (sort_by cmp xs)) ≡ length (keep p xs)
  count-sort p [] = refl
  count-sort p (a ∷ xs) =
      let h = count-sort p xs in count-insert p a (sort_by cmp xs) ∙ ground arith

  all-where :
      (q : A → Bool) (o : Ordering) (a b : A) (bs rest : List A)
      → all q rest ≡ (q a && all q bs)
      → all q (insert_where o a b bs rest) ≡ (q a && (q b && all q bs))
  all-where q lt a b bs rest h = refl
  all-where q eq a b bs rest h = refl
  all-where q gt a b bs rest h = ground arith

  all-insert : (q : A → Bool) (a : A) (xs : List A) → all q (insert_by cmp a xs) ≡ (q a && all q xs)
  all-insert q a [] = refl
  all-insert q a (b ∷ bs) = all-where q (cmp a b) a b bs (insert_by cmp a bs) (all-insert q a bs)

  -- A value that the comparator respects.
  pub record Respects (f : A → ℕ) : Type ℓ where
    pub after : (a b : A) → cmp a b ≡ gt → leb (f b) (f a) ≡ true
    pub before : (a b : A) → is_after (cmp a b) ≡ false → leb (f a) (f b) ≡ true

  at_least-weaker :
      (f : A → ℕ) (m n : ℕ) (xs : List A)
      → leb m n ≡ true
      → all (at_least f n) xs ≡ true
      → all (at_least f m) xs ≡ true
  at_least-weaker f m n [] h g = refl
  at_least-weaker f m n (x ∷ xs) h g =
      let r = at_least-weaker f m n xs h (ground arith) in ground arith

  ascending-where :
      (f : A → ℕ)
      → Respects f
      → (o : Ordering) (a b : A) (bs rest : List A) → cmp a b ≡ o
      → ascending f (b ∷ bs) ≡ true
      → ascending f rest ≡ true
      → all (at_least f (f b)) rest ≡ (at_least f (f b) a && all (at_least f (f b)) bs)
      → ascending f (insert_where o a b bs rest) ≡ true
  ascending-where f r lt a b bs rest e h g k =
      let first = r.before a b (ap is_after e) in
      let weaker = at_least-weaker f (f a) (f b) bs first (ground arith) in ground arith
  ascending-where f r eq a b bs rest e h g k =
      let first = r.before a b (ap is_after e) in
      let weaker = at_least-weaker f (f a) (f b) bs first (ground arith) in ground arith
  ascending-where f r gt a b bs rest e h g k = let first = r.after a b e in ground arith

  ascending-insert :
      (f : A → ℕ)
      → Respects f
      → (a : A) (xs : List A) → ascending f xs ≡ true
      → ascending f (insert_by cmp a xs) ≡ true
  ascending-insert f r a [] h = refl
  ascending-insert f r a (b ∷ bs) h =
      ascending-where f r (cmp a b) a b bs (insert_by cmp a bs) refl h
        (ascending-insert f r a bs (ground arith)) (all-insert (at_least f (f b)) a bs)

  pub ascending-sort :
      (f : A → ℕ) → Respects f → (xs : List A) → ascending f (sort_by cmp xs) ≡ true
  ascending-sort f r [] = refl
  ascending-sort f r (a ∷ xs) = ascending-insert f r a (sort_by cmp xs) (ascending-sort f r xs)

  module _ (flips : (a b : A) → cmp b a ≡ flip (cmp a b)) where
    in_order-cons_where :
        (o : Ordering) (b a c : A) (cs rest : List A)
        → is_after (cmp b a) ≡ false
        → is_after (cmp b c) ≡ false
        → in_order cmp (insert_where o a c cs rest) ≡ true
        → in_order cmp (b ∷ insert_where o a c cs rest) ≡ true
    in_order-cons_where lt b a c cs rest p q h = ground arith
    in_order-cons_where eq b a c cs rest p q h = ground arith
    in_order-cons_where gt b a c cs rest p q h = ground arith

    in_order-cons :
        (b a : A) (bs : List A)
        → is_after (cmp b a) ≡ false
        → in_order cmp (b ∷ bs) ≡ true
        → in_order cmp (insert_by cmp a bs) ≡ true
        → in_order cmp (b ∷ insert_by cmp a bs) ≡ true
    in_order-cons b a [] p h g = ground arith
    in_order-cons b a (c ∷ cs) p h g =
        in_order-cons_where (cmp a c) b a c cs (insert_by cmp a cs) p (ground arith) g

    in_order-where :
        (o : Ordering) (a b : A) (bs : List A)
        → cmp a b ≡ o
        → in_order cmp (b ∷ bs) ≡ true
        → in_order cmp (insert_by cmp a bs) ≡ true
        → in_order cmp (insert_where o a b bs (insert_by cmp a bs)) ≡ true
    in_order-where lt a b bs e h g = rw (e) h
    in_order-where eq a b bs e h g = rw (e) h
    in_order-where gt a b bs e h g = in_order-cons b a bs (ap is_after (flips a b ∙ ap flip e)) h g

    in_order-tail : (b : A) (bs : List A) → in_order cmp (b ∷ bs) ≡ true → in_order cmp bs ≡ true
    in_order-tail b [] h = refl
    in_order-tail b (c ∷ cs) h = ground arith

    in_order-insert :
        (a : A) (xs : List A) → in_order cmp xs ≡ true → in_order cmp (insert_by cmp a xs) ≡ true
    in_order-insert a [] h = refl
    in_order-insert a (b ∷ bs) h =
        in_order-where (cmp a b) a b bs refl h (in_order-insert a bs (in_order-tail b bs h))

    pub in_order-sort : (xs : List A) → in_order cmp (sort_by cmp xs) ≡ true
    in_order-sort [] = refl
    in_order-sort (a ∷ xs) = in_order-insert a (sort_by cmp xs) (in_order-sort xs)
