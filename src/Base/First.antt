-- ===== src/Base/First.antt =====
-- What comes first in a list that is sorted by a falling value.
use Prim.Native.Nat.{ℕ, compare, Ordering, lt, eq, gt}
use mathlib.Core.Path.{◌≡◌, refl, sym, subst, ap, ◌∙◌}
use mathlib.Core.Bool.{Bool, true}
use mathlib.Core.List.{List, [], ◌∷◌, ◌++◌}
use native.Mathlib.Omega.{arith}
use teskra.Base.Tests.{leb, ltb}
use teskra.Base.Lists.{all}
use teskra.Base.Sort.{insert_where, insert_by, sort_by}

module _ {ℓ} {A : Type ℓ} (f : A → ℕ) where
  abbrev pub falling : A → A → Ordering
  falling a b = compare (f b) (f a)

  abbrev pub is_below : A → A → Bool
  is_below a b = ltb (f b) (f a)

  abbrev pub is_at_most : A → A → Bool
  is_at_most a b = leb (f b) (f a)

  -- The first of those with the greatest value.
  pub record FirstGreatest (a : A) (xs : List A) : Type ℓ where
    pub before : List A
    pub after : List A
    pub place : xs ≡ before ++ a ∷ after
    pub earlier : all (is_below a) before ≡ true
    pub later : all (is_at_most a) after ≡ true

  is_at_most-all :
      (x b : A) (before after : List A)
      → leb (f b) (f x) ≡ true
      → all (is_below b) before ≡ true
      → all (is_at_most b) after ≡ true
      → all (is_at_most x) (before ++ b ∷ after) ≡ true
  is_at_most-all x b [] [] h p q = ground arith
  is_at_most-all x b [] (y ∷ after) h p q =
      let ih = is_at_most-all x b [] after h refl (ground arith) in ground arith
  is_at_most-all x b (y ∷ before) after h p q =
      let ih = is_at_most-all x b before after h (ground arith) q in ground arith

  FirstGreatest-keeps :
      (x b : A) (xs : List A)
      → leb (f b) (f x) ≡ true
      → FirstGreatest b xs
      → FirstGreatest x (x ∷ xs)
  FirstGreatest-keeps x b xs h g = record {
    before = [];
    after = xs;
    place = refl;
    earlier = refl;
    later =
        subst (λ ys. all (is_at_most x) ys ≡ true) (sym g.place)
          (is_at_most-all x b g.before g.after h g.earlier g.later);
  }

  FirstGreatest-where :
      (o : Ordering) (x b : A) (bs rest xs : List A)
      → falling x b ≡ o
      → FirstGreatest b xs
      → (rs : List A) × (c : A) × (insert_where o x b bs rest ≡ c ∷ rs) × FirstGreatest c (x ∷ xs)
  FirstGreatest-where lt x b bs rest xs e g =
      (b ∷ bs, x, refl, FirstGreatest-keeps x b xs (ground arith) g)
  FirstGreatest-where eq x b bs rest xs e g =
      (b ∷ bs, x, refl, FirstGreatest-keeps x b xs (ground arith) g)
  FirstGreatest-where gt x b bs rest xs e g = (
    rest,
    b,
    refl,
    record {
      before = x ∷ g.before;
      after = g.after;
      place = ap (λ ys. x ∷ ys) g.place;
      earlier = let h = g.earlier in ground arith;
      later = g.later;
    },
  )

  pub sort_by-FirstGreatest :
      (x : A) (xs : List A)
      → (rs : List A) × (c : A) × (sort_by falling (x ∷ xs) ≡ c ∷ rs) × FirstGreatest c (x ∷ xs)
  sort_by-FirstGreatest x [] =
      ([], x, refl, record { before = []; after = []; place = refl; earlier = refl; later = refl })
  sort_by-FirstGreatest x (y ∷ ys) =
      let (bs, b, sorted, g) = sort_by-FirstGreatest y ys in
      let (rs, c, e, g') =
        FirstGreatest-where (falling x b) x b bs (insert_by falling x bs) (y ∷ ys) refl g in
      (rs, c, ap (insert_by falling x) sorted ∙ e, g')
