-- ===== src/Base/Lists.antt =====
-- Lists: Boolean searches, predicates by recursion, and membership as a witness.
use Prim.Native.Nat.{ℕ, zero, suc, ◌+◌}
use mathlib.Core.Path.{◌≡◌, refl, sym, ap, subst}
use mathlib.Core.Logic.{◌↔◌, ◌⊎◌, inl, inr}
use mathlib.Core.Bool.{Bool, true, false, ◌&&◌, ◌||◌}
use mathlib.Core.Option.{Option, none, some}
use mathlib.Core.List.{List, [], ◌∷◌, ◌++◌}
use native.Mathlib.Omega.{arith}
use teskra.Base.Tests.{if◌then◌else◌, Bool-cases}

module _ {ℓ} {A : Type ℓ} where
  abbrev pub length : List A → ℕ
  length [] = 0
  length (x ∷ xs) = suc (length xs)

  -- `Array.prototype.every` and `some`.
  abbrev pub all : (A → Bool) → List A → Bool
  all p [] = true
  all p (x ∷ xs) = p x && all p xs

  abbrev pub any : (A → Bool) → List A → Bool
  any p [] = false
  any p (x ∷ xs) = p x || any p xs

  -- `Array.prototype.filter` and `find`.
  abbrev pub keep : (A → Bool) → List A → List A
  keep p [] = []
  keep p (x ∷ xs) = if p x then x ∷ keep p xs else keep p xs

  abbrev pub find : (A → Bool) → List A → Option A
  find p [] = none
  find p (x ∷ xs) = if p x then some x else find p xs

  abbrev pub take : ℕ → List A → List A
  take zero xs = []
  take (suc n) [] = []
  take (suc n) (x ∷ xs) = x ∷ take n xs

  abbrev pub drop : ℕ → List A → List A
  drop zero xs = xs
  drop (suc n) [] = []
  drop (suc n) (x ∷ xs) = drop n xs

  abbrev pub is_empty : List A → Bool
  is_empty [] = true
  is_empty (x ∷ xs) = false

-- Membership with its place, so that a lookup can be read off it.
pub data In {ℓ} {A : Type ℓ} (a : A) : List A → Type ℓ where
  here : {x : A} {xs : List A} → a ≡ x → In a (x ∷ xs)
  there : {x : A} {xs : List A} → In a xs → In a (x ∷ xs)

module _ {ℓ} {A : Type ℓ} where
  pub In-append_left : {a : A} {xs : List A} (ys : List A) → In a xs → In a (xs ++ ys)
  In-append_left ys (here e) = here e
  In-append_left ys (there h) = there (In-append_left ys h)

  pub In-append_right : {a : A} (xs : List A) {ys : List A} → In a ys → In a (xs ++ ys)
  In-append_right [] h = h
  In-append_right (x ∷ xs) h = there (In-append_right xs h)

  pub In-append_cases : {a : A} (xs ys : List A) → In a (xs ++ ys) → In a xs ⊎ In a ys
  In-append_cases [] ys h = inr h
  In-append_cases (x ∷ xs) ys (here e) = inl (here e)
  In-append_cases (x ∷ xs) ys (there h) = elim (In-append_cases xs ys h) [
    | inl l ↦ inl (there l)
    | inr r ↦ inr r
  ]

  pub all_elim : (p : A → Bool) {a : A} {xs : List A} → all p xs ≡ true → In a xs → p a ≡ true
  all_elim p h (here e) = rw e (ground arith)
  all_elim p h (there m) = all_elim p (ground arith) m

  pub all_intro : (p : A → Bool) (xs : List A) → ((a : A) → In a xs → p a ≡ true) → all p xs ≡ true
  all_intro p [] h = refl
  all_intro p (x ∷ xs) h = rw (h x (here refl)) (all_intro p xs (λ a m. h a (there m)))

  pub all_fails :
      (p : A → Bool) (xs : List A) → all p xs ≡ false → (a : A) × In a xs × (p a ≡ false)
  all_fails p [] h = absurd (cc)
  all_fails p (x ∷ xs) h = elim (Bool-cases (p x)) [
    | inl t ↦ let (a, m, e) = all_fails p xs (ground arith) in (a, there m, e)
    | inr f ↦ (x, here refl, f)
  ]

  pub any_elim : (p : A → Bool) (xs : List A) → any p xs ≡ true → (a : A) × In a xs × (p a ≡ true)
  any_elim p [] h = absurd (cc)
  any_elim p (x ∷ xs) h = elim (Bool-cases (p x)) [
    | inl t ↦ (x, here refl, t)
    | inr f ↦ let (a, m, e) = any_elim p xs (ground arith) in (a, there m, e)
  ]

  pub any_intro : (p : A → Bool) {a : A} {xs : List A} → In a xs → p a ≡ true → any p xs ≡ true
  any_intro p (here e) h = let e' = ap p e in ground arith
  any_intro p (there m) h = ground (arith, any_intro p m h)

  pub any-false :
      (p : A → Bool) (xs : List A) → ((a : A) → In a xs → p a ≡ false) → any p xs ≡ false
  any-false p [] h = refl
  any-false p (x ∷ xs) h = rw (h x (here refl)) (any-false p xs (λ a m. h a (there m)))

  pub find_sound :
      (p : A → Bool) (xs : List A) {a : A} → find p xs ≡ some a → In a xs × (p a ≡ true)
  find_sound p [] h = absurd (cc)
  find_sound p (x ∷ xs) {a} h = elim (Bool-cases (p x)) [
    | inl t ↦ let e : x ≡ a = ground arith in (here (sym e), subst (λ y. p y ≡ true) e t)
    | inr f ↦ let (m, e) = find_sound p xs (ground arith) in (there m, e)
  ]

  pub In-cons_all {κ} :
      (P : A → Type κ) (x : A) (xs : List A)
      → P x
      → ((a : A) → In a xs → P a)
      → (a : A) → In a (x ∷ xs)
      → P a
  In-cons_all P x xs p ps a (here e) = subst P (sym e) p
  In-cons_all P x xs p ps a (there m) = ps a m

  In-keep_cons :
      (p : A → Bool) (a x : A) (xs : List A)
      → p x ≡ true
      → (In a (keep p xs) → In a xs × (p a ≡ true))
      → In a (x ∷ keep p xs)
      → In a (x ∷ xs) × (p a ≡ true)
  In-keep_cons p a x xs t ih (here e) = (here e, subst (λ y. p y ≡ true) (sym e) t)
  In-keep_cons p a x xs t ih (there m) = let (n, e) = ih m in (there n, e)

  pub In-keep : (p : A → Bool) {a : A} (xs : List A) → In a (keep p xs) → In a xs × (p a ≡ true)
  In-keep p [] m = elim m [ ]
  In-keep p {a} (x ∷ xs) m = elim (Bool-cases (p x)) [
    | inl t ↦ In-keep_cons p a x xs t (In-keep p xs) (rw (t, keep) at m)
    | inr f ↦ let (n, e) = In-keep p xs (rw (f, keep) at m) in (there n, e)
  ]

  pub keep-In : (p : A → Bool) {a : A} {xs : List A} → In a xs → p a ≡ true → In a (keep p xs)
  keep-In p {a} (here {x} {xs} e) h =
      let h' : p x ≡ true = subst (λ y. p y ≡ true) e h in rw (h', keep) (here e)
  keep-In p {a} (there {x} {xs} m) h = elim (Bool-cases (p x)) [
    | inl t ↦ rw (t, keep) (there (keep-In p m h))
    | inr f ↦ rw (f, keep) (keep-In p m h)
  ]

  pub length-append : (xs ys : List A) → length (xs ++ ys) ≡ length xs + length ys
  length-append [] ys = omega arith
  length-append (x ∷ xs) ys = omega (arith, length-append xs ys)

  pub append-eq-nil_iff : (xs ys : List A) → (xs ++ ys ≡ []) ↔ ((xs ≡ []) × (ys ≡ []))
  append-eq-nil_iff [] ys = (λ h. (refl, h), λ h. h.1)
  append-eq-nil_iff (x ∷ xs) ys = (λ h. cc, λ h. let e = h.0 in cc)

  pub eq_nil_of_not_In : (xs : List A) → ((a : A) → ¬ In a xs) → xs ≡ []
  eq_nil_of_not_In [] h = refl
  eq_nil_of_not_In (x ∷ xs) h = absurd (h x (here refl))
