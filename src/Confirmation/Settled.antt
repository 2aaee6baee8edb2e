-- ===== src/Confirmation/Settled.antt =====
-- The requests that wait and those that were answered, counted.
use teskra.Base.{
  String, ◌==◌, eq_iff, ℕ, ◌+◌, Bool, true, false, inl, inr, List, [], ◌∷◌, ◌++◌, none, some, keep,
  lookup, insert, lookup-insert, ltb, nat_eq, ◌≡◌, refl, ap, subst, arith, Bool-cases,
}
use teskra.Confirmation.{Parked, Confirmations, delete_step}

abbrev pub bit : Bool → ℕ
bit true = 1
bit false = 0

-- How often a promise waits, and how often it was settled.
abbrev pub parked : ℕ → List (String × Parked) → ℕ
parked t [] = 0
parked t ((k, p) ∷ rest) = bit (nat_eq p.promise t) + parked t rest

abbrev pub answered : ℕ → List (ℕ × Bool) → ℕ
answered t [] = 0
answered t ((u, b) ∷ rest) = bit (nat_eq u t) + answered t rest

abbrev pub Distinct : List (String × Parked) → Type 0
Distinct [] = ℕ
Distinct ((k, p) ∷ rest) = (lookup k rest ≡ none) × Distinct rest

-- Each promise that was given waits or was settled, and not twice.
pub record IsSettled (c : Confirmations) : Type 0 where
  pub distinct : Distinct c.pending
  pub once : (t : ℕ) → parked t c.pending + answered t c.answers ≡ bit (ltb t c.requests)

pub answered-append :
    (t u : ℕ) (b : Bool) (xs : List (ℕ × Bool))
    → answered t (xs ++ (u, b) ∷ []) ≡ answered t xs + bit (nat_eq u t)
answered-append t u b [] = omega arith
answered-append t u b ((v, x) ∷ xs) = let h = answered-append t u b xs in omega arith

pub delete-absent :
    (k : String) (xs : List (String × Parked)) → lookup k xs ≡ none → delete_step k xs ≡ xs
delete-absent k [] h = refl
delete-absent k ((j, p) ∷ xs) h = elim (Bool-cases (j == k)) [
  | inl same ↦ absurd (let h' = rw (same) at h in cc)
  | inr other ↦ rw (other) (ap (λ ys. (j, p) ∷ ys) (delete-absent k xs (ground arith)))
]

lookup-delete :
    (k j : String) (xs : List (String × Parked))
    → lookup j xs ≡ none
    → lookup j (delete_step k xs) ≡ none
lookup-delete k j [] h = refl
lookup-delete k j ((i, p) ∷ xs) h =
    let ih = lookup-delete k j xs in ground (arith, eq_iff i j, eq_iff i k)

pub lookup-delete_self :
    (k : String) (xs : List (String × Parked)) → lookup k (delete_step k xs) ≡ none
lookup-delete_self k [] = refl
lookup-delete_self k ((i, p) ∷ xs) = let ih = lookup-delete_self k xs in ground arith

pub Distinct-delete :
    (k : String) (xs : List (String × Parked)) → Distinct xs → Distinct (delete_step k xs)
Distinct-delete k [] d = d
Distinct-delete k ((j, p) ∷ xs) (fresh, d) = elim (Bool-cases (j == k)) [
  | inl same ↦ rw (same, delete_step, keep) (Distinct-delete k xs d)
  | inr other ↦ rw (other, delete_step, keep) (lookup-delete k j xs fresh, Distinct-delete k xs d)
]

pub parked-delete :
    (t : ℕ) (k : String) (xs : List (String × Parked)) {p : Parked}
    → Distinct xs
    → lookup k xs ≡ some p
    → parked t xs ≡ parked t (delete_step k xs) + bit (nat_eq p.promise t)
parked-delete t k [] d h = absurd (cc)
parked-delete t k ((j, q) ∷ xs) {p} (fresh, d) h = elim (Bool-cases (j == k)) [
  | inl same ↦
      let e : q ≡ p = ground arith in
      let gone = delete-absent k xs (subst (λ i. lookup i xs ≡ none) ((eq_iff j k).0 same) fresh) in
      let a = ap (λ (y : Parked). bit (nat_eq y.promise t)) e in
      let b = ap (parked t) gone in rw (same) (omega arith)
  | inr other ↦ let ih = parked-delete t k xs {p = p} d (ground arith) in rw (other) (omega arith)
]

pub Distinct-insert :
    (k : String) (p : Parked) (xs : List (String × Parked))
    → Distinct xs
    → lookup k xs ≡ none
    → Distinct (insert k p xs)
Distinct-insert k p [] d h = (refl, d)
Distinct-insert k p ((j, q) ∷ xs) (fresh, d) h = elim (Bool-cases (j == k)) [
  | inl same ↦ absurd (let h' = rw (same) at h in cc)
  | inr other ↦
      let e = lookup-insert k j p xs in
      let first : lookup j (insert k p xs) ≡ none = ground (arith, eq_iff j k, eq_iff k j) in
      rw (other, insert) (first, Distinct-insert k p xs d (ground arith))
]

pub parked-insert :
    (t : ℕ) (k : String) (p : Parked) (xs : List (String × Parked))
    → lookup k xs ≡ none
    → parked t (insert k p xs) ≡ parked t xs + bit (nat_eq p.promise t)
parked-insert t k p [] h = omega arith
parked-insert t k p ((j, q) ∷ xs) h = elim (Bool-cases (j == k)) [
  | inl same ↦ absurd (let h' = rw (same) at h in cc)
  | inr other ↦ let ih = parked-insert t k p xs (ground arith) in rw (other) (omega arith)
]
