-- ===== src/Workflow/Iterate/Different.antt =====
-- Lists of ids without a repetition, as the guard of the iteration controller keeps them.
use teskra.Base.{
  String, ◌==◌, eq_iff, ◌≡◌, refl, ap, subst, inl, inr, Bool, true, false, not, ◌&&◌, List, [], ◌∷◌,
  ◌++◌, includes, includes-append, delete_id, Bool-cases, arith,
}
use teskra.Workflow.Iterate.Calls.{remove_one}

abbrev pub all_different : List String → Bool
all_different [] = true
all_different (x ∷ xs) = not (includes xs x) && all_different xs

pub all_different-append :
    (xs : List String) (x : String)
    → all_different xs ≡ true
    → includes xs x ≡ false
    → all_different (xs ++ x ∷ []) ≡ true
all_different-append [] x d h = refl
all_different-append (y ∷ xs) x d h =
    let ih = all_different-append xs x (ground arith) (ground arith) in
    let e = includes-append xs (x ∷ []) y in ground (arith, eq_iff x y, eq_iff y x)

delete_id-absent : (id : String) (xs : List String) → includes xs id ≡ false → delete_id id xs ≡ xs
delete_id-absent id [] h = refl
delete_id-absent id (x ∷ xs) h =
    let other : (x == id) ≡ false = ground arith in
    rw other (ap (λ ys. x ∷ ys) (delete_id-absent id xs (ground arith)))

pub delete_id-remove_one :
    (id : String) (xs : List String) → all_different xs ≡ true → delete_id id xs ≡ remove_one id xs
delete_id-remove_one id [] d = refl
delete_id-remove_one id (x ∷ xs) d = elim (Bool-cases (x == id)) [
  | inl same ↦
      let absent : includes xs id ≡ false =
        subst (λ y. includes xs y ≡ false) ((eq_iff x id).0 same) (ground arith) in
      rw same (delete_id-absent id xs absent)
  | inr other ↦ rw other (ap (λ ys. x ∷ ys) (delete_id-remove_one id xs (ground arith)))
]

pub includes-remove_one :
    (id asked : String) (xs : List String)
    → includes (remove_one id xs) asked ≡ true
    → includes xs asked ≡ true
includes-remove_one id asked [] h = h
includes-remove_one id asked (x ∷ xs) h = elim (Bool-cases (x == id)) [
  | inl same ↦ ground arith
  | inr other ↦ elim (Bool-cases (x == asked)) [
    | inl found ↦ ground arith
    | inr later ↦ let ih = includes-remove_one id asked xs (ground arith) in ground arith
  ]
]

pub all_different-remove_one :
    (id : String) (xs : List String)
    → all_different xs ≡ true
    → all_different (remove_one id xs) ≡ true
all_different-remove_one id [] d = refl
all_different-remove_one id (x ∷ xs) d = elim (Bool-cases (x == id)) [
  | inl same ↦ ground arith
  | inr other ↦ elim (Bool-cases (includes (remove_one id xs) x)) [
    | inl again ↦ let e = includes-remove_one id x xs again in absurd (ground arith)
    | inr new ↦ let ih = all_different-remove_one id xs (ground arith) in ground arith
  ]
]
