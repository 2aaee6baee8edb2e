-- ===== src/Permissions/Extraction/Lines.antt =====
-- The lines of a text, and those of a longer one.
use teskra.Base.{
  ℕ, ◌≡◌, ◌≢◌, refl, sym, ap, ◌∙◌, inl, inr, Bool, true, false, not, ◌&&◌, List, [], ◌∷◌, ◌++◌,
  Text, all, nat_eq, onto_first, newline, Bool-cases, arith,
}
use teskra.Permissions.Extraction.{carriage_return, split_from}

-- Whether the text ends behind a `\r`, which the flag says of its start.
abbrev pub after : Bool → Text → Bool
after b [] = b
after b (c ∷ cs) = after (nat_eq c carriage_return) cs

-- Two lists of lines, whose last and first are one line.
unfoldable pub glue : List Text → List Text → List Text
glue [] ys = ys
glue (x ∷ []) [] = x ∷ []
glue (x ∷ []) (y ∷ ys) = (x ++ y) ∷ ys
glue (x ∷ z ∷ xs) ys = x ∷ glue (z ∷ xs) ys

onto_first-glue :
    (c : ℕ) (xs ys : List Text) → onto_first c (glue xs ys) ≡ glue (onto_first c xs) ys
unfolding glue
onto_first-glue c [] [] = refl
onto_first-glue c [] (y ∷ ys) = refl
onto_first-glue c (x ∷ []) [] = refl
onto_first-glue c (x ∷ []) (y ∷ ys) = refl
onto_first-glue c (x ∷ z ∷ xs) ys = refl

cons-glue : (xs ys : List Text) → xs ≢ [] → [] ∷ glue xs ys ≡ glue ([] ∷ xs) ys
unfolding glue
cons-glue [] ys h = absurd (h refl)
cons-glue (x ∷ xs) ys h = refl

onto_first-ne-nil : (c : ℕ) (ls : List Text) → onto_first c ls ≢ []
onto_first-ne-nil c [] e = cc
onto_first-ne-nil c (l ∷ ls) e = cc

-- What holds of the lines whichever way the first unit goes.
split_from-cases {ℓ} :
    (P : List Text → Type ℓ) (b : Bool) (c : ℕ) (cs : Text)
    → ((flag : Bool) → P ([] ∷ split_from flag cs))
    → P (split_from false cs)
    → (nat_eq c carriage_return ≡ false
        → nat_eq c newline ≡ false
        → P (onto_first c (split_from false cs)))
    → P (split_from b (c ∷ cs))
unfolding split_from
split_from-cases P b c cs starts joins more = elim (Bool-cases (nat_eq c carriage_return)) [
  | inl return ↦ rw (return, split_from) (starts true)
  | inr other ↦ elim (Bool-cases (nat_eq c newline)) [
    | inr inside ↦ rw (other, inside, split_from) (more other inside)
    | inl ends ↦ elim (Bool-cases b) [
      | inl joined ↦ rw (other, ends, joined, split_from) joins
      | inr alone ↦ rw (other, ends, alone, split_from) (starts false)
    ]
  ]
]

pub split_from-ne-nil : (b : Bool) (text : Text) → split_from b text ≢ []
unfolding split_from
split_from-ne-nil b [] = λ e. cc
split_from-ne-nil b (c ∷ cs) =
    split_from-cases (λ ls. ls ≢ []) b c cs (λ flag e. cc) (split_from-ne-nil false cs)
      (λ other inside. onto_first-ne-nil c (split_from false cs))

nil-glue : (ys : List Text) → ys ≢ [] → glue ([] ∷ []) ys ≡ ys
unfolding glue
nil-glue [] h = absurd (h refl)
nil-glue (y ∷ ys) h = refl

pub split_from-append :
    (b : Bool) (s t : Text)
    → split_from b (s ++ t) ≡ glue (split_from b s) (split_from (after b s) t)
unfolding split_from
split_from-append b [] t = sym (nil-glue (split_from b t) (split_from-ne-nil b t))
split_from-append b (c ∷ s) t =
    let breaks = λ (flag : Bool).
      ap (λ ls. [] ∷ ls) (split_from-append flag s t)
      ∙ cons-glue (split_from flag s) (split_from (after flag s) t) (split_from-ne-nil flag s) in
    elim (Bool-cases (nat_eq c carriage_return)) [
      | inl return ↦ rw (return, split_from) (breaks true)
      | inr other ↦ elim (Bool-cases (nat_eq c newline)) [
        | inr inside ↦
            rw (other, inside, split_from)
              (ap (onto_first c) (split_from-append false s t)
                ∙ onto_first-glue c (split_from false s) (split_from (after false s) t))
        | inl ends ↦ elim (Bool-cases b) [
          | inl joined ↦ rw (other, ends, joined, split_from) (split_from-append false s t)
          | inr alone ↦ rw (other, ends, alone, split_from) (breaks false)
        ]
      ]
    ]

pub after-append : (b : Bool) (s t : Text) → after b (s ++ t) ≡ after (after b s) t
after-append b [] t = refl
after-append b (c ∷ s) t = after-append (nat_eq c carriage_return) s t

-- A text with no line break in it.
abbrev pub unbroken : Text → Bool
unbroken text = all (λ c. not (nat_eq c carriage_return) && not (nat_eq c newline)) text

pub split_from-unbroken : (text : Text) → unbroken text ≡ true → split_from false text ≡ text ∷ []
unfolding split_from
split_from-unbroken [] h = refl
split_from-unbroken (c ∷ cs) h =
    let other : nat_eq c carriage_return ≡ false = ground arith in
    let inside : nat_eq c newline ≡ false = ground arith in
    rw (other, inside, split_from, split_from-unbroken cs (ground arith)) refl

pub after-unbroken : (text : Text) → unbroken text ≡ true → after false text ≡ false
after-unbroken [] h = refl
after-unbroken (c ∷ cs) h =
    let other : nat_eq c carriage_return ≡ false = ground arith in
    rw other (after-unbroken cs (ground arith))

all-onto_first :
    (c : ℕ) (ls : List Text)
    → nat_eq c carriage_return ≡ false
    → nat_eq c newline ≡ false
    → all unbroken ls ≡ true
    → all unbroken (onto_first c ls) ≡ true
all-onto_first c [] r n h = ground arith
all-onto_first c (l ∷ ls) r n h = ground arith

pub all-split_from : (b : Bool) (text : Text) → all unbroken (split_from b text) ≡ true
unfolding split_from
all-split_from b [] = refl
all-split_from b (c ∷ cs) =
    split_from-cases (λ ls. all unbroken ls ≡ true) b c cs (λ flag. all-split_from flag cs)
      (all-split_from false cs)
      (λ other inside.
        all-onto_first c (split_from false cs) other inside (all-split_from false cs))
