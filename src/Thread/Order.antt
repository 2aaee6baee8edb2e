-- ===== src/Thread/Order.antt =====
-- The order of the items: strict, total up to the id, and kept by the sort.
use teskra.Base.{
  Bool, true, false, not, ◌&&◌, inl, inr, List, [], ◌∷◌, all, Text, text_eq, text_eq_iff, ◌≡◌, refl,
  arith, Bool-cases,
}
use teskra.Thread.{ThreadItem}
use teskra.Thread.Pages.{text_lt, item_before, insert_item, sort_items}

text_eq_refl : (s : Text) → text_eq s s ≡ true
text_eq_refl s = (text_eq_iff s s).1 refl

text_lt_irrefl : (s : Text) → text_lt s s ≡ false
text_lt_irrefl [] = refl
text_lt_irrefl (c ∷ cs) = ground (arith, text_lt_irrefl cs)

text_lt_trans : (s t u : Text) → text_lt s t ≡ true → text_lt t u ≡ true → text_lt s u ≡ true
text_lt_trans s [] u h k = absurd (cc)
text_lt_trans s (d ∷ ds) [] h k = absurd (cc)
text_lt_trans [] (d ∷ ds) (e ∷ es) h k = refl
text_lt_trans (c ∷ cs) (d ∷ ds) (e ∷ es) h k = ground (arith, text_lt_trans cs ds es)

text_lt_total : (s t : Text) → text_lt s t ≡ false → text_lt t s ≡ false → text_eq s t ≡ true
text_lt_total [] [] h k = refl
text_lt_total [] (d ∷ ds) h k = absurd (cc)
text_lt_total (c ∷ cs) [] h k = absurd (cc)
text_lt_total (c ∷ cs) (d ∷ ds) h k = ground (arith, text_lt_total cs ds)

abbrev pub before : ThreadItem → ThreadItem → Bool
before i j = item_before i.created_at i.id j

pub before_irrefl : (i : ThreadItem) → before i i ≡ false
before_irrefl i =
    rw
      (
        before,
        item_before,
        text_lt_irrefl i.created_at,
        text_eq_refl i.created_at,
        text_lt_irrefl i.id,
      )
      refl

pub before_trans : (i j k : ThreadItem) → before i j ≡ true → before j k ≡ true → before i k ≡ true
before_trans i j k h g = ground (
  arith,
  text_lt_trans i.created_at j.created_at k.created_at,
  text_lt_trans i.id j.id k.id,
  text_eq_iff i.created_at j.created_at,
  text_eq_iff j.created_at k.created_at,
  text_eq_iff i.created_at k.created_at,
)

pub before_asym : (i j : ThreadItem) → before i j ≡ true → before j i ≡ false
before_asym i j h = elim (Bool-cases (before j i)) [
  | inr f ↦ f
  | inl t ↦ let a = before_trans i j i h t in let b = before_irrefl i in absurd (cc)
]

-- Items that do not come before one another have one time and one id.
before_total :
    (i j : ThreadItem)
    → before i j ≡ false
    → before j i ≡ false
    → (text_eq i.created_at j.created_at ≡ true) × (text_eq i.id j.id ≡ true)
before_total i j h k =
    let same : text_eq i.created_at j.created_at ≡ true =
      ground (arith, text_lt_total i.created_at j.created_at) in
    let back : text_eq j.created_at i.created_at ≡ true =
      ground
        (arith, text_eq_iff i.created_at j.created_at, text_eq_iff j.created_at i.created_at) in
    (same, ground (arith, text_lt_total i.id j.id))

not_before_trans :
    (i j k : ThreadItem) → before j i ≡ false → before k j ≡ false → before k i ≡ false
not_before_trans i j k h g = elim (Bool-cases (before k i)) [
  | inr f ↦ f
  | inl t ↦ elim (Bool-cases (before i j)) [
    | inl less ↦ let x = before_trans k i j t less in absurd (cc)
    | inr more ↦
        let (a, b) = before_total i j more h in
        let x : before k j ≡ true =
          ground (arith, text_eq_iff i.created_at j.created_at, text_eq_iff i.id j.id) in
        absurd (cc)
  ]
]

abbrev pub none_before : ThreadItem → ThreadItem → Bool
none_before i j = not (before j i)

-- No item comes before an earlier one of the list.
abbrev pub IsSorted : List ThreadItem → Type 0
IsSorted [] = Unit {0}
IsSorted (i ∷ is) = (all (none_before i) is ≡ true) × IsSorted is

all-insert_item :
    (p : ThreadItem → Bool) (i : ThreadItem) (js : List ThreadItem)
    → all p (insert_item i js) ≡ (p i && all p js)
unfolding insert_item
all-insert_item p i [] = refl
all-insert_item p i (j ∷ js) = ground (arith, all-insert_item p i js)

none_before_later :
    (i j : ThreadItem) (js : List ThreadItem)
    → before j i ≡ false
    → all (none_before j) js ≡ true
    → all (none_before i) js ≡ true
none_before_later i j [] h a = refl
none_before_later i j (k ∷ ks) h a =
    ground (arith, not_before_trans i j k, none_before_later i j ks)

insert_item-IsSorted :
    (i : ThreadItem) (js : List ThreadItem) → IsSorted js → IsSorted (insert_item i js)
unfolding insert_item
insert_item-IsSorted i [] s = (refl, tt)
insert_item-IsSorted i (j ∷ js) (a, s) = elim (Bool-cases (before j i)) [
  | inl first ↦
      let after = before_asym j i first in
      rw (insert_item, first)
        (rw (all-insert_item (none_before j) i js, after) a, insert_item-IsSorted i js s)
  | inr last ↦ rw (insert_item, last) (rw last (none_before_later i j js last a), (a, s))
]

pub sort_items-IsSorted : (is : List ThreadItem) → IsSorted (sort_items is)
unfolding sort_items
sort_items-IsSorted [] = tt
sort_items-IsSorted (i ∷ is) = insert_item-IsSorted i (sort_items is) (sort_items-IsSorted is)

abbrev pub differs : ThreadItem → ThreadItem → Bool
differs i j = not (text_eq i.id j.id)

-- No two items have one id.
abbrev pub AllDiffer : List ThreadItem → Type 0
AllDiffer [] = Unit {0}
AllDiffer (i ∷ is) = (all (differs i) is ≡ true) × AllDiffer is

-- Each item comes before all later ones.
abbrev pub Ascends : List ThreadItem → Type 0
Ascends [] = Unit {0}
Ascends (i ∷ is) = (all (before i) is ≡ true) × Ascends is

before_all :
    (i : ThreadItem) (js : List ThreadItem)
    → all (none_before i) js ≡ true
    → all (differs i) js ≡ true
    → all (before i) js ≡ true
before_all i [] a d = refl
before_all i (j ∷ js) a d = elim (Bool-cases (before i j)) [
  | inl t ↦ rw t (before_all i js (ground arith) (ground arith))
  | inr f ↦ let (same, id) = before_total i j f (ground arith) in absurd (ground arith)
]

pub Ascends-of_IsSorted : (is : List ThreadItem) → IsSorted is → AllDiffer is → Ascends is
Ascends-of_IsSorted [] s d = tt
Ascends-of_IsSorted (i ∷ is) (a, s) (b, d) = (before_all i is a b, Ascends-of_IsSorted is s d)
