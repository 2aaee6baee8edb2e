-- ===== src/Decisions/Rows.antt =====
-- The writing statements of the inbox, and what they do to a row and to the open rows of a key.
use teskra.Base.{
  String, ◌==◌, eq_iff, ◌≡◌, refl, ℕ, ◌+◌, ◌≤◌, Bool, true, false, List, [], ◌∷◌, ◌++◌, Option,
  some, any, Bool-cases, inl, inr, if◌then◌else◌, arith,
}
use teskra.Decisions.{
  PendingDecision, DecisionStatus, opened, Resolution, is_open, open_with_key, conflicts,
  close_rows, get_by_id,
}

-- How many rows are open with a key.
unfoldable pub count_open : String → List PendingDecision → ℕ
count_open key [] = 0
count_open key (d ∷ ds) = (if open_with_key key d then 1 else 0) + count_open key ds

abbrev pub is_closing : DecisionStatus → Bool
is_closing opened = false
is_closing _ = true

-- What one statement makes of the table.
pub data Written : List PendingDecision → List PendingDecision → Type 0 where
  kept : {rows : List PendingDecision} → Written rows rows
  inserted :
      {rows : List PendingDecision} (d : PendingDecision)
      → any (conflicts d) rows ≡ false
      → Written rows (rows ++ d ∷ [])
  closed :
      {rows : List PendingDecision} (id : String) (status : DecisionStatus)
      (resolution : Option Resolution) (now : String)
      → is_closing status ≡ true
      → Written rows (close_rows id status resolution now rows)
  then_written :
      {rows rows' rows'' : List PendingDecision}
      → Written rows rows'
      → Written rows' rows''
      → Written rows rows''

count_open-append :
    (key : String) (rows : List PendingDecision) (d : PendingDecision)
    → count_open key (rows ++ d ∷ []) ≡ count_open key rows + (if open_with_key key d then 1 else 0)
unfolding count_open
count_open-append key [] d = omega arith
count_open-append key (r ∷ rows) d = omega (arith, count_open-append key rows d)

count_open-free :
    (key : String) (rows : List PendingDecision) (d : PendingDecision)
    → any (conflicts d) rows ≡ false
    → d.dedupe_key ≡ key
    → count_open key rows ≡ 0
unfolding count_open
count_open-free key [] d free same = refl
count_open-free key (r ∷ rows) d free same =
    let ih = count_open-free key rows d (ground arith) same in
    let here : open_with_key d.dedupe_key r ≡ false = ground arith in
    rw⁻¹ same (rw here (ground arith))

count_open-close_rows :
    (key id : String) (status : DecisionStatus) (resolution : Option Resolution) (now : String)
    (rows : List PendingDecision)
    → is_closing status ≡ true
    → count_open key (close_rows id status resolution now rows) ≤ count_open key rows
unfolding count_open close_rows
count_open-close_rows key id status resolution now [] h = omega arith
count_open-close_rows key id status resolution now (r ∷ rows) h =
    let ih = count_open-close_rows key id status resolution now rows h in ground arith

pub Written-one_open :
    (key : String) {rows rows' : List PendingDecision}
    → Written rows rows'
    → count_open key rows ≤ 1
    → count_open key rows' ≤ 1
Written-one_open key kept h = h
Written-one_open key (inserted {rows} d free) h = elim (Bool-cases (d.dedupe_key == key)) [
  | inl t ↦
      let none_open = count_open-free key rows d free ((eq_iff d.dedupe_key key).0 t) in
      let e = count_open-append key rows d in ground arith
  | inr u ↦ let e = count_open-append key rows d in ground arith
]
Written-one_open key (closed {rows} id status resolution now c) h =
    omega (arith, h, count_open-close_rows key id status resolution now rows c)
Written-one_open key (then_written w w') h = Written-one_open key w' (Written-one_open key w h)

get_by_id-append :
    (id : String) (rows more : List PendingDecision) (d : PendingDecision)
    → get_by_id rows id ≡ some d
    → get_by_id (rows ++ more) id ≡ some d
unfolding get_by_id
get_by_id-append id [] more d h = absurd (cc)
get_by_id-append id (r ∷ rows) more d h = let ih = get_by_id-append id rows more d in ground arith

get_by_id-close_rows :
    (id j : String) (status : DecisionStatus) (resolution : Option Resolution) (now : String)
    (rows : List PendingDecision) (d : PendingDecision)
    → get_by_id rows j ≡ some d
    → is_open d ≡ false
    → get_by_id (close_rows id status resolution now rows) j ≡ some d
unfolding get_by_id close_rows
get_by_id-close_rows id j status resolution now [] d h c = absurd (cc)
get_by_id-close_rows id j status resolution now (r ∷ rows) d h c = elim (Bool-cases (r.id == j)) [
  | inl t ↦ let e : r ≡ d = ground arith in let shut : is_open r ≡ false = rw e c in ground arith
  | inr u ↦
      let ih = get_by_id-close_rows id j status resolution now rows d (ground arith) c in
      ground arith
]

pub Written-closed_kept :
    (id : String) (d : PendingDecision) {rows rows' : List PendingDecision}
    → Written rows rows'
    → get_by_id rows id ≡ some d
    → is_open d ≡ false
    → get_by_id rows' id ≡ some d
Written-closed_kept id d kept h c = h
Written-closed_kept id d (inserted {rows} d' free) h c = get_by_id-append id rows (d' ∷ []) d h
Written-closed_kept id d (closed {rows} id' status resolution now closing) h c =
    get_by_id-close_rows id' id status resolution now rows d h c
Written-closed_kept id d (then_written w w') h c =
    Written-closed_kept id d w' (Written-closed_kept id d w h c) c
