-- ===== src/Decisions/Answers.antt =====
-- What `open`, `resolve` and the timeout of a decision answer.
use teskra.Base.{
  String, ◌==◌, eq_iff, ◌≡◌, refl, sym, ap, ◌∙◌, subst, ℕ, Bool, true, false, not, ◌||◌, inl, inr,
  List, [], ◌∷◌, ◌++◌, Option, none, some, find, any, is_empty, Option-cases, Bool-cases, arith,
}
use teskra.Decisions.{
  PendingDecision, DecisionOption, DecidedBy, resolved, has_id, is_open, open_with_key, get_by_id,
  get_open_by_dedupe_key, close_open, close_row, close_rows, conflicts, same_kind, detail_kind,
  insert_decision,
}
use teskra.Decisions.Service.{
  Service, OpenInput, DecisionError, already_closed, conflict_without_row, option_is, first_option,
  timeout_default, timeout_default_option, new_decision, open_decision, resolve, closed_one,
  resolution_of, emit, decision_opened, service_disposed, detail_mismatch, no_options,
}

first_option-any :
    (preferred : String) (os : List DecisionOption)
    → is_empty os ≡ false
    → any (option_is (first_option preferred os)) os ≡ true
first_option-any preferred [] h = absurd (cc)
first_option-any preferred (o ∷ os) h = ground (arith, eq_iff o.id o.id)

-- A decision with options expires to one of them: the resolution of a timeout names a real option.
timeout_default_option-any :
    (d : PendingDecision)
    → is_empty d.options ≡ false
    → any (option_is (timeout_default_option d)) d.options ≡ true
unfolding timeout_default_option
timeout_default_option-any d h =
    elim (Bool-cases (any (option_is (timeout_default d.kind)) d.options)) [
      | inl t ↦ rw (timeout_default_option, t) t
      | inr u ↦
          rw (timeout_default_option, u) (first_option-any (timeout_default d.kind) d.options h)
    ]

get_by_id-close_rows_self :
    (id now : String) (r : Option teskra.Decisions.Resolution) (rows : List PendingDecision)
    (d : PendingDecision)
    → get_by_id rows id ≡ some d
    → is_open d ≡ true
    → get_by_id (close_rows id resolved r now rows) id ≡ some (close_row resolved r now d)
unfolding get_by_id close_rows
get_by_id-close_rows_self id now r [] d h o = absurd (cc)
get_by_id-close_rows_self id now r (x ∷ rows) d h o = elim (Bool-cases (x.id == id)) [
  | inl t ↦
      let e : x ≡ d = ground arith in
      let o' : is_open x ≡ true = rw e o in
      let first : get_by_id (close_rows id resolved r now (x ∷ rows)) id
          ≡ some (close_row resolved r now x) =
        ground arith in
      first ∙ ap (λ y. some (close_row resolved r now y)) e
  | inr u ↦ let ih = get_by_id-close_rows_self id now r rows d (ground arith) o in ground arith
]

module _ (s : Service) (now id option_id : String) (by : DecidedBy) (remark : Option String) where
  abbrev pub accepted_as : PendingDecision → PendingDecision
  accepted_as d = close_row resolved (some (resolution_of option_id by now remark)) now d

  resolve-accepts :
      (d : PendingDecision)
      → get_by_id s.rows id ≡ some d
      → is_open d ≡ true
      → any (option_is option_id) d.options ≡ true
      → resolve s now id option_id by remark
        ≡ closed_one s id (
          close_rows id resolved (some (resolution_of option_id by now remark)) now s.rows,
          some (accepted_as d),
        )
  unfolding resolve close_open
  resolve-accepts d found o real =
      let r = some (resolution_of option_id by now remark) in
      let e = get_by_id-close_rows_self id now r s.rows d found o in ground arith

  -- Where `resolve` succeeds, the row was open and has the chosen option; the answer is that row,
  -- resolved with the option, and it is what the inbox then holds under the id.
  resolve-ok :
      (d' : PendingDecision)
      → (resolve s now id option_id by remark).1 ≡ inr d'
      → (d : PendingDecision) × (get_by_id s.rows id ≡ some d)
        × (is_open d ≡ true)
        × (any (option_is option_id) d.options ≡ true)
        × (d' ≡ accepted_as d)
        × (get_by_id (resolve s now id option_id by remark).0.rows id ≡ some (accepted_as d))
  unfolding resolve
  resolve-ok d' h = elim (Option-cases (get_by_id s.rows id)) [
    | inl missing ↦ absurd (ground arith)
    | inr (d, found) ↦ elim (Bool-cases (is_open d)) [
      | inr shut ↦ absurd (ground arith)
      | inl o ↦ elim (Bool-cases (any (option_is option_id) d.options)) [
        | inr unreal ↦ absurd (ground arith)
        | inl real ↦
            let e = resolve-accepts d found o real in
            let r = some (resolution_of option_id by now remark) in
            let self = get_by_id-close_rows_self id now r s.rows d found o in
            (d, found, o, real, ground arith, ground arith)
      ]
    ]
  ]

resolve-shut :
    (s : Service) (now id option_id : String) (by : DecidedBy) (remark : Option String)
    (d : PendingDecision)
    → get_by_id s.rows id ≡ some d
    → is_open d ≡ false
    → (resolve s now id option_id by remark).1 ≡ inl (already_closed id)
unfolding resolve
resolve-shut s now id option_id by remark d found shut = ground arith

-- The second of two resolutions of a row is refused, whatever it chooses and whoever makes it.
resolve-twice :
    (s : Service) (now now' id option_id option_id' : String) (by by' : DecidedBy)
    (remark remark' : Option String) (d : PendingDecision)
    → (resolve s now id option_id by remark).1 ≡ inr d
    → (resolve (resolve s now id option_id by remark).0 now' id option_id' by' remark').1
      ≡ inl (already_closed id)
resolve-twice s now now' id option_id option_id' by by' remark remark' d h =
    let (before, _, _, _, _, held) = resolve-ok s now id option_id by remark d h in
    resolve-shut (resolve s now id option_id by remark).0 now' id option_id' by' remark' _ held refl

find-append_last :
    (p : PendingDecision → Bool) (rows : List PendingDecision) (d : PendingDecision)
    → find p rows ≡ none
    → p d ≡ true
    → find p (rows ++ d ∷ []) ≡ some d
find-append_last p [] d h t = rw t refl
find-append_last p (r ∷ rows) d h t = let ih = find-append_last p rows d in ground arith

module _ (later : String → ℕ → String) (s : Service) (now id : String) (i : OpenInput)
    (live : s.disposed ≡ false)
    (fine : (not (same_kind (detail_kind i.detail) i.kind) || is_empty i.options) ≡ false) where
  open_decision-found :
      (d : PendingDecision)
      → get_open_by_dedupe_key s.rows i.dedupe_key ≡ some d
      → open_decision later s now id i ≡ (s, inr d)
  unfolding open_decision
  open_decision-found d found = ground arith

  open_decision-free :
      get_open_by_dedupe_key s.rows i.dedupe_key ≡ none
      → any (conflicts (new_decision later now id i)) s.rows ≡ false
      → open_decision later s now id i ≡ (
        emit
            (decision_opened (new_decision later now id i))
            (record s { rows = s.rows ++ new_decision later now id i ∷ [] }),
        inr (new_decision later now id i),
      )
  unfolding open_decision
  open_decision-free free unique = ground arith

  open_decision-lost :
      get_open_by_dedupe_key s.rows i.dedupe_key ≡ none
      → any (conflicts (new_decision later now id i)) s.rows ≡ true
      → open_decision later s now id i ≡ (s, inl (conflict_without_row i.dedupe_key))
  unfolding open_decision
  open_decision-lost free taken = ground arith

abbrev refuses : Service → OpenInput → Bool
refuses s i = s.disposed || not (same_kind (detail_kind i.detail) i.kind) || is_empty i.options

open_decision-refused :
    (later : String → ℕ → String) (s : Service) (now id : String) (i : OpenInput)
    → refuses s i ≡ true
    → (e : DecisionError) × (open_decision later s now id i ≡ (s, inl e))
unfolding open_decision
open_decision-refused later s now id i h = elim (Bool-cases s.disposed) [
  | inl t ↦ (service_disposed, ground arith)
  | inr u ↦ elim (Bool-cases (same_kind (detail_kind i.detail) i.kind)) [
    | inr t ↦ (detail_mismatch, ground arith)
    | inl v ↦ (no_options, ground arith)
  ]
]

-- `open` answers again with the same row, whatever the clock and the id: no row is added, and nobody
-- is notified, while the row is open.
open_decision-again :
    (later : String → ℕ → String) (s : Service) (now now' id id' : String) (i : OpenInput)
    (d : PendingDecision)
    → (open_decision later s now id i).1 ≡ inr d
    → open_decision later (open_decision later s now id i).0 now' id' i
      ≡ ((open_decision later s now id i).0, inr d)
open_decision-again later s now now' id id' i d h = elim (Bool-cases s.disposed) [
  | inl t ↦
      let (x, e) = open_decision-refused later s now id i (ground arith) in absurd (ground arith)
  | inr u ↦
      elim (Bool-cases (not (same_kind (detail_kind i.detail) i.kind) || is_empty i.options)) [
        | inl t ↦
            let (x, e) = open_decision-refused later s now id i (ground arith) in
            absurd (ground arith)
        | inr fine ↦ elim (Option-cases (get_open_by_dedupe_key s.rows i.dedupe_key)) [
          | inr (d', found) ↦
              let e = open_decision-found later s now id i u fine d' found in
              let same : d' ≡ d = ground arith in
              subst (λ x. open_decision later x.0 now' id' i ≡ (x.0, inr d)) (sym e)
                (open_decision-found later s now' id' i u fine d (found ∙ ap some same))
          | inl free ↦ elim (Bool-cases (any (conflicts (new_decision later now id i)) s.rows)) [
            | inl taken ↦
                let e = open_decision-lost later s now id i u fine free taken in
                absurd (ground arith)
            | inr unique ↦
                let row = new_decision later now id i in
                let e = open_decision-free later s now id i u fine free unique in
                let same : row ≡ d = ground arith in
                let own : open_with_key i.dedupe_key row ≡ true =
                  ground (arith, eq_iff i.dedupe_key i.dedupe_key) in
                let held = find-append_last (open_with_key i.dedupe_key) s.rows row free own in
                subst (λ x. open_decision later x.0 now' id' i ≡ (x.0, inr d)) (sym e)
                  (open_decision-found later
                    (emit (decision_opened row) (record s { rows = s.rows ++ row ∷ [] })) now' id' i
                    u fine d (held ∙ ap some same))
          ]
        ]
      ]
]
