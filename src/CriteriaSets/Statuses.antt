-- ===== src/CriteriaSets/Statuses.antt =====
-- The task and the status of a set by its id, and what the statements do to them.
use teskra.Base.{
  String, ◌==◌, eq_iff, Bool, true, false, not, ◌&&◌, ◌⊎◌, inl, inr, List, [], ◌∷◌, ◌++◌, map,
  Option, none, some, keep, any, if◌then◌else◌, leb, In, here, there, In-keep, ◌≡◌, refl, sym, ap,
  ◌∙◌, subst, arith, Bool-cases,
}
use teskra.CriteriaSets.{
  SetStatus, confirmed, superseded, CriteriaSet, Tables, of_task, insert_by_version, by_version,
  list_sets_by_task, breaks_set_key, confirm_row, supersede_row,
}
use teskra.CriteriaSets.Manager.{is_confirmed, supersede_if, supersede_others, siblings}

abbrev pub Entry : Type 0
Entry = Option String × SetStatus

abbrev pub entry : CriteriaSet → Entry
entry s = (s.task_id, s.status)

abbrev pub entry_in : List CriteriaSet → String → Option Entry
entry_in [] x = none
entry_in (s ∷ ss) x = if s.id == x then some (entry s) else entry_in ss x

abbrev pub replaced : SetStatus → Option Entry → Option Entry
replaced new none = none
replaced new (some e) = some (e.0, new)

pub entry_in-supersede_row :
    (id x : String) (ss : List CriteriaSet)
    → entry_in (map (supersede_row id) ss) x
      ≡ (if id == x then replaced superseded (entry_in ss x) else entry_in ss x)
entry_in-supersede_row id x [] = ground arith
entry_in-supersede_row id x (s ∷ ss) =
    ground (arith, entry_in-supersede_row id x ss, eq_iff s.id x, eq_iff s.id id, eq_iff id x)

pub entry_in-confirm_row :
    (now id x : String) (ss : List CriteriaSet)
    → entry_in (map (confirm_row now id) ss) x
      ≡ (if id == x then replaced confirmed (entry_in ss x) else entry_in ss x)
entry_in-confirm_row now id x [] = ground arith
entry_in-confirm_row now id x (s ∷ ss) =
    ground (arith, entry_in-confirm_row now id x ss, eq_iff s.id x, eq_iff s.id id, eq_iff id x)

pub entry_in-append :
    (x : String) (ss : List CriteriaSet) (s : CriteriaSet)
    → (s.id == x) ≡ false
    → entry_in (ss ++ s ∷ []) x ≡ entry_in ss x
entry_in-append x [] s h = ground arith
entry_in-append x (r ∷ ss) s h = let ih = entry_in-append x ss s h in ground arith

pub entry_in-new :
    (ss : List CriteriaSet) (s : CriteriaSet)
    → any (breaks_set_key s) ss ≡ false
    → (entry_in ss s.id ≡ none) × (entry_in (ss ++ s ∷ []) s.id ≡ some (entry s))
entry_in-new [] s h = let e = (eq_iff s.id s.id).1 refl in (refl, ground arith)
entry_in-new (r ∷ ss) s h =
    let (gone, last) = entry_in-new ss s (ground arith) in
    let other : (r.id == s.id) ≡ false = ground arith in (ground arith, ground arith)

-- A listed row is the one that counts, where ids are unique.
pub entry_in-In :
    (x : String) (ss : List CriteriaSet) {s : CriteriaSet}
    → In s ss
    → s.id ≡ x
    → (r : CriteriaSet) × In r ss × (r.id ≡ x) × (entry_in ss x ≡ some (entry r))
entry_in-In x [] m e = elim m [ ]
entry_in-In x (q ∷ ss) (here same) e =
    let named : q.id ≡ x = ap (λ (y : CriteriaSet). y.id) (sym same) ∙ e in
    let same' = (eq_iff q.id x).1 named in (q, here refl, named, ground arith)
entry_in-In x (q ∷ ss) (there m) e = elim (Bool-cases (q.id == x)) [
  | inl same ↦ (q, here refl, (eq_iff q.id x).0 same, ground arith)
  | inr no' ↦ let (r, k, named, found) = entry_in-In x ss m e in (r, there k, named, ground arith)
]

found_here : {a b : Entry} → some a ≡ some b → a ≡ b
found_here h = cc

pub entry_in-found :
    (x : String) (ss : List CriteriaSet) {e : Entry}
    → entry_in ss x ≡ some e
    → (r : CriteriaSet) × In r ss × (r.id ≡ x) × (entry r ≡ e)
entry_in-found x [] h = absurd (cc)
entry_in-found x (q ∷ ss) {e} h = elim (Bool-cases (q.id == x)) [
  | inl same ↦ (q, here refl, (eq_iff q.id x).0 same, found_here (rw (same) at h))
  | inr other ↦
      let (r, k, named, found) = entry_in-found x ss {e = e} (rw (other) at h) in
      (r, there k, named, found)
]

past : (s r q : CriteriaSet) (qs : List CriteriaSet) → In s (r ∷ qs) → In s (r ∷ q ∷ qs)
past s r q qs (here e) = here e
past s r q qs (there m) = there (there m)

behind :
    (s r q : CriteriaSet) (qs : List CriteriaSet)
    → In s (q ∷ insert_by_version r qs)
    → (In s (insert_by_version r qs) → In s (r ∷ qs))
    → In s (r ∷ q ∷ qs)
behind s r q qs (here e) ih = there (here e)
behind s r q qs (there m) ih = past s r q qs (ih m)

insert_by_version-In :
    (s r : CriteriaSet) (rs : List CriteriaSet) → In s (insert_by_version r rs) → In s (r ∷ rs)
unfolding insert_by_version
insert_by_version-In s r [] m = m
insert_by_version-In s r (q ∷ qs) m = elim (Bool-cases (leb q.version r.version)) [
  | inl lower ↦ rw (insert_by_version, lower) at m
  | inr higher ↦ behind s r q qs (rw (insert_by_version, higher) at m) (insert_by_version-In s r qs)
]

below :
    (s r : CriteriaSet) (rs : List CriteriaSet)
    → In s (r ∷ by_version rs)
    → (In s (by_version rs) → In s rs)
    → In s (r ∷ rs)
below s r rs (here e) ih = here e
below s r rs (there m) ih = there (ih m)

by_version-In : (s : CriteriaSet) (rs : List CriteriaSet) → In s (by_version rs) → In s rs
unfolding by_version
by_version-In s [] m = m
by_version-In s (r ∷ rs) m =
    below s r rs (insert_by_version-In s r (by_version rs) m) (by_version-In s rs)

of_its_task :
    (task : String) (o : Option String)
    → (elim o [ none ↦ false | some t ↦ t == task ]) ≡ true
    → o ≡ some task
of_its_task task none h = absurd (cc)
of_its_task task (some t) h = ap (λ y. some y) ((eq_iff t task).0 h)

abbrev pub has_task : Option String → Bool
has_task none = false
has_task (some task) = true

-- The rows that are read for a task are rows of it.
pub In-siblings :
    (t : Tables) (task : Option String) (s : CriteriaSet)
    → In s (siblings t task)
    → In s t.sets × (s.task_id ≡ task) × (has_task task ≡ true)
unfolding list_sets_by_task
In-siblings t none s m = elim m [ ]
In-siblings t (some task) s m =
    let (k, of) = In-keep (of_task task) t.sets (by_version-In s (keep (of_task task) t.sets) m) in
    (k, of_its_task task s.task_id of, refl)

-- The loop over the others: a set keeps its status, or it is one of those that were confirmed.
abbrev pub IsHit : String → String → List CriteriaSet → Type 0
IsHit own x ss =
    (s : CriteriaSet) × In s ss × (s.id ≡ x) × ((x == own) ≡ false) × (is_confirmed s.status ≡ true)

replaced-replaced :
    (new : SetStatus) (o : Option Entry) → replaced new (replaced new o) ≡ replaced new o
replaced-replaced new none = refl
replaced-replaced new (some old) = refl

entry_in-supersede_if :
    (own x : String) (s : CriteriaSet) (t : Tables)
    → (entry_in (supersede_if (not (s.id == own) && is_confirmed s.status) s t).sets x
        ≡ entry_in t.sets x)
      ⊎ ((s.id ≡ x)
          × ((x == own) ≡ false)
          × (is_confirmed s.status ≡ true)
          × (entry_in (supersede_if (not (s.id == own) && is_confirmed s.status) s t).sets x
              ≡ replaced superseded (entry_in t.sets x)))
entry_in-supersede_if own x s t = elim (Bool-cases (not (s.id == own) && is_confirmed s.status)) [
  | inr passed ↦ inl (rw (passed) refl)
  | inl wanted ↦ elim (Bool-cases (s.id == x)) [
    | inr other ↦ inl (rw (wanted) (entry_in-supersede_row s.id x t.sets ∙ rw (other) refl))
    | inl same ↦
        let named : s.id ≡ x = (eq_iff s.id x).0 same in
        let not_own : (s.id == own) ≡ false = ground arith in
        let was : is_confirmed s.status ≡ true = ground arith in
        inr (
          named,
          subst (λ y. (y == own) ≡ false) named not_own,
          was,
          rw (wanted) (entry_in-supersede_row s.id x t.sets ∙ rw (same) refl),
        )
  ]
]

pub entry_in-supersede_others :
    (own x : String) (ss : List CriteriaSet) (t : Tables)
    → (entry_in (supersede_others own ss t).sets x ≡ entry_in t.sets x)
      ⊎ (IsHit own x ss
          × (entry_in (supersede_others own ss t).sets x ≡ replaced superseded (entry_in t.sets x)))
unfolding supersede_others
entry_in-supersede_others own x [] t = inl refl
entry_in-supersede_others own x (s ∷ ss) t =
    let t' : Tables = supersede_if (not (s.id == own) && is_confirmed s.status) s t in
    elim (entry_in-supersede_if own x s t) [
      | inl kept ↦ elim (entry_in-supersede_others own x ss t') [
        | inl same ↦ inl (same ∙ kept)
        | inr ((r, m, e, o, c), changed) ↦
            inr ((r, there m, e, o, c), changed ∙ ap (replaced superseded) kept)
      ]
      | inr (named, not_own, was, changed) ↦
          let hit : IsHit own x (s ∷ ss) = (s, here refl, named, not_own, was) in
          elim (entry_in-supersede_others own x ss t') [
            | inl same ↦ inr (hit, same ∙ changed)
            | inr (h, again) ↦ inr (
              hit,
              again
                  ∙ ap (replaced superseded) changed
                  ∙ replaced-replaced superseded (entry_in t.sets x),
            )
          ]
    ]
