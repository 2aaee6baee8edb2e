-- ===== src/CriteriaSets/Rows.antt =====
-- What the statements on acceptance_criteria_sets do to the rows.
use teskra.Base.{
  String, ◌==◌, eq_iff, Bool, true, false, not, ◌&&◌, ◌⊎◌, inl, inr, List, [], ◌∷◌, map, some, keep,
  leb, In, here, there, keep-In, ◌≡◌, refl, sym, ap, ◌∙◌, subst, arith, Bool-cases,
}
use teskra.CriteriaSets.{
  CriteriaSet, Tables, is_id, of_task, insert_by_version, by_version, list_sets_by_task,
  supersede_row, supersede_set_row,
}
use teskra.CriteriaSets.Manager.{is_confirmed, supersede_if, supersede_others, siblings}

pub In-map {ℓ κ} :
    {A : Type ℓ} {B : Type κ} (f : A → B) {b : B} (xs : List A)
    → In b (map f xs)
    → (a : A) × In a xs × (b ≡ f a)
In-map f [] m = elim m [ ]
In-map f (x ∷ xs) (here e) = (x, here refl, e)
In-map f (x ∷ xs) (there m) = let (a, n, e) = In-map f xs m in (a, there n, e)

pub In-map_intro {ℓ κ} :
    {A : Type ℓ} {B : Type κ} (f : A → B) {a : A} {xs : List A} → In a xs → In (f a) (map f xs)
In-map_intro f (here e) = here (ap f e)
In-map_intro f (there m) = there (In-map_intro f m)

behind :
    (s r q : CriteriaSet) (qs : List CriteriaSet)
    → In s (r ∷ q ∷ qs)
    → (In s (r ∷ qs) → In s (insert_by_version r qs))
    → In s (q ∷ insert_by_version r qs)
behind s r q qs (here e) ih = there (ih (here e))
behind s r q qs (there (here e)) ih = here e
behind s r q qs (there (there n)) ih = there (ih (there n))

In-insert_by_version :
    (s r : CriteriaSet) (rs : List CriteriaSet) → In s (r ∷ rs) → In s (insert_by_version r rs)
unfolding insert_by_version
In-insert_by_version s r [] m = m
In-insert_by_version s r (q ∷ qs) m = elim (Bool-cases (leb q.version r.version)) [
  | inl lower ↦ rw (insert_by_version, lower) m
  | inr higher ↦ rw (insert_by_version, higher) (behind s r q qs m (In-insert_by_version s r qs))
]

In-by_version : (s : CriteriaSet) (rs : List CriteriaSet) → In s rs → In s (by_version rs)
unfolding by_version
In-by_version s [] m = elim m [ ]
In-by_version s (r ∷ rs) (here e) = In-insert_by_version s r (by_version rs) (here e)
In-by_version s (r ∷ rs) (there m) =
    In-insert_by_version s r (by_version rs) (there (In-by_version s rs m))

-- A row of a task is among those that are read for it.
pub siblings-In :
    (t : Tables) (task : String) (s : CriteriaSet)
    → In s t.sets
    → s.task_id ≡ some task
    → In s (siblings t (some task))
unfolding list_sets_by_task
siblings-In t task s m e =
    let own : of_task task s ≡ true = rw (of_task, e) ((eq_iff task task).1 refl) in
    In-by_version s (keep (of_task task) t.sets) (keep-In (of_task task) m own)

-- No row with this id is confirmed.
abbrev pub NotConfirmed : String → Tables → Type 0
NotConfirmed id t = (s : CriteriaSet) → In s t.sets → s.id ≡ id → is_confirmed s.status ≡ false

supersede_row_cases :
    (id : String) (s : CriteriaSet)
    → (supersede_row id s ≡ s) ⊎ (is_confirmed (supersede_row id s).status ≡ false)
supersede_row_cases id s = elim (Bool-cases (is_id id s)) [
  | inl t ↦ inr (rw (supersede_row, t) refl)
  | inr f ↦ inl (rw (supersede_row, f) refl)
]

pub supersede_row-id : (id : String) (s : CriteriaSet) → (supersede_row id s).id ≡ s.id
supersede_row-id id s = ground arith

supersede_set_row-NotConfirmed :
    (other id : String) (t : Tables)
    → NotConfirmed id t
    → NotConfirmed id (supersede_set_row other t)
supersede_set_row-NotConfirmed other id t h s' m e =
    let (s, n, same) = In-map (supersede_row other) t.sets m in
    let id' : s.id ≡ id =
      sym (supersede_row-id other s) ∙ ap (λ (x : CriteriaSet). x.id) (sym same) ∙ e in
    elim (supersede_row_cases other s) [
      | inl kept ↦ subst (λ x. is_confirmed x.status ≡ false) (sym (same ∙ kept)) (h s n id')
      | inr gone ↦ subst (λ x. is_confirmed x.status ≡ false) (sym same) gone
    ]

supersedes_row : (id : String) (t : Tables) → NotConfirmed id (supersede_set_row id t)
supersedes_row id t s' m e =
    let (s, n, same) = In-map (supersede_row id) t.sets m in
    let id' : s.id ≡ id =
      sym (supersede_row-id id s) ∙ ap (λ (x : CriteriaSet). x.id) (sym same) ∙ e in
    let own : is_id id s ≡ true = (eq_iff s.id id).1 id' in
    subst (λ x. is_confirmed x.status ≡ false) (sym same) (rw (supersede_row, own) refl)

supersede_if-NotConfirmed :
    (wanted : Bool) (s : CriteriaSet) (id : String) (t : Tables)
    → NotConfirmed id t
    → NotConfirmed id (supersede_if wanted s t)
supersede_if-NotConfirmed true s id t h = supersede_set_row-NotConfirmed s.id id t h
supersede_if-NotConfirmed false s id t h = h

supersede_others-NotConfirmed :
    (own id : String) (ss : List CriteriaSet) (t : Tables)
    → NotConfirmed id t
    → NotConfirmed id (supersede_others own ss t)
unfolding supersede_others
supersede_others-NotConfirmed own id [] t h = h
supersede_others-NotConfirmed own id (s ∷ ss) t h =
    supersede_others-NotConfirmed own id ss _ (supersede_if-NotConfirmed _ s id t h)

-- A confirmed sibling is superseded.
pub supersede_others_clears :
    (own : String) (s : CriteriaSet) (ss : List CriteriaSet) (t : Tables)
    → In s ss
    → (s.id == own) ≡ false
    → is_confirmed s.status ≡ true
    → NotConfirmed s.id (supersede_others own ss t)
unfolding supersede_others
supersede_others_clears own s [] t m other conf = elim m [ ]
supersede_others_clears own s (r ∷ rs) t (here e) other conf =
    let wanted : (not (r.id == own) && is_confirmed r.status) ≡ true =
      subst (λ (x : CriteriaSet). (not (x.id == own) && is_confirmed x.status) ≡ true) e
        (rw (other, conf) refl) in
    let gone : NotConfirmed s.id (supersede_set_row r.id t) =
      subst (λ (x : CriteriaSet). NotConfirmed s.id (supersede_set_row x.id t)) e
        (supersedes_row s.id t) in
    supersede_others-NotConfirmed own s.id rs _
      (subst (λ b. NotConfirmed s.id (supersede_if b r t)) (sym wanted) gone)
supersede_others_clears own s (r ∷ rs) t (there m) other conf =
    supersede_others_clears own s rs _ m other conf

-- Where a row of the second list comes from: its id and task are kept, and if it is confirmed it is
-- the same row.
abbrev pub Reduces : List CriteriaSet → List CriteriaSet → Type 0
Reduces before after =
    (s' : CriteriaSet)
    → In s' after
    → (s : CriteriaSet) × In s before
      × (s'.id ≡ s.id)
      × (s'.task_id ≡ s.task_id)
      × ((is_confirmed s'.status ≡ false) ⊎ (s' ≡ s))

supersede_row-task : (id : String) (s : CriteriaSet) → (supersede_row id s).task_id ≡ s.task_id
supersede_row-task id s = ground arith

pub supersede_set_row-Reduces :
    (id : String) (before : List CriteriaSet) (t : Tables)
    → Reduces before t.sets
    → Reduces before (supersede_set_row id t).sets
supersede_set_row-Reduces id before t h s' m =
    let (r, n, same) = In-map (supersede_row id) t.sets m in
    let (s, k, same_id, same_task, origin) = h r n in
    let ids = ap (λ (x : CriteriaSet). x.id) same ∙ supersede_row-id id r ∙ same_id in
    let tasks = ap (λ (x : CriteriaSet). x.task_id) same ∙ supersede_row-task id r ∙ same_task in
    (
      s,
      k,
      ids,
      tasks,
      elim (supersede_row_cases id r) [
        | inr gone ↦ inl (subst (λ x. is_confirmed x.status ≡ false) (sym same) gone)
        | inl kept ↦ elim origin [
          | inl not_so ↦ inl (subst (λ x. is_confirmed x.status ≡ false) (sym (same ∙ kept)) not_so)
          | inr equal ↦ inr (same ∙ kept ∙ equal)
        ]
      ],
    )

supersede_if-Reduces :
    (wanted : Bool) (s : CriteriaSet) (before : List CriteriaSet) (t : Tables)
    → Reduces before t.sets
    → Reduces before (supersede_if wanted s t).sets
supersede_if-Reduces true s before t h = supersede_set_row-Reduces s.id before t h
supersede_if-Reduces false s before t h = h

pub supersede_others-Reduces :
    (own : String) (before ss : List CriteriaSet) (t : Tables)
    → Reduces before t.sets
    → Reduces before (supersede_others own ss t).sets
unfolding supersede_others
supersede_others-Reduces own before [] t h = h
supersede_others-Reduces own before (s ∷ ss) t h =
    supersede_others-Reduces own before ss _ (supersede_if-Reduces _ s before t h)
