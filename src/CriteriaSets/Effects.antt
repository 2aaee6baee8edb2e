-- ===== src/CriteriaSets/Effects.antt =====
-- What each call of the manager does to the tables: nothing, or what its statements do.
use teskra.Base.{
  String, eq_iff, true, false, ◌⊎◌, inl, inr, [], ◌∷◌, ◌++◌, Option, none, some, any, find,
  find_sound, includes, is_empty, In, ◌≡◌, refl, sym, ap, ◌∙◌, subst, arith, Bool-cases,
  Option-cases, sum_cases, ◌+◌,
}
use teskra.CriteriaSets.{
  CriteriaSet, Criterion, Tables, is_id, get_set_by_id, insert_set, breaks_set_key,
  insert_criterion, is_criterion, confirm_set_row, supersede_set_row, list_criteria,
  get_criterion_by_id, latest_version, CriterionPatch, BoundRun, update_criterion_row,
  delete_criterion_row,
}
use teskra.CriteriaSets.Manager.{
  Manager, is_draft, is_confirmed, require_set, require_draft_set, new_set, create_set,
  NewCriterion, new_criterion, add_criterion, read_back, update_criterion, remove_criterion,
  supersede_others, siblings, set_back, confirm_draft, confirm_set, supersede_set, is_run, bind_set,
  bind_run, touch_task, with_tables,
}

touch_task-tables : (task : Option String) (m : Manager) → (touch_task task m).tables ≡ m.tables
touch_task-tables none m = refl
touch_task-tables (some t) m = refl

-- The set that a request names, or an error and no change.
pub require_set_sound :
    (m : Manager) (id : String) {s : CriteriaSet}
    → require_set m id ≡ inr s
    → In s m.tables.sets × (s.id ≡ id)
unfolding require_set
require_set_sound m id {s} h = elim (Option-cases (get_set_by_id m.tables id)) [
  | inl e ↦ let h' = rw (e, require_set) at h in absurd (cc)
  | inr (r, e) ↦
      let h' = rw (e, require_set) at h in
      let same : r ≡ s = cc in
      let (k, is) = find_sound (is_id id) m.tables.sets e in
      (
        subst (λ x. In x m.tables.sets) same k,
        ap (λ (x : CriteriaSet). x.id) (sym same) ∙ (eq_iff r.id id).0 is,
      )
]

set_back-tables :
    (m : Manager) (task : Option String) (t : Tables) (id : String)
    → (set_back m task t id).0.tables ≡ t
set_back-tables m task t id = elim (Option-cases (get_set_by_id t id)) [
  | inl e ↦ rw (set_back, e) refl
  | inr (s, e) ↦ rw (set_back, e) (touch_task-tables task (with_tables t m))
]

pub read_back-tables :
    (m : Manager) (task : Option String) (t : Tables) (id : String)
    → (read_back m task t id).0.tables ≡ t
read_back-tables m task t id = elim (Option-cases (get_criterion_by_id t id)) [
  | inl e ↦ rw (read_back, e) refl
  | inr (s, e) ↦ rw (read_back, e) (touch_task-tables task (with_tables t m))
]

-- What each call does to the tables: nothing, or what its statements do.
pub create_set-tables :
    (m : Manager) (now id task : String)
    → ((create_set m now id task).0.tables ≡ m.tables)
      ⊎ ((s : CriteriaSet) × (is_draft s.status ≡ true)
          × (any (breaks_set_key s) m.tables.sets ≡ false)
          × ((create_set m now id task).0.tables
              ≡ record m.tables { sets = m.tables.sets ++ s ∷ [] }))
unfolding create_set insert_set
create_set-tables m now id task =
    let s = new_set now id task (latest_version m.tables task + 1) in
    elim (Bool-cases (includes m.tables.tasks task)) [
      | inr missing ↦ inl (rw (create_set, missing) refl)
      | inl known ↦ elim (Bool-cases (any (breaks_set_key s) m.tables.sets)) [
        | inl clash ↦ inl (rw (create_set, known, insert_set, clash) refl)
        | inr free ↦ inr (s, refl, free, rw (create_set, known, insert_set, free) refl)
      ]
    ]

pub confirm_set-tables :
    (m : Manager) (now id : String)
    → ((confirm_set m now id).0.tables ≡ m.tables)
      ⊎ ((s : CriteriaSet) × In s m.tables.sets
          × (s.id ≡ id)
          × (is_draft s.status ≡ true)
          × ((confirm_set m now id).0.tables
              ≡ confirm_set_row now id
                  (supersede_others id (siblings m.tables s.task_id) m.tables)))
unfolding confirm_set
confirm_set-tables m now id = elim (sum_cases (require_set m id)) [
  | inl (e, bad) ↦ inl (rw (confirm_set, bad) refl)
  | inr (s, good) ↦ elim (Bool-cases (is_draft s.status)) [
    | inr closed ↦ inl (rw (confirm_set, good, closed) refl)
    | inl open' ↦ elim (Bool-cases (is_empty (list_criteria m.tables id))) [
      | inl none_there ↦ inl (rw (confirm_set, good, open', confirm_draft, none_there) refl)
      | inr full ↦
          let (k, e) = require_set_sound m id good in
          inr (
            s,
            k,
            e,
            open',
            rw (confirm_set, good, open', confirm_draft, full) (set_back-tables m s.task_id _ id),
          )
    ]
  ]
]

pub supersede_set-tables :
    (m : Manager) (id : String)
    → ((supersede_set m id).0.tables ≡ m.tables)
      ⊎ ((s : CriteriaSet) × In s m.tables.sets
          × (s.id ≡ id)
          × (is_confirmed s.status ≡ true)
          × ((supersede_set m id).0.tables ≡ supersede_set_row id m.tables))
unfolding supersede_set
supersede_set-tables m id = elim (sum_cases (require_set m id)) [
  | inl (e, bad) ↦ inl (rw (supersede_set, bad) refl)
  | inr (s, good) ↦ elim (Bool-cases (is_confirmed s.status)) [
    | inr closed ↦ inl (rw (supersede_set, good, closed) refl)
    | inl open' ↦
        let (k, e) = require_set_sound m id good in
        inr (s, k, e, open', rw (supersede_set, good, open') (set_back-tables m s.task_id _ id))
  ]
]

pub add_criterion-tables :
    (m : Manager) (now id : String) (q : NewCriterion)
    → ((add_criterion m now id q).0.tables ≡ m.tables)
      ⊎ ((s : CriteriaSet) × (require_draft_set m q.set_id ≡ inr s)
          × (any (is_criterion id) m.tables.criteria ≡ false)
          × ((add_criterion m now id q).0.tables
              ≡ record m.tables { criteria = m.tables.criteria ++ new_criterion m now id q ∷ [] }))
unfolding add_criterion
add_criterion-tables m now id q = elim (sum_cases (require_draft_set m q.set_id)) [
  | inl (e, bad) ↦ inl (rw (add_criterion, bad) refl)
  | inr (s, good) ↦ elim (Bool-cases (any (is_criterion id) m.tables.criteria)) [
    | inl clash ↦ inl (rw (add_criterion, good, insert_criterion, clash) refl)
    | inr free ↦ inr (
      s,
      good,
      free,
      rw (add_criterion, good, insert_criterion, free) (touch_task-tables s.task_id _),
    )
  ]
]

-- A criterion is changed only if its set is a draft.
pub update_criterion-tables :
    (m : Manager) (id : String) (p : CriterionPatch)
    → ((update_criterion m id p).0.tables ≡ m.tables)
      ⊎ ((c : Criterion) × (s : CriteriaSet) × (get_criterion_by_id m.tables id ≡ some c)
          × (require_draft_set m c.criteria_set_id ≡ inr s)
          × ((update_criterion m id p).0.tables ≡ update_criterion_row id p m.tables))
unfolding update_criterion
update_criterion-tables m id p = elim (Option-cases (get_criterion_by_id m.tables id)) [
  | inl e ↦ inl (rw (update_criterion, e) refl)
  | inr (c, e) ↦ elim (sum_cases (require_draft_set m c.criteria_set_id)) [
    | inl (x, bad) ↦ inl (rw (update_criterion, e, bad) refl)
    | inr (s, good) ↦ inr (
      c,
      s,
      e,
      good,
      rw (update_criterion, e, good)
          (read_back-tables m s.task_id (update_criterion_row id p m.tables) id),
    )
  ]
]

pub remove_criterion-tables :
    (m : Manager) (id : String)
    → ((remove_criterion m id).0.tables ≡ m.tables)
      ⊎ ((c : Criterion) × (s : CriteriaSet) × (get_criterion_by_id m.tables id ≡ some c)
          × (require_draft_set m c.criteria_set_id ≡ inr s)
          × ((remove_criterion m id).0.tables ≡ delete_criterion_row id m.tables))
unfolding remove_criterion
remove_criterion-tables m id = elim (Option-cases (get_criterion_by_id m.tables id)) [
  | inl e ↦ inl (rw (remove_criterion, e) refl)
  | inr (c, e) ↦ elim (sum_cases (require_draft_set m c.criteria_set_id)) [
    | inl (x, bad) ↦ inl (rw (remove_criterion, e, bad) refl)
    | inr (s, good) ↦
        inr (c, s, e, good, rw (remove_criterion, e, good) (touch_task-tables s.task_id _))
  ]
]

-- Binding a run writes neither the sets nor the criteria.
bind_set-tables :
    (m : Manager) (r : BoundRun) (s : CriteriaSet)
    → ((bind_set m r s).0.tables.sets ≡ m.tables.sets)
      × ((bind_set m r s).0.tables.criteria ≡ m.tables.criteria)
bind_set-tables m r s = ground arith

pub bind_run-tables :
    (m : Manager) (run : String) (set : Option String)
    → ((bind_run m run set).0.tables.sets ≡ m.tables.sets)
      × ((bind_run m run set).0.tables.criteria ≡ m.tables.criteria)
unfolding bind_run
bind_run-tables m run set = elim (Option-cases (find (is_run run) m.tables.runs)) [
  | inl e ↦ rw (bind_run, e) (refl, refl)
  | inr (r, e) ↦ elim (Option-cases set) [
    | inl n ↦ rw (bind_run, e, n) (refl, refl)
    | inr (id, given) ↦ elim (sum_cases (require_set m id)) [
      | inl (x, bad) ↦ rw (bind_run, e, given, bad) (refl, refl)
      | inr (s, good) ↦ rw (bind_run, e, given, good) (bind_set-tables m r s)
    ]
  ]
]
