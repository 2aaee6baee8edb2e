-- ===== src/CriteriaSets/Manager.antt =====
-- apps/desktop/src/main/tasks/criteria-manager.ts: the operations on the acceptance criteria of tasks.
use teskra.Base.{
  String, ◌==◌, ℕ, ◌+◌, max, Bool, true, false, not, ◌&&◌, ◌⊎◌, inl, inr, List, [], ◌∷◌, ◌++◌, map,
  Option, none, some, find, includes, is_empty, if◌then◌else◌,
}
use teskra.CriteriaSets.{
  SetStatus, draft, confirmed, Category, CriteriaSet, Criterion, BoundRun, Tables, CriterionPatch,
  get_set_by_id, list_sets_by_task, latest_version, insert_set, confirm_set_row, supersede_set_row,
  get_criterion_by_id, insert_criterion, list_criteria, update_criterion_row, delete_criterion_row,
  or_old,
}

pub data CriteriaError : Type 0 where
  missing_set missing_criterion missing_task missing_run row_exists : String → CriteriaError
  no_longer_edited not_a_draft not_confirmed cannot_bind : String → SetStatus → CriteriaError
  empty_set : String → CriteriaError
  other_task : (set_id run_id : String) → CriteriaError

-- The tables and the events `task.updated`.
pub record Manager : Type 0 where
  pub tables : Tables
  pub updated : List String

abbrev pub Answer {ℓ} : Type ℓ → Type ℓ
Answer A = Manager × (CriteriaError ⊎ A)

abbrev pub is_draft : SetStatus → Bool
is_draft draft = true
is_draft _ = false

abbrev pub is_confirmed : SetStatus → Bool
is_confirmed confirmed = true
is_confirmed _ = false

unfoldable pub require_set : Manager → String → CriteriaError ⊎ CriteriaSet
require_set m id = elim (get_set_by_id m.tables id) [ none ↦ inl (missing_set id) | some s ↦ inr s ]

abbrev pub if_draft : CriteriaError ⊎ CriteriaSet → CriteriaError ⊎ CriteriaSet
if_draft (inl e) = inl e
if_draft (inr s) = if is_draft s.status then inr s else inl (no_longer_edited s.id s.status)

unfoldable pub require_draft_set : Manager → String → CriteriaError ⊎ CriteriaSet
unfolding require_set
require_draft_set m id = if_draft (require_set m id)

-- `touchTask`: an orphaned set has no task to notify.
abbrev pub touch_task : Option String → Manager → Manager
touch_task none m = m
touch_task (some task) m = record m { updated = m.updated ++ task ∷ [] }

abbrev pub with_tables : Tables → Manager → Manager
with_tables t m = record m { tables = t }

pub record Detail : Type 0 where
  pub set : CriteriaSet
  pub criteria : List Criterion

unfoldable pub get_set : Manager → String → Option Detail
get_set m id = elim (get_set_by_id m.tables id) [
  | none ↦ none
  | some s ↦ some (record { set = s; criteria = list_criteria m.tables s.id })
]

abbrev pub new_set : (now id task : String) → ℕ → CriteriaSet
new_set now id task version = record {
  id = id;
  task_id = some task;
  version = version;
  status = draft;
  confirmed_at = none;
  created_at = now;
}

unfoldable pub create_set : Manager → (now id task : String) → Answer Detail
create_set m now id task =
    let s = new_set now id task (latest_version m.tables task + 1) in
    if includes m.tables.tasks task
    then elim (insert_set s m.tables) [
      | none ↦ (m, inl (row_exists id))
      | some t ↦ (
        touch_task (some task) (with_tables t m),
        inr (record { set = s; criteria = list_criteria t id }),
      )
    ]
    else (m, inl (missing_task task))

pub record NewCriterion : Type 0 where
  pub set_id : String
  pub description : String
  pub category : Option Category
  pub required : Option Bool

abbrev pub highest_ordinal : List Criterion → ℕ
highest_ordinal [] = 0
highest_ordinal (c ∷ cs) = max c.ordinal (highest_ordinal cs)

abbrev pub new_criterion : Manager → (now id : String) → NewCriterion → Criterion
new_criterion m now id q = record {
  id = id;
  criteria_set_id = q.set_id;
  ordinal = highest_ordinal (list_criteria m.tables q.set_id) + 1;
  description = q.description;
  category = q.category;
  required = or_old q.required true;
  created_at = now;
}

unfoldable pub add_criterion : Manager → (now id : String) → NewCriterion → Answer Criterion
unfolding require_draft_set
add_criterion m now id q = elim (require_draft_set m q.set_id) [
  | inl e ↦ (m, inl e)
  | inr s ↦
      let c = new_criterion m now id q in
      elim (insert_criterion c m.tables) [
        | none ↦ (m, inl (row_exists id))
        | some t ↦ (touch_task s.task_id (with_tables t m), inr c)
      ]
]

abbrev pub read_back : Manager → Option String → Tables → String → Answer Criterion
read_back m task t id = elim (get_criterion_by_id t id) [
  | none ↦ (with_tables t m, inl (missing_criterion id))
  | some c ↦ (touch_task task (with_tables t m), inr c)
]

unfoldable pub update_criterion : Manager → String → CriterionPatch → Answer Criterion
unfolding require_draft_set
update_criterion m id p = elim (get_criterion_by_id m.tables id) [
  | none ↦ (m, inl (missing_criterion id))
  | some c ↦ elim (require_draft_set m c.criteria_set_id) [
    | inl e ↦ (m, inl e)
    | inr s ↦ read_back m s.task_id (update_criterion_row id p m.tables) id
  ]
]

-- The row was read before, so that the deletion removes one.
unfoldable pub remove_criterion : Manager → String → Answer Bool
unfolding require_draft_set
remove_criterion m id = elim (get_criterion_by_id m.tables id) [
  | none ↦ (m, inl (missing_criterion id))
  | some c ↦ elim (require_draft_set m c.criteria_set_id) [
    | inl e ↦ (m, inl e)
    | inr s ↦ (touch_task s.task_id (with_tables (delete_criterion_row id m.tables) m), inr true)
  ]
]

abbrev pub supersede_if : Bool → CriteriaSet → Tables → Tables
supersede_if wanted s t = if wanted then supersede_set_row s.id t else t

-- The loop over the other sets of the task, as they were read before it.
unfoldable pub supersede_others : String → List CriteriaSet → Tables → Tables
supersede_others id [] t = t
supersede_others id (s ∷ ss) t =
    supersede_others id ss (supersede_if (not (s.id == id) && is_confirmed s.status) s t)

abbrev pub siblings : Tables → Option String → List CriteriaSet
siblings t none = []
siblings t (some task) = list_sets_by_task t task

-- The row with this id, as it is read back after a statement.
abbrev pub set_back : Manager → Option String → Tables → String → Answer CriteriaSet
set_back m task t id = elim (get_set_by_id t id) [
  | none ↦ (with_tables t m, inl (missing_set id))
  | some s ↦ (touch_task task (with_tables t m), inr s)
]

abbrev pub confirm_draft : Manager → (now id : String) → CriteriaSet → Answer CriteriaSet
confirm_draft m now id s =
    if is_empty (list_criteria m.tables id)
    then (m, inl (empty_set id))
    else set_back m s.task_id
        (confirm_set_row now id (supersede_others id (siblings m.tables s.task_id) m.tables)) id

unfoldable pub confirm_set : Manager → (now id : String) → Answer CriteriaSet
unfolding require_set supersede_others
confirm_set m now id = elim (require_set m id) [
  | inl e ↦ (m, inl e)
  | inr s ↦
      if is_draft s.status then confirm_draft m now id s else (m, inl (not_a_draft id s.status))
]

unfoldable pub supersede_set : Manager → String → Answer CriteriaSet
unfolding require_set
supersede_set m id = elim (require_set m id) [
  | inl e ↦ (m, inl e)
  | inr s ↦
      if is_confirmed s.status
      then set_back m s.task_id (supersede_set_row id m.tables) id
      else (m, inl (not_confirmed id s.status))
]

abbrev pub is_run : String → BoundRun → Bool
is_run id r = r.id == id

abbrev pub bind_row : String → Option String → BoundRun → BoundRun
bind_row id set r = if is_run id r then record r { criteria_set_id = set } else r

abbrev pub bound : Manager → BoundRun → Option String → Answer BoundRun
bound m r set = (
  with_tables (record m.tables { runs = map (bind_row r.id set) m.tables.runs }) m,
  inr (record r { criteria_set_id = set }),
)

-- `run.taskId !== undefined && run.taskId !== set.taskId`
abbrev pub is_foreign : Option String → Option String → Bool
is_foreign none set_task = false
is_foreign (some t) none = true
is_foreign (some t) (some u) = not (t == u)

abbrev pub bind_set : Manager → BoundRun → CriteriaSet → Answer BoundRun
bind_set m r s =
    if not (is_confirmed s.status)
    then (m, inl (cannot_bind s.id s.status))
    else if is_foreign r.task_id s.task_id
    then (m, inl (other_task s.id r.id))
    else bound m r (some s.id)

abbrev pub bind_required : Manager → BoundRun → CriteriaError ⊎ CriteriaSet → Answer BoundRun
bind_required m r (inl e) = (m, inl e)
bind_required m r (inr s) = bind_set m r s

unfoldable pub bind_run : Manager → String → Option String → Answer BoundRun
unfolding require_set
bind_run m run_id set_id = elim (find (is_run run_id) m.tables.runs) [
  | none ↦ (m, inl (missing_run run_id))
  | some r ↦ elim set_id [ none ↦ bound m r none | some id ↦ bind_required m r (require_set m id) ]
]

-- A call of the manager.
pub data Call : Type 0 where
  creates : (now id task : String) → Call
  adds : (now id : String) → NewCriterion → Call
  updates : String → CriterionPatch → Call
  removes : String → Call
  confirms : (now id : String) → Call
  supersedes : String → Call
  binds : String → Option String → Call

unfoldable pub call : Manager → Call → Manager
unfolding create_set add_criterion update_criterion remove_criterion confirm_set supersede_set
    bind_run
call m (creates now id task) = (create_set m now id task).0
call m (adds now id q) = (add_criterion m now id q).0
call m (updates id p) = (update_criterion m id p).0
call m (removes id) = (remove_criterion m id).0
call m (confirms now id) = (confirm_set m now id).0
call m (supersedes id) = (supersede_set m id).0
call m (binds run set) = (bind_run m run set).0

unfoldable pub calls : Manager → List Call → Manager
calls m [] = m
calls m (c ∷ cs) = calls (call m c) cs
