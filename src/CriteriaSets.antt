-- ===== src/CriteriaSets.antt =====
-- apps/desktop/src/main/db/repositories/criteria-repository.ts: the tables acceptance_criteria_sets and
-- acceptance_criteria as lists in insertion order. A statement succeeds unless it breaks a primary key
-- or the index on task and version.
pub mod Manager
pub mod Rows
pub mod OneConfirmed
pub mod Effects
pub mod History
pub mod Frozen
pub mod Statuses
pub mod Machine
pub mod Tests
use teskra.Base.{
  String, ◌==◌, ℕ, ◌+◌, max, Bool, true, false, not, ◌&&◌, ◌||◌, List, [], ◌∷◌, ◌++◌, map, Option,
  none, some, any, keep, find, leb, nat_eq, if◌then◌else◌,
}

pub data SetStatus : Type 0 where
  draft confirmed superseded : SetStatus

pub data Category : Type 0 where
  functional test performance security compatibility quality : Category

pub record CriteriaSet : Type 0 where
  pub id : String
  pub task_id : Option String
  pub version : ℕ
  pub status : SetStatus
  pub confirmed_at : Option String
  pub created_at : String

pub record Criterion : Type 0 where
  pub id : String
  pub criteria_set_id : String
  pub ordinal : ℕ
  pub description : String
  pub category : Option Category
  pub required : Bool
  pub created_at : String

-- A run, as far as it is bound to a set.
pub record BoundRun : Type 0 where
  pub id : String
  pub task_id : Option String
  pub criteria_set_id : Option String

pub record Tables : Type 0 where
  pub sets : List CriteriaSet
  pub criteria : List Criterion
  pub runs : List BoundRun
  pub tasks : List String

abbrev pub is_id : String → CriteriaSet → Bool
is_id id s = s.id == id

abbrev pub of_task : String → CriteriaSet → Bool
of_task task s = elim s.task_id [ none ↦ false | some t ↦ t == task ]

abbrev pub get_set_by_id : Tables → String → Option CriteriaSet
get_set_by_id t id = find (is_id id) t.sets

pub insert_by_version : CriteriaSet → List CriteriaSet → List CriteriaSet
insert_by_version s [] = s ∷ []
insert_by_version s (r ∷ rs) =
    if leb r.version s.version then s ∷ r ∷ rs else r ∷ insert_by_version s rs

pub by_version : List CriteriaSet → List CriteriaSet
unfolding insert_by_version
by_version [] = []
by_version (s ∷ ss) = insert_by_version s (by_version ss)

-- `ORDER BY version DESC`
unfoldable pub list_sets_by_task : Tables → String → List CriteriaSet
unfolding by_version
list_sets_by_task t task = by_version (keep (of_task task) t.sets)

-- `getLatestSet(taskId)?.version ?? 0`
abbrev pub highest : List CriteriaSet → ℕ
highest [] = 0
highest (s ∷ ss) = max s.version (highest ss)

abbrev pub latest_version : Tables → String → ℕ
latest_version t task = highest (keep (of_task task) t.sets)

abbrev pub breaks_set_key : CriteriaSet → CriteriaSet → Bool
breaks_set_key s r =
    r.id == s.id
    || (elim s.task_id [ none ↦ false | some task ↦ of_task task r && nat_eq r.version s.version ])

-- none: the row breaks a key.
unfoldable pub insert_set : CriteriaSet → Tables → Option Tables
insert_set s t =
    if any (breaks_set_key s) t.sets then none else some (record t { sets = t.sets ++ s ∷ [] })

abbrev pub confirm_row : (now id : String) → CriteriaSet → CriteriaSet
confirm_row now id s =
    if is_id id s then record s { status = confirmed; confirmed_at = some now } else s

abbrev pub supersede_row : String → CriteriaSet → CriteriaSet
supersede_row id s = if is_id id s then record s { status = superseded } else s

abbrev pub confirm_set_row : (now id : String) → Tables → Tables
confirm_set_row now id t = record t { sets = map (confirm_row now id) t.sets }

abbrev pub supersede_set_row : String → Tables → Tables
supersede_set_row id t = record t { sets = map (supersede_row id) t.sets }

abbrev pub in_set : String → Criterion → Bool
in_set id c = c.criteria_set_id == id

abbrev pub is_criterion : String → Criterion → Bool
is_criterion id c = c.id == id

abbrev pub get_criterion_by_id : Tables → String → Option Criterion
get_criterion_by_id t id = find (is_criterion id) t.criteria

abbrev pub insert_criterion : Criterion → Tables → Option Tables
insert_criterion c t =
    if any (is_criterion c.id) t.criteria
    then none
    else some (record t { criteria = t.criteria ++ c ∷ [] })

pub insert_by_ordinal : Criterion → List Criterion → List Criterion
insert_by_ordinal c [] = c ∷ []
insert_by_ordinal c (d ∷ ds) =
    if leb c.ordinal d.ordinal then c ∷ d ∷ ds else d ∷ insert_by_ordinal c ds

pub by_ordinal : List Criterion → List Criterion
unfolding insert_by_ordinal
by_ordinal [] = []
by_ordinal (c ∷ cs) = insert_by_ordinal c (by_ordinal cs)

-- `ORDER BY ordinal ASC`
unfoldable pub list_criteria : Tables → String → List Criterion
unfolding by_ordinal
list_criteria t set_id = by_ordinal (keep (in_set set_id) t.criteria)

pub record CriterionPatch : Type 0 where
  pub ordinal : Option ℕ
  pub description : Option String
  pub category : Option Category
  pub required : Option Bool

abbrev pub or_old {ℓ} : {A : Type ℓ} → Option A → A → A
or_old none a = a
or_old (some b) a = b

abbrev pub patch_criterion : CriterionPatch → Criterion → Criterion
patch_criterion p c = record c {
  ordinal = or_old p.ordinal c.ordinal;
  description = or_old p.description c.description;
  category = elim p.category [ none ↦ c.category | some k ↦ some k ];
  required = or_old p.required c.required;
}

abbrev pub patch_row : String → CriterionPatch → Criterion → Criterion
patch_row id p c = if is_criterion id c then patch_criterion p c else c

abbrev pub update_criterion_row : String → CriterionPatch → Tables → Tables
update_criterion_row id p t = record t { criteria = map (patch_row id p) t.criteria }

abbrev pub other_criterion : String → Criterion → Bool
other_criterion id c = not (is_criterion id c)

abbrev pub delete_criterion_row : String → Tables → Tables
delete_criterion_row id t = record t { criteria = keep (other_criterion id) t.criteria }
