-- ===== src/Workflow/Store/Definitions.antt =====
-- What the store's operations leave of the definitions that the runs have stored.
use teskra.Base.{
  String, ◌≡◌, refl, sym, ap, ◌∙◌, inl, inr, Bool, true, false, ◌||◌, List, [], ◌∷◌, ◌++◌, Option,
  none, some, Option-cases, Bool-cases, arith, any, all,
}
use teskra.Workflow.Types.{Definition, Run, RunStatus, Step}
use teskra.Workflow.Repository.{Db, RunPatch, find_run, get_run_by_id, update_runs, patch_run}
use teskra.Workflow.Store.{
  CreateRequest, create_run, advance_iteration, anchor_criteria_set, set_run_status, insert_run,
  has_id, is_terminal_run, advance_patch, anchor_patch, status_patch, at_limit, missing_task,
}
use teskra.Workflow.Store.Iterations.{
  Validation-cases, advance_iteration-missing, advance_iteration-refused, advance_iteration-free,
}
use teskra.Workflow.Validate.{validate_workflow_definition}
use teskra.Workflow.Store.Rows.{find-update_runs, find_run-append, map_run}

abbrev pub definition_in : Option Run → Option Definition
definition_in none = none
definition_in (some r) = some r.definition

abbrev pub definition_of : List Run → String → Option Definition
definition_of runs id = definition_in (find_run id runs)

abbrev pub is_node : String → Option Definition → Bool
is_node node_id none = false
is_node node_id (some d) = any (has_id node_id) d.steps

abbrev pub belongs : List Run → Step → Bool
belongs runs s = is_node s.node_id (definition_of runs s.workflow_run_id)

abbrev pub all_belong : Db → Bool
all_belong db = all (belongs db.runs) db.steps

-- The runs that there were have their definitions still.
unfoldable pub KeepsDefinitions : (runs runs' : List Run) → Type 0
KeepsDefinitions runs runs' =
    (id : String) (d : Definition)
    → definition_of runs id ≡ some d
    → definition_of runs' id ≡ some d

belongs-kept :
    (runs runs' : List Run) (s : Step)
    → KeepsDefinitions runs runs'
    → belongs runs s ≡ true
    → belongs runs' s ≡ true
unfolding KeepsDefinitions
belongs-kept runs runs' s k h = elim (Option-cases (definition_of runs s.workflow_run_id)) [
  | inl missing ↦ absurd (let e = ap (is_node s.node_id) missing in cc)
  | inr (d, found) ↦ ap (is_node s.node_id) (k s.workflow_run_id d found ∙ sym found) ∙ h
]

pub all-kept :
    (runs runs' : List Run) (steps : List Step)
    → KeepsDefinitions runs runs'
    → all (belongs runs) steps ≡ true
    → all (belongs runs') steps ≡ true
all-kept runs runs' [] k h = refl
all-kept runs runs' (s ∷ steps) k h =
    let first = belongs-kept runs runs' s k (ground arith) in
    let ih = all-kept runs runs' steps k (ground arith) in ground arith

definition_in-map_run :
    (p : RunPatch) (o : Option Run) → definition_in (map_run p o) ≡ definition_in o
unfolding patch_run
definition_in-map_run p none = refl
definition_in-map_run p (some r) = refl

update_runs-KeepsDefinitions :
    (id : String) (p : RunPatch) (runs : List Run) → KeepsDefinitions runs (update_runs id p runs)
unfolding KeepsDefinitions
update_runs-KeepsDefinitions id p runs asked d h =
    ground (arith, find-update_runs id asked p runs, definition_in-map_run p (find_run asked runs))

append-KeepsDefinitions : (runs : List Run) (r : Run) → KeepsDefinitions runs (runs ++ r ∷ [])
unfolding KeepsDefinitions
append-KeepsDefinitions runs r asked d h = elim (Option-cases (find_run asked runs)) [
  | inl missing ↦ absurd (let e = ap definition_in missing in cc)
  | inr (q, found) ↦
      let e : find_run asked (runs ++ r ∷ []) ≡ some q =
        find_run-append asked r runs ∙ rw found refl in
      ap definition_in (e ∙ sym found) ∙ h
]

same-KeepsDefinitions : (runs : List Run) → KeepsDefinitions runs runs
unfolding KeepsDefinitions
same-KeepsDefinitions runs asked d h = h

pub advance_iteration-KeepsDefinitions :
    (db : Db) (run_id : String) → KeepsDefinitions db.runs (advance_iteration db run_id).0.runs
advance_iteration-KeepsDefinitions db run_id = elim (Option-cases (get_run_by_id db run_id)) [
  | inl missing ↦ rw (advance_iteration-missing db run_id missing) (same-KeepsDefinitions db.runs)
  | inr (r, found) ↦ elim (Bool-cases (is_terminal_run r.status || at_limit r)) [
    | inl refused ↦
        rw (advance_iteration-refused db run_id r found refused) (same-KeepsDefinitions db.runs)
    | inr free ↦
        rw (advance_iteration-free db run_id r found free)
          (update_runs-KeepsDefinitions run_id (advance_patch r) db.runs)
  ]
]

pub anchor_criteria_set-KeepsDefinitions :
    (db : Db) (run_id : String) (set : Option String)
    → KeepsDefinitions db.runs (anchor_criteria_set db run_id set).0.runs
unfolding anchor_criteria_set
anchor_criteria_set-KeepsDefinitions db run_id set = ground (
  arith,
  update_runs-KeepsDefinitions run_id (anchor_patch set) db.runs,
  same-KeepsDefinitions db.runs,
)

pub set_run_status-KeepsDefinitions :
    (db : Db) (now run_id : String) (status : RunStatus)
    → KeepsDefinitions db.runs (set_run_status db now run_id status).0.runs
unfolding set_run_status
set_run_status-KeepsDefinitions db now run_id status = ground (
  arith,
  update_runs-KeepsDefinitions run_id (status_patch now status) db.runs,
  same-KeepsDefinitions db.runs,
)

insert_run-KeepsDefinitions :
    (db : Db) (r : Run) → KeepsDefinitions db.runs (insert_run db r).0.runs
insert_run-KeepsDefinitions db r =
    ground (arith, append-KeepsDefinitions db.runs r, same-KeepsDefinitions db.runs)

pub create_run-KeepsDefinitions :
    (tasks : String → Bool) (db : Db) (now id : String) (q : CreateRequest)
    → KeepsDefinitions db.runs (create_run tasks db now id q).0.runs
unfolding create_run
create_run-KeepsDefinitions tasks db now id q =
    let same = same-KeepsDefinitions db.runs in
    elim (Validation-cases (validate_workflow_definition q.definition)) [
      | inr (inl (is, e)) ↦ rw (e, create_run) same
      | inr (inr (is, e)) ↦ rw (e, create_run) same
      | inl (d, e) ↦ elim (Option-cases (missing_task tasks q.task_id)) [
        | inl known ↦ rw (e, known, create_run) (insert_run-KeepsDefinitions db _)
        | inr (t, unknown) ↦ rw (e, unknown, create_run) same
      ]
    ]
