-- ===== src/Workflow/Store/Snapshots.antt =====
-- Every step belongs to a node of the definition that its run has stored.
use teskra.Base.{
  String, ◌==◌, eq_iff, ℕ, ◌≡◌, refl, sym, ap, ◌∙◌, inl, inr, Bool, true, false, List, [], ◌∷◌,
  ◌++◌, Option, none, some, Option-cases, Bool-cases, arith, any, all, find, keep,
}
use teskra.Workflow.Types.{Node, node_type, Run, Step, StepStatus, StepResult}
use teskra.Workflow.Repository.{
  Db, StepPatch, find_run, get_run_by_id, update_steps, patch_step, delete_run, other_run,
  not_of_run, new_step,
}
use teskra.Workflow.Store.{
  create_run, add_step, transition_step, advance_iteration, anchor_criteria_set, set_run_status,
  add_node_step, insert_step, has_id, dependency_ids, is_terminal_run, transition_patch,
}
use teskra.Workflow.Store.History.{
  Call, creates, adds, transitions, advances, anchors, sets, call, advance_iteration-steps,
  anchor_criteria_set-steps, set_run_status-steps, create_run-steps,
}
use teskra.Workflow.Store.Definitions.{
  definition_in, is_node, belongs, all_belong, KeepsDefinitions, all-kept,
  advance_iteration-KeepsDefinitions, anchor_criteria_set-KeepsDefinitions,
  set_run_status-KeepsDefinitions, create_run-KeepsDefinitions,
}

-- Calls that write runs only.
runs-all_belong :
    (db db' : Db)
    → KeepsDefinitions db.runs db'.runs
    → db'.steps ≡ db.steps
    → all_belong db ≡ true
    → all_belong db' ≡ true
runs-all_belong db db' k same h =
    ap (all (belongs db'.runs)) same ∙ all-kept db.runs db'.runs db.steps k h

update_steps-all_belong :
    (runs : List Run) (id : String) (p : StepPatch) (steps : List Step)
    → all (belongs runs) steps ≡ true
    → all (belongs runs) (update_steps id p steps) ≡ true
unfolding update_steps patch_step
update_steps-all_belong runs id p [] h = refl
update_steps-all_belong runs id p (s ∷ steps) h = elim (Bool-cases (s.id == id)) [
  | inl hit ↦ rw hit h
  | inr miss ↦
      let ih = update_steps-all_belong runs id p steps (ground arith) in rw miss (ground arith)
]

transition_step-all_belong :
    (db : Db) (now id : String) (to : StepStatus) (result : Option StepResult)
    → all_belong db ≡ true
    → all_belong (transition_step db now id to result).0 ≡ true
unfolding transition_step
transition_step-all_belong db now id to result h =
    ground (arith, update_steps-all_belong db.runs id (transition_patch now to result) db.steps h)

all-append_one :
    (p : Step → Bool) (steps : List Step) (s : Step)
    → all p steps ≡ true
    → p s ≡ true
    → all p (steps ++ s ∷ []) ≡ true
all-append_one p [] s h t = rw t refl
all-append_one p (x ∷ steps) s h t =
    let ih = all-append_one p steps s (ground arith) t in ground arith

find_run-id : (id : String) (runs : List Run) (r : Run) → find_run id runs ≡ some r → r.id ≡ id
unfolding find_run
find_run-id id [] r h = absurd (cc)
find_run-id id (q ∷ runs) r h = elim (Bool-cases (q.id == id)) [
  | inl hit ↦
      let e : q ≡ r = ground arith in ap (λ (x : Run). x.id) (sym e) ∙ (eq_iff q.id id).0 hit
  | inr miss ↦ find_run-id id runs r (ground arith)
]

find-any : (p : Node → Bool) (ns : List Node) (n : Node) → find p ns ≡ some n → any p ns ≡ true
find-any p [] n h = absurd (cc)
find-any p (m ∷ ns) n h = elim (Bool-cases (p m)) [
  | inl t ↦ rw t refl
  | inr f ↦ rw f (find-any p ns n (rw f at h))
]

insert_step-all_belong :
    (db : Db) (s : Step)
    → belongs db.runs s ≡ true
    → all_belong db ≡ true
    → all_belong (insert_step db s).0 ≡ true
insert_step-all_belong db s t h = ground (arith, all-append_one (belongs db.runs) db.steps s h t)

add_node_step-all_belong :
    (db : Db) (now id : String) (attempt : ℕ) (r : Run) (node_id : String) (n : Option Node)
    → get_run_by_id db r.id ≡ some r
    → find (has_id node_id) r.definition.steps ≡ n
    → all_belong db ≡ true
    → all_belong (add_node_step db now id attempt r node_id n).0 ≡ true
add_node_step-all_belong db now id attempt r node_id none found none_such h = h
add_node_step-all_belong db now id attempt r node_id (some n) found node h =
    let known = find-any (has_id node_id) r.definition.steps n node in
    insert_step-all_belong db
      (new_step id now r.id node_id (node_type n) r.current_iteration attempt (dependency_ids n))
      (ap (λ o. is_node node_id (definition_in o)) found ∙ known) h

add_step-all_belong :
    (db : Db) (now id run_id node_id : String) (attempt : ℕ)
    → all_belong db ≡ true
    → all_belong (add_step db now id run_id node_id attempt).0 ≡ true
unfolding add_step
add_step-all_belong db now id run_id node_id attempt h =
    elim (Option-cases (get_run_by_id db run_id)) [
      | inl missing ↦ rw (missing, add_step) h
      | inr (r, found) ↦ elim (Bool-cases (is_terminal_run r.status)) [
        | inl over ↦ rw (found, over, add_step) h
        | inr live ↦
            let own = find_run-id run_id db.runs r found in
            rw (found, live, add_step)
              (add_node_step-all_belong db now id attempt r node_id
                (find (has_id node_id) r.definition.steps)
                (ap (λ j. find_run j db.runs) own ∙ found) refl h)
      ]
    ]

find_run-keep :
    (id j : String) (runs : List Run)
    → (j == id) ≡ false
    → find_run j (keep (other_run id) runs) ≡ find_run j runs
unfolding find_run
find_run-keep id j [] h = refl
find_run-keep id j (r ∷ runs) h =
    ground (arith, find_run-keep id j runs h, eq_iff r.id j, eq_iff r.id id, eq_iff j id)

kept_steps-belong :
    (id : String) (runs : List Run) (steps : List Step)
    → all (belongs runs) steps ≡ true
    → all (belongs (keep (other_run id) runs)) (keep (not_of_run id) steps) ≡ true
kept_steps-belong id runs [] h = refl
kept_steps-belong id runs (s ∷ steps) h =
    let ih = kept_steps-belong id runs steps (ground arith) in
    elim (Bool-cases (s.workflow_run_id == id)) [
      | inl gone ↦ rw gone ih
      | inr kept ↦
          let e =
            ap (λ o. is_node s.node_id (definition_in o))
              (find_run-keep id s.workflow_run_id runs kept) in
          rw kept (ground arith)
    ]

delete_run-all_belong :
    (db : Db) (id : String) → all_belong db ≡ true → all_belong (delete_run db id).0 ≡ true
unfolding delete_run
delete_run-all_belong db id h = kept_steps-belong id db.runs db.steps h

-- A call of the store, or the deletion of a run.
pub data Write : Type 0 where
  calls_store : Call → Write
  deletes : (run_id : String) → Write

unfoldable pub write : (String → Bool) → Db → Write → Db
unfolding call delete_run
write tasks db (calls_store c) = call tasks db c
write tasks db (deletes run_id) = (delete_run db run_id).0

unfoldable pub writes : (String → Bool) → Db → List Write → Db
unfolding write
writes tasks db [] = db
writes tasks db (c ∷ cs) = writes tasks (write tasks db c) cs

call-all_belong :
    (tasks : String → Bool) (db : Db) (c : Call)
    → all_belong db ≡ true
    → all_belong (call tasks db c) ≡ true
unfolding call
call-all_belong tasks db (creates now id q) h =
    runs-all_belong db (create_run tasks db now id q).0
      (create_run-KeepsDefinitions tasks db now id q) (create_run-steps tasks db now id q) h
call-all_belong tasks db (adds now id run_id node_id attempt) h =
    add_step-all_belong db now id run_id node_id attempt h
call-all_belong tasks db (transitions now id to result) h =
    transition_step-all_belong db now id to result h
call-all_belong tasks db (advances run_id) h =
    runs-all_belong db (advance_iteration db run_id).0
      (advance_iteration-KeepsDefinitions db run_id) (advance_iteration-steps db run_id) h
call-all_belong tasks db (anchors run_id set) h =
    runs-all_belong db (anchor_criteria_set db run_id set).0
      (anchor_criteria_set-KeepsDefinitions db run_id set) (anchor_criteria_set-steps db run_id set)
      h
call-all_belong tasks db (sets now run_id status) h =
    runs-all_belong db (set_run_status db now run_id status).0
      (set_run_status-KeepsDefinitions db now run_id status)
      (set_run_status-steps db now run_id status) h

-- Over any history of store calls and of deletions of runs: where every step has its run, and its node
-- in the definition that the run has stored, that stays so.
pub writes-all_belong :
    (tasks : String → Bool) (db : Db) (cs : List Write)
    → all_belong db ≡ true
    → all_belong (writes tasks db cs) ≡ true
unfolding writes write
writes-all_belong tasks db [] h = h
writes-all_belong tasks db (calls_store c ∷ cs) h =
    writes-all_belong tasks (call tasks db c) cs (call-all_belong tasks db c h)
writes-all_belong tasks db (deletes run_id ∷ cs) h =
    writes-all_belong tasks (delete_run db run_id).0 cs (delete_run-all_belong db run_id h)
