-- ===== src/Workflow/Store/History.antt =====
-- Any history of the store's operations: what is over stays as it is.
use teskra.Workflow.Store.Transitions.{
  transition_step-legal, transition_step-illegal, transition_step-missing, legal-Transitioned,
}
use teskra.Base.{
  String, ℕ, ◌≡◌, ◌∙◌, inl, inr, Bool, true, false, List, [], ◌∷◌, Option, none, some, Option-cases,
  Bool-cases, arith, find,
}
use teskra.Workflow.Types.{Run, RunStatus, Step, StepStatus, StepResult, Node}
use teskra.Workflow.Repository.{Db, get_run_by_id, get_step_by_id}
use teskra.Workflow.Store.{
  CreateRequest, create_run, add_step, transition_step, advance_iteration, anchor_criteria_set,
  set_run_status, is_terminal_step, can_transition, add_node_step, insert_step, has_id,
  is_terminal_run,
}
use teskra.Workflow.Store.Rows.{find_step-append}

-- One call of the store, with the clock and the new id that it takes.
pub data Call : Type 0 where
  creates : (now id : String) → CreateRequest → Call
  adds : (now id run_id node_id : String) (attempt : ℕ) → Call
  transitions : (now id : String) → StepStatus → Option StepResult → Call
  advances : (run_id : String) → Call
  anchors : (run_id : String) → Option String → Call
  sets : (now run_id : String) → RunStatus → Call

unfoldable pub call : (String → Bool) → Db → Call → Db
call tasks db (creates now id q) = (create_run tasks db now id q).0
call tasks db (adds now id run_id node_id attempt) = (add_step db now id run_id node_id attempt).0
call tasks db (transitions now id to result) = (transition_step db now id to result).0
call tasks db (advances run_id) = (advance_iteration db run_id).0
call tasks db (anchors run_id set) = (anchor_criteria_set db run_id set).0
call tasks db (sets now run_id status) = (set_run_status db now run_id status).0

unfoldable pub calls : (String → Bool) → Db → List Call → Db
calls tasks db [] = db
calls tasks db (c ∷ cs) = calls tasks (call tasks db c) cs

pub create_run-steps :
    (tasks : String → Bool) (db : Db) (now id : String) (q : CreateRequest)
    → (create_run tasks db now id q).0.steps ≡ db.steps
unfolding create_run
create_run-steps tasks db now id q = ground arith

pub advance_iteration-steps :
    (db : Db) (run_id : String) → (advance_iteration db run_id).0.steps ≡ db.steps
unfolding advance_iteration
advance_iteration-steps db run_id = ground arith

pub anchor_criteria_set-steps :
    (db : Db) (run_id : String) (set : Option String)
    → (anchor_criteria_set db run_id set).0.steps ≡ db.steps
unfolding anchor_criteria_set
anchor_criteria_set-steps db run_id set = ground arith

pub set_run_status-steps :
    (db : Db) (now run_id : String) (status : RunStatus)
    → (set_run_status db now run_id status).0.steps ≡ db.steps
unfolding set_run_status
set_run_status-steps db now run_id status = ground arith

insert_step-keeps :
    (db : Db) (t : Step) (id : String) (s : Step)
    → get_step_by_id db id ≡ some s
    → get_step_by_id (insert_step db t).0 id ≡ some s
insert_step-keeps db t id s f = ground (arith, find_step-append id t db.steps)

add_node_step-keeps :
    (db : Db) (now i : String) (attempt : ℕ) (r : Run) (node_id : String) (n : Option Node)
    (id : String) (s : Step)
    → get_step_by_id db id ≡ some s
    → get_step_by_id (add_node_step db now i attempt r node_id n).0 id ≡ some s
add_node_step-keeps db now i attempt r node_id none id s f = f
add_node_step-keeps db now i attempt r node_id (some n) id s f = insert_step-keeps db _ id s f

add_step-keeps :
    (db : Db) (now i run_id node_id : String) (attempt : ℕ) (id : String) (s : Step)
    → get_step_by_id db id ≡ some s
    → get_step_by_id (add_step db now i run_id node_id attempt).0 id ≡ some s
unfolding add_step
add_step-keeps db now i run_id node_id attempt id s f =
    elim (Option-cases (get_run_by_id db run_id)) [
      | inl missing ↦ rw (missing, add_step) f
      | inr (r, found) ↦ elim (Bool-cases (is_terminal_run r.status)) [
        | inl over ↦ rw (found, over, add_step) f
        | inr live ↦
            rw (found, live, add_step)
              (add_node_step-keeps db now i attempt r node_id
                (find (has_id node_id) r.definition.steps) id s f)
      ]
    ]

can_transition-terminal :
    (s t : StepStatus) → is_terminal_step s ≡ true → can_transition s t ≡ false
can_transition-terminal s t h = ground arith

transition_step-keeps_terminal :
    (db : Db) (now i : String) (to : StepStatus) (result : Option StepResult) (id : String)
    (s : Step)
    → get_step_by_id db id ≡ some s
    → is_terminal_step s.status ≡ true
    → get_step_by_id (transition_step db now i to result).0 id ≡ some s
transition_step-keeps_terminal db now i to result id s f t =
    elim (Option-cases (get_step_by_id db i)) [
      | inl missing ↦ rw (transition_step-missing db now i to result missing) f
      | inr (u, found) ↦ elim (Bool-cases (can_transition u.status to)) [
        | inr illegal ↦ rw (transition_step-illegal db now i to result u found illegal) f
        | inl legal ↦
            let r = legal-Transitioned db now i to result u found legal in
            rw (transition_step-legal db now i to result u found legal) (
              r.others id (λ e.
                let q : u ≡ s = ground arith in
                let n = can_transition-terminal s.status to t in
                let legal' : can_transition s.status to ≡ true = rw (← q) legal in cc)
              ∙ f)
      ]
    ]

call-keeps_terminal :
    (tasks : String → Bool) (db : Db) (c : Call) (id : String) (s : Step)
    → get_step_by_id db id ≡ some s
    → is_terminal_step s.status ≡ true
    → get_step_by_id (call tasks db c) id ≡ some s
unfolding call
call-keeps_terminal tasks db (creates now i q) id s f t = rw (create_run-steps tasks db now i q) f
call-keeps_terminal tasks db (adds now i run_id node_id attempt) id s f t =
    add_step-keeps db now i run_id node_id attempt id s f
call-keeps_terminal tasks db (transitions now i to result) id s f t =
    transition_step-keeps_terminal db now i to result id s f t
call-keeps_terminal tasks db (advances run_id) id s f t = rw (advance_iteration-steps db run_id) f
call-keeps_terminal tasks db (anchors run_id set) id s f t =
    rw (anchor_criteria_set-steps db run_id set) f
call-keeps_terminal tasks db (sets now run_id status) id s f t =
    rw (set_run_status-steps db now run_id status) f

-- Whatever calls follow, a step that is completed, failed, skipped or cancelled keeps its row.
pub calls-keeps_terminal :
    (tasks : String → Bool) (db : Db) (cs : List Call) (id : String) (s : Step)
    → get_step_by_id db id ≡ some s
    → is_terminal_step s.status ≡ true
    → get_step_by_id (calls tasks db cs) id ≡ some s
unfolding calls
calls-keeps_terminal tasks db [] id s f t = f
calls-keeps_terminal tasks db (c ∷ cs) id s f t =
    calls-keeps_terminal tasks (call tasks db c) cs id s (call-keeps_terminal tasks db c id s f t) t
