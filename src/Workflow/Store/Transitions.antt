-- ===== src/Workflow/Store/Transitions.antt =====
-- transitionStep and setRunStatus, on every branch.
use teskra.Base.{
  String, eq_iff, ◌≡◌, ◌≢◌, ◌↔◌, refl, ◌⊎◌, inl, inr, true, false, Option, none, some, Option-cases,
  Bool-cases, if◌then◌else◌, arith, subst,
}
use teskra.Workflow.Types.{
  Step, StepStatus, StepResult, pending, running, completed, failed, skipped, cancelled,
}
use teskra.Workflow.Repository.{Db, get_step_by_id, patch_step, update_steps}
use teskra.Workflow.Store.{
  ok, err, StoreError, step_not_found, illegal_transition, can_transition, is_terminal_step,
  is_running_step, transition_patch, transition_step,
}
use teskra.Workflow.Store.Rows.{find-update_steps}

-- The moves of a step, as a relation.
pub data Move : StepStatus → StepStatus → Type 0 where
  start : Move pending running
  skip : Move pending skipped
  withdraw : Move pending cancelled
  complete : Move running completed
  fail : Move running failed
  abort : Move running cancelled

pub can_transition_sound : (s t : StepStatus) → can_transition s t ≡ true → Move s t
can_transition_sound pending running h = start
can_transition_sound pending skipped h = skip
can_transition_sound pending cancelled h = withdraw
can_transition_sound running completed h = complete
can_transition_sound running failed h = fail
can_transition_sound running cancelled h = abort
can_transition_sound _ _ h = absurd (cc)

pub can_transition_complete : {s t : StepStatus} → Move s t → can_transition s t ≡ true
can_transition_complete start = refl
can_transition_complete skip = refl
can_transition_complete withdraw = refl
can_transition_complete complete = refl
can_transition_complete fail = refl
can_transition_complete abort = refl

-- The step as `transitionStep` leaves it: the status moved, the start or the end stamped, the
-- result replaced where one is given.
unfoldable pub moved : String → StepStatus → Option StepResult → Step → Step
moved now to result s = record s {
  status = to;
  result = elim result [ some r ↦ some r | none ↦ s.result ];
  started_at = if is_running_step to then some now else s.started_at;
  finished_at = if is_terminal_step to then some now else s.finished_at;
}

patch_step-moved :
    (now : String) (to : StepStatus) (result : Option StepResult) (s : Step)
    → patch_step (transition_patch now to result) s ≡ moved now to result s
unfolding patch_step moved
patch_step-moved now to result s = ground arith

-- What a successful `transitionStep` did.
pub record Transitioned (db db' : Db) (now id : String) (to : StepStatus)
    (result : Option StepResult) (s' : Step) : Type 0 where
  pub before : Step
  pub found : get_step_by_id db id ≡ some before
  pub legal : Move before.status to
  pub after : s' ≡ moved now to result before
  pub stored : get_step_by_id db' id ≡ some s'
  pub others : (j : String) → j ≢ id → get_step_by_id db' j ≡ get_step_by_id db j
  pub runs_kept : db'.runs ≡ db.runs

module _ (db : Db) (now id : String) (to : StepStatus) (result : Option StepResult) where
  pub transition_step-legal :
      (s : Step)
      → get_step_by_id db id ≡ some s
      → can_transition s.status to ≡ true
      → transition_step db now id to result ≡ (
        record db { steps = update_steps id (transition_patch now to result) db.steps },
        ok (moved now to result s),
      )
  unfolding transition_step
  transition_step-legal s found legal =
      rw (found, legal, transition_step)
        (ground (
          arith,
          find-update_steps id id (transition_patch now to result) db.steps,
          eq_iff id id,
          patch_step-moved now to result s,
        ))

  pub transition_step-illegal :
      (s : Step)
      → get_step_by_id db id ≡ some s
      → can_transition s.status to ≡ false
      → transition_step db now id to result ≡ (db, err (illegal_transition id s.status to))
  unfolding transition_step
  transition_step-illegal s found illegal = rw (found, illegal, transition_step) refl

  pub transition_step-missing :
      get_step_by_id db id ≡ none
      → transition_step db now id to result ≡ (db, err (step_not_found id))
  unfolding transition_step
  transition_step-missing missing = rw (missing, transition_step) refl

  pub legal-Transitioned :
      (s : Step)
      → get_step_by_id db id ≡ some s
      → can_transition s.status to ≡ true
      → Transitioned db
          (record db { steps = update_steps id (transition_patch now to result) db.steps })
          now
          id
          to
          result
          (moved now to result s)
  legal-Transitioned s found legal = record {
    before = s;
    found = found;
    legal = can_transition_sound s.status to legal;
    after = refl;
    stored = ground (
      arith,
      find-update_steps id id (transition_patch now to result) db.steps,
      eq_iff id id,
      patch_step-moved now to result s,
    );
    others = λ j ne.
        ground
          (arith, find-update_steps id j (transition_patch now to result) db.steps, eq_iff id j);
    runs_kept = refl;
  }

-- Of a step that exists `transitionStep` makes only the legal moves: where it succeeds, the step
-- existed, the state machine allows the move, the row that is returned is the old one with the
-- status moved, its times stamped and its result replaced if one is given, that row is stored, and
-- no other step and no run changes.
pub transition_step-ok :
    (db : Db) (now id : String) (to : StepStatus) (result : Option StepResult) (s' : Step)
    → (transition_step db now id to result).1 ≡ ok s'
    → Transitioned db (transition_step db now id to result).0 now id to result s'
transition_step-ok db now id to result s' h = elim (Option-cases (get_step_by_id db id)) [
  | inl missing ↦
      let e = transition_step-missing db now id to result missing in absurd (ground arith)
  | inr (s, found) ↦ elim (Bool-cases (can_transition s.status to)) [
    | inl legal ↦
        let e = transition_step-legal db now id to result s found legal in
        let same : moved now to result s ≡ s' = ground arith in
        rw e (
          subst (Transitioned db _ now id to result) same
            (legal-Transitioned db now id to result s found legal))
    | inr illegal ↦
        let e = transition_step-illegal db now id to result s found illegal in absurd (ground arith)
  ]
]

-- It refuses exactly when the step does not exist or the state machine does not allow the move, and
-- then it writes nothing.
pub transition_step-err_iff :
    (db : Db) (now id : String) (to : StepStatus) (result : Option StepResult)
    → ((e : StoreError) × (transition_step db now id to result ≡ (db, err e))) ↔ (
        (get_step_by_id db id ≡ none)
        ⊎ ((s : Step) × (get_step_by_id db id ≡ some s) × (¬ Move s.status to)))
transition_step-err_iff db now id to result = elim (Option-cases (get_step_by_id db id)) [
  | inl missing ↦ (
    λ _. inl missing,
    λ _. (step_not_found id, transition_step-missing db now id to result missing),
  )
  | inr (s, found) ↦ elim (Bool-cases (can_transition s.status to)) [
    | inl legal ↦
        let e = transition_step-legal db now id to result s found legal in
        (
          λ (e', h). absurd (ground arith),
          λ h. elim h [
            | inl missing ↦ absurd (cc)
            | inr (t, found', refused) ↦
                let same : t ≡ s = cc in
                absurd (refused (rw same (can_transition_sound s.status to legal)))
          ],
        )
    | inr illegal ↦ (
      λ _. inr (s, found, λ m. let e = can_transition_complete m in cc),
      λ _. (
        illegal_transition id s.status to,
        transition_step-illegal db now id to result s found illegal,
      ),
    )
  ]
]
