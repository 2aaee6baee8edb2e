-- ===== src/Workflow/Iterate.antt =====
-- apps/desktop/src/main/workflows/iteration-controller.ts: the loop of rounds, each of which is one
-- pass of the engine. `Rounds` holds what a round gets from elsewhere: the engine, the criteria sets
-- as they are when a round begins, and whether the prompt, the step context and the task's update
-- succeed.

pub mod Loop
pub mod Bounded
pub mod Caps
pub mod Calls
pub mod Different
pub mod OneLoop
pub mod Built
use teskra.Base.{
  String, ◌==◌, ℕ, zero, suc, ◌+◌, Bool, true, false, not, ◌&&◌, ◌||◌, ◌⊎◌, inl, inr, List, [], ◌∷◌,
  ◌++◌, Option, none, some, any, find, includes, lookup, ltb, leb, nat_eq, if◌then◌else◌,
}
use teskra.Workflow.Types.{
  NodeType, agent, criteria_gate, review_panel, Node, node_type, Definition, Run, RunStatus,
  completed, failed, cancelled, needs_user_review, Step, StepStatus, StepResult,
}
use teskra.Workflow.Repository.{Db}
use teskra.Workflow.Store.{
  StoreError, Result, ok, err, RunDetail, is_terminal_run, get_run, advance_iteration,
  anchor_criteria_set, set_run_status,
}

pub record IterationPolicy : Type 0 where
  pub max_rounds_per_criteria_version : ℕ
  pub max_total_rounds : ℕ

pub data StopReason : Type 0 where
  passed cap_per_version cap_total stopped : StopReason

pub record IterateResult : Type 0 where
  pub run : Run
  pub rounds : ℕ
  pub stop_reason : StopReason

pub data IterateError : Type 0 where
  store : StoreError → IterateError
  run_missing : String → IterateError
  run_closed : String → RunStatus → IterateError
  round_unprepared pass_failed : String → IterateError
  task_not_updated : String → IterateError

-- `resolveCriteriaAnchor`: the confirmed set of the highest version, the first of equals.
pub record CriteriaSet : Type 0 where
  pub id : String
  pub version : ℕ
  pub confirmed : Bool

abbrev pub higher : CriteriaSet → Option CriteriaSet → CriteriaSet
higher s none = s
higher s (some best) = if ltb s.version best.version then best else s

pub latest_confirmed : List CriteriaSet → Option CriteriaSet
latest_confirmed [] = none
latest_confirmed (s ∷ ss) =
    let rest = latest_confirmed ss in if s.confirmed then some (higher s rest) else rest

abbrev pub set_id : Option CriteriaSet → Option String
set_id none = none
set_id (some s) = some s.id

unfoldable pub resolve_criteria_anchor : List CriteriaSet → Option String
unfolding latest_confirmed
resolve_criteria_anchor sets = set_id (latest_confirmed sets)

-- `reviewVerdict`
abbrev pub is_completed : Step → Bool
is_completed s = elim s.status [ completed ↦ true | _ ↦ false ]

abbrev pub is_review : NodeType → Bool
is_review review_panel = true
is_review _ = false

abbrev pub is_gate : NodeType → Bool
is_gate criteria_gate = true
is_gate _ = false

abbrev pub review_node_ids : List String
review_node_ids = "review-implement" ∷ "review-fix" ∷ []

abbrev pub review_step : ℕ → Step → Bool
review_step iteration s =
    nat_eq s.iteration iteration
    && is_review s.node_type
    && is_completed s
    && includes review_node_ids s.node_id

abbrev pub gate_step : ℕ → Step → Bool
gate_step iteration s = nat_eq s.iteration iteration && is_gate s.node_type && is_completed s

abbrev pub text_is : String → Option String → Bool
text_is t none = false
text_is t (some s) = s == t

abbrev pub result_outcome : Option StepResult → Option String
result_outcome none = none
result_outcome (some r) = lookup "outcome" r

abbrev pub step_outcome_is : String → Option Step → Bool
step_outcome_is t none = false
step_outcome_is t (some s) = text_is t (result_outcome s.result)

abbrev pub is_gate_node : Node → Bool
is_gate_node n = is_gate (node_type n)

unfoldable pub approves : RunDetail → Bool
approves d =
    let iteration = d.run.current_iteration in
    step_outcome_is "approve" (find (review_step iteration) d.steps)
    && (not (any is_gate_node d.run.definition.steps)
        || step_outcome_is "pass" (find (gate_step iteration) d.steps))

-- The tables, the events `workflow.run_updated`, and the tasks that were set to needs_review.
pub record World : Type 0 where
  pub db : Db
  pub run_updates : List (String × RunStatus)
  pub tasks_for_review : List String

-- `engine.start` settles with the detail of the run, or with an error; `none`.
pub record Rounds : Type 0 where
  pub start : Db → String → Db × Option RunDetail
  pub sets : ℕ → List CriteriaSet
  pub prepared : ℕ → Bool
  pub task_updates : String → Bool
  pub now : String

pub data Turn : Type 0 where
  ended : (IterateError ⊎ IterateResult) → Turn
  again : Run → Turn

abbrev pub emit_status : String → RunStatus → World → World
emit_status id status w = record w { run_updates = w.run_updates ++ (id, status) ∷ [] }

abbrev pub stop_with :
    Rounds → StopReason → ℕ → Option String → World × Run → World × (IterateError ⊎ IterateResult)
stop_with rs reason rounds none (w, r) =
    (w, inr (record { run = r; rounds = rounds; stop_reason = reason }))
stop_with rs reason rounds (some t) (w, r) =
    if rs.task_updates t
    then (
      record w { tasks_for_review = w.tasks_for_review ++ t ∷ [] },
      inr (record { run = r; rounds = rounds; stop_reason = reason }),
    )
    else (w, inl (task_not_updated t))

abbrev pub capped :
    Rounds
    → StopReason
    → ℕ
    → Option String
    → World
    → Db × Result Run
    → World × (IterateError ⊎ IterateResult)
capped rs reason rounds task w (db, err e) = (record w { db = db }, inl (store e))
capped rs reason rounds task w (db, ok r) =
    stop_with rs reason rounds task (emit_status r.id needs_user_review (record w { db = db }), r)

-- The round that was just settled is counted first; where it cannot be, the cap stands.
abbrev pub counted : Run → Db × Result Run → Db × Run
counted r (db, err _) = (db, r)
counted r (db, ok r') = (db, r')

abbrev pub count_round : Bool → Db → Run → Db × Run
count_round count db r = if count then counted r (advance_iteration db r.id) else (db, r)

pub trigger_cap :
    Rounds → World → Run → StopReason → ℕ → Bool → World × (IterateError ⊎ IterateResult)
trigger_cap rs w r reason rounds count =
    let c = count_round count w.db r in
    capped rs reason rounds c.1.task_id (record w { db = c.0 })
      (set_run_status c.0 rs.now r.id needs_user_review)

abbrev pub turned : World × (IterateError ⊎ IterateResult) → World × Turn
turned (w, r) = (w, ended r)

-- `run.criteriaSetId ?? null !== anchor`
abbrev pub same_anchor : Option String → Option String → Bool
same_anchor none none = true
same_anchor (some a) (some b) = a == b
same_anchor _ _ = false

abbrev pub reanchored : World → Db × Result Run → World × (IterateError ⊎ Run)
reanchored w (db, err e) = (record w { db = db }, inl (store e))
reanchored w (db, ok r) = (record w { db = db }, inr r)

pub anchor_run : Rounds → ℕ → World → Run → World × (IterateError ⊎ Run)
unfolding resolve_criteria_anchor
anchor_run rs n w r =
    let anchor = resolve_criteria_anchor (rs.sets n) in
    if same_anchor r.criteria_set_id anchor
    then (w, inr r)
    else reanchored w (anchor_criteria_set w.db r.id anchor)
