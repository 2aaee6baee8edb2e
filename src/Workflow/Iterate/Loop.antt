-- ===== src/Workflow/Iterate/Loop.antt =====
-- iteration-controller.ts: the caps, the body of the loop and the loop.
use teskra.Base.{
  String, ℕ, zero, suc, ◌+◌, Bool, true, false, ◌&&◌, ◌⊎◌, inl, inr, Option, none, some, any, ltb,
  leb, nat_eq, if◌then◌else◌,
}
use teskra.Workflow.Types.{Run, RunStatus, completed, failed, cancelled, Step}
use teskra.Workflow.Repository.{Db}
use teskra.Workflow.Store.{
  Result, ok, err, RunDetail, is_terminal_run, get_run, advance_iteration, set_run_status,
}
use teskra.Workflow.Iterate.{
  IterateError, IterateResult, IterationPolicy, Rounds, StopReason, Turn, World, again, anchor_run,
  approves, cap_per_version, cap_total, emit_status, ended, pass_failed, passed, round_unprepared,
  run_closed, run_missing, stopped, store, trigger_cap, turned,
}

abbrev pub in_iteration : ℕ → Step → Bool
in_iteration n s = nat_eq s.iteration n

abbrev pub settled_rounds : RunDetail → Run → ℕ
settled_rounds d r =
    if any (in_iteration r.current_iteration) d.steps
    then r.current_iteration + 1
    else r.current_iteration

-- The cap that a run already has when a round is about to begin.
unfoldable pub pre_cap : IterationPolicy → RunDetail → Run → Option StopReason
pre_cap p d r =
    let rounds = settled_rounds d r in
    if ltb 0 rounds && leb p.max_rounds_per_criteria_version r.criteria_iteration
    then some cap_per_version
    else if ltb 0 rounds && leb p.max_total_rounds rounds
    then some cap_total
    else none

-- The cap that a run meets when a round has failed.
unfoldable pub post_cap : IterationPolicy → Run → Option StopReason
post_cap p r =
    if leb p.max_rounds_per_criteria_version (r.criteria_iteration + 1)
    then some cap_per_version
    else if leb p.max_total_rounds (r.current_iteration + 1)
    then some cap_total
    else none

abbrev pub advanced : World → Db × Result Run → World × Turn
advanced w (db, err e) = (record w { db = db }, ended (inl (store e)))
advanced w (db, ok r) = (record w { db = db }, again r)

abbrev pub passed_run : World → ℕ → Db × Result Run → World × Turn
passed_run w rounds (db, err e) = (record w { db = db }, ended (inl (store e)))
passed_run w rounds (db, ok r) = (
  emit_status r.id completed (record w { db = db }),
  ended (inr (record { run = r; rounds = rounds; stop_reason = passed })),
)

abbrev pub is_cancelled : RunStatus → Bool
is_cancelled cancelled = true
is_cancelled _ = false

-- What follows the pass of a round.
unfoldable pub after_pass : Rounds → IterationPolicy → World → RunDetail → World × Turn
unfolding approves trigger_cap post_cap
after_pass rs p w d =
    let rounds = d.run.current_iteration + 1 in
    if is_cancelled d.run.status
    then (w, ended (inr (record { run = d.run; rounds = rounds; stop_reason = stopped })))
    else if approves d
    then passed_run w rounds (set_run_status w.db rs.now d.run.id completed)
    else elim (post_cap p d.run) [
      | some reason ↦ turned (trigger_cap rs w d.run reason rounds true)
      | none ↦ advanced w (advance_iteration w.db d.run.id)
    ]

abbrev pub failed_pass : World → String → Db × Result Run → World × Turn
failed_pass w id (db, err _) = (record w { db = db }, ended (inl (pass_failed id)))
failed_pass w id (db, ok _) =
    (emit_status id failed (record w { db = db }), ended (inl (pass_failed id)))

abbrev pub settled :
    Rounds → IterationPolicy → World → String → Db × Option RunDetail → World × Turn
settled rs p w id (db, none) =
    failed_pass (record w { db = db }) id (set_run_status db rs.now id failed)
settled rs p w id (db, some d) = after_pass rs p (record w { db = db }) d

abbrev pub run_pass : Rounds → IterationPolicy → ℕ → World → Run → World × Turn
run_pass rs p n w r =
    if rs.prepared n
    then settled rs p w r.id (rs.start w.db r.id)
    else (w, ended (inl (round_unprepared r.id)))

-- A round from the caps that the run already has.
unfoldable pub checked_round : Rounds → IterationPolicy → ℕ → World → Run → World × Turn
unfolding pre_cap after_pass trigger_cap
checked_round rs p n w r = elim (get_run w.db r.id) [
  | none ↦ (w, ended (inl (run_missing r.id)))
  | some d ↦ elim (pre_cap p d r) [
    | some reason ↦ turned (trigger_cap rs w r reason (settled_rounds d r) false)
    | none ↦ run_pass rs p n w r
  ]
]

abbrev pub anchored_round :
    Rounds → IterationPolicy → ℕ → World × (IterateError ⊎ Run) → World × Turn
anchored_round rs p n (w, inl e) = (w, ended (inl e))
anchored_round rs p n (w, inr r) = checked_round rs p n w r

-- The body of the loop; `n` counts the rounds of this call.
unfoldable pub one_round : Rounds → IterationPolicy → ℕ → World → Run → World × Turn
unfolding anchor_run checked_round
one_round rs p n w r =
    if is_terminal_run r.status
    then (w, ended (inl (run_closed r.id r.status)))
    else anchored_round rs p n (anchor_run rs n w r)

-- `for (;;)`; none: out of fuel.
unfoldable pub iterate_loop :
    ℕ → Rounds → IterationPolicy → ℕ → World → Run → Option (World × (IterateError ⊎ IterateResult))
unfolding one_round
iterate_loop zero rs p n w r = none
iterate_loop (suc f) rs p n w r =
    let t = one_round rs p n w r in
    elim t.1 [ ended x ↦ some (t.0, x) | again r' ↦ iterate_loop f rs p (suc n) t.0 r' ]
