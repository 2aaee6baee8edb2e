-- ===== src/Workflow/Iterate/Caps.antt =====
-- A run that is taken up again meets the cap that it already has.
use teskra.Base.{
  String, eq_iff, ◌≡◌, refl, ap, ◌∙◌, ℕ, ◌<◌, ◌≤◌, true, false, Option, none, some, arith,
}
use teskra.Workflow.Types.{Run, needs_user_review}
use teskra.Workflow.Repository.{Db, get_run_by_id, update_runs, patch_run, list_steps}
use teskra.Workflow.Store.{
  Result, ok, err, RunDetail, set_run_status, status_patch, is_terminal_run, get_run,
}
use teskra.Workflow.Store.Rows.{find-update_runs}
use teskra.Workflow.Iterate.{
  IterationPolicy, StopReason, cap_per_version, World, Rounds, same_anchor, resolve_criteria_anchor,
  trigger_cap, capped, turned, anchor_run,
}
use teskra.Workflow.Iterate.Loop.{pre_cap, settled_rounds, one_round, checked_round}
use teskra.Workflow.Iterate.Bounded.{Current, patched-Current}

abbrev parked : Rounds → Db → Run → Db
parked rs db r = record db {
  runs = update_runs r.id (status_patch rs.now needs_user_review) db.runs;
}

set_run_status-parks :
    (rs : Rounds) (db : Db) (r : Run)
    → Current db r
    → set_run_status db rs.now r.id needs_user_review
      ≡ (parked rs db r, ok (patch_run (status_patch rs.now needs_user_review) r))
unfolding set_run_status
set_run_status-parks rs db r held =
    rw (held, set_run_status)
      (ground (
        arith,
        find-update_runs r.id r.id (status_patch rs.now needs_user_review) db.runs,
        eq_iff r.id r.id,
      ))

capped-db :
    (rs : Rounds) (reason : StopReason) (rounds : ℕ) (task : Option String) (w : World)
    (a : Db × Result Run)
    → (capped rs reason rounds task w a).0.db ≡ a.0
capped-db rs reason rounds task w (db, err e) = refl
capped-db rs reason rounds none w (db, ok r) = refl
capped-db rs reason rounds (some t) w (db, ok r) = ground arith

trigger_cap-db :
    (rs : Rounds) (w : World) (r : Run) (reason : StopReason) (rounds : ℕ)
    → Current w.db r
    → (trigger_cap rs w r reason rounds false).0.db ≡ parked rs w.db r
unfolding trigger_cap
trigger_cap-db rs w r reason rounds held =
    capped-db rs reason rounds r.task_id (record w { db = w.db })
      (set_run_status w.db rs.now r.id needs_user_review)
    ∙ ap (λ y. y.0) (set_run_status-parks rs w.db r held)

pre_cap-hit :
    (p : IterationPolicy) (d : RunDetail) (r : Run)
    → 0 < r.current_iteration
    → p.max_rounds_per_criteria_version ≤ r.criteria_iteration
    → pre_cap p d r ≡ some cap_per_version
unfolding pre_cap
pre_cap-hit p d r begun spent = ground arith

-- A run with settled rounds that has used up the rounds of its criteria, while the criteria are the
-- same: taking it up again starts no pass. The run waits for the user's review, its iteration is the
-- same, and no step is written.
one_round-parks :
    (rs : Rounds) (p : IterationPolicy) (n : ℕ) (w : World) (r : Run)
    → Current w.db r
    → is_terminal_run r.status ≡ false
    → same_anchor r.criteria_set_id (resolve_criteria_anchor (rs.sets n)) ≡ true
    → 0 < r.current_iteration
    → p.max_rounds_per_criteria_version ≤ r.criteria_iteration
    → (r' : Run) × (get_run_by_id (one_round rs p n w r).0.db r.id ≡ some r')
      × (r'.status ≡ needs_user_review)
      × (r'.current_iteration ≡ r.current_iteration)
      × ((one_round rs p n w r).0.db.steps ≡ w.db.steps)
unfolding one_round anchor_run checked_round patch_run get_run
one_round-parks rs p n w r held free same begun spent =
    let d : RunDetail = record { run = r; steps = list_steps w.db r.id } in
    let found : get_run w.db r.id ≡ some d = rw (held, get_run) refl in
    let turn : one_round rs p n w r
        ≡ turned (trigger_cap rs w r cap_per_version (settled_rounds d r) false) =
      rw (one_round, free, anchor_run, same, checked_round, found, pre_cap-hit p d r begun spent)
        refl in
    let db : (one_round rs p n w r).0.db ≡ parked rs w.db r =
      ap (λ y. y.0.db) turn ∙ trigger_cap-db rs w r cap_per_version (settled_rounds d r) held in
    (
      patch_run (status_patch rs.now needs_user_review) r,
      rw db (patched-Current w.db r (status_patch rs.now needs_user_review) held),
      refl,
      refl,
      rw db refl,
    )
