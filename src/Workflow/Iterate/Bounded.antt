-- ===== src/Workflow/Iterate/Bounded.antt =====
-- The loop of rounds ends: a round that goes on counts itself, and stays under the limit of rounds.
use teskra.Workflow.Store.Iterations.{advance_iteration-refused, advance_iteration-free}
use teskra.Base.{
  String, eq_iff, ◌≡◌, refl, sym, ap, ◌∙◌, subst, ℕ, zero, suc, ◌+◌, ◌<◌, false, ◌||◌, ◌⊎◌, inl,
  inr, Option, none, some, Option-cases, Bool-cases, arith,
}
use teskra.Workflow.Types.{Run, completed, failed}
use teskra.Workflow.Repository.{Db, get_run_by_id, update_runs, patch_run, RunPatch}
use teskra.Workflow.Store.{
  Result, ok, err, RunDetail, advance_iteration, anchor_criteria_set, set_run_status,
  is_terminal_run, advance_patch, anchor_patch, at_limit, get_run,
}
use teskra.Workflow.Store.Rows.{find-update_runs}
use teskra.Workflow.Iterate.{
  IterationPolicy, IterateResult, IterateError, World, Rounds, Turn, ended, again, anchor_run,
  reanchored, same_anchor, resolve_criteria_anchor, approves,
}
use teskra.Workflow.Iterate.Loop.{
  pre_cap, post_cap, advanced, passed_run, is_cancelled, after_pass, failed_pass, settled, run_pass,
  checked_round, anchored_round, one_round, iterate_loop,
}

-- The run that the loop holds is the row of the table.
abbrev pub Current : Db → Run → Type 0
Current db r = get_run_by_id db r.id ≡ some r

pub patched-Current :
    (db : Db) (r : Run) (p : RunPatch)
    → Current db r
    → Current (record db { runs = update_runs r.id p db.runs }) (patch_run p r)
unfolding patch_run
patched-Current db r p held = ground (arith, find-update_runs r.id r.id p db.runs, eq_iff r.id r.id)

advance_iteration-counts :
    (db : Db) (r r' : Run)
    → Current db r
    → (advance_iteration db r.id).1 ≡ ok r'
    → (r'.current_iteration ≡ suc r.current_iteration) × Current (advance_iteration db r.id).0 r'
unfolding patch_run
advance_iteration-counts db r r' held h =
    elim (Bool-cases (is_terminal_run r.status || at_limit r)) [
      | inl t ↦ let e = advance_iteration-refused db r.id r held t in absurd (ground arith)
      | inr u ↦
          let e = advance_iteration-free db r.id r held u in
          let same : patch_run (advance_patch r) r ≡ r' = ground arith in
          let kept = patched-Current db r (advance_patch r) held in
          (rw⁻¹ same (omega arith), rw e (rw⁻¹ same kept))
    ]

anchor_criteria_set-free :
    (db : Db) (r : Run) (set : Option String)
    → Current db r
    → is_terminal_run r.status ≡ false
    → anchor_criteria_set db r.id set ≡ (
      record db { runs = update_runs r.id (anchor_patch set) db.runs },
      ok (patch_run (anchor_patch set) r),
    )
unfolding anchor_criteria_set
anchor_criteria_set-free db r set held free =
    let kept = patched-Current db r (anchor_patch set) held in
    rw (held, anchor_criteria_set)
      (ground (arith, find-update_runs r.id r.id (anchor_patch set) db.runs, eq_iff r.id r.id))

-- What the loop asks of the engine: where a pass settles with a run, that is the row of the run, of
-- which the pass has changed neither the id nor the number of the iteration.
abbrev pub Keeps : Rounds → Type 0
Keeps rs =
    (db : Db) (r : Run) (d : RunDetail)
    → Current db r
    → (rs.start db r.id).1 ≡ some d
    → (d.run.current_iteration ≡ r.current_iteration) × Current (rs.start db r.id).0 d.run

-- A turn that goes on from a run at iteration `i`, under a policy.
Goes : IterationPolicy → ℕ → World × Turn → Type 0
Goes p i t =
    (r' : Run)
    → t.1 ≡ again r'
    → (r'.current_iteration ≡ suc i) × (suc i < p.max_total_rounds) × Current t.0.db r'

ended-Goes :
    (p : IterationPolicy) (i : ℕ) (w : World) (x : IterateError ⊎ IterateResult)
    → Goes p i (w, ended x)
unfolding Goes
ended-Goes p i w x r' h = absurd (cc)

advanced-Goes :
    (p : IterationPolicy) (w : World) (r : Run)
    → Current w.db r
    → suc r.current_iteration < p.max_total_rounds
    → (a : Db × Result Run) → advance_iteration w.db r.id ≡ a
    → Goes p r.current_iteration (advanced w a)
unfolding Goes
advanced-Goes p w r held under (db, err e) same r' h = absurd (cc)
advanced-Goes p w r held under (db, ok x) same r' h =
    let e : x ≡ r' = ground arith in
    let (counts, current) = advance_iteration-counts w.db r x held (ap (λ y. y.1) same) in
    (rw⁻¹ e counts, under, rw⁻¹ e (subst (λ y. Current y.0 x) same current))

passed_run-Goes :
    (p : IterationPolicy) (i : ℕ) (w : World) (rounds : ℕ) (a : Db × Result Run)
    → Goes p i (passed_run w rounds a)
passed_run-Goes p i w rounds (db, err e) = ended-Goes p i _ _
passed_run-Goes p i w rounds (db, ok r) = ended-Goes p i _ _

failed_pass-Goes :
    (p : IterationPolicy) (i : ℕ) (w : World) (id : String) (a : Db × Result Run)
    → Goes p i (failed_pass w id a)
failed_pass-Goes p i w id (db, err e) = ended-Goes p i _ _
failed_pass-Goes p i w id (db, ok r) = ended-Goes p i _ _

post_cap-none :
    (p : IterationPolicy) (r : Run)
    → post_cap p r ≡ none
    → suc r.current_iteration < p.max_total_rounds
unfolding post_cap
post_cap-none p r h = ground arith

after_pass-Goes :
    (rs : Rounds) (p : IterationPolicy) (w : World) (d : RunDetail)
    → Current w.db d.run
    → Goes p d.run.current_iteration (after_pass rs p w d)
unfolding after_pass
after_pass-Goes rs p w d held = elim (Bool-cases (is_cancelled d.run.status)) [
  | inl t ↦ rw (after_pass, t) (ended-Goes p _ _ _)
  | inr u ↦ elim (Bool-cases (approves d)) [
    | inl t ↦
        rw (after_pass, u, t)
          (passed_run-Goes p _ w (d.run.current_iteration + 1)
            (set_run_status w.db rs.now d.run.id completed))
    | inr v ↦ elim (Option-cases (post_cap p d.run)) [
      | inr (reason, cap) ↦ rw (after_pass, u, v, cap) (ended-Goes p _ _ _)
      | inl free ↦
          rw (after_pass, u, v, free)
            (advanced-Goes p w d.run held (post_cap-none p d.run free) _ refl)
    ]
  ]
]

Turn-cases :
    (t : Turn) → ((x : IterateError ⊎ IterateResult) × (t ≡ ended x)) ⊎ ((r : Run) × (t ≡ again r))
Turn-cases (ended x) = inl (x, refl)
Turn-cases (again r) = inr (r, refl)

module _ (rs : Rounds) (p : IterationPolicy) (keeps : Keeps rs) where
  settled-Goes :
      (w : World) (r : Run) (x : Db × Option RunDetail)
      → Current w.db r
      → rs.start w.db r.id ≡ x
      → Goes p r.current_iteration (settled rs p w r.id x)
  settled-Goes w r (db, none) held e =
      failed_pass-Goes p r.current_iteration (record w { db = db }) r.id
        (set_run_status db rs.now r.id failed)
  settled-Goes w r (db, some d) held e =
      let (same, current) = keeps w.db r d held (ap (λ y. y.1) e) in
      let here : Current db d.run = subst (λ y. Current y.0 d.run) e current in
      subst (λ i. Goes p i (after_pass rs p (record w { db = db }) d)) same
        (after_pass-Goes rs p (record w { db = db }) d here)

  run_pass-Goes :
      (n : ℕ) (w : World) (r : Run)
      → Current w.db r
      → Goes p r.current_iteration (run_pass rs p n w r)
  run_pass-Goes n w r held = elim (Bool-cases (rs.prepared n)) [
    | inl t ↦ rw t (settled-Goes w r (rs.start w.db r.id) held refl)
    | inr u ↦ rw u (ended-Goes p _ _ _)
  ]

  checked_round-Goes :
      (n : ℕ) (w : World) (r : Run)
      → Current w.db r
      → Goes p r.current_iteration (checked_round rs p n w r)
  unfolding checked_round
  checked_round-Goes n w r held = elim (Option-cases (get_run w.db r.id)) [
    | inl missing ↦ rw (checked_round, missing) (ended-Goes p _ _ _)
    | inr (d, found) ↦ elim (Option-cases (pre_cap p d r)) [
      | inr (reason, cap) ↦ rw (checked_round, found, cap) (ended-Goes p _ _ _)
      | inl free ↦ rw (checked_round, found, free) (run_pass-Goes n w r held)
    ]
  ]

  reanchored-Goes :
      (n : ℕ) (w : World) (r : Run) (set : Option String) (a : Db × Result Run)
      → Current w.db r
      → is_terminal_run r.status ≡ false
      → anchor_criteria_set w.db r.id set ≡ a
      → Goes p r.current_iteration (anchored_round rs p n (reanchored w a))
  unfolding patch_run
  reanchored-Goes n w r set (db, err e) held free same = ended-Goes p _ _ _
  reanchored-Goes n w r set (db, ok r1) held free same =
      let e = anchor_criteria_set-free w.db r set held free in
      let one : patch_run (anchor_patch set) r ≡ r1 = ground arith in
      let two : record w.db { runs = update_runs r.id (anchor_patch set) w.db.runs } ≡ db =
        ap (λ y. y.0) (sym e ∙ same) in
      let current : Current db r1 =
        subst (λ y. Current y r1) two
          (subst (Current (record w.db { runs = update_runs r.id (anchor_patch set) w.db.runs }))
            one (patched-Current w.db r (anchor_patch set) held)) in
      let iteration : r1.current_iteration ≡ r.current_iteration =
        ap (λ (y : Run). y.current_iteration) (sym one) in
      subst (λ i. Goes p i (checked_round rs p n (record w { db = db }) r1)) iteration
        (checked_round-Goes n (record w { db = db }) r1 current)

  one_round-Goes :
      (n : ℕ) (w : World) (r : Run)
      → Current w.db r
      → Goes p r.current_iteration (one_round rs p n w r)
  unfolding one_round anchor_run
  one_round-Goes n w r held = elim (Bool-cases (is_terminal_run r.status)) [
    | inl t ↦ rw (one_round, t) (ended-Goes p _ _ _)
    | inr free ↦
        elim (Bool-cases (same_anchor r.criteria_set_id (resolve_criteria_anchor (rs.sets n)))) [
          | inl t ↦ rw (one_round, free, anchor_run, t) (checked_round-Goes n w r held)
          | inr u ↦
              rw (one_round, free, anchor_run, u)
                (reanchored-Goes n w r (resolve_criteria_anchor (rs.sets n)) _ held free refl)
        ]
  ]

  -- The loop of rounds returns: on fuel of one more than the rounds that the limit still leaves, and
  -- on one at least, with an engine whose passes keep the number of the iteration.
  pub iterate_loop-returns :
      (f n : ℕ) (w : World) (r : Run)
      → Current w.db r
      → 0 < f
      → p.max_total_rounds < f + r.current_iteration
      → (w' : World) × (x : IterateError ⊎ IterateResult) × (iterate_loop f rs p n w r
          ≡ some (w', x))
  unfolding iterate_loop Goes
  iterate_loop-returns zero n w r held some_fuel enough = absurd (omega (arith, some_fuel))
  iterate_loop-returns (suc f) n w r held some_fuel enough =
      elim (Turn-cases (one_round rs p n w r).1) [
        | inl (x, e) ↦ ((one_round rs p n w r).0, x, rw (iterate_loop, e) refl)
        | inr (r', e) ↦
            let (counts, under, current) = one_round-Goes n w r held r' e in
            let (w', x, ends) =
              iterate_loop-returns f (suc n) (one_round rs p n w r).0 r' current
                (omega (arith, counts, under, enough)) (omega (arith, counts, under, enough)) in
            (w', x, rw (iterate_loop, e) ends)
      ]
