-- ===== src/Watchdog/Rounds.antt =====
-- One inspection of a preparing run, by its bookkeeping.
use teskra.Base.{
  String, ℕ, ◌+◌, true, false, Option, none, some, [], ◌∷◌, ◌++◌, includes, lookup,
  lookup-insert_self, leb, nat_eq, ◌≡◌, refl, ap, ◌∙◌, arith, inl, inr, Bool-cases,
}
use teskra.Watchdog.{
  preparing, AgentRun, WatchdogConfig, preparing_timeout, stop_requested, stalled, Watchdog,
  conflict, conflicts_of, preparing_silence, is_below, check_preparing, preparing_answered,
  check_idle, inspect_run_watchdog, ask, count_conflict, emit,
}
use teskra.Watchdog.Ticks.{settle, inspect_run}
use teskra.Watchdog.Counts.{
  is_stop, is_stall, count_events, count_events-append, eq_self, includes-add_id,
}

-- What an inspection of a preparing run leaves to the later ones.
pub record Left (w v : Watchdog) : Type 0 where
  pub told : v.events ≡ w.events
  pub counted : v.preparing_conflicts ≡ w.preparing_conflicts
  pub escalated : v.preparing_escalated ≡ w.preparing_escalated

pub idle-Left :
    (w : Watchdog) (run : AgentRun) (config : WatchdogConfig) (now : ℕ)
    → run.status ≡ preparing
    → Left w (check_idle w run config now)
unfolding check_idle inspect_run_watchdog
idle-Left w run config now p = elim (Bool-cases (nat_eq config.idle_timeout_ms 0)) [
  | inl off ↦ rw (off) (record { told = refl; counted = refl; escalated = refl })
  | inr on ↦ rw (on, p) (record { told = refl; counted = refl; escalated = refl })
]

-- An inspection of a run that timed out, by its bookkeeping.
abbrev pub asked : Watchdog → AgentRun → ℕ → Watchdog
asked w run now =
    emit (stop_requested run.id)
      (emit (preparing_timeout run.id (preparing_silence now run.updated_at)) w)

module _ (w : Watchdog) (run : AgentRun) (config : WatchdogConfig) (now : ℕ)
    (p : run.status ≡ preparing)
    (late : is_below (preparing_silence now run.updated_at) config.preparing_timeout_ms
      ≡ false) where
  pub check-passed :
      includes w.preparing_escalated run.id ≡ true
      → settle (check_preparing w run config now) run now conflict ≡ w
  unfolding check_preparing
  check-passed e = rw (p, late, e) refl

  pub check_preparing-asked :
      includes w.preparing_escalated run.id ≡ false
      → check_preparing w run config now ≡ (asked w run now, true)
  unfolding check_preparing
  check_preparing-asked e = rw (p, late, e) refl

  pub check-asked :
      includes w.preparing_escalated run.id ≡ false
      → settle (check_preparing w run config now) run now conflict
        ≡ count_conflict run.id (preparing_silence now run.updated_at) (asked w run now)
  unfolding preparing_answered
  check-asked e = ap (λ x. settle x run now conflict) (check_preparing-asked e)

abbrev pub count_or_none : Option ℕ → ℕ
count_or_none none = 0
count_or_none (some n) = n

-- Conflicts below the limit are counted.
pub count_conflict-counted :
    (id : String) (silent : Option ℕ) (w : Watchdog)
    → leb 3 (conflicts_of w id + 1) ≡ false
    → let v = count_conflict id silent w in
      (v.events ≡ w.events)
      × (conflicts_of v id ≡ conflicts_of w id + 1)
      × (v.preparing_escalated ≡ w.preparing_escalated)
count_conflict-counted id silent w h = rw (h) (
  refl,
  ap count_or_none (lookup-insert_self id (conflicts_of w id + 1) w.preparing_conflicts),
  refl,
)

-- The last one ends the attempts.
pub count_conflict-escalates :
    (id : String) (silent : Option ℕ) (w : Watchdog)
    → leb 3 (conflicts_of w id + 1) ≡ true
    → let v = count_conflict id silent w in
      (v.events ≡ w.events ++ stalled id silent ask ∷ [])
      × (includes v.preparing_escalated id ≡ true)
count_conflict-escalates id silent w h = rw (h) (refl, includes-add_id id w.preparing_escalated)

-- The counts of one run.
pub record Gains (run : AgentRun) (w v : Watchdog) (stops stalls : ℕ) : Type 0 where
  pub stops_gained :
      count_events (is_stop run.id) v.events ≡ count_events (is_stop run.id) w.events + stops
  pub stalls_gained :
      count_events (is_stall run.id) v.events ≡ count_events (is_stall run.id) w.events + stalls

pub asked-Gains : (w : Watchdog) (run : AgentRun) (now : ℕ) → Gains run w (asked w run now) 1 0
asked-Gains w run now =
    let first = preparing_timeout run.id (preparing_silence now run.updated_at) in
    let second = stop_requested run.id in
    let same = eq_self run.id in
    record {
      stops_gained =
          let a = count_events-append (is_stop run.id) w.events first in
          let b = count_events-append (is_stop run.id) (w.events ++ first ∷ []) second in
          rw (b, a, same) (omega arith);
      stalls_gained =
          let a = count_events-append (is_stall run.id) w.events first in
          let b = count_events-append (is_stall run.id) (w.events ++ first ∷ []) second in
          rw (b, a) (omega arith);
    }

pub Gains-same : (run : AgentRun) {w v : Watchdog} → v.events ≡ w.events → Gains run w v 0 0
Gains-same run {w} {v} e = record {
  stops_gained = ap (count_events (is_stop run.id)) e ∙ omega arith;
  stalls_gained = ap (count_events (is_stall run.id)) e ∙ omega arith;
}

pub Gains-trans :
    (run : AgentRun) {w v u : Watchdog} {a b c d : ℕ}
    → Gains run w v a b
    → Gains run v u c d
    → Gains run w u (a + c) (b + d)
Gains-trans run f g =
    let p = f.stops_gained in
    let q = g.stops_gained in
    let r = f.stalls_gained in
    let t = g.stalls_gained in record { stops_gained = omega arith; stalls_gained = omega arith }

pub stall-Gains :
    (run : AgentRun) (silent : Option ℕ) {w v : Watchdog}
    → v.events ≡ w.events ++ stalled run.id silent ask ∷ []
    → Gains run w v 0 1
stall-Gains run silent {w} {v} e =
    let last = stalled run.id silent ask in
    record {
      stops_gained =
          ap (count_events (is_stop run.id)) e ∙ count_events-append (is_stop run.id) w.events last;
      stalls_gained =
          let n = count_events-append (is_stall run.id) w.events last in
          let same = eq_self run.id in ap (count_events (is_stall run.id)) e ∙ rw (n, same) refl;
    }

module _ (w : Watchdog) (run : AgentRun) (config : WatchdogConfig) (now : ℕ)
    (p : run.status ≡ preparing)
    (late : is_below (preparing_silence now run.updated_at) config.preparing_timeout_ms
      ≡ false) where
  pub inspect_run-passed :
      includes w.preparing_escalated run.id ≡ true
      → Gains run w (inspect_run w run config now conflict) 0 0
        × (includes (inspect_run w run config now conflict).preparing_escalated run.id ≡ true)
  unfolding inspect_run
  inspect_run-passed e =
      let settled = check-passed w run config now p late e in
      let left =
        idle-Left (settle (check_preparing w run config now) run now conflict) run config now p in
      (
        Gains-same run (left.told ∙ ap (λ x. x.events) settled),
        ap (λ x. includes x run.id) (left.escalated ∙ ap (λ x. x.preparing_escalated) settled) ∙ e,
      )

  pub inspect_run-counted :
      includes w.preparing_escalated run.id ≡ false
      → leb 3 (conflicts_of w run.id + 1) ≡ false
      → Gains run w (inspect_run w run config now conflict) 1 0
        × (conflicts_of (inspect_run w run config now conflict) run.id ≡ conflicts_of w run.id + 1)
        × (includes (inspect_run w run config now conflict).preparing_escalated run.id ≡ false)
  unfolding inspect_run
  inspect_run-counted e h =
      let settled = check-asked w run config now p late e in
      let left =
        idle-Left (settle (check_preparing w run config now) run now conflict) run config now p in
      let (told, counted, kept) =
        count_conflict-counted run.id (preparing_silence now run.updated_at) (asked w run now) h in
      (
        Gains-trans run (asked-Gains w run now)
            (Gains-same run (left.told ∙ ap (λ x. x.events) settled ∙ told)),
        ap (λ x. count_or_none (lookup run.id x)) left.counted
            ∙ ap (λ x. conflicts_of x run.id) settled
            ∙ counted,
        ap (λ x. includes x run.id)
              (left.escalated ∙ ap (λ x. x.preparing_escalated) settled ∙ kept)
            ∙ e,
      )

  pub inspect_run-escalates :
      includes w.preparing_escalated run.id ≡ false
      → leb 3 (conflicts_of w run.id + 1) ≡ true
      → Gains run w (inspect_run w run config now conflict) 1 1
        × (includes (inspect_run w run config now conflict).preparing_escalated run.id ≡ true)
  unfolding inspect_run
  inspect_run-escalates e h =
      let silent = preparing_silence now run.updated_at in
      let settled = check-asked w run config now p late e in
      let left =
        idle-Left (settle (check_preparing w run config now) run now conflict) run config now p in
      let (told, kept) = count_conflict-escalates run.id silent (asked w run now) h in
      (
        Gains-trans run (asked-Gains w run now)
            (stall-Gains run silent (left.told ∙ ap (λ x. x.events) settled ∙ told)),
        ap (λ x. includes x run.id) (left.escalated ∙ ap (λ x. x.preparing_escalated) settled)
            ∙ kept,
      )
