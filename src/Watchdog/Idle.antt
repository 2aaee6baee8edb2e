-- ===== src/Watchdog/Idle.antt =====
-- The watch over one silent run: what consecutive checks tell of it.
use teskra.Base.{
  ℕ, suc, ◌+◌, not, true, false, List, [], ◌∷◌, length, includes, ◌≡◌, refl, sym, ap, ◌∙◌, subst,
  arith,
}
use teskra.Watchdog.{
  AgentRun, WatchdogConfig, IdleAction, ask, stop, Watchdog, inspection, idle_found, check_idle,
}
use teskra.Watchdog.Counts.{is_stop, is_stall, count_events, is_decision}
use teskra.Watchdog.Episodes.{
  stops_of, decisions_of, Tells, Tells-none, Tells-trans, Tells-to, idle_found-first,
  idle_found-later, InEpisode, first-InEpisode, later-InEpisode, check_idle-found,
}

abbrev pub idle_checks : Watchdog → AgentRun → WatchdogConfig → List ℕ → Watchdog
idle_checks w run config [] = w
idle_checks w run config (now ∷ nows) = idle_checks (check_idle w run config now) run config nows

-- At each of these times the run counts as stalled, by what is known at the start.
abbrev pub IsSilent : Watchdog → AgentRun → WatchdogConfig → List ℕ → Type 0
IsSilent w run config [] = ℕ
IsSilent w run config (now ∷ nows) =
    ((inspection w run config now).possibly_stalled ≡ true) × IsSilent w run config nows

IsSilent-to :
    (run : AgentRun) (config : WatchdogConfig) (nows : List ℕ) (w v : Watchdog)
    → v.noted_activity ≡ w.noted_activity
    → IsSilent w run config nows
    → IsSilent v run config nows
IsSilent-to run config [] w v e s = s
IsSilent-to run config (now ∷ nows) w v e (h, s) = (
  ap (λ x. (inspection (record w { noted_activity = x }) run config now).possibly_stalled) e ∙ h,
  IsSilent-to run config nows w v e s,
)

later-check :
    (run : AgentRun) (config : WatchdogConfig) (now : ℕ) (w : Watchdog)
    → (inspection w run config now).possibly_stalled ≡ true
    → includes w.stalled_notified run.id ≡ true
    → Tells run w (check_idle w run config now) 0 (stops_of config.idle_action 1) 0
      × InEpisode run w (check_idle w run config now)
later-check run config now w l h =
    let silent = (inspection w run config now).silent_for_ms in
    let found =
      check_idle-found w run config now l
      ∙ ap (λ x. idle_found (not x) config.idle_action w run.id silent) h in
    (
      subst (λ v. Tells run w v 0 (stops_of config.idle_action 1) 0) (sym found)
          (idle_found-later config.idle_action run w silent),
      subst (InEpisode run w) (sym found) (later-InEpisode config.idle_action run w silent h),
    )

first-check :
    (run : AgentRun) (config : WatchdogConfig) (now : ℕ) (w : Watchdog)
    → (inspection w run config now).possibly_stalled ≡ true
    → includes w.stalled_notified run.id ≡ false
    → Tells run w
        (check_idle w run config now)
        1
        (stops_of config.idle_action 1)
        (decisions_of config.idle_action w.has_decisions 1)
      × InEpisode run w (check_idle w run config now)
first-check run config now w l h =
    let silent = (inspection w run config now).silent_for_ms in
    let found =
      check_idle-found w run config now l
      ∙ ap (λ x. idle_found (not x) config.idle_action w run.id silent) h in
    (
      subst
          (λ v.
            Tells run w v 1 (stops_of config.idle_action 1)
              (decisions_of config.idle_action w.has_decisions 1))
          (sym found) (idle_found-first config.idle_action run w silent),
      subst (InEpisode run w) (sym found) (first-InEpisode config.idle_action run w silent),
    )

stops_of-suc :
    (action : IdleAction) (n : ℕ) → stops_of action 1 + stops_of action n ≡ stops_of action (suc n)
stops_of-suc ask n = refl
stops_of-suc stop n = omega arith

stops_of_zero : (action : IdleAction) → 0 ≡ stops_of action 0
stops_of_zero ask = refl
stops_of_zero stop = refl

later-Tells :
    (run : AgentRun) (config : WatchdogConfig) (nows : List ℕ) (w : Watchdog)
    → IsSilent w run config nows
    → includes w.stalled_notified run.id ≡ true
    → Tells run w (idle_checks w run config nows) 0 (stops_of config.idle_action (length nows)) 0
later-Tells run config [] w s h =
    Tells-to run (Tells-none run w) refl (stops_of_zero config.idle_action) refl
later-Tells run config (now ∷ nows) w (l, s) h =
    let (tells, ep) = later-check run config now w l h in
    let v = check_idle w run config now in
    let rest =
      later-Tells run config nows v (IsSilent-to run config nows w v ep.noted_before s)
        ep.is_notified in
    Tells-to run (Tells-trans run tells rest) refl (stops_of-suc config.idle_action (length nows))
      refl

-- Over consecutive checks that all find a run silent which was not told as stalled before, with no
-- activity noted between them, its stall is told once, one decision is opened where the action is to ask
-- and there is a decision service, and a stop is asked for in every check where the action is to stop.
pub idle_checks-tell_once :
    (w : Watchdog) (run : AgentRun) (config : WatchdogConfig) (now : ℕ) (nows : List ℕ)
    → IsSilent w run config (now ∷ nows)
    → includes w.stalled_notified run.id ≡ false
    → let v = idle_checks w run config (now ∷ nows) in
      (count_events (is_stall run.id) v.events ≡ count_events (is_stall run.id) w.events + 1)
      × (count_events (is_stop run.id) v.events
          ≡ count_events (is_stop run.id) w.events
            + stops_of config.idle_action (suc (length nows)))
      × (count_events (is_decision run.id) v.events
          ≡ count_events (is_decision run.id) w.events
            + decisions_of config.idle_action w.has_decisions 1)
idle_checks-tell_once w run config now nows (l, s) h =
    let (tells, ep) = first-check run config now w l h in
    let v = check_idle w run config now in
    let rest =
      later-Tells run config nows v (IsSilent-to run config nows w v ep.noted_before s)
        ep.is_notified in
    let all =
      Tells-to run (Tells-trans run tells rest) refl (stops_of-suc config.idle_action (length nows))
        (omega arith) in
    (all.stalls_told, all.stops_told, all.decisions_told)
