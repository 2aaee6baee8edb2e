-- ===== src/Watchdog/Preparing.antt =====
-- The watch over one preparing run: how often it is asked to stop, and when its stall is told.
use teskra.Base.{
  ℕ, suc, ◌+◌, true, false, zero, List, [], ◌∷◌, length, includes, leb, ◌≡◌, refl, subst, arith,
}
use teskra.Watchdog.{
  preparing, AgentRun, WatchdogConfig, Watchdog, conflict, conflicts_of, preparing_silence,
  is_below,
}
use teskra.Watchdog.Ticks.{inspect_run}
use teskra.Watchdog.Counts.{bit, is_stop, is_stall, count_events, least}
use teskra.Watchdog.Rounds.{
  Gains, Gains-same, Gains-trans, inspect_run-passed, inspect_run-counted, inspect_run-escalates,
}

-- The run is looked at again and again, and every answer is a conflict.
abbrev pub inspections : Watchdog → AgentRun → WatchdogConfig → List ℕ → Watchdog
inspections w run config [] = w
inspections w run config (now ∷ nows) =
    inspections (inspect_run w run config now conflict) run config nows

abbrev pub TimedOut : AgentRun → WatchdogConfig → List ℕ → Type 0
TimedOut run config [] = ℕ
TimedOut run config (now ∷ nows) =
    (is_below (preparing_silence now run.updated_at) config.preparing_timeout_ms ≡ false)
    × TimedOut run config nows

passed-Gains :
    (run : AgentRun) (config : WatchdogConfig) (p : run.status ≡ preparing) (nows : List ℕ)
    (w : Watchdog)
    → TimedOut run config nows
    → includes w.preparing_escalated run.id ≡ true
    → Gains run w (inspections w run config nows) 0 0
passed-Gains run config p [] w late e = Gains-same run refl
passed-Gains run config p (now ∷ nows) w (l, late) e =
    let (gains, still) = inspect_run-passed w run config now p l e in
    Gains-trans run gains
      (passed-Gains run config p nows (inspect_run w run config now conflict) late still)

Gains-to :
    (run : AgentRun) {w v : Watchdog} {a b c d : ℕ}
    → Gains run w v a b
    → a ≡ c
    → b ≡ d
    → Gains run w v c d
Gains-to run {w} {v} {a} {b} {c} {d} g p q =
    subst (λ x. Gains run w v x d) p (subst (λ x. Gains run w v a x) q g)

open-Gains :
    (run : AgentRun) (config : WatchdogConfig) (p : run.status ≡ preparing) (nows : List ℕ)
    (w : Watchdog) (left : ℕ)
    → TimedOut run config nows
    → includes w.preparing_escalated run.id ≡ false
    → conflicts_of w run.id + suc left ≡ 3
    → Gains run w
        (inspections w run config nows)
        (least (suc left) (length nows))
        (bit (leb (suc left) (length nows)))
open-Gains run config p [] w left late e c =
    Gains-to run (Gains-same run refl) (ground arith) (ground arith)
open-Gains run config p (now ∷ nows) w zero (l, late) e c =
    let (gains, still) = inspect_run-escalates w run config now p l e (ground arith) in
    let rest = passed-Gains run config p nows (inspect_run w run config now conflict) late still in
    Gains-to run (Gains-trans run gains rest) (ground arith) (ground arith)
open-Gains run config p (now ∷ nows) w (suc left) (l, late) e c =
    let (gains, more, still) = inspect_run-counted w run config now p l e (ground arith) in
    let rest =
      open-Gains run config p nows (inspect_run w run config now conflict) left late still
        (omega arith) in
    Gains-to run (Gains-trans run gains rest) (ground arith) (ground arith)

-- A preparing run that stays past its timeout, that was not given up and has no conflict counted, and
-- whose every answer is a conflict, is asked to stop in each of the first three inspections and never
-- after; its stall is told once, with the third.
pub inspections-stop_thrice :
    (w : Watchdog) (run : AgentRun) (config : WatchdogConfig) (nows : List ℕ)
    → run.status ≡ preparing
    → TimedOut run config nows
    → includes w.preparing_escalated run.id ≡ false
    → conflicts_of w run.id ≡ 0
    → let v = inspections w run config nows in
      (count_events (is_stop run.id) v.events
        ≡ count_events (is_stop run.id) w.events + least 3 (length nows))
      × (count_events (is_stall run.id) v.events
          ≡ count_events (is_stall run.id) w.events + bit (leb 3 (length nows)))
inspections-stop_thrice w run config nows p late e c =
    let g = open-Gains run config p nows w 2 late e (omega arith) in
    (g.stops_gained, g.stalls_gained)
