-- ===== src/Watchdog/Tests.antt =====
-- Runs of the watchdog.
use teskra.Base.{String, ℕ, true, false, ◌≡◌, refl, List, [], ◌∷◌, Option, none, some}
use teskra.Watchdog.{
  RunStatus, running, preparing, waiting_for_user, AgentRun, WatchdogConfig, ask, Watchdog,
  StopAnswer, conflict, is_watched, is_listed, inspect_run_watchdog, check_preparing, check_idle,
  preparing_answered, note_activity, acknowledge_idle, decision_resolved, drop_bookkeeping,
  begin_tick, end_tick, dispose,
}
use teskra.Watchdog.Ticks.{inspect_run, inspect, tick}
use teskra.Watchdog.Counts.{count_events, is_stop, is_stall, is_decision}
use teskra.Watchdog.Preparing.{inspections, inspections-stop_thrice}
use teskra.Watchdog.Idle.{idle_checks, idle_checks-tell_once}

abbrev fresh : Watchdog
fresh = record {
  preparing_conflicts = [];
  preparing_escalated = [];
  stalled_notified = [];
  noted_activity = [];
  has_decisions = true;
  ticking = false;
  disposed = false;
  events = [];
}

abbrev run_in : RunStatus → AgentRun
run_in status = record {
  id = "run";
  workspace_id = "w";
  status = status;
  created_at = some 0;
  updated_at = some 1000;
  started_at = none;
  last_output_at = none;
  last_input_at = none;
}

abbrev config : WatchdogConfig
config = record { preparing_timeout_ms = 60000; idle_timeout_ms = 5000; idle_action = ask }

abbrev five_ticks : List ℕ
five_ticks = 70000 ∷ 85000 ∷ 100000 ∷ 115000 ∷ 130000 ∷ []

inspections-stop_thrice_example :
    (count_events (is_stop "run") (inspections fresh (run_in preparing) config five_ticks).events
      ≡ 3)
    × (count_events (is_stall "run") (inspections fresh (run_in preparing) config five_ticks).events
        ≡ 1)
inspections-stop_thrice_example =
    inspections-stop_thrice fresh (run_in preparing) config five_ticks refl
      (refl, (refl, (refl, (refl, (refl, 0))))) refl refl

idle_checks-tell_once_example :
    (count_events
        (is_stall "run")
        (idle_checks fresh (run_in running) config (6000 ∷ 21000 ∷ [])).events
      ≡ 1)
    × (count_events
          (is_stop "run")
          (idle_checks fresh (run_in running) config (6000 ∷ 21000 ∷ [])).events
        ≡ 0)
    × (count_events
          (is_decision "run")
          (idle_checks fresh (run_in running) config (6000 ∷ 21000 ∷ [])).events
        ≡ 1)
unfolding inspect_run_watchdog
idle_checks-tell_once_example =
    idle_checks-tell_once fresh (run_in running) config 6000 (21000 ∷ []) (refl, (refl, 0)) refl

-- A run that waits for its user is watched for silence, and is not in the list that a tick goes through.
waiting_run_unseen : (is_watched waiting_for_user ≡ true) × (is_listed waiting_for_user ≡ false)
waiting_run_unseen = (refl, refl)

abbrev config_of : String → Option WatchdogConfig
config_of workspace = some config

abbrev answer_of : String → StopAnswer
answer_of run = conflict

-- A tick while the last one is in flight does nothing, and neither does one after the end.
tick-in_flight :
    tick (record fresh { ticking = true }) none config_of answer_of 0
    ≡ record fresh { ticking = true }
unfolding tick begin_tick
tick-in_flight = refl

tick-after_dispose : tick (dispose fresh) none config_of answer_of 0 ≡ dispose fresh
unfolding tick begin_tick dispose
tick-after_dispose = refl

-- The bookkeeping of a run that left the list goes with it.
tick-forgets :
    (tick
      (record fresh { stalled_notified = "gone" ∷ [] })
      (some (run_in preparing ∷ []))
      config_of
      answer_of
      70000).stalled_notified
    ≡ []
unfolding tick begin_tick end_tick inspect inspect_run check_preparing preparing_answered check_idle
    inspect_run_watchdog drop_bookkeeping
tick-forgets = refl

-- The user lets a silent run go on; it is told again when it stays silent.
keep_waiting_renews :
    (decision_resolved
      (record fresh { stalled_notified = "run" ∷ [] })
      "keep_waiting"
      "run"
      7000
      true).stalled_notified
    ≡ []
unfolding decision_resolved acknowledge_idle
keep_waiting_renews = refl

note_activity_renews :
    (note_activity (record fresh { stalled_notified = "run" ∷ [] }) "run" 7000).stalled_notified
    ≡ []
unfolding note_activity
note_activity_renews = refl
