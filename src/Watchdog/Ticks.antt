-- ===== src/Watchdog/Ticks.antt =====
-- apps/desktop/src/main/agents/run-watchdog-service.ts: the two checks of a run, `inspect` and `tick`,
-- where nothing comes between the steps. The answers of failAndStop are an argument.
use teskra.Base.{String, ℕ, Bool, true, false, List, [], ◌∷◌, map, Option, none, some}
use teskra.Watchdog.{
  AgentRun, WatchdogConfig, Watchdog, StopAnswer, preparing_silence, check_preparing,
  preparing_answered, check_idle, drop_bookkeeping, begin_tick, end_tick,
}

-- The rest of checkPreparing, where it asked for a stop.
abbrev pub settle : Watchdog × Bool → AgentRun → (now : ℕ) → StopAnswer → Watchdog
settle (w, false) run now answer = w
settle (w, true) run now answer =
    preparing_answered w run.id (preparing_silence now run.updated_at) answer

unfoldable pub inspect_run :
    Watchdog → AgentRun → WatchdogConfig → (now : ℕ) → StopAnswer → Watchdog
inspect_run w run config now answer =
    check_idle (settle (check_preparing w run config now) run now answer) run config now

-- A run whose config does not resolve is passed over.
abbrev pub inspect_configured :
    Watchdog → AgentRun → Option WatchdogConfig → ℕ → StopAnswer → Watchdog
inspect_configured w run none now answer = w
inspect_configured w run (some config) now answer = inspect_run w run config now answer

abbrev pub inspect_runs :
    (config_of : String → Option WatchdogConfig)
    → (answer_of : String → StopAnswer) → (now : ℕ) → Watchdog
    → List AgentRun
    → Watchdog
inspect_runs config_of answer_of now w [] = w
inspect_runs config_of answer_of now w (run ∷ runs) =
    inspect_runs config_of answer_of now
      (inspect_configured w run (config_of run.workspace_id) now (answer_of run.id)) runs

abbrev run_id_of : AgentRun → String
run_id_of run = run.id

-- `listed` none: the runs could not be listed.
unfoldable pub inspect :
    Watchdog
    → (listed : Option (List AgentRun)) → (config_of : String → Option WatchdogConfig)
    → (answer_of : String → StopAnswer) → (now : ℕ) → Watchdog
inspect w none config_of answer_of now = w
inspect w (some runs) config_of answer_of now =
    drop_bookkeeping (inspect_runs config_of answer_of now w runs) (map run_id_of runs)

abbrev tick_begun : Watchdog → Option Watchdog → (Watchdog → Watchdog) → ℕ → Watchdog
tick_begun w none f now = w
tick_begun w (some begun) f now = end_tick (f begun) now

unfoldable pub tick :
    Watchdog
    → (listed : Option (List AgentRun)) → (config_of : String → Option WatchdogConfig)
    → (answer_of : String → StopAnswer) → (now : ℕ) → Watchdog
tick w listed config_of answer_of now =
    tick_begun w (begin_tick w) (λ v. inspect v listed config_of answer_of now) now
