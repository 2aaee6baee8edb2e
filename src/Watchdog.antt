-- ===== src/Watchdog.antt =====
-- apps/desktop/src/main/agents/run-watchdog-service.ts, with inspectRunWatchdog of
-- packages/shared/src/index.ts. A time stamp is its milliseconds; none: it does not parse. A check ends
-- where it awaits failAndStop, and what the answer does is a call of its own, so that other calls may
-- come between. A failure that is only logged leaves no trace.
pub mod Ticks
pub mod Counts
pub mod Rounds
pub mod Preparing
pub mod Episodes
pub mod Idle
pub mod Tests
use teskra.Base.{
  remove, add_id, delete_id, String, ◌==◌, ℕ, suc, ◌+◌, ◌-◌, Bool, true, false, not, ◌&&◌, ◌||◌,
  List, [], ◌∷◌, ◌++◌, map, Option, none, some, keep, includes, lookup, insert, leb, ltb, nat_eq,
  if◌then◌else◌,
}

pub data RunStatus : Type 0 where
  created queued preparing running waiting_for_user waiting_for_permission : RunStatus
  waiting_for_agent reviewing completed failed cancelled interrupted : RunStatus

abbrev pub Stamp : Type 0
Stamp = Option ℕ

pub record AgentRun : Type 0 where
  pub id : String
  pub workspace_id : String
  pub status : RunStatus
  pub created_at : Stamp
  pub updated_at : Stamp
  pub started_at : Option Stamp
  pub last_output_at : Option Stamp
  pub last_input_at : Option Stamp

-- `WATCHDOG_ACTIVE_STATUSES`
abbrev pub is_watched : RunStatus → Bool
is_watched running = true
is_watched waiting_for_user = true
is_watched waiting_for_permission = true
is_watched waiting_for_agent = true
is_watched reviewing = true
is_watched _ = false

-- The statuses of `listActive`.
abbrev pub is_listed : RunStatus → Bool
is_listed running = true
is_listed preparing = true
is_listed queued = true
is_listed _ = false

pub record Inspection : Type 0 where
  pub possibly_stalled : Bool
  pub silent_for_ms : ℕ

abbrev pub silence : ℕ → Stamp → ℕ
silence now none = 0
silence now (some at) = now - at

abbrev pub or_stamp : Option Stamp → Stamp → Stamp
or_stamp none s = s
or_stamp (some s) _ = s

unfoldable pub inspect_run_watchdog :
    RunStatus
    → (created_at : Stamp) → (started_at last_output_at : Option Stamp) → (now threshold : ℕ)
    → Inspection
inspect_run_watchdog status created_at started_at last_output_at now threshold =
    let silent = silence now (or_stamp last_output_at (or_stamp started_at created_at)) in
    record {
      possibly_stalled = is_watched status && leb 1000 threshold && leb threshold silent;
      silent_for_ms = silent;
    }

-- `latestTimestamp`: an earlier value stays where a later one is not after it.
abbrev pub later_of : Option Stamp → Option Stamp → Option Stamp
later_of old none = old
later_of old (some none) = old
later_of (some (some a)) (some (some b)) = if ltb a b then some (some b) else some (some a)
later_of _ (some (some b)) = some (some b)

abbrev pub latest_timestamp : Option Stamp → List (Option Stamp) → Option Stamp
latest_timestamp old [] = old
latest_timestamp old (s ∷ ss) = latest_timestamp (later_of old s) ss

pub data IdleAction : Type 0 where
  ask stop : IdleAction

pub record WatchdogConfig : Type 0 where
  pub preparing_timeout_ms : ℕ
  pub idle_timeout_ms : ℕ
  pub idle_action : IdleAction

pub data Event : Type 0 where
  preparing_timeout : (run_id : String) → (silent : Option ℕ) → Event
  idle_noticed : (run_id : String) → (silent : ℕ) → Event
  stalled : (run_id : String) → (silent : Option ℕ) → IdleAction → Event
  decision_opened : (run_id : String) → (silent : ℕ) → Event
  stop_requested : (run_id : String) → Event
  listeners_called : (now : ℕ) → Event

pub record Watchdog : Type 0 where
  pub preparing_conflicts : List (String × ℕ)
  pub preparing_escalated : List String
  pub stalled_notified : List String
  pub noted_activity : List (String × ℕ)
  pub has_decisions : Bool
  pub ticking : Bool
  pub disposed : Bool
  pub events : List Event

abbrev pub emit : Event → Watchdog → Watchdog
emit e w = record w { events = w.events ++ e ∷ [] }

unfoldable pub note_activity : Watchdog → (run_id : String) → (now : ℕ) → Watchdog
note_activity w run_id now = if w.disposed then w else record w {
  noted_activity = insert run_id now w.noted_activity;
  stalled_notified = delete_id run_id w.stalled_notified;
}

-- `Math.max(0, nowMs - Date.parse(updatedAt))`; none: NaN, which is less than nothing.
abbrev pub preparing_silence : ℕ → Stamp → Option ℕ
preparing_silence now none = none
preparing_silence now (some at) = some (now - at)

abbrev pub is_below : Option ℕ → ℕ → Bool
is_below none limit = false
is_below (some silent) limit = ltb silent limit

abbrev pub is_preparing : RunStatus → Bool
is_preparing preparing = true
is_preparing _ = false

-- `checkPreparing` up to its await, and whether failAndStop was called.
unfoldable pub check_preparing : Watchdog → AgentRun → WatchdogConfig → (now : ℕ) → Watchdog × Bool
check_preparing w run config now =
    if not (is_preparing run.status)
    then (w, false)
    else if is_below (preparing_silence now run.updated_at) config.preparing_timeout_ms
    then (w, false)
    else if includes w.preparing_escalated run.id
    then (w, false)
    else (
      emit (stop_requested run.id)
          (emit (preparing_timeout run.id (preparing_silence now run.updated_at)) w),
      true,
    )

pub data StopAnswer : Type 0 where
  stopped conflict stop_failed : StopAnswer

abbrev pub conflicts_of : Watchdog → String → ℕ
conflicts_of w run_id = elim (lookup run_id w.preparing_conflicts) [ none ↦ 0 | some n ↦ n ]

abbrev pub forget_conflicts : String → Watchdog → Watchdog
forget_conflicts run_id w = record w { preparing_conflicts = remove run_id w.preparing_conflicts }

abbrev pub max_preparing_conflicts : ℕ
max_preparing_conflicts = 3

abbrev pub escalate : String → Option ℕ → Watchdog → Watchdog
escalate run_id silent w = emit (stalled run_id silent ask) (record (forget_conflicts run_id w) {
  preparing_escalated = add_id run_id w.preparing_escalated;
})

abbrev pub count_conflict : String → Option ℕ → Watchdog → Watchdog
count_conflict run_id silent w =
    let conflicts = conflicts_of w run_id + 1 in
    let counted : Watchdog = record w {
      preparing_conflicts = insert run_id conflicts w.preparing_conflicts;
    } in
    if leb max_preparing_conflicts conflicts then escalate run_id silent counted else counted

-- What checkPreparing does with the answer of failAndStop.
unfoldable pub preparing_answered :
    Watchdog → (run_id : String) → (silent : Option ℕ) → StopAnswer → Watchdog
preparing_answered w run_id silent stopped = forget_conflicts run_id w
preparing_answered w run_id silent stop_failed = forget_conflicts run_id w
preparing_answered w run_id silent conflict = count_conflict run_id silent w

abbrev pub noted : Watchdog → String → Option Stamp
noted w run_id = elim (lookup run_id w.noted_activity) [ none ↦ none | some at ↦ some (some at) ]

abbrev pub inspection : Watchdog → AgentRun → WatchdogConfig → ℕ → Inspection
inspection w run config now =
    inspect_run_watchdog run.status run.created_at run.started_at
      (latest_timestamp none (run.last_output_at ∷ run.last_input_at ∷ noted w run.id ∷ [])) now
      config.idle_timeout_ms

abbrev pub notify : Watchdog → String → ℕ → IdleAction → Watchdog
notify w run_id silent action = emit (stalled run_id (some silent) action) (
    emit (idle_noticed run_id silent)
      (record w { stalled_notified = add_id run_id w.stalled_notified }))

abbrev pub open_where : Bool → String → ℕ → Watchdog → Watchdog
open_where true run_id silent w = emit (decision_opened run_id silent) w
open_where false run_id silent w = w

abbrev pub open_stalled_run : String → ℕ → Watchdog → Watchdog
open_stalled_run run_id silent w = open_where w.has_decisions run_id silent w

-- A run that is found silent: `first` where this is the first time of the episode.
abbrev pub idle_found : Bool → IdleAction → Watchdog → String → ℕ → Watchdog
idle_found true ask w run_id silent = open_stalled_run run_id silent (notify w run_id silent ask)
idle_found false ask w run_id silent = w
idle_found true stop w run_id silent = emit (stop_requested run_id) (notify w run_id silent stop)
idle_found false stop w run_id silent = emit (stop_requested run_id) w

-- `checkIdle`; the answer of failAndStop is only logged.
unfoldable pub check_idle : Watchdog → AgentRun → WatchdogConfig → (now : ℕ) → Watchdog
unfolding inspect_run_watchdog
check_idle w run config now =
    let seen = inspection w run config now in
    if nat_eq config.idle_timeout_ms 0
    then w
    else if seen.possibly_stalled
    then idle_found (not (includes w.stalled_notified run.id)) config.idle_action w run.id
        seen.silent_for_ms
    else record w { stalled_notified = delete_id run.id w.stalled_notified }

abbrev pub entry_seen : List String → String × ℕ → Bool
entry_seen seen (id, n) = includes seen id

-- The end of `inspect`: what is kept about runs that are no longer active is dropped.
unfoldable pub drop_bookkeeping : Watchdog → (seen : List String) → Watchdog
drop_bookkeeping w seen = record w {
  preparing_conflicts = keep (entry_seen seen) w.preparing_conflicts;
  preparing_escalated = keep (includes seen) w.preparing_escalated;
  stalled_notified = keep (includes seen) w.stalled_notified;
  noted_activity = keep (entry_seen seen) w.noted_activity;
}

-- `tick`: none: another tick is in flight, or the service is disposed.
unfoldable pub begin_tick : Watchdog → Option Watchdog
begin_tick w = if w.disposed || w.ticking then none else some (record w { ticking = true })

unfoldable pub end_tick : Watchdog → (now : ℕ) → Watchdog
end_tick w now = emit (listeners_called now) (record w { ticking = false })

-- `acknowledgeIdle`, by whether the row was there to be updated.
unfoldable pub acknowledge_idle :
    Watchdog → (run_id : String) → (now : ℕ) → (updated : Bool) → Watchdog
acknowledge_idle w run_id now updated =
    if updated
    then record w {
      noted_activity = insert run_id now w.noted_activity;
      stalled_notified = delete_id run_id w.stalled_notified;
    }
    else w

-- The handler of `stalled_run` decisions.
unfoldable pub decision_resolved :
    Watchdog → (option_id : String) → (run_id : String) → (now : ℕ) → (updated : Bool) → Watchdog
unfolding acknowledge_idle
decision_resolved w option_id run_id now updated =
    if option_id == "stop"
    then emit (stop_requested run_id) w
    else if option_id == "keep_waiting"
    then acknowledge_idle w run_id now updated
    else w

unfoldable pub dispose : Watchdog → Watchdog
dispose w = record w { disposed = true }
