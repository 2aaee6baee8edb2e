-- ===== src/Watchdog/Episodes.antt =====
-- One check of a silent run, by whether its stall was told.
use teskra.Base.{ℕ, ◌+◌, not, Bool, true, false, some, includes, nat_eq, ◌≡◌, refl, ap, arith}
use teskra.Watchdog.{
  AgentRun, WatchdogConfig, IdleAction, ask, stop, Event, idle_noticed, stop_requested, stalled,
  decision_opened, Watchdog, inspection, notify, open_where, idle_found, check_idle,
  inspect_run_watchdog, emit, add_id,
}
use teskra.Watchdog.Counts.{
  bit, is_stop, is_stall, count_events, count_events-append, eq_self, includes-add_id, is_decision,
}

abbrev pub stops_of : IdleAction → ℕ → ℕ
stops_of ask n = 0
stops_of stop n = n

abbrev pub decisions_of : IdleAction → Bool → ℕ → ℕ
decisions_of ask true n = n
decisions_of ask false n = 0
decisions_of stop has n = 0

pub record Tells (run : AgentRun) (w v : Watchdog) (stalls stops decisions : ℕ) : Type 0 where
  pub stalls_told :
      count_events (is_stall run.id) v.events ≡ count_events (is_stall run.id) w.events + stalls
  pub stops_told :
      count_events (is_stop run.id) v.events ≡ count_events (is_stop run.id) w.events + stops
  pub decisions_told :
      count_events (is_decision run.id) v.events
      ≡ count_events (is_decision run.id) w.events + decisions

pub Tells-none : (run : AgentRun) (w : Watchdog) → Tells run w w 0 0 0
Tells-none run w = record {
  stalls_told = omega arith;
  stops_told = omega arith;
  decisions_told = omega arith;
}

pub Tells-trans :
    (run : AgentRun) {w v u : Watchdog} {a b c d e f : ℕ}
    → Tells run w v a b c
    → Tells run v u d e f
    → Tells run w u (a + d) (b + e) (c + f)
Tells-trans run g h =
    let p = g.stalls_told in
    let q = h.stalls_told in
    let r = g.stops_told in
    let t = h.stops_told in
    let x = g.decisions_told in
    let y = h.decisions_told in
    record { stalls_told = omega arith; stops_told = omega arith; decisions_told = omega arith }

-- One more event.
pub emit-Tells :
    (run : AgentRun) (w : Watchdog) (e : Event)
    → Tells run w (emit e w) (is_stall run.id e) (is_stop run.id e) (is_decision run.id e)
emit-Tells run w e = record {
  stalls_told = count_events-append (is_stall run.id) w.events e;
  stops_told = count_events-append (is_stop run.id) w.events e;
  decisions_told = count_events-append (is_decision run.id) w.events e;
}

pub Tells-to :
    (run : AgentRun) {w v : Watchdog} {a b c d e f : ℕ}
    → Tells run w v a b c
    → a ≡ d
    → b ≡ e
    → c ≡ f
    → Tells run w v d e f
Tells-to run g p q r =
    let x = g.stalls_told in
    let y = g.stops_told in
    let z = g.decisions_told in
    record { stalls_told = omega arith; stops_told = omega arith; decisions_told = omega arith }

pub notify-Tells :
    (run : AgentRun) (w : Watchdog) (silent : ℕ) (action : IdleAction)
    → Tells run w (notify w run.id silent action) 1 0 0
notify-Tells run w silent action =
    let marked : Watchdog = record w { stalled_notified = add_id run.id w.stalled_notified } in
    let first = emit-Tells run marked (idle_noticed run.id silent) in
    let second =
      emit-Tells run (emit (idle_noticed run.id silent) marked)
        (stalled run.id (some silent) action) in
    let one = ap bit (eq_self run.id) in
    let start : Tells run w marked 0 0 0 = record {
      stalls_told = omega arith;
      stops_told = omega arith;
      decisions_told = omega arith;
    } in
    Tells-to run (Tells-trans run start (Tells-trans run first second)) (omega arith) (omega arith)
      (omega arith)

pub stop-Tells :
    (run : AgentRun) (w : Watchdog) → Tells run w (emit (stop_requested run.id) w) 0 1 0
stop-Tells run w =
    Tells-to run (emit-Tells run w (stop_requested run.id)) refl (ap bit (eq_self run.id)) refl

pub open-Tells :
    (run : AgentRun) (w : Watchdog) (silent : ℕ) (has : Bool)
    → Tells run w (open_where has run.id silent w) 0 0 (decisions_of ask has 1)
open-Tells run w silent true =
    Tells-to run (emit-Tells run w (decision_opened run.id silent)) refl refl
      (ap bit (eq_self run.id))
open-Tells run w silent false = Tells-none run w

-- The first check of an episode, and a later one.
pub idle_found-first :
    (action : IdleAction) (run : AgentRun) (w : Watchdog) (silent : ℕ)
    → Tells run w
        (idle_found true action w run.id silent)
        1
        (stops_of action 1)
        (decisions_of action w.has_decisions 1)
idle_found-first ask run w silent =
    let opened = open-Tells run (notify w run.id silent ask) silent w.has_decisions in
    Tells-to run (Tells-trans run (notify-Tells run w silent ask) opened) refl refl (omega arith)
idle_found-first stop run w silent =
    Tells-trans run (notify-Tells run w silent stop) (stop-Tells run (notify w run.id silent stop))

pub idle_found-later :
    (action : IdleAction) (run : AgentRun) (w : Watchdog) (silent : ℕ)
    → Tells run w (idle_found false action w run.id silent) 0 (stops_of action 1) 0
idle_found-later ask run w silent = Tells-none run w
idle_found-later stop run w silent = stop-Tells run w

-- What the checks of an episode keep.
pub record InEpisode (run : AgentRun) (w v : Watchdog) : Type 0 where
  pub noted_before : v.noted_activity ≡ w.noted_activity
  pub decides_before : v.has_decisions ≡ w.has_decisions
  pub is_notified : includes v.stalled_notified run.id ≡ true

pub open-InEpisode :
    (run : AgentRun) (w : Watchdog) (silent : ℕ) (has : Bool)
    → includes w.stalled_notified run.id ≡ true
    → InEpisode run w (open_where has run.id silent w)
open-InEpisode run w silent true h = record {
  noted_before = refl;
  decides_before = refl;
  is_notified = h;
}
open-InEpisode run w silent false h = record {
  noted_before = refl;
  decides_before = refl;
  is_notified = h;
}

pub first-InEpisode :
    (action : IdleAction) (run : AgentRun) (w : Watchdog) (silent : ℕ)
    → InEpisode run w (idle_found true action w run.id silent)
first-InEpisode ask run w silent =
    let g =
      open-InEpisode run (notify w run.id silent ask) silent w.has_decisions
        (includes-add_id run.id w.stalled_notified) in
    record {
      noted_before = g.noted_before;
      decides_before = g.decides_before;
      is_notified = g.is_notified;
    }
first-InEpisode stop run w silent = record {
  noted_before = refl;
  decides_before = refl;
  is_notified = includes-add_id run.id w.stalled_notified;
}

pub later-InEpisode :
    (action : IdleAction) (run : AgentRun) (w : Watchdog) (silent : ℕ)
    → includes w.stalled_notified run.id ≡ true
    → InEpisode run w (idle_found false action w run.id silent)
later-InEpisode ask run w silent h = record {
  noted_before = refl;
  decides_before = refl;
  is_notified = h;
}
later-InEpisode stop run w silent h = record {
  noted_before = refl;
  decides_before = refl;
  is_notified = h;
}

-- A check that finds the run silent.
pub check_idle-found :
    (w : Watchdog) (run : AgentRun) (config : WatchdogConfig) (now : ℕ)
    → (inspection w run config now).possibly_stalled ≡ true
    → check_idle w run config now
      ≡ idle_found
          (not (includes w.stalled_notified run.id))
          config.idle_action
          w
          run.id
          (inspection w run config now).silent_for_ms
unfolding check_idle inspect_run_watchdog
check_idle-found w run config now h =
    let on : nat_eq config.idle_timeout_ms 0 ≡ false = ground arith in rw (on, h) refl
