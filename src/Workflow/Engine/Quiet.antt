-- ===== src/Workflow/Engine/Quiet.antt =====
-- `schedule` always returns, and leaves no node that could be started or skipped.
use teskra.Base.{
  String, ◌==◌, ◌≡◌, refl, sym, ap, ◌∙◌, subst, ℕ, zero, suc, ◌+◌, ◌≤◌, ◌<◌, Bool, true, false, not,
  ◌⊎◌, ◌||◌, inl, inr, List, [], ◌∷◌, Option, none, some, Option-cases, Bool-cases, length, lookup,
  all, ◌&&◌, eq_iff, if◌then◌else◌, arith, In, here, there, any, any-false,
}
use teskra.Workflow.Types.{Run}
use teskra.Workflow.Repository.{Db}
use teskra.Workflow.Store.{Result, ok, err, get_run, set_run_status}
use teskra.Workflow.Types.{waiting}
use teskra.Workflow.Engine.{Engine, Pass, State, Spawn}
use teskra.Workflow.Engine.Schedule.{
  is_due, visit, round, rounds, keys, schedule, finish_pass, finish_waiting, finish_if_over, over,
  unregister, is_terminal_entry, due_at,
}
use teskra.Workflow.Engine.Counting.{waiting_in, count_open-length}
use teskra.Workflow.Engine.Moves.{Returns, Moves, visit-Moves}

-- No node is due: one that still waits has a dependency that is not terminal.
pub IsQuiet : State → Type 0
IsQuiet s = any (due_at s.1.nodes) (keys s.1.nodes) ≡ false

-- What a run of the scheduler from `s` comes to.
unfoldable pub Settles : State → Option State → Type 0
Settles s o =
    (s' : State) × (o ≡ some s')
    × (waiting_in s' ≤ waiting_in s)
    × (s'.1.cancelling ≡ s.1.cancelling)
    × IsQuiet s'

Settles-from :
    (s s' : State) (o : Option State)
    → waiting_in s' ≤ waiting_in s
    → s'.1.cancelling ≡ s.1.cancelling
    → Settles s' o
    → Settles s o
unfolding Settles
Settles-from s s' o less same (r, e, le, keeps, quiet) =
    (r, e, omega (arith, less, le), keeps ∙ same, quiet)

Idle : State → String → Type 0
Idle s id = due_at s.1.nodes id ≡ false

Moves-trans :
    (s s' : State) (o : Option (Bool × State))
    → 1 + waiting_in s' ≤ waiting_in s
    → s'.1.cancelling ≡ s.1.cancelling
    → Moves s' o
    → Moves s o
unfolding Moves
Moves-trans s s' o less same (r, e, le, keeps) = (r, e, omega (arith, less, le), keeps ∙ same)

module _ (sp : Spawn) (f : ℕ) (sched : State → Option State)
    (returns : (s : State)
      → s.1.cancelling ≡ false
      → waiting_in s < f
      → Returns 0 s (sched s)) where
  visit_cases :
      (s : State) (id : String)
      → s.1.cancelling ≡ false
      → waiting_in s < suc f
      → ((visit sp sched id s ≡ some (false, s)) × Idle s id) ⊎ Moves s (visit sp sched id s)
  unfolding visit Idle
  visit_cases s id going enough = elim (Option-cases (lookup id s.1.nodes)) [
    | inl missing ↦ inl (rw (visit, missing) refl, (ground arith))
    | inr (ns, found) ↦ elim (Bool-cases (is_due s.1.nodes ns)) [
      | inl due ↦ inr (visit-Moves sp f sched returns s id ns found due going enough)
      | inr idle ↦ inl (rw (visit, found, idle) refl, (ground arith))
    ]
  ]

  -- A round leaves the state as it was, with no node of the list due, or it moves.
  round_cases :
      (ids : List String) (progressed : Bool) (s : State)
      → s.1.cancelling ≡ false
      → waiting_in s < suc f
      → ((round (visit sp sched) ids progressed s ≡ some (progressed, s))
          × ((id : String) → In id ids → Idle s id))
        ⊎ Moves s (round (visit sp sched) ids progressed s)
  unfolding round Moves
  round_cases [] progressed s going enough = inl (refl, λ id m. elim m [ ])
  round_cases (id ∷ ids) progressed s going enough = elim (visit_cases s id going enough) [
    | inl (e, idle) ↦
        rw (round, e)
          (elim (round_cases ids progressed s going enough) [
            | inl (e', idles) ↦ inl (e', teskra.Base.In-cons_all (Idle s) id ids idle idles)
            | inr m ↦ inr m
          ])
    | inr (s', e, less, keeps) ↦
        rw (round, e)
          (inr (elim (round_cases ids true s' (keeps ∙ going) (omega (arith, less, enough))) [
            | inl (e', _) ↦ (s', e', less, keeps)
            | inr m ↦ Moves-trans s s' _ less keeps m
          ]))
  ]

  rounds-IsQuiet :
      (n : ℕ) (s : State)
      → s.1.cancelling ≡ false
      → waiting_in s < suc f
      → waiting_in s < n
      → Settles s (rounds n (visit sp sched) s)
  unfolding rounds Settles IsQuiet Idle Moves
  rounds-IsQuiet zero s going enough rest = absurd (omega (arith, rest))
  rounds-IsQuiet (suc n) s going enough rest =
      elim (round_cases (keys s.1.nodes) false s going enough) [
        | inl (e, idle) ↦
            rw (rounds, e)
              (s, refl, omega arith, refl, any-false (due_at s.1.nodes) (keys s.1.nodes) idle)
        | inr (s', e, less, keeps) ↦
            let going' : s'.1.cancelling ≡ false = keeps ∙ going in
            rw (rounds, e, going')
              (Settles-from s s' _ (omega (arith, less)) keeps (
                rounds-IsQuiet n s' going' (omega (arith, less, enough))
                  (omega (arith, less, rest))))
      ]

-- The end of a pass writes to the store, and to no node.
finish_waiting-nodes :
    (e : Engine) (p : Pass) (r : Db × Result Run)
    → ((finish_waiting e p r).1.nodes ≡ p.nodes)
      × ((finish_waiting e p r).1.cancelling ≡ p.cancelling)
finish_waiting-nodes e p (db, err x) = (refl, refl)
finish_waiting-nodes e p (db, ok r) = elim (Option-cases (get_run db p.run_id)) [
  | inl h ↦ rw h (refl, refl)
  | inr (d, h) ↦ rw h (refl, refl)
]

pub finish_if_over-nodes :
    (now : String) (s : State)
    → ((finish_if_over now s).1.nodes ≡ s.1.nodes)
      × ((finish_if_over now s).1.cancelling ≡ s.1.cancelling)
unfolding finish_pass
finish_if_over-nodes now s =
    elim (Bool-cases (not s.1.cancelling && all is_terminal_entry s.1.nodes)) [
      | inl t ↦ rw t (
          finish_waiting-nodes (unregister s) s.1
            (set_run_status (unregister s).db now s.1.run_id waiting))
      | inr u ↦ rw u (refl, refl)
    ]

over-Settles : (now : String) (s : State) (o : Option State) → Settles s o → Settles s (over now o)
unfolding Settles IsQuiet
over-Settles now s o (s', e, less, keeps, quiet) =
    let (same, kept) = finish_if_over-nodes now s' in
    (finish_if_over now s', ap (over now) e, rw same less, kept ∙ keeps, rw same quiet)

pub Settles-Returns : (s : State) (o : Option State) → Settles s o → Returns 0 s o
unfolding Settles Returns
Settles-Returns s o (s', e, less, keeps, quiet) = (s', e, omega (arith, less), keeps)

schedule-going :
    (f : ℕ) (sp : Spawn) (s : State)
    → s.1.cancelling ≡ false
    → schedule (suc f) sp s
      ≡ over sp.now (rounds (suc (length s.1.nodes)) (visit sp (schedule f sp)) s)
unfolding schedule
schedule-going f sp s going = ground arith

-- With more fuel than there are nodes that wait, `schedule` on a pass that is not being cancelled
-- returns; then no node is due, so that each that still waits has a dependency that is not terminal,
-- and no more nodes wait than before.
pub schedule-IsQuiet :
    (f : ℕ) (sp : Spawn) (s : State)
    → s.1.cancelling ≡ false
    → waiting_in s < f
    → Settles s (schedule f sp s)
schedule-IsQuiet zero sp s going enough = absurd (omega (arith, enough))
schedule-IsQuiet (suc f) sp s going enough = subst (Settles s) (sym (schedule-going f sp s going)) (
    over-Settles sp.now s _ (
      rounds-IsQuiet sp f (schedule f sp)
        (λ t g n. Settles-Returns t _ (schedule-IsQuiet f sp t g n)) (suc (length s.1.nodes)) s
        going enough (let bound = count_open-length s.1.nodes in omega (arith, bound))))
