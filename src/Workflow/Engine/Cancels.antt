-- ===== src/Workflow/Engine/Cancels.antt =====
-- What `cancel` leaves of a pass.
use teskra.Workflow.Store.{RunDetail, get_run, set_run_status, is_terminal_run}
use teskra.Base.{
  ◌⊎◌, ◌++◌, String, ◌==◌, eq_iff, ◌≡◌, refl, ap, ◌∙◌, subst, Bool, true, false, ◌||◌, List, [],
  ◌∷◌, Option, none, some, Option-cases, Bool-cases, inl, inr, lookup, insert, includes,
  lookup-insert, arith, all, In-includes, all_intro,
}
use teskra.Workflow.Types.{Step, StepStatus, StepResult, cancelled, Run, RunStatus}
use teskra.Workflow.Engine.{
  EngineError, unknown_run, NodeState, Engine, Pass, State, put, transition,
}
use teskra.Workflow.Engine.Schedule.{keys, settle_with_detail, unregister}
use teskra.Workflow.Engine.Counting.{transition-Stepped}
use teskra.Workflow.Engine.Calls.{withdraw, withdraw_all, close_run, cancel}

abbrev pub terminal_at : List (String × NodeState) → String → Bool
terminal_at nodes id = elim (lookup id nodes) [ some ns ↦ ns.terminal | none ↦ true ]

insert-terminal_at :
    (id j : String) (ns : NodeState) (nodes : List (String × NodeState))
    → ns.terminal ≡ true
    → terminal_at (insert id ns nodes) j ≡ (id == j || terminal_at nodes j)
insert-terminal_at id j ns nodes t = ground (arith, lookup-insert id j ns nodes)

-- A node that is put as terminal, and moved or not, is terminal; the others stay as they were.
module _ (now : String) (s : State) (id j : String) (ns : NodeState) (to : StepStatus)
    (result : Option StepResult) where
  transition-terminal_at :
      ns.terminal ≡ true
      → terminal_at (transition now (put id ns s) id ns to result).0.1.nodes j
        ≡ (id == j || terminal_at s.1.nodes j)
  transition-terminal_at t = elim (transition-Stepped now s.0 (put id ns s).1 id ns to result) [
    | inl (_, same) ↦ rw same (insert-terminal_at id j ns s.1.nodes t)
    | inr (st, _, _, same) ↦
        let one = insert-terminal_at id j ns s.1.nodes t in
        let two = insert-terminal_at id j (record ns { step = st }) (insert id ns s.1.nodes) t in
        rw same (ground arith)
  ]

withdraw-terminal_at :
    (now : String) (s : State) (id j : String)
    → terminal_at (withdraw now id s).1.nodes j ≡ (id == j || terminal_at s.1.nodes j)
withdraw-terminal_at now s id j = elim (Option-cases (lookup id s.1.nodes)) [
  | inl missing ↦ elim (Bool-cases (id == j)) [
    | inl t ↦
        let e : id ≡ j = (eq_iff id j).0 t in
        let none_j : lookup j s.1.nodes ≡ none = subst (λ x. lookup x s.1.nodes ≡ none) e missing in
        ground arith
    | inr u ↦ ground arith
  ]
  | inr (ns, found) ↦ elim (Bool-cases ns.terminal) [
    | inl over ↦ elim (Bool-cases (id == j)) [
      | inl t ↦
          let e : id ≡ j = (eq_iff id j).0 t in
          let at_j : lookup j s.1.nodes ≡ some ns =
            subst (λ x. lookup x s.1.nodes ≡ some ns) e found in
          ground arith
      | inr u ↦ ground arith
    ]
    | inr live ↦
        let ns' : NodeState = record ns { terminal = true; activates_edges = false } in
        let e =
          transition-terminal_at now s id j ns' cancelled (some (("reason", "run-cancelled") ∷ []))
            refl in
        rw (withdraw, found, live) e
  ]
]

-- `cancel` goes over the nodes of a pass: then each of them is terminal, whatever the store answers.
pub withdraw_all-terminal_at :
    (now : String) (ids : List String) (s : State) (j : String)
    → terminal_at (withdraw_all now ids s).1.nodes j ≡ (includes ids j || terminal_at s.1.nodes j)
unfolding withdraw_all
withdraw_all-terminal_at now [] s j = refl
withdraw_all-terminal_at now (id ∷ ids) s j =
    let rest = withdraw_all-terminal_at now ids (withdraw now id s) j in
    let one = withdraw-terminal_at now s id j in ground arith

-- Withdrawing the nodes settles no promise.
transition-run :
    (now : String) (s : State) (id : String) (ns : NodeState) (to : StepStatus)
    (result : Option StepResult)
    → ((transition now s id ns to result).0.1.finished ≡ s.1.finished)
      × ((transition now s id ns to result).0.1.run_id ≡ s.1.run_id)
transition-run now s id ns to result = elim (transition-Stepped now s.0 s.1 id ns to result) [
  | inl (_, same) ↦ rw same (refl, refl)
  | inr (st, _, _, same) ↦ rw same (refl, refl)
]

withdraw-run :
    (now id : String) (s : State)
    → ((withdraw now id s).1.finished ≡ s.1.finished) × ((withdraw now id s).1.run_id ≡ s.1.run_id)
withdraw-run now id s = elim (Option-cases (lookup id s.1.nodes)) [
  | inl missing ↦ rw (withdraw, missing) (refl, refl)
  | inr (ns, found) ↦ elim (Bool-cases ns.terminal) [
    | inl over ↦ rw (withdraw, found, over) (refl, refl)
    | inr live ↦
        let ns' : NodeState = record ns { terminal = true; activates_edges = false } in
        rw (withdraw, found, live)
          (transition-run now (put id ns' s) id ns' cancelled
            (some (("reason", "run-cancelled") ∷ [])))
  ]
]

withdraw_all-run :
    (now : String) (ids : List String) (s : State)
    → ((withdraw_all now ids s).1.finished ≡ s.1.finished)
      × ((withdraw_all now ids s).1.run_id ≡ s.1.run_id)
unfolding withdraw_all
withdraw_all-run now [] s = (refl, refl)
withdraw_all-run now (id ∷ ids) s =
    let (done, same) = withdraw_all-run now ids (withdraw now id s) in
    let (done', same') = withdraw-run now id s in (done ∙ done', same ∙ same')

-- What the promise of the pass of a run is settled with: the run as the store has it.
abbrev pub IsRead : Engine → String → EngineError ⊎ RunDetail → Type 0
IsRead e run_id r =
    ((get_run e.db run_id ≡ none) × (r ≡ inl (unknown_run run_id)))
    ⊎ ((d : RunDetail) × (get_run e.db run_id ≡ some d) × (r ≡ inr d))

-- `p'` is `p` with its nodes over and its promise settled.
settled_with :
    (p : Pass) (e : Engine) (o : Option RunDetail)
    → get_run e.db p.run_id ≡ o
    → (r : EngineError ⊎ RunDetail) × IsRead e p.run_id r
      × ((settle_with_detail p o).finished ≡ p.finished ++ r ∷ [])
      × ((settle_with_detail p o).nodes ≡ p.nodes)
settled_with p e none h = (inl (unknown_run p.run_id), inl (h, refl), refl, refl)
settled_with p e (some d) h = (inr d, inr (d, h, refl), refl, refl)

withdrawn-all :
    (now : String) (e : Engine) (p : Pass)
    → all
        (terminal_at (withdraw_all now (keys p.nodes) (e, record p { cancelling = true })).1.nodes)
        (keys p.nodes)
      ≡ true
withdrawn-all now e p = all_intro _ (keys p.nodes) (λ j m.
    withdraw_all-terminal_at now (keys p.nodes) (e, record p { cancelling = true }) j
    ∙ ap (λ b. b || terminal_at p.nodes j) (In-includes m))

-- `cancel` of a run that is not over and has a pass settles the promise of that pass, with the run
-- as the store has it then (or with the error that there is none), and all nodes of the pass are
-- terminal, whatever the store answered to their transitions.
pub cancel-terminal :
    (now : String) (e : Engine) (run_id : String) (d : RunDetail) (p : Pass)
    → get_run e.db run_id ≡ some d
    → is_terminal_run d.run.status ≡ false
    → lookup run_id e.passes ≡ some p
    → (p' : Pass) × (r : EngineError ⊎ RunDetail) × ((cancel now e run_id).1 ≡ some p')
      × (p'.finished ≡ p.finished ++ r ∷ [])
      × IsRead (cancel now e run_id).0.0 p.run_id r
      × (all (terminal_at p'.nodes) (keys p.nodes) ≡ true)
unfolding cancel
cancel-terminal now e run_id d p found live registered =
    let s = withdraw_all now (keys p.nodes) (e, record p { cancelling = true }) in
    let e' = unregister s in
    let a =
      close_run cancelled e' p.run_id
        (set_run_status e'.db now p.run_id teskra.Workflow.Types.RunStatus.cancelled) in
    let (r, read, done, same) = settled_with s.1 a.0 (get_run a.0.db s.1.run_id) refl in
    let (done', same') = withdraw_all-run now (keys p.nodes) (e, record p { cancelling = true }) in
    let over = withdrawn-all now e p in
    (
      settle_with_detail s.1 (get_run a.0.db s.1.run_id),
      r,
      rw (cancel, found, live, registered) refl,
      done ∙ ap (λ xs. xs ++ r ∷ []) done',
      rw (cancel, found, live, registered) (subst (λ i. IsRead a.0 i r) same' read),
      rw same over,
    )
