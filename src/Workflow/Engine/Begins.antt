-- ===== src/Workflow/Engine/Begins.antt =====
-- A pass begins: `beginPass` always answers.
use teskra.Base.{
  String, ◌≡◌, refl, ap, ◌∙◌, ℕ, suc, ◌+◌, Bool, false, not, ◌&&◌, ◌||◌, ◌⊎◌, inl, inr, List, [],
  ◌∷◌, Option, some, Option-cases, Bool-cases, length, lookup, includes, is_empty, keep, ltb, arith,
  map,
}
use teskra.Workflow.Types.{Node, Run, Step, AgentFields, skipped, StepStatus, StepResult}
use teskra.Workflow.Graph.{is_first, active_node_ids_for_iteration}
use teskra.Workflow.Repository.{Db}
use teskra.Workflow.Store.{Result, ok, err, is_terminal_run, get_run, add_step, set_run_status}
use teskra.Workflow.Engine.{
  NodeState, EngineError, Pass, Engine, State, Spawn, put, transition, unknown_run, run_closed,
  active_pass, steps_in_flight, profile_unresolved,
}
use teskra.Workflow.Engine.Schedule.{keys}
use teskra.Workflow.Engine.Counting.{count_open-length, transition-Stepped}
use teskra.Workflow.Engine.Quiet.{Settles, schedule-IsQuiet}
use teskra.Workflow.Engine.Passes.{
  added, add_node, add_steps, filtered, flag, filter_node, filter_nodes, set_running, mark_running,
  is_running_run, register, Answer, run_schedule, begun, schedule_running, new_pass, enter_pass,
  begin_pass, existing_steps, prevalidate, has_pass, in_flight, step_id,
}

abbrev going : State → Bool
going s = s.1.cancelling

transition-going :
    (now : String) (s : State) (id : String) (ns : NodeState) (to : StepStatus)
    (result : Option StepResult)
    → going (transition now s id ns to result).0 ≡ going s
transition-going now s id ns to result = elim (transition-Stepped now s.0 s.1 id ns to result) [
  | inl (_, same) ↦ ap (λ (p : Pass). p.cancelling) same
  | inr (st, _, _, same) ↦ ap (λ (p : Pass). p.cancelling) same
]

added-going :
    (n : Node) (s s' : State) (r : Db × Result Step) → added n s r ≡ inr s' → going s' ≡ going s
added-going n s s' (db, err x) h = absurd (cc)
added-going n s s' (db, ok st) h = ground arith

add_node-going :
    (now : String) (ids : String → String) (known : List (String × Step)) (n : Node) (s s' : State)
    → add_node now ids known n s ≡ inr s'
    → going s' ≡ going s
add_node-going now ids known n s s' h = elim (Option-cases (lookup n.id known)) [
  | inr (st, found) ↦ ground arith
  | inl missing ↦
      added-going n s s' (add_step s.0.db now (ids n.id) s.1.run_id n.id 1)
        (rw (add_node, missing) at h)
]

sum_cases : {A B : Type 0} (x : A ⊎ B) → ((a : A) × (x ≡ inl a)) ⊎ ((b : B) × (x ≡ inr b))
sum_cases (inl a) = inl (a, refl)
sum_cases (inr b) = inr (b, refl)

add_steps-going :
    (now : String) (ids : String → String) (known : List (String × Step)) (ns : List Node)
    (s s' : State)
    → add_steps now ids known ns s ≡ inr s'
    → going s' ≡ going s
unfolding add_steps
add_steps-going now ids known [] s s' h = ground arith
add_steps-going now ids known (n ∷ ns) s s' h = elim (sum_cases (add_node now ids known n s)) [
  | inl (x, e) ↦ absurd (ground arith)
  | inr (t, e) ↦
      let rest : add_steps now ids known ns t ≡ inr s' = ground arith in
      add_steps-going now ids known ns t s' rest ∙ add_node-going now ids known n s t e
]

filter_node-going :
    (now : String) (past : Bool) (id : String) (ns : NodeState) (s : State)
    → going (filter_node now past id ns s) ≡ going s
filter_node-going now past id ns s =
    transition-going now (put id (filtered past ns) s) id (filtered past ns) skipped
      (some (("reason", "runOn-filtered") ∷ ("edgesActivated", flag past) ∷ []))

filter_nodes-going :
    (now : String) (phase : ℕ) (active ids : List String) (s : State)
    → going (filter_nodes now phase active ids s) ≡ going s
unfolding filter_nodes
filter_nodes-going now phase active [] s = refl
filter_nodes-going now phase active (id ∷ ids) s = elim (Option-cases (lookup id s.1.nodes)) [
  | inl missing ↦ rw (filter_nodes, missing) (filter_nodes-going now phase active ids s)
  | inr (ns, found) ↦ elim (Bool-cases (ns.terminal || includes active id)) [
    | inl t ↦ rw (filter_nodes, found, t) (filter_nodes-going now phase active ids s)
    | inr u ↦
        let past = is_first ns.node.run_on && ltb 1 phase in
        rw (filter_nodes, found, u)
          (filter_nodes-going now phase active ids (filter_node now past id ns s)
            ∙ filter_node-going now past id ns s)
  ]
]

run_schedule-returns :
    (sp : Spawn) (s : State) → going s ≡ false → (s' : State) × (run_schedule sp s ≡ some s')
unfolding Settles
run_schedule-returns sp s h =
    let bound = count_open-length s.1.nodes in
    let (s', e, _, _, _) =
      schedule-IsQuiet (suc (suc (length s.1.nodes))) sp s h (omega (arith, bound)) in
    (s', e)

set_running-going :
    (s s' : State) (r : Db × Result Run) → set_running s r ≡ inr s' → going s' ≡ going s
set_running-going s s' (db, err x) h = absurd (cc)
set_running-going s s' (db, ok r) h = ground arith

mark_running-going :
    (now : String) (s s' : State) → mark_running now s ≡ inr s' → going s' ≡ going s
mark_running-going now s s' h = elim (Bool-cases (is_running_run s.1.run.status)) [
  | inl t ↦ ground arith
  | inr u ↦
      set_running-going s s'
        (set_run_status s.0.db now s.1.run_id teskra.Workflow.Types.RunStatus.running)
        (rw (mark_running, u) at h)
]

schedule_running-answers :
    (sp : Spawn) (x : (Engine × EngineError) ⊎ State)
    → ((s : State) → x ≡ inr s → going s ≡ false)
    → (a : Answer Pass) × (schedule_running sp x ≡ some a)
schedule_running-answers sp (inl (e, x)) h = ((e, inl x), refl)
schedule_running-answers sp (inr s) h =
    let (s', e) = run_schedule-returns sp s (h s refl) in (_, ap begun e)

enter_pass-answers :
    (sp : Spawn) (r : Run) (x : (Engine × EngineError) ⊎ State)
    → ((s : State) → x ≡ inr s → going s ≡ false)
    → (a : Answer Pass) × (enter_pass sp r x ≡ some a)
enter_pass-answers sp r (inl (e, x)) h = ((e, inl x), refl)
enter_pass-answers sp r (inr s) h =
    let phase = r.current_iteration + 1 in
    let active = active_node_ids_for_iteration r.definition phase in
    let ready = filter_nodes sp.now phase active (keys s.1.nodes) (register s) in
    schedule_running-answers sp (mark_running sp.now ready) (λ s' e.
      mark_running-going sp.now ready s' e
      ∙ (filter_nodes-going sp.now phase active (keys s.1.nodes) (register s) ∙ h s refl))

-- `beginPass` answers on every engine and for every run, with a refusal or with a pass whose first
-- scheduling has ended: its fuel is always enough.
pub begin_pass-answers :
    (sp : Spawn) (resolves : AgentFields → Bool) (ids : String → String) (e : Engine)
    (run_id : String)
    → (a : Answer Pass) × (begin_pass sp resolves ids e run_id ≡ some a)
unfolding begin_pass
begin_pass-answers sp resolves ids e run_id = elim (Option-cases (get_run e.db run_id)) [
  | inl missing ↦ ((e, inl (unknown_run run_id)), rw (begin_pass, missing) refl)
  | inr (d, found) ↦
      let flying = keep (in_flight d.run.current_iteration) d.steps in
      elim (Bool-cases (is_terminal_run d.run.status)) [
        | inl t ↦ ((e, inl (run_closed run_id d.run.status)), rw (begin_pass, found, t) refl)
        | inr u ↦ elim (Bool-cases (has_pass e run_id)) [
          | inl t ↦ ((e, inl (active_pass run_id)), rw (begin_pass, found, u, t) refl)
          | inr v ↦ elim (Bool-cases (not (is_empty flying))) [
            | inl t ↦ (
              (e, inl (steps_in_flight run_id (map step_id flying))),
              rw (begin_pass, found, u, v, t) refl,
            )
            | inr w ↦ elim (Option-cases (prevalidate resolves d.run.definition.steps)) [
              | inr (n, bad) ↦
                  ((e, inl (profile_unresolved n)), rw (begin_pass, found, u, v, w, bad) refl)
              | inl fine ↦
                  let (a, h) =
                    enter_pass-answers sp d.run
                      (add_steps sp.now ids (existing_steps d.run.current_iteration d.steps [])
                        d.run.definition.steps (e, new_pass d.run))
                      (λ s x.
                        add_steps-going sp.now ids
                          (existing_steps d.run.current_iteration d.steps []) d.run.definition.steps
                          (e, new_pass d.run) s x) in
                  (a, rw (begin_pass, found, u, v, w, fine) h)
            ]
          ]
        ]
      ]
]
