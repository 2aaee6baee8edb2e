-- ===== src/Workflow/Engine/Resolves.antt =====
-- `resolveStep` on a step that waits for its outcome.
use teskra.Base.{
  String, ◌==◌, ◌≡◌, refl, sym, ap, ◌∙◌, subst, suc, true, false, ◌⊎◌, inl, inr, [], ◌∷◌, Option,
  none, some, Bool-cases, length, lookup, insert, lookup-insert, lookup-insert_self, In,
  if◌then◌else◌,
}
use teskra.Workflow.Types.{
  Step, StepResult, running, completed, failed, NodeType, node_type, checkpoint,
}
use teskra.Workflow.Graph.{condition_outcomes}
use teskra.Workflow.Repository.{get_or, get_step_by_id}
use teskra.Workflow.Store.{can_transition}
use teskra.Workflow.Store.Transitions.{moved, transition_step-legal}
use teskra.Workflow.Engine.{
  NodeState, Pass, Engine, State, Spawn, Completion, put, transition, settle_state, settled,
  settle_status, spread, moved_node, settle_node,
}
use teskra.Workflow.Engine.Schedule.{schedule}
use teskra.Workflow.Engine.Passes.{store_pass}
use teskra.Workflow.Engine.Calls.{
  settle_in, resolve_step, suspended_node, refusal, unpark, resolution, resolved, step_of,
}
use teskra.Workflow.Engine.Fuel.{settle_in-Returns, refusal-none_iff}
use teskra.Workflow.Engine.Moves.{Returns}
use teskra.Workflow.Engine.Stands.{schedule-Keeps}

-- An answer to a node, and the outcome that it stands for.
abbrev pub Answers : NodeType → Option String → String → Type 0
Answers t answer outcome =
    ((t ≡ checkpoint) × (answer ≡ none) × (outcome ≡ "success"))
    ⊎ ((answer ≡ some outcome) × In outcome (condition_outcomes t))

-- A node of a pass whose step waits to be resolved and runs in the store.
pub record IsSuspended (e : Engine) (step : String) (p : Pass) (id : String) (ns : NodeState)
    (row : Step) : Type 0 where
  pub known : lookup step e.suspended_steps ≡ some p.run_id
  pub registered : lookup p.run_id e.passes ≡ some p
  pub parked : lookup step p.suspended ≡ some id
  pub node : lookup id p.nodes ≡ some ns
  pub live : ns.terminal ≡ false
  pub stored : get_step_by_id e.db ns.step.id ≡ some row
  pub runs : row.status ≡ running

-- The step has ended as the outcome says, which its result holds.
pub record Records (row st : Step) (outcome : String) : Type 0 where
  pub same : st.id ≡ row.id
  pub status : st.status ≡ (if outcome == "failure" then failed else completed)
  pub result : StepResult
  pub given : st.result ≡ some result
  pub noted : lookup "outcome" result ≡ some outcome

lookup-spread :
    (k : String) (r base : StepResult)
    → lookup k r ≡ none
    → lookup k (spread base r) ≡ lookup k base
lookup-spread k [] base h = refl
lookup-spread k ((i, v) ∷ r) base h = elim (Bool-cases (i == k)) [
  | inl same ↦ absurd (let h' = rw (same) at h in cc)
  | inr other ↦
      lookup-spread k r (insert i v base) (rw (other) at h)
      ∙ lookup-insert i k v base
      ∙ rw (other) refl
]

suspended_node-IsSuspended :
    (e : Engine) (step : String) (p : Pass) (id : String) (ns : NodeState) (row : Step)
    → IsSuspended e step p id ns row
    → suspended_node e step ≡ some (p, id, ns)
suspended_node-IsSuspended e step p id ns row s =
    rw (suspended_node, s.known, s.registered, s.parked, s.node) refl

allowed-refusal :
    (ns : NodeState) (answer : Option String) (outcome : String)
    → Answers (node_type ns.node) answer outcome
    → (refusal ns answer ≡ none) × (get_or answer "success" ≡ outcome)
allowed-refusal ns answer outcome (inl (t, e, o)) =
    ((refusal-none_iff ns answer).1 (inl (t, e)), rw e (sym o))
allowed-refusal ns answer outcome (inr (e, m)) =
    ((refusal-none_iff ns answer).1 (inr (outcome, e, m)), rw e refl)

ends_legally : (outcome : String) → can_transition running (settle_status outcome) ≡ true
ends_legally outcome = elim (Bool-cases (outcome == "failure")) [
  | inl t ↦ rw t refl
  | inr u ↦ rw u refl
]

-- The node once it is settled and its step is moved.
abbrev settled_node : String → NodeState → Completion → Step → NodeState
settled_node now ns c row =
    let outcome = get_or c.outcome "success" in
    record (settled ns outcome) {
      step =
          moved now (settle_status outcome) (some (spread (("outcome", outcome) ∷ []) c.result))
            row;
    }

settle_state-stands :
    (now : String) (s : State) (id : String) (ns : NodeState) (c : Completion) (row : Step)
    → get_step_by_id s.0.db ns.step.id ≡ some row
    → row.status ≡ running
    → lookup id (settle_state now s id ns c).1.nodes ≡ some (settled_node now ns c row)
unfolding settle_state transition
settle_state-stands now s id ns c row stored runs =
    let outcome = get_or c.outcome "success" in
    let legal =
      transition_step-legal s.0.db now ns.step.id (settle_status outcome)
        (some (spread (("outcome", outcome) ∷ []) c.result)) row stored
        (rw runs (ends_legally outcome)) in
    let y = settled ns outcome in
    ap (λ r. lookup id (moved_node id y (put id y s).1 s.0 r).0.1.nodes) legal
    ∙ lookup-insert_self id (settled_node now ns c row) (insert id y s.1.nodes)

Records-settled :
    (now : String) (ns : NodeState) (c : Completion) (row : Step)
    → lookup "outcome" c.result ≡ none
    → Records row (settled_node now ns c row).step (get_or c.outcome "success")
unfolding moved
Records-settled now ns c row clean = record {
  same = refl;
  status = refl;
  result = spread (("outcome", get_or c.outcome "success") ∷ []) c.result;
  given = refl;
  noted = lookup-spread "outcome" c.result _ clean;
}

-- A live node of a registered pass is settled and then scheduled.
settle_in-schedules :
    (sp : Spawn) (s : State) (id : String) (ns : NodeState) (c : Completion) {p : Pass}
    → lookup s.1.run_id s.0.passes ≡ some p
    → ns.terminal ≡ false
    → settle_in sp s id ns c
      ≡ schedule (suc (suc (length s.1.nodes))) sp (settle_state sp.now s id ns c)
unfolding settle_in settle_node
settle_in-schedules sp s id ns c registered live =
    rw (settle_in, settle_node, registered, live) refl

-- What the scheduling that the settling starts leaves of the node.
settled_in :
    (sp : Spawn) (s : State) (id : String) (ns : NodeState) (c : Completion) (row : Step) {p : Pass}
    → lookup s.1.run_id s.0.passes ≡ some p
    → lookup id s.1.nodes ≡ some ns
    → s.1.cancelling ≡ false
    → ns.terminal ≡ false
    → get_step_by_id s.0.db ns.step.id ≡ some row
    → row.status ≡ running
    → (s' : State) × (settle_in sp s id ns c ≡ some s')
      × (lookup id s'.1.nodes ≡ some (settled_node sp.now ns c row))
unfolding Returns
settled_in sp s id ns c row registered found going live stored runs =
    let (s', e, _, _) = settle_in-Returns sp s id ns ns c found going in
    let kept =
      schedule-Keeps id (settled_node sp.now ns c row) refl (suc (suc (length s.1.nodes))) sp
        (settle_state sp.now s id ns c) (settle_state-stands sp.now s id ns c row stored runs) s'
        (sym (settle_in-schedules sp s id ns c registered live) ∙ e) in
    (s', e, kept)

-- A suspended step that runs in the store, of a live node in a pass that is registered and not
-- being cancelled: with no outcome for a checkpoint, which stands for "success", or with one of the
-- outcomes of another node's type, and a result that does not name an outcome itself, `resolveStep`
-- accepts; the scheduling that this starts ends within its fuel, and the step that is answered has
-- ended as failed where the outcome is "failure" and as completed otherwise, and its result holds
-- the outcome.
pub resolve_step-Records :
    (sp : Spawn) (e : Engine) (step id outcome : String) (c : Completion) (p : Pass)
    (ns : NodeState) (row : Step)
    → IsSuspended e step p id ns row
    → p.cancelling ≡ false
    → Answers (node_type ns.node) c.outcome outcome
    → lookup "outcome" c.result ≡ none
    → (e' : Engine) × (st : Step) × (resolve_step sp e step c ≡ some (e', inr (some st)))
      × Records row st outcome
unfolding resolve_step
resolve_step-Records sp e step id outcome c p ns row s going answers clean =
    let (allowed, is_outcome) = allowed-refusal ns c.outcome outcome answers in
    let suspended = suspended_node-IsSuspended e step p id ns row s in
    let (s', done, kept) =
      settled_in sp (unpark step (e, p)) id ns (resolution c) row s.registered s.node going s.live
        s.stored s.runs in
    (
      store_pass s',
      (settled_node sp.now ns (resolution c) row).step,
      rw (resolve_step, suspended, allowed)
          (ap (resolved id) done ∙ ap (λ o. some (store_pass s', inr (step_of o))) kept),
      subst (Records row (settled_node sp.now ns (resolution c) row).step) is_outcome
          (Records-settled sp.now ns (resolution c) row clean),
    )
