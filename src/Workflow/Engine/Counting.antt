-- ===== src/Workflow/Engine/Counting.antt =====
-- The nodes of a pass that wait to be started or skipped: every visit of a due node takes one away,
-- and no call of the scheduler adds one.
use teskra.Base.{
  String, ◌≡◌, refl, ap, ℕ, ◌+◌, ◌≤◌, ◌⊎◌, inl, inr, List, [], ◌∷◌, Option, none, some, Bool-cases,
  length, lookup, insert, if◌then◌else◌, arith, ◌==◌,
}
use teskra.Workflow.Types.{Step, StepStatus, StepResult}
use teskra.Workflow.Repository.{Db}
use teskra.Workflow.Store.{Result, ok, err, transition_step}
use teskra.Workflow.Store.Transitions.{transition_step-ok, moved}
use teskra.Workflow.Engine.{NodeState, Engine, State, moved_node, transition, Pass}
use teskra.Workflow.Engine.Schedule.{is_open}

abbrev pub weight : NodeState → ℕ
weight ns = if is_open ns then 1 else 0

unfoldable pub count_open : List (String × NodeState) → ℕ
count_open [] = 0
count_open ((k, ns) ∷ rest) = weight ns + count_open rest

abbrev pub waiting_in : State → ℕ
waiting_in s = count_open s.1.nodes

pub count_open-length : (nodes : List (String × NodeState)) → count_open nodes ≤ length nodes
unfolding count_open
count_open-length [] = omega arith
count_open-length ((k, ns) ∷ rest) = let ih = count_open-length rest in ground arith

pub count_open-insert :
    (id : String) (old ns : NodeState) (nodes : List (String × NodeState))
    → lookup id nodes ≡ some old
    → count_open (insert id ns nodes) + weight old ≡ count_open nodes + weight ns
unfolding count_open
count_open-insert id old ns [] h = absurd (cc)
count_open-insert id old ns ((k, x) ∷ rest) h = elim (Bool-cases (k == id)) [
  | inl t ↦ let e : x ≡ old = ground arith in rw t (rw e (omega arith))
  | inr f ↦ let ih = count_open-insert id old ns rest (ground arith) in rw f (omega arith)
]

-- What `transition` does to the pass: nothing, or the node has the step that the store returns.
abbrev pub Stepped : State × Option NodeState → Pass → String → NodeState → StepStatus → Type 0
Stepped t p id ns to =
    ((t.1 ≡ none) × (t.0.1 ≡ p))
    ⊎ ((st : Step) × (st.status ≡ to)
        × (t.1 ≡ some (record ns { step = st }))
        × (t.0.1 ≡ record p { nodes = insert id (record ns { step = st }) p.nodes }))

module _ (now : String) (e : Engine) (p : Pass) (id : String) (ns : NodeState) (to : StepStatus)
    (result : Option StepResult) where
  Stepped-moved :
      (r : Db × Result Step)
      → transition_step e.db now ns.step.id to result ≡ r
      → Stepped (moved_node id ns p e r) p id ns to
  unfolding moved
  Stepped-moved (db, err x) h = inl (refl, refl)
  Stepped-moved (db, ok st) h =
      let t = transition_step-ok e.db now ns.step.id to result st (ap (λ y. y.1) h) in
      inr (st, ap (λ (y : Step). y.status) t.after, refl, refl)

  pub transition-Stepped : Stepped (transition now (e, p) id ns to result) p id ns to
  unfolding transition
  transition-Stepped = Stepped-moved (transition_step e.db now ns.step.id to result) refl
