-- ===== src/Confirmation/Waiting.antt =====
-- A promise that waits for a step, and the decision that approves it.
use teskra.Base.{
  String, ◌==◌, eq_iff, ℕ, Bool, true, false, ◌⊎◌, inl, inr, List, [], ◌∷◌, Option, none, some, In,
  here, there, In-append_cases, length, drop, lookup, ◌≡◌, refl, sym, ap, ◌∙◌, subst, Bool-cases,
  arith,
}
use teskra.Decisions.{
  PendingDecision, Resolution, DecisionStatus, opened, resolved, expired, cancelled,
}
use teskra.Confirmation.Settled.{lookup-delete_self}
use teskra.Decisions.Service.{Event, handler_called}
use teskra.Confirmation.{
  Parked, Confirmations, settle_parked, settle, chosen, is_resolved, delete_step, step_of,
  is_approval,
}

-- The promise was settled with `true`.
abbrev pub Passed : ℕ → List (ℕ × Bool) → Type 0
Passed t xs = In {A = ℕ × Bool} (t, true) xs

-- The promise waits for the answer to a step.
abbrev pub Waits : Confirmations → String → ℕ → Type 0
Waits c step t = (p : Parked) × (lookup step c.pending ≡ some p) × (p.promise ≡ t)

-- A decision that was resolved with the option "approve", on a step: its workflow step, or the one that its
-- dedupe key names where it has none.
pub record IsApproval (d : PendingDecision) (step : String) : Type 0 where
  pub status : d.status ≡ resolved
  pub option : (r : Resolution) × (d.resolution ≡ some r) × (r.option_id ≡ "approve")
  pub names :
      (d.workflow_step_id ≡ some step) ⊎ ((d.workflow_step_id ≡ none) × (d.dedupe_key ≡ step))

-- Among these events the handler was called with an approval of the step.
abbrev pub Approved : String → List Event → Type 0
Approved step es =
    (d : PendingDecision) × In (handler_called "shell-confirmation" d) es × IsApproval d step

-- The events that the inbox has logged since.
abbrev pub new_events : (c c' : Confirmations) → List Event
new_events c c' = drop (length c.inbox.events) c'.inbox.events

-- The promise had passed, or it waited for a step that these events approve.
abbrev pub Explained : Confirmations → List Event → ℕ → Type 0
Explained c es t = Passed t c.answers ⊎ ((step : String) × Waits c step t × Approved step es)

pub In-single : {t u : ℕ} {b : Bool} → Passed t ((u, b) ∷ []) → (b ≡ true) × (u ≡ t)
In-single (here e) = (ap (λ (x : ℕ × Bool). x.1) (sym e), ap (λ (x : ℕ × Bool). x.0) (sym e))
In-single (there m) = elim m [ ]

step_of-names :
    (o : Option String) (key : String)
    → (o ≡ some (step_of o key)) ⊎ ((o ≡ none) × (key ≡ step_of o key))
step_of-names none key = inr (refl, refl)
step_of-names (some step) key = inl refl

chosen-option :
    (o : Option Resolution) (id : String)
    → chosen o id ≡ true
    → (r : Resolution) × (o ≡ some r) × (r.option_id ≡ id)
chosen-option none id h = absurd (cc)
chosen-option (some r) id h = (r, refl, (eq_iff r.option_id id).0 h)

status-resolved : (x : DecisionStatus) → is_resolved x ≡ true → x ≡ resolved
status-resolved opened h = absurd (cc)
status-resolved resolved h = refl
status-resolved expired h = absurd (cc)
status-resolved cancelled h = absurd (cc)

pub is_approval-IsApproval :
    (d : PendingDecision)
    → is_approval d ≡ true
    → IsApproval d (step_of d.workflow_step_id d.dedupe_key)
is_approval-IsApproval d h = record {
  status = status-resolved d.status (ground arith);
  option = chosen-option d.resolution "approve" (ground arith);
  names = step_of-names d.workflow_step_id d.dedupe_key;
}

settle_parked-true :
    (c : Confirmations) (step : String) (b : Bool) (o : Option Parked) (t : ℕ)
    → Passed t (settle_parked o step b c).answers
    → Passed t c.answers ⊎ ((b ≡ true) × ((p : Parked) × (o ≡ some p) × (p.promise ≡ t)))
settle_parked-true c step b none t m = inl m
settle_parked-true c step b (some p) t m =
    elim (In-append_cases c.answers ((p.promise, b) ∷ []) m) [
      | inl k ↦ inl k
      | inr k ↦ let (e, same) = In-single k in inr (e, (p, refl, same))
    ]

pub settle-true :
    (c : Confirmations) (step : String) (b : Bool) (t : ℕ)
    → Passed t (settle c step b).answers
    → Passed t c.answers ⊎ ((b ≡ true) × Waits c step t)
unfolding settle
settle-true c step b t m = settle_parked-true c step b (lookup step c.pending) t m

pub settle-false :
    (c : Confirmations) (step : String) (t : ℕ)
    → Passed t (settle c step false).answers
    → Passed t c.answers
settle-false c step t m = elim (settle-true c step false t m) [
  | inl k ↦ k
  | inr (e, w) ↦ absurd (cc)
]

-- What is found after a deletion was there before.
lookup-delete_step :
    (k step : String) (xs : List (String × Parked)) {p : Parked}
    → lookup step (delete_step k xs) ≡ some p
    → lookup step xs ≡ some p
lookup-delete_step k step [] h = h
lookup-delete_step k step ((i, q) ∷ xs) {p} h = elim (Bool-cases (i == k)) [
  | inl gone ↦
      let h' : lookup step (delete_step k xs) ≡ some p = rw (gone) at h in
      elim (Bool-cases (i == step)) [
        | inl same ↦
            let e : k ≡ step = sym ((eq_iff i k).0 gone) ∙ (eq_iff i step).0 same in
            let missing : lookup step (delete_step k xs) ≡ none =
              subst (λ x. lookup x (delete_step k xs) ≡ none) e (lookup-delete_self k xs) in
            absurd (cc)
        | inr other ↦ rw (other) (lookup-delete_step k step xs h')
      ]
  | inr stays ↦
      let h' = rw (stays) at h in
      elim (Bool-cases (i == step)) [
        | inl same ↦ rw (same) (rw (same) at h')
        | inr other ↦ rw (other) (lookup-delete_step k step xs (rw (other) at h'))
      ]
]

settle_parked-Waits :
    (c : Confirmations) (k step : String) (b : Bool) (o : Option Parked) (t : ℕ)
    → Waits (settle_parked o k b c) step t
    → Waits c step t
settle_parked-Waits c k step b none t w = w
settle_parked-Waits c k step b (some q) t (p, found, same) =
    (p, lookup-delete_step k step c.pending found, same)

pub settle-Waits :
    (c : Confirmations) (k step : String) (b : Bool) (t : ℕ)
    → Waits (settle c k b) step t
    → Waits c step t
unfolding settle
settle-Waits c k step b t w = settle_parked-Waits c k step b (lookup k c.pending) t w
