-- ===== src/Messages/Conditions.antt =====
-- What the conditions of a continuation compare.
use teskra.Base.{
  true, false, ◌⊎◌, inl, inr, List, Option, none, some, any, Text, ◌≡◌, refl, ◌↔◌, arith,
  Bool-cases, text_eq_iff, In, any_intro, any-false,
}
use teskra.Directives.{
  ApprovalMode, read_only, manual, safe_auto, full_auto, ExecutionMode, attended, orchestrated,
  inherited,
}
use teskra.Messages.{
  TaskRun, Plan, WorktreeState, creating, ready, dirty, conflict, merged, discarded, missing,
  orphaned, same_text, same_mode, same_approval,
}
use teskra.Messages.Runs.{identity_unchanged, unless_model, is_usable, occupies}

-- The same one of the two modes; a key that the table of modes inherits is no mode of a run.
abbrev pub IsSameMode : ExecutionMode → ExecutionMode → Type 0
IsSameMode a b = (a ≡ b) × ((b ≡ attended) ⊎ (b ≡ orchestrated))

-- The message changes nothing that the run was started with; without a model it keeps that of the run.
pub record IsSame (p : Plan) (r : TaskRun) : Type 0 where
  pub agent : p.agent_type ≡ r.agent_type
  pub account : p.account_profile_id ≡ r.account_profile_id
  pub profile : p.execution_profile_id ≡ r.execution_profile_id
  pub mode : IsSameMode p.execution_mode r.execution_mode
  pub approval : p.approval_mode ≡ r.approval_mode
  pub model : (p.model ≡ none) ⊎ (p.model ≡ r.model)

same_text_iff : (a b : Option Text) → (same_text a b ≡ true) ↔ (a ≡ b)
same_text_iff none none = (λ _. refl, λ _. refl)
same_text_iff none (some b) = (λ h. absurd (cc), λ e. absurd (cc))
same_text_iff (some a) none = (λ h. absurd (cc), λ e. absurd (cc))
same_text_iff (some a) (some b) = ground (arith, text_eq_iff a b)

same_mode_iff : (a b : ExecutionMode) → (same_mode a b ≡ true) ↔ IsSameMode a b
same_mode_iff attended attended = (λ _. (refl, inl refl), λ _. refl)
same_mode_iff orchestrated orchestrated = (λ _. (refl, inr refl), λ _. refl)
same_mode_iff attended orchestrated = (λ h. absurd (cc), λ e. let d = e.0 in absurd (cc))
same_mode_iff orchestrated attended = (λ h. absurd (cc), λ e. let d = e.0 in absurd (cc))
same_mode_iff attended (inherited t) = (λ h. absurd (cc), λ e. let d = e.0 in absurd (cc))
same_mode_iff orchestrated (inherited t) = (λ h. absurd (cc), λ e. let d = e.0 in absurd (cc))
same_mode_iff (inherited t) b =
    (λ h. absurd (cc), λ e. let d = e.0 in elim e.1 [ inl x ↦ absurd (cc) | inr x ↦ absurd (cc) ])

same_approval_iff : (a b : ApprovalMode) → (same_approval a b ≡ true) ↔ (a ≡ b)
same_approval_iff read_only read_only = (λ _. refl, λ _. refl)
same_approval_iff read_only manual = (λ h. absurd (cc), λ e. absurd (cc))
same_approval_iff read_only safe_auto = (λ h. absurd (cc), λ e. absurd (cc))
same_approval_iff read_only full_auto = (λ h. absurd (cc), λ e. absurd (cc))
same_approval_iff manual read_only = (λ h. absurd (cc), λ e. absurd (cc))
same_approval_iff manual manual = (λ _. refl, λ _. refl)
same_approval_iff manual safe_auto = (λ h. absurd (cc), λ e. absurd (cc))
same_approval_iff manual full_auto = (λ h. absurd (cc), λ e. absurd (cc))
same_approval_iff safe_auto read_only = (λ h. absurd (cc), λ e. absurd (cc))
same_approval_iff safe_auto manual = (λ h. absurd (cc), λ e. absurd (cc))
same_approval_iff safe_auto safe_auto = (λ _. refl, λ _. refl)
same_approval_iff safe_auto full_auto = (λ h. absurd (cc), λ e. absurd (cc))
same_approval_iff full_auto read_only = (λ h. absurd (cc), λ e. absurd (cc))
same_approval_iff full_auto manual = (λ h. absurd (cc), λ e. absurd (cc))
same_approval_iff full_auto safe_auto = (λ h. absurd (cc), λ e. absurd (cc))
same_approval_iff full_auto full_auto = (λ _. refl, λ _. refl)

unless_model_iff : (m own : Option Text) → (unless_model m own ≡ true) ↔ ((m ≡ none) ⊎ (m ≡ own))
unless_model_iff none own = (λ _. inl refl, λ _. refl)
unless_model_iff (some m) own =
    let (forth, back) = same_text_iff (some m) own in
    (λ h. inr (forth h), λ h. elim h [ inl e ↦ absurd (cc) | inr e ↦ back e ])

pub identity_unchanged_iff : (p : Plan) (r : TaskRun) → (identity_unchanged p r ≡ true) ↔ IsSame p r
identity_unchanged_iff p r =
    let agents = text_eq_iff p.agent_type r.agent_type in
    let accounts = same_text_iff p.account_profile_id r.account_profile_id in
    let profiles = same_text_iff p.execution_profile_id r.execution_profile_id in
    let modes = same_mode_iff p.execution_mode r.execution_mode in
    let approvals = same_approval_iff p.approval_mode r.approval_mode in
    let models = unless_model_iff p.model r.model in
    (
      λ h. record {
        agent = agents.0 (ground arith);
        account = accounts.0 (ground arith);
        profile = profiles.0 (ground arith);
        mode = modes.0 (ground arith);
        approval = approvals.0 (ground arith);
        model = models.0 (ground arith);
      },
      λ h.
          let a = agents.1 h.agent in
          let b = accounts.1 h.account in
          let c = profiles.1 h.profile in
          let d = modes.1 h.mode in
          let e = approvals.1 h.approval in let f = models.1 h.model in ground arith,
    )

pub is_usable_iff :
    (s : Option WorktreeState) → (is_usable s ≡ true) ↔ ((s ≡ some ready) ⊎ (s ≡ some dirty))
is_usable_iff none = (λ h. absurd (cc), λ h. elim h [ inl e ↦ absurd (cc) | inr e ↦ absurd (cc) ])
is_usable_iff (some creating) =
    (λ h. absurd (cc), λ h. elim h [ inl e ↦ absurd (cc) | inr e ↦ absurd (cc) ])
is_usable_iff (some ready) = (λ _. inl refl, λ _. refl)
is_usable_iff (some dirty) = (λ _. inr refl, λ _. refl)
is_usable_iff (some conflict) =
    (λ h. absurd (cc), λ h. elim h [ inl e ↦ absurd (cc) | inr e ↦ absurd (cc) ])
is_usable_iff (some merged) =
    (λ h. absurd (cc), λ h. elim h [ inl e ↦ absurd (cc) | inr e ↦ absurd (cc) ])
is_usable_iff (some discarded) =
    (λ h. absurd (cc), λ h. elim h [ inl e ↦ absurd (cc) | inr e ↦ absurd (cc) ])
is_usable_iff (some missing) =
    (λ h. absurd (cc), λ h. elim h [ inl e ↦ absurd (cc) | inr e ↦ absurd (cc) ])
is_usable_iff (some orphaned) =
    (λ h. absurd (cc), λ h. elim h [ inl e ↦ absurd (cc) | inr e ↦ absurd (cc) ])

-- No run but the source has the worktree.
abbrev pub IsFree : (source worktree : Text) → List TaskRun → Type 0
IsFree source worktree active =
    (r : TaskRun) → In r active → r.worktree_id ≡ some worktree → r.id ≡ source

occupies-false_iff :
    (source worktree : Text) (r : TaskRun)
    → (occupies source worktree r ≡ false) ↔ (r.worktree_id ≡ some worktree → r.id ≡ source)
occupies-false_iff source worktree r =
    let places = same_text_iff r.worktree_id (some worktree) in
    let ids = text_eq_iff r.id source in
    (
      λ h e. let t = places.1 e in ids.0 (ground arith),
      λ h. elim (Bool-cases (same_text r.worktree_id (some worktree))) [
        | inl t ↦ let same = ids.1 (h (places.0 t)) in ground arith
        | inr u ↦ ground arith
      ],
    )

pub IsFree-iff :
    (source worktree : Text) (active : List TaskRun)
    → (any (occupies source worktree) active ≡ false) ↔ IsFree source worktree active
IsFree-iff source worktree active = (
  λ h r m.
      (occupies-false_iff source worktree r).0 (elim (Bool-cases (occupies source worktree r)) [
        | inl t ↦ let hit = any_intro (occupies source worktree) m t in absurd (cc)
        | inr u ↦ u
      ]),
  λ h.
      any-false (occupies source worktree) active
        (λ r m. (occupies-false_iff source worktree r).1 (h r m)),
)
