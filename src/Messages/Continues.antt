-- ===== src/Messages/Continues.antt =====
-- When the last run of a task is continued.
use teskra.Base.{
  Bool, true, false, not, ◌⊎◌, inl, inr, List, Option, none, some, any, if◌then◌else◌, Text, ◌≡◌,
  refl, ap, ◌∙◌, ◌↔◌, arith, Bool-cases,
}
use teskra.Messages.{TaskRun, Plan, Services, WorktreeState, ready, dirty}
use teskra.Messages.Runs.{
  identity_unchanged, is_usable, occupies, can_continue, reuse_if, reuse_in, reuse_worktree,
  reuse_free,
}
use mathlib.Core.Sum.{inr-injective}
use teskra.Messages.Conditions.{IsSame, IsFree, identity_unchanged_iff, is_usable_iff, IsFree-iff}

module _ {E : Type 0} (s : Services E) where
  -- The worktree of the run is there to be used, and no other active run has it.
  pub record CanReuse (source worktree : Text) : Type 0 where
    pub state : Option WorktreeState
    pub found : s.worktree_state worktree ≡ inr state
    pub usable : (state ≡ some ready) ⊎ (state ≡ some dirty)
    pub active : List TaskRun
    pub listed : s.active_runs ≡ inr active
    pub free : IsFree source worktree active

  free_sound :
      (source worktree : Text) (x : E ⊎ List TaskRun)
      → reuse_free s source worktree x ≡ inr true
      → (active : List TaskRun) × (x ≡ inr active) × (any (occupies source worktree) active ≡ false)
  free_sound source worktree (inl e) h = absurd (cc)
  free_sound source worktree (inr active) h =
      let e = inr-injective _ _ h in (active, refl, ground arith)

  worktree_sound :
      (source worktree : Text) (x : E ⊎ Option WorktreeState)
      → reuse_worktree s source worktree x ≡ inr true
      → (state : Option WorktreeState) × (x ≡ inr state)
        × (is_usable state ≡ true)
        × (reuse_free s source worktree s.active_runs ≡ inr true)
  worktree_sound source worktree (inl e) h = absurd (cc)
  worktree_sound source worktree (inr state) h = elim (Bool-cases (is_usable state)) [
    | inl u ↦ (state, refl, u, rw (u) at h)
    | inr u ↦ let h' = rw (u) at h in let e = inr-injective _ _ h' in absurd (cc)
  ]

  reuse_sound :
      (source : Text) (worktree : Option Text)
      → reuse_in s source worktree ≡ inr true
      → (w : Text) × (worktree ≡ some w) × CanReuse source w
  reuse_sound source none h = let e = inr-injective _ _ h in absurd (cc)
  reuse_sound source (some w) h =
      let (state, found, usable, rest) = worktree_sound source w (s.worktree_state w) h in
      let (active, listed, free) = free_sound source w s.active_runs rest in
      (
        w,
        refl,
        record {
          state = state;
          found = found;
          usable = (is_usable_iff state).0 usable;
          active = active;
          listed = listed;
          free = (IsFree-iff source w active).0 free;
        },
      )

  free_complete :
      (source w : Text) (x : E ⊎ List TaskRun) (active : List TaskRun)
      → x ≡ inr active
      → any (occupies source w) active ≡ false
      → reuse_free s source w x ≡ inr true
  free_complete source w x active e free = ap (reuse_free s source w) e ∙ ap (λ b. inr (not b)) free

  reuse_complete :
      (source : Text) (worktree : Option Text) (w : Text)
      → worktree ≡ some w
      → CanReuse source w
      → reuse_in s source worktree ≡ inr true
  reuse_complete source worktree w e c =
      ap (reuse_in s source) e
      ∙ ap (reuse_worktree s source w) c.found
      ∙ ap (λ b. if b then reuse_free s source w s.active_runs else inr false)
          ((is_usable_iff c.state).1 c.usable)
      ∙ free_complete source w s.active_runs c.active c.listed
          ((IsFree-iff source w c.active).1 c.free)

  reuse_if-true_iff :
      (a b : Bool) (x : E ⊎ Bool)
      → (reuse_if s a b x ≡ inr true) ↔ ((a ≡ true) × (b ≡ true) × (x ≡ inr true))
  reuse_if-true_iff false b x =
      (λ h. let e = inr-injective _ _ h in absurd (cc), λ h. let e = h.0 in absurd (cc))
  reuse_if-true_iff true false x =
      (λ h. let e = inr-injective _ _ h in absurd (cc), λ h. let e = h.1 in absurd (cc))
  reuse_if-true_iff true true x = (λ h. (refl, refl, h), λ h. h.2)

  -- The conditions of a continuation are met exactly where the message has the agent, account,
  -- profile, approval and mode of the run (which is attended or orchestrated) and no other model,
  -- the run has a session, its worktree is found ready or dirty, and every active run with that
  -- worktree is the run itself; where one of the reads fails, they are not.
  pub can_continue-true_iff :
      (p : Plan) (r : TaskRun)
      → (can_continue s p r ≡ inr true) ↔ (
          IsSame p r
          × (r.has_session ≡ true)
          × ((w : Text) × (r.worktree_id ≡ some w) × CanReuse r.id w))
  unfolding can_continue
  can_continue-true_iff p r =
      let (forth, back) =
        reuse_if-true_iff (identity_unchanged p r) r.has_session (reuse_in s r.id r.worktree_id) in
      let (to_same, of_same) = identity_unchanged_iff p r in
      (
        λ h.
            let (same, session, rest) = forth h in
            (to_same same, session, reuse_sound r.id r.worktree_id rest),
        λ h.
            let (same, session, place) = h in
            let (w, e, c) = place in
            back (of_same same, session, reuse_complete r.id r.worktree_id w e c),
      )
