-- ===== src/CriteriaSets/OneConfirmed/Confirms.antt =====
-- A draft that is confirmed once the other sets of its task are superseded.
use teskra.Base.{
  String, ◌==◌, eq_iff, Bool, true, false, not, ◌&&◌, inl, inr, List, [], ◌∷◌, some, In, ◌≡◌, refl,
  sym, ap, ◌∙◌, subst, arith, Bool-cases,
}
use teskra.CriteriaSets.{CriteriaSet, Tables, is_id, confirm_row, confirm_set_row, supersede_row}
use teskra.CriteriaSets.Manager.{is_confirmed, supersede_if, supersede_others, siblings}
use teskra.CriteriaSets.Rows.{
  In-map, siblings-In, supersede_row-id, supersede_others_clears, Reduces, supersede_others-Reduces,
}
use teskra.CriteriaSets.OneConfirmed.{IsSound, IsSound-Reduces, map_unique, Reduces-refl}

supersede_others_unique :
    (own : String) (ss : List CriteriaSet) (t : Tables)
    → ((a b : CriteriaSet) → In a t.sets → In b t.sets → a.id ≡ b.id → a ≡ b)
    → (a b : CriteriaSet) → In a (supersede_others own ss t).sets
    → In b (supersede_others own ss t).sets
    → a.id ≡ b.id
    → a ≡ b
unfolding supersede_others
supersede_others_unique own [] t h = h
supersede_others_unique own (s ∷ ss) t h =
    supersede_others_unique own ss _ (step (not (s.id == own) && is_confirmed s.status))
  where
    step :
        (wanted : Bool)
        → (a b : CriteriaSet) → In a (supersede_if wanted s t).sets
        → In b (supersede_if wanted s t).sets
        → a.id ≡ b.id
        → a ≡ b
    step true = map_unique (supersede_row s.id) t.sets (supersede_row-id s.id) h
    step false = h

confirm_row-id : (now id : String) (s : CriteriaSet) → (confirm_row now id s).id ≡ s.id
confirm_row-id now id s = ground arith

confirm_row-task : (now id : String) (s : CriteriaSet) → (confirm_row now id s).task_id ≡ s.task_id
confirm_row-task now id s = ground arith

confirm_row_other :
    (now id : String) (s : CriteriaSet) → is_id id s ≡ false → confirm_row now id s ≡ s
confirm_row_other now id s h = rw (confirm_row, h) refl

-- Confirming the draft `s`, once its siblings are superseded.
module _ (t : Tables) (now : String) (s : CriteriaSet) (sound : IsSound t.sets)
    (m : In s t.sets) where
  abbrev pub cleared : Tables
  cleared = supersede_others s.id (siblings t s.task_id) t

  cleared-Reduces : Reduces t.sets cleared.sets
  cleared-Reduces =
      supersede_others-Reduces s.id t.sets (siblings t s.task_id) t (Reduces-refl t.sets)

  cleared_unique : (a b : CriteriaSet) → In a cleared.sets → In b cleared.sets → a.id ≡ b.id → a ≡ b
  cleared_unique = supersede_others_unique s.id (siblings t s.task_id) t sound.unique

  -- No other set of the task of `s` is confirmed then.
  other_not_confirmed :
      (v : CriteriaSet) (task : String)
      → In v cleared.sets
      → is_id s.id v ≡ false
      → v.task_id ≡ some task
      → s.task_id ≡ some task
      → is_confirmed v.status ≡ false
  other_not_confirmed v task n other e f = elim (Bool-cases (is_confirmed v.status)) [
    | inr un ↦ un
    | inl conf ↦
        let (v0, k, ids, tasks, origin) = cleared-Reduces v n in
        elim origin [
          | inl un ↦ absurd (cc)
          | inr same ↦
              let stored : In v t.sets = subst (λ x. In x t.sets) (sym same) k in
              let listed : In v (siblings t s.task_id) =
                subst (λ o. In v (siblings t o)) (sym f) (siblings-In t task v stored e) in
              supersede_others_clears s.id v (siblings t s.task_id) t listed other conf v n refl
        ]
  ]

  task_of_own :
      (u : CriteriaSet) (task : String)
      → In u cleared.sets
      → is_id s.id u ≡ true
      → u.task_id ≡ some task
      → s.task_id ≡ some task
  task_of_own u task n own e =
      let (u0, k, ids, tasks, origin) = cleared-Reduces u n in
      let same : u0 ≡ s = sound.unique u0 s k m (sym ids ∙ (eq_iff u.id s.id).0 own) in
      ap (λ (x : CriteriaSet). x.task_id) (sym same) ∙ sym tasks ∙ e

  clash :
      (u v : CriteriaSet) (task : String)
      → In u cleared.sets
      → In v cleared.sets
      → is_id s.id u ≡ true
      → is_id s.id v ≡ false
      → u.task_id ≡ some task
      → v.task_id ≡ some task
      → is_confirmed (confirm_row now s.id v).status ≡ true
      → ⊥
  clash u v task k l own other e f d =
      let un = other_not_confirmed v task l other f (task_of_own u task k own e) in
      let kept =
        ap (λ (x : CriteriaSet). is_confirmed x.status) (confirm_row_other now s.id v other) in
      cc

  confirmed_one :
      (u v : CriteriaSet) (task : String)
      → In u cleared.sets
      → In v cleared.sets
      → u.task_id ≡ some task
      → v.task_id ≡ some task
      → is_confirmed (confirm_row now s.id u).status ≡ true
      → is_confirmed (confirm_row now s.id v).status ≡ true
      → u ≡ v
  confirmed_one u v task k l e f c d = elim (Bool-cases (is_id s.id u)) [
    | inl own ↦ elim (Bool-cases (is_id s.id v)) [
      | inl own' ↦
          cleared_unique u v k l ((eq_iff u.id s.id).0 own ∙ sym ((eq_iff v.id s.id).0 own'))
      | inr other ↦ absurd (clash u v task k l own other e f d)
    ]
    | inr other ↦ elim (Bool-cases (is_id s.id v)) [
      | inl own ↦ absurd (clash v u task l k own other f e c)
      | inr other' ↦
          (IsSound-Reduces t.sets cleared.sets sound cleared-Reduces cleared_unique).one u v task k
            l e f
            (subst (λ (x : CriteriaSet). is_confirmed x.status ≡ true)
              (confirm_row_other now s.id u other) c)
            (subst (λ (x : CriteriaSet). is_confirmed x.status ≡ true)
              (confirm_row_other now s.id v other') d)
    ]
  ]

  pub confirm_set_row-IsSound : IsSound (confirm_set_row now s.id cleared).sets
  confirm_set_row-IsSound = record {
    unique =
        map_unique (confirm_row now s.id) cleared.sets (confirm_row-id now s.id) cleared_unique;
    one = λ u' v' task k' l' e f c d.
        let (u, k, u_is) = In-map (confirm_row now s.id) cleared.sets k' in
        let (v, l, v_is) = In-map (confirm_row now s.id) cleared.sets l' in
        let e' =
          sym (confirm_row-task now s.id u) ∙ ap (λ (x : CriteriaSet). x.task_id) (sym u_is) ∙ e in
        let f' =
          sym (confirm_row-task now s.id v) ∙ ap (λ (x : CriteriaSet). x.task_id) (sym v_is) ∙ f in
        let c' = subst (λ (x : CriteriaSet). is_confirmed x.status ≡ true) u_is c in
        let d' = subst (λ (x : CriteriaSet). is_confirmed x.status ≡ true) v_is d in
        u_is ∙ ap (confirm_row now s.id) (confirmed_one u v task k l e' f' c' d') ∙ sym v_is;
  }
