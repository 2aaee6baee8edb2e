-- ===== src/CriteriaSets/OneConfirmed.antt =====
-- At most one set of a task is confirmed, over any calls of the manager.
pub mod Confirms
use teskra.Base.{
  String, ◌==◌, eq_iff, Bool, true, false, not, ◌&&◌, inl, inr, List, [], ◌∷◌, ◌++◌, map, some, any,
  In, here, there, In-append_cases, any_intro, ◌≡◌, refl, sym, ap, ◌∙◌, subst, arith, Bool-cases,
}
use teskra.CriteriaSets.{
  CriteriaSet, Tables, is_id, breaks_set_key, confirm_row, confirm_set_row, supersede_row,
  supersede_set_row,
}
use teskra.CriteriaSets.Manager.{is_confirmed, supersede_if, supersede_others, siblings}
use teskra.CriteriaSets.Rows.{
  In-map, siblings-In, supersede_row-id, supersede_others_clears, Reduces,
  supersede_set_row-Reduces, supersede_others-Reduces,
}

-- Ids are a primary key, and no two confirmed sets are of one task.
pub record IsSound (xs : List CriteriaSet) : Type 0 where
  pub unique : (s t : CriteriaSet) → In s xs → In t xs → s.id ≡ t.id → s ≡ t
  pub one :
      (s t : CriteriaSet) (task : String)
      → In s xs
      → In t xs
      → s.task_id ≡ some task
      → t.task_id ≡ some task
      → is_confirmed s.status ≡ true
      → is_confirmed t.status ≡ true
      → s ≡ t

In_one : {s t : CriteriaSet} → In t (s ∷ []) → t ≡ s
In_one (here e) = e
In_one (there m) = elim m [ ]

new_row_differs :
    (xs : List CriteriaSet) (s t : CriteriaSet)
    → any (breaks_set_key s) xs ≡ false
    → In t xs
    → t.id ≡ s.id
    → ⊥
new_row_differs xs s t free m e =
    let same : (t.id == s.id) ≡ true = (eq_iff t.id s.id).1 e in
    let clash = any_intro (breaks_set_key s) m (rw (breaks_set_key, same) refl) in cc

pub IsSound-insert :
    (xs : List CriteriaSet) (s : CriteriaSet)
    → IsSound xs
    → any (breaks_set_key s) xs ≡ false
    → is_confirmed s.status ≡ false
    → IsSound (xs ++ s ∷ [])
IsSound-insert xs s sound free fresh = record {
  unique = λ a b m n e. elim (In-append_cases xs (s ∷ []) m) [
    | inl k ↦ elim (In-append_cases xs (s ∷ []) n) [
      | inl l ↦ sound.unique a b k l e
      | inr l ↦
          absurd (new_row_differs xs s a free k (e ∙ ap (λ (x : CriteriaSet). x.id) (In_one l)))
    ]
    | inr k ↦ elim (In-append_cases xs (s ∷ []) n) [
      | inl l ↦
          absurd (new_row_differs xs s b free l (sym e ∙ ap (λ (x : CriteriaSet). x.id) (In_one k)))
      | inr l ↦ In_one k ∙ sym (In_one l)
    ]
  ];
  one = λ a b task m n e f c d. elim (In-append_cases xs (s ∷ []) m) [
    | inr k ↦ let x = ap (λ (y : CriteriaSet). is_confirmed y.status) (In_one k) in absurd (cc)
    | inl k ↦ elim (In-append_cases xs (s ∷ []) n) [
      | inr l ↦ let x = ap (λ (y : CriteriaSet). is_confirmed y.status) (In_one l) in absurd (cc)
      | inl l ↦ sound.one a b task k l e f c d
    ]
  ];
}

-- Rows that keep their ids and tasks, and of which no more are confirmed.
pub IsSound-Reduces :
    (before after : List CriteriaSet)
    → IsSound before
    → Reduces before after
    → ((s t : CriteriaSet) → In s after → In t after → s.id ≡ t.id → s ≡ t)
    → IsSound after
IsSound-Reduces before after sound red unique = record {
  unique = unique;
  one = λ s' t' task m n e f c d.
      let (s, k, same_id, same_task, origin) = red s' m in
      let (t, l, same_id', same_task', origin') = red t' n in
      elim origin [
        | inl un ↦ absurd (cc)
        | inr s_is ↦ elim origin' [
          | inl un ↦ absurd (cc)
          | inr t_is ↦
              s_is
              ∙ sound.one s t task k l (sym same_task ∙ e) (sym same_task' ∙ f)
                  (subst (λ (x : CriteriaSet). is_confirmed x.status ≡ true) s_is c)
                  (subst (λ (x : CriteriaSet). is_confirmed x.status ≡ true) t_is d)
              ∙ sym t_is
        ]
      ];
}

pub map_unique :
    (f : CriteriaSet → CriteriaSet) (xs : List CriteriaSet)
    → ((s : CriteriaSet) → (f s).id ≡ s.id)
    → ((s t : CriteriaSet) → In s xs → In t xs → s.id ≡ t.id → s ≡ t)
    → (s t : CriteriaSet) → In s (map f xs)
    → In t (map f xs)
    → s.id ≡ t.id
    → s ≡ t
map_unique f xs keeps unique s' t' m n e =
    let (s, k, s_is) = In-map f xs m in
    let (t, l, t_is) = In-map f xs n in
    let ids : s.id ≡ t.id =
      sym (keeps s)
      ∙ ap (λ (x : CriteriaSet). x.id) (sym s_is)
      ∙ e
      ∙ ap (λ (x : CriteriaSet). x.id) t_is
      ∙ keeps t in
    s_is ∙ ap f (unique s t k l ids) ∙ sym t_is

pub Reduces-refl : (xs : List CriteriaSet) → Reduces xs xs
Reduces-refl xs s m = (s, m, refl, refl, inr refl)

pub supersede_set_row-IsSound :
    (id : String) (t : Tables) → IsSound t.sets → IsSound (supersede_set_row id t).sets
supersede_set_row-IsSound id t sound =
    IsSound-Reduces t.sets _ sound (supersede_set_row-Reduces id t.sets t (Reduces-refl t.sets))
      (map_unique (supersede_row id) t.sets (supersede_row-id id) sound.unique)
