-- ===== src/CriteriaSets/History.antt =====
-- Over any calls of the manager at most one set of a task is confirmed.
use teskra.Base.{true, false, inl, inr, List, [], ◌∷◌, ◌≡◌, refl, sym, subst}
use teskra.CriteriaSets.{SetStatus, draft, confirmed, superseded, Tables, confirm_set_row}
use teskra.CriteriaSets.Manager.{
  Manager, is_draft, is_confirmed, supersede_others, siblings, Call, creates, adds, updates,
  removes, confirms, supersedes, binds, call, calls,
}
use teskra.CriteriaSets.OneConfirmed.{IsSound, IsSound-insert, supersede_set_row-IsSound}
use teskra.CriteriaSets.OneConfirmed.Confirms.{confirm_set_row-IsSound}
use teskra.CriteriaSets.Effects.{
  create_set-tables, confirm_set-tables, supersede_set-tables, add_criterion-tables,
  update_criterion-tables, remove_criterion-tables, bind_run-tables,
}

drafts_unconfirmed : (x : SetStatus) → is_draft x ≡ true → is_confirmed x ≡ false
drafts_unconfirmed draft h = refl
drafts_unconfirmed confirmed h = absurd (cc)
drafts_unconfirmed superseded h = refl

IsSound-same : (t u : Tables) → t ≡ u → IsSound u.sets → IsSound t.sets
IsSound-same t u e h = subst (λ (x : Tables). IsSound x.sets) (sym e) h

pub call-IsSound : (m : Manager) (c : Call) → IsSound m.tables.sets → IsSound (call m c).tables.sets
unfolding call
call-IsSound m (creates now id task) h = elim (create_set-tables m now id task) [
  | inl same ↦ IsSound-same _ _ same h
  | inr (s, fresh, free, done) ↦
      IsSound-same _ _ done
        (IsSound-insert m.tables.sets s h free (drafts_unconfirmed s.status fresh))
]
call-IsSound m (confirms now id) h = elim (confirm_set-tables m now id) [
  | inl same ↦ IsSound-same _ _ same h
  | inr (s, k, named, was, done) ↦
      let confirmed_sound : IsSound
          (confirm_set_row now id
            (supersede_others id (siblings m.tables s.task_id) m.tables)).sets =
        subst
          (λ i.
            IsSound
              (confirm_set_row now i
                (supersede_others i (siblings m.tables s.task_id) m.tables)).sets)
          named (confirm_set_row-IsSound m.tables now s h k) in
      IsSound-same _ _ done confirmed_sound
]
call-IsSound m (supersedes id) h = elim (supersede_set-tables m id) [
  | inl same ↦ IsSound-same _ _ same h
  | inr (s, k, named, was, done) ↦ IsSound-same _ _ done (supersede_set_row-IsSound id m.tables h)
]
call-IsSound m (adds now id q) h = elim (add_criterion-tables m now id q) [
  | inl same ↦ IsSound-same _ _ same h
  | inr (s, d, f, done) ↦ IsSound-same _ _ done h
]
call-IsSound m (updates id p) h = elim (update_criterion-tables m id p) [
  | inl same ↦ IsSound-same _ _ same h
  | inr (c, s, g, d, done) ↦ IsSound-same _ _ done h
]
call-IsSound m (removes id) h = elim (remove_criterion-tables m id) [
  | inl same ↦ IsSound-same _ _ same h
  | inr (c, s, g, d, done) ↦ IsSound-same _ _ done h
]
call-IsSound m (binds run set) h =
    let (sets, criteria) = bind_run-tables m run set in subst IsSound (sym sets) h

-- Over any history of calls, ids stay unique and at most one set of a task is confirmed.
pub calls-IsSound :
    (cs : List Call) (m : Manager) → IsSound m.tables.sets → IsSound (calls m cs).tables.sets
unfolding calls
calls-IsSound [] m h = h
calls-IsSound (c ∷ cs) m h = calls-IsSound cs (call m c) (call-IsSound m c h)
