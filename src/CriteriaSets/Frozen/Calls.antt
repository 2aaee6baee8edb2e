-- ===== src/CriteriaSets/Frozen/Calls.antt =====
-- Over any calls a set that is no draft keeps its criteria.
use teskra.Base.{
  String, ◌==◌, eq_iff, false, inl, inr, List, [], ◌∷◌, keep, In, ◌≡◌, refl, sym, ap, ◌∙◌, subst,
  Bool-cases,
}
use teskra.CriteriaSets.{CriteriaSet, Tables, in_set, by_ordinal, list_criteria}
use teskra.CriteriaSets.Manager.{
  siblings, Manager, require_draft_set, new_criterion, Call, creates, adds, updates, removes,
  confirms, supersedes, binds, call, calls,
}
use teskra.CriteriaSets.Effects.{
  create_set-tables, confirm_set-tables, supersede_set-tables, add_criterion-tables,
  update_criterion-tables, remove_criterion-tables, bind_run-tables,
}
use teskra.CriteriaSets.Frozen.{
  IsFrozen, Keeps, Keeps-same, Keeps-supersede, Keeps-confirm, Keeps-insert,
  require_draft_set_sound,
}
use teskra.CriteriaSets.Frozen.Criteria.{Keeps-add, not_in_frozen, Keeps-update, Keeps-delete}

-- A draft is no frozen set.
draft_elsewhere :
    (id : String) (m : Manager) (other : String) {s : CriteriaSet}
    → IsFrozen id m.tables
    → require_draft_set m other ≡ inr s
    → (other == id) ≡ false
draft_elsewhere id m other {s} f h = elim (Bool-cases (other == id)) [
  | inr no' ↦ no'
  | inl same ↦
      let (k, named, open') = require_draft_set_sound m other h in
      let closed = f.closed s k (named ∙ (eq_iff other id).0 same) in absurd (cc)
]

Keeps-to : (id : String) (t : Tables) {u v : Tables} → v ≡ u → Keeps id t u → Keeps id t v
Keeps-to id t e k = subst (Keeps id t) (sym e) k

IsFrozen-parts :
    (id : String) (t u : Tables)
    → u.sets ≡ t.sets
    → u.criteria ≡ t.criteria
    → IsFrozen id t
    → IsFrozen id u
IsFrozen-parts id t u sets criteria f = record {
  row = f.row;
  there_is = subst (In f.row) (sym sets) f.there_is;
  named = f.named;
  closed = λ s m e. f.closed s (subst (In s) sets m) e;
  unique = λ c d m n e. f.unique c d (subst (In c) criteria m) (subst (In d) criteria n) e;
}

call-Keeps :
    (id : String) (m : Manager) (c : Call)
    → IsFrozen id m.tables
    → Keeps id m.tables (call m c).tables
unfolding call
call-Keeps id m (creates now new task) f = elim (create_set-tables m now new task) [
  | inl same ↦ Keeps-same id m.tables _ f same
  | inr (s, fresh, free, done) ↦ Keeps-to id m.tables done (Keeps-insert id s m.tables free f)
]
call-Keeps id m (confirms now own) f = elim (confirm_set-tables m now own) [
  | inl same ↦ Keeps-same id m.tables _ f same
  | inr (s, k, named, was, done) ↦
      Keeps-to id m.tables done (Keeps-confirm id now own (siblings m.tables s.task_id) m.tables f)
]
call-Keeps id m (supersedes own) f = elim (supersede_set-tables m own) [
  | inl same ↦ Keeps-same id m.tables _ f same
  | inr (s, k, named, was, done) ↦ Keeps-to id m.tables done (Keeps-supersede id own m.tables f)
]
call-Keeps id m (adds now new q) f = elim (add_criterion-tables m now new q) [
  | inl same ↦ Keeps-same id m.tables _ f same
  | inr (s, drafted, free, done) ↦ Keeps-to id m.tables done (
      Keeps-add id (new_criterion m now new q) m.tables (draft_elsewhere id m q.set_id f drafted)
        free f)
]
call-Keeps id m (updates cid p) f = elim (update_criterion-tables m cid p) [
  | inl same ↦ Keeps-same id m.tables _ f same
  | inr (c, s, found, drafted, done) ↦ Keeps-to id m.tables done (
      Keeps-update id cid p m.tables
        (not_in_frozen id cid c m.tables f found (draft_elsewhere id m c.criteria_set_id f drafted))
        f)
]
call-Keeps id m (removes cid) f = elim (remove_criterion-tables m cid) [
  | inl same ↦ Keeps-same id m.tables _ f same
  | inr (c, s, found, drafted, done) ↦ Keeps-to id m.tables done (
      Keeps-delete id cid m.tables
        (not_in_frozen id cid c m.tables f found (draft_elsewhere id m c.criteria_set_id f drafted))
        f)
]
call-Keeps id m (binds run set) f =
    let (sets, criteria) = bind_run-tables m run set in
    (IsFrozen-parts id m.tables _ sets criteria f, ap (keep (in_set id)) criteria)

calls-Keeps :
    (id : String) (cs : List Call) (m : Manager)
    → IsFrozen id m.tables
    → Keeps id m.tables (calls m cs).tables
unfolding calls
calls-Keeps id [] m f = (f, refl)
calls-Keeps id (c ∷ cs) m f =
    let (g, e) = call-Keeps id m c f in
    let (g', e') = calls-Keeps id cs (call m c) g in (g', e' ∙ e)

-- Over any history of calls, a set that is no draft stays one, and its criteria are not written: the
-- list of them stays as it is.
pub calls-keeps_criteria :
    (id : String) (cs : List Call) (m : Manager)
    → IsFrozen id m.tables
    → IsFrozen id (calls m cs).tables
      × (list_criteria (calls m cs).tables id ≡ list_criteria m.tables id)
unfolding list_criteria
calls-keeps_criteria id cs m f = let (g, e) = calls-Keeps id cs m f in (g, ap by_ordinal e)
