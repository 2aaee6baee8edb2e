-- ===== src/CriteriaSets/Frozen.antt =====
-- The criteria of a set that is no draft are never written again.
pub mod Criteria
pub mod Calls
use teskra.Base.{
  String, ◌==◌, eq_iff, Bool, true, false, not, ◌&&◌, ◌||◌, ◌⊎◌, inl, inr, List, [], ◌∷◌, ◌++◌, map,
  keep, any, Option, none, some, find_sound, if◌then◌else◌, In, here, there, In-append_cases,
  In-append_left, In-keep, any_intro, ◌≡◌, refl, sym, ap, ◌∙◌, subst, arith, Bool-cases, sum_cases,
}
use teskra.CriteriaSets.{
  SetStatus, draft, confirmed, superseded, CriteriaSet, Criterion, Tables, CriterionPatch, is_id,
  in_set, is_criterion, other_criterion, patch_row, breaks_set_key, by_ordinal, list_criteria,
  get_criterion_by_id, update_criterion_row, delete_criterion_row, confirm_row, confirm_set_row,
  supersede_row, supersede_set_row,
}
use teskra.CriteriaSets.Manager.{
  Manager, is_draft, is_confirmed, require_set, require_draft_set, if_draft, NewCriterion,
  new_criterion, create_set, confirm_set, supersede_set, add_criterion, update_criterion,
  remove_criterion, bind_run, supersede_if, supersede_others, siblings, Call, creates, adds,
  updates, removes, confirms, supersedes, binds, call, calls,
}
use teskra.CriteriaSets.Rows.{In-map, In-map_intro, supersede_row-id}
use teskra.CriteriaSets.Effects.{
  require_set_sound, create_set-tables, confirm_set-tables, supersede_set-tables,
  add_criterion-tables, update_criterion-tables, remove_criterion-tables, bind_run-tables,
}

-- A set that is there and no draft, in tables where an id names one criterion.
pub record IsFrozen (id : String) (t : Tables) : Type 0 where
  pub row : CriteriaSet
  pub there_is : In row t.sets
  pub named : row.id ≡ id
  pub closed : (s : CriteriaSet) → In s t.sets → s.id ≡ id → is_draft s.status ≡ false
  pub unique : (c d : Criterion) → In c t.criteria → In d t.criteria → c.id ≡ d.id → c ≡ d

abbrev pub criteria_of : String → Tables → List Criterion
criteria_of id t = keep (in_set id) t.criteria

-- What a call leaves of a frozen set: the same criteria.
abbrev pub Keeps : String → Tables → Tables → Type 0
Keeps id before after = IsFrozen id after × (criteria_of id after ≡ criteria_of id before)

pub require_draft_set_sound :
    (m : Manager) (id : String) {s : CriteriaSet}
    → require_draft_set m id ≡ inr s
    → In s m.tables.sets × (s.id ≡ id) × (is_draft s.status ≡ true)
unfolding require_draft_set
require_draft_set_sound m id {s} h = elim (sum_cases (require_set m id)) [
  | inl (e, bad) ↦ let h' = rw (bad, require_draft_set) at h in absurd (cc)
  | inr (r, good) ↦ elim (Bool-cases (is_draft r.status)) [
    | inr closed ↦ let h' = rw (good, closed, require_draft_set) at h in absurd (cc)
    | inl open' ↦
        let h' = rw (good, open', require_draft_set) at h in
        let same : r ≡ s = cc in
        let (k, e) = require_set_sound m id good in
        subst (λ x. In x m.tables.sets × (x.id ≡ id) × (is_draft x.status ≡ true)) same
          (k, e, open')
  ]
]

pub Keeps-same : (id : String) (t u : Tables) → IsFrozen id t → u ≡ t → Keeps id t u
Keeps-same id t u f e = subst (Keeps id t) (sym e) (f, refl)

-- Statements that keep the ids of sets and make no draft.
closes_map :
    (id : String) (t : Tables) (f : CriteriaSet → CriteriaSet)
    → ((s : CriteriaSet) → (f s).id ≡ s.id)
    → ((s : CriteriaSet) → is_draft s.status ≡ false → is_draft (f s).status ≡ false)
    → IsFrozen id t
    → IsFrozen id (record t { sets = map f t.sets })
closes_map id t f keeps_id keeps_closed frozen = record {
  row = f frozen.row;
  there_is = In-map_intro f frozen.there_is;
  named = keeps_id frozen.row ∙ frozen.named;
  closed = λ s' m e.
      let (s, k, is) = In-map f t.sets m in
      let e' = sym (keeps_id s) ∙ ap (λ (x : CriteriaSet). x.id) (sym is) ∙ e in
      subst (λ (x : CriteriaSet). is_draft x.status ≡ false) (sym is)
        (keeps_closed s (frozen.closed s k e'));
  unique = frozen.unique;
}

supersede_row_closed :
    (id : String) (s : CriteriaSet)
    → is_draft s.status ≡ false
    → is_draft (supersede_row id s).status ≡ false
supersede_row_closed id s h = ground arith

supersede_if-IsFrozen :
    (id : String) (wanted : Bool) (s : CriteriaSet) (t : Tables)
    → IsFrozen id t
    → IsFrozen id (supersede_if wanted s t) × ((supersede_if wanted s t).criteria ≡ t.criteria)
supersede_if-IsFrozen id true s t f = (
  closes_map id t (supersede_row s.id) (supersede_row-id s.id) (supersede_row_closed s.id) f,
  refl,
)
supersede_if-IsFrozen id false s t f = (f, refl)

supersede_others-IsFrozen :
    (id own : String) (ss : List CriteriaSet) (t : Tables)
    → IsFrozen id t
    → IsFrozen id (supersede_others own ss t) × ((supersede_others own ss t).criteria ≡ t.criteria)
unfolding supersede_others
supersede_others-IsFrozen id own [] t f = (f, refl)
supersede_others-IsFrozen id own (s ∷ ss) t f =
    let wanted = not (s.id == own) && is_confirmed s.status in
    let (g, e) = supersede_if-IsFrozen id wanted s t f in
    let (g', e') = supersede_others-IsFrozen id own ss (supersede_if wanted s t) g in (g', e' ∙ e)

confirm_row_id : (now id : String) (s : CriteriaSet) → (confirm_row now id s).id ≡ s.id
confirm_row_id now id s = ground arith

confirm_row_closed :
    (now id : String) (s : CriteriaSet)
    → is_draft s.status ≡ false
    → is_draft (confirm_row now id s).status ≡ false
confirm_row_closed now id s h = ground arith

pub Keeps-supersede :
    (id own : String) (t : Tables) → IsFrozen id t → Keeps id t (supersede_set_row own t)
Keeps-supersede id own t f =
    (closes_map id t (supersede_row own) (supersede_row-id own) (supersede_row_closed own) f, refl)

pub Keeps-confirm :
    (id now own : String) (ss : List CriteriaSet) (t : Tables)
    → IsFrozen id t
    → Keeps id t (confirm_set_row now own (supersede_others own ss t))
Keeps-confirm id now own ss t f =
    let (g, e) = supersede_others-IsFrozen id own ss t f in
    (
      closes_map id (supersede_others own ss t) (confirm_row now own) (confirm_row_id now own)
          (confirm_row_closed now own) g,
      ap (keep (in_set id)) e,
    )

pub In_last : {A : Type 0} {a b : A} → In a (b ∷ []) → a ≡ b
In_last (here e) = e
In_last (there m) = elim m [ ]

-- A new set has an id of its own.
pub Keeps-insert :
    (id : String) (s : CriteriaSet) (t : Tables)
    → any (breaks_set_key s) t.sets ≡ false
    → IsFrozen id t
    → Keeps id t (record t { sets = t.sets ++ s ∷ [] })
Keeps-insert id s t free f = (
  record {
    row = f.row;
    there_is = In-append_left (s ∷ []) f.there_is;
    named = f.named;
    closed = λ r m e. elim (In-append_cases t.sets (s ∷ []) m) [
      | inl k ↦ f.closed r k e
      | inr k ↦
          let is : f.row.id ≡ s.id = f.named ∙ sym e ∙ ap (λ (x : CriteriaSet). x.id) (In_last k) in
          let same = (eq_iff f.row.id s.id).1 is in
          let clash = any_intro (breaks_set_key s) f.there_is (rw (breaks_set_key, same) refl) in
          absurd (cc)
    ];
    unique = f.unique;
  },
  refl,
)
