-- ===== src/CriteriaSets/Frozen/Criteria.antt =====
-- The statements on criteria, and a set that is no draft.
use teskra.Base.{
  String, ◌==◌, eq_iff, Bool, true, false, inl, inr, List, [], ◌∷◌, ◌++◌, map, keep, any, some,
  find_sound, In, here, there, In-append_cases, In-keep, any_intro, ◌≡◌, refl, sym, ap, ◌∙◌, subst,
  arith, Bool-cases,
}
use teskra.CriteriaSets.{
  Criterion, Tables, CriterionPatch, in_set, is_criterion, other_criterion, patch_row,
  get_criterion_by_id, update_criterion_row, delete_criterion_row,
}
use teskra.CriteriaSets.Rows.{In-map}
use teskra.CriteriaSets.Frozen.{IsFrozen, Keeps, In_last}

keep-append_none :
    (p : Criterion → Bool) (cs : List Criterion) (c : Criterion)
    → p c ≡ false
    → keep p (cs ++ c ∷ []) ≡ keep p cs
keep-append_none p [] c h = rw (keep, h) refl
keep-append_none p (d ∷ ds) c h = ground (arith, keep-append_none p ds c h)

pub Keeps-add :
    (id : String) (c : Criterion) (t : Tables)
    → in_set id c ≡ false
    → any (is_criterion c.id) t.criteria ≡ false
    → IsFrozen id t
    → Keeps id t (record t { criteria = t.criteria ++ c ∷ [] })
Keeps-add id c t other free f = (
  record {
    row = f.row;
    there_is = f.there_is;
    named = f.named;
    closed = f.closed;
    unique = λ a b m n e. elim (In-append_cases t.criteria (c ∷ []) m) [
      | inl k ↦ elim (In-append_cases t.criteria (c ∷ []) n) [
        | inl l ↦ f.unique a b k l e
        | inr l ↦ absurd (taken a k (e ∙ ap (λ (x : Criterion). x.id) (In_last l)))
      ]
      | inr k ↦ elim (In-append_cases t.criteria (c ∷ []) n) [
        | inl l ↦ absurd (taken b l (sym e ∙ ap (λ (x : Criterion). x.id) (In_last k)))
        | inr l ↦ In_last k ∙ sym (In_last l)
      ]
    ];
  },
  keep-append_none (in_set id) t.criteria c other,
)
  where
    taken : (a : Criterion) → In a t.criteria → a.id ≡ c.id → ⊥
    taken a k e =
        let same = (eq_iff a.id c.id).1 e in let clash = any_intro (is_criterion c.id) k same in cc

-- A criterion of another set: no row of the frozen set has its id.
pub not_in_frozen :
    (id cid : String) (c : Criterion) (t : Tables)
    → IsFrozen id t
    → get_criterion_by_id t cid ≡ some c
    → in_set id c ≡ false
    → (d : Criterion) → In d t.criteria
    → is_criterion cid d ≡ true
    → in_set id d ≡ false
not_in_frozen id cid c t f found other d m own =
    let (k, is) = find_sound (is_criterion cid) t.criteria found in
    let same : d ≡ c = f.unique d c m k ((eq_iff d.id cid).0 own ∙ sym ((eq_iff c.id cid).0 is)) in
    subst (λ x. in_set id x ≡ false) (sym same) other

patch_row-id : (cid : String) (p : CriterionPatch) (c : Criterion) → (patch_row cid p c).id ≡ c.id
patch_row-id cid p c = ground arith

patch_row-set :
    (cid : String) (p : CriterionPatch) (c : Criterion)
    → (patch_row cid p c).criteria_set_id ≡ c.criteria_set_id
patch_row-set cid p c = ground arith

keep-patch_row :
    (id cid : String) (p : CriterionPatch) (cs : List Criterion)
    → ((d : Criterion) → In d cs → is_criterion cid d ≡ true → in_set id d ≡ false)
    → keep (in_set id) (map (patch_row cid p) cs) ≡ keep (in_set id) cs
keep-patch_row id cid p [] h = refl
keep-patch_row id cid p (c ∷ cs) h =
    let ih = keep-patch_row id cid p cs (λ d m. h d (there m)) in
    let set : in_set id (patch_row cid p c) ≡ in_set id c =
      ap (λ i. i == id) (patch_row-set cid p c) in
    elim (Bool-cases (is_criterion cid c)) [
      | inl own ↦ let out = h c (here refl) own in rw (keep, set, out) ih
      | inr other ↦ rw (patch_row, other, keep, ih) refl
    ]

pub Keeps-update :
    (id cid : String) (p : CriterionPatch) (t : Tables)
    → ((d : Criterion) → In d t.criteria → is_criterion cid d ≡ true → in_set id d ≡ false)
    → IsFrozen id t
    → Keeps id t (update_criterion_row cid p t)
Keeps-update id cid p t h f = (
  record {
    row = f.row;
    there_is = f.there_is;
    named = f.named;
    closed = f.closed;
    unique = λ a' b' m n e.
        let (a, k, a_is) = In-map (patch_row cid p) t.criteria m in
        let (b, l, b_is) = In-map (patch_row cid p) t.criteria n in
        let ids =
          sym (patch_row-id cid p a)
          ∙ ap (λ (x : Criterion). x.id) (sym a_is)
          ∙ e
          ∙ ap (λ (x : Criterion). x.id) b_is
          ∙ patch_row-id cid p b in
        a_is ∙ ap (patch_row cid p) (f.unique a b k l ids) ∙ sym b_is;
  },
  keep-patch_row id cid p t.criteria h,
)

keep-other_criterion :
    (id cid : String) (cs : List Criterion)
    → ((d : Criterion) → In d cs → is_criterion cid d ≡ true → in_set id d ≡ false)
    → keep (in_set id) (keep (other_criterion cid) cs) ≡ keep (in_set id) cs
keep-other_criterion id cid [] h = refl
keep-other_criterion id cid (c ∷ cs) h =
    let ih = keep-other_criterion id cid cs (λ d m. h d (there m)) in
    elim (Bool-cases (is_criterion cid c)) [
      | inl own ↦ let out = h c (here refl) own in rw (keep, own, out) ih
      | inr other ↦ rw (keep, other, ih) refl
    ]

pub Keeps-delete :
    (id cid : String) (t : Tables)
    → ((d : Criterion) → In d t.criteria → is_criterion cid d ≡ true → in_set id d ≡ false)
    → IsFrozen id t
    → Keeps id t (delete_criterion_row cid t)
Keeps-delete id cid t h f = (
  record {
    row = f.row;
    there_is = f.there_is;
    named = f.named;
    closed = f.closed;
    unique = λ a b m n e.
        f.unique a b (In-keep (other_criterion cid) t.criteria m).0
          (In-keep (other_criterion cid) t.criteria n).0 e;
  },
  keep-other_criterion id cid t.criteria h,
)
