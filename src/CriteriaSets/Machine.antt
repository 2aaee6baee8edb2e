-- ===== src/CriteriaSets/Machine.antt =====
-- What the manager promises of the sets of criteria, as a machine on their tasks and statuses alone.
use teskra.Base.{
  String, ◌==◌, eq_iff, true, false, ◌⊎◌, inl, inr, List, [], ◌∷◌, ◌++◌, Option, none, some, any,
  In, ◌≡◌, refl, sym, ap, ◌∙◌, subst,
}
use teskra.CriteriaSets.{
  SetStatus, draft, confirmed, superseded, CriteriaSet, Tables, breaks_set_key, confirm_set_row,
  supersede_set_row,
}
use teskra.CriteriaSets.Manager.{
  is_draft, is_confirmed, Manager, Call, creates, adds, updates, removes, confirms, supersedes,
  binds, call, calls, supersede_others, siblings,
}
use teskra.CriteriaSets.OneConfirmed.{IsSound}
use teskra.CriteriaSets.Effects.{
  create_set-tables, confirm_set-tables, supersede_set-tables, add_criterion-tables,
  update_criterion-tables, remove_criterion-tables, bind_run-tables,
}
use teskra.CriteriaSets.History.{call-IsSound}
use teskra.CriteriaSets.Statuses.{
  Entry, entry, has_task, entry_in, entry_in-found, replaced, entry_in-supersede_row,
  entry_in-confirm_row, entry_in-append, entry_in-new, entry_in-In, In-siblings,
  entry_in-supersede_others,
}

abbrev pub View : Type 0
View = String → Option Entry

abbrev pub view : Manager → View
view m = entry_in m.tables.sets

-- The entry of a confirmed set of the task, where there is a task.
abbrev pub IsHeld : Option String → Option Entry → Type 0
IsHeld task e = (has_task task ≡ true) × (e ≡ some (task, confirmed))

-- A confirmed set of the task becomes superseded, any other entry stays.
abbrev pub IsReduced : Option String → (old new : Option Entry) → Type 0
IsReduced task old new =
    ((new ≡ old) × ¬ IsHeld task old) ⊎ (IsHeld task old × (new ≡ some (task, superseded)))

abbrev pub OthersReduced : String → Option String → View → View → Type 0
OthersReduced id task v v' = (x : String) → (id == x) ≡ false → IsReduced task (v x) (v' x)

abbrev pub OthersKept : String → View → View → Type 0
OthersKept id v v' = (x : String) → (id == x) ≡ false → v' x ≡ v x

-- A set is created as a draft, a draft is confirmed, a confirmed set is superseded, and nothing else.
pub data IsStep (v v' : View) : Type 0 where
  stays : ((x : String) → v' x ≡ v x) → IsStep v v'
  drafts :
      (id : String) (task : Option String)
      → v id ≡ none
      → v' id ≡ some (task, draft)
      → OthersKept id v v'
      → IsStep v v'
  is_confirming :
      (id : String) (task : Option String)
      → v id ≡ some (task, draft)
      → v' id ≡ some (task, confirmed)
      → OthersReduced id task v v'
      → IsStep v v'
  is_superseding :
      (id : String) (task : Option String)
      → v id ≡ some (task, confirmed)
      → v' id ≡ some (task, superseded)
      → OthersKept id v v'
      → IsStep v v'

pub data AreSteps (v : View) : View → Type 0 where
  begins : {v' : View} → v ≡ v' → AreSteps v v'
  and_then : {v' v'' : View} → AreSteps v v' → IsStep v' v'' → AreSteps v v''

draft_status : (x : SetStatus) → is_draft x ≡ true → x ≡ draft
draft_status draft h = refl
draft_status confirmed h = absurd (cc)
draft_status superseded h = absurd (cc)

confirmed_status : (x : SetStatus) → is_confirmed x ≡ true → x ≡ confirmed
confirmed_status draft h = absurd (cc)
confirmed_status confirmed h = refl
confirmed_status superseded h = absurd (cc)

-- The entry of a row, where ids are unique.
entry_of_row :
    (sets : List CriteriaSet)
    → IsSound sets
    → (x : String) {s : CriteriaSet} → In s sets
    → s.id ≡ x
    → entry_in sets x ≡ some (entry s)
entry_of_row sets sound x {s} m e =
    let (r, k, named, found) = entry_in-In x sets m e in
    let same : r ≡ s = sound.unique r s k m (named ∙ sym e) in
    found ∙ ap (λ (y : CriteriaSet). some (entry y)) same

unchanged : (xs ys : List CriteriaSet) → ys ≡ xs → IsStep (entry_in xs) (entry_in ys)
unchanged xs ys e = stays (λ x. ap (λ ss. entry_in ss x) e)

id_self : (id : String) → (id == id) ≡ true
id_self id = (eq_iff id id).1 refl

supersede-IsStep :
    (t u : Tables) (id : String) {s : CriteriaSet}
    → IsSound t.sets
    → In s t.sets
    → s.id ≡ id
    → is_confirmed s.status ≡ true
    → u ≡ supersede_set_row id t
    → IsStep (entry_in t.sets) (entry_in u.sets)
supersede-IsStep t u id {s} sound m named was done =
    let before =
      entry_of_row t.sets sound id m named
      ∙ ap (λ y. some (s.task_id, y)) (confirmed_status s.status was) in
    let after = λ (x : String).
      ap (λ (y : Tables). entry_in y.sets x) done ∙ entry_in-supersede_row id x t.sets in
    is_superseding id s.task_id before
      (after id ∙ rw (id_self id) (ap (replaced superseded) before))
      (λ x other. after x ∙ rw (other) refl)

create-IsStep :
    (t u : Tables) (s : CriteriaSet)
    → is_draft s.status ≡ true
    → any (breaks_set_key s) t.sets ≡ false
    → u ≡ record t { sets = t.sets ++ s ∷ [] }
    → IsStep (entry_in t.sets) (entry_in u.sets)
create-IsStep t u s fresh free done =
    let (gone, there_now) = entry_in-new t.sets s free in
    let after = λ (x : String). ap (λ (y : Tables). entry_in y.sets x) done in
    drafts s.id s.task_id gone
      (after s.id ∙ there_now ∙ ap (λ y. some (s.task_id, y)) (draft_status s.status fresh))
      (λ x other. after x ∙ entry_in-append x t.sets s other)

-- What the loop of a confirmation does to another set.
others_reduced :
    (t : Tables) (id x : String) (task : Option String)
    → IsSound t.sets
    → (entry_in (supersede_others id (siblings t task) t).sets x ≡ entry_in t.sets x)
      ⊎ (IsHeld task (entry_in t.sets x)
          × (entry_in (supersede_others id (siblings t task) t).sets x ≡ some (task, superseded)))
others_reduced t id x task sound = elim (entry_in-supersede_others id x (siblings t task) t) [
  | inl same ↦ inl same
  | inr ((s, m, named, other, was), changed) ↦
      let (k, own, has) = In-siblings t task s m in
      let before =
        entry_of_row t.sets sound x k named
        ∙ ap (λ y. some (y, s.status)) own
        ∙ ap (λ y. some (task, y)) (confirmed_status s.status was) in
      inr ((has, before), changed ∙ ap (replaced superseded) before)
]

own_kept :
    (t : Tables) (id : String) (task : Option String)
    → entry_in (supersede_others id (siblings t task) t).sets id ≡ entry_in t.sets id
own_kept t id task = elim (entry_in-supersede_others id id (siblings t task) t) [
  | inl same ↦ same
  | inr ((s, m, named, other, was), changed) ↦ let h = id_self id in absurd (cc)
]

-- Beside a confirmed set, its task holds no other.
IsHeld-alone :
    (xs : List CriteriaSet) (id x : String) (task : Option String)
    → IsSound xs
    → entry_in xs id ≡ some (task, confirmed)
    → (id == x) ≡ false
    → ¬ IsHeld task (entry_in xs x)
IsHeld-alone xs id x none sound own other (has, held) = absurd (cc)
IsHeld-alone xs id x (some task) sound own other (has, held) =
    let (r, k, r_id, r_is) = entry_in-found id xs own in
    let (s, m, s_id, s_is) = entry_in-found x xs held in
    let confirmed_is = λ (y : Entry). is_confirmed y.1 in
    let same : r ≡ s =
      sound.one r s task k m (ap (λ y. y.0) r_is) (ap (λ y. y.0) s_is) (ap confirmed_is r_is)
        (ap confirmed_is s_is) in
    let same_id : id ≡ x = sym r_id ∙ ap (λ (y : CriteriaSet). y.id) same ∙ s_id in
    let equal = (eq_iff id x).1 same_id in cc

IsReduced-to :
    {task : Option String} {a b c : Option Entry}
    → c ≡ b
    → ¬ IsHeld task c
    → (b ≡ a) ⊎ (IsHeld task a × (b ≡ some (task, superseded)))
    → IsReduced task a c
IsReduced-to {task} e free (inl h) = inl (e ∙ h, λ (has, held). free (has, e ∙ h ∙ held))
IsReduced-to e free (inr (held, q)) = inr (held, e ∙ q)

confirm-IsStep :
    (t u : Tables) (now id : String) {s : CriteriaSet}
    → IsSound t.sets
    → IsSound u.sets
    → In s t.sets
    → s.id ≡ id
    → is_draft s.status ≡ true
    → u ≡ confirm_set_row now id (supersede_others id (siblings t s.task_id) t)
    → IsStep (entry_in t.sets) (entry_in u.sets)
confirm-IsStep t u now id {s} sound sound_after m named was done =
    let before =
      entry_of_row t.sets sound id m named
      ∙ ap (λ y. some (s.task_id, y)) (draft_status s.status was) in
    let mid : Tables = supersede_others id (siblings t s.task_id) t in
    let after = λ (x : String).
      ap (λ (y : Tables). entry_in y.sets x) done ∙ entry_in-confirm_row now id x mid.sets in
    let own =
      after id ∙ rw (id_self id) (ap (replaced confirmed) (own_kept t id s.task_id ∙ before)) in
    is_confirming id s.task_id before own (λ x other.
      IsReduced-to (after x ∙ rw (other) refl)
        (IsHeld-alone u.sets id x s.task_id sound_after own other)
        (others_reduced t id x s.task_id sound))

call-IsStep : (m : Manager) (c : Call) → IsSound m.tables.sets → IsStep (view m) (view (call m c))
unfolding call
call-IsStep m (creates now id task) sound = elim (create_set-tables m now id task) [
  | inl same ↦ unchanged _ _ (ap (λ (t : Tables). t.sets) same)
  | inr (s, fresh, free, done) ↦ create-IsStep m.tables _ s fresh free done
]
call-IsStep m (confirms now id) sound = elim (confirm_set-tables m now id) [
  | inl same ↦ unchanged _ _ (ap (λ (t : Tables). t.sets) same)
  | inr (s, k, named, was, done) ↦
      confirm-IsStep m.tables _ now id sound (call-IsSound m (confirms now id) sound) k named was
        done
]
call-IsStep m (supersedes id) sound = elim (supersede_set-tables m id) [
  | inl same ↦ unchanged _ _ (ap (λ (t : Tables). t.sets) same)
  | inr (s, k, named, was, done) ↦ supersede-IsStep m.tables _ id sound k named was done
]
call-IsStep m (adds now id q) sound = elim (add_criterion-tables m now id q) [
  | inl same ↦ unchanged _ _ (ap (λ (t : Tables). t.sets) same)
  | inr (s, d, f, done) ↦ unchanged _ _ (ap (λ (t : Tables). t.sets) done)
]
call-IsStep m (updates id p) sound = elim (update_criterion-tables m id p) [
  | inl same ↦ unchanged _ _ (ap (λ (t : Tables). t.sets) same)
  | inr (c, s, e, d, done) ↦ unchanged _ _ (ap (λ (t : Tables). t.sets) done)
]
call-IsStep m (removes id) sound = elim (remove_criterion-tables m id) [
  | inl same ↦ unchanged _ _ (ap (λ (t : Tables). t.sets) same)
  | inr (c, s, e, d, done) ↦ unchanged _ _ (ap (λ (t : Tables). t.sets) done)
]
call-IsStep m (binds run set) sound = unchanged _ _ (bind_run-tables m run set).0

steps_first : {v v' v'' : View} → IsStep v v' → AreSteps v' v'' → AreSteps v v''
steps_first {v} s (begins e) = and_then (begins refl) (subst (IsStep v) e s)
steps_first s (and_then rest last) = and_then (steps_first s rest) last

-- From tables whose ids are unique, with at most one confirmed set for a task: any history of calls
-- is, on the tasks and statuses of the sets, a run of the machine that creates drafts, confirms a
-- draft, which supersedes exactly the other confirmed sets of its task (none where it has no task),
-- supersedes a confirmed set, and does nothing else.
pub calls-AreSteps :
    (m : Manager) (cs : List Call) → IsSound m.tables.sets → AreSteps (view m) (view (calls m cs))
unfolding calls
calls-AreSteps m [] sound = begins refl
calls-AreSteps m (c ∷ cs) sound =
    steps_first (call-IsStep m c sound) (calls-AreSteps (call m c) cs (call-IsSound m c sound))
