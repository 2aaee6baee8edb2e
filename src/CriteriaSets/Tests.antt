-- ===== src/CriteriaSets/Tests.antt =====
-- Runs of the manager of acceptance criteria.
use teskra.Base.{
  ◌≡◌, refl, sym, ap, ◌∙◌, eq_iff, true, false, ◌⊎◌, inl, inr, List, [], ◌∷◌, none, some, In, here,
  there,
}
use teskra.CriteriaSets.{
  confirmed, superseded, CriteriaSet, Criterion, insert_set, list_sets_by_task, list_criteria,
}
use teskra.CriteriaSets.Manager.{
  is_draft, is_confirmed, Manager, empty_set, Call, creates, adds, confirms, create_set,
  add_criterion, confirm_set, require_set, require_draft_set, supersede_others, call, calls,
}
use teskra.CriteriaSets.OneConfirmed.{IsSound}
use teskra.CriteriaSets.History.{calls-IsSound}
use teskra.CriteriaSets.Machine.{view, AreSteps, calls-AreSteps}
use teskra.CriteriaSets.Frozen.{IsFrozen}
use teskra.CriteriaSets.Frozen.Calls.{calls-keeps_criteria}

abbrev empty : Manager
empty = record {
  tables = record {
    sets = [];
    criteria = [];
    runs = record { id = "run"; task_id = some "t"; criteria_set_id = none } ∷ [];
    tasks = "t" ∷ [];
  };
  updated = [];
}

abbrev two_versions : List Call
two_versions =
    creates "1" "a" "t"
    ∷ adds "2" "c"
        (record { set_id = "a"; description = "works"; category = none; required = none })
    ∷ confirms "3" "a"
    ∷ creates "4" "b" "t"
    ∷ adds "5" "d"
        (record { set_id = "b"; description = "fast"; category = none; required = some false })
    ∷ confirms "6" "b"
    ∷ []

abbrev row_a : CriteriaSet
row_a = record {
  id = "a";
  task_id = some "t";
  version = 1;
  status = superseded;
  confirmed_at = some "3";
  created_at = "1";
}

abbrev row_b : CriteriaSet
row_b = record {
  id = "b";
  task_id = some "t";
  version = 2;
  status = confirmed;
  confirmed_at = some "6";
  created_at = "4";
}

-- The second confirmation supersedes the first set.
second_supersedes : (calls empty two_versions).tables.sets ≡ row_a ∷ row_b ∷ []
unfolding calls call create_set insert_set add_criterion confirm_set require_set require_draft_set
    supersede_others list_sets_by_task list_criteria
second_supersedes = refl

nothing_to_confirm :
    (confirm_set (calls empty (creates "1" "a" "t" ∷ [])) "2" "a").1 ≡ inl (empty_set "a")
unfolding calls call create_set insert_set confirm_set require_set list_criteria
nothing_to_confirm = refl

abbrev criterion : Criterion
criterion = record {
  id = "c";
  criteria_set_id = "a";
  ordinal = 1;
  description = "works";
  category = none;
  required = true;
  created_at = "2";
}

abbrev stored : Manager
stored = record empty {
  tables = record empty.tables { sets = row_a ∷ row_b ∷ []; criteria = criterion ∷ [] };
}

a_is_not_b : row_a.id ≡ row_b.id → ⊥
a_is_not_b e = let h = (eq_iff row_a.id row_b.id).1 e in absurd (cc)

one_of : {a b s : CriteriaSet} → In s (a ∷ b ∷ []) → (s ≡ a) ⊎ (s ≡ b)
one_of (here e) = inl e
one_of (there (here e)) = inr e
one_of (there (there m)) = elim m [ ]

id_of : {s t : CriteriaSet} → s ≡ t → s.id ≡ t.id
id_of e = ap (λ (x : CriteriaSet). x.id) e

only : {c d : Criterion} → In c (d ∷ []) → c ≡ d
only (here e) = e
only (there m) = elim m [ ]

stored-IsSound : IsSound stored.tables.sets
stored-IsSound = record {
  unique = λ s t m n e. elim (one_of m) [
    | inl s_is ↦ elim (one_of n) [
      | inl t_is ↦ s_is ∙ sym t_is
      | inr t_is ↦ absurd (a_is_not_b (sym (id_of s_is) ∙ e ∙ id_of t_is))
    ]
    | inr s_is ↦ elim (one_of n) [
      | inl t_is ↦ absurd (a_is_not_b (sym (id_of t_is) ∙ sym e ∙ id_of s_is))
      | inr t_is ↦ s_is ∙ sym t_is
    ]
  ];
  one = λ s t task m n e f c d. elim (one_of m) [
    | inl s_is ↦ let x = ap (λ (y : CriteriaSet). is_confirmed y.status) s_is in absurd (cc)
    | inr s_is ↦ elim (one_of n) [
      | inl t_is ↦ let x = ap (λ (y : CriteriaSet). is_confirmed y.status) t_is in absurd (cc)
      | inr t_is ↦ s_is ∙ sym t_is
    ]
  ];
}

stored-IsFrozen : IsFrozen "a" stored.tables
stored-IsFrozen = record {
  row = row_a;
  there_is = here refl;
  named = refl;
  closed = λ s m e. elim (one_of m) [
    | inl s_is ↦ ap (λ (y : CriteriaSet). is_draft y.status) s_is
    | inr s_is ↦ ap (λ (y : CriteriaSet). is_draft y.status) s_is
  ];
  unique = λ c d m n e. only m ∙ sym (only n);
}

calls-IsSound_example : IsSound (calls stored two_versions).tables.sets
calls-IsSound_example = calls-IsSound two_versions stored stored-IsSound

calls-AreSteps_example : AreSteps (view stored) (view (calls stored two_versions))
calls-AreSteps_example = calls-AreSteps stored two_versions stored-IsSound

calls-keeps_criteria_example :
    IsFrozen "a" (calls stored two_versions).tables
    × (list_criteria (calls stored two_versions).tables "a" ≡ criterion ∷ [])
unfolding list_criteria
calls-keeps_criteria_example = calls-keeps_criteria "a" two_versions stored stored-IsFrozen
