-- ===== src/Criteria/Outcome.antt =====
-- What computeCriteriaReviewOutcome decides, against the last score of each criterion.
use teskra.Base.{
  String, ◌==◌, ◌≡◌, ◌≢◌, refl, ◌↔◌, Bool, true, false, ◌&&◌, List, [], ◌∷◌, Option, none, some,
  all, any, lookup, insert, lookup-insert, if◌then◌else◌, In, here, there, any_elim, any_intro,
  all_elim, all_intro, arith,
}
use teskra.Criteria.{
  CriterionResult, pass, fail, Criterion, Score, by_criterion, is_fail, is_pass,
  compute_criteria_review_outcome,
}

-- The last score that names a criterion, if any does.
pub last_score : String → List Score → Option CriterionResult
last_score id [] = none
last_score id (s ∷ ss) = elim (last_score id ss) [
  | some r ↦ some r
  | none ↦ if s.criterion_id == id then some s.result else none
]

abbrev or_else : Option CriterionResult → Option CriterionResult → Option CriterionResult
or_else (some r) o = some r
or_else none o = o

lookup-by_criterion :
    (id : String) (ss : List Score) (m : List (String × CriterionResult))
    → lookup id (by_criterion ss m) ≡ or_else (last_score id ss) (lookup id m)
unfolding by_criterion last_score
lookup-by_criterion id [] m = refl
lookup-by_criterion id (s ∷ ss) m = ground (
  arith,
  lookup-by_criterion id ss (insert s.criterion_id s.result m),
  lookup-insert s.criterion_id id s.result m,
)

lookup-last_score :
    (id : String) (ss : List Score) → lookup id (by_criterion ss []) ≡ last_score id ss
lookup-last_score id ss = ground (arith, lookup-by_criterion id ss [])

is_fail_iff :
    (b : Bool) (o : Option CriterionResult)
    → ((b && is_fail o) ≡ true) ↔ ((b ≡ true) × (o ≡ some fail))
is_fail_iff b o = ground arith

is_pass_iff : (o : Option CriterionResult) → (is_pass o ≡ true) ↔ (o ≡ some pass)
is_pass_iff o = ground arith

module _ (ss : List Score) where
  abbrev fails : Criterion → Bool
  fails c = c.required && is_fail (lookup c.id (by_criterion ss []))

  abbrev passes : Criterion → Bool
  passes c = is_pass (lookup c.id (by_criterion ss []))

  fails_iff :
      (c : Criterion) → (fails c ≡ true) ↔ ((c.required ≡ true) × (last_score c.id ss ≡ some fail))
  fails_iff c = rw (lookup-last_score c.id ss) (is_fail_iff c.required (last_score c.id ss))

  passes_iff : (c : Criterion) → (passes c ≡ true) ↔ (last_score c.id ss ≡ some pass)
  passes_iff c = rw (lookup-last_score c.id ss) (is_pass_iff (last_score c.id ss))

-- The outcome is `fail` exactly when some required criterion was last scored `fail`, whatever the
-- other scores are.
outcome-fail_iff :
    (cs : List Criterion) (ss : List Score)
    → (compute_criteria_review_outcome cs ss ≡ fail)
      ↔ ((c : Criterion) × In c cs × (c.required ≡ true) × (last_score c.id ss ≡ some fail))
unfolding compute_criteria_review_outcome
outcome-fail_iff cs ss = (to, from)
  where
    to :
        compute_criteria_review_outcome cs ss ≡ fail
        → (c : Criterion) × In c cs × (c.required ≡ true) × (last_score c.id ss ≡ some fail)
    to h =
        let (c, m, e) = any_elim (fails ss) cs (ground arith) in
        let (r, l) = (fails_iff ss c).0 e in (c, m, r, l)

    from :
        ((c : Criterion) × In c cs × (c.required ≡ true) × (last_score c.id ss ≡ some fail))
        → compute_criteria_review_outcome cs ss ≡ fail
    from (c, m, r, l) = rw (any_intro (fails ss) m ((fails_iff ss c).1 (r, l)))

not_fails_of_passes : (ss : List Score) (c : Criterion) → passes ss c ≡ true → fails ss c ≡ false
not_fails_of_passes ss c h = ground arith

any-eq-false :
    (p : Criterion → Bool) (cs : List Criterion)
    → ((c : Criterion) → In c cs → p c ≡ false)
    → any p cs ≡ false
any-eq-false p [] h = refl
any-eq-false p (c ∷ cs) h = rw (h c (here refl)) (any-eq-false p cs (λ a m. h a (there m)))

-- The outcome is `pass` exactly when there is a criterion and every criterion, required or not, was
-- last scored `pass`.
outcome-pass_iff :
    (cs : List Criterion) (ss : List Score)
    → (compute_criteria_review_outcome cs ss ≡ pass)
      ↔ ((cs ≢ []) × ((c : Criterion) → In c cs → last_score c.id ss ≡ some pass))
unfolding compute_criteria_review_outcome
outcome-pass_iff cs ss = (to, from)
  where
    to :
        compute_criteria_review_outcome cs ss ≡ pass
        → (cs ≢ []) × ((c : Criterion) → In c cs → last_score c.id ss ≡ some pass)
    to h =
        let every : all (passes ss) cs ≡ true = ground arith in
        (λ e. ground arith, λ c m. (passes_iff ss c).0 (all_elim (passes ss) every m))

    from :
        (cs ≢ []) × ((c : Criterion) → In c cs → last_score c.id ss ≡ some pass)
        → compute_criteria_review_outcome cs ss ≡ pass
    from (some_criterion, each) =
        let every = all_intro (passes ss) cs (λ c m. (passes_iff ss c).1 (each c m)) in
        let no_fail =
          any-eq-false (fails ss) cs
            (λ c m. not_fails_of_passes ss c (all_elim (passes ss) every m)) in
        rw (no_fail, every) (ground arith)
