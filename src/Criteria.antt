-- ===== src/Criteria.antt =====
-- packages/shared/src/index.ts, computeCriteriaReviewOutcome: the outcome of a review from the
-- scores of the acceptance criteria.
pub mod Outcome
pub mod Tests
use teskra.Base.{
  String, ◌==◌, Bool, true, false, not, ◌&&◌, List, [], ◌∷◌, Option, none, some, all, any, is_empty,
  lookup, insert, if◌then◌else◌,
}

pub data CriterionResult : Type 0 where
  pass fail unknown : CriterionResult

pub record Criterion : Type 0 where
  pub id : String
  pub required : Bool

pub record Score : Type 0 where
  pub criterion_id : String
  pub result : CriterionResult

-- `new Map(scores.map(...))`: a later score of a criterion replaces an earlier one.
pub by_criterion : List Score → List (String × CriterionResult) → List (String × CriterionResult)
by_criterion [] m = m
by_criterion (s ∷ ss) m = by_criterion ss (insert s.criterion_id s.result m)

abbrev pub is_fail : Option CriterionResult → Bool
is_fail (some fail) = true
is_fail _ = false

abbrev pub is_pass : Option CriterionResult → Bool
is_pass (some pass) = true
is_pass _ = false

unfoldable pub compute_criteria_review_outcome : List Criterion → List Score → CriterionResult
unfolding by_criterion
compute_criteria_review_outcome criteria scores =
    let m = by_criterion scores [] in
    if any (λ c. c.required && is_fail (lookup c.id m)) criteria
    then fail
    else if not (is_empty criteria) && all (λ c. is_pass (lookup c.id m)) criteria
    then pass
    else unknown
