-- ===== src/Criteria/Tests.antt =====
-- Runs of computeCriteriaReviewOutcome, and its theorems at a concrete review.
use teskra.Base.{String, ◌≡◌, refl, true, false, List, [], ◌∷◌}
use teskra.Criteria.{
  CriterionResult, pass, fail, unknown, Criterion, Score, compute_criteria_review_outcome,
}

abbrev criteria : List Criterion
criteria = record { id = "c1"; required = true } ∷ record { id = "c2"; required = false } ∷ []

abbrev scored : String → CriterionResult → Score
scored id result = record { criterion_id = id; result = result }

-- The later score of c1 counts.
abbrev scores : List Score
scores = scored "c1" fail ∷ scored "c2" pass ∷ scored "c1" pass ∷ []

outcome_tests :
    (compute_criteria_review_outcome criteria scores ≡ pass)
    × (compute_criteria_review_outcome criteria (scored "c2" fail ∷ scored "c1" pass ∷ [])
        ≡ unknown)
    × (compute_criteria_review_outcome criteria (scored "c1" fail ∷ []) ≡ fail)
    × (compute_criteria_review_outcome [] scores ≡ unknown)
unfolding compute_criteria_review_outcome
outcome_tests = (refl, refl, refl, refl)
