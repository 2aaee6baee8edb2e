-- ===== src/Review/Tests.antt =====
-- Runs of the severity policy, and its theorems at concrete panels.
use teskra.Base.{◌≡◌, refl, ◌↔◌, List, [], ◌∷◌}
use teskra.Review.{
  Severity, critical, medium, low, ReviewVerdict, approve, changes_requested, unable_to_review,
  pass, block, critical_reported, medium_threshold, mediums_below, unable_reviewers,
  compute_review_verdict,
}
use teskra.Review.Policy.{Blocks, verdict-block_iff}

-- "Claude: PASS, Codex: PASS, Gemini: FAIL" blocks.
abbrev outvoted : List ReviewVerdict
outvoted = approve ∷ approve ∷ changes_requested ∷ []

abbrev mixed : List Severity
mixed = low ∷ medium ∷ critical ∷ medium ∷ []

outvoted_blocks :
    compute_review_verdict mixed outvoted 0
    ≡ record { verdict = block; reasons = critical_reported 1 ∷ [] }
unfolding compute_review_verdict
outvoted_blocks = refl

threshold_blocks :
    compute_review_verdict (medium ∷ medium ∷ []) (unable_to_review ∷ []) 2
    ≡ record { verdict = block; reasons = medium_threshold 2 2 ∷ unable_reviewers 1 ∷ [] }
unfolding compute_review_verdict
threshold_blocks = refl

mediums_pass :
    compute_review_verdict (medium ∷ medium ∷ []) [] 0
    ≡ record { verdict = pass; reasons = mediums_below 2 ∷ [] }
unfolding compute_review_verdict
mediums_pass = refl

verdict-block_iff_example :
    ((compute_review_verdict mixed outvoted 0).verdict ≡ block) ↔ Blocks mixed 0
verdict-block_iff_example = verdict-block_iff mixed outvoted 0
