-- ===== src/Review/Policy.antt =====
-- What the severity policy of review-aggregate.ts promises.
use teskra.Base.{
  ℕ, suc, ◌+◌, ◌≤◌, ◌<◌, ◌≡◌, ◌↔◌, ◌⊎◌, List, [], ◌∷◌, ◌++◌, length, keep, ltb, if◌then◌else◌,
  arith,
}
use teskra.Review.{
  Severity, critical, high, medium, low, ReviewVerdict, block, unable_reviewers, Counts, bump,
  count_severities, zero_counts, is_unable, compute_review_verdict,
}

-- How many findings have a severity, counted by recursion and not by the accumulator.
abbrev pub criticals : List Severity → ℕ
criticals [] = 0
criticals (critical ∷ fs) = suc (criticals fs)
criticals (_ ∷ fs) = criticals fs

abbrev pub highs : List Severity → ℕ
highs [] = 0
highs (high ∷ fs) = suc (highs fs)
highs (_ ∷ fs) = highs fs

abbrev pub mediums : List Severity → ℕ
mediums [] = 0
mediums (medium ∷ fs) = suc (mediums fs)
mediums (_ ∷ fs) = mediums fs

count_severities_lem :
    (fs : List Severity) (c : Counts)
    → ((count_severities fs c).criticals ≡ criticals fs + c.criticals)
      × ((count_severities fs c).highs ≡ highs fs + c.highs)
      × ((count_severities fs c).mediums ≡ mediums fs + c.mediums)
unfolding count_severities bump
count_severities_lem [] c = (omega arith, omega arith, omega arith)
count_severities_lem (critical ∷ fs) c =
    let h = count_severities_lem fs (bump critical c) in (omega arith, omega arith, omega arith)
count_severities_lem (high ∷ fs) c =
    let h = count_severities_lem fs (bump high c) in (omega arith, omega arith, omega arith)
count_severities_lem (medium ∷ fs) c =
    let h = count_severities_lem fs (bump medium c) in (omega arith, omega arith, omega arith)
count_severities_lem (low ∷ fs) c =
    let h = count_severities_lem fs (bump low c) in (omega arith, omega arith, omega arith)

-- The findings that block: any critical or high one, or as many medium ones as a threshold that is
-- set.
abbrev pub Blocks : List Severity → ℕ → Type 0
Blocks fs threshold =
    (0 < criticals fs) ⊎ ((0 < highs fs) ⊎ ((0 < threshold) × (threshold ≤ mediums fs)))

-- The verdict is `block` exactly when a finding is critical or high, or when a threshold above zero
-- is set and at least so many findings are medium; the reviewers' own verdicts do not enter.
pub verdict-block_iff :
    (fs : List Severity) (rs : List ReviewVerdict) (threshold : ℕ)
    → ((compute_review_verdict fs rs threshold).verdict ≡ block) ↔ Blocks fs threshold
unfolding compute_review_verdict
verdict-block_iff fs rs threshold = let h = count_severities_lem fs zero_counts in ground arith

criticals-append : (fs gs : List Severity) → criticals (fs ++ gs) ≡ criticals fs + criticals gs
criticals-append [] gs = omega arith
criticals-append (critical ∷ fs) gs = omega (arith, criticals-append fs gs)
criticals-append (_ ∷ fs) gs = criticals-append fs gs

highs-append : (fs gs : List Severity) → highs (fs ++ gs) ≡ highs fs + highs gs
highs-append [] gs = omega arith
highs-append (high ∷ fs) gs = omega (arith, highs-append fs gs)
highs-append (_ ∷ fs) gs = highs-append fs gs

mediums-append : (fs gs : List Severity) → mediums (fs ++ gs) ≡ mediums fs + mediums gs
mediums-append [] gs = omega arith
mediums-append (medium ∷ fs) gs = omega (arith, mediums-append fs gs)
mediums-append (_ ∷ fs) gs = mediums-append fs gs

Blocks-append :
    (fs gs hs : List Severity) (threshold : ℕ)
    → Blocks gs threshold
    → Blocks (fs ++ (gs ++ hs)) threshold
Blocks-append fs gs hs threshold b = omega (
  arith,
  criticals-append fs (gs ++ hs),
  criticals-append gs hs,
  highs-append fs (gs ++ hs),
  highs-append gs hs,
  mediums-append fs (gs ++ hs),
  mediums-append gs hs,
)

-- No majority can outvote a blocking reviewer: if one reviewer's findings block by themselves, the
-- panel blocks, whatever findings come before and after them, whichever verdicts the reviewers give
-- in the one panel and in the other.
verdict-block_append :
    (fs gs hs : List Severity) (rs rs' : List ReviewVerdict) (threshold : ℕ)
    → (compute_review_verdict gs rs threshold).verdict ≡ block
    → (compute_review_verdict (fs ++ (gs ++ hs)) rs' threshold).verdict ≡ block
verdict-block_append fs gs hs rs rs' threshold e =
    (verdict-block_iff (fs ++ (gs ++ hs)) rs' threshold).1
      (Blocks-append fs gs hs threshold ((verdict-block_iff gs rs threshold).0 e))

-- The reviewers that could not review change the verdict in no way and are recorded last: the
-- computation is that of the same findings with no reviewer, with one more reason exactly when such
-- a reviewer exists, and that reason counts them.
compute_review_verdict-unable :
    (fs : List Severity) (rs : List ReviewVerdict) (threshold : ℕ)
    → let unable = length (keep is_unable rs) in
      let alone = compute_review_verdict fs [] threshold in
      ((compute_review_verdict fs rs threshold).verdict ≡ alone.verdict)
      × ((compute_review_verdict fs rs threshold).reasons
          ≡ alone.reasons ++ (if ltb 0 unable then unable_reviewers unable ∷ [] else []))
unfolding compute_review_verdict
compute_review_verdict-unable fs rs threshold = ground arith
