-- ===== src/Review.antt =====
-- packages/shared/src/review-aggregate.ts: the severity policy that turns the findings of a review
-- panel into a verdict. A reason is the value that its sentence interpolates.
pub mod Policy
pub mod Tests
use teskra.Base.{
  ℕ, suc, ◌+◌, Bool, true, false, ◌&&◌, List, [], ◌∷◌, ◌++◌, length, keep, is_empty, ltb, leb,
  nat_eq, if◌then◌else◌,
}

pub data Severity : Type 0 where
  critical high medium low : Severity

pub data ReviewVerdict : Type 0 where
  approve changes_requested unable_to_review : ReviewVerdict

pub data PanelVerdict : Type 0 where
  pass block : PanelVerdict

pub data Reason : Type 0 where
  critical_reported high_reported mediums_below unable_reviewers : ℕ → Reason
  medium_threshold : (count threshold : ℕ) → Reason
  no_findings : Reason

pub record Computation : Type 0 where
  pub verdict : PanelVerdict
  pub reasons : List Reason

pub record Counts : Type 0 where
  pub criticals : ℕ
  pub highs : ℕ
  pub mediums : ℕ
  pub lows : ℕ

-- `counts[finding.severity] += 1`
pub bump : Severity → Counts → Counts
bump critical c = record c { criticals = c.criticals + 1 }
bump high c = record c { highs = c.highs + 1 }
bump medium c = record c { mediums = c.mediums + 1 }
bump low c = record c { lows = c.lows + 1 }

pub count_severities : List Severity → Counts → Counts
count_severities [] c = c
count_severities (f ∷ fs) c = count_severities fs (bump f c)

abbrev pub zero_counts : Counts
zero_counts = record { criticals = 0; highs = 0; mediums = 0; lows = 0 }

abbrev pub is_pass : PanelVerdict → Bool
is_pass pass = true
is_pass block = false

abbrev pub is_unable : ReviewVerdict → Bool
is_unable unable_to_review = true
is_unable _ = false

-- The four tests of `computeReviewVerdict`, each on the verdict and the reasons so far.
pub after_criticals : Counts → Computation → Computation
after_criticals c r =
    if ltb 0 c.criticals
    then record { verdict = block; reasons = r.reasons ++ critical_reported c.criticals ∷ [] }
    else r

pub after_highs : Counts → Computation → Computation
after_highs c r =
    if ltb 0 c.highs
    then record { verdict = block; reasons = r.reasons ++ high_reported c.highs ∷ [] }
    else r

pub after_mediums : ℕ → Counts → Computation → Computation
after_mediums threshold c r =
    if is_pass r.verdict && ltb 0 threshold && leb threshold c.mediums
    then record {
      verdict = block;
      reasons = r.reasons ++ medium_threshold c.mediums threshold ∷ [];
    }
    else r

pub after_pass : List Severity → Counts → Computation → Computation
after_pass findings c r =
    if is_pass r.verdict
    then record r {
      reasons =
          r.reasons ++ (if is_empty findings then no_findings else mediums_below c.mediums) ∷ [];
    }
    else r

pub after_unable : ℕ → Computation → Computation
after_unable unable r =
    if ltb 0 unable then record r { reasons = r.reasons ++ unable_reviewers unable ∷ [] } else r

pub compute_review_verdict : List Severity → List ReviewVerdict → ℕ → Computation
unfolding count_severities bump after_criticals after_highs after_mediums after_pass after_unable
compute_review_verdict findings reviewers threshold =
    let c = count_severities findings zero_counts in
    let start : Computation = record { verdict = pass; reasons = [] } in
    let blocked = after_highs c (after_criticals c start) in
    let judged = after_pass findings c (after_mediums threshold c blocked) in
    after_unable (length (keep is_unable reviewers)) judged
