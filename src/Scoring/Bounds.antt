-- ===== src/Scoring/Bounds.antt =====
-- How far the findings of each severity can move the score and the grade (backend/src/risk/scoring.ts).
use sistema_de_gestion_de_po.Common.{
  ℕ, suc, ◌+◌, ◌-◌, ◌*◌, ◌≤◌, ◌<◌, min, ◌≡◌, refl, ◌≢◌, ◌↔◌, ◌⊎◌, Option, some, List, [], ◌∷◌,
  round_div, length, All, arith,
}
use sistema_de_gestion_de_po.Domain.{Severity, Criticality}
use sistema_de_gestion_de_po.Scoring.{
  GradeBand, Grade, SeverityCounts, grade_for, grade_bands, weight_of, penalty_of, fill_counts,
  total_penalty_of, compute_score, sum_scores, aggregate_scores, severity_cap,
}

-- The hundredths that the findings of one severity cost.
unfoldable pub cost : Criticality → SeverityCounts → Severity → ℕ
unfolding penalty_of
cost crit n s = (penalty_of crit n s).penalty

pub total-cost :
    (crit : Criticality) (n : SeverityCounts)
    → total_penalty_of crit n
      ≡ round_div
          (cost crit n Severity.critical
            + cost crit n Severity.high
            + cost crit n Severity.medium
            + cost crit n Severity.low)
          100
unfolding total_penalty_of cost
total-cost Criticality.critical n = omega arith
total-cost Criticality.high n = omega arith
total-cost Criticality.medium n = omega arith
total-cost Criticality.low n = omega arith

-- What the score is, in terms of the penalty.
pub score-total :
    (counts : Severity → Option ℕ) (crit : Criticality)
    → (compute_score counts crit).score ≡ 100 - total_penalty_of crit (fill_counts counts)
unfolding compute_score
score-total counts crit = omega arith

-- No severity costs more than its cap, and each finding of a counted severity costs at least 0.75.
pub cost_bounds :
    (crit : Criticality) (n : SeverityCounts) (s : Severity)
    → (cost crit n s ≤ severity_cap s * 100)
      × (s ≢ Severity.info → min (severity_cap s * 100) (75 * n s) ≤ cost crit n s)
unfolding cost weight_of
cost_bounds crit n s = ground arith

cost-zero : (crit : Criticality) (n : SeverityCounts) (s : Severity) → n s ≡ 0 → cost crit n s ≡ 0
unfolding cost weight_of
cost-zero crit n s h = ground arith

critical-cost :
    (crit : Criticality) (n : SeverityCounts)
    → 0 < n Severity.critical
    → 1875 ≤ cost crit n Severity.critical
unfolding cost weight_of
critical-cost crit n h = ground arith

-- A counted severity whose findings cost less than half a point has none.
counted-zero :
    (crit : Criticality) (n : SeverityCounts) (s : Severity)
    → s ≢ Severity.info
    → cost crit n s < 50
    → n s ≡ 0
counted-zero crit n Severity.critical h k =
    omega (arith, (cost_bounds crit n Severity.critical).1 h)
counted-zero crit n Severity.high h k = omega (arith, (cost_bounds crit n Severity.high).1 h)
counted-zero crit n Severity.medium h k = omega (arith, (cost_bounds crit n Severity.medium).1 h)
counted-zero crit n Severity.low h k = omega (arith, (cost_bounds crit n Severity.low).1 h)
counted-zero crit n Severity.info h k = absurd (h refl)

cost-le-total :
    (crit : Criticality) (n : SeverityCounts) (s : Severity)
    → total_penalty_of crit n ≡ 0
    → cost crit n s < 50
unfolding cost
cost-le-total crit n Severity.critical h = omega (arith, total-cost crit n)
cost-le-total crit n Severity.high h = omega (arith, total-cost crit n)
cost-le-total crit n Severity.medium h = omega (arith, total-cost crit n)
cost-le-total crit n Severity.low h = omega (arith, total-cost crit n)
cost-le-total crit n Severity.info h = omega arith

-- Without critical and high findings the score is at least 60, whatever the number of the others:
-- the caps of the lower severities leave a grade of C or better.
pub minor_findings_score :
    (counts : Severity → Option ℕ) (crit : Criticality)
    → fill_counts counts Severity.critical ≡ 0
    → fill_counts counts Severity.high ≡ 0
    → (60 ≤ (compute_score counts crit).score)
      × ((compute_score counts crit).grade ≢ Grade.d)
      × ((compute_score counts crit).grade ≢ Grade.f)
unfolding grade_for compute_score
minor_findings_score counts crit no_critical no_high =
    (minor, λ e. ground (arith, minor), λ e. ground (arith, minor))
  where
    n : SeverityCounts
    n = fill_counts counts

    none_at : (s : Severity) → n s ≡ 0 → cost crit n s ≡ 0
    none_at s h = cost-zero crit n s h

    minor : 60 ≤ (compute_score counts crit).score
    minor = omega (
      arith,
      score-total counts crit,
      total-cost crit n,
      none_at Severity.critical no_critical,
      none_at Severity.high no_high,
      (cost_bounds crit n Severity.medium).0,
      (cost_bounds crit n Severity.low).0,
    )

-- One open critical finding is enough to keep any asset below an A: the score is at most 81.
pub critical_finding_score :
    (counts : Severity → Option ℕ) (crit : Criticality)
    → 0 < fill_counts counts Severity.critical
    → ((compute_score counts crit).score ≤ 81) × ((compute_score counts crit).grade ≢ Grade.a)
unfolding grade_for compute_score
critical_finding_score counts crit h = (low, λ e. ground (arith, low))
  where
    n : SeverityCounts
    n = fill_counts counts

    low : (compute_score counts crit).score ≤ 81
    low = omega (arith, score-total counts crit, total-cost crit n, critical-cost crit n h)

-- The score is 100 exactly when every open finding is informative, for every criticality.
pub full_score_iff :
    (counts : Severity → Option ℕ) (crit : Criticality)
    → ((compute_score counts crit).score ≡ 100)
      ↔ ((s : Severity) → s ≢ Severity.info → fill_counts counts s ≡ 0)
full_score_iff counts crit = (clean, full)
  where
    n : SeverityCounts
    n = fill_counts counts

    clean : (compute_score counts crit).score ≡ 100 → (s : Severity) → s ≢ Severity.info → n s ≡ 0
    clean e s h =
        counted-zero crit n s h (omega (arith, cost-le-total crit n s, score-total counts crit))

    full : ((s : Severity) → s ≢ Severity.info → n s ≡ 0) → (compute_score counts crit).score ≡ 100
    full h = omega (
      arith,
      score-total counts crit,
      total-cost crit n,
      cost-zero crit n Severity.critical (h Severity.critical (λ e. cc)),
      cost-zero crit n Severity.high (h Severity.high (λ e. cc)),
      cost-zero crit n Severity.medium (h Severity.medium (λ e. cc)),
      cost-zero crit n Severity.low (h Severity.low (λ e. cc)),
    )

-- The band of a score is the best one whose minimum the score reaches.
pub grade_for_best :
    (score : ℕ)
    → ((grade_for score).min_score ≤ score)
      × All
          (λ (b : GradeBand). (b.min_score ≤ (grade_for score).min_score) ⊎ (score < b.min_score))
          grade_bands
unfolding grade_for
grade_for_best score = ground arith

sum_scores_bounds :
    (lo hi : ℕ) (ss : List ℕ)
    → All (λ s. (lo ≤ s) × (s ≤ hi)) ss
    → (length ss * lo ≤ sum_scores ss) × (sum_scores ss ≤ length ss * hi)
unfolding sum_scores
sum_scores_bounds lo hi [] h = (omega arith, omega arith)
sum_scores_bounds lo hi (s ∷ ss) h =
    let ih = sum_scores_bounds lo hi ss h.1 in (omega (arith, ih.0, h.0), omega (arith, ih.1, h.0))

round_div_bounds :
    (lo hi total n : ℕ)
    → suc n * lo ≤ total
    → total ≤ suc n * hi
    → (lo ≤ round_div total (suc n)) × (round_div total (suc n) ≤ hi)
round_div_bounds lo hi total n h k = (grind arith, grind arith)

-- The organization's score exists exactly when there are assets, and lies between the least and
-- the greatest of their scores.
pub aggregate_scores_bounds :
    (lo hi : ℕ) (ss : List ℕ)
    → All (λ s. (lo ≤ s) × (s ≤ hi)) ss
    → ss ≢ []
    → (m : ℕ) × (aggregate_scores ss ≡ some m) × (lo ≤ m) × (m ≤ hi)
unfolding aggregate_scores
aggregate_scores_bounds lo hi [] h ne = absurd (ne refl)
aggregate_scores_bounds lo hi (s ∷ ss) h ne =
    let sums = sum_scores_bounds lo hi (s ∷ ss) h in
    let within = round_div_bounds lo hi (sum_scores (s ∷ ss)) (length ss) sums.0 sums.1 in
    (round_div (sum_scores (s ∷ ss)) (length (s ∷ ss)), refl, within.0, within.1)
