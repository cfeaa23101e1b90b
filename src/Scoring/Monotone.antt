-- ===== src/Scoring/Monotone.antt =====
-- More findings or a more critical asset never raise the score (backend/src/risk/scoring.ts).
use sistema_de_gestion_de_po.Common.{ℕ, ◌≤◌, Option, arith}
use sistema_de_gestion_de_po.Domain.{Severity, Criticality}
use sistema_de_gestion_de_po.Scoring.{
  SeverityCounts, weight_of, fill_counts, compute_score, criticality_factor,
}
use sistema_de_gestion_de_po.Scoring.Bounds.{cost, total-cost, score-total}

cost_mono :
    (crit : Criticality) (m n : SeverityCounts) (s : Severity)
    → m s ≤ n s
    → cost crit m s ≤ cost crit n s
unfolding cost weight_of
cost_mono crit m n s h = ground arith

cost_mono_criticality :
    (c d : Criticality) (n : SeverityCounts) (s : Severity)
    → criticality_factor c ≤ criticality_factor d
    → cost c n s ≤ cost d n s
unfolding cost weight_of
cost_mono_criticality c d n s h = ground arith

-- A score never rises when the count of any severity grows.
pub more_findings_lower_score :
    (fewer more : Severity → Option ℕ) (crit : Criticality)
    → ((s : Severity) → fill_counts fewer s ≤ fill_counts more s)
    → (compute_score more crit).score ≤ (compute_score fewer crit).score
more_findings_lower_score fewer more crit h =
    let m = fill_counts fewer in
    let n = fill_counts more in
    omega (
      arith,
      score-total fewer crit,
      score-total more crit,
      total-cost crit m,
      total-cost crit n,
      cost_mono crit m n Severity.critical (h Severity.critical),
      cost_mono crit m n Severity.high (h Severity.high),
      cost_mono crit m n Severity.medium (h Severity.medium),
      cost_mono crit m n Severity.low (h Severity.low),
    )

-- The same findings never score higher on an asset of greater criticality.
pub critical_asset_lower_score :
    (counts : Severity → Option ℕ) (c d : Criticality)
    → criticality_factor c ≤ criticality_factor d
    → (compute_score counts d).score ≤ (compute_score counts c).score
critical_asset_lower_score counts c d h =
    let n = fill_counts counts in
    omega (
      arith,
      score-total counts c,
      score-total counts d,
      total-cost c n,
      total-cost d n,
      cost_mono_criticality c d n Severity.critical h,
      cost_mono_criticality c d n Severity.high h,
      cost_mono_criticality c d n Severity.medium h,
      cost_mono_criticality c d n Severity.low h,
    )
