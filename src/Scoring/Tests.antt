-- ===== src/Scoring/Tests.antt =====
-- Scores of an asset with two critical findings and of one with minor findings only.
use sistema_de_gestion_de_po.Common.{ℕ, ◌≤◌, ◌≡◌, refl, Option, none, some, arith}
use sistema_de_gestion_de_po.Domain.{Severity, Criticality}
use sistema_de_gestion_de_po.Scoring.{fill_counts, compute_score}
use sistema_de_gestion_de_po.Scoring.Monotone.{more_findings_lower_score}

abbrev two_critical : Severity → Option ℕ
two_critical Severity.critical = some 2
two_critical s = none

abbrev many_minor : Severity → Option ℕ
many_minor Severity.medium = some 50
many_minor Severity.low = some 200
many_minor s = none

abbrev three_critical : Severity → Option ℕ
three_critical Severity.critical = some 3
three_critical s = none

abbrev four_critical : Severity → Option ℕ
four_critical Severity.critical = some 4
four_critical s = none

two_critical_score : (compute_score two_critical Criticality.medium).score ≡ 50
unfolding compute_score
two_critical_score = refl

-- Four critical findings on an asset of low criticality leave a score of 25.
low_criticality_score : (compute_score four_critical Criticality.low).score ≡ 25
unfolding compute_score
low_criticality_score = refl

more_findings_lower_score_example :
    (compute_score three_critical Criticality.low).score
    ≤ (compute_score two_critical Criticality.low).score
unfolding fill_counts
more_findings_lower_score_example =
    more_findings_lower_score two_critical three_critical Criticality.low grows
  where
    grows : (s : Severity) → fill_counts two_critical s ≤ fill_counts three_critical s
    grows s = ground arith

abbrev no_sqrt : ℕ → ℕ → ℕ
no_sqrt p q = 0
