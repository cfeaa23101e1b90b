-- ===== src/Scoring.antt =====
-- The risk engine (backend/src/risk/scoring.ts).
-- A quantity that the source keeps as a number with two decimals is a natural number of
-- hundredths here: every weight is a multiple of 0.25, which a double represents exactly, so the
-- sums and products of the source are exact too.
pub mod Bounds
pub mod Monotone
pub mod Anomaly
mod Tests
use sistema_de_gestion_de_po.Common.{
  ℕ, ◌+◌, ◌-◌, ◌*◌, min, ◌≡◌, refl, Bool, Option, none, some, String, List, [], ◌∷◌, map, leb, ltb,
  if◌then◌else◌, find, or_else, round_div, length, ◌/◌,
}
use sistema_de_gestion_de_po.Domain.{Severity, Criticality, severity_index}

abbrev pub scoring_model_version : String
scoring_model_version = "1.1"

-- Penalty of one open finding.
abbrev pub severity_weight : Severity → ℕ
severity_weight Severity.critical = 25
severity_weight Severity.high = 10
severity_weight Severity.medium = 4
severity_weight Severity.low = 1
severity_weight Severity.info = 0

-- The largest penalty of a severity.
abbrev pub severity_cap : Severity → ℕ
severity_cap Severity.critical = 100
severity_cap Severity.high = 60
severity_cap Severity.medium = 30
severity_cap Severity.low = 10
severity_cap Severity.info = 0

-- The factors 1.5, 1.25, 1.0 and 0.75, in quarters.
abbrev pub criticality_factor : Criticality → ℕ
criticality_factor Criticality.critical = 6
criticality_factor Criticality.high = 5
criticality_factor Criticality.medium = 4
criticality_factor Criticality.low = 3

abbrev pub severity_order : List Severity
severity_order =
    Severity.critical ∷ Severity.high ∷ Severity.medium ∷ Severity.low ∷ Severity.info ∷ []

pub data Grade : Type 0 where
  a b c d f : Grade

pub record GradeBand : Type 0 where
  pub grade : Grade
  pub min_score : ℕ
  pub label : String
  pub description : String

abbrev pub band_a : GradeBand
band_a = record {
  grade = a;
  min_score = 90;
  label = "Excelente";
  description = "Sin exposiciones relevantes. Mantener el monitoreo.";
}

abbrev pub band_b : GradeBand
band_b = record {
  grade = b;
  min_score = 75;
  label = "Buena";
  description = "Exposiciones menores. Corregir en el próximo ciclo de mantenimiento.";
}

abbrev pub band_c : GradeBand
band_c = record {
  grade = c;
  min_score = 60;
  label = "Aceptable";
  description = "Existen riesgos medios o altos que requieren un plan de corrección.";
}

abbrev pub band_d : GradeBand
band_d = record {
  grade = d;
  min_score = 40;
  label = "Deficiente";
  description = "Riesgos altos abiertos. Priorizar la remediación esta semana.";
}

abbrev pub band_f : GradeBand
band_f = record {
  grade = f;
  min_score = 0;
  label = "Crítica";
  description = "Exposiciones críticas activas. Actuar de inmediato.";
}

abbrev pub grade_bands : List GradeBand
grade_bands = band_a ∷ band_b ∷ band_c ∷ band_d ∷ band_f ∷ []

-- The first band whose minimum the score reaches, or the last band.
pub grade_for : ℕ → GradeBand
grade_for score = or_else (find (λ (b : GradeBand). leb b.min_score score) grade_bands) band_f

-- The counts of open findings; the finding service fills such a record from 0.
abbrev pub SeverityCounts : Type 0
SeverityCounts = Severity → ℕ

pub record SeverityPenalty : Type 0 where
  pub severity : Severity
  pub count : ℕ
  pub weight : ℕ  -- hundredths
  pub cap : ℕ
  pub penalty : ℕ  -- hundredths
  pub capped : Bool

pub record ScoreResult : Type 0 where
  pub score : ℕ
  pub grade : Grade
  pub label : String
  pub description : String
  pub total_penalty : ℕ
  pub penalties : List SeverityPenalty
  pub counts : SeverityCounts
  pub criticality : Criticality
  pub criticality_factor : ℕ  -- quarters
  pub model_version : String

-- `Math.round(baseWeight * criticalityFactor * 100)`
pub weight_of : Criticality → Severity → ℕ
weight_of crit s = round_div (severity_weight s * criticality_factor crit * 100) 4

-- A weight times a count is a whole number of hundredths, so rounding it changes nothing.
pub penalty_of : Criticality → SeverityCounts → Severity → SeverityPenalty
penalty_of crit counts s =
    let raw = weight_of crit s * counts s in
    record {
      severity = s;
      count = counts s;
      weight = weight_of crit s;
      cap = severity_cap s;
      penalty = min (severity_cap s * 100) raw;
      capped = ltb (severity_cap s * 100) raw;
    }

sum_penalties : List SeverityPenalty → ℕ
sum_penalties [] = 0
sum_penalties (p ∷ ps) = p.penalty + sum_penalties ps

abbrev pub empty_counts : SeverityCounts
empty_counts s = 0

-- The counts that the caller leaves out are 0.
unfoldable pub fill_counts : (Severity → Option ℕ) → SeverityCounts
fill_counts counts s = or_else (counts s) (empty_counts s)

pub total_penalty_of : Criticality → SeverityCounts → ℕ
unfolding sum_penalties penalty_of weight_of
total_penalty_of crit counts =
    round_div (sum_penalties (map (penalty_of crit counts) severity_order)) 100

-- `Math.max(0, …)` is the subtraction that stops at 0.
unfoldable pub compute_score : (Severity → Option ℕ) → Criticality → ScoreResult
unfolding total_penalty_of fill_counts
compute_score counts crit =
    let full = fill_counts counts in
    let total = total_penalty_of crit full in
    let score = min 100 (100 - total) in
    let band = grade_for score in
    record {
      score = score;
      grade = band.grade;
      label = band.label;
      description = band.description;
      total_penalty = total;
      penalties = map (penalty_of crit full) severity_order;
      counts = full;
      criticality = crit;
      criticality_factor = criticality_factor crit;
      model_version = scoring_model_version;
    }

sum_scores : List ℕ → ℕ
sum_scores [] = 0
sum_scores (s ∷ ss) = s + sum_scores ss

-- The score of an organization: the rounded mean, or nothing without assets.
unfoldable pub aggregate_scores : List ℕ → Option ℕ
unfolding sum_scores
aggregate_scores [] = none
aggregate_scores (s ∷ ss) = some (round_div (sum_scores (s ∷ ss)) (length (s ∷ ss)))
