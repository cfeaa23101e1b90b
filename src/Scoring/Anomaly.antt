-- ===== src/Scoring/Anomaly.antt =====
-- Anomalous falls of a score (backend/src/risk/scoring.ts, `calculateScoreStats`,
-- `evaluateScoreAnomaly`). Means and deviations are tenths and z-scores hundredths, the precision to
-- which the source rounds them. `sqrt_tenths p q` stands for `Math.round(Math.sqrt(p / q) * 10)`;
-- the variance is the exact quotient (n · Σ s² − (Σ s)²) / (n · (n − 1)).
use sistema_de_gestion_de_po.Common.{
  ℕ, ◌+◌, ◌-◌, ◌*◌, ◌/◌, ◌≤◌, ◌<◌, ◌≡◌, ◌⊎◌, ◌↔◌, Bool, true, false, ◌&&◌, ◌||◌, Option, none, some,
  List, [], ◌∷◌, if◌then◌else◌, ◌==◌, leb, ltb, length, round_div, ℤ, pos, negsuc, sub_ℕ, pos_part,
  ltb_ℤ, leb_ℤ, is_some, arith,
}
use sistema_de_gestion_de_po.Domain.{Severity}

pub record ScoreStats : Type 0 where
  pub mean : ℕ
  pub std_dev : ℕ

pub record ScoreAnomalyEvaluation : Type 0 where
  pub is_anomaly : Bool
  pub drop : ℤ
  pub z_score : Option ℤ
  pub mean : Option ℕ
  pub std_dev : Option ℕ
  pub severity : Option Severity

total : List ℕ → ℕ
total [] = 0
total (s ∷ ss) = s + total ss

total_squares : List ℕ → ℕ
total_squares [] = 0
total_squares (s ∷ ss) = s * s + total_squares ss

module _ (sqrt_tenths : ℕ → ℕ → ℕ) where
  pub calculate_score_stats : List ℕ → ScoreStats
  unfolding total total_squares
  calculate_score_stats [] = record { mean = 0; std_dev = 0 }
  calculate_score_stats (s ∷ []) = record { mean = s * 10; std_dev = 0 }
  calculate_score_stats (s ∷ t ∷ ss) =
      let n = length (s ∷ t ∷ ss) in
      let sum = total (s ∷ t ∷ ss) in
      record {
        mean = round_div (sum * 10) n;
        std_dev = sqrt_tenths (n * total_squares (s ∷ t ∷ ss) - sum * sum) (n * (n - 1));
      }

  -- `Math.round((mean - current) / stdDev * 100)`, where the deviation is not 0.
  z_of : ScoreStats → ℕ → ℤ
  z_of k current =
      if leb (current * 10) k.mean
      then pos (round_div ((k.mean - current * 10) * 100) k.std_dev)
      else negated ((2 * ((current * 10 - k.mean) * 100) + k.std_dev - 1) / (2 * k.std_dev))
    where
      negated : ℕ → ℤ
      negated n = if n == 0 then pos 0 else negsuc (n - 1)

  -- The statistics are only taken of three scores or more, the z-score only of a deviation.
  stats_of : List ℕ → Option ScoreStats
  unfolding calculate_score_stats
  stats_of history = if leb 3 (length history) then some (calculate_score_stats history) else none

  z_score_of : Option ScoreStats → ℕ → Option ℤ
  unfolding z_of
  z_score_of none current = none
  z_score_of (some k) current = if ltb 0 k.std_dev then some (z_of k current) else none

  abbrev at_least : ℕ → Option ℤ → Bool
  at_least n none = false
  at_least n (some z) = leb_ℤ (pos n) z

  -- `drop` here is the part of the fall above 0, which the guard has made at least 10.
  anomaly_severity : (drop current : ℕ) → Option ℤ → Severity
  anomaly_severity drop current z =
      if leb 25 drop || (leb 15 drop && ltb current 40)
      then Severity.critical
      else if leb 15 drop || at_least 250 z
      then Severity.high
      else Severity.medium

  pub evaluate_score_anomaly : (current previous : ℕ) → List ℕ → ScoreAnomalyEvaluation
  unfolding stats_of z_score_of anomaly_severity
  evaluate_score_anomaly current previous history =
      let drop = sub_ℕ previous current in
      if ltb_ℤ drop (pos 10)
      then record {
        is_anomaly = false;
        drop = drop;
        z_score = none;
        mean = none;
        std_dev = none;
        severity = none;
      }
      else let k = stats_of history in
        let z = z_score_of k current in
        let fell = pos_part drop in
        let anomaly = at_least 200 z || leb 15 fell || (leb 12 fell && ltb current 50) in
        record {
          is_anomaly = anomaly;
          drop = drop;
          z_score = z;
          mean = elim k [ none ↦ none | some m ↦ some m.mean ];
          std_dev = elim k [ none ↦ none | some m ↦ some m.std_dev ];
          severity = if anomaly then some (anomaly_severity fell current z) else none;
        }

  -- Without enough history a fall is an anomaly exactly when it is of 15 points or more, or of 12
  -- or more to a score below 50; its severity is then given, and otherwise not.
  pub anomaly_without_history :
      (current previous : ℕ) (history : List ℕ)
      → length history < 3
      → (((evaluate_score_anomaly current previous history).is_anomaly ≡ true)
          ↔ ((current + 15 ≤ previous) ⊎ ((current + 12 ≤ previous) × (current < 50))))
        × (is_some (evaluate_score_anomaly current previous history).severity
            ≡ (evaluate_score_anomaly current previous history).is_anomaly)
  unfolding evaluate_score_anomaly
  anomaly_without_history current previous history short =
      ((λ e. ground (arith, short), λ e. ground (arith, short)), ground (arith, short))

  -- Whatever the history, a fall of 15 points or more is an anomaly: critical from 25 points on or
  -- below a score of 40, and high otherwise.
  pub steep_fall :
      (current previous : ℕ) (history : List ℕ)
      → current + 15 ≤ previous
      → ((evaluate_score_anomaly current previous history).is_anomaly ≡ true)
        × (((evaluate_score_anomaly current previous history).severity ≡ some Severity.critical)
            ↔ ((current + 25 ≤ previous) ⊎ (current < 40)))
        × (((evaluate_score_anomaly current previous history).severity ≡ some Severity.high)
            ↔ ((previous < current + 25) × (40 ≤ current)))
  unfolding evaluate_score_anomaly
  steep_fall current previous history steep =
      (ground arith, (λ e. ground arith, λ e. ground arith), (λ e. ground arith, λ e. ground arith))
