-- ===== src/Risk.antt =====
-- Scores of assets and of an organization (backend/src/risk/risk-scores.service.ts, `openCounts`,
-- `isScored`, `computeAsset`, `computeAllAssets`, `computeHybridOrganizationScore`, `snapshot`,
-- `snapshotOrganization`). The tables of findings and scans are those of the other components; an
-- asset is its row with the columns that count here. A row that is written keeps its figures; the
-- breakdown, the trigger and the identifiers are left out.
pub mod Organization
pub mod Agreement
mod Tests
use sistema_de_gestion_de_po.Common.{
  ℕ, suc, ◌+◌, ◌≡◌, Bool, true, false, ◌&&◌, ◌||◌, not, Option, none, some, String, List, [], ◌∷◌,
  map, if◌then◌else◌, ◌==◌, find, keep, any, count_if, round_div, length, is_some, opt_map,
}
use sistema_de_gestion_de_po.Domain.{
  Severity, Criticality, AssetType, ScanStatus, same_severity, same_asset_type, same_scan_status,
}
use sistema_de_gestion_de_po.Findings.{Finding, is_active}
use sistema_de_gestion_de_po.Scans.{Scan}
use sistema_de_gestion_de_po.Scoring.{
  Grade, SeverityCounts, SeverityPenalty, ScoreResult, empty_counts, grade_for, compute_score,
  aggregate_scores,
}

pub record AssetRow : Type 0 where
  pub id : ℕ
  pub organization : ℕ
  pub type : AssetType
  pub criticality : Criticality
  pub is_active : Bool
  pub last_scanned_at : Option ℕ

pub record AssetScoreState : Type 0 where
  pub asset : ℕ
  pub asset_type : Option AssetType
  pub scored : Bool
  pub result : ScoreResult

-- `groupBy` on the active findings, and the assignment of each group's count.
pub open_counts : (organization : ℕ) (asset : Option ℕ) → List Finding → SeverityCounts
open_counts organization asset findings s =
    count_if
      (λ f.
        f.organization == organization
        && elim asset [ none ↦ true | some a ↦ f.asset == a ]
        && is_active f.status
        && same_severity f.severity s)
      findings

-- At least one completed scan.
pub is_scored : ℕ → List Scan → Bool
is_scored asset scans =
    any (λ s. s.asset == asset && same_scan_status s.status ScanStatus.completed) scans

abbrev pub is_scanned_cloud : AssetRow → Bool
is_scanned_cloud a = same_asset_type a.type AssetType.cloud_account && is_some a.last_scanned_at

-- `emptyCounts()` is overwritten where there are findings, so every count is given.
abbrev pub given : SeverityCounts → Severity → Option ℕ
given n s = some (n s)

pub compute_asset :
    (organization asset : ℕ) → List AssetRow → List Finding → List Scan → AssetScoreState
unfolding open_counts is_scored
compute_asset organization asset assets findings scans =
    let row = find (λ (a : AssetRow). a.id == asset) assets in
    record {
      asset = asset;
      asset_type = opt_map (λ (a : AssetRow). a.type) row;
      scored = is_scored asset scans || elim row [ none ↦ false | some a ↦ is_scanned_cloud a ];
      result =
          compute_score (given (open_counts organization (some asset) findings))
            (elim row [ none ↦ Criticality.medium | some a ↦ a.criticality ]);
    }

-- The counts of the findings that belong to an asset, whatever their organization.
abbrev pub asset_counts : ℕ → List Finding → SeverityCounts
asset_counts asset findings s =
    count_if (λ f. f.asset == asset && is_active f.status && same_severity f.severity s) findings

pub compute_all_assets : ℕ → List AssetRow → List Finding → List Scan → List AssetScoreState
unfolding is_scored
compute_all_assets organization assets findings scans =
    map
      (λ (a : AssetRow). record {
        asset = a.id;
        asset_type = some a.type;
        scored = is_scored a.id scans || is_scanned_cloud a;
        result = compute_score (given (asset_counts a.id findings)) a.criticality;
      })
      (keep (λ (a : AssetRow). a.organization == organization && a.is_active) assets)

abbrev pub is_cloud : AssetScoreState → Bool
is_cloud s = elim s.asset_type [ none ↦ false | some t ↦ same_asset_type t AssetType.cloud_account ]

pub data Method : Type 0 where
  mean_of_asset_scores hybrid_perimeter_50_cloud_50 : Method

pub record HybridScore : Type 0 where
  pub scored : List AssetScoreState
  pub score : Option ℕ
  pub method : Method
  pub perimeter_score : Option ℕ
  pub perimeter_grade : Option Grade
  pub scored_perimeter_assets : ℕ
  pub cloud_score : Option ℕ
  pub cloud_grade : Option Grade
  pub scored_cloud_assets : ℕ

abbrev pub grade_of : Option ℕ → Option Grade
grade_of o = opt_map (λ n. (grade_for n).grade) o

abbrev pub score_of : AssetScoreState → ℕ
score_of s = s.result.score

-- `Math.round(p * 0.5 + c * 0.5)` where both sides have a score.
hybrid_score : Option ℕ → Option ℕ → Option ℕ
hybrid_score (some p) (some c) = some (round_div (p + c) 2)
hybrid_score (some p) none = some p
hybrid_score none c = c

hybrid_method : Option ℕ → Option ℕ → Method
hybrid_method (some p) (some c) = hybrid_perimeter_50_cloud_50
hybrid_method (some p) none = mean_of_asset_scores
hybrid_method none c = mean_of_asset_scores

pub organization_score : List AssetScoreState → HybridScore
unfolding hybrid_score hybrid_method
organization_score states =
    let scored = keep (λ (s : AssetScoreState). s.scored) states in
    let perimeter = keep (λ s. not (is_cloud s)) scored in
    let cloud = keep is_cloud scored in
    let perimeter_score = aggregate_scores (map score_of perimeter) in
    let cloud_score = aggregate_scores (map score_of cloud) in
    record {
      scored = scored;
      score = hybrid_score perimeter_score cloud_score;
      method = hybrid_method perimeter_score cloud_score;
      perimeter_score = perimeter_score;
      perimeter_grade = grade_of perimeter_score;
      scored_perimeter_assets = length perimeter;
      cloud_score = cloud_score;
      cloud_grade = grade_of cloud_score;
      scored_cloud_assets = length cloud;
    }

-- A row of the history: of an asset, or of the organization without one.
pub record RiskScore : Type 0 where
  pub organization : ℕ
  pub asset : Option ℕ
  pub score : Option ℕ
  pub grade : Option Grade
  pub counts : SeverityCounts
  pub scored_assets : Option ℕ

abbrev pub asset_snapshot : ℕ → AssetScoreState → RiskScore
asset_snapshot organization state = record {
  organization = organization;
  asset = some state.asset;
  score = if state.scored then some state.result.score else none;
  grade = if state.scored then some state.result.grade else none;
  counts = state.result.counts;
  scored_assets = none;
}

sum_counts : List AssetScoreState → SeverityCounts
sum_counts [] s = 0
sum_counts (a ∷ rest) s = a.result.counts s + sum_counts rest s

pub organization_snapshot : ℕ → List AssetRow → List Finding → List Scan → RiskScore
unfolding sum_counts
organization_snapshot organization assets findings scans =
    let hybrid = organization_score (compute_all_assets organization assets findings scans) in
    record {
      organization = organization;
      asset = none;
      score = hybrid.score;
      grade = grade_of hybrid.score;
      counts = sum_counts hybrid.scored;
      scored_assets = some (length hybrid.scored);
    }

-- `snapshot` adds the row of the asset and then that of the organization to the history, which is
-- kept newest first.
pub snapshot :
    (organization asset : ℕ)
    → List AssetRow
    → List Finding
    → List Scan
    → List RiskScore
    → List RiskScore
snapshot organization asset assets findings scans history =
    organization_snapshot organization assets findings scans
    ∷ asset_snapshot organization (compute_asset organization asset assets findings scans)
    ∷ history
