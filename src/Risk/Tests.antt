-- ===== src/Risk/Tests.antt =====
-- An organization with a scored domain and a scored cloud account.
use sistema_de_gestion_de_po.Common.{
  ℕ, ◌≡◌, refl, true, Option, none, some, List, [], ◌∷◌, arith, if◌then◌else◌, find, ◌==◌,
}
use sistema_de_gestion_de_po.Domain.{
  Severity, Criticality, AssetType, Status, Category, same_severity,
}
use sistema_de_gestion_de_po.Findings.{Finding}
use sistema_de_gestion_de_po.Scoring.{compute_score}
use sistema_de_gestion_de_po.Risk.{
  AssetRow, AssetScoreState, compute_asset, compute_all_assets, score_of,
}
use sistema_de_gestion_de_po.Risk.Agreement.{compute_asset-agrees}

abbrev one_of : Severity → Severity → Option ℕ
one_of s u = if same_severity u s then some 1 else none

abbrev state : ℕ → AssetType → Severity → AssetScoreState
state id t s = record {
  asset = id;
  asset_type = some t;
  scored = true;
  result = compute_score (one_of s) Criticality.medium;
}

abbrev domain_row : AssetRow
domain_row = record {
  id = 7;
  organization = 1;
  type = AssetType.domain;
  criticality = Criticality.high;
  is_active = true;
  last_scanned_at = some 20;
}

abbrev finding : Finding
finding = record {
  id = 1;
  organization = 1;
  asset = 7;
  fingerprint = "k";
  category = Category.http_headers;
  rule_id = "HDR-CSP";
  severity = Severity.high;
  cvss = 31;
  status = Status.open_;
  title = "";
  description = "";
  recommendation = "";
  location = "/";
  evidence = "{}";
  first_seen_at = 10;
  last_seen_at = 20;
  last_scan = none;
  resolved_at = none;
  assigned_to = none;
  due_date = none;
  remediation_note = none;
  review_note = none;
  reviewed_by = none;
  cloud_account = none;
}

abbrev scored_states : List AssetScoreState
scored_states =
    state 7 AssetType.domain Severity.critical ∷ state 8 AssetType.cloud_account Severity.low ∷ []

scores :
    (score_of (state 7 AssetType.domain Severity.critical) ≡ 75)
    × (score_of (state 8 AssetType.cloud_account Severity.low) ≡ 99)
unfolding compute_score
scores = (refl, refl)

abbrev accept : Finding → Finding
accept f = record f { status = Status.accepted }

compute_asset-agrees_example :
    find
      (λ (s : AssetScoreState). s.asset == 7)
      (compute_all_assets 1 (domain_row ∷ []) (finding ∷ []) [])
    ≡ some (compute_asset 1 7 (domain_row ∷ []) (finding ∷ []) [])
compute_asset-agrees_example =
    compute_asset-agrees 1 domain_row (domain_row ∷ []) (finding ∷ []) [] refl refl refl
      (ground arith)
