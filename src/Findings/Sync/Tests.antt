-- ===== src/Findings/Sync/Tests.antt =====
-- Runs of `syncForScan` on a table of five findings: one that is detected again, one that comes
-- back, one that is missing, an accepted risk and one of another asset.
use sistema_de_gestion_de_po.Common.{
  ℕ, ◌≡◌, refl, true, false, Option, none, some, String, List, [], ◌∷◌, any, All, arith,
}
use Prim.Native.String.{◌++◌}
use sistema_de_gestion_de_po.Domain.{Severity, Status, Category, ScanType}
use sistema_de_gestion_de_po.Findings.{
  Finding, Table, Rule, Result, ok, err, row, Below, get_rule, update_row,
}
use sistema_de_gestion_de_po.Findings.Sync.{
  Draft, SyncInput, Progress, sync_for_scan, sync_drafts, sync_draft, save, create, reopen, refresh,
  finish, resolve, evaluated,
}
use sistema_de_gestion_de_po.Findings.Sync.Rules.{start}
use sistema_de_gestion_de_po.Findings.Sync.Detected.{
  sync-detected, sync-missing, is_current, is_stale,
}
use sistema_de_gestion_de_po.Findings.Sync.Lifecycle.{Keeps, sync-preserves}

abbrev join : String → String → String
join rule location = rule ++ ("|" ++ location)

abbrev keep_text : ℕ → String → String
keep_text n s = s

abbrev tls_rule : String → Severity → Rule
tls_rule id s = record {
  id = id;
  category = Category.tls_certificate;
  severity = s;
  cvss = 75;
  title = "Certificado";
  description = "";
  recommendation = "Renovar";
}

abbrev catalogue : List Rule
catalogue = tls_rule "TLS-EXPIRED" Severity.high ∷ tls_rule "TLS-WEAK" Severity.medium ∷ []

abbrev draft : String → String → Draft
draft rule location = record {
  rule_id = rule;
  location = location;
  evidence = none;
  title = none;
  description = none;
  recommendation = none;
  severity = none;
  cvss = none;
}

abbrev new_draft : Draft
new_draft = draft "TLS-EXPIRED" "a:443"

-- A repeated draft is counted once.
abbrev scan_input : SyncInput
scan_input = record {
  organization = 1;
  asset = 7;
  scan = 40;
  scan_type = ScanType.ssl_cert;
  drafts = new_draft ∷ draft "TLS-WEAK" "a:443" ∷ new_draft ∷ draft "TLS-WEAK" "b:443" ∷ [];
  incomplete = [];
}

abbrev stored : ℕ → ℕ → String → Status → Option ℕ → Finding
stored id asset k s date = record {
  id = id;
  organization = 1;
  asset = asset;
  fingerprint = k;
  category = Category.tls_certificate;
  rule_id = "TLS-WEAK";
  severity = Severity.medium;
  cvss = 50;
  status = s;
  title = "";
  description = "";
  recommendation = "";
  location = "";
  evidence = "{}";
  first_seen_at = 10;
  last_seen_at = 20;
  last_scan = some 39;
  resolved_at = date;
  assigned_to = some 3;
  due_date = none;
  remediation_note = none;
  review_note = none;
  reviewed_by = none;
  cloud_account = none;
}

abbrev accepted_row : Finding
accepted_row = stored 1 7 "TLS-WEAK|d:443" Status.accepted none

abbrev table : Table
table = record {
  rows =
      stored 4 7 "TLS-WEAK|a:443" Status.in_progress none
      ∷ stored 3 7 "TLS-WEAK|b:443" Status.resolved (some 25)
      ∷ stored 2 7 "TLS-WEAK|c:443" Status.open_ none
      ∷ accepted_row
      ∷ stored 0 8 "TLS-WEAK|c:443" Status.open_ none
      ∷ [];
  next_id = 5;
}

abbrev progress_of : Result Progress → Progress
progress_of (ok p) = p
progress_of (err e) = start join keep_text 100 catalogue scan_input table

-- The variables at the end of the call.
abbrev after : Progress
after = progress_of (sync_for_scan join keep_text 100 catalogue scan_input table)

succeeds : sync_for_scan join keep_text 100 catalogue scan_input table ≡ ok after
unfolding sync_for_scan sync_drafts sync_draft save create reopen refresh finish resolve get_rule
    update_row
succeeds = refl

after_counts :
    (after.result.created ≡ 1)
    × (after.result.reopened ≡ 1)
    × (after.result.updated ≡ 1)
    × (after.result.resolved ≡ 1)
unfolding sync_for_scan sync_drafts sync_draft save create reopen refresh finish resolve get_rule
    update_row
after_counts = (refl, refl, refl, refl)

sync-detected_example :
    any (is_current join keep_text 100 catalogue scan_input "TLS-EXPIRED|a:443") after.table.rows
    ≡ true
sync-detected_example =
    sync-detected join keep_text 100 catalogue scan_input table after succeeds new_draft refl

sync-missing_example :
    All
      (λ r.
        is_stale join keep_text 100 catalogue scan_input (evaluated join keep_text 100 scan_input) r
        ≡ false)
      after.table.rows
sync-missing_example = sync-missing join keep_text 100 catalogue scan_input table after succeeds

sync-preserves_example :
    Below after.table.next_id after.table.rows
    × (r' : Finding) × (row 1 after.table.rows ≡ some r')
    × Keeps 7 accepted_row r'
unfolding row
sync-preserves_example =
    sync-preserves join keep_text 100 catalogue scan_input table after succeeds (omega arith) 1
      accepted_row refl
