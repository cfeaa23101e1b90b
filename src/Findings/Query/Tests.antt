-- ===== src/Findings/Query/Tests.antt =====
-- A page and the summary of three findings, one of another organization.
use sistema_de_gestion_de_po.Common.{ℕ, Option, none, some, List, [], ◌∷◌}
use sistema_de_gestion_de_po.Domain.{Severity, Status, Category}
use sistema_de_gestion_de_po.Findings.{Finding}
use sistema_de_gestion_de_po.Findings.Sla.{SlaStatus}
use sistema_de_gestion_de_po.Findings.Query.{ListQuery}

abbrev stored : ℕ → ℕ → Severity → Option ℕ → Finding
stored id organization s due = record {
  id = id;
  organization = organization;
  asset = 7;
  fingerprint = "k";
  category = Category.http_headers;
  rule_id = "HDR-CSP";
  severity = s;
  cvss = 31;
  status = Status.open_;
  title = "";
  description = "";
  recommendation = "";
  location = "/";
  evidence = "{}";
  first_seen_at = 10;
  last_seen_at = 20;
  last_scan = none;
  resolved_at = none;
  assigned_to = none;
  due_date = due;
  remediation_note = none;
  review_note = none;
  reviewed_by = none;
  cloud_account = none;
}

abbrev rows : List Finding
rows =
    stored 3 1 Severity.high (some 50)
    ∷ stored 2 2 Severity.low none
    ∷ stored 1 1 Severity.low none
    ∷ []

abbrev overdue_query : ListQuery
overdue_query = record {
  asset = some 7;
  cloud_account = none;
  severity = none;
  status = none;
  category = none;
  domain = none;
  assigned_to = none;
  sla_status = some SlaStatus.overdue;
  effort_rules = none;
}
