-- ===== src/Diagnostics/Summary.antt =====
-- What a diagnostic stores when it ends (backend/src/scans/diagnostic-orchestrator.service.ts,
-- `completeBatch`): the score, the active findings and the exposed surface. The JSON summaries of
-- the scanners are records of what is read of them; a missing member is `none`.
use sistema_de_gestion_de_po.Common.{
  ℕ, Bool, true, false, ◌&&◌, ◌||◌, Option, none, some, String, List, [], ◌∷◌, map, keep, any, find,
  length, count_if, ◌==◌, ltb, if◌then◌else◌, str_eq, or_else,
}
use sistema_de_gestion_de_po.Domain.{Severity, Status, ScanType, same_scan_type, same_severity}
use sistema_de_gestion_de_po.Findings.{Finding}
use sistema_de_gestion_de_po.Scans.{Scan}

pub record PostureFinding : Type 0 where
  pub id : ℕ
  pub fingerprint : String
  pub rule_id : String
  pub title : String
  pub severity : Severity
  pub status : Status
  pub location : String

pub record Surface : Type 0 where
  pub open_ports : List ℕ
  pub subdomains_count : ℕ
  pub technologies : List String
  pub waf : String
  pub external_scripts_count : ℕ
  pub tls_protocols : Option (List String)
  pub open_api_endpoints_count : Option ℕ
  pub unauthenticated_api_ops_count : Option ℕ
  pub debug_stack_trace_exposed : Option Bool

pub record Score : Type 0 where
  pub score : ℕ
  pub grade : String

pub record FindingCounts : Type 0 where
  pub total : ℕ
  pub critical : ℕ
  pub high : ℕ
  pub medium : ℕ
  pub low : ℕ

pub record Summary : Type 0 where
  pub total_scans_enqueued : ℕ
  pub final_score : ℕ
  pub score : Score
  pub findings_count : FindingCounts
  pub finding_snapshots : List PostureFinding
  pub surface : Surface

-- A row of `riskScore`: without a completed scan it has neither a score nor a grade.
pub record RiskScore : Type 0 where
  pub score : Option ℕ
  pub grade : Option String

pub record Port : Type 0 where
  pub scan : ℕ
  pub port : ℕ
  pub state : String

pub record ScanSummary : Type 0 where
  pub waf : Option String
  pub technologies : Option (List String)
  pub stack_trace_exposed : Bool
  pub scripts_inspected : Option ℕ
  pub endpoints_detected : Option ℕ
  pub unauthenticated_operations : Option ℕ
  pub protocols : Option (List (Option String))

-- The other tables, as they are when the diagnostic ends. The score is the latest of the asset.
pub record Data : Type 0 where
  pub findings : List Finding
  pub latest_score : ℕ → Option RiskScore
  pub ports : List Port
  pub discovered_hosts : ℕ → ℕ
  pub summary_of : Scan → ScanSummary

abbrev pub is_active : Status → Bool
is_active Status.open_ = true
is_active Status.in_progress = true
is_active Status.verifying = true
is_active _ = false

abbrev pub snapshot : Finding → PostureFinding
snapshot f = record {
  id = f.id;
  fingerprint = f.fingerprint;
  rule_id = f.rule_id;
  title = f.title;
  severity = f.severity;
  status = f.status;
  location = f.location;
}

abbrev pub open_findings : Data → ℕ → List PostureFinding
open_findings d asset = map snapshot (keep (λ f. f.asset == asset && is_active f.status) d.findings)

-- A `Set` of numbers in increasing order.
abbrev pub insert_port : ℕ → List ℕ → List ℕ
insert_port p [] = p ∷ []
insert_port p (q ∷ qs) =
    let rest = insert_port p qs in
    if p == q then q ∷ qs else if ltb p q then p ∷ q ∷ qs else q ∷ rest

abbrev pub open_ports_of : List Scan → List Port → List ℕ
open_ports_of scans [] = []
open_ports_of scans (p ∷ ps) =
    let rest = open_ports_of scans ps in
    if any (λ (s : Scan). s.id == p.scan) scans && str_eq p.state "open"
    then insert_port p.port rest
    else rest

abbrev pub has_text : String → List String → Bool
has_text t ts = any (λ u. str_eq u t) ts

-- A `Set` in the order of the first occurrences, less what is null or empty.
abbrev pub distinct_protocols : List String → List (Option String) → List String
distinct_protocols seen [] = []
distinct_protocols seen (none ∷ ps) = distinct_protocols seen ps
distinct_protocols seen (some p ∷ ps) =
    let known = str_eq p "" || has_text p seen in
    let rest = distinct_protocols (if known then seen else p ∷ seen) ps in
    if known then rest else p ∷ rest

abbrev no_summary : ScanSummary
no_summary = record {
  waf = none;
  technologies = none;
  stack_trace_exposed = false;
  scripts_inspected = none;
  endpoints_detected = none;
  unauthenticated_operations = none;
  protocols = none;
}

-- The summary of the first scan of a type.
abbrev pub summary_for : Data → ScanType → List Scan → ScanSummary
summary_for d t scans = elim (find (λ (s : Scan). same_scan_type s.type t) scans) [
  | none ↦ no_summary
  | some s ↦ d.summary_of s
]

unfoldable pub surface_of : Data → ℕ → List Scan → Surface
surface_of d asset scans =
    let web = summary_for d ScanType.web_headers scans in
    let paths = summary_for d ScanType.sensitive_paths scans in
    let ssl = summary_for d ScanType.ssl_cert scans in
    record {
      open_ports = open_ports_of scans d.ports;
      subdomains_count = d.discovered_hosts asset;
      technologies = or_else web.technologies [];
      waf = or_else web.waf "Ninguno detectado";
      external_scripts_count = or_else web.scripts_inspected 0;
      tls_protocols = some (distinct_protocols [] (or_else ssl.protocols []));
      open_api_endpoints_count = some (or_else paths.endpoints_detected 0);
      unauthenticated_api_ops_count = some (or_else paths.unauthenticated_operations 0);
      debug_stack_trace_exposed = some web.stack_trace_exposed;
    }

abbrev pub counts_of : List PostureFinding → FindingCounts
counts_of fs = record {
  total = length fs;
  critical = count_if (λ (f : PostureFinding). same_severity f.severity Severity.critical) fs;
  high = count_if (λ (f : PostureFinding). same_severity f.severity Severity.high) fs;
  medium = count_if (λ (f : PostureFinding). same_severity f.severity Severity.medium) fs;
  low = count_if (λ (f : PostureFinding). same_severity f.severity Severity.low) fs;
}

-- `currentScore?.score ? Number(currentScore.score) : 100`, where 0 is false.
unfoldable pub final_score : Option RiskScore → ℕ
final_score none = 100
final_score (some r) = elim r.score [ none ↦ 100 | some n ↦ if n == 0 then 100 else n ]

unfoldable pub final_grade : Option RiskScore → String
final_grade none = "A"
final_grade (some r) = or_else r.grade "A"

-- `scans` are those of the batch.
unfoldable pub summary : Data → ℕ → List Scan → Summary
unfolding final_score final_grade surface_of
summary d asset scans = record {
  total_scans_enqueued = length scans;
  final_score = final_score (d.latest_score asset);
  score = record {
    score = final_score (d.latest_score asset);
    grade = final_grade (d.latest_score asset);
  };
  findings_count = counts_of (open_findings d asset);
  finding_snapshots = open_findings d asset;
  surface = surface_of d asset scans;
}
