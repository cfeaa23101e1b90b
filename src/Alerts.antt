-- ===== src/Alerts.antt =====
-- Early warnings (backend/src/alerts/alert-rules.ts, and `calculateNextRetry` of
-- backend/src/alerts/alerts.service.ts). An alert keeps its type, its severity and the findings,
-- ports and hosts that its data names; the texts of titles and messages are left out, and so are
-- the labels of assets that only they use. `show` stands for the text of a number.
pub mod Severities
pub mod Coverage
mod Tests
use Prim.Native.String.{◌++◌ as text_append}
use sistema_de_gestion_de_po.Common.{
  ℕ, suc, ◌+◌, ◌-◌, ◌*◌, ◌/◌, ◌^◌, ◌≡◌, Bool, true, false, ◌&&◌, ◌||◌, not, Option, none, some,
  String, List, [], ◌∷◌, ◌++◌, map, if◌then◌else◌, ◌==◌, leb, ltb, str_eq, any, keep, length,
}
use sistema_de_gestion_de_po.Domain.{
  Severity, ScanType, Category, same_severity, same_category, same_scan_type,
}
use sistema_de_gestion_de_po.Findings.Sync.{OpenedFinding}
use sistema_de_gestion_de_po.Scoring.{severity_order}
use sistema_de_gestion_de_po.Scoring.Anomaly.{ScoreAnomalyEvaluation, evaluate_score_anomaly}

pub record PortInfo : Type 0 where
  pub port : ℕ
  pub protocol : String
  pub service_name : Option String
  pub product : Option String
  pub version : Option String

pub record ScoreAnomalyInput : Type 0 where
  pub current_score : ℕ
  pub previous_score : ℕ
  pub history_scores : List ℕ

pub record AlertDetectionInput : Type 0 where
  pub scan_type : ScanType
  pub opened : List OpenedFinding
  -- absent for the first scan of its kind
  pub new_open_ports : Option (List PortInfo)
  pub new_hosts : Option (List String)
  pub score_change : Option ScoreAnomalyInput

pub data AlertType : Type 0 where
  new_open_port cert_expiring critical_finding new_subdomain score_anomaly : AlertType

pub record AlertDraft : Type 0 where
  pub type : AlertType
  pub severity : Severity
  pub findings : List ℕ
  pub ports : List PortInfo
  pub hosts : List String

abbrev pub cert_expiry_rules : List String
cert_expiry_rules = "TLS-EXPIRED" ∷ "TLS-EXPIRING-7D" ∷ "TLS-EXPIRING-30D" ∷ []

-- `indexOf`; every severity is in the list.
index_of : List Severity → Severity → ℕ
index_of [] s = 0
index_of (t ∷ ts) s = if same_severity t s then 0 else suc (index_of ts s)

pub severity_rank : Severity → ℕ
unfolding index_of
severity_rank s = index_of severity_order s

pub meets_threshold : Severity → Severity → Bool
unfolding severity_rank
meets_threshold severity threshold = leb (severity_rank severity) (severity_rank threshold)

-- `reduce` from the fallback.
pub max_severity : List Severity → Severity → Severity
unfolding severity_rank
max_severity [] acc = acc
max_severity (s ∷ ss) acc =
    max_severity ss (if ltb (severity_rank s) (severity_rank acc) then s else acc)

-- The stable sort by port.
insert_port : PortInfo → List PortInfo → List PortInfo
insert_port p [] = p ∷ []
insert_port p (q ∷ qs) = if leb p.port q.port then p ∷ q ∷ qs else q ∷ insert_port p qs

sort_ports : List PortInfo → List PortInfo
unfolding insert_port
sort_ports [] = []
sort_ports (p ∷ ps) = insert_port p (sort_ports ps)

abbrev pub has_id : ℕ → List ℕ → Bool
has_id i is = any (λ j. j == i) is

abbrev pub is_cert_expiry : OpenedFinding → Bool
is_cert_expiry f = any (λ r. str_eq r f.rule_id) cert_expiry_rules

abbrev pub ids : List OpenedFinding → List ℕ
ids fs = map (λ (f : OpenedFinding). f.id) fs

-- One alert for each finding of an expiry rule.
cert_alerts : List OpenedFinding → List AlertDraft
cert_alerts [] = []
cert_alerts (f ∷ fs) =
    let rest = cert_alerts fs in
    if is_cert_expiry f
    then record {
      type = cert_expiring;
      severity = f.severity;
      findings = f.id ∷ [];
      ports = [];
      hosts = [];
    }
      ∷ rest
    else rest

host_alerts : ScanType → Option (List String) → List AlertDraft
host_alerts t none = []
host_alerts t (some []) = []
host_alerts t (some (h ∷ hs)) =
    if same_scan_type t ScanType.subdomain_discovery
    then record {
      type = new_subdomain;
      severity = Severity.medium;
      findings = [];
      ports = [];
      hosts = h ∷ hs;
    }
      ∷ []
    else []

abbrev pub is_uncovered_critical : List ℕ → OpenedFinding → Bool
is_uncovered_critical covered f =
    same_severity f.severity Severity.critical && not (has_id f.id covered)

critical_alert : List OpenedFinding → List AlertDraft
critical_alert [] = []
critical_alert (f ∷ fs) =
    record {
      type = critical_finding;
      severity = Severity.critical;
      findings = ids (f ∷ fs);
      ports = [];
      hosts = [];
    }
    ∷ []

module _ (show : ℕ → String) (sqrt_tenths : ℕ → ℕ → ℕ) where
  -- `${protocol}/${port}`.
  pub location_of : PortInfo → String
  location_of p = text_append p.protocol (text_append "/" (show p.port))

  abbrev pub is_among : List PortInfo → String → Bool
  is_among ps l = any (λ p. str_eq (location_of p) l) ps

  -- The findings of exposed services at the new ports.
  abbrev pub is_related : List PortInfo → OpenedFinding → Bool
  is_related ps f = same_category f.category Category.exposed_service && is_among ps f.location

  abbrev pub port_alert : List PortInfo → List OpenedFinding → AlertDraft
  port_alert ps opened =
      let related = keep (is_related ps) opened in
      record {
        type = new_open_port;
        severity = max_severity (map (λ (f : OpenedFinding). f.severity) related) Severity.medium;
        findings = ids related;
        ports = ps;
        hosts = [];
      }

  -- The ports, in order, that this scan alerts of.
  new_ports : AlertDetectionInput → List PortInfo
  unfolding sort_ports
  new_ports input = elim input.new_open_ports [
    | none ↦ []
    | some ps ↦ if same_scan_type input.scan_type ScanType.port_scan then sort_ports ps else []
  ]

  port_alerts : List PortInfo → List OpenedFinding → List AlertDraft
  port_alerts [] opened = []
  port_alerts (p ∷ ps) opened = port_alert (p ∷ ps) opened ∷ []

  -- What the first two kinds of alert cover.
  pub covered : List PortInfo → List OpenedFinding → List ℕ
  covered [] opened = ids (keep is_cert_expiry opened)
  covered (p ∷ ps) opened =
      ids (keep (is_related (p ∷ ps)) opened) ++ ids (keep is_cert_expiry opened)

  score_alerts : Option ScoreAnomalyInput → List AlertDraft
  score_alerts none = []
  score_alerts (some c) =
      elim (evaluate_score_anomaly sqrt_tenths c.current_score c.previous_score
        c.history_scores).severity [
          | none ↦ []
          | some s ↦
              record { type = score_anomaly; severity = s; findings = []; ports = []; hosts = [] }
              ∷ []
        ]

  pub detect_alerts : AlertDetectionInput → List AlertDraft
  unfolding new_ports port_alerts cert_alerts host_alerts critical_alert covered score_alerts
  detect_alerts input =
      let ps = new_ports input in
      port_alerts ps input.opened
      ++ cert_alerts input.opened
      ++ host_alerts input.scan_type input.new_hosts
      ++ critical_alert (keep (is_uncovered_critical (covered ps input.opened)) input.opened)
      ++ score_alerts input.score_change

  -- The ports of the current scan at no place of the previous one.
  pub diff_open_ports : (previous current : List PortInfo) → List PortInfo
  unfolding location_of
  diff_open_ports previous current = keep (λ p. not (is_among previous (location_of p))) current

-- The time of the next try of a delivery; a first attempt counts as 1, and 0 attempts wait half
-- the base.
pub calculate_next_retry : (attempts max_retries base_ms now : ℕ) → Option ℕ
calculate_next_retry attempts max_retries base_ms now =
    if leb max_retries attempts
    then none
    else if attempts == 0
    then some (now + base_ms / 2)
    else some (now + base_ms * 2 ^ (attempts - 1))
