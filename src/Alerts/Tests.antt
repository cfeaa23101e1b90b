-- ===== src/Alerts/Tests.antt =====
-- A scan of ports that opens a critical finding at a new port and another elsewhere.
use sistema_de_gestion_de_po.Common.{
  ℕ, ◌≡◌, refl, true, false, none, some, String, [], ◌∷◌, any, arith, if◌then◌else◌, ◌==◌, length,
}
use sistema_de_gestion_de_po.Domain.{Severity, Category, ScanType}
use sistema_de_gestion_de_po.Findings.Sync.{OpenedFinding}
use sistema_de_gestion_de_po.Alerts.{
  PortInfo, AlertDetectionInput, detect_alerts, location_of, new_ports, port_alerts, cert_alerts,
  host_alerts, critical_alert, covered, score_alerts, sort_ports, insert_port,
}
use sistema_de_gestion_de_po.Alerts.Coverage.{is_critical_alert, detect_alerts-critical}

abbrev digits : ℕ → String
digits n = if n == 22 then "22" else "443"

abbrev no_sqrt : ℕ → ℕ → ℕ
no_sqrt p q = 0

abbrev port : ℕ → PortInfo
port n = record { port = n; protocol = "tcp"; service_name = none; product = none; version = none }

abbrev opened : ℕ → String → Severity → OpenedFinding
opened id location s = record {
  id = id;
  rule_id = "PORT-SSH";
  category = Category.exposed_service;
  severity = s;
  title = "";
  location = location;
  evidence = "{}";
  reopened = false;
}

abbrev input : AlertDetectionInput
input = record {
  scan_type = ScanType.port_scan;
  opened =
      opened 1 "tcp/22" Severity.critical
      ∷ opened 2 "tcp/80" Severity.critical
      ∷ opened 3 "tcp/22" Severity.low
      ∷ [];
  new_open_ports = some (port 443 ∷ port 22 ∷ []);
  new_hosts = none;
  score_change = none;
}

-- One alert of the ports and one of the finding that it does not cover.
two_alerts : length (detect_alerts digits no_sqrt input) ≡ 2
unfolding detect_alerts new_ports port_alerts cert_alerts host_alerts critical_alert covered
    score_alerts sort_ports insert_port location_of
two_alerts = refl

detect_alerts-critical_example :
    any (is_critical_alert 1) (detect_alerts digits no_sqrt input) ≡ true
detect_alerts-critical_example = detect_alerts-critical digits no_sqrt input 1 refl (ground arith)
