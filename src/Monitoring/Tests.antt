-- ===== src/Monitoring/Tests.antt =====
-- A pass of the scheduler over one asset that was audited a day before.
use sistema_de_gestion_de_po.Common.{
  ℕ, ◌+◌, ◌≤◌, ◌≡◌, refl, ◌≢◌, ◌⊎◌, true, false, none, some, [], ◌∷◌, arith,
}
use sistema_de_gestion_de_po.Domain.{AssetType, ScanType}
use sistema_de_gestion_de_po.Scans.{scanner_applies}
use sistema_de_gestion_de_po.Scans.Queue.{Settings, enqueue, org_maximum}
use sistema_de_gestion_de_po.Scans.Steps.Operations.{Inv}
use sistema_de_gestion_de_po.Monitoring.{
  off, daily, period_ms, slack_ms, Monitored, State, is_due, shown_as_due, claim, run_once,
  run_frequency, run_assets, run_asset, due_assets, enqueue_all, enqueue_types,
}
use sistema_de_gestion_de_po.Monitoring.Guarantees.{
  shown_as_due-agrees, claim-once, run_once-IsSound,
}

abbrev settings : Settings
settings = record {
  scanners =
      record { type = ScanType.port_scan; asset_types = none; passive = false }
      ∷ record { type = ScanType.ssl_cert; asset_types = none; passive = false }
      ∷ [];
  verification_required = true;
  max_per_hour = none;
  max_per_org = none;
  timeout_seconds = none;
}

abbrev monitored : Monitored
monitored = record {
  asset = record {
    id = 7;
    organization = 1;
    type = AssetType.ip;
    value = "203.0.113.9";
    is_active = true;
    authorization_confirmed = true;
    verified_at = some 3;
  };
  organization_active = true;
  frequency = daily;
  last_scheduled_scan_at = some 1000;
  created_at = 5;
}

abbrev state : State
state = record { rows = monitored ∷ []; scans = record { rows = []; next_id = 0 } }

-- The pass queues both types.
two_queued : (run_once settings 20 86400000 state).1.queued_scans ≡ 2
unfolding run_once run_frequency run_assets run_asset due_assets claim is_due enqueue_all
    enqueue_types enqueue scanner_applies
two_queued = refl

daily_on : daily ≢ off
daily_on e = cc

shown_as_due-agrees_example :
    (is_due settings daily 86400000 monitored ≡ true
      → shown_as_due settings 86400000 monitored ≡ true)
    × (shown_as_due settings 86400000 monitored ≡ true
        → (is_due settings daily 86400000 monitored ≡ true)
          ⊎ ((t : ℕ) × (monitored.last_scheduled_scan_at ≡ some t)
              × (t + period_ms daily ≡ 86400000 + slack_ms)))
shown_as_due-agrees_example = shown_as_due-agrees settings 86400000 monitored refl daily_on

claim-once_example :
    (claim settings daily 7 90000000 (claim settings daily 7 86400000 state).0).1 ≡ false
unfolding claim is_due
claim-once_example =
    claim-once settings daily 7 86400000 90000000 8 state (omega arith, tt) refl (omega arith)

run_once-IsSound_example :
    Inv (org_maximum settings) (run_once settings 20 86400000 state).0.scans
    × ((run_once settings 20 86400000 state).1.claimed
        ≤ (run_once settings 20 86400000 state).1.due)
    × ((run_once settings 20 86400000 state).1.due ≤ 20)
run_once-IsSound_example =
    run_once-IsSound settings 20 86400000 state
      (record { ordered = tt; single = λ a k. omega arith; limited = λ o. omega arith })
