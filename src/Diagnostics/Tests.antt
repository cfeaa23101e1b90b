-- ===== src/Diagnostics/Tests.antt =====
-- A diagnostic of one asset with two stages, and comparisons of diagnostics.
use sistema_de_gestion_de_po.Common.{
  ◌&&◌, ℕ, ◌≡◌, refl, ◌⊎◌, Bool, true, false, none, some, is_some, String, List, [], ◌∷◌, ◌==◌, All,
  arith, any, keep, str_eq,
}
use sistema_de_gestion_de_po.Common.Keyed.{row}
use sistema_de_gestion_de_po.Domain.{AssetType, ScanType, Severity, Status, Category, same_status}
use sistema_de_gestion_de_po.Findings.{Finding}
use sistema_de_gestion_de_po.Scans
use sistema_de_gestion_de_po.Scans.{Asset, Scan, Table, scanner_applies}
use sistema_de_gestion_de_po.Scans.Queue.{enqueue}
use sistema_de_gestion_de_po.Diagnostics.{BatchStatus, Profile, StageDefinition, stages_for_profile}
use sistema_de_gestion_de_po.Diagnostics.Pipeline.StageScans.{Asks, advance_pipeline-Asks}
use sistema_de_gestion_de_po.Diagnostics.Summary.{Data, Summary, PostureFinding, summary}
use sistema_de_gestion_de_po.Diagnostics.Pipeline.{
  Batch, State, Env, batch_id, of_batch, start, start_asset, enqueue_stage, enqueue_one,
  advance_pipeline, cancel_batch, in_stage, is_unfinished, nth_stage,
}
use sistema_de_gestion_de_po.Diagnostics.Pipeline.Order.{
  MovesOn, advance_pipeline-InOrder, advance_rounds, advance_rounds-Ends,
}
use sistema_de_gestion_de_po.Diagnostics.Pipeline.Rows.{IsValid, Move, phase, Cause, last_stage}
use sistema_de_gestion_de_po.Diagnostics.Pipeline.Invariant.{
  Reach, here, next, advanced, started, Reach-IsValid, step-Move,
}
use sistema_de_gestion_de_po.Diagnostics.Pipeline.Cancellation.{HasEnded, cancel_batch-ends}
use sistema_de_gestion_de_po.Diagnostics.Diff.{compare, improved, empty_surface}
use sistema_de_gestion_de_po.Diagnostics.Diff.Reports.{zero_score-improves, accepted-remediated}

abbrev asset : Asset
asset = record {
  id = 7;
  organization = 1;
  type = AssetType.ip;
  value = "203.0.113.9";
  is_active = true;
  authorization_confirmed = true;
  verified_at = some 3;
}

abbrev env : Env
env = record {
  settings = record {
    scanners =
        record { type = ScanType.port_scan; asset_types = none; passive = false }
        ∷ record { type = ScanType.web_headers; asset_types = none; passive = false }
        ∷ record { type = ScanType.ssl_cert; asset_types = none; passive = false }
        ∷ [];
    verification_required = true;
    max_per_hour = none;
    max_per_org = none;
    timeout_seconds = none;
  };
  assets = asset ∷ [];
}

abbrev type_of : ℕ → AssetType
type_of n = AssetType.ip

-- The asset has got the worst score.
abbrev data_now : Data
data_now = record {
  findings = [];
  latest_score = λ n. some (record { score = some 0; grade = some "F" });
  ports = record { scan = 0; port = 443; state = "open" } ∷ [];
  discovered_hosts = λ n. 0;
  summary_of = λ s. record {
    waf = none;
    technologies = none;
    stack_trace_exposed = false;
    scripts_inspected = none;
    endpoints_detected = none;
    unauthenticated_operations = none;
    protocols = none;
  };
}

abbrev empty : State
empty = record { scans = record { rows = []; next_id = 0 }; batches = []; next_id = 0 }

abbrev begun : State
begun = (start env empty 1 5 7 Profile.perimeter_fast 1000).1

abbrev batch : Batch
batch = record {
  id = 0;
  organization = 1;
  asset = 7;
  requested_by = some 5;
  profile = Profile.perimeter_fast;
  status = BatchStatus.in_progress;
  current_stage = 1;
  total_stages = 2;
  summary = none;
  started_at = some 1000;
  finished_at = none;
  created_at = 1000;
}

begun_batch : row batch_id 0 begun.batches ≡ some batch
unfolding start start_asset stages_for_profile row
begun_batch = refl

-- The scan of the first stage waits, so the diagnostic does.
advance_pipeline-InOrder_example :
    ((any
          (λ (r : Scan). of_batch 0 r && in_stage 1 r && Scans.in_progress r.status)
          begun.scans.rows
        ≡ true)
      × (advance_pipeline env data_now type_of begun 0 2000 ≡ begun))
    ⊎ ((any
            (λ (r : Scan). of_batch 0 r && in_stage 1 r && Scans.in_progress r.status)
            begun.scans.rows
          ≡ false)
        × ((b' : Batch) × (row batch_id 0
                (advance_pipeline env data_now type_of begun 0 2000).batches
              ≡ some b')
            × MovesOn batch b' 2 2000))
unfolding stages_for_profile
advance_pipeline-InOrder_example =
    advance_pipeline-InOrder env data_now type_of begun 0 2000 batch begun_batch refl

abbrev no_scans : Table
no_scans = record { rows = []; next_id = 9 }

advance_rounds-Ends_example :
    (b' : Batch) × (row batch_id 0
        (advance_rounds env data_now type_of begun 0
          ((no_scans, 2000) ∷ (no_scans, 3000) ∷ [])).batches
      ≡ some b')
    × (is_unfinished b'.status ≡ false)
    × (is_some b'.summary ≡ true)
advance_rounds-Ends_example =
    advance_rounds-Ends env data_now type_of begun 0 ((no_scans, 2000) ∷ (no_scans, 3000) ∷ [])
      batch begun_batch refl (refl, (refl, tt)) (omega arith) (omega arith)

empty-IsValid : IsValid empty
unfolding row
empty-IsValid = record {
  ordered = tt;
  single = λ o a. omega arith;
  each = λ i b e. ground (arith, e);
}

abbrev history :
    Reach env data_now type_of empty (advance_pipeline env data_now type_of begun 0 2000)
history = next (next here (started 1 5 7 Profile.perimeter_fast 1000 refl)) (advanced 0 2000 refl)

Reach-IsValid_example : IsValid (advance_pipeline env data_now type_of begun 0 2000)
Reach-IsValid_example = Reach-IsValid env data_now type_of history empty-IsValid

begun-IsValid : IsValid begun
begun-IsValid =
    Reach-IsValid env data_now type_of (next here (started 1 5 7 Profile.perimeter_fast 1000 refl))
      empty-IsValid

step-Move_example :
    (b' : Batch) × (row batch_id 0 (advance_pipeline env data_now type_of begun 0 2000).batches
      ≡ some b')
    × Move (last_stage type_of batch) Cause.advance (phase batch) (phase b')
step-Move_example =
    step-Move env data_now type_of begun (advance_pipeline env data_now type_of begun 0 2000)
      (advanced 0 2000 refl) begun-IsValid 0 batch begun_batch

-- The scan of the first stage has been done: the two of the second are asked for.
abbrev after_first : State
after_first = record begun { scans = no_scans }

advance_pipeline-Asks_example :
    (st : StageDefinition) × (nth_stage 1 (stages_for_profile Profile.perimeter_fast AssetType.ip)
      ≡ some st)
    × Asks env batch 2 2000 st.types no_scans
        (advance_pipeline env data_now type_of after_first 0 2000).scans
unfolding stages_for_profile
advance_pipeline-Asks_example =
    advance_pipeline-Asks env data_now type_of after_first 0 2000 batch begun_batch refl refl
      (omega arith)

cancel_batch-ends_example :
    All
      (λ (r : Scan). HasEnded r.id (cancel_batch begun 1 0 3000).1.scans)
      (keep (of_batch 0) begun.scans.rows)
unfolding start start_asset stages_for_profile enqueue_stage enqueue_one enqueue scanner_applies
cancel_batch-ends_example = cancel_batch-ends 1 3000 begun 0 batch refl (omega arith, tt) (refl, tt)

abbrev finding : ℕ → String → PostureFinding
finding id fingerprint = record {
  id = id;
  fingerprint = fingerprint;
  rule_id = "WEB-001";
  title = "HSTS";
  severity = Severity.high;
  status = Status.open_;
  location = "/";
}

abbrev earlier : List PostureFinding
earlier = finding 1 "a" ∷ finding 2 "b" ∷ []

abbrev later : List PostureFinding
later = finding 2 "b" ∷ finding 3 "c" ∷ finding 4 "d" ∷ []

abbrev is_third : PostureFinding → Bool
is_third f = f.id == 3

abbrev before : Summary
before = record {
  total_scans_enqueued = 3;
  final_score = 60;
  score = record { score = 60; grade = "D" };
  findings_count = record { total = 0; critical = 0; high = 0; medium = 0; low = 0 };
  finding_snapshots = [];
  surface = empty_surface;
}

-- The row of the finding "a", an accepted risk by now.
abbrev accepted_row : Finding
accepted_row = record {
  id = 1;
  organization = 1;
  asset = 7;
  fingerprint = "a";
  category = Category.http_headers;
  rule_id = "WEB-001";
  severity = Severity.high;
  cvss = 70;
  status = Status.accepted;
  title = "HSTS";
  description = "";
  recommendation = "";
  location = "/";
  evidence = "";
  first_seen_at = 10;
  last_seen_at = 20;
  last_scan = none;
  resolved_at = none;
  assigned_to = none;
  due_date = none;
  remediation_note = none;
  review_note = none;
  reviewed_by = none;
  cloud_account = none;
}

abbrev data_accepted : Data
data_accepted = record data_now { findings = accepted_row ∷ [] }

abbrev with_snapshot : Summary
with_snapshot = record before { finding_snapshots = finding 1 "a" ∷ [] }

accepted-remediated_example :
    any
      (λ (g : PostureFinding).
        g.id == 1 && str_eq g.fingerprint "a" && same_status g.status Status.resolved)
      (compare
        (some with_snapshot)
        (some (summary data_accepted 7 []))).findings.remediated_findings
    ≡ true
accepted-remediated_example =
    accepted-remediated data_accepted 7 [] with_snapshot 1 "a" refl ((λ e a. refl), tt)

zero_score-improves_example :
    let diff = compare (some before) (some (summary data_now 7 [])) in
    (diff.current ≡ 100) × (diff.grade_change ≡ improved)
zero_score-improves_example = zero_score-improves data_now 7 [] (some "F") before refl (omega arith)
