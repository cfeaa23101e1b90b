-- ===== src/Scans/Tests.antt =====
-- Runs of the queue with one asset, one scanner and a limit of one running scan.
use sistema_de_gestion_de_po.Common.{
  ◌≡◌, refl, true, false, none, some, [], ◌∷◌, All, arith, str_eq,
}
use sistema_de_gestion_de_po.Common.Keyed.{row, update}
use sistema_de_gestion_de_po.Domain.{AssetType, ScanType, ScanStatus, ScanSource}
use sistema_de_gestion_de_po.Scans.{Asset, Scan, Table, scan_id, scanner_applies}
use sistema_de_gestion_de_po.Scans.Queue.{
  EnqueueInput, Result, ok, err, enqueue, new_scan, claim_next, next_scan, org_maximum,
}
use sistema_de_gestion_de_po.Scans.Queue
use sistema_de_gestion_de_po.Scans.Queue.Admission.{
  Admitted, enqueue-Admitted, next_scan-first, MayStart, GoesFirst,
}
use sistema_de_gestion_de_po.Scans.Worker.{
  Worker, TextOps, ScanError, AbortReason, Run, returned, threw, finish_run, Limits, Concurrency,
  base_concurrency, max_adaptive_concurrency,
}
use sistema_de_gestion_de_po.Scans.Worker
use sistema_de_gestion_de_po.Scans.Worker.Adaptive.{initial}
use sistema_de_gestion_de_po.Scans.Worker.Outcome.{settled, finish_run-row, executions, retries_end}
use sistema_de_gestion_de_po.Scans.Steps.{Step, Reach, here, next}
use sistema_de_gestion_de_po.Scans.Steps.Moves.{Evolves}
use sistema_de_gestion_de_po.Scans.Steps.Operations.{Inv}
use sistema_de_gestion_de_po.Scans.Steps.Invariant.{
  empty-Inv, Reach-Inv, step-Evolves, ended_forever,
}

abbrev asset : Asset
asset = record {
  id = 7;
  organization = 1;
  type = AssetType.domain;
  value = "pyme.es";
  is_active = true;
  authorization_confirmed = true;
  verified_at = some 3;
}

abbrev queue_settings : Queue.Settings
queue_settings = record {
  scanners = record { type = ScanType.ssl_cert; asset_types = none; passive = false } ∷ [];
  verification_required = true;
  max_per_hour = none;
  max_per_org = none;
  timeout_seconds = none;
}

abbrev request : EnqueueInput
request = record {
  organization = 1;
  asset = 7;
  type = ScanType.ssl_cert;
  requested_by = some 5;
  source = ScanSource.manual;
  batch = none;
  stage = none;
}

abbrev empty : Table
empty = record { rows = []; next_id = 0 }

abbrev waiting : Scan
waiting = new_scan request 0 1000

abbrev queued : Table
queued = record { rows = waiting ∷ []; next_id = 1 }

enqueue_succeeds : enqueue queue_settings request (asset ∷ []) empty 1000 ≡ ok queued
unfolding enqueue scanner_applies
enqueue_succeeds = refl

enqueue-Admitted_example :
    (a : Asset) × Admitted queue_settings request (asset ∷ []) empty 1000 a
    × (queued ≡ record { rows = waiting ∷ []; next_id = 1 })
enqueue-Admitted_example =
    enqueue-Admitted queue_settings request (asset ∷ []) empty queued 1000 enqueue_succeeds

-- A header scan of an earlier second of the same minute comes after the certificate scan.
abbrev earlier_scan : Scan
earlier_scan = record waiting { id = 1; type = ScanType.web_headers; created_at = 500 }

next_scan-first_example :
    MayStart 1 (earlier_scan ∷ waiting ∷ []) waiting
    × All
        (λ r. MayStart 1 (earlier_scan ∷ waiting ∷ []) r → GoesFirst waiting r)
        (earlier_scan ∷ waiting ∷ [])
unfolding next_scan
next_scan-first_example = next_scan-first 1 (earlier_scan ∷ waiting ∷ []) waiting refl

abbrev limits : Limits
limits = record { max_concurrency = some 2; max_adaptive = some 3 }

abbrev worker_settings : Worker.Settings
worker_settings = record { limits = limits; max_transient_retries = some 1 }

abbrev texts : TextOps
texts = record { lower = λ s. s; upper = λ s. s; contains = λ s t. str_eq s t }

abbrev two_running : Concurrency
two_running = record { limit = 2; successes = 0; failures = 1 }

abbrev worker : Table → Worker
worker t = record { scans = t; concurrency = initial limits; notified = [] }

abbrev started : Worker
started = worker (claim_next 1 2000 queued).0

abbrev running_scan : Scan
running_scan = record waiting { status = ScanStatus.running; started_at = some 2000 }

abbrev reset_error : ScanError
reset_error = record { message = "socket hang up"; code = ""; controlled = false }

running_row : row scan_id 0 started.scans.rows ≡ some running_scan
unfolding row claim_next next_scan update
running_row = refl

finish_run-row_example :
    row scan_id 0
      (finish_run texts worker_settings running_scan none
        (threw reset_error)
        ""
        3000
        started).scans.rows
    ≡ some (settled texts worker_settings none (threw reset_error) "" 3000 running_scan)
finish_run-row_example =
    finish_run-row texts worker_settings running_scan none (threw reset_error) "" 3000 started
      running_row refl

queued_row : row scan_id 0 (worker queued).scans.rows ≡ some waiting
unfolding row
queued_row = refl

retries_end_example :
    (r' : Scan) × (row scan_id 0
        (executions texts worker_settings 0
          ((reset_error, 3000) ∷ (reset_error, 4000) ∷ [])
          (worker queued)).scans.rows
      ≡ some r')
    × (r'.status ≡ ScanStatus.failed)
retries_end_example =
    retries_end texts worker_settings 0 ((reset_error, 3000) ∷ (reset_error, 4000) ∷ [])
      (worker queued) waiting queued_row refl (omega arith) (omega arith)

-- A request, a claim and the completion of the scan.
abbrev ended : Worker
ended = finish_run texts worker_settings running_scan none returned "" 3000 started

request_step : Step queue_settings texts worker_settings (worker empty) (worker queued)
request_step = Step.requested request (asset ∷ []) 1000 queued enqueue_succeeds refl

claim_step : Step queue_settings texts worker_settings (worker queued) started
claim_step = Step.claimed 2000 refl

end_step : Step queue_settings texts worker_settings started ended
end_step = Step.ended running_scan none returned "" 3000 refl

history : Reach queue_settings texts worker_settings (worker empty) ended
history = next (next (next here request_step) claim_step) end_step

Reach-Inv_example : Inv (org_maximum queue_settings) ended.scans
Reach-Inv_example =
    Reach-Inv queue_settings texts worker_settings history (empty-Inv (org_maximum queue_settings))

queued-Inv : Inv (org_maximum queue_settings) queued
queued-Inv =
    Reach-Inv queue_settings texts worker_settings (next here request_step)
      (empty-Inv (org_maximum queue_settings))

step-Evolves_example :
    (r' : Scan) × (row scan_id 0 started.scans.rows ≡ some r') × Evolves waiting r'
unfolding row
step-Evolves_example =
    step-Evolves queue_settings texts worker_settings claim_step queued-Inv 0 waiting refl

-- The scan was cancelled before: the claims and requests that follow leave it alone.
abbrev cancelled_scan : Scan
cancelled_scan = record waiting { status = ScanStatus.cancelled; finished_at = some 1500 }

abbrev with_cancelled : Table
with_cancelled = record { rows = cancelled_scan ∷ []; next_id = 1 }

with_cancelled-Inv : Inv (org_maximum queue_settings) with_cancelled
with_cancelled-Inv = record {
  ordered = (omega arith, tt);
  single = λ a k. ground arith;
  limited = λ o. ground arith;
}

abbrev after_claim : Worker
after_claim = worker (claim_next 1 2000 with_cancelled).0

ended_forever_example :
    (r' : Scan) × (row scan_id 0 after_claim.scans.rows ≡ some r')
    × (r' ≡ record cancelled_scan { target_address = r'.target_address })
unfolding row
ended_forever_example =
    ended_forever queue_settings texts worker_settings {w = worker with_cancelled}
      (next here (Step.claimed 2000 refl)) with_cancelled-Inv 0 cancelled_scan refl refl
