-- ===== src/Scans/Worker.antt =====
-- The end of a scan's execution (backend/src/scans/scan-worker.service.ts: `execute`,
-- `handleInterrupted`, the guarded update of `persistOutcome`, `adaptConcurrency`,
-- `isTransientScanError`). What the scanner does is a parameter: its outcome, or the error it
-- throws, with the reason for which the signal was aborted, if it was. Findings, ports, alerts and
-- risk snapshots of a completed scan are other components.
pub mod Adaptive
pub mod Outcome
use sistema_de_gestion_de_po.Common.{
  ℕ, suc, ◌+◌, ◌-◌, ◌*◌, max, ◌≡◌, Bool, true, false, not, ◌&&◌, ◌||◌, Option, none, some, String,
  List, [], ◌∷◌, map, if◌then◌else◌, ◌==◌, leb, ltb, find, any, keep, count_if, or_else, is_some,
  str_eq,
}
use sistema_de_gestion_de_po.Common.Keyed.{update}
use sistema_de_gestion_de_po.Domain.{
  AssetType, ScanType, ScanStatus, same_scan_type, same_scan_status,
}
use sistema_de_gestion_de_po.Scans.{
  Asset, Scan, Table, Scanner, scan_id, scanner_applies, update_where, with_status,
}
use sistema_de_gestion_de_po.Scans.Queue
use sistema_de_gestion_de_po.Scans.Queue.{fail_stale_scans, is_orphan, stale_limit}

-- The counters of the adaptive concurrency.
pub record Concurrency : Type 0 where
  pub limit : ℕ
  pub successes : ℕ
  pub failures : ℕ

pub record Limits : Type 0 where
  pub max_concurrency : Option ℕ
  pub max_adaptive : Option ℕ

abbrev pub base_concurrency : Limits → ℕ
base_concurrency c = or_else c.max_concurrency 2

-- A configured maximum of 0 counts as none.
abbrev pub max_adaptive_concurrency : Limits → ℕ
max_adaptive_concurrency c =
    if or_else c.max_adaptive 0 == 0
    then max (base_concurrency c) 4
    else max (or_else c.max_adaptive 0) (base_concurrency c)

pub adapt_concurrency : Limits → Bool → Concurrency → Concurrency
adapt_concurrency c true k =
    if leb 3 (suc k.successes) && ltb k.limit (max_adaptive_concurrency c)
    then record { limit = suc k.limit; successes = 0; failures = 0 }
    else record { limit = k.limit; successes = suc k.successes; failures = 0 }
adapt_concurrency c false k =
    if leb 2 (suc k.failures) && ltb (base_concurrency c) k.limit
    then record { limit = k.limit - 1; successes = 0; failures = 0 }
    else record { limit = k.limit; successes = 0; failures = suc k.failures }

pub data AbortReason : Type 0 where
  cancelled timeout shutdown : AbortReason

-- An error as the worker sees it: `controlled` for the scanner's own kinds of error.
pub record ScanError : Type 0 where
  pub message : String
  pub code : String
  pub controlled : Bool

-- The texts that mark a transient failure.
abbrev pub transient_codes : List String
transient_codes =
    "ETIMEDOUT" ∷ "ECONNRESET" ∷ "EAI_AGAIN" ∷ "ECONNREFUSED" ∷ "EPIPE" ∷ "UND_ERR_SOCKET" ∷ []

abbrev pub transient_words : List String
transient_words =
    "timeout" ∷ "timed out" ∷ "econnreset" ∷ "socket hang up" ∷ "eai_again" ∷ "intermit"
    ∷ "transient" ∷ "servfail" ∷ "econnrefused" ∷ []

-- JavaScript's functions on texts.
pub record TextOps : Type 0 where
  pub lower : String → String
  pub upper : String → String
  -- the second text occurs in the first
  pub contains : String → String → Bool

pub is_transient : TextOps → ScanError → Bool
is_transient ops e =
    any (λ c. str_eq c (ops.upper e.code)) transient_codes
    || any (ops.contains (ops.lower e.message)) transient_words

-- How the run of a scanner ended.
pub data Run : Type 0 where
  returned : Run
  threw : ScanError → Run

pub record Worker : Type 0 where
  pub scans : Table
  pub concurrency : Concurrency
  -- scans whose end the hooks were told of, newest first: only those of a batch
  pub notified : List ℕ

pub record Settings : Type 0 where
  pub limits : Limits
  pub max_transient_retries : Option ℕ

abbrev pub max_retries : Settings → ℕ
max_retries c = or_else c.max_transient_retries 1

-- `updateMany({ where: { id, status: RUNNING } })`.
abbrev pub update_running : ℕ → (Scan → Scan) → Worker → Worker
update_running id f w = record w {
  scans = record (w.scans) {
    rows = update_where (with_status id ScanStatus.running) f w.scans.rows;
  };
}

abbrev pub notify : Scan → Worker → Worker
notify scan w = record w {
  notified = if is_some scan.batch then scan.id ∷ w.notified else w.notified;
}

abbrev pub adapt : Settings → Bool → Worker → Worker
adapt c success w = record w { concurrency = adapt_concurrency c.limits success w.concurrency }

abbrev pub requeue_row : Scan → Scan
requeue_row s = record s { status = ScanStatus.pending; started_at = none; target_address = none }

abbrev pub fail_row : ℕ → String → Scan → Scan
fail_row now message s = record s {
  status = ScanStatus.failed;
  finished_at = some now;
  error_message = some message;
}

unfoldable pub handle_interrupted : Scan → AbortReason → String → ℕ → Worker → Worker
handle_interrupted scan shutdown timeout_message now w = update_running scan.id requeue_row w
handle_interrupted scan timeout timeout_message now w =
    notify scan (update_running scan.id (fail_row now timeout_message) w)
handle_interrupted scan cancelled timeout_message now w = notify scan (
    update_running scan.id (λ s. record s { status = ScanStatus.cancelled; finished_at = some now })
      w)

-- The address that `execute` has resolved is written whatever the status is by then.
unfoldable pub set_target : ℕ → String → Worker → Worker
set_target id address w = record w {
  scans = record (w.scans) {
    rows =
        update_where (λ r. r.id == id) (λ r. record r { target_address = some address })
          w.scans.rows;
  };
}

-- `failStaleScans` with its notifications, which follow the order of the table.
notify_all : List Scan → List ℕ → List ℕ
notify_all [] ids = ids
notify_all (r ∷ rs) ids = notify_all rs (if is_some r.batch then r.id ∷ ids else ids)

unfoldable pub fail_orphans : Queue.Settings → ℕ → Worker → Worker
unfolding notify_all
fail_orphans q now w = record w {
  scans = fail_stale_scans q now w.scans;
  notified = notify_all (keep (is_orphan (stale_limit q now)) w.scans.rows) w.notified;
}

abbrev pub error_text : ScanError → String
error_text e = if e.controlled then e.message else "Error interno durante el escaneo"

-- The `catch` of `execute`, when the signal was not aborted. `scan` is the row read at the start.
unfoldable pub handle_error : TextOps → Settings → Scan → ScanError → ℕ → Worker → Worker
handle_error ops c scan e now w =
    if is_transient ops e && ltb scan.retry_count (max_retries c)
    then adapt c false (
        update_running scan.id (λ s. record (requeue_row s) { retry_count = suc scan.retry_count })
          w)
    else notify scan (update_running scan.id (fail_row now (error_text e)) (adapt c false w))

-- The completion: `parameters` is replaced, so the count of retries goes. If the row is no longer
-- RUNNING the transaction writes nothing and `execute` returns at once.
unfoldable pub complete : Settings → Scan → ℕ → Worker → Worker
complete c scan now w =
    if count_if (with_status scan.id ScanStatus.running) w.scans.rows == 0
    then w
    else notify scan (
        adapt c true (
          update_running scan.id
            (λ s. record s {
              status = ScanStatus.completed;
              finished_at = some now;
              retry_count = 0;
              error_message = none;
            })
            w))

-- The end of `execute`: an abort comes first, then the outcome or the error.
unfoldable pub finish_run :
    TextOps → Settings → Scan → Option AbortReason → Run → String → ℕ → Worker → Worker
finish_run ops c scan (some reason) run timeout_message now w =
    handle_interrupted scan reason timeout_message now w
finish_run ops c scan none returned timeout_message now w = complete c scan now w
finish_run ops c scan none (threw e) timeout_message now w = handle_error ops c scan e now w

-- The checks of `execute` before the scanner runs, with the errors that they throw. The value of
-- the asset is validated again by a parameter, which gives the reason of a refusal. The texts leave
-- out the names of the types that the source puts in.
pub preflight : List Scanner → Bool → (Asset → Option String) → Scan → Asset → Option String
preflight scanners verification_required validate scan asset =
    elim (find (λ (s : Scanner). same_scan_type s.type scan.type) scanners) [
      | none ↦ some "El tipo de escaneo no está disponible en esta instancia"
      | some s ↦
          if not (scanner_applies s asset.type)
          then some "El escaneo no aplica a activos de este tipo"
          else if not asset.is_active || not asset.authorization_confirmed
          then some "El activo está inactivo o no tiene autorización confirmada"
          else if verification_required && not (is_some asset.verified_at)
          then some "La propiedad del activo no está verificada"
          else validate asset
    ]
