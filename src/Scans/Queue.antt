-- ===== src/Scans/Queue.antt =====
-- Requests for scans (backend/src/scans/scans.service.ts, `enqueue`, `cancel`) and the worker's side
-- of the queue (backend/src/scans/scan-worker.service.ts, `claimNext`, `failStaleScans`).
-- The advisory lock makes the checks and the insertion of `enqueue` one step. `cancel` reads the
-- table and writes it later, so it takes the table at both times.
pub mod Admission
use sistema_de_gestion_de_po.Common.{
  ℕ, suc, ◌+◌, ◌-◌, ◌*◌, ◌/◌, ◌≡◌, refl, ◌⊎◌, inl, inr, Bool, true, false, not, ◌&&◌, ◌||◌, Option,
  none, some, String, List, [], ◌∷◌, map, if◌then◌else◌, ◌==◌, leb, ltb, find, any, count_if,
  or_else, is_some,
}
use sistema_de_gestion_de_po.Common.Keyed.{update}
use sistema_de_gestion_de_po.Domain.{
  AssetType, ScanType, ScanStatus, ScanSource, same_scan_type, same_scan_status,
}
use sistema_de_gestion_de_po.Scans.{
  Asset, Scan, Table, Scanner, scan_id, scanner_applies, in_progress, update_where, with_status,
}

pub data QueueError : Type 0 where
  type_unavailable type_not_applicable asset_inactive not_authorized not_verified : QueueError
  asset_not_found scan_not_found changed_meanwhile : QueueError
  already_in_progress : (status : ScanStatus) (id : ℕ) → QueueError
  hourly_limit : ℕ → QueueError
  cannot_cancel : ScanStatus → QueueError

pub data Result {ℓ} (A : Type ℓ) : Type ℓ where
  ok : A → Result A
  err : QueueError → Result A

pub Result-cases {ℓ} :
    {A : Type ℓ} (r : Result A) → ((e : QueueError) × (r ≡ err e)) ⊎ ((a : A) × (r ≡ ok a))
Result-cases (ok a) = inr (a, refl)
Result-cases (err e) = inl (e, refl)

-- A check of a request: the first that fails gives the error.
infixl 5 ◌>>◌
abbrev pub ◌>>◌ {ℓ} : {A : Type ℓ} → Result (Unit {0}) → Result A → Result A
ok u >> k = k
err e >> k = err e

abbrev pub require : Bool → QueueError → Result (Unit {0})
require true e = ok tt
require false e = err e

pub record Settings : Type 0 where
  pub scanners : List Scanner
  pub verification_required : Bool
  pub max_per_hour : Option ℕ
  pub max_per_org : Option ℕ
  pub timeout_seconds : Option ℕ

abbrev pub hour_ms : ℕ
hour_ms = 60 * 60 * 1000

abbrev pub hourly_maximum : Settings → ℕ
hourly_maximum c = or_else c.max_per_hour 30

abbrev pub org_maximum : Settings → ℕ
org_maximum c = or_else c.max_per_org 1

pub record EnqueueInput : Type 0 where
  pub organization : ℕ
  pub asset : ℕ
  pub type : ScanType
  pub requested_by : Option ℕ
  pub source : ScanSource
  pub batch : Option ℕ
  pub stage : Option ℕ

-- `supportedTypes` and `typesFor`, asked for one type.
abbrev pub supports : List Scanner → ScanType → Bool
supports ss t = any (λ s. same_scan_type s.type t) ss

abbrev pub applies : List Scanner → AssetType → ScanType → Bool
applies ss a t = any (λ s. scanner_applies s a && same_scan_type s.type t) ss

-- A scan of the asset and type that waits or runs.
abbrev pub occupies : ℕ → ScanType → Scan → Bool
occupies asset type r = r.asset == asset && same_scan_type r.type type && in_progress r.status

abbrev pub is_manual : ScanSource → Bool
is_manual ScanSource.manual = true
is_manual ScanSource.scheduled = false

-- `createdAt >= now - 1 hour`.
abbrev pub is_recent_manual : ℕ → ℕ → Scan → Bool
is_recent_manual organization now r =
    r.organization == organization && is_manual r.source && leb now (r.created_at + hour_ms)

no_other : ℕ → ScanType → List Scan → Result (Unit {0})
no_other asset type rows = elim (find (occupies asset type) rows) [
  | none ↦ ok tt
  | some r ↦ err (already_in_progress r.status r.id)
]

abbrev pub new_scan : EnqueueInput → ℕ → ℕ → Scan
new_scan input id now = record {
  id = id;
  organization = input.organization;
  asset = input.asset;
  type = input.type;
  status = ScanStatus.pending;
  source = input.source;
  requested_by = input.requested_by;
  batch = input.batch;
  stage = input.stage;
  target_address = none;
  started_at = none;
  finished_at = none;
  created_at = now;
  error_message = none;
  retry_count = 0;
}

module _ (c : Settings) where
  -- The checks on the asset that was found, in their order.
  admit : EnqueueInput → Asset → List Scan → ℕ → Result (Unit {0})
  unfolding no_other
  admit input a rows now =
      require (applies c.scanners a.type input.type) type_not_applicable
      >> require a.is_active asset_inactive
      >> require a.authorization_confirmed not_authorized
      >> require (not (c.verification_required && not (is_some a.verified_at))) not_verified
      >> no_other input.asset input.type rows
      >> require
          (not (is_manual input.source)
            || ltb (count_if (is_recent_manual input.organization now) rows) (hourly_maximum c))
          (hourly_limit (hourly_maximum c))

  unfoldable pub enqueue : EnqueueInput → List Asset → Table → ℕ → Result Table
  unfolding admit
  enqueue input assets t now =
      require (supports c.scanners input.type) type_unavailable
      >> elim (find (λ (a : Asset). a.id == input.asset && a.organization == input.organization)
          assets) [
            | none ↦ err asset_not_found
            | some a ↦
                admit input a t.rows now
                >> ok (record {
                  rows = new_scan input t.next_id now ∷ t.rows;
                  next_id = suc t.next_id;
                })
          ]

-- `cancel`: the status is read from one table and the guarded update is made on a later one. The
-- second part of the result says whether a running scan is to be aborted.
unfoldable pub cancel : (organization id now : ℕ) (seen current : Table) → Result (Table × Bool)
cancel organization id now seen current =
    elim (find (λ (r : Scan). r.id == id && r.organization == organization) seen.rows) [
      | none ↦ err scan_not_found
      | some r ↦
          require (in_progress r.status) (cannot_cancel r.status)
          >> require (not (count_if (with_status id r.status) current.rows == 0)) changed_meanwhile
          >> ok (
            record current {
              rows =
                  update_where (with_status id r.status)
                    (λ s. record s { status = ScanStatus.cancelled; finished_at = some now })
                    current.rows;
            },
            same_scan_status r.status ScanStatus.running,
          )
    ]

-- The order of the pipeline.
abbrev pub type_priority : ScanType → ℕ
type_priority ScanType.port_scan = 1
type_priority ScanType.subdomain_discovery = 2
type_priority ScanType.email_security = 3
type_priority ScanType.ssl_cert = 4
type_priority ScanType.web_headers = 5
type_priority ScanType.sensitive_paths = 6

-- `ORDER BY date_trunc('minute', created_at), CASE type …, created_at`, tested: r comes before s.
abbrev pub comes_before : Scan → Scan → Bool
comes_before r s =
    if (r.created_at / 60000) == (s.created_at / 60000)
    then if type_priority r.type == type_priority s.type
      then ltb r.created_at s.created_at
      else ltb (type_priority r.type) (type_priority s.type)
    else ltb (r.created_at / 60000) (s.created_at / 60000)

abbrev pub running_in : ℕ → Scan → Bool
running_in organization r =
    r.organization == organization && same_scan_status r.status ScanStatus.running

-- A waiting scan of an organization below its limit.
abbrev pub is_eligible : ℕ → List Scan → Scan → Bool
is_eligible maximum rows r =
    same_scan_status r.status ScanStatus.pending
    && ltb (count_if (running_in r.organization) rows) maximum

-- The first of the eligible scans in the order; the earlier one of equals is the one met first.
abbrev pub better : Scan → Option Scan → Option Scan
better r none = some r
better r (some s) = if comes_before s r then some s else some r

unfoldable pub next_scan : ℕ → List Scan → List Scan → Option Scan
next_scan maximum all_rows [] = none
next_scan maximum all_rows (r ∷ rs) =
    let rest = next_scan maximum all_rows rs in
    if is_eligible maximum all_rows r then better r rest else rest

abbrev pub start_row : ℕ → Scan → Scan
start_row now r = record r { status = ScanStatus.running; started_at = some now }

unfoldable pub claim_next : ℕ → ℕ → Table → Table × Option ℕ
claim_next maximum now t = elim (next_scan maximum t.rows t.rows) [
  | none ↦ (t, none)
  | some r ↦ (record t { rows = update scan_id r.id (start_row now) t.rows }, some r.id)
]

-- A running scan that started before the limit; one without a start is not older than anything.
abbrev pub is_orphan : ℕ → Scan → Bool
is_orphan limit r =
    same_scan_status r.status ScanStatus.running
    && elim r.started_at [ none ↦ false | some s ↦ ltb s limit ]

abbrev pub stale_margin_seconds : ℕ
stale_margin_seconds = 120

abbrev pub stale_limit : Settings → ℕ → ℕ
stale_limit c now = now - (or_else c.timeout_seconds 600 + stale_margin_seconds) * 1000

unfoldable pub fail_stale_scans : Settings → ℕ → Table → Table
fail_stale_scans c now t = record t {
  rows =
      update_where (is_orphan (stale_limit c now))
        (λ r. record r {
          status = ScanStatus.failed;
          finished_at = some now;
          error_message =
              some "Escaneo interrumpido: el proceso que lo ejecutaba dejó de responder";
        })
        t.rows;
}
