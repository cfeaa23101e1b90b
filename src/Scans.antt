-- ===== src/Scans.antt =====
-- Scans: the rows of the queue and the assets that they are about (backend/prisma/schema.prisma,
-- backend/src/scans). The queue is the table itself: a scan waits as PENDING. Times are
-- milliseconds. A row keeps the columns that the queue and the worker read or write; of the JSON
-- column `parameters` it keeps `retryCount`.
pub mod Queue
pub mod Worker
pub mod Steps
mod Tests
use sistema_de_gestion_de_po.Common.{
  ℕ, suc, ◌≡◌, Bool, true, false, ◌&&◌, ◌||◌, Option, none, some, String, List, [], ◌∷◌, map,
  if◌then◌else◌, ◌==◌,
}
use sistema_de_gestion_de_po.Domain.{
  AssetType, ScanType, ScanStatus, ScanSource, same_scan_type, same_scan_status, same_asset_type,
}

pub record Asset : Type 0 where
  pub id : ℕ
  pub organization : ℕ
  pub type : AssetType
  pub value : String
  pub is_active : Bool
  pub authorization_confirmed : Bool
  pub verified_at : Option ℕ

pub record Scan : Type 0 where
  pub id : ℕ
  pub organization : ℕ
  pub asset : ℕ
  pub type : ScanType
  pub status : ScanStatus
  pub source : ScanSource
  pub requested_by : Option ℕ
  pub batch : Option ℕ
  pub stage : Option ℕ
  pub target_address : Option String
  pub started_at : Option ℕ
  pub finished_at : Option ℕ
  pub created_at : ℕ
  pub error_message : Option String
  pub retry_count : ℕ

-- The table, newest scan first, and the next identifier.
pub record Table : Type 0 where
  pub rows : List Scan
  pub next_id : ℕ

abbrev pub scan_id : Scan → ℕ
scan_id s = s.id

-- What the worker knows of a registered scanner.
pub record Scanner : Type 0 where
  pub type : ScanType
  pub asset_types : Option (List AssetType)
  pub passive : Bool

abbrev pub has_asset_type : List AssetType → AssetType → Bool
has_asset_type [] t = false
has_asset_type (u ∷ us) t = same_asset_type u t || has_asset_type us t

-- `scannerApplies`: without a list the scanner applies to every asset.
unfoldable pub scanner_applies : Scanner → AssetType → Bool
scanner_applies s t = elim s.asset_types [ none ↦ true | some ts ↦ has_asset_type ts t ]

-- PENDING or RUNNING.
abbrev pub in_progress : ScanStatus → Bool
in_progress ScanStatus.pending = true
in_progress ScanStatus.running = true
in_progress _ = false

-- `updateMany`: every row that meets the condition.
abbrev pub update_where : (Scan → Bool) → (Scan → Scan) → List Scan → List Scan
update_where p f rows = map (λ r. if p r then f r else r) rows

abbrev pub with_status : ℕ → ScanStatus → Scan → Bool
with_status id status r = r.id == id && same_scan_status r.status status
