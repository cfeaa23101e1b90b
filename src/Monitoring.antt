-- ===== src/Monitoring.antt =====
-- The continuous monitoring (backend/src/monitoring/monitoring.scheduler.ts,
-- backend/src/monitoring/monitoring.service.ts) and the request for all the scans of an asset that it
-- makes (backend/src/scans/scans.service.ts, `enqueueAll`). Times are milliseconds.
pub mod Guarantees
mod Tests
use sistema_de_gestion_de_po.Common.{
  ℕ, suc, ◌+◌, ◌-◌, ◌*◌, Bool, true, false, not, ◌&&◌, ◌||◌, Option, none, some, List, [], ◌∷◌, map,
  keep, take, any, find, length, ◌==◌, leb, ltb, if◌then◌else◌, is_some,
}
use sistema_de_gestion_de_po.Common.Keyed.{update}
use sistema_de_gestion_de_po.Domain.{AssetType, ScanType, ScanSource}
use sistema_de_gestion_de_po.Scans.{Asset, Scan, Table, Scanner, scanner_applies}
use sistema_de_gestion_de_po.Scans.Queue.{
  Settings, EnqueueInput, QueueError, Result, ok, err, enqueue, hour_ms, asset_not_found,
  scan_not_found, type_unavailable, type_not_applicable, asset_inactive, not_authorized,
  not_verified, changed_meanwhile, already_in_progress, hourly_limit, cannot_cancel,
}

pub data Frequency : Type 0 where
  off daily weekly : Frequency

abbrev pub frequency_index : Frequency → ℕ
frequency_index off = 0
frequency_index daily = 1
frequency_index weekly = 2

abbrev pub same_frequency : Frequency → Frequency → Bool
same_frequency f g = frequency_index f == frequency_index g

-- `FREQUENCY_PERIOD_MS`; 0 for the frequency without a period.
abbrev pub period_ms : Frequency → ℕ
period_ms off = 0
period_ms daily = 24 * hour_ms
period_ms weekly = 7 * 24 * hour_ms

abbrev pub slack_ms : ℕ
slack_ms = 10 * 60 * 1000

unfoldable pub next_run_at : Option ℕ → Frequency → ℕ → Option ℕ
next_run_at last off now = none
next_run_at none daily now = some now
next_run_at none weekly now = some now
next_run_at (some t) daily now = some (t + period_ms daily - slack_ms)
next_run_at (some t) weekly now = some (t + period_ms weekly - slack_ms)

-- An asset with the columns of the monitoring and those of its organization.
pub record Monitored : Type 0 where
  pub asset : Asset
  pub organization_active : Bool
  pub frequency : Frequency
  pub last_scheduled_scan_at : Option ℕ
  pub created_at : ℕ

abbrev pub monitored_id : Monitored → ℕ
monitored_id m = m.asset.id

pub record State : Type 0 where
  pub rows : List Monitored
  pub scans : Table

module _ (c : Settings) where
  abbrev pub can_be_scanned : Asset → Bool
  can_be_scanned a =
      a.is_active
      && a.authorization_confirmed
      && (not c.verification_required || is_some a.verified_at)

  -- `dueWhere`: the last run is before now less the period, with the slack.
  unfoldable pub is_due : Frequency → ℕ → Monitored → Bool
  is_due f now m =
      can_be_scanned m.asset
      && m.organization_active
      && same_frequency m.frequency f
      && elim m.last_scheduled_scan_at [
        | none ↦ true
        | some t ↦ ltb (t + period_ms f) (now + slack_ms)
      ]

  -- What `status` says of an asset.
  unfoldable pub is_monitored : Monitored → Bool
  is_monitored m = not (same_frequency m.frequency off) && can_be_scanned m.asset

  unfoldable pub shown_as_due : ℕ → Monitored → Bool
  unfolding is_monitored
  shown_as_due now m =
      if is_monitored m
      then elim (next_run_at m.last_scheduled_scan_at m.frequency now) [
        | none ↦ false
        | some t ↦ leb t now
      ]
      else false

-- The errors that `enqueueAll` passes on; the others only leave their type out.
abbrev pub is_passed_on : QueueError → Bool
is_passed_on (already_in_progress status id) = false
is_passed_on (hourly_limit n) = false
is_passed_on _ = true

-- The scans that are queued stay queued when a later request fails.
pub record Enqueued : Type 0 where
  pub table : Table
  pub queued : ℕ
  pub skipped : List ScanType
  pub failed : Option QueueError

abbrev pub with_type : EnqueueInput → ScanType → EnqueueInput
with_type input type = record input { type = type }

abbrev pub types_for : List Scanner → AssetType → List ScanType
types_for [] a = []
types_for (s ∷ ss) a = if scanner_applies s a then s.type ∷ types_for ss a else types_for ss a

-- `orderBy`: the assets without a run first, then the earliest run, then the oldest asset.
abbrev pub comes_first : Monitored → Monitored → Bool
comes_first m n = elim m.last_scheduled_scan_at [
  | none ↦ elim n.last_scheduled_scan_at [ none ↦ leb m.created_at n.created_at | some u ↦ true ]
  | some t ↦ elim n.last_scheduled_scan_at [
    | none ↦ false
    | some u ↦ if t == u then leb m.created_at n.created_at else ltb t u
  ]
]

abbrev pub insert : Monitored → List Monitored → List Monitored
insert m [] = m ∷ []
insert m (n ∷ ns) = let rest = insert m ns in if comes_first m n then m ∷ n ∷ ns else n ∷ rest

abbrev pub sort : List Monitored → List Monitored
sort [] = []
sort (m ∷ ms) = insert m (sort ms)

pub record Counts : Type 0 where
  pub due : ℕ
  pub claimed : ℕ
  pub queued_scans : ℕ
  pub errors : ℕ

abbrev pub scheduled_input : Monitored → EnqueueInput
scheduled_input m = record {
  organization = m.asset.organization;
  asset = m.asset.id;
  type = ScanType.port_scan;
  requested_by = none;
  source = ScanSource.scheduled;
  batch = none;
  stage = none;
}

abbrev pub assets_of : State → List Asset
assets_of s = map (λ (m : Monitored). m.asset) s.rows

module _ (c : Settings) where
  -- The loop, after what it has done so far.
  unfoldable pub enqueue_types : EnqueueInput → List Asset → List ScanType → ℕ → Enqueued → Enqueued
  enqueue_types input assets [] now e = e
  enqueue_types input assets (type ∷ types) now e =
      elim (enqueue c (with_type input type) assets e.table now) [
        | ok t ↦
            enqueue_types input assets types now (record e { table = t; queued = suc e.queued })
        | err error ↦
            let skipped =
              enqueue_types input assets types now (record e { skipped = type ∷ e.skipped }) in
            if is_passed_on error then record e { failed = some error } else skipped
      ]

  -- The type of the input is not looked at.
  unfoldable pub enqueue_all : EnqueueInput → List Asset → Table → ℕ → Enqueued
  unfolding enqueue_types
  enqueue_all input assets t now =
      elim (find (λ (a : Asset). a.id == input.asset && a.organization == input.organization)
        assets) [
          | none ↦ record { table = t; queued = 0; skipped = []; failed = some asset_not_found }
          | some a ↦
              enqueue_types input assets (types_for c.scanners a.type) now
                (record { table = t; queued = 0; skipped = []; failed = none })
        ]

  unfoldable pub due_assets : Frequency → ℕ → ℕ → List Monitored → List Monitored
  due_assets f now count rows = take count (sort (keep (is_due c f now) rows))

  -- The conditional update on the row as it is then; false when it has no effect.
  unfoldable pub claim : Frequency → ℕ → ℕ → State → State × Bool
  claim f id now s =
      if any (λ m. monitored_id m == id && is_due c f now m) s.rows
      then (
        record s {
          rows =
              map
                (λ m.
                  if monitored_id m == id && is_due c f now m
                  then record m { last_scheduled_scan_at = some now }
                  else m)
                s.rows;
        },
        true,
      )
      else (s, false)

  -- One asset that was found due.
  unfoldable pub run_asset : Frequency → ℕ → Monitored → State × Counts → State × Counts
  unfolding claim enqueue_all
  run_asset f now m (s, n) =
      let (s', won) = claim f m.asset.id now s in
      let e = enqueue_all (scheduled_input m) (assets_of s') s'.scans now in
      if won
      then (
        record s' { scans = e.table },
        elim e.failed [
          | none ↦ record n { claimed = suc n.claimed; queued_scans = n.queued_scans + e.queued }
          | some error ↦ record n { claimed = suc n.claimed; errors = suc n.errors }
        ],
      )
      else (s, n)

  unfoldable pub run_assets : Frequency → ℕ → List Monitored → State × Counts → State × Counts
  unfolding run_asset
  run_assets f now [] r = r
  run_assets f now (m ∷ ms) r = run_assets f now ms (run_asset f now m r)

  -- The assets due of a frequency, at most so many; how many they were comes with the result.
  unfoldable pub run_frequency : Frequency → ℕ → ℕ → State × Counts → (State × Counts) × ℕ
  unfolding run_assets due_assets
  run_frequency f now remaining (s, n) =
      let due = due_assets f now remaining s.rows in
      (run_assets f now due (s, record n { due = n.due + length due }), length due)

  -- `runOnce`; the weekly assets only while the batch has room.
  unfoldable pub run_once : ℕ → ℕ → State → State × Counts
  unfolding run_frequency
  run_once batch_size now s =
      let none_yet : Counts = record { due = 0; claimed = 0; queued_scans = 0; errors = 0 } in
      if batch_size == 0
      then (s, none_yet)
      else (let (r, n) = run_frequency daily now batch_size (s, none_yet) in
          if batch_size - n == 0 then r else (run_frequency weekly now (batch_size - n) r).0)
