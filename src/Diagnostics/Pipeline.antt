-- ===== src/Diagnostics/Pipeline.antt =====
-- Running a diagnostic (backend/src/scans/diagnostic-orchestrator.service.ts, `start`,
-- `advancePipeline`, `completeBatch`, `cancelBatch`). Each is one step here: the code reads and
-- writes without a transaction. A scan that the queue refuses is left out, as in the code.
pub mod Order
pub mod QueueInvariant
pub mod StageScans
pub mod Cancellation
pub mod Rows
pub mod Operations
pub mod Invariant
use sistema_de_gestion_de_po.Common.{
  ℕ, zero, suc, ◌+◌, Bool, true, false, not, ◌&&◌, ◌||◌, Option, none, some, String, List, [], ◌∷◌,
  map, keep, any, find, length, count_if, ◌==◌, leb, ltb, if◌then◌else◌, is_some,
}
use sistema_de_gestion_de_po.Common.Keyed.{row, update}
use sistema_de_gestion_de_po.Domain.{AssetType, ScanType, ScanStatus, ScanSource, same_scan_status}
use sistema_de_gestion_de_po.Scans.{Asset, Scan, Table, in_progress}
use sistema_de_gestion_de_po.Scans.Queue.{Settings, EnqueueInput, Result, ok, err, enqueue, cancel}
use sistema_de_gestion_de_po.Diagnostics.{
  BatchStatus, Profile, StageDefinition, stages_for_profile, same_batch_status,
}
use sistema_de_gestion_de_po.Diagnostics.Summary.{Data, Summary, summary}

pub record Batch : Type 0 where
  pub id : ℕ
  pub organization : ℕ
  pub asset : ℕ
  pub requested_by : Option ℕ
  pub profile : Profile
  pub status : BatchStatus
  pub current_stage : ℕ
  pub total_stages : ℕ
  pub summary : Option Summary
  pub started_at : Option ℕ
  pub finished_at : Option ℕ
  pub created_at : ℕ

-- The queue, the batches with the newest first, and the next identifier of a batch.
pub record State : Type 0 where
  pub scans : Table
  pub batches : List Batch
  pub next_id : ℕ

pub record Env : Type 0 where
  pub settings : Settings
  pub assets : List Asset

pub data Failure : Type 0 where
  asset_not_found asset_inactive not_authorized no_stages batch_not_found nothing_to_compare :
      Failure
  already_active : (batch : ℕ) → Failure

pub data Answer {ℓ} (A : Type ℓ) : Type ℓ where
  failed : Failure → Answer A
  -- a member of `undefined` was read
  crashed : Answer A
  done : A → Answer A

abbrev pub batch_id : Batch → ℕ
batch_id b = b.id

abbrev pub of_batch : ℕ → Scan → Bool
of_batch id s = elim s.batch [ none ↦ false | some j ↦ j == id ]

abbrev pub in_stage : ℕ → Scan → Bool
in_stage n s = elim s.stage [ none ↦ false | some m ↦ m == n ]

-- PENDING or IN_PROGRESS.
abbrev pub is_unfinished : BatchStatus → Bool
is_unfinished BatchStatus.pending = true
is_unfinished BatchStatus.in_progress = true
is_unfinished _ = false

abbrev pub occupies_asset : ℕ → ℕ → Batch → Bool
occupies_asset organization asset b =
    b.asset == asset && b.organization == organization && is_unfinished b.status

abbrev pub nth_stage : ℕ → List StageDefinition → Option StageDefinition
nth_stage n [] = none
nth_stage zero (s ∷ ss) = some s
nth_stage (suc n) (s ∷ ss) = nth_stage n ss

abbrev pub stage_input : Batch → ℕ → ScanType → EnqueueInput
stage_input b stage type = record {
  organization = b.organization;
  asset = b.asset;
  type = type;
  requested_by = b.requested_by;
  source = ScanSource.manual;
  batch = some b.id;
  stage = some stage;
}

abbrev pub new_batch : State → Asset → ℕ → Profile → List StageDefinition → ℕ → Batch
new_batch s a requested_by profile stages now = record {
  id = s.next_id;
  organization = a.organization;
  asset = a.id;
  requested_by = some requested_by;
  profile = profile;
  status = BatchStatus.in_progress;
  current_stage = 1;
  total_stages = length stages;
  summary = none;
  started_at = some now;
  finished_at = none;
  created_at = now;
}

-- FAILED when there were scans and none of them completed.
abbrev pub final_status : List Scan → BatchStatus
final_status scans =
    if ltb 0 (length scans)
      && (count_if (λ (r : Scan). same_scan_status r.status ScanStatus.completed) scans == 0)
    then BatchStatus.failed
    else BatchStatus.completed

unfoldable pub complete_batch : Data → State → ℕ → ℕ → State
complete_batch d s id now =
    let scans = keep (of_batch id) s.scans.rows in
    record s {
      batches =
          update batch_id id
            (λ (b : Batch). record b {
              status = final_status scans;
              finished_at = some now;
              summary = some (summary d b.asset scans);
            })
            s.batches;
    }

abbrev pub waits_in_stage : Batch → Scan → Bool
waits_in_stage b r = of_batch b.id r && in_stage b.current_stage r && in_progress r.status

module _ (env : Env) where
  unfoldable pub enqueue_one : Batch → ℕ → ScanType → Table → ℕ → Table
  enqueue_one b stage type t now =
      elim (enqueue env.settings (stage_input b stage type) env.assets t now) [
        | ok t' ↦ t'
        | err e ↦ t
      ]

  -- The scans of a stage, one request after another.
  unfoldable pub enqueue_stage : Batch → ℕ → List ScanType → Table → ℕ → Table
  enqueue_stage b stage [] t now = t
  enqueue_stage b stage (type ∷ types) t now =
      enqueue_stage b stage types (enqueue_one b stage type t now) now

  unfoldable pub start_asset : State → Asset → ℕ → Profile → ℕ → Answer ℕ × State
  start_asset s a requested_by profile now =
      if not a.is_active
      then (failed asset_inactive, s)
      else if not a.authorization_confirmed
      then (failed not_authorized, s)
      else elim (find (occupies_asset a.organization a.id) s.batches) [
        | some b ↦ (failed (already_active b.id), s)
        | none ↦ elim (stages_for_profile profile a.type) [
          | [] ↦ (failed no_stages, s)
          | first ∷ others ↦
              let b = new_batch s a requested_by profile (first ∷ others) now in
              (
                done b.id,
                record {
                  scans = enqueue_stage b 1 first.types s.scans now;
                  batches = b ∷ s.batches;
                  next_id = suc s.next_id;
                },
              )
        ]
      ]

  -- `start`, up to the `getBatch` that it ends with.
  unfoldable pub start : State → (organization actor asset : ℕ) → Profile → ℕ → Answer ℕ × State
  unfolding start_asset
  start s organization actor asset profile now =
      elim (find (λ (a : Asset). a.id == asset && a.organization == organization) env.assets) [
        | none ↦ (failed asset_not_found, s)
        | some a ↦ start_asset s a actor profile now
      ]

  unfoldable pub enter_stage : State → Batch → StageDefinition → ℕ → State
  enter_stage s b stage now = record s {
    scans = enqueue_stage b stage.stage stage.types s.scans now;
    batches =
        update batch_id b.id (λ (c : Batch). record c { current_stage = stage.stage }) s.batches;
  }

  -- What follows when no scan of the current stage waits or runs. `type` is that of the asset.
  unfoldable pub leave_stage : Data → State → Batch → AssetType → ℕ → State
  unfolding enter_stage
  leave_stage d s b type now =
      if ltb b.current_stage b.total_stages
      then elim (nth_stage b.current_stage (stages_for_profile b.profile type)) [
        | none ↦ complete_batch d s b.id now
        | some stage ↦ enter_stage s b stage now
      ]
      else complete_batch d s b.id now

  -- `type_of` is the type of the asset that a batch refers to.
  unfoldable pub advance_pipeline : Data → (ℕ → AssetType) → State → ℕ → ℕ → State
  unfolding leave_stage
  advance_pipeline d type_of s id now = elim (row batch_id id s.batches) [
    | none ↦ s
    | some b ↦
        if not (same_batch_status b.status BatchStatus.in_progress)
          || any (waits_in_stage b) s.scans.rows
        then s
        else leave_stage d s b (type_of b.asset) now
  ]

unfoldable pub cancel_one : ℕ → Scan → Table → ℕ → Table
cancel_one organization r t now =
    if in_progress r.status
    then elim (cancel organization r.id now t t) [ ok (t', abort) ↦ t' | err e ↦ t ]
    else t

-- Each scan in progress is cancelled in turn; one that cannot be is left as it is.
unfoldable pub cancel_scans : ℕ → List Scan → Table → ℕ → Table
cancel_scans organization [] t now = t
cancel_scans organization (r ∷ rs) t now =
    cancel_scans organization rs (cancel_one organization r t now) now

-- The status of the batch is not looked at.
unfoldable pub cancel_batch : State → (organization id now : ℕ) → Answer ℕ × State
unfolding cancel_scans
cancel_batch s organization id now =
    elim (find (λ (b : Batch). b.id == id && b.organization == organization) s.batches) [
      | none ↦ (failed batch_not_found, s)
      | some b ↦ (
        done b.id,
        record s {
          scans = cancel_scans organization (keep (of_batch b.id) s.scans.rows) s.scans now;
          batches =
              update batch_id b.id
                (λ (c : Batch). record c { status = BatchStatus.cancelled; finished_at = some now })
                s.batches;
        },
      )
    ]
