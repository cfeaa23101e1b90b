-- ===== src/Diagnostics/Progress.antt =====
-- The view of a diagnostic (backend/src/scans/diagnostic-orchestrator.service.ts, `getBatch`,
-- `getLatestBatchForAsset`): its percentage and the progress of each stage.
use sistema_de_gestion_de_po.Common.{
  ℕ, ◌+◌, ◌*◌, min, ◌≤◌, ◌≡◌, ◌↔◌, ◌⊎◌, Bool, ◌&&◌, ◌||◌, Option, none, some, List, [], ◌∷◌, map,
  keep, find, length, count_if, ◌==◌, ltb, if◌then◌else◌, round_div, arith,
}
use sistema_de_gestion_de_po.Domain.{AssetType, ScanStatus, same_scan_status}
use sistema_de_gestion_de_po.Scans.{Scan}
use sistema_de_gestion_de_po.Diagnostics.{
  BatchStatus, StageDefinition, stages_for_profile, same_batch_status,
}
use sistema_de_gestion_de_po.Diagnostics.Summary.{Data}
use sistema_de_gestion_de_po.Diagnostics.Pipeline
use sistema_de_gestion_de_po.Diagnostics.Pipeline.{
  Batch, State, Answer, failed, crashed, done, batch_not_found, of_batch, in_stage,
  advance_pipeline,
}

pub data StageStatus : Type 0 where
  pending in_progress completed : StageStatus

pub record StageProgress : Type 0 where
  pub definition : StageDefinition
  pub status : StageStatus
  pub scans_count : ℕ
  pub completed_scans : ℕ
  pub failed_scans : ℕ
  pub scans : List Scan

pub record View : Type 0 where
  pub batch : Batch
  pub progress_percentage : ℕ
  pub stages : List StageProgress

abbrev pub expected_scans : List StageDefinition → ℕ
expected_scans [] = 0
expected_scans (s ∷ ss) = length s.types + expected_scans ss

abbrev pub has_finished : Scan → Bool
has_finished r =
    same_scan_status r.status ScanStatus.completed || same_scan_status r.status ScanStatus.failed

-- `expected` scans in all the stages, of which `finished` are completed or failed.
unfoldable pub progress_percentage : BatchStatus → ℕ → ℕ → ℕ
progress_percentage status expected finished =
    if same_batch_status status BatchStatus.completed
    then 100
    else if ltb 0 expected
    then min 95 (round_div (finished * 100) expected)
    else 0

abbrev pub stage_status : Batch → ℕ → StageStatus
stage_status b stage =
    if ltb stage b.current_stage || same_batch_status b.status BatchStatus.completed
    then completed
    else if b.current_stage == stage
    then in_progress
    else pending

unfoldable pub stage_progress : Batch → List Scan → StageDefinition → StageProgress
stage_progress b scans d =
    let own = keep (in_stage d.stage) scans in
    record {
      definition = d;
      status = stage_status b d.stage;
      scans_count = if length own == 0 then length d.types else length own;
      completed_scans = count_if (λ (r : Scan). same_scan_status r.status ScanStatus.completed) own;
      failed_scans = count_if (λ (r : Scan). same_scan_status r.status ScanStatus.failed) own;
      scans = own;
    }

unfoldable pub view : (ℕ → AssetType) → State → Batch → View
unfolding progress_percentage stage_progress
view type_of s b =
    let stages = stages_for_profile b.profile (type_of b.asset) in
    let scans = keep (of_batch b.id) s.scans.rows in
    record {
      batch = b;
      progress_percentage =
          progress_percentage b.status (expected_scans stages) (count_if has_finished scans);
      stages = map (stage_progress b scans) stages;
    }

module _ (env : Pipeline.Env) (d : Data) (type_of : ℕ → AssetType) where
  -- The pipeline is advanced before the organization is looked at.
  unfoldable pub get_batch : State → (organization id now : ℕ) → Answer View × State
  get_batch s organization id now =
      let s' = advance_pipeline env d type_of s id now in
      elim (find (λ (b : Batch). b.id == id && b.organization == organization) s'.batches) [
        | none ↦ (failed batch_not_found, s')
        | some b ↦ (done (view type_of s' b), s')
      ]

-- The latest of the batches that meet a test: the first of equals, in the order of the list.
abbrev pub created_later : Batch → Option Batch → Option Batch
created_later b none = some b
created_later b (some c) = if ltb b.created_at c.created_at then some c else some b

unfoldable pub latest_created : (Batch → Bool) → List Batch → Option Batch
latest_created p [] = none
latest_created p (b ∷ bs) =
    let rest = latest_created p bs in if p b then created_later b rest else rest

module _ (env : Pipeline.Env) (d : Data) (type_of : ℕ → AssetType) where
  -- `none` inside the answer is the `null` of an asset without diagnostics.
  unfoldable pub get_latest_batch_for_asset :
      State → (organization asset now : ℕ) → Answer (Option View) × State
  unfolding get_batch
  get_latest_batch_for_asset s organization asset now =
      elim (latest_created (λ b. b.asset == asset && b.organization == organization) s.batches) [
        | none ↦ (done none, s)
        | some b ↦
            let (answer, s') = get_batch env d type_of s organization b.id now in
            (elim answer [ failed e ↦ failed e | crashed ↦ crashed | done v ↦ done (some v) ], s')
      ]

-- The percentage is 100 exactly when the diagnostic is completed, and 95 at most otherwise, however
-- many scans have finished.
pub progress_percentage-bounds :
    (status : BatchStatus) (expected finished : ℕ)
    → ((progress_percentage status expected finished ≡ 100) ↔ (status ≡ BatchStatus.completed))
      × ((progress_percentage status expected finished ≡ 100)
          ⊎ (progress_percentage status expected finished ≤ 95))
unfolding progress_percentage
progress_percentage-bounds status expected finished = ground arith
