-- ===== src/Diagnostics/Pipeline/StageScans.antt =====
-- What a diagnostic asks of the queue when it enters a stage
-- (backend/src/scans/diagnostic-orchestrator.service.ts, `advancePipeline`, `enqueueStageScans`).
use sistema_de_gestion_de_po.Common.{
  ℕ, suc, ◌<◌, ◌≡◌, refl, ◌⊎◌, inl, inr, false, ◌&&◌, some, List, [], ◌∷◌, any, min, length, arith,
  Option-cases,
}
use sistema_de_gestion_de_po.Common.Keyed.{row}
use sistema_de_gestion_de_po.Domain.{AssetType, ScanType, ScanStatus, ScanSource}
use sistema_de_gestion_de_po.Scans.{Scan, Table, in_progress}
use sistema_de_gestion_de_po.Scans.Queue.{QueueError, Result-cases, err, enqueue, new_scan}
use sistema_de_gestion_de_po.Scans.Queue.Admission.{enqueue-Admitted}
use sistema_de_gestion_de_po.Diagnostics.{BatchStatus, StageDefinition, stages_for_profile}
use sistema_de_gestion_de_po.Diagnostics.Summary.{Data}
use sistema_de_gestion_de_po.Diagnostics.Pipeline.{
  Batch, State, Env, batch_id, of_batch, in_stage, nth_stage, stage_input, enqueue_one,
  enqueue_stage, enter_stage, leave_stage, advance_pipeline,
}
use sistema_de_gestion_de_po.Diagnostics.Pipeline.Order.{nth_stage-none, nth_stage-number}

-- A scan of a type that waits in a stage of a diagnostic.
pub record IsOfStage (b : Batch) (stage : ℕ) (type : ScanType) (now : ℕ) (r : Scan) : Type 0 where
  pub of_type : r.type ≡ type
  pub same_batch : r.batch ≡ some b.id
  pub same_stage : r.stage ≡ some stage
  pub same_asset : r.asset ≡ b.asset
  pub same_organization : r.organization ≡ b.organization
  pub same_user : r.requested_by ≡ b.requested_by
  pub by_hand : r.source ≡ ScanSource.manual
  pub waits : r.status ≡ ScanStatus.pending
  pub made_now : r.created_at ≡ now

module _ (env : Env) where
  -- For each type in turn, the queue either refuses the request and stays as it is, or gets one scan
  -- of that type and stage; nothing else happens to the table.
  abbrev pub Asks : Batch → ℕ → ℕ → List ScanType → Table → Table → Type 0
  Asks b stage now [] t t' = t' ≡ t
  Asks b stage now (type ∷ types) t t' =
      ((e : QueueError) × (enqueue env.settings (stage_input b stage type) env.assets t now ≡ err e)
        × Asks b stage now types t t')
      ⊎ ((r : Scan) × IsOfStage b stage type now r
          × (r.id ≡ t.next_id)
          × Asks b stage now types (record { rows = r ∷ t.rows; next_id = suc t.next_id }) t')

  enqueue_stage-Asks :
      (b : Batch) (stage : ℕ) (types : List ScanType) (t : Table) (now : ℕ)
      → Asks b stage now types t (enqueue_stage env b stage types t now)
  unfolding enqueue_stage enqueue_one
  enqueue_stage-Asks b stage [] t now = refl
  enqueue_stage-Asks b stage (type ∷ types) t now =
      elim (Result-cases (enqueue env.settings (stage_input b stage type) env.assets t now)) [
        | inl (e, h) ↦
            inl (e, h, rw (enqueue_stage, enqueue_one, h) (enqueue_stage-Asks b stage types t now))
        | inr (t', h) ↦
            let (a, admitted, same) =
              enqueue-Admitted env.settings (stage_input b stage type) env.assets t t' now h in
            inr (
              new_scan (stage_input b stage type) t.next_id now,
              record {
                of_type = refl;
                same_batch = refl;
                same_stage = refl;
                same_asset = refl;
                same_organization = refl;
                same_user = refl;
                by_hand = refl;
                waits = refl;
                made_now = refl;
              },
              refl,
              rw (enqueue_stage, enqueue_one, h, same)
                  (enqueue_stage-Asks b stage types
                    (record {
                      rows = new_scan (stage_input b stage type) t.next_id now ∷ t.rows;
                      next_id = suc t.next_id;
                    })
                    now),
            )
      ]

  module _ (d : Data) (type_of : ℕ → AssetType) where
    entered-scans :
        (s : State) (id now : ℕ) (b : Batch) (st : StageDefinition)
        → row batch_id id s.batches ≡ some b
        → b.status ≡ BatchStatus.in_progress
        → any
            (λ (r : Scan). of_batch b.id r && in_stage b.current_stage r && in_progress r.status)
            s.scans.rows
          ≡ false
        → b.current_stage < b.total_stages
        → nth_stage b.current_stage (stages_for_profile b.profile (type_of b.asset)) ≡ some st
        → (advance_pipeline env d type_of s id now).scans
          ≡ enqueue_stage env b st.stage st.types s.scans now
    unfolding advance_pipeline leave_stage enter_stage
    entered-scans s id now b st found is_on over more present =
        ground (arith, found, is_on, over, more, present)

    -- When no scan of the current stage of a diagnostic that runs waits or runs any more and there
    -- is a next stage, the queue gets, for each type of the next stage in turn, a waiting scan with
    -- the number of that stage, unless it refuses it; the table does not change otherwise.
    pub advance_pipeline-Asks :
        (s : State) (id now : ℕ) (b : Batch)
        → row batch_id id s.batches ≡ some b
        → b.status ≡ BatchStatus.in_progress
        → any
            (λ (r : Scan). of_batch b.id r && in_stage b.current_stage r && in_progress r.status)
            s.scans.rows
          ≡ false
        → b.current_stage
          < min b.total_stages (length (stages_for_profile b.profile (type_of b.asset)))
        → (st : StageDefinition) × (nth_stage b.current_stage
              (stages_for_profile b.profile (type_of b.asset))
            ≡ some st)
          × Asks b
              (suc b.current_stage)
              now
              st.types
              s.scans
              (advance_pipeline env d type_of s id now).scans
    advance_pipeline-Asks s id now b found is_on over more =
        elim (Option-cases
          (nth_stage b.current_stage (stages_for_profile b.profile (type_of b.asset)))) [
            | inl missing ↦ absurd (
                omega (
                  arith,
                  more,
                  nth_stage-none b.current_stage (stages_for_profile b.profile (type_of b.asset))
                      missing,
                ))
            | inr (st, present) ↦ (
              st,
              present,
              rw
                  (
                    entered-scans s id now b st found is_on over (omega (arith, more)) present,
                    nth_stage-number b.profile (type_of b.asset) b.current_stage st present,
                  )
                  (enqueue_stage-Asks b (suc b.current_stage) st.types s.scans now),
            )
          ]
