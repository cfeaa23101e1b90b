-- ===== src/Diagnostics/Pipeline/QueueInvariant.antt =====
-- The diagnostics keep the invariant of the queue that they fill and empty
-- (backend/src/scans/diagnostic-orchestrator.service.ts over scans/scans.service.ts).
use sistema_de_gestion_de_po.Common.{
  ℕ, ◌≡◌, ◌⊎◌, inl, inr, not, ◌&&◌, ◌||◌, List, [], ◌∷◌, any, keep, find, is_some, ◌==◌, ltb, arith,
  Bool-cases, Option-cases,
}
use sistema_de_gestion_de_po.Common.Keyed.{row}
use sistema_de_gestion_de_po.Domain.{AssetType, ScanType}
use sistema_de_gestion_de_po.Scans.{Asset, Scan, Table, in_progress}
use sistema_de_gestion_de_po.Scans.Queue.{Result-cases, enqueue, cancel, org_maximum}
use sistema_de_gestion_de_po.Scans.Steps.Operations.{Inv, enqueue-Good, cancel-Good}
use sistema_de_gestion_de_po.Diagnostics.{
  BatchStatus, same_batch_status, Profile, stages_for_profile,
}
use sistema_de_gestion_de_po.Diagnostics.Summary.{Data}
use sistema_de_gestion_de_po.Diagnostics.Pipeline.Order.{stages_cases}
use sistema_de_gestion_de_po.Diagnostics.Pipeline.{
  Batch, State, Env, batch_id, of_batch, waits_in_stage, cancel_one, cancel_scans, cancel_batch,
  stage_input, new_batch, occupies_asset, enqueue_one, enqueue_stage, start, start_asset,
  advance_pipeline, leave_stage, enter_stage, complete_batch, nth_stage,
}

module _ (env : Env) where
  start_asset-scans :
      (s : State) (a : Asset) (actor : ℕ) (profile : Profile) (now : ℕ)
      → ((start_asset env s a actor profile now).1.scans ≡ s.scans)
        ⊎ ((b : Batch) × (types : List ScanType) × ((start_asset env s a actor profile now).1.scans
              ≡ enqueue_stage env b 1 types s.scans now))
  unfolding start_asset
  start_asset-scans s a actor profile now =
      elim (stages_cases (stages_for_profile profile a.type)) [
        | inl empty ↦ inl (ground (arith, empty))
        | inr (first, others, stages) ↦
            elim (Bool-cases (
              a.is_active
              && a.authorization_confirmed
              && not (is_some (find (occupies_asset a.organization a.id) s.batches)))) [
                | inl fits ↦ inr (
                  new_batch s a actor profile (first ∷ others) now,
                  first.types,
                  ground (arith, stages, fits),
                )
                | inr refused ↦ inl (ground (arith, stages, refused))
              ]
      ]

  abbrev QueueInv : Table → Type 0
  QueueInv t = Inv (org_maximum env.settings) t

  enqueue_one-Inv :
      (b : Batch) (stage : ℕ) (type : ScanType) (t : Table) (now : ℕ)
      → QueueInv t
      → QueueInv (enqueue_one env b stage type t now)
  unfolding enqueue_one
  enqueue_one-Inv b stage type t now v =
      elim (Result-cases (enqueue env.settings (stage_input b stage type) env.assets t now)) [
        | inl (e, h) ↦ rw (enqueue_one, h) v
        | inr (t', h) ↦
            rw (enqueue_one, h)
              (enqueue-Good env.settings (stage_input b stage type) env.assets t t' now h v).inv
      ]

  enqueue_stage-Inv :
      (b : Batch) (stage : ℕ) (types : List ScanType) (t : Table) (now : ℕ)
      → QueueInv t
      → QueueInv (enqueue_stage env b stage types t now)
  unfolding enqueue_stage
  enqueue_stage-Inv b stage [] t now v = v
  enqueue_stage-Inv b stage (type ∷ types) t now v =
      enqueue_stage-Inv b stage types (enqueue_one env b stage type t now) now
        (enqueue_one-Inv b stage type t now v)

  cancel_one-Inv :
      (organization : ℕ) (r : Scan) (t : Table) (now : ℕ)
      → QueueInv t
      → QueueInv (cancel_one organization r t now)
  unfolding cancel_one
  cancel_one-Inv organization r t now v = elim (Bool-cases (in_progress r.status)) [
    | inr over ↦ rw (cancel_one, over) v
    | inl waits ↦ elim (Result-cases (cancel organization r.id now t t)) [
      | inl (e, h) ↦ rw (cancel_one, waits, h) v
      | inr ((t', abort), h) ↦
          rw (cancel_one, waits, h)
            (cancel-Good (org_maximum env.settings) organization r.id now t t t' abort h v).inv
    ]
  ]

  cancel_scans-Inv :
      (organization : ℕ) (rs : List Scan) (t : Table) (now : ℕ)
      → QueueInv t
      → QueueInv (cancel_scans organization rs t now)
  unfolding cancel_scans
  cancel_scans-Inv organization [] t now v = v
  cancel_scans-Inv organization (r ∷ rs) t now v =
      cancel_scans-Inv organization rs (cancel_one organization r t now) now
        (cancel_one-Inv organization r t now v)

  cancel_batch-Inv :
      (s : State) (organization id now : ℕ)
      → QueueInv s.scans
      → QueueInv (cancel_batch s organization id now).1.scans
  unfolding cancel_batch
  cancel_batch-Inv s organization id now v =
      elim (Option-cases
        (find (λ (b : Batch). b.id == id && b.organization == organization) s.batches)) [
          | inl e ↦ rw (cancel_batch, e) v
          | inr (b, e) ↦
              rw (cancel_batch, e)
                (cancel_scans-Inv organization (keep (of_batch b.id) s.scans.rows) s.scans now v)
        ]

  leave_stage-Inv :
      (d : Data) (s : State) (b : Batch) (type : AssetType) (now : ℕ)
      → QueueInv s.scans
      → QueueInv (leave_stage env d s b type now).scans
  unfolding leave_stage enter_stage complete_batch
  leave_stage-Inv d s b type now v = elim (Bool-cases (ltb b.current_stage b.total_stages)) [
    | inr last ↦ rw (leave_stage, last) v
    | inl more ↦
        elim (Option-cases (nth_stage b.current_stage (stages_for_profile b.profile type))) [
          | inl missing ↦ rw (leave_stage, more, missing) v
          | inr (st, present) ↦
              rw (leave_stage, more, present) (enqueue_stage-Inv b st.stage st.types s.scans now v)
        ]
  ]

  advance_pipeline-Inv :
      (d : Data) (type_of : ℕ → AssetType) (s : State) (id now : ℕ)
      → QueueInv s.scans
      → QueueInv (advance_pipeline env d type_of s id now).scans
  unfolding advance_pipeline
  advance_pipeline-Inv d type_of s id now v = elim (Option-cases (row batch_id id s.batches)) [
    | inl e ↦ rw (advance_pipeline, e) v
    | inr (b, e) ↦
        elim (Bool-cases (
          not (same_batch_status b.status BatchStatus.in_progress)
          || any (waits_in_stage b) s.scans.rows)) [
            | inl stays ↦ rw (advance_pipeline, e, stays) v
            | inr over ↦
                rw (advance_pipeline, e, over) (leave_stage-Inv d s b (type_of b.asset) now v)
          ]
  ]

  start_asset-Inv :
      (s : State) (a : Asset) (actor : ℕ) (profile : Profile) (now : ℕ)
      → QueueInv s.scans
      → QueueInv (start_asset env s a actor profile now).1.scans
  start_asset-Inv s a actor profile now v = elim (start_asset-scans s a actor profile now) [
    | inl same ↦ rw same v
    | inr (b, types, same) ↦ rw same (enqueue_stage-Inv b 1 types s.scans now v)
  ]

  start-Inv :
      (s : State) (organization actor asset : ℕ) (profile : Profile) (now : ℕ)
      → QueueInv s.scans
      → QueueInv (start env s organization actor asset profile now).1.scans
  unfolding start
  start-Inv s organization actor asset profile now v =
      elim (Option-cases
        (find (λ (a : Asset). a.id == asset && a.organization == organization) env.assets)) [
          | inl e ↦ rw (start, e) v
          | inr (a, e) ↦ rw (start, e) (start_asset-Inv s a actor profile now v)
        ]

  -- Starting, advancing and cancelling a diagnostic keep the invariant of the queue: distinct
  -- identifiers, one scan of a type in progress for an asset, and the limit of an organization.
  pub diagnostics-Inv :
      (d : Data) (type_of : ℕ → AssetType) (s : State) (organization actor id : ℕ)
      (profile : Profile) (now : ℕ)
      → Inv (org_maximum env.settings) s.scans
      → Inv (org_maximum env.settings) (start env s organization actor id profile now).1.scans
        × Inv (org_maximum env.settings) (advance_pipeline env d type_of s id now).scans
        × Inv (org_maximum env.settings) (cancel_batch s organization id now).1.scans
  diagnostics-Inv d type_of s organization actor id profile now v = (
    start-Inv s organization actor id profile now v,
    advance_pipeline-Inv d type_of s id now v,
    cancel_batch-Inv s organization id now v,
  )
