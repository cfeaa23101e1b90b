-- ===== src/Diagnostics/Pipeline/Invariant.antt =====
-- What every history of the diagnostics keeps
-- (backend/src/scans/diagnostic-orchestrator.service.ts): requests, advances, cancellations and the
-- work of the queue in between, in any order.
use sistema_de_gestion_de_po.Common.{ℕ, ◌≡◌, refl, sym, subst, some}
use sistema_de_gestion_de_po.Common.Keyed.{row}
use sistema_de_gestion_de_po.Domain.{AssetType}
use sistema_de_gestion_de_po.Scans.{Table}
use sistema_de_gestion_de_po.Diagnostics.{Profile}
use sistema_de_gestion_de_po.Diagnostics.Summary.{Data}
use sistema_de_gestion_de_po.Diagnostics.Pipeline.{
  Batch, State, Env, batch_id, start, advance_pipeline, cancel_batch,
}
use sistema_de_gestion_de_po.Diagnostics.Pipeline.Rows.{
  IsValid, Evolves, Evolves-refl, Move, phase, Cause, last_stage, Good, same-Good, Evolves-trans,
}
use sistema_de_gestion_de_po.Diagnostics.Pipeline.Operations.{advance-Good, cancel-Good, start-Good}

module _ (env : Env) (d : Data) (type_of : ℕ → AssetType) where
  pub data Step (s s' : State) : Type 0 where
    started :
        (organization actor asset : ℕ) (profile : Profile) (now : ℕ)
        → s' ≡ (start env s organization actor asset profile now).1
        → Step s s'
    advanced : (id now : ℕ) → s' ≡ advance_pipeline env d type_of s id now → Step s s'
    cancelled : (organization id now : ℕ) → s' ≡ (cancel_batch s organization id now).1 → Step s s'
    -- the queue and the workers
    queue_moved : (t : Table) → s' ≡ record s { scans = t } → Step s s'

  pub data Reach (s : State) : State → Type 0 where
    here : Reach s s
    next : {t u : State} → Reach s t → Step t u → Reach s u

module _ (env : Env) (d : Data) (type_of : ℕ → AssetType) where
  abbrev cause_of : {s s' : State} → Step env d type_of s s' → Cause
  cause_of (Step.started organization actor asset profile now e) = Cause.elsewhere
  cause_of (Step.advanced id now e) = Cause.advance
  cause_of (Step.cancelled organization id now e) = Cause.cancellation
  cause_of (Step.queue_moved t e) = Cause.elsewhere

  step-Good :
      (s s' : State) (st : Step env d type_of s s') → IsValid s → Good type_of (cause_of st) s s'
  step-Good s s' (Step.started organization actor asset profile now e) v =
      subst (Good type_of Cause.elsewhere s) (sym e)
        (start-Good env d type_of s organization actor asset now profile v)
  step-Good s s' (Step.advanced id now e) v =
      subst (Good type_of Cause.advance s) (sym e) (advance-Good env d type_of s id now v)
  step-Good s s' (Step.cancelled organization id now e) v =
      subst (Good type_of Cause.cancellation s) (sym e)
        (cancel-Good env d type_of s organization id now v)
  step-Good s s' (Step.queue_moved t e) v =
      subst (Good type_of Cause.elsewhere s) (sym e)
        (same-Good type_of Cause.elsewhere s (record s { scans = t }) refl refl v)

  -- In every state that requests, advances, cancellations and the queue lead to from a valid one, in
  -- any order, an asset has at most one unfinished diagnostic, the current stage of each is one of
  -- its stages, and it has a date of its end exactly when it has ended.
  pub Reach-IsValid : {s s' : State} → Reach env d type_of s s' → IsValid s → IsValid s'
  Reach-IsValid here v = v
  Reach-IsValid (next {t = t} {u = u} r st) v = (step-Good t u st (Reach-IsValid r v)).valid

  -- In a valid state, every operation moves every diagnostic as the abstract machine of its phases
  -- allows: an advance leaves it, takes it from a stage to the next one, or finishes it from the
  -- last, which is that with which it was started or the last for the present type of its asset,
  -- whichever is earlier; a cancellation leaves or cancels it, an ended one too; a request and the
  -- queue leave it in its phase.
  pub step-Move :
      (s s' : State) (st : Step env d type_of s s')
      → IsValid s
      → (id : ℕ) (b : Batch) → row batch_id id s.batches ≡ some b
      → (b' : Batch) × (row batch_id id s'.batches ≡ some b')
        × Move (last_stage type_of b) (cause_of st) (phase b) (phase b')
  step-Move s s' st v id b found =
      let (b', after, moves) = (step-Good s s' st v).preserves id b found in (b', after, moves.move)

  -- From a valid state on, a diagnostic never goes back to an earlier stage, changes its asset or
  -- its number of stages, or disappears; once ended, it is only written to be cancelled.
  pub Reach-Evolves :
      {s s' : State}
      → Reach env d type_of s s'
      → IsValid s
      → (id : ℕ) (b : Batch) → row batch_id id s.batches ≡ some b
      → (b' : Batch) × (row batch_id id s'.batches ≡ some b') × Evolves b b'
  Reach-Evolves here v id b found = (b, found, Evolves-refl b)
  Reach-Evolves (next {t = t} {u = u} r st) v id b found =
      let (c, middle, first) = Reach-Evolves r v id b found in
      let (e, last, second) = (step-Good t u st (Reach-IsValid r v)).preserves id c middle in
      (e, last, Evolves-trans b c e first second.evolves)
