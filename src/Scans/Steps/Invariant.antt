-- ===== src/Scans/Steps/Invariant.antt =====
-- What every history of the queue keeps: distinct identifiers, one scan in progress for an asset and
-- type, and the limit of running scans of an organization.
use sistema_de_gestion_de_po.Common.{ℕ, ◌≡◌, refl, false, some, [], arith}
use sistema_de_gestion_de_po.Common.Keyed.{row}
use sistema_de_gestion_de_po.Scans.{Scan, scan_id, in_progress}
use sistema_de_gestion_de_po.Scans.Queue.{
  EnqueueInput, Result, ok, err, enqueue, new_scan, cancel, claim_next, next_scan, is_eligible,
  start_row, fail_stale_scans, is_orphan, stale_limit, org_maximum, occupies, running_in,
}
use sistema_de_gestion_de_po.Scans.Queue
use sistema_de_gestion_de_po.Scans.Worker.{
  Worker, TextOps, ScanError, AbortReason, Run, returned, threw, handle_interrupted, handle_error,
  complete, finish_run, is_transient, max_retries, error_text, requeue_row, fail_row, fail_orphans,
  set_target, cancelled, timeout, shutdown,
}
use sistema_de_gestion_de_po.Scans.Worker
use sistema_de_gestion_de_po.Scans.Steps.{Step, Reach, here, next}
use sistema_de_gestion_de_po.Scans.Steps.Moves.{Evolves}
use sistema_de_gestion_de_po.Scans.Steps.Operations.{
  Inv, Good, enqueue-Good, cancel-Good, stale-Good, target-Good, claim-Good, ended-Good,
}

module _ (q : Queue.Settings) (ops : TextOps) (c : Worker.Settings) where
  step-Good :
      (w w' : Worker)
      → Step q ops c w w'
      → Inv (org_maximum q) w.scans
      → Good (org_maximum q) w.scans w'.scans
  unfolding fail_orphans
  step-Good w w' (Step.requested input assets now t h e) v =
      rw e (enqueue-Good q input assets w.scans t now h v)
  step-Good w w' (Step.cancelled organization id now seen t abort h e) v =
      rw e (cancel-Good (org_maximum q) organization id now seen w.scans t abort h v)
  step-Good w w' (Step.claimed now e) v = rw e (claim-Good (org_maximum q) now w.scans v)
  step-Good w w' (Step.orphans_failed now e) v = rw e (stale-Good (org_maximum q) q now w.scans v)
  step-Good w w' (Step.targeted id address e) v = rw e (target-Good (org_maximum q) id address w v)
  step-Good w w' (Step.ended scan reason run message now e) v =
      rw e (ended-Good (org_maximum q) ops c scan reason run message now w v)

  -- Whatever the API and the workers do, in any order, a table keeps the invariant of the queue:
  -- identifiers are distinct, an asset has at most one scan of a type in progress, and no
  -- organization runs more scans than its limit.
  pub Reach-Inv :
      {w w' : Worker}
      → Reach q ops c w w'
      → Inv (org_maximum q) w.scans
      → Inv (org_maximum q) w'.scans
  Reach-Inv here v = v
  Reach-Inv (next {v = u} {u = w'} r st) v = (step-Good u w' st (Reach-Inv r v)).inv

  -- From a table with the invariant of the queue, one step moves every scan along its life cycle, keeps what identifies it, and writes nothing on
  -- a scan that has ended but the address of its target; no scan disappears.
  pub step-Evolves :
      {w w' : Worker}
      → Step q ops c w w'
      → Inv (org_maximum q) w.scans
      → (i : ℕ) (r : Scan) → row scan_id i w.scans.rows ≡ some r
      → (r' : Scan) × (row scan_id i w'.scans.rows ≡ some r') × Evolves r r'
  step-Evolves {w} {w'} st v i r e = (step-Good w w' st v).preserves i r e

  -- From a table with the invariant of the queue, a scan that is completed, failed or cancelled
  -- stays so in every later state, with all its
  -- columns but the address of its target.
  pub ended_forever :
      {w w' : Worker}
      → Reach q ops c w w'
      → Inv (org_maximum q) w.scans
      → (i : ℕ) (r : Scan) → row scan_id i w.scans.rows ≡ some r
      → in_progress r.status ≡ false
      → (r' : Scan) × (row scan_id i w'.scans.rows ≡ some r')
        × (r' ≡ record r { target_address = r'.target_address })
  ended_forever here v i r e over = (r, e, refl)
  ended_forever (next {v = u} {u = w'} h st) v i r e over =
      let (s, was, same) = ended_forever h v i r e over in
      let (r', now, evolves) = step-Evolves st (Reach-Inv h v) i s was in
      (r', now, ground (arith, same, over, evolves.ended))

-- The table of a new installation.
pub empty-Inv : (maximum : ℕ) → Inv maximum (record { rows = []; next_id = 0 })
empty-Inv maximum = record { ordered = tt; single = λ a k. omega arith; limited = λ o. omega arith }
