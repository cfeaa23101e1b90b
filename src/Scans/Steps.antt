-- ===== src/Scans/Steps.antt =====
-- The queue as a transition system: requests, cancellations, claims, the removal of orphans and the
-- ends of executions in any order (backend/src/scans/scans.service.ts, scan-worker.service.ts).
pub mod Moves
pub mod Operations
pub mod Invariant
use sistema_de_gestion_de_po.Common.{ℕ, ◌≡◌, Bool, Option, List, String}
use sistema_de_gestion_de_po.Scans.{Asset, Scan, Table}
use sistema_de_gestion_de_po.Scans.Queue.{
  EnqueueInput, ok, enqueue, cancel, claim_next, org_maximum,
}
use sistema_de_gestion_de_po.Scans.Queue
use sistema_de_gestion_de_po.Scans.Worker.{
  Worker, TextOps, AbortReason, Run, finish_run, fail_orphans, set_target,
}
use sistema_de_gestion_de_po.Scans.Worker

module _ (q : Queue.Settings) (ops : TextOps) (c : Worker.Settings) where
  -- One step of the API or of a worker. A cancellation has seen any earlier table, and the row that
  -- an execution ends with is whatever it read when it began.
  pub data Step (w w' : Worker) : Type 0 where
    requested :
        (input : EnqueueInput) (assets : List Asset) (now : ℕ) (t : Table)
        → enqueue q input assets w.scans now ≡ ok t
        → w' ≡ record w { scans = t }
        → Step w w'
    cancelled :
        (organization id now : ℕ) (seen t : Table) (abort : Bool)
        → cancel organization id now seen w.scans ≡ ok (t, abort)
        → w' ≡ record w { scans = t }
        → Step w w'
    claimed :
        (now : ℕ) → w' ≡ record w { scans = (claim_next (org_maximum q) now w.scans).0 } → Step w w'
    orphans_failed : (now : ℕ) → w' ≡ fail_orphans q now w → Step w w'
    targeted : (id : ℕ) (address : String) → w' ≡ set_target id address w → Step w w'
    ended :
        (scan : Scan) (reason : Option AbortReason) (run : Run) (message : String) (now : ℕ)
        → w' ≡ finish_run ops c scan reason run message now w
        → Step w w'

  pub data Reach (w : Worker) : Worker → Type 0 where
    here : Reach w w
    next : {v u : Worker} → Reach w v → Step v u → Reach w u
