-- ===== src/Scans/Steps/Operations.antt =====
-- Each operation on the queue keeps the invariant and moves scans only along their life cycle
-- (backend/src/scans/scans.service.ts, scan-worker.service.ts).
use mathlib.Core.Path.{subst, ap₂}
use sistema_de_gestion_de_po.Common.{
  sym, ap, ==_iff, ℕ, ◌≤◌, ◌<◌, ◌≡◌, refl, Bool, true, ◌&&◌, Option, none, some, String, List, ◌∷◌,
  map, ◌==◌, arith, Bool-cases, Option-cases, inl, inr, count_if, find, ltb,
}
use sistema_de_gestion_de_po.Common.Keyed.{
  row, update, Below, row-update, row-cons, map-Below, update-Below, count-map, count-update,
  count-update-row,
}
use sistema_de_gestion_de_po.Domain.{ScanStatus, ScanType}
use sistema_de_gestion_de_po.Scans.{
  Asset, Scan, Table, scan_id, in_progress, update_where, with_status,
}
use sistema_de_gestion_de_po.Scans.Queue.{
  EnqueueInput, Result, ok, err, enqueue, new_scan, cancel, claim_next, next_scan, is_eligible,
  start_row, fail_stale_scans, is_orphan, stale_limit, org_maximum, occupies, running_in,
}
use sistema_de_gestion_de_po.Scans.Queue
use sistema_de_gestion_de_po.Scans.Queue.Admission.{
  enqueue-Admitted, next_scan-IsFirst, next_scan-row,
}
use sistema_de_gestion_de_po.Scans.Worker.{
  Worker, TextOps, ScanError, AbortReason, Run, returned, threw, handle_interrupted, handle_error,
  complete, finish_run, is_transient, max_retries, error_text, requeue_row, fail_row, fail_orphans,
  set_target, cancelled, timeout, shutdown,
}
use sistema_de_gestion_de_po.Scans.Worker
use sistema_de_gestion_de_po.Scans.Steps.Moves.{
  Evolves, Evolves-refl, Calm, Preserves, Preserves-refl, where-Calm, map-Preserves,
}

pub record Inv (maximum : ℕ) (t : Table) : Type 0 where
  pub ordered : Below scan_id t.next_id t.rows
  pub single : (asset : ℕ) (type : ScanType) → count_if (occupies asset type) t.rows ≤ 1
  pub limited : (organization : ℕ) → count_if (running_in organization) t.rows ≤ maximum

-- What a step from one table to the next has to keep.
pub record Good (maximum : ℕ) (t t' : Table) : Type 0 where
  pub inv : Inv maximum t'
  pub preserves : Preserves t.rows t'.rows

Calm-occupies :
    (asset : ℕ) (type : ScanType) (r r' : Scan)
    → Calm r r'
    → occupies asset type r' ≡ true
    → occupies asset type r ≡ true
Calm-occupies asset type r r' calm h = ground arith

Calm-running :
    (organization : ℕ) (r r' : Scan)
    → Calm r r'
    → running_in organization r' ≡ true
    → running_in organization r ≡ true
Calm-running organization r r' calm h = ground arith

-- A calm write on every row is good.
map-Good :
    (maximum : ℕ) (f : Scan → Scan) (t : Table)
    → ((r : Scan) → Calm r (f r))
    → Inv maximum t
    → Good maximum t (record t { rows = map f t.rows })
map-Good maximum f t calm v = record {
  inv = record {
    ordered = map-Below scan_id t.next_id f t.rows (λ r. (calm r).evolves.same_id) v.ordered;
    single = λ a k. omega (
      arith,
      v.single a k,
      count-map (occupies a k) f t.rows (λ r. Calm-occupies a k r (f r) (calm r)),
    );
    limited = λ o. omega (
      arith,
      v.limited o,
      count-map (running_in o) f t.rows (λ r. Calm-running o r (f r) (calm r)),
    );
  };
  preserves = map-Preserves f t.rows calm;
}

same-Good : (maximum : ℕ) (t : Table) → Inv maximum t → Good maximum t t
same-Good maximum t v = record { inv = v; preserves = Preserves-refl t.rows }

pub enqueue-Good :
    (q : Queue.Settings) (input : EnqueueInput) (assets : List Asset) (t t' : Table) (now : ℕ)
    → enqueue q input assets t now ≡ ok t'
    → Inv (org_maximum q) t
    → Good (org_maximum q) t t'
enqueue-Good q input assets t t' now h v =
    let (a, admitted, same) = enqueue-Admitted q input assets t t' now h in
    subst (Good (org_maximum q) t) (sym same) (record {
      inv = record {
        ordered = (omega arith, v.ordered);
        single = λ asset type. added asset type (v.single asset type) admitted.alone;
        limited = λ o. ground (arith, v.limited o);
      };
      preserves = λ i r e. (
        r,
        row-cons scan_id i t.next_id (new_scan input t.next_id now) t.rows r v.ordered refl e,
        Evolves-refl r,
      );
    })
  where
    same_count :
        (asset : ℕ) (type : ScanType)
        → occupies asset type (new_scan input t.next_id now) ≡ true
        → count_if (occupies asset type) t.rows ≡ count_if (occupies input.asset input.type) t.rows
    same_count asset type e =
        ap₂ (λ a k. count_if (occupies a k) t.rows) (ground (arith, e)) (ground (arith, e))

    added :
        (asset : ℕ) (type : ScanType)
        → count_if (occupies asset type) t.rows ≤ 1
        → count_if (occupies input.asset input.type) t.rows ≡ 0
        → count_if (occupies asset type) (new_scan input t.next_id now ∷ t.rows) ≤ 1
    added asset type le free =
        elim (Bool-cases (occupies asset type (new_scan input t.next_id now))) [
          | inl e ↦ rw e (omega (arith, free, same_count asset type e))
          | inr e ↦ rw e le
        ]

pub cancel-Good :
    (maximum organization id now : ℕ) (seen t t' : Table) (abort : Bool)
    → cancel organization id now seen t ≡ ok (t', abort)
    → Inv maximum t
    → Good maximum t t'
unfolding cancel
cancel-Good maximum organization id now seen t t' abort h v =
    elim (Option-cases
      (find (λ (r : Scan). r.id == id && r.organization == organization) seen.rows)) [
        | inl e ↦ absurd (ground (arith, h, e))
        | inr (r, e) ↦ subst (Good maximum t) (ground (arith, h, e)) (
            map-Good maximum _ t
              (where-Calm (with_status id r.status)
                (λ (s : Scan). record s { status = ScanStatus.cancelled; finished_at = some now })
                (λ s k. cancelled_row s r.status k (ground (arith, h, e))))
              v)
      ]
  where
    cancelled_row :
        (s : Scan) (status : ScanStatus)
        → with_status id status s ≡ true
        → in_progress status ≡ true
        → Calm s (record s { status = ScanStatus.cancelled; finished_at = some now })
    cancelled_row s status k e = ground arith

pub stale-Good :
    (maximum : ℕ) (q : Queue.Settings) (now : ℕ) (t : Table)
    → Inv maximum t
    → Good maximum t (fail_stale_scans q now t)
unfolding fail_stale_scans
stale-Good maximum q now t v =
    map-Good maximum _ t
      (where-Calm (is_orphan (stale_limit q now))
        (λ (r : Scan). record r {
          status = ScanStatus.failed;
          finished_at = some now;
          error_message =
              some "Escaneo interrumpido: el proceso que lo ejecutaba dejó de responder";
        })
        (λ r k. ground arith))
      v

pub target-Good :
    (maximum id : ℕ) (address : String) (w : Worker)
    → Inv maximum w.scans
    → Good maximum w.scans (set_target id address w).scans
unfolding set_target
target-Good maximum id address w v =
    map-Good maximum _ w.scans
      (where-Calm (λ (r : Scan). r.id == id) (λ r. record r { target_address = some address })
        (λ r k. ground arith))
      v

start-Evolves : (now : ℕ) (r : Scan) → r.status ≡ ScanStatus.pending → Evolves r (start_row now r)
start-Evolves now r e = ground arith

start-Good :
    (maximum now : ℕ) (t : Table) (r : Scan)
    → Inv maximum t
    → row scan_id r.id t.rows ≡ some r
    → is_eligible maximum t.rows r ≡ true
    → Good maximum t (record t { rows = update scan_id r.id (start_row now) t.rows })
start-Good maximum now t r v at fit = record {
  inv = record {
    ordered = update-Below scan_id r.id t.next_id (start_row now) t.rows (λ s. refl) v.ordered;
    single = λ a k. omega (
      arith,
      v.single a k,
      count-update-row scan_id (occupies a k) r.id t.next_id (start_row now) t.rows r v.ordered at
          (λ h. ground (arith, h, fit)),
    );
    limited = λ o. elim (Bool-cases (r.organization == o)) [
      | inl same ↦ omega (
        arith,
        room o same,
        count-update scan_id (running_in o) r.id t.next_id (start_row now) t.rows v.ordered,
      )
      | inr other ↦ omega (
        arith,
        v.limited o,
        count-update-row scan_id (running_in o) r.id t.next_id (start_row now) t.rows r v.ordered at
            (λ h. ground (arith, h, other)),
      )
    ];
  };
  preserves = λ i x e. elim (Bool-cases (i == r.id)) [
    | inl same ↦ (
      start_row now x,
      rw (row-update scan_id i r.id (start_row now) t.rows (λ s. refl), same, e) refl,
      start-Evolves now x (pending i x e same),
    )
    | inr other ↦ (
      x,
      rw (row-update scan_id i r.id (start_row now) t.rows (λ s. refl), other) e,
      Evolves-refl x,
    )
  ];
}
  where
    room : (o : ℕ) → (r.organization == o) ≡ true → count_if (running_in o) t.rows < maximum
    room o same =
        subst (λ z. count_if (running_in z) t.rows < maximum) ((==_iff r.organization o).0 same)
          (ground (arith, fit))

    pending :
        (i : ℕ) (x : Scan)
        → row scan_id i t.rows ≡ some x
        → (i == r.id) ≡ true
        → x.status ≡ ScanStatus.pending
    pending i x e same =
        ground (arith, fit, at, e, ap (λ k. row scan_id k t.rows) ((==_iff i r.id).0 same))

pub claim-Good :
    (maximum now : ℕ) (t : Table) → Inv maximum t → Good maximum t (claim_next maximum now t).0
unfolding claim_next
claim-Good maximum now t v = elim (Option-cases (next_scan maximum t.rows t.rows)) [
  | inl e ↦ rw (e, claim_next) (same-Good maximum t v)
  | inr (r, e) ↦
      rw (e, claim_next)
        (start-Good maximum now t r v (next_scan-row maximum t.rows t.next_id t.rows r v.ordered e)
          (next_scan-IsFirst maximum t.rows t.rows r e).0)
]

-- A write on the running row of an identifier.
abbrev RunningWrite : (Scan → Scan) → Type 0
RunningWrite f = (r : Scan) → r.status ≡ ScanStatus.running → Calm r (f r)

running-Good :
    (maximum id : ℕ) (f : Scan → Scan) (t : Table)
    → RunningWrite f
    → Inv maximum t
    → Good maximum t (record t { rows = update_where (with_status id ScanStatus.running) f t.rows })
running-Good maximum id f t calm v =
    map-Good maximum _ t
      (where-Calm (with_status id ScanStatus.running) f (λ r k. calm r (ground arith))) v

pub ended-Good :
    (maximum : ℕ) (ops : TextOps) (c : Worker.Settings) (scan : Scan) (reason : Option AbortReason)
    (run : Run) (message : String) (now : ℕ) (w : Worker)
    → Inv maximum w.scans
    → Good maximum w.scans (finish_run ops c scan reason run message now w).scans
unfolding finish_run handle_interrupted handle_error complete
ended-Good maximum ops c scan (some shutdown) run message now w v =
    running-Good maximum scan.id requeue_row w.scans (λ r e. ground arith) v
ended-Good maximum ops c scan (some timeout) run message now w v =
    running-Good maximum scan.id (fail_row now message) w.scans (λ r e. ground arith) v
ended-Good maximum ops c scan (some cancelled) run message now w v =
    running-Good maximum scan.id _ w.scans (λ r e. ground arith) v
ended-Good maximum ops c scan none returned message now w v =
    elim (Bool-cases (count_if (with_status scan.id ScanStatus.running) w.scans.rows == 0)) [
      | inl e ↦ rw (e, complete) (same-Good maximum w.scans v)
      | inr e ↦ rw (e, complete) (running-Good maximum scan.id _ w.scans (λ r k. ground arith) v)
    ]
ended-Good maximum ops c scan none (threw x) message now w v =
    elim (Bool-cases (is_transient ops x && ltb scan.retry_count (max_retries c))) [
      | inl e ↦
          rw (e, handle_error) (running-Good maximum scan.id _ w.scans (λ r k. ground arith) v)
      | inr e ↦
          rw (e, handle_error)
            (running-Good maximum scan.id (fail_row now (error_text x)) w.scans
              (λ r k. ground arith) v)
    ]
