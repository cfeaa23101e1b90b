-- ===== src/Scans/Worker/Outcome.antt =====
-- What the end of an execution writes on its scan, and that transient failures are not retried
-- for ever.
use sistema_de_gestion_de_po.Common.{
  ℕ, suc, ◌+◌, ◌≤◌, ◌<◌, ◌≡◌, refl, false, ◌&&◌, Option, none, some, String, List, [], ◌∷◌,
  if◌then◌else◌, ◌==◌, arith, Bool-cases, inl, inr, count_if, ltb, length, or_else, ◌⊎◌, subst,
}
use sistema_de_gestion_de_po.Common.Keyed.{row, row-map, update, row-update}
use sistema_de_gestion_de_po.Domain.{ScanStatus, same_scan_status}
use sistema_de_gestion_de_po.Scans.{Scan, scan_id, update_where, with_status}
use sistema_de_gestion_de_po.Scans.Queue.{start_row}
use sistema_de_gestion_de_po.Scans.Worker.{
  Worker, TextOps, Settings, ScanError, AbortReason, Run, returned, threw, cancelled, timeout,
  shutdown, is_transient, max_retries, error_text, requeue_row, fail_row, handle_interrupted,
  handle_error, complete, finish_run,
}

-- What becomes of the row of a scan that was running until its execution ended, column by column.
abbrev pub settled : TextOps → Settings → Option AbortReason → Run → String → ℕ → Scan → Scan
settled ops c (some shutdown) run message now r = record r {
  status = ScanStatus.pending;
  started_at = none;
  target_address = none;
}
settled ops c (some timeout) run message now r = record r {
  status = ScanStatus.failed;
  finished_at = some now;
  error_message = some message;
}
settled ops c (some cancelled) run message now r = record r {
  status = ScanStatus.cancelled;
  finished_at = some now;
}
settled ops c none returned message now r = record r {
  status = ScanStatus.completed;
  finished_at = some now;
  retry_count = 0;
  error_message = none;
}
settled ops c none (threw e) message now r =
    if is_transient ops e && ltb r.retry_count (or_else c.max_transient_retries 1)
    then record r {
      status = ScanStatus.pending;
      started_at = none;
      target_address = none;
      retry_count = suc r.retry_count;
    }
    else record r {
      status = ScanStatus.failed;
      finished_at = some now;
      error_message = some (if e.controlled then e.message else "Error interno durante el escaneo");
    }

-- A guarded write reaches the running row of its identifier.
running-row :
    (scan : Scan) (f : Scan → Scan) (rows : List Scan)
    → ((r : Scan) → (f r).id ≡ r.id)
    → row scan_id scan.id rows ≡ some scan
    → scan.status ≡ ScanStatus.running
    → row scan_id scan.id (update_where (with_status scan.id ScanStatus.running) f rows)
      ≡ some (f scan)
running-row scan f rows keeps at running =
    rw
      (
        row-map scan_id scan.id (λ r. if with_status scan.id ScanStatus.running r then f r else r)
            rows (λ r. ground (arith, keeps r)),
        at,
      )
      (ground (arith, running))

still_running :
    (scan : Scan) (rows : List Scan)
    → row scan_id scan.id rows ≡ some scan
    → scan.status ≡ ScanStatus.running
    → (count_if (with_status scan.id ScanStatus.running) rows == 0) ≡ false
unfolding row
still_running scan [] at running = absurd (ground arith)
still_running scan (r ∷ rs) at running = ground (arith, at, running, still_running scan rs)

-- The end of an execution whose scan is still the running row that it read. A shutdown, and a
-- transient error as long as there are retries left, make the row wait again without a start and an
-- address; the error counts a retry, at most as many as configured. A timeout and any other error
-- fail it with a message, a cancellation cancels it, and an outcome completes it.
pub finish_run-row :
    (ops : TextOps) (c : Settings) (scan : Scan) (reason : Option AbortReason) (run : Run)
    (message : String) (now : ℕ) (w : Worker)
    → row scan_id scan.id w.scans.rows ≡ some scan
    → scan.status ≡ ScanStatus.running
    → row scan_id scan.id (finish_run ops c scan reason run message now w).scans.rows
      ≡ some (settled ops c reason run message now scan)
unfolding finish_run handle_interrupted complete handle_error
finish_run-row ops c scan (some shutdown) run message now w at running =
    running-row scan requeue_row w.scans.rows (λ r. refl) at running
finish_run-row ops c scan (some timeout) run message now w at running =
    running-row scan (fail_row now message) w.scans.rows (λ r. refl) at running
finish_run-row ops c scan (some cancelled) run message now w at running =
    running-row scan _ w.scans.rows (λ r. refl) at running
finish_run-row ops c scan none returned message now w at running =
    rw (still_running scan w.scans.rows at running, complete)
      (running-row scan _ w.scans.rows (λ r. refl) at running)
finish_run-row ops c scan none (threw e) message now w at running =
    elim (Bool-cases (is_transient ops e && ltb scan.retry_count (max_retries c))) [
      | inl again ↦
          rw (again, handle_error) (running-row scan _ w.scans.rows (λ r. refl) at running)
      | inr over ↦
          rw (over, handle_error)
            (running-row scan (fail_row now (error_text e)) w.scans.rows (λ r. refl) at running)
    ]

-- After an execution that ends with an error the row has failed, or waits with one more retry.
finish_run-threw :
    (ops : TextOps) (c : Settings) (scan : Scan) (e : ScanError) (now : ℕ) (w : Worker)
    → row scan_id scan.id w.scans.rows ≡ some scan
    → scan.status ≡ ScanStatus.running
    → (r : Scan) × (row scan_id scan.id (finish_run ops c scan none (threw e) "" now w).scans.rows
        ≡ some r)
      × ((r.status ≡ ScanStatus.failed)
          ⊎ ((r.status ≡ ScanStatus.pending)
              × (scan.retry_count < max_retries c)
              × (r.retry_count ≡ suc scan.retry_count)))
finish_run-threw ops c scan e now w at running = (
  settled ops c none (threw e) "" now scan,
  finish_run-row ops c scan none (threw e) "" now w at running,
  ground arith,
)

-- A worker claims the scan of the identifier, if it waits, and its execution ends with the error.
pub run_again : TextOps → Settings → ℕ → ScanError → ℕ → Worker → Worker
run_again ops c id e now w = elim (row scan_id id w.scans.rows) [
  | none ↦ w
  | some r ↦
      if same_scan_status r.status ScanStatus.pending
      then finish_run ops c (start_row now r) none (threw e) "" now (record w {
        scans = record (w.scans) { rows = update scan_id id (start_row now) w.scans.rows };
      })
      else w
]

-- One execution after another, each ending with an error at some time.
pub executions : TextOps → Settings → ℕ → List (ScanError × ℕ) → Worker → Worker
executions ops c id [] w = w
executions ops c id ((e, now) ∷ es) w = executions ops c id es (run_again ops c id e now w)

row_key : (id : ℕ) (rows : List Scan) (r : Scan) → row scan_id id rows ≡ some r → r.id ≡ id
unfolding row
row_key id [] r h = ground (arith, h)
row_key id (s ∷ rows) r h = ground (arith, h, row_key id rows r)

run_again-row :
    (ops : TextOps) (c : Settings) (id : ℕ) (e : ScanError) (now : ℕ) (w : Worker) (r : Scan)
    → row scan_id id w.scans.rows ≡ some r
    → r.status ≡ ScanStatus.pending
    → (r' : Scan) × (row scan_id id (run_again ops c id e now w).scans.rows ≡ some r')
      × ((r'.status ≡ ScanStatus.failed)
          ⊎ ((r'.status ≡ ScanStatus.pending)
              × (r.retry_count < max_retries c)
              × (r'.retry_count ≡ suc r.retry_count)))
unfolding run_again
run_again-row ops c id e now w r at waits =
    let same = row_key id w.scans.rows r at in
    let claimed : Worker = record w {
      scans = record (w.scans) { rows = update scan_id id (start_row now) w.scans.rows };
    } in
    let here : row scan_id r.id claimed.scans.rows ≡ some (start_row now r) =
      ground
        (arith, row-update scan_id r.id id (start_row now) w.scans.rows (λ s. refl), same, at) in
    let (r', found, ends) = finish_run-threw ops c (start_row now r) e now claimed here refl in
    (
      r',
      rw (run_again, at, waits)
          (subst
            (λ i.
              row scan_id i
                (finish_run ops c (start_row now r) none (threw e) "" now claimed).scans.rows
              ≡ some r')
            same found),
      ends,
    )

run_again-failed :
    (ops : TextOps) (c : Settings) (id : ℕ) (e : ScanError) (now : ℕ) (w : Worker) (r : Scan)
    → row scan_id id w.scans.rows ≡ some r
    → r.status ≡ ScanStatus.failed
    → run_again ops c id e now w ≡ w
unfolding run_again
run_again-failed ops c id e now w r at h = ground (arith, at, h)

failed_stays :
    (ops : TextOps) (c : Settings) (id : ℕ) (es : List (ScanError × ℕ)) (w : Worker) (r : Scan)
    → row scan_id id w.scans.rows ≡ some r
    → r.status ≡ ScanStatus.failed
    → row scan_id id (executions ops c id es w).scans.rows ≡ some r
unfolding executions
failed_stays ops c id [] w r at h = at
failed_stays ops c id ((e, now) ∷ es) w r at h =
    rw (executions, run_again-failed ops c id e now w r at h) (failed_stays ops c id es w r at h)

-- A waiting scan with no more retries behind it than the limit is claimed again and again, and every
-- execution ends with an error. At the latest after one execution more than the retries that are
-- left its row is failed: no error is retried for ever.
pub retries_end :
    (ops : TextOps) (c : Settings) (id : ℕ) (es : List (ScanError × ℕ)) (w : Worker) (r : Scan)
    → row scan_id id w.scans.rows ≡ some r
    → r.status ≡ ScanStatus.pending
    → r.retry_count ≤ max_retries c
    → max_retries c < r.retry_count + length es
    → (r' : Scan) × (row scan_id id (executions ops c id es w).scans.rows ≡ some r')
      × (r'.status ≡ ScanStatus.failed)
unfolding executions
retries_end ops c id [] w r at waits k l = absurd (omega arith)
retries_end ops c id ((e, now) ∷ es) w r at waits k l =
    let (r', found, ends) = run_again-row ops c id e now w r at waits in
    elim ends [
      | inl failed ↦
          (r', failed_stays ops c id es (run_again ops c id e now w) r' found failed, failed)
      | inr (again, less, counted) ↦
          retries_end ops c id es (run_again ops c id e now w) r' found again
            (omega (arith, less, counted)) (omega (arith, counted, l))
    ]
