-- ===== src/Diagnostics/Pipeline/Cancellation.antt =====
-- What a cancelled diagnostic leaves in the queue, and that the diagnostics keep the queue's own
-- invariant (backend/src/scans/diagnostic-orchestrator.service.ts, `cancelBatch`).
use sistema_de_gestion_de_po.Common.{
  ℕ, ◌<◌, ◌≡◌, refl, sym, subst, ◌⊎◌, inl, inr, true, false, not, ◌&&◌, some, List, [], ◌∷◌, keep,
  All, All-map, All-keep, count_if, find, ◌==◌, arith, Bool-cases, Option-cases, if◌then◌else◌,
}
use sistema_de_gestion_de_po.Common.Keyed.{row, row-map, Below}
use sistema_de_gestion_de_po.Domain.{ScanStatus}
use sistema_de_gestion_de_po.Scans.{Scan, Table, scan_id, in_progress, update_where, with_status}
use sistema_de_gestion_de_po.Scans.Queue.{cancel}
use sistema_de_gestion_de_po.Diagnostics.Pipeline.{
  Batch, State, of_batch, cancel_one, cancel_scans, cancel_batch,
}

rows_found :
    (n : ℕ) (rs : List Scan)
    → Below scan_id n rs
    → All (λ (r : Scan). (r.id < n) × (row scan_id r.id rs ≡ some r)) rs
unfolding row
rows_found n [] b = tt
rows_found n (x ∷ rs) (lt, b) = (
  (lt, ground arith),
  All-map rs (λ r h. (omega (arith, lt, h.0), ground (arith, h.0, h.1))) (rows_found x.id rs b),
)

find-row_of :
    (i organization : ℕ) (rs : List Scan) (r : Scan)
    → row scan_id i rs ≡ some r
    → r.organization ≡ organization
    → find (λ (s : Scan). s.id == i && s.organization == organization) rs ≡ some r
unfolding row
find-row_of i organization [] r h o = ground (arith, h)
find-row_of i organization (x ∷ rs) r h o = ground (arith, h, o, find-row_of i organization rs r)

count-row :
    (i : ℕ) (rs : List Scan) (r : Scan)
    → row scan_id i rs ≡ some r
    → (count_if (with_status i r.status) rs == 0) ≡ false
unfolding row
count-row i [] r h = ground (arith, h)
count-row i (x ∷ rs) r h = ground (arith, h, count-row i rs r)

-- The scan of an identifier has come to an end.
abbrev pub HasEnded : ℕ → Table → Type 0
HasEnded i t = (x : Scan) × (row scan_id i t.rows ≡ some x) × (in_progress x.status ≡ false)

-- The scan of an identifier is as it was, or has come to an end.
abbrev Waits : Scan → Table → Type 0
Waits r t = (row scan_id r.id t.rows ≡ some r) ⊎ HasEnded r.id t

module _ (organization now : ℕ) where
  abbrev end_row : Scan → Scan
  end_row s = record s { status = ScanStatus.cancelled; finished_at = some now }

  cancel_one-cases :
      (r : Scan) (t : Table)
      → (cancel_one organization r t now ≡ t)
        ⊎ ((status : ScanStatus) × (cancel_one organization r t now
              ≡ record t { rows = update_where (with_status r.id status) end_row t.rows }))
  unfolding cancel_one cancel
  cancel_one-cases r t =
      elim (Option-cases
        (find (λ (s : Scan). s.id == r.id && s.organization == organization) t.rows)) [
          | inl e ↦ inl (ground (arith, e))
          | inr (x, e) ↦
              elim (Bool-cases (
                in_progress r.status
                && in_progress x.status
                && not (count_if (with_status r.id x.status) t.rows == 0))) [
                  | inl h ↦ inr (x.status, ground (arith, e, h))
                  | inr h ↦ inl (ground (arith, e, h))
                ]
        ]

  update-HasEnded :
      (i j : ℕ) (status : ScanStatus) (t : Table)
      → HasEnded i t
      → HasEnded i (record t { rows = update_where (with_status j status) end_row t.rows })
  update-HasEnded i j status t (x, found, over) =
      let f : Scan → Scan = λ r. if with_status j status r then end_row r else r in
      (f x, rw (row-map scan_id i f t.rows (λ r. ground arith), found) refl, ground (arith, over))

  cancel_one-HasEnded :
      (i : ℕ) (r : Scan) (t : Table) → HasEnded i t → HasEnded i (cancel_one organization r t now)
  cancel_one-HasEnded i r t h = elim (cancel_one-cases r t) [
    | inl same ↦ subst (HasEnded i) (sym same) h
    | inr (status, same) ↦ subst (HasEnded i) (sym same) (update-HasEnded i r.id status t h)
  ]

  -- A scan that waits either stays or is the one that is cancelled.
  update-Waits :
      (s : Scan) (j : ℕ) (status : ScanStatus) (t : Table)
      → row scan_id s.id t.rows ≡ some s
      → Waits s (record t { rows = update_where (with_status j status) end_row t.rows })
  update-Waits s j status t found =
      let f : Scan → Scan = λ r. if with_status j status r then end_row r else r in
      let now_at = row-map scan_id s.id f t.rows (λ r. ground arith) in
      elim (Bool-cases (with_status j status s)) [
        | inl hit ↦ inr (end_row s, rw (now_at, found, hit) refl, refl)
        | inr miss ↦ inl (rw (now_at, found, miss) refl)
      ]

  cancel_one-Waits :
      (s r : Scan) (t : Table) → Waits s t → Waits s (cancel_one organization r t now)
  cancel_one-Waits s r t (inr h) = inr (cancel_one-HasEnded s.id r t h)
  cancel_one-Waits s r t (inl found) = elim (cancel_one-cases r t) [
    | inl same ↦ subst (Waits s) (sym same) (inl found)
    | inr (status, same) ↦ subst (Waits s) (sym same) (update-Waits s r.id status t found)
  ]

  cancelled_table :
      (r : Scan) (t : Table)
      → r.organization ≡ organization
      → row scan_id r.id t.rows ≡ some r
      → in_progress r.status ≡ true
      → cancel_one organization r t now
        ≡ record t { rows = update_where (with_status r.id r.status) end_row t.rows }
  unfolding cancel_one cancel
  cancelled_table r t own found waiting = ground (
    arith,
    waiting,
    find-row_of r.id organization t.rows r found own,
    count-row r.id t.rows r found,
  )

  -- The scan that is cancelled has ended.
  cancel_one-ends :
      (r : Scan) (t : Table)
      → r.organization ≡ organization
      → Waits r t
      → HasEnded r.id (cancel_one organization r t now)
  cancel_one-ends r t own (inr h) = cancel_one-HasEnded r.id r t h
  cancel_one-ends r t own (inl found) = elim (Bool-cases (in_progress r.status)) [
    | inr over ↦ cancel_one-HasEnded r.id r t (r, found, over)
    | inl waiting ↦ subst (HasEnded r.id) (sym (cancelled_table r t own found waiting)) (
        let f : Scan → Scan = λ s. if with_status r.id r.status s then end_row s else s in
        (
          end_row r,
          rw (row-map scan_id r.id f t.rows (λ s. ground arith), found) (ground arith),
          refl,
        ))
  ]

  cancel_scans-HasEnded :
      (i : ℕ) (rs : List Scan) (t : Table)
      → HasEnded i t
      → HasEnded i (cancel_scans organization rs t now)
  unfolding cancel_scans
  cancel_scans-HasEnded i [] t h = h
  cancel_scans-HasEnded i (r ∷ rs) t h =
      cancel_scans-HasEnded i rs (cancel_one organization r t now) (cancel_one-HasEnded i r t h)

  cancel_scans-ends :
      (rs : List Scan) (t : Table)
      → All (λ (r : Scan). r.organization ≡ organization) rs
      → All (λ r. Waits r t) rs
      → All (λ (r : Scan). HasEnded r.id (cancel_scans organization rs t now)) rs
  unfolding cancel_scans
  cancel_scans-ends [] t own h = tt
  cancel_scans-ends (r ∷ rs) t (mine, own) (w, h) = (
    cancel_scans-HasEnded r.id rs (cancel_one organization r t now) (cancel_one-ends r t mine w),
    cancel_scans-ends rs (cancel_one organization r t now) own
        (All-map rs (λ s k. cancel_one-Waits s r t k) h),
  )

  -- Cancelling a diagnostic ends every scan of it, where the identifiers of the queue are distinct
  -- and its scans belong to its organization.
  pub cancel_batch-ends :
      (s : State) (id : ℕ) (b : Batch)
      → find (λ (c : Batch). c.id == id && c.organization == organization) s.batches ≡ some b
      → Below scan_id s.scans.next_id s.scans.rows
      → All (λ (r : Scan). r.organization ≡ organization) (keep (of_batch b.id) s.scans.rows)
      → All
          (λ (r : Scan). HasEnded r.id (cancel_batch s organization id now).1.scans)
          (keep (of_batch b.id) s.scans.rows)
  unfolding cancel_batch
  cancel_batch-ends s id b found ordered own =
      rw (cancel_batch, found)
        (cancel_scans-ends (keep (of_batch b.id) s.scans.rows) s.scans own (
          All-keep (λ r. Waits r s.scans) (of_batch b.id) s.scans.rows
            (All-map s.scans.rows (λ r h. inl h.1)
              (rows_found s.scans.next_id s.scans.rows ordered))))
