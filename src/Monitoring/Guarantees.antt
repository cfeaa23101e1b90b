-- ===== src/Monitoring/Guarantees.antt =====
-- That an asset is audited once in a period, that the scheduler keeps the queue's invariant and its
-- batch size, and that the status it shows agrees with it
-- (backend/src/monitoring/monitoring.scheduler.ts, monitoring.service.ts).
use sistema_de_gestion_de_po.Common.{
  ℕ, suc, ◌+◌, ◌-◌, ◌≤◌, ◌≡◌, refl, sym, subst, ◌∙◌, zero, ◌⊎◌, inl, inr, ◌≢◌, Bool, true, false,
  ◌&&◌, none, some, List, [], ◌∷◌, map, keep, take, any, find, length, ◌==◌, if◌then◌else◌,
  same_number, arith, Bool-cases, Option-cases,
}
use sistema_de_gestion_de_po.Common.Keyed.{Below}
use sistema_de_gestion_de_po.Domain.{ScanType}
use sistema_de_gestion_de_po.Scans.{Asset, Table}
use sistema_de_gestion_de_po.Scans.Queue.{
  Result-cases, Settings, EnqueueInput, enqueue, org_maximum,
}
use sistema_de_gestion_de_po.Scans.Steps.Operations.{Inv, enqueue-Good}
use sistema_de_gestion_de_po.Monitoring.{
  Frequency, off, daily, weekly, period_ms, slack_ms, next_run_at, same_frequency, Monitored,
  monitored_id, State, Counts, is_due, is_monitored, shown_as_due, Enqueued, with_type, types_for,
  enqueue_types, enqueue_all, sort, due_assets, claim, scheduled_input, assets_of, run_asset,
  run_assets, run_frequency, run_once, is_passed_on,
}

next_run-period :
    (f : Frequency) (t now : ℕ)
    → f ≢ off
    → next_run_at (some t) f now ≡ some (t + period_ms f - slack_ms)
unfolding next_run_at
next_run-period off t now on = absurd (on refl)
next_run-period daily t now on = refl
next_run-period weekly t now on = refl

next_run-first : (f : Frequency) (now : ℕ) → f ≢ off → next_run_at none f now ≡ some now
unfolding next_run_at
next_run-first off now on = absurd (on refl)
next_run-first daily now on = refl
next_run-first weekly now on = refl

same_frequency-off : (f : Frequency) → f ≢ off → same_frequency f off ≡ false
same_frequency-off off on = absurd (on refl)
same_frequency-off daily on = refl
same_frequency-off weekly on = refl

period-slack : (f : Frequency) → f ≢ off → slack_ms ≤ period_ms f
period-slack off on = absurd (on refl)
period-slack daily on = omega arith
period-slack weekly on = omega arith

module _ (c : Settings) where
  -- What the status shows as due is what the scheduler takes, for an organization that is active
  -- and has a frequency, but for the one instant at which the last run is as old as the period less the slack.
  pub shown_as_due-agrees :
      (now : ℕ) (m : Monitored)
      → m.organization_active ≡ true
      → m.frequency ≢ off
      → (is_due c m.frequency now m ≡ true → shown_as_due c now m ≡ true)
        × (shown_as_due c now m ≡ true
            → (is_due c m.frequency now m ≡ true)
              ⊎ ((t : ℕ) × (m.last_scheduled_scan_at ≡ some t)
                  × (t + period_ms m.frequency ≡ now + slack_ms)))
  unfolding is_due shown_as_due is_monitored
  shown_as_due-agrees now m active on =
      let not_off = same_frequency-off m.frequency on in
      elim (Option-cases m.last_scheduled_scan_at) [
        | inl never ↦
            let next = next_run-first m.frequency now on in
            (
              λ h. ground (arith, h, never, active, not_off, next),
              λ h. inl (ground (arith, h, never, active, not_off, next)),
            )
        | inr (t, last) ↦
            let next = next_run-period m.frequency t now on in
            let slack = period-slack m.frequency on in
            (
              λ h. ground (arith, h, last, active, not_off, next, slack),
              λ h. elim (Bool-cases (t + period_ms m.frequency == now + slack_ms)) [
                | inl same ↦ inr (t, last, same_number _ _ same)
                | inr other ↦ inl (ground (arith, h, last, active, not_off, next, slack, other))
              ],
            )
      ]

  -- The rows that a claim writes.
  abbrev hits : Frequency → ℕ → ℕ → Monitored → Bool
  hits f id now m = monitored_id m == id && is_due c f now m

  abbrev claimed_row : Frequency → ℕ → ℕ → Monitored → Monitored
  claimed_row f id now m =
      if hits f id now m then record m { last_scheduled_scan_at = some now } else m

  none_hit :
      (f : Frequency) (id now later bound : ℕ) (rows : List Monitored)
      → Below monitored_id bound rows
      → bound ≤ id
      → any (hits f id later) (map (claimed_row f id now) rows) ≡ false
  none_hit f id now later bound [] b le = refl
  none_hit f id now later bound (m ∷ rows) b le =
      ground (arith, none_hit f id now later (monitored_id m) rows b.1, b.0, le)

  none_now :
      (f : Frequency) (id now bound : ℕ) (rows : List Monitored)
      → Below monitored_id bound rows
      → bound ≤ id
      → any (hits f id now) rows ≡ false
  none_now f id now bound [] b le = refl
  none_now f id now bound (m ∷ rows) b le =
      ground (arith, none_now f id now (monitored_id m) rows b.1, b.0, le)

  hit_once :
      (f : Frequency) (id now later bound : ℕ) (rows : List Monitored)
      → Below monitored_id bound rows
      → any (hits f id now) rows ≡ true
      → later + slack_ms ≤ now + period_ms f
      → any (hits f id later) (map (claimed_row f id now) rows) ≡ false
  unfolding is_due
  hit_once f id now later bound [] b won soon = ground (arith, won)
  hit_once f id now later bound (m ∷ rows) b won soon = elim (Bool-cases (monitored_id m == id)) [
    | inr other ↦
        ground (arith, other, won, hit_once f id now later (monitored_id m) rows b.1, soon)
    | inl same ↦ ground (
      arith,
      same,
      won,
      soon,
      none_now f id now (monitored_id m) rows b.1 (ground (arith, same)),
      none_hit f id now later (monitored_id m) rows b.1 (ground (arith, same)),
    )
  ]

  claim-hits :
      (f : Frequency) (id now : ℕ) (s : State)
      → (claim c f id now s).1 ≡ true
      → any (hits f id now) s.rows ≡ true
  unfolding claim
  claim-hits f id now s won = ground (arith, won)

  -- Once an instance has claimed an asset, no instance claims it again for its frequency until the
  -- period, less the slack, has passed.
  pub claim-once :
      (f : Frequency) (id now later bound : ℕ) (s : State)
      → Below monitored_id bound s.rows
      → (claim c f id now s).1 ≡ true
      → later + slack_ms ≤ now + period_ms f
      → (claim c f id later (claim c f id now s).0).1 ≡ false
  unfolding claim
  claim-once f id now later bound s b won soon =
      let hit = claim-hits f id now s won in
      rw (claim, hit, hit_once f id now later bound s.rows b hit soon) refl

  enqueue_types-Inv :
      (input : EnqueueInput) (assets : List Asset) (types : List ScanType) (now : ℕ) (e : Enqueued)
      → Inv (org_maximum c) e.table
      → Inv (org_maximum c) (enqueue_types c input assets types now e).table
  unfolding enqueue_types
  enqueue_types-Inv input assets [] now e v = v
  enqueue_types-Inv input assets (type ∷ types) now e v =
      elim (Result-cases (enqueue c (with_type input type) assets e.table now)) [
        | inr (t, h) ↦
            rw (enqueue_types, h)
              (enqueue_types-Inv input assets types now
                (record e { table = t; queued = suc e.queued })
                (enqueue-Good c (with_type input type) assets e.table t now h v).inv)
        | inl (error, h) ↦ elim (Bool-cases (is_passed_on error)) [
          | inl stop ↦ rw (enqueue_types, h, stop) v
          | inr go ↦
              rw (enqueue_types, h, go)
                (enqueue_types-Inv input assets types now (record e { skipped = type ∷ e.skipped })
                  v)
        ]
      ]

  enqueue_all-Inv :
      (input : EnqueueInput) (assets : List Asset) (t : Table) (now : ℕ)
      → Inv (org_maximum c) t
      → Inv (org_maximum c) (enqueue_all c input assets t now).table
  unfolding enqueue_all
  enqueue_all-Inv input assets t now v =
      elim (Option-cases (
        find (λ (a : Asset). a.id == input.asset && a.organization == input.organization) assets)) [
          | inl e ↦ rw (enqueue_all, e) v
          | inr (a, e) ↦
              rw (enqueue_all, e)
                (enqueue_types-Inv input assets (types_for c.scanners a.type) now
                  (record { table = t; queued = 0; skipped = []; failed = none }) v)
        ]

  abbrev QueueInv : State × Counts → Type 0
  QueueInv r = Inv (org_maximum c) r.0.scans

  -- A result keeps the queue's invariant, and claims no more assets than it says are due.
  abbrev pub IsSound : State × Counts → Type 0
  IsSound r = QueueInv r × (r.1.claimed ≤ r.1.due)

  claim-scans : (f : Frequency) (id now : ℕ) (s : State) → (claim c f id now s).0.scans ≡ s.scans
  unfolding claim
  claim-scans f id now s = ground arith

  run_asset-Inv :
      (f : Frequency) (now : ℕ) (m : Monitored) (r : State × Counts)
      → QueueInv r
      → QueueInv (run_asset c f now m r)
  unfolding run_asset
  run_asset-Inv f now m (s, n) v =
      let s' = (claim c f m.asset.id now s).0 in
      let kept = subst (Inv (org_maximum c)) (sym (claim-scans f m.asset.id now s)) v in
      elim (Bool-cases (claim c f m.asset.id now s).1) [
        | inl won ↦
            rw (run_asset, won)
              (enqueue_all-Inv (scheduled_input m) (assets_of s') s'.scans now kept)
        | inr lost ↦ rw (run_asset, lost) v
      ]

  run_asset-counts :
      (f : Frequency) (now : ℕ) (m : Monitored) (r : State × Counts)
      → ((run_asset c f now m r).1.claimed ≤ suc r.1.claimed)
        × ((run_asset c f now m r).1.due ≡ r.1.due)
  unfolding run_asset
  run_asset-counts f now m (s, n) = (ground arith, ground arith)

  run_assets-Inv :
      (f : Frequency) (now : ℕ) (ms : List Monitored) (r : State × Counts)
      → QueueInv r
      → QueueInv (run_assets c f now ms r)
  unfolding run_assets
  run_assets-Inv f now [] r v = v
  run_assets-Inv f now (m ∷ ms) r v =
      run_assets-Inv f now ms (run_asset c f now m r) (run_asset-Inv f now m r v)

  run_assets-counts :
      (f : Frequency) (now : ℕ) (ms : List Monitored) (r : State × Counts)
      → ((run_assets c f now ms r).1.claimed ≤ r.1.claimed + length ms)
        × ((run_assets c f now ms r).1.due ≡ r.1.due)
  unfolding run_assets
  run_assets-counts f now [] r = (omega arith, refl)
  run_assets-counts f now (m ∷ ms) r =
      let (claimed, due) = run_assets-counts f now ms (run_asset c f now m r) in
      let (one, same) = run_asset-counts f now m r in (omega (arith, claimed, one), due ∙ same)

  length-take : (n : ℕ) (ms : List Monitored) → length (take n ms) ≤ n
  length-take zero ms = omega arith
  length-take (suc n) [] = omega arith
  length-take (suc n) (m ∷ ms) = omega (arith, length-take n ms)

  run_frequency-IsSound :
      (f : Frequency) (now remaining : ℕ) (r : State × Counts)
      → IsSound r
      → IsSound (run_frequency c f now remaining r).0
        × ((run_frequency c f now remaining r).0.1.due
            ≡ r.1.due + (run_frequency c f now remaining r).1)
        × ((run_frequency c f now remaining r).1 ≤ remaining)
  unfolding run_frequency due_assets
  run_frequency-IsSound f now remaining (s, n) (v, le) =
      let due = due_assets c f now remaining s.rows in
      let r : State × Counts = (s, record n { due = n.due + length due }) in
      let (claimed, same) = run_assets-counts f now due r in
      (
        (run_assets-Inv f now due r v, omega (arith, claimed, same, le)),
        same,
        length-take remaining (sort (keep (is_due c f now) s.rows)),
      )

  -- A pass of the scheduler keeps the invariant of the queue, takes no more assets than its batch
  -- size, and claims no more than were due.
  pub run_once-IsSound :
      (batch_size now : ℕ) (s : State)
      → Inv (org_maximum c) s.scans
      → Inv (org_maximum c) (run_once c batch_size now s).0.scans
        × ((run_once c batch_size now s).1.claimed ≤ (run_once c batch_size now s).1.due)
        × ((run_once c batch_size now s).1.due ≤ batch_size)
  unfolding run_once
  run_once-IsSound batch_size now s v =
      let none_yet : Counts = record { due = 0; claimed = 0; queued_scans = 0; errors = 0 } in
      let ((v', le), due, few) =
        run_frequency-IsSound daily now batch_size (s, none_yet) (v, omega arith) in
      let (r, n) = run_frequency c daily now batch_size (s, none_yet) in
      let ((v'', le'), due', few') = run_frequency-IsSound weekly now (batch_size - n) r (v', le) in
      elim (Bool-cases (batch_size == 0)) [
        | inl empty ↦ rw (run_once, empty) (v, omega arith, omega arith)
        | inr some_room ↦ elim (Bool-cases (batch_size - n == 0)) [
          | inl full ↦ rw (run_once, some_room, full) (v', le, omega (arith, due, few))
          | inr room ↦
              rw (run_once, some_room, room) (v'', le', omega (arith, due, due', few, few'))
        ]
      ]
