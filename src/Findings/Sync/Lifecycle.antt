-- ===== src/Findings/Sync/Lifecycle.antt =====
-- What a synchronisation may change of the rows that are there (`syncForScan`).
use sistema_de_gestion_de_po.Common.{
  ℕ, ◌≡◌, refl, ◌≢◌, ◌⊎◌, inl, inr, Bool, true, some, String, List, ◌∷◌, map, ◌==◌, find, All,
  arith, Bool-cases,
}
use sistema_de_gestion_de_po.Domain.{Status, Category}
use sistema_de_gestion_de_po.Findings.{
  Finding, Table, Rule, ok, update_row, row, Below, DatedWhenResolved,
}
use sistema_de_gestion_de_po.Findings.Rows.{
  KeepsId, row-update, row-map, row-fresh, find-row, update-Below, map-Below, All-update, All-map,
}
use sistema_de_gestion_de_po.Findings.Sync.Rules.{save_cases, saved, finish_cases, sync_rule}
use sistema_de_gestion_de_po.Findings.Sync.{
  Draft, SyncInput, Progress, is_at, detected, create, reopen, reopen_row, refresh, resolve, settle,
  finish, sync_for_scan,
}

-- What a synchronisation of one asset keeps of a row: its keys and what people have decided about
-- it; a row of another asset stays as it is, and an accepted or discarded risk keeps its status.
pub record Keeps (asset : ℕ) (r r' : Finding) : Type 0 where
  pub same_id : r'.id ≡ r.id
  pub same_organization : r'.organization ≡ r.organization
  pub same_asset : r'.asset ≡ r.asset
  pub same_fingerprint : r'.fingerprint ≡ r.fingerprint
  pub same_first_seen : r'.first_seen_at ≡ r.first_seen_at
  pub same_assignee : r'.assigned_to ≡ r.assigned_to
  pub same_due_date : r'.due_date ≡ r.due_date
  pub same_remediation : r'.remediation_note ≡ r.remediation_note
  pub same_note : r'.review_note ≡ r.review_note
  pub same_reviewer : r'.reviewed_by ≡ r.reviewed_by
  pub foreign : r.asset ≢ asset → r' ≡ r
  pub frozen :
      (r.status ≡ Status.accepted) ⊎ (r.status ≡ Status.false_positive) → r'.status ≡ r.status

Keeps-refl : (a : ℕ) (r : Finding) → Keeps a r r
Keeps-refl a r = ground arith

Keeps-trans : (a : ℕ) (r s t : Finding) → Keeps a r s → Keeps a s t → Keeps a r t
Keeps-trans a r s t h k = ground arith

-- The row of an identifier is there afterwards, and keeps what it has to.
abbrev pub Preserves : ℕ → List Finding → List Finding → Type 0
Preserves a rs rs' =
    (i : ℕ) (r : Finding)
    → row i rs ≡ some r
    → (r' : Finding) × (row i rs' ≡ some r') × Keeps a r r'

Preserves-trans :
    (a : ℕ) (rs ss ts : List Finding) → Preserves a rs ss → Preserves a ss ts → Preserves a rs ts
Preserves-trans a rs ss ts h k i r e =
    let (s, es, keep_s) = h i r e in
    let (t, et, keep_t) = k i s es in (t, et, Keeps-trans a r s t keep_s keep_t)

-- An update of a found row preserves the table, where it keeps what it has to of that row.
update-Preserves :
    (a n : ℕ) (p : Finding → Bool) (f : Finding → Finding) (rs : List Finding) (x : Finding)
    → Below n rs
    → find p rs ≡ some x
    → KeepsId f
    → Keeps a x (f x)
    → Preserves a rs (update_row x.id f rs)
update-Preserves a n p f rs x b found keeps k i r e = elim (Bool-cases (i == x.id)) [
  | inl same ↦ (f r, rw (row-update i x.id f rs keeps, same, e) refl, rw (one same) k)
  | inr other ↦ (r, rw (row-update i x.id f rs keeps, other) e, Keeps-refl a r)
]
  where
    one : (i == x.id) ≡ true → r ≡ x
    one same = ground (arith, e, (find-row p n rs x b found).0)

map-Preserves :
    (a : ℕ) (f : Finding → Finding) (rs : List Finding)
    → KeepsId f
    → ((r : Finding) → Keeps a r (f r))
    → Preserves a rs (map f rs)
map-Preserves a f rs keeps_id keeps i r e = (f r, rw (row-map i f rs keeps_id, e) refl, keeps r)

-- A new first row with a fresh identifier preserves the others.
cons-Preserves :
    (a n : ℕ) (x : Finding) (rs : List Finding) → x.id ≡ n → Below n rs → Preserves a rs (x ∷ rs)
unfolding row
cons-Preserves a n x rs fresh b i r e =
    (r, ground (arith, row-fresh n i rs r b e, e, fresh), Keeps-refl a r)

module _ (fingerprint : String → String → String) (cut : ℕ → String → String) (now : ℕ)
    (rules : List Rule) (input : SyncInput) where
  -- The loop's invariant: identifiers stay in order, and the rows of the start are preserved.
  Invariant : List Finding → Progress → Type 0
  Invariant rs p = Below p.table.next_id p.table.rows × Preserves input.asset rs p.table.rows

  create-Invariant :
      (rs : List Finding) (d : Draft) (rule : Rule) (k : String) (p : Progress)
      → Invariant rs p
      → Invariant rs (create fingerprint cut now input d rule k p)
  unfolding Invariant create
  create-Invariant rs d rule k p (b, keeps) = (
    (omega arith, b),
    Preserves-trans input.asset rs p.table.rows _ keeps
        (cons-Preserves input.asset p.table.next_id _ p.table.rows refl b),
  )

  update-Invariant :
      (rs : List Finding) (k : String) (f : Finding → Finding) (x : Finding) (p : Progress)
      → KeepsId f
      → find (is_at input.asset k) p.table.rows ≡ some x
      → Keeps input.asset x (f x)
      → Invariant rs p
      → Below p.table.next_id (update_row x.id f p.table.rows)
        × Preserves input.asset rs (update_row x.id f p.table.rows)
  unfolding Invariant
  update-Invariant rs k f x p keeps_id found keeps (b, before) = (
    update-Below x.id p.table.next_id f p.table.rows keeps_id b,
    Preserves-trans input.asset rs p.table.rows _ before (
        update-Preserves input.asset p.table.next_id (is_at input.asset k) f p.table.rows x b found
          keeps_id keeps),
  )

  saved-Invariant :
      (rs : List Finding) (d : Draft) (rule : Rule) (p : Progress)
      → Invariant rs p
      → Invariant rs (saved fingerprint cut now rules input d rule p)
  unfolding Invariant reopen refresh
  saved-Invariant rs d rule p v =
      let k = fingerprint d.rule_id d.location in
      save_cases fingerprint cut now rules input
        (λ q. Below q.table.next_id q.table.rows × Preserves input.asset rs q.table.rows) d rule k p
        (λ e. create-Invariant rs d rule k p v)
        (λ x e r.
          update-Invariant rs k (reopen_row fingerprint cut now input d rule) x p (λ y. refl) e
            (reopened x (find-row (is_at input.asset k) p.table.next_id p.table.rows x v.0 e).1 r)
            v)
        (λ x e r.
          update-Invariant rs k (detected fingerprint cut now input d rule) x p (λ y. refl) e
            (refreshed x (find-row (is_at input.asset k) p.table.next_id p.table.rows x v.0 e).1) v)
    where
      reopened :
          (x : Finding)
          → is_at input.asset (fingerprint d.rule_id d.location) x ≡ true
          → x.status ≡ Status.resolved
          → Keeps input.asset x (reopen_row fingerprint cut now input d rule x)
      reopened x at e = ground arith

      refreshed :
          (x : Finding)
          → is_at input.asset (fingerprint d.rule_id d.location) x ≡ true
          → Keeps input.asset x (detected fingerprint cut now input d rule x)
      refreshed x at = ground arith

  settle-Keeps :
      (categories : List Category) (seen : List String) (r : Finding)
      → Keeps input.asset r (settle fingerprint cut now input categories seen r)
  settle-Keeps categories seen r = ground arith

  finish-Invariant :
      (rs : List Finding) (p : Progress)
      → Invariant rs p
      → Invariant rs (finish fingerprint cut now input p)
  unfolding Invariant resolve
  finish-Invariant rs p v =
      finish_cases fingerprint cut now rules input
        (λ q. Below q.table.next_id q.table.rows × Preserves input.asset rs q.table.rows) p v
        λ c cs e.
          let f = settle fingerprint cut now input (c ∷ cs) p.seen in
          let keeps_id : KeepsId f = λ r. (settle-Keeps (c ∷ cs) p.seen r).same_id in
          (
            map-Below p.table.next_id f p.table.rows keeps_id v.0,
            Preserves-trans input.asset rs p.table.rows _ v.1
                (map-Preserves input.asset f p.table.rows keeps_id (settle-Keeps (c ∷ cs) p.seen)),
          )

  -- Where identifiers are distinct and below the next one, every row of the table is in it after a
  -- successful synchronisation, with its keys, its assignee, its due date and its notes; a row of another asset is unchanged, and an accepted risk or a
  -- false positive keeps its status. Identifiers stay so.
  pub sync-preserves :
      (t : Table) (q : Progress)
      → sync_for_scan fingerprint cut now rules input t ≡ ok q
      → Below t.next_id t.rows
      → (i : ℕ) (r : Finding) → row i t.rows ≡ some r
      → (Below q.table.next_id q.table.rows)
        × (r' : Finding) × (row i q.table.rows ≡ some r')
        × Keeps input.asset r r'
  unfolding Invariant
  sync-preserves t q h b i r at =
      let (ordered, preserved) =
        sync_rule fingerprint cut now rules input (Invariant t.rows) (Invariant t.rows)
          (λ d rule p _ _ v. saved-Invariant t.rows d rule p v) (finish-Invariant t.rows) t q h
          (b, λ j z e. (z, e, Keeps-refl input.asset z)) in
      let (r', now_at, keeps) = preserved i r at in (ordered, r', now_at, keeps)

  saved-dated :
      (d : Draft) (rule : Rule) (p : Progress)
      → All DatedWhenResolved p.table.rows
      → All DatedWhenResolved (saved fingerprint cut now rules input d rule p).table.rows
  unfolding create reopen refresh
  saved-dated d rule p v =
      save_cases fingerprint cut now rules input (λ q. All DatedWhenResolved q.table.rows) d rule
        (fingerprint d.rule_id d.location) p (λ e. (ground arith, v))
        (λ x e r.
          All-update DatedWhenResolved x.id (reopen_row fingerprint cut now input d rule)
            p.table.rows (λ y h. ground arith) v)
        (λ x e r.
          All-update DatedWhenResolved x.id (detected fingerprint cut now input d rule) p.table.rows
            (λ y h. h) v)

  -- A successful synchronisation keeps every row with a resolution date exactly when it is resolved.
  pub sync-dated :
      (t : Table) (q : Progress)
      → sync_for_scan fingerprint cut now rules input t ≡ ok q
      → All DatedWhenResolved t.rows
      → All DatedWhenResolved q.table.rows
  unfolding resolve
  sync-dated t q h v =
      sync_rule fingerprint cut now rules input (λ p. All DatedWhenResolved p.table.rows)
        (λ p. All DatedWhenResolved p.table.rows) (λ d rule p _ _ k. saved-dated d rule p k)
        (λ p k.
          finish_cases fingerprint cut now rules input (λ z. All DatedWhenResolved z.table.rows) p k
            λ c cs e.
              All-map DatedWhenResolved (settle fingerprint cut now input (c ∷ cs) p.seen)
                p.table.rows (λ y h. ground arith) k)
        t q h v
