-- ===== src/Scans/Queue/Admission.antt =====
-- What a request has passed when its scan is queued, and which scan a worker claims.
use sistema_de_gestion_de_po.Common.{
  ℕ, suc, ◌<◌, ◌≤◌, ◌/◌, ◌&&◌, ◌≡◌, ◌≢◌, true, false, Option, none, some, List, [], ◌∷◌, ◌==◌,
  arith, Bool-cases, Option-cases, inl, inr, ◌⊎◌, ap, sym, ◌∙◌, count_if, find, find-none, All,
  is_some,
}
use mathlib.Core.Path.{subst}
use sistema_de_gestion_de_po.Common.Keyed.{row, Below}
use sistema_de_gestion_de_po.Domain.{ScanSource, ScanStatus, same_scan_status}
use sistema_de_gestion_de_po.Scans.{Asset, Scan, Table, scan_id}
use sistema_de_gestion_de_po.Scans.Queue.{
  Settings, EnqueueInput, ok, enqueue, new_scan, supports, applies, occupies, is_recent_manual,
  hourly_maximum, next_scan, is_eligible, comes_before, better, type_priority,
}

pub record Admitted (c : Settings) (input : EnqueueInput) (assets : List Asset) (t : Table)
    (now : ℕ) (a : Asset) : Type 0 where
  pub owned :
      find (λ (b : Asset). b.id == input.asset && b.organization == input.organization) assets
      ≡ some a
  pub supported : supports c.scanners input.type ≡ true
  pub applicable : applies c.scanners a.type input.type ≡ true
  pub active : a.is_active ≡ true
  pub authorized : a.authorization_confirmed ≡ true
  pub verified : (c.verification_required ≡ false) ⊎ (is_some a.verified_at ≡ true)
  pub alone : count_if (occupies input.asset input.type) t.rows ≡ 0
  pub within_limit :
      (input.source ≡ ScanSource.scheduled)
      ⊎ (count_if (is_recent_manual input.organization now) t.rows < hourly_maximum c)

-- A scan is only queued for an asset of the organization that is active, authorized and, where that
-- is required, verified, by a registered scanner that applies to it, with no scan of the same type
-- in progress for it and, if a user asks, below the hourly limit of the organization; it is then
-- the only change of the table.
pub enqueue-Admitted :
    (c : Settings) (input : EnqueueInput) (assets : List Asset) (t t' : Table) (now : ℕ)
    → enqueue c input assets t now ≡ ok t'
    → (a : Asset) × Admitted c input assets t now a
      × (t' ≡ record { rows = new_scan input t.next_id now ∷ t.rows; next_id = suc t.next_id })
unfolding enqueue
enqueue-Admitted c input assets t t' now h =
    elim (Option-cases
      (find (λ (b : Asset). b.id == input.asset && b.organization == input.organization) assets)) [
        | inl e ↦ absurd (ground (arith, h, e))
        | inr (a, e) ↦ (
          a,
          record {
            owned = e;
            supported = ground (arith, h, e);
            applicable = ground (arith, h, e);
            active = ground (arith, h, e);
            authorized = ground (arith, h, e);
            verified = ground (arith, h, e);
            alone = find-none (occupies input.asset input.type) t.rows (ground (arith, h, e));
            within_limit = ground (arith, h, e);
          },
          ground (arith, h, e),
        )
      ]

-- No eligible scan comes before this one.
abbrev pub IsFirst : ℕ → List Scan → Scan → List Scan → Type 0
IsFirst maximum all_rows s rows =
    All (λ r. is_eligible maximum all_rows r ≡ true → comes_before r s ≡ false) rows

not_before_trans :
    (u s r : Scan) → comes_before u s ≡ false → comes_before s r ≡ false → comes_before u r ≡ false
not_before_trans u s r h k = ground (arith, h, k)

before_asym : (r s : Scan) → comes_before s r ≡ true → comes_before r s ≡ false
before_asym r s h = ground (arith, h)

before_irrefl : (r : Scan) → comes_before r r ≡ false
before_irrefl r = ground arith

IsFirst-trans :
    (maximum : ℕ) (all_rows : List Scan) (s r : Scan) (rows : List Scan)
    → comes_before s r ≡ false
    → IsFirst maximum all_rows s rows
    → IsFirst maximum all_rows r rows
IsFirst-trans maximum all_rows s r [] h k = tt
IsFirst-trans maximum all_rows s r (u ∷ us) h k =
    (λ e. not_before_trans u s r (k.0 e) h, IsFirst-trans maximum all_rows s r us h k.1)

some_better : (r : Scan) (o : Option Scan) → better r o ≢ none
some_better r none h = cc
some_better r (some s) h = ground (arith, h)

none-IsFirst :
    (maximum : ℕ) (all_rows : List Scan) (s : Scan) (rows : List Scan)
    → next_scan maximum all_rows rows ≡ none
    → IsFirst maximum all_rows s rows
unfolding next_scan
none-IsFirst maximum all_rows s [] h = tt
none-IsFirst maximum all_rows s (r ∷ rs) h = (
  λ e. absurd (some_better r (next_scan maximum all_rows rs) (ground (arith, h, e))),
  none-IsFirst maximum all_rows s rs
      (ground (arith, h, some_better r (next_scan maximum all_rows rs))),
)

-- The choice either stays with the rest of the list or falls on its head.
abbrev Chooses : ℕ → List Scan → Scan → List Scan → Scan → Type 0
Chooses maximum all_rows r rs s =
    ((next_scan maximum all_rows rs ≡ some s)
      × (is_eligible maximum all_rows r ≡ true → comes_before s r ≡ true))
    ⊎ ((s ≡ r)
        × (is_eligible maximum all_rows r ≡ true)
        × ((next_scan maximum all_rows rs ≡ none)
            ⊎ ((u : Scan) × (next_scan maximum all_rows rs ≡ some u) × (comes_before u r ≡ false))))

next_scan-cons :
    (maximum : ℕ) (all_rows : List Scan) (r : Scan) (rs : List Scan) (s : Scan)
    → next_scan maximum all_rows (r ∷ rs) ≡ some s
    → Chooses maximum all_rows r rs s
unfolding next_scan
next_scan-cons maximum all_rows r rs s h = elim (Bool-cases (is_eligible maximum all_rows r)) [
  | inr out ↦ inl (rw (out, next_scan) at h, λ e. cc)
  | inl fit ↦ elim (Option-cases (next_scan maximum all_rows rs)) [
    | inl nothing ↦ inr (some-eq r s (rw (fit, nothing, next_scan) at h), fit, inl nothing)
    | inr (u, rest) ↦ elim (Bool-cases (comes_before u r)) [
      | inl before ↦
          let same : u ≡ s = sym (some-eq u s (rw (fit, rest, before, next_scan) at h)) in
          inl (rest ∙ ap some same, λ e. subst (λ z. comes_before z r ≡ true) same before)
      | inr after ↦
          inr (some-eq r s (rw (fit, rest, after, next_scan) at h), fit, inr (u, rest, after))
    ]
  ]
]
  where
    some-eq : (x y : Scan) → some x ≡ some y → y ≡ x
    some-eq x y e = cc

-- The chosen scan is eligible and no eligible scan comes before it.
pub next_scan-IsFirst :
    (maximum : ℕ) (all_rows rows : List Scan) (s : Scan)
    → next_scan maximum all_rows rows ≡ some s
    → (is_eligible maximum all_rows s ≡ true) × IsFirst maximum all_rows s rows
unfolding next_scan
next_scan-IsFirst maximum all_rows [] s h = absurd (ground arith)
next_scan-IsFirst maximum all_rows (r ∷ rs) s h = elim (next_scan-cons maximum all_rows r rs s h) [
  | inl (rest, before) ↦
      let (good, first) = next_scan-IsFirst maximum all_rows rs s rest in
      (good, (λ e. before_asym r s (before e), first))
  | inr (same, fit, inl nothing) ↦
      subst (λ z. (is_eligible maximum all_rows z ≡ true) × IsFirst maximum all_rows z (r ∷ rs))
        (sym same) (fit, (λ e. before_irrefl r, none-IsFirst maximum all_rows r rs nothing))
  | inr (same, fit, inr (u, rest, after)) ↦
      let (good, first) = next_scan-IsFirst maximum all_rows rs u rest in
      subst (λ z. (is_eligible maximum all_rows z ≡ true) × IsFirst maximum all_rows z (r ∷ rs))
        (sym same) (fit, (λ e. before_irrefl r, IsFirst-trans maximum all_rows u r rs after first))
]

-- The minute of the request decides; in the same minute, the place of the type in the pipeline;
-- of the same type, the time.
abbrev pub GoesFirst : Scan → Scan → Type 0
GoesFirst s r =
    (s.created_at / 60000 < r.created_at / 60000)
    ⊎ ((s.created_at / 60000 ≡ r.created_at / 60000)
        × ((type_priority s.type < type_priority r.type)
            ⊎ ((type_priority s.type ≡ type_priority r.type) × (s.created_at ≤ r.created_at))))

-- A waiting scan, of an organization with less than so many running scans in the table.
abbrev pub MayStart : ℕ → List Scan → Scan → Type 0
MayStart maximum rows r =
    (r.status ≡ ScanStatus.pending)
    × (count_if
          (λ (x : Scan).
            x.organization == r.organization && same_scan_status x.status ScanStatus.running)
          rows
        < maximum)

GoesFirst-none : (s r : Scan) → comes_before r s ≡ false → GoesFirst s r
GoesFirst-none s r h = ground (arith, h)

All-GoesFirst :
    (maximum : ℕ) (all_rows : List Scan) (s : Scan) (rows : List Scan)
    → IsFirst maximum all_rows s rows
    → All (λ r. MayStart maximum all_rows r → GoesFirst s r) rows
All-GoesFirst maximum all_rows s [] h = tt
All-GoesFirst maximum all_rows s (r ∷ rs) h = (
  λ fits. GoesFirst-none s r (h.0 (ground (arith, fits))),
  All-GoesFirst maximum all_rows s rs h.1,
)

-- What a worker claims waits and its organization has less running scans than its limit; of all the
-- scans of the table of which this is true, it is the first: by the minute of the request, then by
-- the place of its type in the pipeline, then by the time.
pub next_scan-first :
    (maximum : ℕ) (rows : List Scan) (s : Scan)
    → next_scan maximum rows rows ≡ some s
    → MayStart maximum rows s × All (λ r. MayStart maximum rows r → GoesFirst s r) rows
next_scan-first maximum rows s h =
    let (good, first) = next_scan-IsFirst maximum rows rows s h in
    (ground (arith, good), All-GoesFirst maximum rows s rows first)

next_scan-lt :
    (maximum : ℕ) (all_rows : List Scan) (n : ℕ) (rs : List Scan) (s : Scan)
    → Below scan_id n rs
    → next_scan maximum all_rows rs ≡ some s
    → s.id < n
unfolding next_scan
next_scan-lt maximum all_rows n [] s b h = absurd (ground arith)
next_scan-lt maximum all_rows n (r ∷ rs) s b h = elim (next_scan-cons maximum all_rows r rs s h) [
  | inl (rest, _) ↦ omega (arith, next_scan-lt maximum all_rows r.id rs s b.1 rest, b.0)
  | inr (same, _, _) ↦ rw same b.0
]

-- The claimed scan is the row of its identifier.
pub next_scan-row :
    (maximum : ℕ) (all_rows : List Scan) (n : ℕ) (rs : List Scan) (s : Scan)
    → Below scan_id n rs
    → next_scan maximum all_rows rs ≡ some s
    → row scan_id s.id rs ≡ some s
unfolding next_scan row
next_scan-row maximum all_rows n [] s b h = absurd (ground arith)
next_scan-row maximum all_rows n (r ∷ rs) s b h = elim (next_scan-cons maximum all_rows r rs s h) [
  | inl (rest, _) ↦ ground (
    arith,
    next_scan-lt maximum all_rows r.id rs s b.1 rest,
    next_scan-row maximum all_rows r.id rs s b.1 rest,
  )
  | inr (same, _, _) ↦ rw same (ground arith)
]
