-- ===== src/Scans/Steps/Moves.antt =====
-- How one step moves each scan: only along the life cycle, and never out of its end.
use sistema_de_gestion_de_po.Common.{
  ℕ, ◌≡◌, refl, Bool, true, false, some, List, map, if◌then◌else◌, arith, Bool-cases, inl, inr,
}
use sistema_de_gestion_de_po.Common.Keyed.{row, row-map}
use sistema_de_gestion_de_po.Domain.{ScanStatus}
use sistema_de_gestion_de_po.Scans.{Scan, scan_id, in_progress}

-- The life cycle.
abbrev pub may_become : ScanStatus → ScanStatus → Bool
may_become ScanStatus.pending ScanStatus.pending = true
may_become ScanStatus.pending ScanStatus.running = true
may_become ScanStatus.pending ScanStatus.cancelled = true
may_become ScanStatus.running s = true
may_become ScanStatus.completed ScanStatus.completed = true
may_become ScanStatus.failed ScanStatus.failed = true
may_become ScanStatus.cancelled ScanStatus.cancelled = true
may_become _ _ = false

pub record Evolves (r r' : Scan) : Type 0 where
  pub same_id : r'.id ≡ r.id
  pub same_organization : r'.organization ≡ r.organization
  pub same_asset : r'.asset ≡ r.asset
  pub same_type : r'.type ≡ r.type
  pub same_source : r'.source ≡ r.source
  pub same_batch : r'.batch ≡ r.batch
  pub same_created : r'.created_at ≡ r.created_at
  pub moved : may_become r.status r'.status ≡ true
  -- of a scan that has ended only the address of its target is written
  pub ended : in_progress r.status ≡ false → r' ≡ record r { target_address = r'.target_address }

pub Evolves-refl : (r : Scan) → Evolves r r
Evolves-refl r = ground arith

-- A write that starts no scan.
pub record Calm (r r' : Scan) : Type 0 where
  pub evolves : Evolves r r'
  pub not_started : r'.status ≡ ScanStatus.running → r.status ≡ ScanStatus.running

abbrev pub Preserves : List Scan → List Scan → Type 0
Preserves rs rs' =
    (i : ℕ) (r : Scan)
    → row scan_id i rs ≡ some r
    → (r' : Scan) × (row scan_id i rs' ≡ some r') × Evolves r r'

pub Preserves-refl : (rs : List Scan) → Preserves rs rs
Preserves-refl rs i r e = (r, e, Evolves-refl r)

-- A guarded write on the rows of a status.
pub where-Calm :
    (p : Scan → Bool) (f : Scan → Scan)
    → ((r : Scan) → p r ≡ true → Calm r (f r))
    → (r : Scan) → Calm r (if p r then f r else r)
where-Calm p f h r = elim (Bool-cases (p r)) [
  | inl e ↦ rw e (h r e)
  | inr e ↦ rw e (record { evolves = Evolves-refl r; not_started = λ k. k })
]

pub map-Preserves :
    (f : Scan → Scan) (rs : List Scan) → ((r : Scan) → Calm r (f r)) → Preserves rs (map f rs)
map-Preserves f rs calm i r e =
    (f r, rw (row-map scan_id i f rs (λ s. (calm s).evolves.same_id), e) refl, (calm r).evolves)
