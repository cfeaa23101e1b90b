-- ===== src/Findings/Rows.antt =====
-- Laws of the findings table: a row is found by its identifier, and an update touches one row.
use mathlib.Core.Path.{subst}
use sistema_de_gestion_de_po.Common.{
  ℕ, ◌≤◌, ◌<◌, ◌≡◌, refl, Bool, true, some, List, [], ◌∷◌, map, if◌then◌else◌, ◌==◌, find, any, All,
  opt_map, arith, Bool-cases, inl, inr,
}
use sistema_de_gestion_de_po.Findings.{Finding, update_row, row, Below}

abbrev pub KeepsId : (Finding → Finding) → Type 0
KeepsId f = (r : Finding) → (f r).id ≡ r.id

pub row-update :
    (i j : ℕ) (f : Finding → Finding) (rs : List Finding)
    → KeepsId f
    → row i (update_row j f rs) ≡ (if i == j then opt_map f (row i rs) else row i rs)
unfolding row update_row
row-update i j f [] keeps = ground arith
row-update i j f (r ∷ rs) keeps = ground (arith, keeps r, row-update i j f rs keeps)

pub row-map :
    (i : ℕ) (f : Finding → Finding) (rs : List Finding)
    → KeepsId f
    → row i (map f rs) ≡ opt_map f (row i rs)
unfolding row
row-map i f [] keeps = refl
row-map i f (r ∷ rs) keeps = ground (arith, keeps r, row-map i f rs keeps)

row-lt : (i n : ℕ) (rs : List Finding) (r : Finding) → Below n rs → row i rs ≡ some r → i < n
unfolding row
row-lt i n [] r b h = absurd (ground arith)
row-lt i n (x ∷ rs) r b h = ground (arith, row-lt i x.id rs r b.1)

pub row-fresh :
    (n : ℕ) (i : ℕ) (rs : List Finding) (r : Finding)
    → Below n rs
    → row i rs ≡ some r
    → (n == i) ≡ Bool.false
row-fresh n i rs r b h = ground (arith, row-lt i n rs r b h)

find-lt :
    (p : Finding → Bool) (n : ℕ) (rs : List Finding) (r : Finding)
    → Below n rs
    → find p rs ≡ some r
    → r.id < n
find-lt p n [] r b h = absurd (ground arith)
find-lt p n (x ∷ rs) r b h = ground (arith, find-lt p x.id rs r b.1)

-- What a search finds is the row of its identifier, and passes the test.
pub find-row :
    (p : Finding → Bool) (n : ℕ) (rs : List Finding) (r : Finding)
    → Below n rs
    → find p rs ≡ some r
    → (row r.id rs ≡ some r) × (p r ≡ true)
unfolding row
find-row p n [] r b h = absurd (ground arith)
find-row p n (x ∷ rs) r b h = ground (arith, find-row p x.id rs r b.1, find-lt p x.id rs r b.1)

pub update-Below :
    (j n : ℕ) (f : Finding → Finding) (rs : List Finding)
    → KeepsId f
    → Below n rs
    → Below n (update_row j f rs)
unfolding update_row
update-Below j n f [] keeps b = tt
update-Below j n f (r ∷ rs) keeps b = ground (arith, keeps r, update-Below j r.id f rs keeps b.1)

pub map-Below :
    (n : ℕ) (f : Finding → Finding) (rs : List Finding)
    → KeepsId f
    → Below n rs
    → Below n (map f rs)
map-Below n f [] keeps b = tt
map-Below n f (r ∷ rs) keeps b = ground (arith, keeps r, map-Below r.id f rs keeps b.1)

-- A predicate on rows that the new row of an update has again holds after it.
pub All-update :
    (P : Finding → Type 0) (j : ℕ) (f : Finding → Finding) (rs : List Finding)
    → ((r : Finding) → P r → P (f r))
    → All P rs
    → All P (update_row j f rs)
unfolding update_row
All-update P j f [] step h = tt
All-update P j f (r ∷ rs) step h = (
  elim (Bool-cases (r.id == j)) [ inl e ↦ rw e (step r h.0) | inr e ↦ rw e h.0 ],
  All-update P j f rs step h.1,
)

pub All-map :
    (P : Finding → Type 0) (f : Finding → Finding) (rs : List Finding)
    → ((r : Finding) → P r → P (f r))
    → All P rs
    → All P (map f rs)
All-map P f [] step h = tt
All-map P f (r ∷ rs) step h = (step r h.0, All-map P f rs step h.1)

-- A row that passes a test passes it after an update that keeps the test, and so does the updated
-- row when it comes to pass it.
pub any-update :
    (p : Finding → Bool) (j : ℕ) (f : Finding → Finding) (rs : List Finding)
    → ((r : Finding) → p r ≡ true → p (f r) ≡ true)
    → any p rs ≡ true
    → any p (update_row j f rs) ≡ true
unfolding update_row
any-update p j f [] step h = h
any-update p j f (r ∷ rs) step h = ground (arith, step r, any-update p j f rs step)

pub any-update_found :
    (p q : Finding → Bool) (f : Finding → Finding) (rs : List Finding) (r : Finding)
    → find q rs ≡ some r
    → p (f r) ≡ true
    → any p (update_row r.id f rs) ≡ true
unfolding update_row
any-update_found p q f [] r h k = cc
any-update_found p q f (x ∷ rs) r h k = ground (arith, any-update_found p q f rs r)

pub any-map :
    (p : Finding → Bool) (f : Finding → Finding) (rs : List Finding)
    → ((r : Finding) → p r ≡ true → p (f r) ≡ true)
    → any p rs ≡ true
    → any p (map f rs) ≡ true
any-map p f [] step h = h
any-map p f (r ∷ rs) step h = ground (arith, step r, any-map p f rs step)

update-absent :
    (j n : ℕ) (f : Finding → Finding) (rs : List Finding)
    → Below n rs
    → n ≤ j
    → update_row j f rs ≡ rs
unfolding update_row
update-absent j n f [] b h = refl
update-absent j n f (r ∷ rs) b h = ground (arith, update-absent j r.id f rs b.1)

-- An update keeps a predicate of all rows where the new row has it.
pub All-update_row :
    (P : Finding → Type 0) (j n : ℕ) (f : Finding → Finding) (rs : List Finding) (x : Finding)
    → Below n rs
    → row j rs ≡ some x
    → P (f x)
    → All P rs
    → All P (update_row j f rs)
unfolding row update_row
All-update_row P j n f [] x b e new h = tt
All-update_row P j n f (r ∷ rs) x b e new h = elim (Bool-cases (r.id == j)) [
  | inl same ↦ rw same (
    subst (λ y. P (f y)) (ground (arith, e, same)) new,
    rw (update-absent j r.id f rs b.1 (ground (arith, same))) h.1,
  )
  | inr other ↦
      rw other (h.0, All-update_row P j r.id f rs x b.1 (ground (arith, e, other)) new h.1)
]

pub row-All :
    (P : Finding → Type 0) (i : ℕ) (rs : List Finding) (r : Finding)
    → All P rs
    → row i rs ≡ some r
    → P r
unfolding row
row-All P i [] r h e = absurd (ground arith)
row-All P i (x ∷ rs) r h e = elim (Bool-cases (x.id == i)) [
  | inl same ↦ subst P (ground (arith, e, same)) h.0
  | inr other ↦ row-All P i rs r h.1 (ground (arith, e, other))
]
