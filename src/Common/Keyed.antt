-- ===== src/Common/Keyed.antt =====
-- A table whose rows carry a numeric identifier, newest row first: lookup, update and counts.
use Prim.Native.Nat.{ℕ, suc, ◌≤◌, ◌<◌}
use mathlib.Core.Path.{◌≡◌, refl, subst}
use mathlib.Core.Logic.{inl, inr}
use mathlib.Core.Bool.{Bool, true}
use mathlib.Core.Option.{Option, none, some}
use mathlib.Core.List.{List, [], ◌∷◌, map}
use native.Mathlib.Omega.{arith}
use sistema_de_gestion_de_po.Common.Tests.{if◌then◌else◌, ◌==◌, Bool-cases}
use sistema_de_gestion_de_po.Common.Lists.{count_if, opt_map}

module _ {A : Type 0} (key : A → ℕ) where
  unfoldable pub row : ℕ → List A → Option A
  row i [] = none
  row i (r ∷ rs) = if key r == i then some r else row i rs

  unfoldable pub update : ℕ → (A → A) → List A → List A
  update i f [] = []
  update i f (r ∷ rs) = (if key r == i then f r else r) ∷ update i f rs

  -- Identifiers fall along the table and stay below the bound.
  abbrev pub Below : ℕ → List A → Type 0
  Below n [] = Unit {0}
  Below n (r ∷ rs) = (key r < n) × Below (key r) rs

  abbrev pub KeepsKey : (A → A) → Type 0
  KeepsKey f = (r : A) → key (f r) ≡ key r

  pub row-map :
      (i : ℕ) (f : A → A) (rs : List A) → KeepsKey f → row i (map f rs) ≡ opt_map f (row i rs)
  unfolding row
  row-map i f [] keeps = refl
  row-map i f (r ∷ rs) keeps = ground (arith, keeps r, row-map i f rs keeps)

  pub row-update :
      (i j : ℕ) (f : A → A) (rs : List A)
      → KeepsKey f
      → row i (update j f rs) ≡ (if i == j then opt_map f (row i rs) else row i rs)
  unfolding row update
  row-update i j f [] keeps = ground arith
  row-update i j f (r ∷ rs) keeps = ground (arith, keeps r, row-update i j f rs keeps)

  row-lt : (i n : ℕ) (rs : List A) (r : A) → Below n rs → row i rs ≡ some r → i < n
  unfolding row
  row-lt i n [] r b h = absurd (ground arith)
  row-lt i n (x ∷ rs) r b h = ground (arith, row-lt i (key x) rs r b.1)

  -- A row that is added with a fresh identifier hides no other.
  pub row-cons :
      (i n : ℕ) (x : A) (rs : List A) (r : A)
      → Below n rs
      → key x ≡ n
      → row i rs ≡ some r
      → row i (x ∷ rs) ≡ some r
  unfolding row
  row-cons i n x rs r b e h = ground (arith, row-lt i n rs r b h)

  pub map-Below : (n : ℕ) (f : A → A) (rs : List A) → KeepsKey f → Below n rs → Below n (map f rs)
  map-Below n f [] keeps b = tt
  map-Below n f (r ∷ rs) keeps b = ground (arith, keeps r, map-Below (key r) f rs keeps b.1)

  pub update-Below :
      (j n : ℕ) (f : A → A) (rs : List A) → KeepsKey f → Below n rs → Below n (update j f rs)
  unfolding update
  update-Below j n f [] keeps b = tt
  update-Below j n f (r ∷ rs) keeps b =
      ground (arith, keeps r, update-Below j (key r) f rs keeps b.1)

  update-absent : (j n : ℕ) (f : A → A) (rs : List A) → Below n rs → n ≤ j → update j f rs ≡ rs
  unfolding update
  update-absent j n f [] b h = refl
  update-absent j n f (r ∷ rs) b h = ground (arith, update-absent j (key r) f rs b.1)

  -- An update of one row moves a count by at most one, and by none where the row's new value only
  -- passes the test if its old value did.
  pub count-update :
      (p : A → Bool) (j n : ℕ) (f : A → A) (rs : List A)
      → Below n rs
      → count_if p (update j f rs) ≤ suc (count_if p rs)
  unfolding update
  count-update p j n f [] b = omega arith
  count-update p j n f (r ∷ rs) b =
      ground (arith, count-update p j (key r) f rs b.1, update-absent j (key r) f rs b.1)

  pub count-update-row :
      (p : A → Bool) (j n : ℕ) (f : A → A) (rs : List A) (x : A)
      → Below n rs
      → row j rs ≡ some x
      → (p (f x) ≡ true → p x ≡ true)
      → count_if p (update j f rs) ≤ count_if p rs
  unfolding update row
  count-update-row p j n f [] x b e h = omega arith
  count-update-row p j n f (r ∷ rs) x b e h = elim (Bool-cases (key r == j)) [
    | inl same ↦
        let here : p (f r) ≡ true → p r ≡ true =
          subst (λ y. p (f y) ≡ true → p y ≡ true) (ground (arith, e, same)) h in
        ground (arith, same, here, update-absent j (key r) f rs b.1)
    | inr other ↦ ground (arith, other, e, count-update-row p j (key r) f rs x b.1)
  ]

-- A count does not grow under an update whose values only pass the test if the old ones did.
pub count-update-le :
    {A : Type 0} (key : A → ℕ) (p : A → Bool) (j : ℕ) (f : A → A) (rs : List A)
    → ((r : A) → p (f r) ≡ true → p r ≡ true)
    → count_if p (update key j f rs) ≤ count_if p rs
unfolding update
count-update-le key p j f [] h = omega arith
count-update-le key p j f (r ∷ rs) h = ground (arith, h r, count-update-le key p j f rs h)

-- A count does not grow under a map whose values only pass the test if the old ones did.
pub count-map {ℓ} :
    {A : Type ℓ} (p : A → Bool) (f : A → A) (rs : List A)
    → ((r : A) → p (f r) ≡ true → p r ≡ true)
    → count_if p (map f rs) ≤ count_if p rs
count-map p f [] h = omega arith
count-map p f (r ∷ rs) h = ground (arith, h r, count-map p f rs h)
