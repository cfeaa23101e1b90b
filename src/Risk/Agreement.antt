-- ===== src/Risk/Agreement.antt =====
-- The score that an asset has on its own is the one that the organization's score is made of
-- (backend/src/risk/risk-scores.service.ts, `computeAsset` and `computeAllAssets`).
use mathlib.Core.Path.{fun_ext}
use sistema_de_gestion_de_po.Common.{
  ℕ, ◌≡◌, ◌≢◌, ◌⊎◌, refl, ap, Bool, true, false, ◌&&◌, ◌||◌, Option, none, some, List, [], ◌∷◌, map,
  ◌==◌, find, keep, All, arith, Bool-cases, inl, inr, opt_map, sym, ◌∙◌,
}
use sistema_de_gestion_de_po.Domain.{Severity, Criticality}
use sistema_de_gestion_de_po.Findings.{Finding}
use sistema_de_gestion_de_po.Scans.{Scan}
use sistema_de_gestion_de_po.Scoring.{compute_score}
use sistema_de_gestion_de_po.Risk.{
  AssetRow, AssetScoreState, open_counts, is_scored, compute_asset, compute_all_assets,
  asset_counts, given, is_scanned_cloud,
}

-- The findings of the asset belong to the organization.
abbrev pub AreOwned : ℕ → ℕ → List Finding → Type 0
AreOwned organization asset findings =
    All (λ f. (f.asset ≢ asset) ⊎ (f.organization ≡ organization)) findings

same_count :
    (organization asset : ℕ) (findings : List Finding) (s : Severity)
    → AreOwned organization asset findings
    → open_counts organization (some asset) findings s ≡ asset_counts asset findings s
unfolding open_counts
same_count organization asset [] s h = refl
same_count organization asset (f ∷ fs) s h =
    ground (arith, h.0, same_count organization asset fs s h.1)

-- The state that `computeAllAssets` makes of a row.
abbrev state_of : List Finding → List Scan → AssetRow → AssetScoreState
state_of findings scans a = record {
  asset = a.id;
  asset_type = some a.type;
  scored = is_scored a.id scans || is_scanned_cloud a;
  result = compute_score (given (asset_counts a.id findings)) a.criticality;
}

found :
    (p : AssetRow → Bool) (g : AssetRow → AssetScoreState) (i : ℕ) (rows : List AssetRow)
    (a : AssetRow)
    → ((b : AssetRow) → (g b).asset ≡ b.id)
    → find (λ (b : AssetRow). b.id == i) rows ≡ some a
    → p a ≡ true
    → find (λ (s : AssetScoreState). s.asset == i) (map g (keep p rows)) ≡ some (g a)
found p g i [] a keeps at fit = absurd (ground arith)
found p g i (b ∷ bs) a keeps at fit = elim (Bool-cases (b.id == i)) [
  | inl same ↦ ground (arith, at, same, fit, keeps b)
  | inr other ↦ elim (Bool-cases (p b)) [
    | inl e ↦ rw e (ground (arith, other, keeps b, found p g i bs a keeps (rw other at at) fit))
    | inr e ↦ rw e (found p g i bs a keeps (rw other at at) fit)
  ]
]

-- For an active asset of the organization whose findings belong to the organization, the state
-- computed for it alone is its entry in the list that the organization's score is computed from.
pub compute_asset-agrees :
    (organization : ℕ) (a : AssetRow) (assets : List AssetRow) (findings : List Finding)
    (scans : List Scan)
    → find (λ (b : AssetRow). b.id == a.id) assets ≡ some a
    → a.organization ≡ organization
    → a.is_active ≡ true
    → AreOwned organization a.id findings
    → find
        (λ (s : AssetScoreState). s.asset == a.id)
        (compute_all_assets organization assets findings scans)
      ≡ some (compute_asset organization a.id assets findings scans)
unfolding compute_all_assets compute_asset
compute_asset-agrees organization a assets findings scans at owned active all_owned =
    found (λ (b : AssetRow). b.organization == organization && b.is_active)
      (state_of findings scans) a.id assets a (λ b. refl) at (ground (arith, owned, active))
    ∙ ap some (alone (find (λ (b : AssetRow). b.id == a.id) assets) at)
  where
    counts : asset_counts a.id findings ≡ open_counts organization (some a.id) findings
    counts = fun_ext (λ s. sym (same_count organization a.id findings s all_owned))

    alone :
        (row : Option AssetRow)
        → row ≡ some a
        → state_of findings scans a ≡ record {
          asset = a.id;
          asset_type = opt_map (λ (b : AssetRow). b.type) row;
          scored = is_scored a.id scans || elim row [ none ↦ false | some b ↦ is_scanned_cloud b ];
          result =
              compute_score
                (given (open_counts organization (some a.id) findings))
                (elim row [ none ↦ Criticality.medium | some b ↦ b.criticality ]);
        }
    alone row e = rw (e, counts) refl
