-- ===== src/Risk/Organization.antt =====
-- What the score of an organization is bounded by, that the two ways to score an asset agree, and
-- that closing findings never lowers a score (backend/src/risk/risk-scores.service.ts).
use sistema_de_gestion_de_po.Common.{
  ℕ, ◌+◌, ◌≤◌, ◌≡◌, ◌≢◌, refl, ◌⊎◌, inl, inr, Bool, true, ◌&&◌, not, Option, none, some, List, [],
  ◌∷◌, map, ◌==◌, keep, All, arith, Bool-cases, round_div,
}
use sistema_de_gestion_de_po.Common.Keyed.{count-map}
use sistema_de_gestion_de_po.Domain.{same_severity}
use sistema_de_gestion_de_po.Findings.{Finding, is_active}
use sistema_de_gestion_de_po.Scans.{Scan}
use sistema_de_gestion_de_po.Scoring.{fill_counts, aggregate_scores}
use sistema_de_gestion_de_po.Scoring.Bounds.{aggregate_scores_bounds}
use sistema_de_gestion_de_po.Scoring.Monotone.{more_findings_lower_score}
use sistema_de_gestion_de_po.Risk.{
  AssetRow, AssetScoreState, open_counts, compute_asset, is_cloud, score_of, organization_score,
  hybrid_score,
}

-- The scores that the mean of a side reads lie between the same bounds.
side-bounds :
    (lo hi : ℕ) (p : AssetScoreState → Bool) (ss : List AssetScoreState)
    → All (λ s. (lo ≤ score_of s) × (score_of s ≤ hi)) ss
    → All (λ n. (lo ≤ n) × (n ≤ hi)) (map score_of (keep p ss))
side-bounds lo hi p [] h = tt
side-bounds lo hi p (s ∷ ss) h = elim (Bool-cases (p s)) [
  | inl e ↦ rw e (h.0, side-bounds lo hi p ss h.1)
  | inr e ↦ rw e (side-bounds lo hi p ss h.1)
]

-- A mean is absent, or within the bounds.
abbrev IsWithin : ℕ → ℕ → Option ℕ → Type 0
IsWithin lo hi o = (m : ℕ) × (o ≡ some m) × (lo ≤ m) × (m ≤ hi)

mean-cases :
    (lo hi : ℕ) (ns : List ℕ)
    → All (λ n. (lo ≤ n) × (n ≤ hi)) ns
    → ((ns ≡ []) × (aggregate_scores ns ≡ none)) ⊎ IsWithin lo hi (aggregate_scores ns)
unfolding aggregate_scores
mean-cases lo hi [] h = inl (refl, refl)
mean-cases lo hi (n ∷ ns) h = inr (aggregate_scores_bounds lo hi (n ∷ ns) h (λ e. cc))

-- One of the two sides has an asset.
some_side :
    (s : AssetScoreState) (ss : List AssetScoreState)
    → map score_of (keep (λ a. not (is_cloud a)) (s ∷ ss)) ≡ []
    → map score_of (keep is_cloud (s ∷ ss)) ≡ []
    → ⊥
some_side s ss h k = elim (Bool-cases (is_cloud s)) [
  | inl e ↦ ground (arith, k, e)
  | inr e ↦ ground (arith, h, e)
]

scored-bounds :
    (lo hi : ℕ) (ss : List AssetScoreState)
    → All (λ s. (lo ≤ score_of s) × (score_of s ≤ hi)) ss
    → ss ≢ []
    → IsWithin lo hi (
        hybrid_score
          (aggregate_scores (map score_of (keep (λ a. not (is_cloud a)) ss)))
          (aggregate_scores (map score_of (keep is_cloud ss))))
unfolding hybrid_score
scored-bounds lo hi [] h some_scored = absurd (some_scored refl)
scored-bounds lo hi (s ∷ ss) h some_scored =
    let perimeter = map score_of (keep (λ a. not (is_cloud a)) (s ∷ ss)) in
    let cloud = map score_of (keep is_cloud (s ∷ ss)) in
    let left = mean-cases lo hi perimeter (side-bounds lo hi (λ a. not (is_cloud a)) (s ∷ ss) h) in
    let right = mean-cases lo hi cloud (side-bounds lo hi is_cloud (s ∷ ss) h) in
    elim left [
      | inl (no_perimeter, e) ↦ elim right [
        | inl (no_cloud, _) ↦ absurd (some_side s ss no_perimeter no_cloud)
        | inr (m, k, low, high) ↦ (m, rw (e, k) refl, low, high)
      ]
      | inr (m, e, low, high) ↦ elim right [
        | inl (_, k) ↦ (m, rw (e, k) refl, low, high)
        | inr (n, k, low', high') ↦ (round_div (m + n) 2, rw (e, k) refl, omega arith, omega arith)
      ]
    ]

-- With at least one scored asset the organization has a score, between the least and the greatest of
-- the scores of its scored assets, whether these are of the perimeter, of the cloud or of both.
pub organization_score-bounds :
    (lo hi : ℕ) (states : List AssetScoreState)
    → All
        (λ s. (lo ≤ score_of s) × (score_of s ≤ hi))
        (keep (λ (s : AssetScoreState). s.scored) states)
    → keep (λ (s : AssetScoreState). s.scored) states ≢ []
    → (m : ℕ) × ((organization_score states).score ≡ some m) × (lo ≤ m) × (m ≤ hi)
unfolding organization_score
organization_score-bounds lo hi states h some_scored =
    scored-bounds lo hi (keep (λ (s : AssetScoreState). s.scored) states) h some_scored

-- Whatever closes findings and opens none never lowers the score of an asset: the findings keep
-- their organization, asset and severity, and none becomes active.
pub closing_raises_score :
    (organization asset : ℕ) (assets : List AssetRow) (scans : List Scan) (findings : List Finding)
    (change : Finding → Finding)
    → ((f : Finding)
        → ((change f).organization ≡ f.organization)
          × ((change f).asset ≡ f.asset)
          × ((change f).severity ≡ f.severity)
          × (is_active (change f).status ≡ true → is_active f.status ≡ true))
    → score_of (compute_asset organization asset assets findings scans)
      ≤ score_of (compute_asset organization asset assets (map change findings) scans)
unfolding compute_asset fill_counts open_counts
closing_raises_score organization asset assets scans findings change closes =
    more_findings_lower_score _ _ _ (λ s.
      count-map
        (λ f.
          f.organization == organization
          && f.asset == asset
          && is_active f.status
          && same_severity f.severity s)
        change findings (λ f h. ground (arith, closes f, h)))
