-- ===== src/Diagnostics/Diff/Partition.antt =====
-- How the findings of two diagnostics are told apart
-- (backend/src/scans/diagnostic-orchestrator.service.ts, `getPostureDiff`).
use sistema_de_gestion_de_po.Common.{
  ℕ, ◌+◌, ◌≡◌, refl, Bool, true, false, not, String, List, [], ◌∷◌, map, keep, All, count_if, arith,
  Bool-cases, inl, inr,
}
use sistema_de_gestion_de_po.Domain.{Status}
use sistema_de_gestion_de_po.Diagnostics.Summary.{PostureFinding}
use sistema_de_gestion_de_po.Diagnostics.Diff.{has_fingerprint, compare_findings}

keep-All :
    (p : PostureFinding → Bool) (fs : List PostureFinding) → All (λ f. p f ≡ true) (keep p fs)
keep-All p [] = tt
keep-All p (f ∷ fs) = elim (Bool-cases (p f)) [
  | inl e ↦ rw e (e, keep-All p fs)
  | inr e ↦ rw e (keep-All p fs)
]

not-All :
    (p : PostureFinding → Bool) (fs : List PostureFinding)
    → All (λ f. not (p f) ≡ true) fs
    → All (λ f. p f ≡ false) fs
not-All p [] h = tt
not-All p (f ∷ fs) (e, h) = (ground (arith, e), not-All p fs h)

count-split :
    (q p : PostureFinding → Bool) (fs : List PostureFinding)
    → count_if q (keep (λ f. not (p f)) fs) + count_if q (keep p fs) ≡ count_if q fs
count-split q p [] = refl
count-split q p (f ∷ fs) = ground (arith, count-split q p fs)

resolved-All :
    (p : String → Bool) (fs : List PostureFinding)
    → All (λ (f : PostureFinding). p f.fingerprint ≡ false) fs
    → All
        (λ (f : PostureFinding). (p f.fingerprint ≡ false) × (f.status ≡ Status.resolved))
        (map (λ (f : PostureFinding). record f { status = Status.resolved }) fs)
resolved-All p [] h = tt
resolved-All p (f ∷ fs) (e, h) = ((e, refl), resolved-All p fs h)

-- The later findings are the new and the persistent ones, whatever is counted of them; the new
-- ones were not among the earlier, the persistent ones were, and the remediated ones are not among
-- the later and are resolved.
pub compare_findings-partition :
    (from to : List PostureFinding) (q : PostureFinding → Bool)
    → let d = compare_findings from to in
      (count_if q d.new_findings + count_if q d.persistent_findings ≡ count_if q to)
      × All (λ (f : PostureFinding). has_fingerprint f.fingerprint from ≡ false) d.new_findings
      × All
          (λ (f : PostureFinding). has_fingerprint f.fingerprint from ≡ true)
          d.persistent_findings
      × All
          (λ (f : PostureFinding).
            (has_fingerprint f.fingerprint to ≡ false) × (f.status ≡ Status.resolved))
          d.remediated_findings
unfolding compare_findings
compare_findings-partition from to q = (
  count-split q (λ (f : PostureFinding). has_fingerprint f.fingerprint from) to,
  not-All (λ (f : PostureFinding). has_fingerprint f.fingerprint from) _
      (keep-All (λ (f : PostureFinding). not (has_fingerprint f.fingerprint from)) to),
  keep-All (λ (f : PostureFinding). has_fingerprint f.fingerprint from) to,
  resolved-All (λ p. has_fingerprint p to) _
      (not-All (λ (f : PostureFinding). has_fingerprint f.fingerprint to) _
        (keep-All (λ (f : PostureFinding). not (has_fingerprint f.fingerprint to)) from)),
)

-- No two findings of one diagnostic have the same fingerprint.
abbrev pub Distinct : List PostureFinding → Type 0
Distinct [] = Unit
Distinct (f ∷ fs) = (has_fingerprint f.fingerprint fs ≡ false) × Distinct fs

abbrev common : List PostureFinding → List PostureFinding → ℕ
common xs ys = count_if (λ (f : PostureFinding). has_fingerprint f.fingerprint ys) xs
