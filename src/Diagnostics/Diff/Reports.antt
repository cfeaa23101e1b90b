-- ===== src/Diagnostics/Diff/Reports.antt =====
-- What the comparison of two diagnostics reports of the score and of an accepted risk
-- (backend/src/scans/diagnostic-orchestrator.service.ts, `completeBatch`, `getPostureDiff`).
use sistema_de_gestion_de_po.Common.{
  ℕ, ◌<◌, ◌≤◌, ◌≡◌, refl, ◌↔◌, true, false, not, ◌&&◌, Option, some, String, List, [], ◌∷◌, ◌==◌,
  All, any, keep, map, str_eq, eq_iff, arith,
}
use sistema_de_gestion_de_po.Domain.{Status, same_status}
use sistema_de_gestion_de_po.Findings.{Finding}
use sistema_de_gestion_de_po.Scans.{Scan}
use sistema_de_gestion_de_po.Diagnostics.Summary.{
  Data, Summary, PostureFinding, summary, final_score, open_findings, is_active, snapshot,
}
use sistema_de_gestion_de_po.Diagnostics.Diff.{
  compare, compare_findings, has_fingerprint, improved, degraded, unchanged,
}

-- A score of 0, the worst, is stored as 100 when the diagnostic ends, and the comparison with an
-- earlier diagnostic of a score below 100 reports an improvement.
pub zero_score-improves :
    (d : Data) (asset : ℕ) (scans : List Scan) (grade : Option String) (before : Summary)
    → d.latest_score asset ≡ some (record { score = some 0; grade = grade })
    → before.score.score < 100
    → let diff = compare (some before) (some (summary d asset scans)) in
      (diff.current ≡ 100) × (diff.grade_change ≡ improved)
unfolding compare summary final_score
zero_score-improves d asset scans grade before e low =
    (rw (summary, final_score, e) refl, rw (summary, final_score, e) (ground (arith, low)))

-- A positive score is stored as it is, and the change that is reported is its comparison with the
-- score before.
pub compare-follows_score :
    (d : Data) (asset n : ℕ) (scans : List Scan) (grade : Option String) (before : Summary)
    → d.latest_score asset ≡ some (record { score = some n; grade = grade })
    → 1 ≤ n
    → let diff = compare (some before) (some (summary d asset scans)) in
      (diff.current ≡ n)
      × ((diff.grade_change ≡ improved) ↔ (before.score.score < n))
      × ((diff.grade_change ≡ degraded) ↔ (n < before.score.score))
      × ((diff.grade_change ≡ unchanged) ↔ (n ≡ before.score.score))
unfolding compare summary final_score
compare-follows_score d asset n scans grade before e positive = (
  rw e (ground (arith, positive)),
  rw e (ground (arith, positive)),
  rw e (ground (arith, positive)),
  rw e (ground (arith, positive)),
)

-- Every row with the fingerprint that the asset has is an accepted risk.
abbrev pub IsAccepted : String → ℕ → List Finding → Type 0
IsAccepted p asset rows =
    All (λ (r : Finding). r.fingerprint ≡ p → r.asset ≡ asset → r.status ≡ Status.accepted) rows

accepted_not_open :
    (p : String) (asset : ℕ) (rows : List Finding)
    → IsAccepted p asset rows
    → has_fingerprint p
        (map snapshot (keep (λ (r : Finding). r.asset == asset && is_active r.status) rows))
      ≡ false
accepted_not_open p asset [] h = refl
accepted_not_open p asset (r ∷ rs) h =
    ground (arith, h.0, eq_iff r.fingerprint p, accepted_not_open p asset rs h.1)

gone_resolved :
    (id : ℕ) (p : String) (to from : List PostureFinding)
    → has_fingerprint p to ≡ false
    → any (λ (g : PostureFinding). g.id == id && str_eq g.fingerprint p) from ≡ true
    → any
        (λ (g : PostureFinding).
          g.id == id && str_eq g.fingerprint p && same_status g.status Status.resolved)
        (map
          (λ (g : PostureFinding). record g { status = Status.resolved })
          (keep (λ (g : PostureFinding). not (has_fingerprint g.fingerprint to)) from))
      ≡ true
gone_resolved id p to [] h k = absurd (ground arith)
gone_resolved id p to (g ∷ from) h k =
    ground (arith, h, k, eq_iff g.fingerprint p, gone_resolved id p to from h)

-- A finding of the earlier diagnostic whose rows of the asset are all accepted risks when the later
-- one ends is reported as remediated and RESOLVED, although it is not.
pub accepted-remediated :
    (d : Data) (asset : ℕ) (scans : List Scan) (before : Summary) (id : ℕ) (p : String)
    → any (λ (g : PostureFinding). g.id == id && str_eq g.fingerprint p) before.finding_snapshots
      ≡ true
    → IsAccepted p asset d.findings
    → any
        (λ (g : PostureFinding).
          g.id == id && str_eq g.fingerprint p && same_status g.status Status.resolved)
        (compare (some before) (some (summary d asset scans))).findings.remediated_findings
      ≡ true
unfolding compare compare_findings summary
accepted-remediated d asset scans before id p seen accepted =
    gone_resolved id p (open_findings d asset) before.finding_snapshots
      (accepted_not_open p asset d.findings accepted) seen
