-- ===== src/Findings/Sync/Counts.antt =====
-- What the counts of a synchronisation count (backend/src/findings/findings.service.ts,
-- `syncForScan`).
use sistema_de_gestion_de_po.Common.{
  ℕ, suc, ◌+◌, ◌≡◌, refl, List, [], ◌∷◌, ◌++◌, String, length, arith,
}
use sistema_de_gestion_de_po.Findings.{Table, Rule, ok}
use sistema_de_gestion_de_po.Findings.Sync.Rules.{save_cases, saved, finish_cases, sync_rule}
use sistema_de_gestion_de_po.Findings.Sync.{
  Draft, SyncInput, Progress, OpenedFinding, create, reopen, refresh, finish, resolve,
  sync_for_scan,
}

length-snoc :
    (os : List OpenedFinding) (o : OpenedFinding) → length (os ++ o ∷ []) ≡ suc (length os)
length-snoc [] o = refl
length-snoc (p ∷ ps) o = ground (arith, length-snoc ps o)

module _ (fingerprint : String → String → String) (cut : ℕ → String → String) (now : ℕ)
    (rules : List Rule) (input : SyncInput) where
  -- What the counts of the loop say of its other variables.
  Counted : Progress → Type 0
  Counted p =
      (p.result.created + p.result.reopened ≡ length p.opened)
      × (p.result.created + p.result.reopened + p.result.updated ≡ length p.seen)

  saved-Counted :
      (d : Draft) (rule : Rule) (p : Progress)
      → Counted p
      → Counted (saved fingerprint cut now rules input d rule p)
  unfolding Counted create reopen refresh
  saved-Counted d rule p v =
      save_cases fingerprint cut now rules input
        (λ q.
          (q.result.created + q.result.reopened ≡ length q.opened)
          × (q.result.created + q.result.reopened + q.result.updated ≡ suc (length q.seen)))
        d rule (fingerprint d.rule_id d.location) p
        (λ e. (rw (length-snoc p.opened _) (omega (arith, v)), omega (arith, v)))
        (λ x e r. (rw (length-snoc p.opened _) (omega (arith, v)), omega (arith, v)))
        (λ x e r. (omega (arith, v), omega (arith, v)))

  finish-Counted : (p : Progress) → Counted p → Counted (finish fingerprint cut now input p)
  unfolding Counted resolve
  finish-Counted p v =
      finish_cases fingerprint cut now rules input
        (λ q.
          (q.result.created + q.result.reopened ≡ length q.opened)
          × (q.result.created + q.result.reopened + q.result.updated ≡ length q.seen))
        p v (λ c cs e. v)

  -- The result of a successful synchronisation adds up: its opened findings are those created or reopened,
  -- and each fingerprint that was seen is counted once, as created, reopened or updated.
  pub sync-counts :
      (t : Table) (q : Progress)
      → sync_for_scan fingerprint cut now rules input t ≡ ok q
      → (q.result.created + q.result.reopened ≡ length q.opened)
        × (q.result.created + q.result.reopened + q.result.updated ≡ length q.seen)
  unfolding Counted
  sync-counts t q h =
      sync_rule fingerprint cut now rules input Counted Counted
        (λ d rule p _ _ v. saved-Counted d rule p v) finish-Counted t q h (refl, refl)
