-- ===== src/Findings/Sync/Rules.antt =====
-- Proof rules for the loop of `syncForScan`: the three branches of a draft, the loop over the
-- drafts, and the whole call.
use mathlib.Core.Path.{subst}
use sistema_de_gestion_de_po.Common.{
  ℕ, ◌≡◌, refl, ◌≢◌, inl, inr, true, false, none, some, String, List, [], ◌∷◌, find, Option-cases,
  Bool-cases, or_else, arith,
}
use sistema_de_gestion_de_po.Domain.{Category, Status, same_status}
use sistema_de_gestion_de_po.Findings.{
  Finding, Table, Rule, Failure, ok, err, get_rule, Result-cases,
}
use sistema_de_gestion_de_po.Findings.Sync.{
  Draft, SyncInput, Progress, is_at, create, reopen, refresh, save, counted, has, sync_draft,
  sync_drafts, finish, resolve, evaluated, sync_for_scan, empty_result,
}

module _ (fingerprint : String → String → String) (cut : ℕ → String → String) (now : ℕ)
    (rules : List Rule) (input : SyncInput) where
  -- A property of the result of `save` is proved for each branch.
  pub save_cases :
      (Q : Progress → Type 0) (d : Draft) (rule : Rule) (k : String) (p : Progress)
      → (find (is_at input.asset k) p.table.rows ≡ none
          → Q (create fingerprint cut now input d rule k p))
      → ((x : Finding)
          → find (is_at input.asset k) p.table.rows ≡ some x
          → x.status ≡ Status.resolved
          → Q (reopen fingerprint cut now input d rule x p))
      → ((x : Finding)
          → find (is_at input.asset k) p.table.rows ≡ some x
          → x.status ≢ Status.resolved
          → Q (refresh fingerprint cut now input d rule x p))
      → Q (save fingerprint cut now input d rule k p)
  unfolding save
  save_cases Q d rule k p new back still =
      elim (Option-cases (find (is_at input.asset k) p.table.rows)) [
        | inl e ↦ rw (e, save) (new e)
        | inr (x, e) ↦ elim (Bool-cases (same_status x.status Status.resolved)) [
          | inl r ↦ rw (e, save) (rw r (back x e (ground arith)))
          | inr r ↦ rw (e, save) (rw r (still x e (ground arith)))
        ]
      ]

  -- The variables after a draft that is not a repetition.
  abbrev pub saved : Draft → Rule → Progress → Progress
  saved d rule p =
      let k = fingerprint d.rule_id d.location in
      counted fingerprint cut now (or_else d.severity rule.severity) k
        (save fingerprint cut now input d rule k p)

  -- What the loop keeps: a property of its variables that every saved draft keeps.
  pub drafts_rule :
      (Q : Progress → Type 0)
      → ((d : Draft) (rule : Rule) (p : Progress)
          → get_rule rules d.rule_id ≡ ok rule
          → has (fingerprint d.rule_id d.location) p.seen ≡ false
          → Q p
          → Q (saved d rule p))
      → (ds : List Draft) (p q : Progress) → sync_drafts fingerprint cut now rules input ds p ≡ ok q
      → Q p
      → Q q
  unfolding sync_drafts sync_draft
  drafts_rule Q step [] p q h z = subst Q (cc) z
  drafts_rule Q step (d ∷ ds) p q h z = elim (Result-cases (get_rule rules d.rule_id)) [
    | inr (e, bad) ↦ absurd (no_rule e bad)
    | inl (rule, found) ↦ elim (Bool-cases (has (fingerprint d.rule_id d.location) p.seen)) [
      | inl old ↦ drafts_rule Q step ds p q (rw (skips rule found old, sync_drafts) at h) z
      | inr new ↦
          drafts_rule Q step ds (saved d rule p) q (rw (saves rule found new, sync_drafts) at h)
            (step d rule p found new z)
    ]
  ]
    where
      no_rule : (e : Failure) → get_rule rules d.rule_id ≡ err e → ⊥
      no_rule e bad = ground (arith, h, bad)

      skips :
          (rule : Rule)
          → get_rule rules d.rule_id ≡ ok rule
          → has (fingerprint d.rule_id d.location) p.seen ≡ true
          → sync_draft fingerprint cut now rules input d p ≡ ok p
      skips rule found old = ground (arith, found, old)

      saves :
          (rule : Rule)
          → get_rule rules d.rule_id ≡ ok rule
          → has (fingerprint d.rule_id d.location) p.seen ≡ false
          → sync_draft fingerprint cut now rules input d p ≡ ok (saved d rule p)
      saves rule found new = ground (arith, found, new)

  -- The end of a call: an early return, or the resolution for the categories evaluated in full.
  pub finish_cases :
      (Q : Progress → Type 0) (p : Progress)
      → Q p
      → ((c : Category) (cs : List Category)
          → evaluated fingerprint cut now input ≡ c ∷ cs
          → Q (resolve fingerprint cut now input (c ∷ cs) p))
      → Q (finish fingerprint cut now input p)
  unfolding finish
  finish_cases Q p early late = by_categories (evaluated fingerprint cut now input) refl
    where
      by_categories :
          (cs : List Category)
          → evaluated fingerprint cut now input ≡ cs
          → Q (finish fingerprint cut now input p)
      by_categories [] e = rw (e, finish) early
      by_categories (c ∷ cs) e = rw (e, finish) (late c cs e)

  abbrev pub start : Table → Progress
  start t = record { table = t; result = empty_result; opened = []; seen = [] }

  -- A successful call is the loop from the start, and then the resolution of what is missing.
  pub sync_rule :
      (Q : Progress → Type 0) (R : Progress → Type 0)
      → ((d : Draft) (rule : Rule) (p : Progress)
          → get_rule rules d.rule_id ≡ ok rule
          → has (fingerprint d.rule_id d.location) p.seen ≡ false
          → Q p
          → Q (saved d rule p))
      → ((p : Progress) → Q p → R (finish fingerprint cut now input p))
      → (t : Table) (q : Progress) → sync_for_scan fingerprint cut now rules input t ≡ ok q
      → Q (start t)
      → R q
  unfolding sync_for_scan
  sync_rule Q R step last t q h z =
      elim (Result-cases (sync_drafts fingerprint cut now rules input input.drafts (start t))) [
        | inl (p, e) ↦ subst R (done p e) (last p (drafts_rule Q step input.drafts (start t) p e z))
        | inr (f, e) ↦ absurd (failed f e)
      ]
    where
      done :
          (p : Progress)
          → sync_drafts fingerprint cut now rules input input.drafts (start t) ≡ ok p
          → finish fingerprint cut now input p ≡ q
      done p e = ground (arith, h, e)

      failed :
          (f : Failure)
          → sync_drafts fingerprint cut now rules input input.drafts (start t) ≡ err f
          → ⊥
      failed f e = ground (arith, h, e)
