-- ===== src/Findings/Sync/Detected.antt =====
-- Which findings are open after a synchronisation: those detected, and not those missing.
use mathlib.Core.Path.{subst}
use sistema_de_gestion_de_po.Common.{
  ℕ, ◌≡◌, refl, inl, inr, Bool, true, false, ◌&&◌, ◌||◌, not, Option, none, some, String, List, [],
  ◌∷◌, map, ◌==◌, find, any, All, arith, Bool-cases, str_eq, eq_iff, sym, ap,
}
use sistema_de_gestion_de_po.Domain.{Status, Category, same_status}
use sistema_de_gestion_de_po.Findings.{
  Finding, Table, Rule, ok, get_rule, Result-cases, is_active, in_categories,
}
use sistema_de_gestion_de_po.Findings.Rows.{any-update, any-update_found, any-map}
use sistema_de_gestion_de_po.Findings.Sync.Rules.{
  save_cases, drafts_rule, saved, start, finish_cases,
}
use sistema_de_gestion_de_po.Findings.Sync.{
  Draft, SyncInput, Progress, is_at, detected, create, reopen, reopen_row, refresh, save,
  sync_draft, sync_drafts, resolve, settle, is_missing, finish, evaluated, sync_for_scan, has,
}

abbrev pub is_scan : ℕ → Option ℕ → Bool
is_scan scan none = false
is_scan scan (some s) = s == scan

find-passes :
    (p : Finding → Bool) (rs : List Finding) (x : Finding) → find p rs ≡ some x → p x ≡ true
find-passes p [] x e = cc
find-passes p (r ∷ rs) x e = ground (arith, find-passes p rs x)

module _ (fingerprint : String → String → String) (cut : ℕ → String → String) (now : ℕ)
    (rules : List Rule) (input : SyncInput) where
  abbrev pub key : Draft → String
  key d = fingerprint d.rule_id d.location

  -- Some draft has this fingerprint.
  abbrev pub is_named : List Draft → String → Bool
  is_named ds k = any (λ d. str_eq (key d) k) ds

  -- A row of the asset and fingerprint, seen by this scan and not resolved.
  abbrev pub is_current : String → Finding → Bool
  is_current k r =
      is_at input.asset k r
      && not (same_status r.status Status.resolved)
      && r.last_seen_at == now
      && is_scan input.scan r.last_scan

  save-seen :
      (d : Draft) (rule : Rule) (k : String) (p : Progress)
      → (save fingerprint cut now input d rule k p).seen ≡ p.seen
  unfolding create reopen refresh
  save-seen d rule k p =
      save_cases fingerprint cut now rules input (λ q. q.seen ≡ p.seen) d rule k p (λ e. refl)
        (λ x e r. refl) (λ x e r. refl)

  -- The set of seen fingerprints grows by those of the drafts.
  drafts-seen :
      (ds : List Draft) (p q : Progress) (k : String)
      → sync_drafts fingerprint cut now rules input ds p ≡ ok q
      → has k q.seen ≡ (has k p.seen || is_named ds k)
  unfolding sync_drafts sync_draft
  drafts-seen [] p q k h = ground (arith, h)
  drafts-seen (d ∷ ds) p q k h = elim (Result-cases (get_rule rules d.rule_id)) [
    | inr (e, bad) ↦ absurd (ground (arith, h, bad))
    | inl (rule, found) ↦ elim (Bool-cases (has (key d) p.seen)) [
      | inl old ↦
          ground
            (arith, found, old, h, drafts-seen ds p q k, eq_iff (key d) k, has-eq (key d) k p.seen)
      | inr new ↦ ground (
        arith,
        found,
        new,
        h,
        drafts-seen ds (saved fingerprint cut now rules input d rule p) q k,
        save-seen d rule (key d) p,
      )
    ]
  ]
    where
      has-eq : (j k : String) (ks : List String) → j ≡ k → has j ks ≡ has k ks
      has-eq j k ks e = ap (λ i. has i ks) e

  -- The loop's invariant: whatever was seen has a current row.
  SeenCurrent : Progress → Type 0
  SeenCurrent p = (k : String) → has k p.seen ≡ true → any (is_current k) p.table.rows ≡ true

  saved-current :
      (d : Draft) (rule : Rule) (p : Progress) (k : String)
      → (any (is_current (key d)) (save fingerprint cut now input d rule (key d) p).table.rows
          ≡ true)
        × (any (is_current k) p.table.rows ≡ true
            → any (is_current k) (save fingerprint cut now input d rule (key d) p).table.rows
              ≡ true)
  unfolding create reopen refresh
  saved-current d rule p k =
      save_cases fingerprint cut now rules input
        (λ q.
          (any (is_current (key d)) q.table.rows ≡ true)
          × (any (is_current k) p.table.rows ≡ true → any (is_current k) q.table.rows ≡ true))
        d rule (key d) p (λ e. (ground (arith, eq_iff (key d) (key d)), λ h. ground arith))
        (λ x e r. (
          any-update_found (is_current (key d)) (is_at input.asset (key d))
              (reopen_row fingerprint cut now input d rule) p.table.rows x e
              (ground (arith, found x e)),
          any-update (is_current k) x.id (reopen_row fingerprint cut now input d rule) p.table.rows
              (λ y h. ground arith),
        ))
        (λ x e r. (
          any-update_found (is_current (key d)) (is_at input.asset (key d))
              (detected fingerprint cut now input d rule) p.table.rows x e
              (ground (arith, found x e, r)),
          any-update (is_current k) x.id (detected fingerprint cut now input d rule) p.table.rows
              (λ y h. ground arith),
        ))
    where
      found :
          (x : Finding)
          → find (is_at input.asset (key d)) p.table.rows ≡ some x
          → is_at input.asset (key d) x ≡ true
      found x e = find-passes (is_at input.asset (key d)) p.table.rows x e

  saved-SeenCurrent :
      (d : Draft) (rule : Rule) (p : Progress)
      → SeenCurrent p
      → SeenCurrent (saved fingerprint cut now rules input d rule p)
  unfolding SeenCurrent
  saved-SeenCurrent d rule p v k h = elim (Bool-cases (str_eq (key d) k)) [
    | inl e ↦ ground (
      arith,
      eq_iff (key d) k,
      e,
      (saved-current d rule p (key d)).0,
      ap (λ j. any (is_current j) (save fingerprint cut now input d rule (key d) p).table.rows)
          ((eq_iff (key d) k).0 e),
    )
    | inr e ↦ (saved-current d rule p k).1 (v k (ground (arith, h, e, save-seen d rule (key d) p)))
  ]

  seen-not-missing :
      (categories : List Category) (seen : List String) (y : Finding)
      → has y.fingerprint seen ≡ true
      → is_missing fingerprint cut now input categories seen y ≡ false
  seen-not-missing categories seen y h = ground (arith, h)

  settle-current :
      (categories : List Category) (seen : List String) (y : Finding) (k : String)
      → has k seen ≡ true
      → is_current k y ≡ true
      → is_current k (settle fingerprint cut now input categories seen y) ≡ true
  settle-current categories seen y k h g =
      rw (seen-not-missing categories seen y (subst (λ j. has j seen ≡ true) (sym same) h)) g
    where
      same : y.fingerprint ≡ k
      same = (eq_iff y.fingerprint k).0 (ground (arith, g))

  finish-seen : (p : Progress) → (finish fingerprint cut now input p).seen ≡ p.seen
  unfolding resolve
  finish-seen p =
      finish_cases fingerprint cut now rules input (λ q. q.seen ≡ p.seen) p refl (λ c cs e. refl)

  finish-SeenCurrent :
      (p : Progress) → SeenCurrent p → SeenCurrent (finish fingerprint cut now input p)
  unfolding SeenCurrent resolve
  finish-SeenCurrent p v =
      finish_cases fingerprint cut now rules input
        (λ q. (k : String) → has k q.seen ≡ true → any (is_current k) q.table.rows ≡ true) p v
        λ c cs e k h.
          any-map (is_current k) (settle fingerprint cut now input (c ∷ cs) p.seen) p.table.rows
            (λ y g. settle-current (c ∷ cs) p.seen y k h g) (v k h)

  -- A successful synchronisation leaves, for every draft, a row of the asset with the draft's
  -- fingerprint that this scan has seen and that is not resolved.
  pub sync-detected :
      (t : Table) (q : Progress)
      → sync_for_scan fingerprint cut now rules input t ≡ ok q
      → (d : Draft) → is_named input.drafts (key d) ≡ true
      → any (is_current (key d)) q.table.rows ≡ true
  unfolding sync_for_scan SeenCurrent
  sync-detected t q h d named =
      elim (Result-cases (
        sync_drafts fingerprint cut now rules input input.drafts
          (start fingerprint cut now rules input t))) [
            | inr (f, e) ↦ absurd (ground (arith, h, e))
            | inl (p, e) ↦
                subst SeenCurrent (done p e)
                  (finish-SeenCurrent p (
                    drafts_rule fingerprint cut now rules input SeenCurrent
                      (λ d rule p _ _. saved-SeenCurrent d rule p) input.drafts _ p e (λ k g. cc)))
                  (key d)
                  (ground
                    (arith, drafts-seen input.drafts _ p (key d) e, named, finish-seen p, done p e))
          ]
    where
      done :
          (p : Progress)
          → sync_drafts fingerprint cut now rules input input.drafts
              (start fingerprint cut now rules input t)
            ≡ ok p
          → finish fingerprint cut now input p ≡ q
      done p e = ground (arith, h, e)

  All-map_of :
      (P : Finding → Type 0) (f : Finding → Finding) (rs : List Finding)
      → ((r : Finding) → P (f r))
      → All P (map f rs)
  All-map_of P f [] h = tt
  All-map_of P f (r ∷ rs) h = (h r, All-map_of P f rs h)

  -- Active, of a category that was evaluated, and named by no draft.
  abbrev pub is_stale : List Category → Finding → Bool
  is_stale categories r =
      r.asset == input.asset
      && in_categories categories r.category
      && is_active r.status
      && not (is_named input.drafts r.fingerprint)

  settle-not-stale :
      (categories : List Category) (seen : List String) (r : Finding)
      → has r.fingerprint seen ≡ is_named input.drafts r.fingerprint
      → is_stale categories (settle fingerprint cut now input categories seen r) ≡ false
  settle-not-stale categories seen r e = ground (arith, e)

  All-settled :
      (p : Progress)
      → ((k : String) → has k p.seen ≡ is_named input.drafts k)
      → All
          (λ r. is_stale (evaluated fingerprint cut now input) r ≡ false)
          (finish fingerprint cut now input p).table.rows
  unfolding finish resolve
  All-settled p same = by_categories (evaluated fingerprint cut now input) refl
    where
      none_stale : (rs : List Finding) → All (λ r. is_stale [] r ≡ false) rs
      none_stale [] = tt
      none_stale (r ∷ rs) = (ground arith, none_stale rs)

      by_categories :
          (cs : List Category)
          → evaluated fingerprint cut now input ≡ cs
          → All
              (λ r. is_stale (evaluated fingerprint cut now input) r ≡ false)
              (finish fingerprint cut now input p).table.rows
      by_categories [] e = rw (e, finish) (none_stale p.table.rows)
      by_categories (c ∷ cs) e =
          rw (e, finish)
            (All-map_of (λ r. is_stale (c ∷ cs) r ≡ false)
              (settle fingerprint cut now input (c ∷ cs) p.seen) p.table.rows
              (λ r. settle-not-stale (c ∷ cs) p.seen r (same r.fingerprint)))

  -- After a successful synchronisation no finding of the asset is active in a category that the scan
  -- evaluated in full, unless a draft of the scan has its fingerprint.
  pub sync-missing :
      (t : Table) (q : Progress)
      → sync_for_scan fingerprint cut now rules input t ≡ ok q
      → All (λ r. is_stale (evaluated fingerprint cut now input) r ≡ false) q.table.rows
  unfolding sync_for_scan
  sync-missing t q h =
      elim (Result-cases (
        sync_drafts fingerprint cut now rules input input.drafts
          (start fingerprint cut now rules input t))) [
            | inr (f, e) ↦ absurd (ground (arith, h, e))
            | inl (p, e) ↦
                subst
                  (λ (z : Progress).
                    All (λ r. is_stale (evaluated fingerprint cut now input) r ≡ false)
                      z.table.rows)
                  (done p e) (All-settled p (λ k. drafts-seen input.drafts _ p k e))
          ]
    where
      done :
          (p : Progress)
          → sync_drafts fingerprint cut now rules input input.drafts
              (start fingerprint cut now rules input t)
            ≡ ok p
          → finish fingerprint cut now input p ≡ q
      done p e = ground (arith, h, e)
