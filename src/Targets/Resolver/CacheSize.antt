-- ===== src/Targets/Resolver/CacheSize.antt =====
-- The size of the cache of resolved targets
-- (backend/src/scans/target-resolver.ts).
use sistema_de_gestion_de_po.Common.{
  ℕ, zero, suc, ◌+◌, ◌-◌, ◌≤◌, ◌<◌, inl, inr, Bool, none, List, [], ◌∷◌, map, find, keep, drop,
  length, ltb, if◌then◌else◌, max, arith, Bool-cases, Option-cases,
}
use sistema_de_gestion_de_po.Domain.{AssetType}
use sistema_de_gestion_de_po.Targets.{Validator, to_lower}
use sistema_de_gestion_de_po.Targets.Resolver.{
  Resolved, Entry, Lookup, Options, has_key, prune_cache, store, remember, resolve_address,
  resolve_name, is_ip, resolve_fresh, resolve_scan_target, max_cache_entries,
}
use sistema_de_gestion_de_po.Targets.Resolver.Safety.{Answer-cases}

length-drop {ℓ} : {A : Type ℓ} (n : ℕ) (xs : List A) → length (drop n xs) + n ≤ max n (length xs)
length-drop zero xs = omega arith
length-drop (suc n) [] = omega arith
length-drop (suc n) (x ∷ xs) = omega (arith, length-drop n xs)

length-store : (e : Entry) (cache : List Entry) → length (store e cache) ≤ suc (length cache)
unfolding store
length-store e [] = omega arith
length-store e (f ∷ fs) = ground (arith, length-store e fs)

length-prune_cache :
    (cache : List Entry) (now : ℕ) → length (prune_cache cache now) < max_cache_entries
unfolding prune_cache
length-prune_cache cache now =
    let live = keep (λ (e : Entry). ltb now e.expires_at) cache in
    ground (arith, length-drop (length live - 800) live)

length-remember :
    (v : Validator) (o : Options) (key : List ℕ) (private : Bool) (t : Resolved) (now : ℕ)
    (cache : List Entry)
    → length cache ≤ max_cache_entries
    → length (remember v o key private t now cache) ≤ max_cache_entries
unfolding remember
length-remember v o key private t now cache le = elim (Bool-cases o.skip_cache) [
  | inl skip ↦ rw (remember, skip) le
  | inr on ↦
      rw (remember, on)
        (omega (arith, length-store _ (prune_cache cache now), length-prune_cache cache now))
]

resolve_fresh-bounded :
    (v : Validator) (lookup : ℕ → Lookup) (o : Options) (value key : List ℕ) (type : AssetType)
    (private : Bool) (now : ℕ) (cache : List Entry)
    → length cache ≤ max_cache_entries
    → length (resolve_fresh v lookup o value key type private now cache).1 ≤ max_cache_entries
unfolding resolve_fresh
resolve_fresh-bounded v lookup o value key type private now cache le =
    elim (Answer-cases (
      if is_ip v type
      then resolve_address v value private
      else resolve_name v lookup o value private)) [
        | inl (f, e) ↦ rw (resolve_fresh, e) le
        | inr (t, e) ↦ rw (resolve_fresh, e) (length-remember v o key private t now cache le)
      ]

-- A cache of at most 1000 entries stays so.
pub resolve_scan_target-bounded :
    (v : Validator) (trim : List ℕ → List ℕ) (lookup : ℕ → Lookup) (o : Options) (value : List ℕ)
    (type : AssetType) (private : Bool) (now : ℕ) (cache : List Entry)
    → length cache ≤ max_cache_entries
    → length (resolve_scan_target v trim lookup o value type private now cache).1
      ≤ max_cache_entries
unfolding resolve_scan_target
resolve_scan_target-bounded v trim lookup o value type private now cache le =
    let clean = trim value in
    let key = map to_lower clean in
    elim (Option-cases (if o.skip_cache then none else find (has_key key private) cache)) [
      | inl e ↦
          rw (resolve_scan_target, e)
            (resolve_fresh-bounded v lookup o clean key type private now cache le)
      | inr (entry, e) ↦ elim (Bool-cases (ltb now entry.expires_at)) [
        | inr expired ↦
            rw (resolve_scan_target, e, expired)
              (resolve_fresh-bounded v lookup o clean key type private now cache le)
        | inl live ↦ rw (resolve_scan_target, e, live) le
      ]
    ]
