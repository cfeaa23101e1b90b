-- ===== src/Targets/Resolver/Safety.antt =====
-- That a scan is not pinned to a reserved address, now or from the cache, and the size of the cache
-- (backend/src/scans/target-resolver.ts).
use sistema_de_gestion_de_po.Common.{
  ℕ, zero, suc, ◌-◌, ◌≡◌, refl, ap, sym, subst, ◌∙◌, ◌⊎◌, inl, inr, Bool, true, false, Option, none,
  some, List, [], ◌∷◌, map, find, keep, drop, length, All, All-keep, ◌==◌, ltb, if◌then◌else◌,
  or_else, arith, Bool-cases, Option-cases,
}
use sistema_de_gestion_de_po.Domain.{AssetType}
use sistema_de_gestion_de_po.Targets.{Validator, is_private_or_reserved_ip, to_lower}
use sistema_de_gestion_de_po.Targets.Resolver.{
  Resolved, Entry, LookupAddress, Lookup, Options, Failure, Answer, refused, done, has_key,
  prune_cache, store, attempts, choose, remember, resolve_address, resolve_name, is_ip,
  resolve_fresh, resolve_scan_target, max_cache_entries,
}

some_inj {ℓ} : {A : Type ℓ} (x y : A) → some y ≡ some x → y ≡ x
some_inj x y e = ap (λ o. or_else o y) e

done_inj : (t u : Resolved) → done t ≡ done u → t ≡ u
done_inj t u e = ap (λ (r : Answer Resolved). elim r [ refused f ↦ t | done w ↦ w ]) e

pub Answer-cases :
    (a : Answer Resolved) → ((f : Failure) × (a ≡ refused f)) ⊎ ((t : Resolved) × (a ≡ done t))
Answer-cases (refused f) = inl (f, refl)
Answer-cases (done t) = inr (t, refl)

cached :
    (skip : Bool) (o : Option Entry) (e : Entry) → (if skip then none else o) ≡ some e → o ≡ some e
cached true o e h = ground (arith, h)
cached false o e h = h

list_cases {ℓ} : {A : Type ℓ} (xs : List A) → (xs ≡ []) ⊎ ((y : A) × (ys : List A) × (xs ≡ y ∷ ys))
list_cases [] = inl refl
list_cases (y ∷ ys) = inr (y, ys, refl)

find-All {ℓ κ} :
    {A : Type ℓ} (P : A → Type κ) (p : A → Bool) (xs : List A) (x : A)
    → All P xs
    → find p xs ≡ some x
    → P x × (p x ≡ true)
find-All P p [] x h e = ground (arith, e)
find-All P p (y ∷ xs) x (k, h) e = elim (Bool-cases (p y)) [
  | inl hit ↦ (subst P (some_inj x y (ground (arith, e, hit))) k, ground (arith, e, hit))
  | inr miss ↦ find-All P p xs x h (ground (arith, e, miss))
]

module _ (v : Validator) where
  abbrev pub IsPublic : List ℕ → Type 0
  IsPublic a = is_private_or_reserved_ip v a ≡ false

  abbrev pub TargetIsPublic : Resolved → Type 0
  TargetIsPublic t = IsPublic t.address × All IsPublic t.resolved_addresses

  -- What was stored for scans of public addresses is public.
  abbrev pub CacheIsSafe : List Entry → Type 0
  CacheIsSafe cache = All (λ (e : Entry). e.allow_private ≡ false → TargetIsPublic e.target) cache

  drop-CacheIsSafe : (n : ℕ) (cache : List Entry) → CacheIsSafe cache → CacheIsSafe (drop n cache)
  drop-CacheIsSafe zero cache h = h
  drop-CacheIsSafe (suc n) [] h = tt
  drop-CacheIsSafe (suc n) (e ∷ cache) (k, h) = drop-CacheIsSafe n cache h

  prune-CacheIsSafe :
      (cache : List Entry) (now : ℕ) → CacheIsSafe cache → CacheIsSafe (prune_cache cache now)
  unfolding prune_cache
  prune-CacheIsSafe cache now h =
      let live = keep (λ (e : Entry). ltb now e.expires_at) cache in
      let safe =
        All-keep (λ (e : Entry). e.allow_private ≡ false → TargetIsPublic e.target)
          (λ (e : Entry). ltb now e.expires_at) cache h in
      elim (Bool-cases (ltb (length cache) max_cache_entries)) [
        | inl few ↦ rw (prune_cache, few) h
        | inr many ↦ elim (Bool-cases (ltb (length live) max_cache_entries)) [
          | inl few ↦ rw (prune_cache, many, few) safe
          | inr still ↦
              rw (prune_cache, many, still) (drop-CacheIsSafe (length live - 800) live safe)
        ]
      ]

  store-CacheIsSafe :
      (e : Entry) (cache : List Entry)
      → (e.allow_private ≡ false → TargetIsPublic e.target)
      → CacheIsSafe cache
      → CacheIsSafe (store e cache)
  unfolding store
  store-CacheIsSafe e [] k h = (k, tt)
  store-CacheIsSafe e (f ∷ fs) k (l, h) = elim (Bool-cases (has_key e.value e.allow_private f)) [
    | inl same ↦ rw same (k, h)
    | inr other ↦ rw other (l, store-CacheIsSafe e fs k h)
  ]

  resolve_address-public :
      (value : List ℕ) (t : Resolved) → resolve_address v value false ≡ done t → TargetIsPublic t
  unfolding resolve_address
  resolve_address-public value t h =
      let free : IsPublic value = ground (arith, h) in
      (ground (arith, h, free), ground (arith, h, free))

  none_blocked :
      (list : List LookupAddress)
      → find (λ (a : LookupAddress). is_private_or_reserved_ip v a.address) list ≡ none
      → All (λ (a : LookupAddress). IsPublic a.address) list
  none_blocked [] h = tt
  none_blocked (a ∷ list) h = (ground (arith, h), none_blocked list (ground (arith, h)))

  choose-IsPublic :
      (first : LookupAddress) (others : List LookupAddress)
      → All (λ (a : LookupAddress). IsPublic a.address) (first ∷ others)
      → IsPublic (choose first others).address
  choose-IsPublic first others h =
      elim (Option-cases (find (λ (a : LookupAddress). a.family == 4) (first ∷ others))) [
        | inl e ↦ rw e h.0
        | inr (a, e) ↦
            rw e
              (find-All (λ (a : LookupAddress). IsPublic a.address) (λ a. a.family == 4)
                (first ∷ others) a h e).0
      ]

  addresses-IsPublic :
      (list : List LookupAddress)
      → All (λ (a : LookupAddress). IsPublic a.address) list
      → All IsPublic (map (λ (a : LookupAddress). a.address) list)
  addresses-IsPublic [] h = tt
  addresses-IsPublic (a ∷ list) (k, h) = (k, addresses-IsPublic list h)

  named :
      (lookup : ℕ → Lookup) (o : Options) (value : List ℕ) (list : List LookupAddress)
      (first : LookupAddress) (others : List LookupAddress)
      → attempts lookup 0 (suc (or_else o.max_retries 2)) ≡ some list
      → list ≡ first ∷ others
      → find (λ (a : LookupAddress). is_private_or_reserved_ip v a.address) (first ∷ others) ≡ none
      → resolve_name v lookup o value false
        ≡ done (record {
          address = (choose first others).address;
          family = (choose first others).family;
          resolved_addresses = map (λ (a : LookupAddress). a.address) (first ∷ others);
        })
  unfolding resolve_name
  named lookup o value list first others e same free = rw (resolve_name, e, same, free) refl

  resolve_name-public :
      (lookup : ℕ → Lookup) (o : Options) (value : List ℕ) (t : Resolved)
      → resolve_name v lookup o value false ≡ done t
      → TargetIsPublic t
  unfolding resolve_name
  resolve_name-public lookup o value t h =
      elim (Option-cases (attempts lookup 0 (suc (or_else o.max_retries 2)))) [
        | inl e ↦ ground (arith, h, e)
        | inr (list, e) ↦ elim (list_cases list) [
          | inl empty ↦ ground (arith, h, e, empty)
          | inr (first, others, same) ↦
              elim (Option-cases (
                find (λ (a : LookupAddress). is_private_or_reserved_ip v a.address)
                  (first ∷ others))) [
                    | inr (b, blocked) ↦ ground (arith, h, e, same, blocked)
                    | inl free ↦
                        let public = none_blocked (first ∷ others) free in
                        subst TargetIsPublic
                          (done_inj _ t
                            (sym (named lookup o value list first others e same free) ∙ h))
                          (
                            choose-IsPublic first others public,
                            addresses-IsPublic (first ∷ others) public,
                          )
                  ]
        ]
      ]

  fresh_answer :
      (lookup : ℕ → Lookup) (o : Options) (value : List ℕ) (type : AssetType) (private : Bool)
      (t : Resolved)
      → private ≡ false
      → (if is_ip v type
          then resolve_address v value private
          else resolve_name v lookup o value private)
        ≡ done t
      → TargetIsPublic t
  fresh_answer lookup o value type true t p h = ground (arith, p)
  fresh_answer lookup o value AssetType.ip false t p h = resolve_address-public value t h
  fresh_answer lookup o value AssetType.domain false t p h = resolve_name-public lookup o value t h
  fresh_answer lookup o value AssetType.cloud_account false t p h =
      resolve_name-public lookup o value t h

  remember-CacheIsSafe :
      (o : Options) (key : List ℕ) (private : Bool) (t : Resolved) (now : ℕ) (cache : List Entry)
      → (private ≡ false → TargetIsPublic t)
      → CacheIsSafe cache
      → CacheIsSafe (remember v o key private t now cache)
  unfolding remember
  remember-CacheIsSafe o key private t now cache public safe = elim (Bool-cases o.skip_cache) [
    | inl skip ↦ rw (remember, skip) safe
    | inr on ↦
        rw (remember, on)
          (store-CacheIsSafe _ (prune_cache cache now) public (prune-CacheIsSafe cache now safe))
  ]

  -- What the cache holds for a public scan is public.
  entry_public :
      (key : List ℕ) (private : Bool) (cache : List Entry) (entry : Entry)
      → CacheIsSafe cache
      → find (has_key key private) cache ≡ some entry
      → private ≡ false
      → TargetIsPublic entry.target
  entry_public key private cache entry safe e p =
      let (public, same) =
        find-All (λ (f : Entry). f.allow_private ≡ false → TargetIsPublic f.target)
          (has_key key private) cache entry safe e in
      public (ground (arith, same, p))

  resolve_fresh-public :
      (lookup : ℕ → Lookup) (o : Options) (value key : List ℕ) (type : AssetType) (private : Bool)
      (now : ℕ) (cache : List Entry)
      → CacheIsSafe cache
      → ((t : Resolved)
          → private ≡ false
          → (resolve_fresh v lookup o value key type private now cache).0 ≡ done t
          → TargetIsPublic t)
        × CacheIsSafe (resolve_fresh v lookup o value key type private now cache).1
  unfolding resolve_fresh
  resolve_fresh-public lookup o value key type private now cache safe =
      let answer =
        if is_ip v type
        then resolve_address v value private
        else resolve_name v lookup o value private in
      (
        (λ t p h. fresh_answer lookup o value type private t p h),
        elim (Answer-cases answer) [
          | inl (f, e) ↦ rw (resolve_fresh, e) safe
          | inr (t, e) ↦
              rw (resolve_fresh, e)
                (remember-CacheIsSafe o key private t now cache
                  (λ p. fresh_answer lookup o value type private t p e) safe)
        ],
      )

  -- Without the laboratory mode, an address that a scan is pinned to is not reserved, nor is any
  -- that the name resolves to, whatever the name service answers, also when it comes from a cache
  -- whose entries for that mode are public; and the cache stays so.
  pub resolve_scan_target-IsPublic :
      (trim : List ℕ → List ℕ) (lookup : ℕ → Lookup) (o : Options) (value : List ℕ)
      (type : AssetType) (private : Bool) (now : ℕ) (cache : List Entry)
      → CacheIsSafe cache
      → ((t : Resolved)
          → private ≡ false
          → (resolve_scan_target v trim lookup o value type private now cache).0 ≡ done t
          → TargetIsPublic t)
        × CacheIsSafe (resolve_scan_target v trim lookup o value type private now cache).1
  unfolding resolve_scan_target
  resolve_scan_target-IsPublic trim lookup o value type private now cache safe =
      let clean = trim value in
      let key = map to_lower clean in
      let fresh = resolve_fresh-public lookup o clean key type private now cache safe in
      elim (Option-cases (if o.skip_cache then none else find (has_key key private) cache)) [
        | inl e ↦ rw (resolve_scan_target, e) fresh
        | inr (entry, e) ↦ elim (Bool-cases (ltb now entry.expires_at)) [
          | inr expired ↦ rw (resolve_scan_target, e, expired) fresh
          | inl live ↦
              rw (resolve_scan_target, e, live)
                (
                  (λ t p h. subst TargetIsPublic (done_inj entry.target t h) (
                      entry_public key private cache entry safe (cached o.skip_cache _ entry e) p)),
                  safe,
                )
        ]
      ]
