-- ===== src/Targets/Resolver.antt =====
-- The address that a scan is pinned to (backend/src/scans/target-resolver.ts). The answers of the
-- name service, one for each attempt, are a parameter; the delays between attempts are left out. The
-- key of the cache, a text made of the value and of "priv" or "pub", is the pair of the two.
pub mod Safety
pub mod CacheSize
use sistema_de_gestion_de_po.Common.{
  ℕ, zero, suc, ◌+◌, ◌-◌, Bool, true, false, not, ◌&&◌, ◌||◌, Option, none, some, List, [], ◌∷◌,
  map, any, find, keep, drop, length, ◌==◌, leb, ltb, if◌then◌else◌, or_else, is_some,
}
use sistema_de_gestion_de_po.Domain.{AssetType}
use sistema_de_gestion_de_po.Totp.Codes.{same_text}
use sistema_de_gestion_de_po.Targets.{Validator, is_private_or_reserved_ip, to_lower}

pub record Resolved : Type 0 where
  pub address : List ℕ
  pub family : ℕ
  pub resolved_addresses : List (List ℕ)

pub record Entry : Type 0 where
  pub value : List ℕ
  pub allow_private : Bool
  pub target : Resolved
  pub expires_at : ℕ

pub record LookupAddress : Type 0 where
  pub address : List ℕ
  pub family : ℕ

pub data Lookup : Type 0 where
  found : List LookupAddress → Lookup
  transient permanent : Lookup

pub data Failure : Type 0 where
  not_an_address reserved_address not_resolved no_records : Failure
  resolves_to_reserved : List ℕ → Failure

pub data Answer {ℓ} (A : Type ℓ) : Type ℓ where
  refused : Failure → Answer A
  done : A → Answer A

pub record Options : Type 0 where
  pub skip_cache : Bool
  pub ttl_ms : Option ℕ
  pub max_retries : Option ℕ

abbrev pub max_cache_entries : ℕ
max_cache_entries = 1000

abbrev pub has_key : List ℕ → Bool → Entry → Bool
has_key value private e =
    same_text e.value value && (if private then e.allow_private else not e.allow_private)

-- Expired entries go first; if that is not enough, the oldest ones until 800 are left.
unfoldable pub prune_cache : List Entry → ℕ → List Entry
prune_cache cache now =
    if ltb (length cache) max_cache_entries
    then cache
    else (let live = keep (λ (e : Entry). ltb now e.expires_at) cache in
        if ltb (length live) max_cache_entries then live else drop (length live - 800) live)

-- `Map.set`: a known key keeps its place, a new one comes last.
unfoldable pub store : Entry → List Entry → List Entry
store e [] = e ∷ []
store e (f ∷ fs) = if has_key e.value e.allow_private f then e ∷ fs else f ∷ store e fs

-- The attempts that are left, the first of them with this number.
unfoldable pub attempts : (ℕ → Lookup) → ℕ → ℕ → Option (List LookupAddress)
attempts lookup attempt zero = none
attempts lookup attempt (suc left) = elim (lookup attempt) [
  | found addresses ↦ some addresses
  | transient ↦ attempts lookup (suc attempt) left
  | permanent ↦ none
]

-- The first IPv4 address, or else the first one.
abbrev pub choose : LookupAddress → List LookupAddress → LookupAddress
choose first others = or_else (find (λ (a : LookupAddress). a.family == 4) (first ∷ others)) first

module _ (v : Validator) where
  unfoldable pub remember : Options → List ℕ → Bool → Resolved → ℕ → List Entry → List Entry
  unfolding store prune_cache
  remember o value private target now cache =
      if o.skip_cache
      then cache
      else store
          (record {
            value = value;
            allow_private = private;
            target = target;
            expires_at = now + or_else o.ttl_ms 300000;
          })
          (prune_cache cache now)

  unfoldable pub resolve_address : List ℕ → Bool → Answer Resolved
  resolve_address value private =
      let family = if is_some (v.ipv4 value) then 4 else if v.is_ipv6 value then 6 else 0 in
      if family == 0
      then refused not_an_address
      else if not private && is_private_or_reserved_ip v value
      then refused reserved_address
      else done (record { address = value; family = family; resolved_addresses = value ∷ [] })

  unfoldable pub resolve_name : (ℕ → Lookup) → Options → List ℕ → Bool → Answer Resolved
  unfolding attempts
  resolve_name lookup o value private = elim (attempts lookup 0 (suc (or_else o.max_retries 2))) [
    | none ↦ refused not_resolved
    | some [] ↦ refused no_records
    | some (first ∷ others) ↦
        elim (if private
          then none
          else find (λ (a : LookupAddress). is_private_or_reserved_ip v a.address)
              (first ∷ others)) [
                | some blocked ↦ refused (resolves_to_reserved blocked.address)
                | none ↦
                    let chosen = choose first others in
                    done (record {
                      address = chosen.address;
                      family = chosen.family;
                      resolved_addresses = map (λ (a : LookupAddress). a.address) (first ∷ others);
                    })
              ]
  ]

  abbrev pub is_ip : AssetType → Bool
  is_ip AssetType.ip = true
  is_ip AssetType.domain = false
  is_ip AssetType.cloud_account = false

  unfoldable pub resolve_fresh :
      (ℕ → Lookup)
      → Options
      → List ℕ
      → List ℕ
      → AssetType
      → Bool
      → ℕ
      → List Entry
      → Answer Resolved × List Entry
  unfolding resolve_address resolve_name remember
  resolve_fresh lookup o value key type private now cache =
      let answer =
        if is_ip type then resolve_address value private else resolve_name lookup o value private in
      (answer, elim answer [ refused e ↦ cache | done t ↦ remember o key private t now cache ])

  unfoldable pub resolve_scan_target :
      (trim : List ℕ → List ℕ)
      → (ℕ → Lookup)
      → Options
      → List ℕ
      → AssetType
      → Bool
      → ℕ
      → List Entry
      → Answer Resolved × List Entry
  unfolding resolve_fresh
  resolve_scan_target trim lookup o value type private now cache =
      let clean = trim value in
      let key = map to_lower clean in
      elim (if o.skip_cache then none else find (has_key key private) cache) [
        | none ↦ resolve_fresh lookup o clean key type private now cache
        | some e ↦
            if ltb now e.expires_at
            then (done e.target, cache)
            else resolve_fresh lookup o clean key type private now cache
      ]
