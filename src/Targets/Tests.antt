-- ===== src/Targets/Tests.antt =====
-- Reserved and public addresses, and a target with a name service that fails once.
use sistema_de_gestion_de_po.Common.{
  ℕ, ◌≤◌, ◌≡◌, refl, ◌↔◌, true, false, Option, none, some, List, [], ◌∷◌, arith, length, ◌==◌,
  if◌then◌else◌,
}
use sistema_de_gestion_de_po.Domain.{AssetType}
use sistema_de_gestion_de_po.Targets.{
  Validator, ipv4_to_int, in_cidr, is_reserved_ipv4, is_reserved_ipv6, is_private_or_reserved_ip,
}
use sistema_de_gestion_de_po.Targets.Reserved.{IsReserved, is_reserved_ipv4_iff}
use sistema_de_gestion_de_po.Targets.Resolver.{
  Resolved, Entry, Lookup, found, transient, Options, done, resolve_scan_target,
}
use sistema_de_gestion_de_po.Targets.Resolver.Safety.{
  TargetIsPublic, CacheIsSafe, resolve_scan_target-IsPublic,
}
use sistema_de_gestion_de_po.Targets.Resolver.CacheSize.{resolve_scan_target-bounded}

is_reserved_ipv4_iff_example :
    (is_reserved_ipv4 (172 ∷ 31 ∷ 255 ∷ 1 ∷ []) ≡ true) ↔ IsReserved 172 31 255
is_reserved_ipv4_iff_example =
    is_reserved_ipv4_iff 172 31 255 1 (omega arith) (omega arith) (omega arith) (omega arith)

-- The text "8" stands for 8.8.8.8 and "9" for 10.0.0.1; all else is IPv6.
abbrev octets_of : List ℕ → Option (List ℕ)
octets_of [] = none
octets_of (c ∷ cs) =
    if c == 56
    then some (8 ∷ 8 ∷ 8 ∷ 8 ∷ [])
    else if c == 57
    then some (10 ∷ 0 ∷ 0 ∷ 1 ∷ [])
    else none

abbrev validator : Validator
validator = record { ipv4 = octets_of; is_ipv6 = λ t. true }

-- "::1" is reserved, and the same address "0:0:0:0:0:0:0:1" is not.
loopback_in_full :
    (is_private_or_reserved_ip validator (58 ∷ 58 ∷ 49 ∷ []) ≡ true)
    × (is_private_or_reserved_ip validator
          (48 ∷ 58 ∷ 48 ∷ 58 ∷ 48 ∷ 58 ∷ 48 ∷ 58 ∷ 48 ∷ 58 ∷ 48 ∷ 58 ∷ 48 ∷ 58 ∷ 49 ∷ [])
        ≡ false)
unfolding is_private_or_reserved_ip is_reserved_ipv6
loopback_in_full = (refl, refl)

abbrev lookup_of : ℕ → Lookup
lookup_of attempt =
    if attempt == 0 then transient else found (record { address = 56 ∷ []; family = 4 } ∷ [])

abbrev options : Options
options = record { skip_cache = false; ttl_ms = none; max_retries = none }

abbrev cache : List Entry
cache =
    record {
      value = 56 ∷ [];
      allow_private = false;
      target = record { address = 56 ∷ []; family = 4; resolved_addresses = (56 ∷ []) ∷ [] };
      expires_at = 10;
    }
    ∷ []

resolve_scan_target-IsPublic_example :
    let r =
      resolve_scan_target validator
        (λ t. t)
        lookup_of
        options
        (120 ∷ [])
        AssetType.domain
        false
        500
        cache in
    ((t : Resolved) → false ≡ false → r.0 ≡ done t → TargetIsPublic validator t)
    × CacheIsSafe validator r.1
unfolding is_private_or_reserved_ip is_reserved_ipv4 in_cidr ipv4_to_int
resolve_scan_target-IsPublic_example =
    resolve_scan_target-IsPublic validator (λ t. t) lookup_of options (120 ∷ []) AssetType.domain
      false 500 cache ((λ p. (refl, (refl, tt))), tt)

resolve_scan_target-bounded_example :
    length
      (resolve_scan_target validator
        (λ t. t)
        lookup_of
        options
        (120 ∷ [])
        AssetType.domain
        false
        500
        cache).1
    ≤ 1000
resolve_scan_target-bounded_example =
    resolve_scan_target-bounded validator (λ t. t) lookup_of options (120 ∷ []) AssetType.domain
      false 500 cache (omega arith)
