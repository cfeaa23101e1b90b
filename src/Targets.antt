-- ===== src/Targets.antt =====
-- The addresses that may be scanned (backend/src/common/utils/network.util.ts). Whether a text is an
-- address (class-validator, and node:net, taken to agree) is a parameter; a text is the list of its ASCII codes and an IPv4
-- address the list of its four octets.
pub mod Reserved
pub mod Resolver
mod Tests
use sistema_de_gestion_de_po.Totp.Codes.{same_text, is_digit}
use sistema_de_gestion_de_po.Common.{
  ℕ, zero, suc, ◌+◌, ◌-◌, ◌*◌, ◌/◌, ◌%◌, ◌^◌, Bool, true, false, not, ◌&&◌, ◌||◌, Option, none,
  some, List, [], ◌∷◌, map, any, length, drop, ◌==◌, leb, if◌then◌else◌,
}

pub record Range : Type 0 where
  pub base : List ℕ
  pub bits : ℕ

abbrev range : ℕ → ℕ → ℕ → ℕ → ℕ → Range
range a b c d bits = record { base = a ∷ b ∷ c ∷ d ∷ []; bits = bits }

abbrev pub private_ipv4_ranges : List Range
private_ipv4_ranges =
    range 0 0 0 0 8
    ∷ range 10 0 0 0 8
    ∷ range 100 64 0 0 10
    ∷ range 127 0 0 0 8
    ∷ range 169 254 0 0 16
    ∷ range 172 16 0 0 12
    ∷ range 192 0 0 0 24
    ∷ range 192 0 2 0 24
    ∷ range 192 168 0 0 16
    ∷ range 198 18 0 0 15
    ∷ range 198 51 100 0 24
    ∷ range 203 0 113 0 24
    ∷ range 224 0 0 0 4
    ∷ range 240 0 0 0 4
    ∷ []

-- `(acc << 8) + octet` in a loop, then `>>> 0`: the shift keeps 32 bits.
abbrev pub ipv4_loop : ℕ → List ℕ → ℕ
ipv4_loop acc [] = acc
ipv4_loop acc (octet ∷ octets) = ipv4_loop ((acc * 2 ^ 8) % 2 ^ 32 + octet) octets

unfoldable pub ipv4_to_int : List ℕ → ℕ
ipv4_to_int octets = ipv4_loop 0 octets % 2 ^ 32

-- `n & mask`, where the mask has its `bits` first bits set: the last ones are cleared.
abbrev pub masked : ℕ → ℕ → ℕ
masked bits n = (n / 2 ^ (32 - bits)) * 2 ^ (32 - bits)

unfoldable pub in_cidr : List ℕ → Range → Bool
in_cidr octets r = masked r.bits (ipv4_to_int octets) == masked r.bits (ipv4_to_int r.base)

unfoldable pub is_reserved_ipv4 : List ℕ → Bool
is_reserved_ipv4 octets = any (in_cidr octets) private_ipv4_ranges

-- What a text is, by class-validator: the octets of an IPv4 address, and whether it is an IPv6 one.
pub record Validator : Type 0 where
  pub ipv4 : List ℕ → Option (List ℕ)
  pub is_ipv6 : List ℕ → Bool

abbrev pub starts_with : List ℕ → List ℕ → Bool
starts_with [] text = true
starts_with (p ∷ ps) [] = false
starts_with (p ∷ ps) (c ∷ cs) = (p == c) && starts_with ps cs

-- `\d+\.\d+\.\d+\.\d+` with so many points to come, after a digit or not.
abbrev pub is_dotted : ℕ → Bool → List ℕ → Bool
is_dotted points digit [] = digit && (points == 0)
is_dotted points digit (c ∷ cs) =
    let rest = is_dotted (if is_digit c then points else points - 1) (is_digit c) cs in
    (is_digit c || ((c == 46) && digit && not (points == 0))) && rest

-- "::ffff:", "::", "::1", "fe80:", "fc", "fd", "ff" and "2001:db8:".
abbrev mapped_prefix : List ℕ
mapped_prefix = 58 ∷ 58 ∷ 102 ∷ 102 ∷ 102 ∷ 102 ∷ 58 ∷ []

abbrev whole_ipv6 : List (List ℕ)
whole_ipv6 = (58 ∷ 58 ∷ []) ∷ (58 ∷ 58 ∷ 49 ∷ []) ∷ []

abbrev reserved_prefixes : List (List ℕ)
reserved_prefixes =
    (102 ∷ 101 ∷ 56 ∷ 48 ∷ 58 ∷ [])
    ∷ (102 ∷ 99 ∷ [])
    ∷ (102 ∷ 100 ∷ [])
    ∷ (102 ∷ 102 ∷ [])
    ∷ (50 ∷ 48 ∷ 48 ∷ 49 ∷ 58 ∷ 100 ∷ 98 ∷ 56 ∷ 58 ∷ [])
    ∷ []

abbrev pub to_lower : ℕ → ℕ
to_lower c = if leb 65 c && leb c 90 then c + 32 else c

module _ (v : Validator) where
  -- The dotted part of a mapped address, which has no colon and is no other form of IPv6.
  unfoldable pub is_reserved_mapped : List ℕ → Bool
  is_reserved_mapped text = elim (v.ipv4 text) [
    | some octets ↦ is_reserved_ipv4 octets
    | none ↦ not (v.is_ipv6 text)
  ]

  -- The text is in lower case.
  unfoldable pub is_reserved_ipv6 : List ℕ → Bool
  unfolding is_reserved_mapped
  is_reserved_ipv6 text =
      if any (λ w. same_text w text) whole_ipv6 || any (λ p. starts_with p text) reserved_prefixes
      then true
      else (if starts_with mapped_prefix text && is_dotted 3 false (drop 7 text)
          then is_reserved_mapped (drop 7 text)
          else false)

  unfoldable pub is_private_or_reserved_ip : List ℕ → Bool
  unfolding is_reserved_ipv6
  is_private_or_reserved_ip text = elim (v.ipv4 text) [
    | some octets ↦ is_reserved_ipv4 octets
    | none ↦ if v.is_ipv6 text then is_reserved_ipv6 (map to_lower text) else true
  ]
