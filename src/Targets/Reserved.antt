-- ===== src/Targets/Reserved.antt =====
-- Which IPv4 addresses are reserved (backend/src/common/utils/network.util.ts,
-- `isPrivateOrReservedIp`).
use sistema_de_gestion_de_po.Common.{ℕ, ◌+◌, ◌*◌, ◌≤◌, ◌<◌, ◌≡◌, ◌↔◌, ◌⊎◌, true, [], ◌∷◌, arith}
use sistema_de_gestion_de_po.Targets.{ipv4_to_int, in_cidr, is_reserved_ipv4}

-- The reserved addresses, octet by octet.
abbrev pub IsReserved : ℕ → ℕ → ℕ → Type 0
IsReserved a b c =
    (a ≡ 0)
    ⊎ (a ≡ 10)
    ⊎ (a ≡ 127)
    ⊎ (224 ≤ a)
    ⊎ ((a ≡ 100) × (64 ≤ b) × (b ≤ 127))
    ⊎ ((a ≡ 169) × (b ≡ 254))
    ⊎ ((a ≡ 172) × (16 ≤ b) × (b ≤ 31))
    ⊎ ((a ≡ 192) × (b ≡ 168))
    ⊎ ((a ≡ 192) × (b ≡ 0) × ((c ≡ 0) ⊎ (c ≡ 2)))
    ⊎ ((a ≡ 198) × (18 ≤ b) × (b ≤ 19))
    ⊎ ((a ≡ 198) × (b ≡ 51) × (c ≡ 100))
    ⊎ ((a ≡ 203) × (b ≡ 0) × (c ≡ 113))

value_of :
    (a b c d : ℕ)
    → a < 256
    → b < 256
    → c < 256
    → d < 256
    → ipv4_to_int (a ∷ b ∷ c ∷ d ∷ []) ≡ ((a * 256 + b) * 256 + c) * 256 + d
unfolding ipv4_to_int
value_of a b c d ha hb hc hd = omega arith

-- The masks of the fourteen ranges accept exactly the reserved addresses.
pub is_reserved_ipv4_iff :
    (a b c d : ℕ)
    → a < 256
    → b < 256
    → c < 256
    → d < 256
    → (is_reserved_ipv4 (a ∷ b ∷ c ∷ d ∷ []) ≡ true) ↔ IsReserved a b c
unfolding is_reserved_ipv4 in_cidr ipv4_to_int
is_reserved_ipv4_iff a b c d ha hb hc hd = ground (arith)
