-- ===== src/Totp.antt =====
-- One-time codes and their base32 secrets (backend/src/auth/totp.ts).
-- A text is the list of its ASCII codes and a buffer the list of its bytes.
pub mod RoundTrip
pub mod Codes
mod Tests
use sistema_de_gestion_de_po.Common.{
  ◌≡◌, refl, ℕ, zero, suc, ◌+◌, ◌-◌, ◌*◌, ◌/◌, ◌%◌, ◌^◌, Bool, true, false, not, ◌&&◌, ◌||◌, Option,
  none, some, List, [], ◌∷◌, ◌++◌, map, keep, leb, ◌==◌, if◌then◌else◌, opt_map,
}

-- A position of `BASE32_ALPHABET`, and what stands there.
abbrev pub alphabet : List ℕ
alphabet =
    65 ∷ 66 ∷ 67 ∷ 68 ∷ 69 ∷ 70 ∷ 71 ∷ 72 ∷ 73 ∷ 74 ∷ 75 ∷ 76 ∷ 77 ∷ 78 ∷ 79 ∷ 80 ∷ 81 ∷ 82 ∷ 83
    ∷ 84 ∷ 85 ∷ 86 ∷ 87 ∷ 88 ∷ 89 ∷ 90 ∷ 50 ∷ 51 ∷ 52 ∷ 53 ∷ 54 ∷ 55 ∷ []

-- Out of range, 0: what the operators on bits take `undefined` for.
abbrev pub item_at : List ℕ → ℕ → ℕ
item_at [] i = 0
item_at (c ∷ cs) zero = c
item_at (c ∷ cs) (suc i) = item_at cs i

unfoldable pub symbol : ℕ → ℕ
symbol i = item_at alphabet i

abbrev pub index_of : List ℕ → ℕ → Option ℕ
index_of [] x = none
index_of (c ∷ cs) x = if c == x then some 0 else opt_map suc (index_of cs x)

unfoldable pub symbol_value : ℕ → Option ℕ
symbol_value c = index_of alphabet c

-- The inner loop: what it writes for `bits` pending bits, and how many stay.
abbrev pub emit : ℕ → ℕ → List ℕ
emit value (suc (suc (suc (suc (suc bits))))) = symbol ((value / 2 ^ bits) % 32) ∷ emit value bits
emit value bits = []

abbrev pub encode_loop : ℕ → ℕ → List ℕ → List ℕ
encode_loop value bits [] = if leb 1 bits then symbol ((value * 2 ^ (5 - bits)) % 32) ∷ [] else []
encode_loop value bits (byte ∷ bytes) =
    let value' = (value * 256 + byte) % 2 ^ 32 in
    emit value' (bits + 8) ++ encode_loop value' ((bits + 8) % 5) bytes

unfoldable pub base32_encode : List ℕ → List ℕ
base32_encode bytes = encode_loop 0 0 bytes

abbrev pub to_upper : ℕ → ℕ
to_upper c = if leb 97 c && leb c 122 then c - 32 else c

-- `\s`: tab, line feed, vertical tab, form feed, carriage return and space.
abbrev pub is_space : ℕ → Bool
is_space c = (leb 9 c && leb c 13) || (c == 32)

-- `none` is the error on a character that is not of the alphabet.
abbrev pub decode_loop : ℕ → ℕ → List ℕ → Option (List ℕ)
decode_loop value bits [] = some []
decode_loop value bits (ch ∷ chars) = elim (symbol_value ch) [
  | none ↦ none
  | some index ↦
      let value' = (value * 32 + index) % 2 ^ 32 in
      if leb 8 (bits + 5)
      then opt_map (λ out. ((value' / 2 ^ ((bits + 5) - 8)) % 256) ∷ out)
          (decode_loop value' ((bits + 5) - 8) chars)
      else decode_loop value' (bits + 5) chars
]

unfoldable pub base32_decode : List ℕ → Option (List ℕ)
base32_decode encoded =
    decode_loop 0 0 (keep (λ c. not (is_space c || (c == 61))) (map to_upper encoded))
