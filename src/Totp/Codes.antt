-- ===== src/Totp/Codes.antt =====
-- The codes of a secret and their verification (backend/src/auth/totp.ts). HMAC-SHA1, of a key and
-- a message, is a parameter; times are milliseconds, and `none` is an error thrown.
pub mod Window
use sistema_de_gestion_de_po.Common.{
  ℕ, zero, suc, ◌+◌, ◌-◌, ◌*◌, ◌/◌, ◌%◌, ◌^◌, Bool, true, false, not, ◌&&◌, ◌||◌, Option, none,
  some, List, [], ◌∷◌, ◌++◌, length, map, keep, take, drop, all, leb, ltb, ◌==◌, if◌then◌else◌,
}
use sistema_de_gestion_de_po.Totp.{item_at, base32_encode, base32_decode, is_space, to_upper}

-- The last `width` bytes of a number, the most significant first: `writeBigUInt64BE` at width 8.
abbrev pub big_endian : ℕ → ℕ → List ℕ
big_endian zero n = []
big_endian (suc width) n = big_endian width (n / 256) ++ ((n % 256) ∷ [])

-- `String(n).padStart(width, '0')` for a number of at most `width` digits.
abbrev pub padded : ℕ → ℕ → List ℕ
padded zero n = []
padded (suc width) n = padded width (n / 10) ++ ((48 + n % 10) ∷ [])

-- The dynamic truncation: 31 bits from the offset that the last byte names.
unfoldable pub truncate : List ℕ → ℕ
truncate digest =
    let offset = item_at digest (length digest - 1) % 16 in
    (item_at digest offset % 128) * 2 ^ 24
    + item_at digest (offset + 1) * 2 ^ 16
    + item_at digest (offset + 2) * 2 ^ 8
    + item_at digest (offset + 3)

abbrev pub same_text : List ℕ → List ℕ → Bool
same_text [] [] = true
same_text [] (d ∷ ds) = false
same_text (c ∷ cs) [] = false
same_text (c ∷ cs) (d ∷ ds) = (c == d) && same_text cs ds

abbrev pub is_digit : ℕ → Bool
is_digit c = leb 48 c && leb c 57

-- `\s+` removed.
abbrev pub without_spaces : List ℕ → List ℕ
without_spaces code = keep (λ c. not (is_space c)) code

abbrev pub is_six_digits : List ℕ → Bool
is_six_digits code = (length code == 6) && all is_digit code

module _ (hmac : List ℕ → List ℕ → List ℕ) where
  unfoldable pub hotp_code : List ℕ → ℕ → ℕ → Option (List ℕ)
  unfolding truncate
  hotp_code secret counter digits = elim (base32_decode secret) [
    | none ↦ none
    | some key ↦ some (padded digits (truncate (hmac key (big_endian 8 counter)) % 10 ^ digits))
  ]

  unfoldable pub totp_code : List ℕ → ℕ → Option (List ℕ)
  unfolding hotp_code
  totp_code secret time = hotp_code secret (time / 1000 / 30) 6

  -- The loop, over `n` counters from `start`: every one is computed.
  abbrev pub check_counters : List ℕ → List ℕ → ℕ → ℕ → Bool → Option Bool
  check_counters secret code start zero ok = some ok
  check_counters secret code start (suc n) ok = elim (hotp_code secret start 6) [
    | none ↦ none
    | some expected ↦
        check_counters secret code (suc start) n (if same_text expected code then true else ok)
  ]

  -- A negative counter is out of range of the buffer and throws.
  unfoldable pub verify_totp : List ℕ → List ℕ → ℕ → ℕ → Option Bool
  verify_totp secret code time window =
      let normalized = without_spaces code in
      let counter = time / 1000 / 30 in
      if not (is_six_digits normalized)
      then some false
      else if ltb counter window
      then none
      else check_counters secret normalized (counter - window) (2 * window + 1) false

-- `generateTotpSecret` of the 20 bytes drawn.
unfoldable pub generate_totp_secret : List ℕ → List ℕ
generate_totp_secret bytes = base32_encode bytes

unfoldable pub normalize_recovery_code : List ℕ → List ℕ
normalize_recovery_code code = keep (λ c. not (is_space c || (c == 45))) (map to_upper code)

-- `generateRecoveryCode` of the 7 bytes drawn: two groups of five characters.
unfoldable pub generate_recovery_code : List ℕ → List ℕ
generate_recovery_code bytes =
    let raw = take 10 (base32_encode bytes) in take 5 raw ++ (45 ∷ []) ++ drop 5 raw
