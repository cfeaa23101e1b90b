-- ===== src/Totp/Tests.antt =====
-- Base32 texts and codes of a secret, with a digest that repeats the message.
use sistema_de_gestion_de_po.Common.{
  ℕ, ◌≤◌, ◌+◌, ◌/◌, ◌≡◌, refl, ◌↔◌, true, none, some, List, [], ◌∷◌, ◌++◌, arith,
}
use sistema_de_gestion_de_po.Totp.{base32_encode, base32_decode, symbol, symbol_value}
use sistema_de_gestion_de_po.Totp.RoundTrip.{base32_decode-base32_encode}
use sistema_de_gestion_de_po.Totp.Codes.{
  hotp_code, totp_code, verify_totp, truncate, without_spaces,
}
use sistema_de_gestion_de_po.Totp.Codes.Window.{verify_totp-window, totp_code_accepted}

-- The bytes of "foobar" and the text MZXW6YTBOI.
abbrev foobar : List ℕ
foobar = 102 ∷ 111 ∷ 111 ∷ 98 ∷ 97 ∷ 114 ∷ []

foobar_encoded : base32_encode foobar ≡ 77 ∷ 90 ∷ 88 ∷ 87 ∷ 54 ∷ 89 ∷ 84 ∷ 66 ∷ 79 ∷ 73 ∷ []
unfolding base32_encode symbol
foobar_encoded = refl

-- "mzxw 6yq=" and a text with a character that is not of the alphabet.
decoded_leniently :
    (base32_decode (109 ∷ 122 ∷ 120 ∷ 119 ∷ 32 ∷ 54 ∷ 121 ∷ 113 ∷ 61 ∷ [])
      ≡ some (102 ∷ 111 ∷ 111 ∷ 98 ∷ []))
    × (base32_decode (77 ∷ 49 ∷ []) ≡ none)
unfolding base32_decode symbol_value
decoded_leniently = (refl, refl)

base32_decode-base32_encode_example : base32_decode (base32_encode foobar) ≡ some foobar
base32_decode-base32_encode_example =
    base32_decode-base32_encode foobar
      (omega arith, (omega arith, (omega arith, (omega arith, (omega arith, (omega arith, tt))))))

abbrev digest : List ℕ → List ℕ → List ℕ
digest key message = key ++ message ++ message

abbrev secret : List ℕ
secret = 77 ∷ 90 ∷ 88 ∷ 87 ∷ 54 ∷ 89 ∷ 81 ∷ []

abbrev key : List ℕ
key = 102 ∷ 111 ∷ 111 ∷ 98 ∷ []

-- "000 120", whose spaces do not count.
abbrev code : List ℕ
code = 48 ∷ 48 ∷ 48 ∷ 32 ∷ 49 ∷ 50 ∷ 48 ∷ []

verify_totp-window_example : (verify_totp digest secret code 3600000 1 ≡ some true) ↔ (
    (c : ℕ) × (3600000 / 1000 / 30 ≤ c + 1)
    × (c ≤ 3600000 / 1000 / 30 + 1)
    × (hotp_code digest secret c 6 ≡ some (without_spaces code)))
unfolding base32_decode symbol_value
verify_totp-window_example = verify_totp-window digest secret key code 3600000 1 refl (omega arith)

-- The code of one hour, 25 seconds later.
abbrev made_code : List ℕ
made_code = 48 ∷ 48 ∷ 48 ∷ 49 ∷ 50 ∷ 48 ∷ []

totp_code_accepted_example : verify_totp digest secret made_code 3625000 1 ≡ some true
unfolding base32_decode symbol_value totp_code hotp_code truncate
totp_code_accepted_example =
    totp_code_accepted digest secret key made_code 3600000 3625000 refl refl (omega arith)
      (omega arith) (omega arith)
