-- ===== src/Totp/Codes/Window.antt =====
-- Which codes are accepted, and for how long (backend/src/auth/totp.ts, `verifyTotp`).
use sistema_de_gestion_de_po.Common.{
  same_number, ℕ, zero, suc, ◌+◌, ◌-◌, ◌*◌, ◌/◌, ◌%◌, ◌^◌, ◌<◌, ◌≤◌, ◌≡◌, refl, ap, sym, subst, ◌∙◌,
  ◌↔◌, inl, inr, Bool, true, false, ◌&&◌, ◌||◌, some, List, [], ◌∷◌, ◌++◌, length, all, ltb, ◌==◌,
  if◌then◌else◌, or_else, arith, Bool-cases, length-append,
}
use sistema_de_gestion_de_po.Totp.{base32_decode}
use sistema_de_gestion_de_po.Totp.Codes.{
  padded, big_endian, same_text, is_digit, without_spaces, is_six_digits, hotp_code, totp_code,
  check_counters, verify_totp, truncate,
}

same_text_eq : (cs ds : List ℕ) → same_text cs ds ≡ true → cs ≡ ds
same_text_eq [] [] h = refl
same_text_eq [] (d ∷ ds) h = ground (arith, h)
same_text_eq (c ∷ cs) [] h = ground (arith, h)
same_text_eq (c ∷ cs) (d ∷ ds) h = ground (arith, h, same_text_eq cs ds)

same_text_refl : (cs : List ℕ) → same_text cs cs ≡ true
same_text_refl [] = refl
same_text_refl (c ∷ cs) = ground (arith, same_text_refl cs)

length-padded : (w n : ℕ) → length (padded w n) ≡ w
length-padded zero n = refl
length-padded (suc w) n =
    omega (arith, length-append (padded w (n / 10)) ((48 + n % 10) ∷ []), length-padded w (n / 10))

all_append :
    (p : ℕ → Bool) (cs ds : List ℕ) → all p cs ≡ true → all p ds ≡ true → all p (cs ++ ds) ≡ true
all_append p [] ds h h' = h'
all_append p (c ∷ cs) ds h h' = ground (arith, all_append p cs ds, h, h')

padded_digits : (w n : ℕ) → all is_digit (padded w n) ≡ true
padded_digits zero n = refl
padded_digits (suc w) n =
    all_append is_digit (padded w (n / 10)) ((48 + n % 10) ∷ []) (padded_digits w (n / 10))
      (ground arith)

digits_kept : (cs : List ℕ) → all is_digit cs ≡ true → without_spaces cs ≡ cs
digits_kept [] h = refl
digits_kept (c ∷ cs) h = ground (arith, digits_kept cs, h)

some_inj : {a b : List ℕ} → some a ≡ some b → a ≡ b
some_inj e = ap (λ o. or_else o []) e

some_inj_bool : {b : Bool} → some b ≡ some true → b ≡ true
some_inj_bool e = ap (λ o. or_else o false) e

not_before : (counter window : ℕ) → window ≤ counter → ltb counter window ≡ false
not_before counter window h = ground (arith, h)

module _ (hmac : List ℕ → List ℕ → List ℕ) where
  code_of : List ℕ → ℕ → List ℕ
  code_of key c = padded 6 (truncate (hmac key (big_endian 8 c)) % 10 ^ 6)

  hotp_code-some :
      (secret key : List ℕ) (c : ℕ)
      → base32_decode secret ≡ some key
      → hotp_code hmac secret c 6 ≡ some (code_of key c)
  unfolding hotp_code code_of
  hotp_code-some secret key c e = rw (e, hotp_code) refl

  code_of-six :
      (key : List ℕ) (c : ℕ)
      → (is_six_digits (code_of key c) ≡ true) × (without_spaces (code_of key c) ≡ code_of key c)
  unfolding code_of
  code_of-six key c =
      let n = truncate (hmac key (big_endian 8 c)) % 10 ^ 6 in
      (
        ground (arith, length-padded 6 n, padded_digits 6 n),
        digits_kept (padded 6 n) (padded_digits 6 n),
      )

  -- Some of the `n` counters from `start` gives the code.
  abbrev any_match : List ℕ → List ℕ → ℕ → ℕ → Bool
  any_match key code start zero = false
  any_match key code start (suc n) =
      same_text (code_of key start) code || any_match key code (suc start) n

  or_step : (same ok rest : Bool) → ((if same then true else ok) || rest) ≡ (ok || (same || rest))
  or_step true true rest = refl
  or_step true false rest = refl
  or_step false ok rest = refl

  check_counters-any_match :
      (secret key code : List ℕ) (start n : ℕ) (ok : Bool)
      → base32_decode secret ≡ some key
      → check_counters hmac secret code start n ok ≡ some (ok || any_match key code start n)
  check_counters-any_match secret key code start zero true e = refl
  check_counters-any_match secret key code start zero false e = refl
  check_counters-any_match secret key code start (suc n) ok e =
      rw (check_counters, hotp_code-some secret key start e)
        (check_counters-any_match secret key code (suc start) n
            (if same_text (code_of key start) code then true else ok) e
          ∙ ap some
              (or_step (same_text (code_of key start) code) ok (any_match key code (suc start) n)))

  any_match_sound :
      (key code : List ℕ) (start n : ℕ)
      → any_match key code start n ≡ true
      → (c : ℕ) × (start ≤ c) × (c < start + n) × (code_of key c ≡ code)
  any_match_sound key code start zero h = ground (arith, h)
  any_match_sound key code start (suc n) h =
      elim (Bool-cases (same_text (code_of key start) code)) [
        | inl same ↦ (start, omega arith, omega arith, same_text_eq (code_of key start) code same)
        | inr other ↦
            let (c, from, upto, e) =
              any_match_sound key code (suc start) n (ground (arith, h, other)) in
            (c, omega (arith, from), omega (arith, upto), e)
      ]

  any_match_complete :
      (key : List ℕ) (start n c : ℕ)
      → start ≤ c
      → c < start + n
      → any_match key (code_of key c) start n ≡ true
  any_match_complete key start zero c from upto = ground arith
  any_match_complete key start (suc n) c from upto = elim (Bool-cases (start == c)) [
    | inl same ↦ rw (same_number start c same) (ground (arith, same_text_refl (code_of key c)))
    | inr other ↦
        ground (arith, any_match_complete key (suc start) n c (ground (arith, other)) (omega arith))
  ]

  abbrev InWindow : List ℕ → List ℕ → ℕ → ℕ → Type 0
  InWindow secret code counter window =
      (c : ℕ) × (counter ≤ c + window)
      × (c ≤ counter + window)
      × (hotp_code hmac secret c 6 ≡ some code)

  verify_totp-unfold :
      (secret key code : List ℕ) (time window : ℕ)
      → base32_decode secret ≡ some key
      → window ≤ time / 1000 / 30
      → verify_totp hmac secret code time window
        ≡ some (
            is_six_digits (without_spaces code)
            && any_match key (without_spaces code) (time / 1000 / 30 - window) (2 * window + 1))
  unfolding verify_totp
  verify_totp-unfold secret key code time window e late =
      elim (Bool-cases (is_six_digits (without_spaces code))) [
        | inl six ↦
            rw (six, not_before (time / 1000 / 30) window late)
              (check_counters-any_match secret key (without_spaces code) (time / 1000 / 30 - window)
                (2 * window + 1) false e)
        | inr other ↦ rw other refl
      ]

  window_sound :
      (secret key code : List ℕ) (counter window : ℕ)
      → base32_decode secret ≡ some key
      → window ≤ counter
      → (is_six_digits code && any_match key code (counter - window) (2 * window + 1)) ≡ true
      → InWindow secret code counter window
  window_sound secret key code counter window e late h =
      let (c, from, upto, same) =
        any_match_sound key code (counter - window) (2 * window + 1) (ground (arith, h)) in
      (
        c,
        omega (arith, from),
        omega (arith, upto, late),
        hotp_code-some secret key c e ∙ ap some same,
      )

  window_complete :
      (secret key code : List ℕ) (counter window : ℕ)
      → base32_decode secret ≡ some key
      → window ≤ counter
      → InWindow secret code counter window
      → (is_six_digits code && any_match key code (counter - window) (2 * window + 1)) ≡ true
  window_complete secret key code counter window e late (c, from, upto, same) =
      subst
        (λ (t : List ℕ).
          (is_six_digits t && any_match key t (counter - window) (2 * window + 1)) ≡ true)
        (some_inj (sym (hotp_code-some secret key c e) ∙ same))
        (ground (
          arith,
          (code_of-six key c).0,
          any_match_complete key (counter - window) (2 * window + 1) c (omega (arith, from))
              (omega (arith, upto)),
        ))

  -- A code is accepted exactly when, without its spaces, it is the code of a counter that is at
  -- most `window` steps away from the present one, for a secret that decodes and a present counter
  -- of at least `window`.
  pub verify_totp-window :
      (secret key code : List ℕ) (time window : ℕ)
      → base32_decode secret ≡ some key
      → window ≤ time / 1000 / 30
      → (verify_totp hmac secret code time window ≡ some true) ↔ (
          (c : ℕ) × (time / 1000 / 30 ≤ c + window)
          × (c ≤ time / 1000 / 30 + window)
          × (hotp_code hmac secret c 6 ≡ some (without_spaces code)))
  verify_totp-window secret key code time window e late =
      let counter = time / 1000 / 30 in
      let same = verify_totp-unfold secret key code time window e late in
      (
        (λ h.
            window_sound secret key (without_spaces code) counter window e late
              (some_inj_bool (sym same ∙ h))),
        (λ found.
            same
            ∙ ap some
                (window_complete secret key (without_spaces code) counter window e late found)),
      )

  -- A code that was current at some instant is accepted during the 30 seconds before and after it.
  pub totp_code_accepted :
      (secret key code : List ℕ) (made now : ℕ)
      → base32_decode secret ≡ some key
      → totp_code hmac secret made ≡ some code
      → made ≤ now + 30000
      → now ≤ made + 30000
      → 30000 ≤ now
      → verify_totp hmac secret code now 1 ≡ some true
  unfolding totp_code
  totp_code_accepted secret key code made now e current before after late =
      let c = made / 1000 / 30 in
      let same = some_inj (sym (hotp_code-some secret key c e) ∙ current) in
      (verify_totp-window secret key code now 1 e (omega (arith, late))).1 (
        c,
        omega (arith, before, after),
        omega (arith, before, after),
        subst (λ (t : List ℕ). hotp_code hmac secret c 6 ≡ some (without_spaces t)) same
            (hotp_code-some secret key c e ∙ ap some (sym (code_of-six key c).1)),
      )
