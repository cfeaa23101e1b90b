-- ===== src/Mfa/SecondStep/Guesses.antt =====
-- Wrong codes one after another in the second step
-- (backend/src/auth/mfa.service.ts, `completeLogin`).
use sistema_de_gestion_de_po.Common.{
  ℕ, suc, ◌+◌, ◌≤◌, ◌<◌, ◌≡◌, refl, ap, sym, subst, true, false, none, some, String, List, [], ◌∷◌,
  length, length-map, map, All, lookup, arith, eq_iff,
}
use sistema_de_gestion_de_po.Login.{
  HttpError, too_many_requests, assert_not_locked, max_failures, lockout_ms,
}
use sistema_de_gestion_de_po.Login.Lockout.{
  row, recorded, first_recorded, Within, last_of, record_failures, lockout_after_failures,
}
use sistema_de_gestion_de_po.Totp.Codes.{verify_totp}
use sistema_de_gestion_de_po.Mfa.{
  Account, State, Env, Payload, refused, secret_of, recovery_code_hash,
}
use sistema_de_gestion_de_po.Mfa.SecondStep.{
  incorrect, has_code, decide, decide_account, decide_code, count_wrong, carry_out, complete_login,
}

module _ (env : Env) where
  -- One request after another with the same token: codes with their times.
  pub try_codes : State → String → List (List ℕ × ℕ) → State
  try_codes s token [] = s
  try_codes s token ((c, t) ∷ cs) = try_codes (complete_login env s token c t).1 token cs

  -- A code that is none of the account's at that time.
  abbrev pub IsWrong : Account → List ℕ → List ℕ × ℕ → Type 0
  IsWrong a secret c =
      (verify_totp env.hmac secret c.0 c.1 1 ≡ some false)
      × (has_code (recovery_code_hash env c.0) a ≡ false)

  -- An account that the token admits to the second step, whatever is counted against it.
  abbrev pub Admits : State → String → Payload → Account → List ℕ → Type 0
  Admits s token payload a secret =
      (env.verify_token token ≡ some payload)
      × (payload.purpose ≡ "mfa")
      × (lookup payload.sub s.accounts ≡ some a)
      × (a.user.is_active ≡ true)
      × (a.user.organization_active ≡ true)
      × (a.user.token_version ≡ payload.ver)
      × (a.user.mfa_enabled ≡ true)
      × (secret_of a.mfa_secret ≡ some secret)

  complete_login-wrong :
      (s : State) (token : String) (payload : Payload) (a : Account) (secret code : List ℕ)
      (now : ℕ)
      → Admits s token payload a secret
      → IsWrong a secret (code, now)
      → assert_not_locked env.key_of env.settings s.attempts a.user.email now ≡ none
      → complete_login env s token code now
        ≡ (refused incorrect, count_wrong env s a.user.email now)
  unfolding complete_login decide decide_account decide_code carry_out
  complete_login-wrong s token payload a secret code now admits wrong free =
      ground (arith, admits, wrong, free, eq_iff payload.purpose "mfa")

  complete_login-locked :
      (s : State) (token : String) (payload : Payload) (a : Account) (secret code : List ℕ)
      (now : ℕ) (error : HttpError)
      → Admits s token payload a secret
      → assert_not_locked env.key_of env.settings s.attempts a.user.email now ≡ some error
      → complete_login env s token code now ≡ (refused error, s)
  unfolding complete_login decide decide_account carry_out
  complete_login-locked s token payload a secret code now error admits locked =
      ground (arith, admits, locked, eq_iff payload.purpose "mfa")

  row_free :
      (s : State) (email : String) (n last now : ℕ)
      → lookup (env.key_of email) s.attempts ≡ some (row env.key_of env.settings n last)
      → assert_not_locked env.key_of env.settings s.attempts email now ≡ none
  unfolding assert_not_locked
  row_free s email n last now e = ground arith

  no_row_free :
      (s : State) (email : String) (now : ℕ)
      → lookup (env.key_of email) s.attempts ≡ none
      → assert_not_locked env.key_of env.settings s.attempts email now ≡ none
  unfolding assert_not_locked
  no_row_free s email now e = ground arith

  abbrev pub times : List (List ℕ × ℕ) → List ℕ
  times cs = map (λ c. c.1) cs

  abbrev recorded_state : State → Account → List ℕ → State
  recorded_state s a ts = record s {
    attempts = record_failures env.key_of env.settings s.attempts a.user.email ts;
  }

  tries-record :
      (s : State) (token : String) (payload : Payload) (a : Account) (secret : List ℕ) (n last : ℕ)
      (cs : List (List ℕ × ℕ))
      → Admits s token payload a secret
      → lookup (env.key_of a.user.email) s.attempts ≡ some (row env.key_of env.settings n last)
      → Within (lockout_ms env.settings) last (times cs)
      → n + length cs ≤ max_failures env.settings
      → All (λ c. IsWrong a secret c) cs
      → try_codes s token cs ≡ recorded_state s a (times cs)
  unfolding try_codes record_failures count_wrong
  tries-record s token payload a secret n last [] admits e w l wrong = refl
  tries-record s token payload a secret n last ((c, t) ∷ []) admits e w l wrong =
      ap (λ r. r.1)
        (complete_login-wrong s token payload a secret c t admits wrong.0
          (row_free s a.user.email n last t e))
  tries-record s token payload a secret n last ((c, t) ∷ d ∷ cs) admits e w l wrong =
      rw
        (complete_login-wrong s token payload a secret c t admits wrong.0
          (row_free s a.user.email n last t e))
        (tries-record (count_wrong env s a.user.email t) token payload a secret (suc n) t (d ∷ cs)
          admits
          (recorded env.key_of env.settings s.attempts a.user.email n last t e w.0 w.1
            (omega arith))
          w.2 (omega arith) wrong.1)

  every_code_counts :
      (s : State) (token : String) (payload : Payload) (a : Account) (secret code : List ℕ) (t : ℕ)
      (cs : List (List ℕ × ℕ))
      → Admits s token payload a secret
      → lookup (env.key_of a.user.email) s.attempts ≡ none
      → All (λ c. IsWrong a secret c) ((code, t) ∷ cs)
      → Within (lockout_ms env.settings) t (times cs)
      → suc (length cs) ≡ max_failures env.settings
      → try_codes s token ((code, t) ∷ cs) ≡ recorded_state s a (t ∷ times cs)
  unfolding try_codes record_failures count_wrong
  every_code_counts s token payload a secret code t [] admits e wrong w l =
      ap (λ r. r.1)
        (complete_login-wrong s token payload a secret code t admits wrong.0
          (no_row_free s a.user.email t e))
  every_code_counts s token payload a secret code t (d ∷ cs) admits e wrong w l =
      rw
        (
          complete_login-wrong s token payload a secret code t admits wrong.0
              (no_row_free s a.user.email t e),
          try_codes,
        )
        (tries-record (count_wrong env s a.user.email t) token payload a secret 1 t (d ∷ cs) admits
          (first_recorded env.key_of env.settings s.attempts a.user.email t e (omega arith)) w
          (omega arith) wrong.1)

  -- Guessing the second step fails: after as many wrong codes as the limit for an account without
  -- failures counted, each within the window of the one before, every code until the end of the
  -- lock is refused with a 429 and changes nothing, a current code included.
  pub wrong_codes_lock :
      (s : State) (token : String) (payload : Payload) (a : Account) (secret code : List ℕ) (t : ℕ)
      (cs : List (List ℕ × ℕ)) (guess : List ℕ) (now : ℕ)
      → Admits s token payload a secret
      → lookup (env.key_of a.user.email) s.attempts ≡ none
      → All (λ c. IsWrong a secret c) ((code, t) ∷ cs)
      → Within (lockout_ms env.settings) t (times cs)
      → suc (length cs) ≡ max_failures env.settings
      → now < last_of t (times cs) + lockout_ms env.settings
      → let s' = try_codes s token ((code, t) ∷ cs) in
        (minutes seconds : ℕ) × (complete_login env s' token guess now
          ≡ (refused (too_many_requests minutes seconds), s'))
  wrong_codes_lock s token payload a secret code t cs guess now admits e wrong w l before =
      let (minutes, seconds, locked, _, _) =
        lockout_after_failures env.key_of env.settings s.attempts a.user.email t (times cs) now e w
          (cc (l, length-map (λ (q : List ℕ × ℕ). q.1) cs)) before in
      (
        minutes,
        seconds,
        subst
            (λ (s' : State).
              complete_login env s' token guess now
              ≡ (refused (too_many_requests minutes seconds), s'))
            (sym (every_code_counts s token payload a secret code t cs admits e wrong w l))
            (complete_login-locked (recorded_state s a (t ∷ times cs)) token payload a secret guess
              now (too_many_requests minutes seconds) admits locked),
      )
