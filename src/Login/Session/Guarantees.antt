-- ===== src/Login/Session/Guarantees.antt =====
-- What a login establishes before it hands out a session, and what it leaves unchanged.
use sistema_de_gestion_de_po.Common.{
  ℕ, suc, ◌≤◌, ◌<◌, ◌+◌, ◌≡◌, refl, ◌⊎◌, ◌≢◌, true, false, none, some, String, List, lookup, arith,
  length, lookup-remove_self, map, All, length-map, ap, [], ◌∷◌,
}
use sistema_de_gestion_de_po.Login.{
  HttpError, too_many_requests, assert_not_locked, record_failure, reset, max_failures, lockout_ms,
}
use sistema_de_gestion_de_po.Login.Lockout.{
  row, recorded, first_recorded, Within, last_of, record_failures, lockout_after_failures,
}
use sistema_de_gestion_de_po.Login.Session.{
  User, State, Env, refused, session, login, authenticated,
}

module _ (env : Env) where
  -- A session is only given to an unlocked account, for a user stored under the email whose hash
  -- the password matches, active in an active organization, with a verified email where that is
  -- required, and without a second step; the failure counter of that email is then cleared.
  pub login-session :
      (s : State) (email password : String) (now : ℕ) (user : User)
      → (login env s email password now).0 ≡ session user
      → (assert_not_locked env.key_of env.settings s.attempts email now ≡ none)
        × (lookup email s.users ≡ some user)
        × (env.compare password user.password_hash ≡ true)
        × (user.is_active ≡ true)
        × (user.organization_active ≡ true)
        × ((env.email_verification_required ≡ false) ⊎ (user.email_verified_at ≢ none))
        × (user.mfa_enabled ≡ false)
        × (lookup (env.key_of email) (login env s email password now).1.attempts ≡ none)
  unfolding login authenticated reset
  login-session s email password now user h = (
    ground arith,
    ground arith,
    ground arith,
    ground arith,
    ground arith,
    ground arith,
    ground arith,
    ground (arith, lookup-remove_self (env.key_of email) s.attempts),
  )

  -- The password does not match the account's hash, or there is no such account.
  abbrev pub IsWrong : State → String → String → Type 0
  IsWrong s email p =
      (lookup email s.users ≡ none)
      ⊎ ((u : User) × (lookup email s.users ≡ some u) × (env.compare p u.password_hash ≡ false))

  login-wrong :
      (s : State) (email p : String) (now : ℕ)
      → assert_not_locked env.key_of env.settings s.attempts email now ≡ none
      → IsWrong s email p
      → (login env s email p now).1
        ≡ record s { attempts = record_failure env.key_of env.settings s.attempts email now }
  unfolding login
  login-wrong s email p now free wrong = ground arith

  unlocked_free :
      (s : State) (email : String) (n last now : ℕ)
      → lookup (env.key_of email) s.attempts ≡ some (row env.key_of env.settings n last)
      → assert_not_locked env.key_of env.settings s.attempts email now ≡ none
  unfolding assert_not_locked
  unlocked_free s email n last now e = ground arith

  no_row_free :
      (s : State) (email : String) (now : ℕ)
      → lookup (env.key_of email) s.attempts ≡ none
      → assert_not_locked env.key_of env.settings s.attempts email now ≡ none
  unfolding assert_not_locked
  no_row_free s email now e = ground arith

  -- One attempt after another: passwords with their times.
  pub try_passwords : State → String → List (String × ℕ) → State
  try_passwords s email [] = s
  try_passwords s email ((p, t) ∷ ps) = try_passwords (login env s email p t).1 email ps

  abbrev pub times : List (String × ℕ) → List ℕ
  times ps = map (λ p. p.1) ps

  abbrev pub AllWrong : State → String → List (String × ℕ) → Type 0
  AllWrong s email ps = All (λ p. IsWrong s email p.0) ps

  -- While the limit is not passed, wrong passwords are recorded one by one.
  tries-record :
      (s : State) (email : String) (n last : ℕ) (ps : List (String × ℕ))
      → lookup (env.key_of email) s.attempts ≡ some (row env.key_of env.settings n last)
      → Within (lockout_ms env.settings) last (times ps)
      → n + length ps ≤ max_failures env.settings
      → AllWrong s email ps
      → try_passwords s email ps ≡ record s {
        attempts = record_failures env.key_of env.settings s.attempts email (times ps);
      }
  unfolding try_passwords record_failures
  tries-record s email n last [] e w l wrong = refl
  tries-record s email n last ((p, t) ∷ []) e w l wrong =
      login-wrong s email p t (unlocked_free s email n last t e) wrong.0
  tries-record s email n last ((p, t) ∷ q ∷ ps) e w l wrong =
      rw (login-wrong s email p t (unlocked_free s email n last t e) wrong.0) (
        tries-record
          (record s { attempts = record_failure env.key_of env.settings s.attempts email t }) email
          (suc n) t (q ∷ ps)
          (recorded env.key_of env.settings s.attempts email n last t e w.0 w.1 (omega arith)) w.2
          (omega arith) wrong.1)

  all_recorded :
      (s : State) (email p : String) (t : ℕ) (ps : List (String × ℕ))
      → lookup (env.key_of email) s.attempts ≡ none
      → AllWrong s email ((p, t) ∷ ps)
      → Within (lockout_ms env.settings) t (times ps)
      → suc (length ps) ≡ max_failures env.settings
      → (try_passwords s email ((p, t) ∷ ps)).attempts
        ≡ record_failures env.key_of env.settings s.attempts email (t ∷ times ps)
  unfolding try_passwords record_failures
  all_recorded s email p t [] e wrong w l =
      ap (λ (s' : State). s'.attempts) (login-wrong s email p t (no_row_free s email t e) wrong.0)
  all_recorded s email p t (q ∷ ps) e wrong w l =
      rw (login-wrong s email p t (no_row_free s email t e) wrong.0, try_passwords)
        (ap (λ (s' : State). s'.attempts)
          (tries-record
            (record s { attempts = record_failure env.key_of env.settings s.attempts email t })
            email 1 t (q ∷ ps)
            (first_recorded env.key_of env.settings s.attempts email t e (omega arith)) w
            (omega arith) wrong.1))

  login-locked :
      (s : State) (email p : String) (now : ℕ) (error : HttpError)
      → assert_not_locked env.key_of env.settings s.attempts email now ≡ some error
      → login env s email p now ≡ (refused error, s)
  unfolding login
  login-locked s email p now error h = ground arith

  -- Guessing fails: after as many wrong passwords as the limit for an account without a row, each within the window of the one
  -- before, every login until the end of the lock is refused with a 429 and changes nothing, the
  -- right password included.
  pub brute_force_refused :
      (s : State) (email p : String) (t : ℕ) (ps : List (String × ℕ)) (guess : String) (now : ℕ)
      → lookup (env.key_of email) s.attempts ≡ none
      → AllWrong s email ((p, t) ∷ ps)
      → Within (lockout_ms env.settings) t (times ps)
      → suc (length ps) ≡ max_failures env.settings
      → now < last_of t (times ps) + lockout_ms env.settings
      → let s' = try_passwords s email ((p, t) ∷ ps) in
        (minutes seconds : ℕ) × (login env s' email guess now
          ≡ (refused (too_many_requests minutes seconds), s'))
  brute_force_refused s email p t ps guess now e wrong w l before =
      let (minutes, seconds, locked, _, _) =
        lockout_after_failures env.key_of env.settings s.attempts email t (times ps) now e w
          (cc (l, length-map (λ (q : String × ℕ). q.1) ps)) before in
      (
        minutes,
        seconds,
        login-locked _ email guess now (too_many_requests minutes seconds)
            (rw (all_recorded s email p t ps e wrong w l) locked),
      )
