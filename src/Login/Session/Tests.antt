-- ===== src/Login/Session/Tests.antt =====
-- Logins with a limit of two failures and a lock of one minute.
use sistema_de_gestion_de_po.Common.{
  ℕ, ◌≡◌, refl, ◌≢◌, ◌⊎◌, inr, true, false, none, some, String, [], ◌∷◌, str_eq, Dict, lookup,
  arith,
}
use sistema_de_gestion_de_po.Login.{Attempt, Settings, too_many_requests, assert_not_locked}
use sistema_de_gestion_de_po.Login.Lockout.{TableIsValid}
use sistema_de_gestion_de_po.Login.Session.{
  User, State, Env, refused, login, check_password, authenticated,
}
use sistema_de_gestion_de_po.Login.Session.Guarantees.{
  login-session, brute_force_refused, try_passwords,
}

abbrev settings : Settings
settings = record { max_failed_logins = some 2; lockout_minutes = some 1 }

abbrev same_key : String → String
same_key s = s

abbrev ana : User
ana = record {
  email = "ana@pyme.es";
  password_hash = "secreto";
  is_active = true;
  organization_active = true;
  email_verified_at = some 5;
  mfa_enabled = false;
  token_version = 0;
  last_login_at = none;
}

abbrev env : Env
env = record {
  key_of = same_key;
  compare = str_eq;
  dummy_hash = "-";
  mfa_token = λ u. u.email;
  settings = settings;
  email_verification_required = true;
}

abbrev before : State
before = record { users = ("ana@pyme.es", ana) ∷ []; attempts = [] }

login-session_example :
    (assert_not_locked same_key settings before.attempts "ana@pyme.es" 100 ≡ none)
    × (lookup "ana@pyme.es" before.users ≡ some ana)
    × (str_eq "secreto" ana.password_hash ≡ true)
    × (ana.is_active ≡ true)
    × (ana.organization_active ≡ true)
    × ((env.email_verification_required ≡ false) ⊎ (ana.email_verified_at ≢ none))
    × (ana.mfa_enabled ≡ false)
    × (lookup "ana@pyme.es" (login env before "ana@pyme.es" "secreto" 100).1.attempts ≡ none)
unfolding login check_password authenticated assert_not_locked lookup
login-session_example = login-session env before "ana@pyme.es" "secreto" 100 ana refl

abbrev after_guesses : State
after_guesses = try_passwords env before "ana@pyme.es" (("uno", 100) ∷ ("dos", 200) ∷ [])

-- The right password is refused while the account is locked.
brute_force_refused_example :
    (minutes seconds : ℕ) × (login env after_guesses "ana@pyme.es" "secreto" 300
      ≡ (refused (too_many_requests minutes seconds), after_guesses))
unfolding lookup
brute_force_refused_example =
    brute_force_refused env before "ana@pyme.es" "uno" 100 (("dos", 200) ∷ []) "secreto" 300 refl
      (inr (ana, refl, refl), (inr (ana, refl, refl), tt)) (omega arith, omega arith, tt) refl
      (omega arith)

abbrev one_failure : Dict Attempt
one_failure =
    (
      "eva@pyme.es",
      record { state = record { failures = 1; locked_until = none }; updated_at = 50 },
    )
    ∷ []

one_failure-valid : TableIsValid same_key settings one_failure
unfolding lookup
one_failure-valid k r e = ground (arith, e)
