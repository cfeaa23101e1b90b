-- ===== src/Mfa/Tests.antt =====
-- Two accounts with a second factor, and requests with their codes.
use sistema_de_gestion_de_po.Common.{
  ℕ, ◌≡◌, refl, true, false, none, some, List, [], ◌∷◌, ◌++◌, arith, ◌==◌, str_eq, if◌then◌else◌,
  lookup, put, remove, eq_iff,
}
use sistema_de_gestion_de_po.Login.{bad_request, too_many_requests, assert_not_locked, reset}
use sistema_de_gestion_de_po.Totp.{base32_decode, symbol_value}
use sistema_de_gestion_de_po.Totp.Codes.{verify_totp, hotp_code, truncate, normalize_recovery_code}
use sistema_de_gestion_de_po.Mfa.{
  Account, State, Env, Payload, refused, done, secret_of, recovery_code_hash, disable, clear,
}
use sistema_de_gestion_de_po.Mfa.Invariant.{IsValid, step-IsValid, carries_out}
use sistema_de_gestion_de_po.Mfa.SecondStep.{
  by_recovery, incorrect, has_code, decide, decide_account, decide_code, count_wrong, carry_out,
  complete_login, finish_login, consume,
}
use sistema_de_gestion_de_po.Mfa.SecondStep.Guarantees.{ByCode, complete_login-Verified}
use sistema_de_gestion_de_po.Mfa.SecondStep.Consumption.{
  recovery_code-SingleUse, stale_codes_return,
}
use sistema_de_gestion_de_po.Mfa.SecondStep.Guesses.{try_codes, wrong_codes_lock}

abbrev digest : List ℕ → List ℕ → List ℕ
digest key message = key ++ message ++ message

abbrev env : Env
env = record {
  key_of = λ e. e;
  settings = record { max_failed_logins = some 2; lockout_minutes = some 1 };
  compare = str_eq;
  hmac = digest;
  -- The first character tells the codes apart.
  sha256 =
      λ c. elim c [ [] ↦ "-" | x ∷ xs ↦ if x == 65 then "a" else if x == 66 then "b" else "c" ];
  verify_token = λ t.
      if str_eq t "token" then some (record { sub = "u1"; purpose = "mfa"; ver = 0 }) else none;
}

abbrev payload : Payload
payload = record { sub = "u1"; purpose = "mfa"; ver = 0 }

-- "MZXW6YQ"
abbrev secret : List ℕ
secret = 77 ∷ 90 ∷ 88 ∷ 87 ∷ 54 ∷ 89 ∷ 81 ∷ []

abbrev ana : Account
ana = record {
  user = record {
    email = "ana@pyme.es";
    password_hash = "secreto";
    is_active = true;
    organization_active = true;
    email_verified_at = some 5;
    mfa_enabled = true;
    token_version = 0;
    last_login_at = none;
  };
  mfa_secret = some secret;
  mfa_pending_secret = none;
  mfa_enabled_at = some 10;
  mfa_recovery_codes = "a" ∷ "b" ∷ [];
}

abbrev before : State
before = record { accounts = ("u1", ana) ∷ []; attempts = [] }

-- The codes "AAAAA-AAAAA" and "BBBBBBBBBB".
abbrev first_code : List ℕ
first_code = 65 ∷ 65 ∷ 65 ∷ 65 ∷ 65 ∷ 45 ∷ 65 ∷ 65 ∷ 65 ∷ 65 ∷ 65 ∷ []

abbrev second_code : List ℕ
second_code = 66 ∷ 66 ∷ 66 ∷ 66 ∷ 66 ∷ 66 ∷ 66 ∷ 66 ∷ 66 ∷ 66 ∷ []

-- The current code of the time 3600000.
abbrev current : List ℕ
current = 48 ∷ 48 ∷ 48 ∷ 49 ∷ 50 ∷ 48 ∷ []

-- A recovery code does not turn the second factor off, though the method's comment says that it does.
recovery_code_refused :
    ((disable env before "u1" "secreto" first_code 3600000).0
      ≡ refused (bad_request "El código no es correcto"))
    × ((disable env before "u1" "secreto" current 3600000).0 ≡ done false)
unfolding disable clear lookup verify_totp hotp_code truncate base32_decode symbol_value
recovery_code_refused = (refl, refl)

complete_login-Verified_example :
    (p : Payload) × (a : Account) × (k : List ℕ) × (env.verify_token "token" ≡ some p)
    × (p.purpose ≡ "mfa")
    × (lookup p.sub before.accounts ≡ some a)
    × (a.user ≡ ana.user)
    × (ana.user.is_active ≡ true)
    × (ana.user.organization_active ≡ true)
    × (ana.user.token_version ≡ p.ver)
    × (ana.user.mfa_enabled ≡ true)
    × (secret_of a.mfa_secret ≡ some k)
    × (assert_not_locked env.key_of env.settings before.attempts ana.user.email 3600000 ≡ none)
    × ByCode env before p.sub a k first_code 3600000
        (complete_login env before "token" first_code 3600000).1
unfolding complete_login decide decide_account decide_code carry_out consume finish_login lookup put
    reset remove assert_not_locked verify_totp recovery_code_hash normalize_recovery_code
complete_login-Verified_example =
    complete_login-Verified env before "token" first_code 3600000 ana.user refl

recovery_code-SingleUse_example :
    let (first, s') = carry_out env before (by_recovery "u1" ana "a") 3600000 in
    (first ≡ done ana.user)
    × (carry_out env s' (by_recovery "u1" ana "a") 3600100
        ≡ (refused incorrect, count_wrong env s' ana.user.email 3600100))
unfolding decide decide_account decide_code lookup assert_not_locked verify_totp recovery_code_hash
    normalize_recovery_code
recovery_code-SingleUse_example =
    recovery_code-SingleUse env before "token" first_code "u1" ana "a" 3600000 3600100 refl

stale_codes_return_example :
    let (first, s') = carry_out env before (by_recovery "u1" ana "a") 3600000 in
    let (second, s'') = carry_out env s' (by_recovery "u1" ana "b") 3600100 in
    (first ≡ done ana.user)
    × (second ≡ done ana.user)
    × ((b : Account) × (lookup "u1" s''.accounts ≡ some b) × (has_code "a" b ≡ true))
unfolding decide decide_account decide_code lookup assert_not_locked verify_totp recovery_code_hash
    normalize_recovery_code
stale_codes_return_example =
    stale_codes_return env before "token" "token" first_code second_code "u1" ana "a" "b" 3600000
      3600100 refl refl (λ e. ground (arith, (eq_iff "a" "b").1 e))

abbrev guesses : List (List ℕ × ℕ)
guesses = (48 ∷ [], 3600000) ∷ (49 ∷ [], 3600200) ∷ []

-- The current code is refused while the account is locked.
wrong_codes_lock_example :
    let s' = try_codes env before "token" guesses in
    (minutes seconds : ℕ) × (complete_login env s' "token" current 3600300
      ≡ (refused (too_many_requests minutes seconds), s'))
unfolding lookup verify_totp recovery_code_hash normalize_recovery_code
wrong_codes_lock_example =
    wrong_codes_lock env before "token" payload ana secret (48 ∷ []) 3600000
      ((49 ∷ [], 3600200) ∷ []) current 3600300 (refl, refl, refl, refl, refl, refl, refl, refl)
      refl ((refl, refl), ((refl, refl), tt)) (omega arith, omega arith, tt) refl (omega arith)

before-IsValid : IsValid before
unfolding IsValid lookup
before-IsValid id a e = ground (arith, e)

step-IsValid_example : IsValid (carry_out env before (by_recovery "u1" ana "a") 3600000).1
step-IsValid_example =
    step-IsValid env before (carry_out env before (by_recovery "u1" ana "a") 3600000).1
      (carries_out before (by_recovery "u1" ana "a") 3600000) before-IsValid
