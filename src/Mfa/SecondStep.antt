-- ===== src/Mfa/SecondStep.antt =====
-- The second step of a login (backend/src/auth/mfa.service.ts, `completeLogin`), split where the
-- handler has read the account and goes on to write, since other requests may write in between.
pub mod Guarantees
pub mod Guesses
pub mod Consumption
use sistema_de_gestion_de_po.Common.{
  ℕ, zero, suc, ◌≡◌, Bool, true, false, not, ◌&&◌, ◌||◌, ◌==◌, Option, none, some, String, List, [],
  ◌∷◌, keep, length, any, leb, if◌then◌else◌, Dict, lookup, put, is_some, str_eq,
}
use sistema_de_gestion_de_po.Login.{
  Attempt, Settings, HttpError, unauthorized, assert_not_locked, record_failure, reset,
}
use sistema_de_gestion_de_po.Login.Session.{User}
use sistema_de_gestion_de_po.Totp.Codes.{verify_totp, normalize_recovery_code}
use sistema_de_gestion_de_po.Mfa.{
  Account, State, Env, Payload, Answer, refused, crashed, done, secret_of, recovery_code_hash,
}

-- What the handler has decided when its reads are over.
pub data Decision : Type 0 where
  deny : HttpError → Decision
  crash : Decision
  wrong_code : (email : String) → Decision
  by_totp : (id : String) → Account → Decision
  by_recovery : (id : String) → Account → (hash : String) → Decision

abbrev pub expired : HttpError
expired = unauthorized "La sesión de verificación caducó; vuelve a iniciar sesión"

abbrev pub incorrect : HttpError
incorrect = unauthorized "El código no es correcto"

abbrev pub has_code : String → Account → Bool
has_code hash a = any (λ h. str_eq h hash) a.mfa_recovery_codes

abbrev pub without_code : String → Account → List String
without_code hash a = keep (λ h. not (str_eq h hash)) a.mfa_recovery_codes

module _ (env : Env) where
  -- A code against an account with a second factor.
  unfoldable pub decide_code : String → Account → List ℕ → List ℕ → ℕ → Decision
  decide_code id a secret code now = elim (verify_totp env.hmac secret code now 1) [
    | none ↦ crash
    | some ok ↦
        if ok
        then by_totp id a
        else if leb 10 (length (normalize_recovery_code code))
            && has_code (recovery_code_hash env code) a
        then by_recovery id a (recovery_code_hash env code)
        else wrong_code a.user.email
  ]

  unfoldable pub decide_account : State → String → Account → ℕ → List ℕ → ℕ → Decision
  unfolding decide_code
  decide_account s id a ver code now =
      if not a.user.is_active || not a.user.organization_active || not (a.user.token_version == ver)
      then deny expired
      else if not a.user.mfa_enabled
      then deny (unauthorized "La verificación en dos pasos no está activada")
      else elim (secret_of a.mfa_secret) [
        | none ↦ deny (unauthorized "La verificación en dos pasos no está activada")
        | some secret ↦
            elim (assert_not_locked env.key_of env.settings s.attempts a.user.email now) [
              | some error ↦ deny error
              | none ↦ decide_code id a secret code now
            ]
      ]

  unfoldable pub decide : State → String → List ℕ → ℕ → Decision
  unfolding decide_account
  decide s token code now = elim (env.verify_token token) [
    | none ↦ deny expired
    | some payload ↦
        if not (str_eq payload.purpose "mfa")
        then deny (unauthorized "Token no válido para la verificación en dos pasos")
        else elim (lookup payload.sub s.accounts) [
          | none ↦ deny expired
          | some a ↦ decide_account s payload.sub a payload.ver code now
        ]
  ]

  unfoldable pub count_wrong : State → String → ℕ → State
  count_wrong s email now = record s {
    attempts = record_failure env.key_of env.settings s.attempts email now;
  }

  -- The answer holds the user as it was read.
  unfoldable pub finish_login : State → String → Account → ℕ → Answer User × State
  finish_login s id a now =
      let attempts = reset env.key_of env.settings s.attempts a.user.email in
      elim (lookup id s.accounts) [
        | none ↦ (crashed, record s { attempts = attempts })
        | some b ↦ (
          done a.user,
          record {
            accounts =
                put id (record b { user = record b.user { last_login_at = some now } }) s.accounts;
            attempts = attempts;
          },
        )
      ]

  -- `updateMany` on the row that still has the code: the remaining codes are those of the account
  -- as it was read. `none` is a count of 0.
  unfoldable pub consume : State → String → Account → String → Option State
  consume s id a hash = elim (lookup id s.accounts) [
    | none ↦ none
    | some b ↦
        if has_code hash b
        then some (record s {
          accounts = put id (record b { mfa_recovery_codes = without_code hash a }) s.accounts;
        })
        else none
  ]

  unfoldable pub carry_out : State → Decision → ℕ → Answer User × State
  carry_out s (deny error) now = (refused error, s)
  carry_out s crash now = (crashed, s)
  carry_out s (wrong_code email) now = (refused incorrect, count_wrong s email now)
  carry_out s (by_totp id a) now = finish_login s id a now
  carry_out s (by_recovery id a hash) now = elim (consume s id a hash) [
    | none ↦ (refused incorrect, count_wrong s a.user.email now)
    | some s' ↦ finish_login s' id a now
  ]

  unfoldable pub complete_login : State → String → List ℕ → ℕ → Answer User × State
  complete_login s token code now = carry_out s (decide s token code now) now
