-- ===== src/Login/Session.antt =====
-- The first step of a login (backend/src/auth/auth.service.ts, `login`): the checks in their order
-- and what each outcome does to the failure counters. Users are looked up by email; the password
-- check and the signature of tokens are parameters. The audit record is not modelled.
pub mod Guarantees
mod Tests
use sistema_de_gestion_de_po.Common.{
  ℕ, ◌≡◌, Bool, true, false, not, ◌&&◌, ◌||◌, Option, none, some, String, if◌then◌else◌, Dict,
  lookup, or_else, is_some, put,
}
use sistema_de_gestion_de_po.Login.{
  Attempt, Settings, HttpError, unauthorized, assert_not_locked, record_failure, reset,
}

pub record User : Type 0 where
  pub email : String
  pub password_hash : String
  pub is_active : Bool
  pub organization_active : Bool
  pub email_verified_at : Option ℕ
  pub mfa_enabled : Bool
  pub token_version : ℕ
  pub last_login_at : Option ℕ

pub data Answer : Type 0 where
  refused : HttpError → Answer
  mfa_required : (mfa_token : String) → Answer
  session : User → Answer

pub record State : Type 0 where
  pub users : Dict User
  pub attempts : Dict Attempt

pub record Env : Type 0 where
  pub key_of : String → String
  -- `bcrypt.compare`
  pub compare : String → String → Bool
  pub dummy_hash : String
  pub mfa_token : User → String
  pub settings : Settings
  pub email_verification_required : Bool

module _ (env : Env) where
  -- What follows a password that matches the user's.
  authenticated : State → String → User → ℕ → Answer × State
  authenticated s email user now =
      if not user.is_active || not user.organization_active
      then (refused (unauthorized "Usuario u organización inactivos"), s)
      else if env.email_verification_required && not (is_some user.email_verified_at)
      then (
        refused (
            unauthorized
              "Debes verificar tu correo electrónico antes de iniciar sesión. Revisa tu buzón o solicita un nuevo enlace."),
        s,
      )
      else if user.mfa_enabled
      then (mfa_required (env.mfa_token user), s)
      else (
        session user,
        record {
          users = put email (record user { last_login_at = some now }) s.users;
          attempts = reset env.key_of env.settings s.attempts email;
        },
      )

  wrong_credentials : State → String → ℕ → Answer × State
  wrong_credentials s email now = (
    refused (unauthorized "Credenciales inválidas"),
    record s { attempts = record_failure env.key_of env.settings s.attempts email now },
  )

  -- The password is compared with a hash whether or not the user exists.
  check_password : State → String → String → ℕ → Answer × State
  unfolding wrong_credentials
  check_password s email password now =
      let hash : String = elim (lookup email s.users) [
        | none ↦ env.dummy_hash
        | some u ↦ u.password_hash
      ] in
      let password_ok = env.compare password hash in
      elim (lookup email s.users) [
        | none ↦ wrong_credentials s email now
        | some user ↦
            if password_ok then authenticated s email user now else wrong_credentials s email now
      ]

  unfoldable pub login : State → String → String → ℕ → Answer × State
  unfolding check_password authenticated
  login s email password now =
      elim (assert_not_locked env.key_of env.settings s.attempts email now) [
        | some error ↦ (refused error, s)
        | none ↦ check_password s email password now
      ]
