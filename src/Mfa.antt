-- ===== src/Mfa.antt =====
-- The second factor of an account (backend/src/auth/mfa.service.ts): setting it up, confirming it
-- and removing it. Accounts are rows by id; the hash of recovery codes, the password check and
-- HMAC-SHA1 are parameters, and so are the random bytes drawn. The audit record is not modelled.
pub mod SecondStep
mod Tests
pub mod Invariant
use sistema_de_gestion_de_po.Common.{
  ℕ, zero, suc, ◌≡◌, Bool, true, false, not, ◌&&◌, ◌||◌, Option, none, some, String, List, [], ◌∷◌,
  map, keep, length, if◌then◌else◌, Dict, lookup, put, is_some,
}
use sistema_de_gestion_de_po.Login.{Attempt, Settings, HttpError, bad_request}
use sistema_de_gestion_de_po.Login.Session.{User}
use sistema_de_gestion_de_po.Totp.Codes.{
  verify_totp, generate_totp_secret, generate_recovery_code, normalize_recovery_code,
}

-- The columns of `User` that the second factor adds to those of the login.
pub record Account : Type 0 where
  pub user : User
  pub mfa_secret : Option (List ℕ)
  pub mfa_pending_secret : Option (List ℕ)
  pub mfa_enabled_at : Option ℕ
  pub mfa_recovery_codes : List String

pub record State : Type 0 where
  pub accounts : Dict Account
  pub attempts : Dict Attempt

pub record Payload : Type 0 where
  pub sub : String
  pub purpose : String
  pub ver : ℕ

pub record Env : Type 0 where
  pub key_of : String → String
  pub settings : Settings
  pub compare : String → String → Bool
  pub hmac : List ℕ → List ℕ → List ℕ
  pub sha256 : List ℕ → String
  -- `jwt.verify`; `none` is its error.
  pub verify_token : String → Option Payload

-- `crashed` is an error that the handler does not make itself.
pub data Answer {ℓ} (A : Type ℓ) : Type ℓ where
  refused : HttpError → Answer A
  crashed : Answer A
  done : A → Answer A

pub record Status : Type 0 where
  pub enabled : Bool
  pub enabled_at : Option ℕ
  pub recovery_codes_left : ℕ

unfoldable pub status : State → String → Answer Status
status s id = elim (lookup id s.accounts) [
  | none ↦ crashed
  | some a ↦ done (record {
    enabled = a.user.mfa_enabled;
    enabled_at = a.mfa_enabled_at;
    recovery_codes_left = if a.user.mfa_enabled then length a.mfa_recovery_codes else 0;
  })
]

-- A secret that is set and not empty.
abbrev pub secret_of : Option (List ℕ) → Option (List ℕ)
secret_of none = none
secret_of (some []) = none
secret_of (some (c ∷ cs)) = some (c ∷ cs)

unfoldable pub setup : State → String → List ℕ → Answer (List ℕ) × State
setup s id drawn = elim (lookup id s.accounts) [
  | none ↦ (crashed, s)
  | some a ↦
      if a.user.mfa_enabled
      then (refused (bad_request "La verificación en dos pasos ya está activada"), s)
      else (
        done (generate_totp_secret drawn),
        record s {
          accounts =
              put id (record a { mfa_pending_secret = some (generate_totp_secret drawn) })
                s.accounts;
        },
      )
]

-- The row of a user without a second factor.
unfoldable pub cleared : Account → Account
cleared a = record {
  user = record a.user { mfa_enabled = false };
  mfa_secret = none;
  mfa_pending_secret = none;
  mfa_enabled_at = none;
  mfa_recovery_codes = [];
}

-- The answer is `enabled`.
unfoldable pub clear : State → String → Answer Bool × State
unfolding cleared
clear s id = elim (lookup id s.accounts) [
  | none ↦ (crashed, s)
  | some a ↦ (done false, record s { accounts = put id (cleared a) s.accounts })
]

unfoldable pub admin_disable : State → String → Answer Bool × State
unfolding clear
admin_disable s target = clear s target

module _ (env : Env) where
  unfoldable pub recovery_code_hash : List ℕ → String
  recovery_code_hash code = env.sha256 (normalize_recovery_code code)

  unfoldable pub activated : Account → List ℕ → List (List ℕ) → ℕ → Account
  activated a secret codes now = record {
    user = record a.user { mfa_enabled = true };
    mfa_secret = some secret;
    mfa_pending_secret = none;
    mfa_enabled_at = some now;
    mfa_recovery_codes = map recovery_code_hash codes;
  }

  -- `drawn` is the random bytes of each of the ten recovery codes.
  unfoldable pub enable :
      State → String → List ℕ → List (List ℕ) → ℕ → Answer (List (List ℕ)) × State
  unfolding activated
  enable s id code drawn now = elim (lookup id s.accounts) [
    | none ↦ (crashed, s)
    | some a ↦
        if a.user.mfa_enabled
        then (refused (bad_request "La verificación en dos pasos ya está activada"), s)
        else elim (secret_of a.mfa_pending_secret) [
          | none ↦ (refused (bad_request "Primero genera el código QR (paso de configuración)"), s)
          | some secret ↦ elim (verify_totp env.hmac secret code now 1) [
            | none ↦ (crashed, s)
            | some ok ↦
                if ok
                then (
                  done (map generate_recovery_code drawn),
                  record s {
                    accounts =
                        put id (activated a secret (map generate_recovery_code drawn) now)
                          s.accounts;
                  },
                )
                else (
                  refused (
                      bad_request
                        "El código no es correcto. Comprueba la hora del dispositivo e inténtalo de nuevo."),
                  s,
                )
          ]
        ]
  ]

  -- `codeMatches` on a secret that is set.
  abbrev pub code_matches : Account → List ℕ → ℕ → Option Bool
  code_matches a code now = elim a.mfa_secret [
    | none ↦ some false
    | some secret ↦ verify_totp env.hmac secret code now 1
  ]

  unfoldable pub disable : State → String → String → List ℕ → ℕ → Answer Bool × State
  unfolding clear
  disable s id password code now = elim (lookup id s.accounts) [
    | none ↦ (crashed, s)
    | some a ↦
        if not a.user.mfa_enabled || not (is_some (secret_of a.mfa_secret))
        then (refused (bad_request "La verificación en dos pasos no está activada"), s)
        else if not (env.compare password a.user.password_hash)
        then (refused (bad_request "La contraseña no es correcta"), s)
        else elim (code_matches a code now) [
          | none ↦ (crashed, s)
          | some ok ↦
              if ok then clear s id else (refused (bad_request "El código no es correcto"), s)
        ]
  ]
