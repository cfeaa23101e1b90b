-- ===== src/Login.antt =====
-- Brute-force protection of accounts (backend/src/auth/login-protection.service.ts).
-- Times are milliseconds. The table `loginAttempt` is an association list by key; the key of an
-- email is the hash of its trimmed lower-case form, and those functions are a parameter.
pub mod Lockout
pub mod Session
use sistema_de_gestion_de_po.Common.{
  ℕ, suc, ◌+◌, ◌-◌, ◌*◌, max, ◌≡◌, Bool, true, false, not, ◌&&◌, ◌||◌, Option, none, some, String,
  List, [], ◌∷◌, leb, ltb, if◌then◌else◌, str_eq, ceil_div, or_else, is_some, Dict, lookup, put,
  remove,
}

pub record FailureState : Type 0 where
  pub failures : ℕ
  pub locked_until : Option ℕ

-- A row of the table, without its key.
pub record Attempt : Type 0 where
  pub state : FailureState
  pub updated_at : ℕ

-- A lock whose end has come.
abbrev pub lock_expired : ℕ → Attempt → Bool
lock_expired now p = elim p.state.locked_until [ none ↦ false | some until ↦ leb until now ]

-- Failures without a lock, older than the window.
abbrev pub is_stale : ℕ → ℕ → Attempt → Bool
is_stale now lockout_ms p =
    not (is_some p.state.locked_until) && ltb lockout_ms (now - p.updated_at)

count_failure : Option Attempt → ℕ → ℕ → ℕ
count_failure none now lockout_ms = 1
count_failure (some p) now lockout_ms =
    if lock_expired now p || is_stale now lockout_ms p then 1 else suc p.state.failures

unfoldable pub next_failure_state : Option Attempt → ℕ → ℕ → ℕ → FailureState
unfolding count_failure
next_failure_state previous now max_failures lockout_ms =
    let failures = count_failure previous now lockout_ms in
    if leb max_failures failures
    then record { failures = failures; locked_until = some (now + lockout_ms) }
    else record { failures = failures; locked_until = none }

pub record Settings : Type 0 where
  pub max_failed_logins : Option ℕ
  pub lockout_minutes : Option ℕ

abbrev pub max_failures : Settings → ℕ
max_failures c = or_else c.max_failed_logins 5

abbrev pub lockout_ms : Settings → ℕ
lockout_ms c = or_else c.lockout_minutes 15 * 60 * 1000

pub data HttpError : Type 0 where
  bad_request : String → HttpError
  unauthorized : String → HttpError
  -- 429, with the minutes that the message names and `retryAfterSeconds`
  too_many_requests : (minutes retry_after_seconds : ℕ) → HttpError

-- `none` lets the login go on.
module _ (key_of : String → String) (c : Settings) where
  unfoldable pub assert_not_locked : Dict Attempt → String → ℕ → Option HttpError
  assert_not_locked table email now = elim (lookup (key_of email) table) [
    | none ↦ none
    | some row ↦ elim row.state.locked_until [
      | none ↦ none
      | some until ↦
          if ltb now until
          then some (
              too_many_requests (max 1 (ceil_div (until - now) 60000))
                (ceil_div (until - now) 1000))
          else none
    ]
  ]

  unfoldable pub record_failure : Dict Attempt → String → ℕ → Dict Attempt
  record_failure table email now =
      let key = key_of email in
      let next = next_failure_state (lookup key table) now (max_failures c) (lockout_ms c) in
      put key (record { state = next; updated_at = now }) table

  unfoldable pub reset : Dict Attempt → String → Dict Attempt
  reset table email = remove (key_of email) table
