-- ===== src/Login/Lockout.antt =====
-- When an account is locked and when it is not (backend/src/auth/login-protection.service.ts).
use sistema_de_gestion_de_po.Common.{
  ℕ, suc, ◌+◌, ◌-◌, ◌*◌, ◌≤◌, ◌<◌, ◌≡◌, refl, ◌≢◌, Option, none, some, String, List, [], ◌∷◌,
  length, arith, Dict, lookup, lookup-put, lookup-put_self, lookup-remove, max, ceil_div, eq_iff,
}
use sistema_de_gestion_de_po.Login.{
  Attempt, Settings, max_failures, lockout_ms, next_failure_state, too_many_requests,
  assert_not_locked, record_failure, reset,
}

-- Failures follow one another within the window of the one before.
abbrev pub Within : ℕ → ℕ → List ℕ → Type 0
Within window last [] = Unit
Within window last (t ∷ ts) = (last ≤ t) × (t ≤ last + window) × Within window t ts

abbrev pub last_of : ℕ → List ℕ → ℕ
last_of t [] = t
last_of t (u ∷ us) = last_of u us

module _ (key_of : String → String) (c : Settings) where
  -- One failed attempt after another.
  unfoldable pub record_failures : Dict Attempt → String → List ℕ → Dict Attempt
  record_failures table email [] = table
  record_failures table email (t ∷ ts) =
      record_failures (record_failure key_of c table email t) email ts

  -- The row after a count of failures that has not reached the limit.
  abbrev pub row : ℕ → ℕ → Attempt
  row n t = record { state = record { failures = n; locked_until = none }; updated_at = t }

  abbrev locked_row : ℕ → ℕ → Attempt
  locked_row n t = record {
    state = record { failures = n; locked_until = some (t + lockout_ms c) };
    updated_at = t;
  }

  pub next-count :
      (n last t : ℕ)
      → last ≤ t
      → t ≤ last + lockout_ms c
      → suc n < max_failures c
      → next_failure_state (some (row n last)) t (max_failures c) (lockout_ms c)
        ≡ (row (suc n) t).state
  unfolding next_failure_state
  next-count n last t h k l = ground arith

  next-lock :
      (n last t : ℕ)
      → last ≤ t
      → t ≤ last + lockout_ms c
      → suc n ≡ max_failures c
      → next_failure_state (some (row n last)) t (max_failures c) (lockout_ms c)
        ≡ (locked_row (suc n) t).state
  unfolding next_failure_state
  next-lock n last t h k l = ground arith

  -- A failure below the limit leaves a row that counts it.
  pub recorded :
      (table : Dict Attempt) (email : String) (n last t : ℕ)
      → lookup (key_of email) table ≡ some (row n last)
      → last ≤ t
      → t ≤ last + lockout_ms c
      → suc n < max_failures c
      → lookup (key_of email) (record_failure key_of c table email t) ≡ some (row (suc n) t)
  unfolding record_failure
  recorded table email n last t e h k l = rw (lookup-put_self, e, next-count n last t h k l) refl

  pub first_recorded :
      (table : Dict Attempt) (email : String) (t : ℕ)
      → lookup (key_of email) table ≡ none
      → 1 < max_failures c
      → lookup (key_of email) (record_failure key_of c table email t) ≡ some (row 1 t)
  unfolding record_failure next_failure_state
  first_recorded table email t e h = rw (lookup-put_self, e) (ground arith)

  -- From a row of n failures, k further ones inside the window that make up the limit lock it.
  locks_from :
      (table : Dict Attempt) (email : String) (n last : ℕ) (ts : List ℕ)
      → lookup (key_of email) table ≡ some (row n last)
      → Within (lockout_ms c) last ts
      → 0 < length ts
      → n + length ts ≡ max_failures c
      → lookup (key_of email) (record_failures table email ts)
        ≡ some (locked_row (max_failures c) (last_of last ts))
  unfolding record_failures record_failure
  locks_from table email n last [] e w h l = absurd (omega arith)
  locks_from table email n last (t ∷ []) e w h l =
      rw (lookup-put_self, e, next-lock n last t w.0 w.1 (omega arith)) (ground (arith, l))
  locks_from table email n last (t ∷ u ∷ ts) e w h l =
      locks_from (record_failure key_of c table email t) email (suc n) t (u ∷ ts)
        (recorded table email n last t e w.0 w.1 (omega arith)) w.2 (omega arith) (omega arith)

  locked_refuses :
      (table : Dict Attempt) (email : String) (n t now : ℕ)
      → lookup (key_of email) table ≡ some (locked_row n t)
      → now < t + lockout_ms c
      → (minutes seconds : ℕ) × (assert_not_locked key_of c table email now
          ≡ some (too_many_requests minutes seconds))
        × (t + lockout_ms c - now ≤ minutes * 60000)
        × (t + lockout_ms c - now ≤ seconds * 1000)
  unfolding assert_not_locked
  locked_refuses table email n t now e before = (
    max 1 (ceil_div (t + lockout_ms c - now) 60000),
    ceil_div (t + lockout_ms c - now) 1000,
    ground (arith, e, before),
    omega arith,
    omega arith,
  )

  -- As many failures as the limit, each within the window of the one before, lock an account that
  -- had no row: every attempt before the end of the lock is then refused with a 429.
  pub lockout_after_failures :
      (table : Dict Attempt) (email : String) (t : ℕ) (ts : List ℕ) (now : ℕ)
      → lookup (key_of email) table ≡ none
      → Within (lockout_ms c) t ts
      → suc (length ts) ≡ max_failures c
      → now < last_of t ts + lockout_ms c
      → (minutes seconds : ℕ) × (assert_not_locked key_of c
            (record_failures table email (t ∷ ts))
            email
            now
          ≡ some (too_many_requests minutes seconds))
        × (last_of t ts + lockout_ms c - now ≤ minutes * 60000)
        × (last_of t ts + lockout_ms c - now ≤ seconds * 1000)
  unfolding record_failures record_failure next_failure_state
  lockout_after_failures table email t [] now e w l before =
      locked_refuses _ email (max_failures c) t now (rw lookup-put_self (ground (arith, e))) before
  lockout_after_failures table email t (u ∷ ts) now e w l before =
      locked_refuses _ email (max_failures c) (last_of u ts) now
        (locks_from _ email 1 t (u ∷ ts) (first_recorded table email t e (omega arith)) w
          (omega arith) (omega arith))
        before

  -- A failure or a reset of one account leaves the lock of every account with another key alone.
  pub other_accounts_untouched :
      (table : Dict Attempt) (email other : String) (t now : ℕ)
      → key_of email ≢ key_of other
      → (assert_not_locked key_of c (record_failure key_of c table email t) other now
          ≡ assert_not_locked key_of c table other now)
        × (assert_not_locked key_of c (reset key_of c table email) other now
            ≡ assert_not_locked key_of c table other now)
  unfolding assert_not_locked record_failure reset
  other_accounts_untouched table email other t now ne = (
    ground (
      arith,
      ne,
      eq_iff (key_of email) (key_of other),
      lookup-put (key_of email) (key_of other)
          (record {
            state =
                next_failure_state (lookup (key_of email) table) t (max_failures c) (lockout_ms c);
            updated_at = t;
          })
          table,
    ),
    ground (
      arith,
      ne,
      eq_iff (key_of email) (key_of other),
      lookup-remove (key_of email) (key_of other) table,
    ),
  )

  -- The state that the service keeps: a row counts at least one failure, and it carries a lock
  -- exactly when it has reached the limit, which ends one lockout period after the last failure.
  pub record RowIsValid (r : Attempt) : Type 0 where
    pub counted : 0 < r.state.failures
    pub locked_full :
        max_failures c ≤ r.state.failures
        → r.state.locked_until ≡ some (r.updated_at + lockout_ms c)
    pub unlocked_short : r.state.failures < max_failures c → r.state.locked_until ≡ none

  abbrev pub TableIsValid : Dict Attempt → Type 0
  TableIsValid table = (k : String) (r : Attempt) → lookup k table ≡ some r → RowIsValid r

  next-RowIsValid :
      (previous : Option Attempt) (now : ℕ)
      → RowIsValid (record {
        state = next_failure_state previous now (max_failures c) (lockout_ms c);
        updated_at = now;
      })
  unfolding next_failure_state
  next-RowIsValid previous now = ground arith

  -- Failures and resets keep every row of the table valid.
  pub step-TableIsValid :
      (table : Dict Attempt) (email : String) (now : ℕ)
      → TableIsValid table
      → TableIsValid (record_failure key_of c table email now)
        × TableIsValid (reset key_of c table email)
  unfolding record_failure reset
  step-TableIsValid table email now v = (failed, cleared)
    where
      failed : TableIsValid (record_failure key_of c table email now)
      failed k r h = ground (
        arith,
        v k r,
        lookup-put (key_of email) k
            (record {
              state =
                  next_failure_state (lookup (key_of email) table) now (max_failures c)
                    (lockout_ms c);
              updated_at = now;
            })
            table,
        h,
        next-RowIsValid (lookup (key_of email) table) now,
      )

      cleared : TableIsValid (reset key_of c table email)
      cleared k r h = ground (arith, v k r, lookup-remove (key_of email) k table, h)
