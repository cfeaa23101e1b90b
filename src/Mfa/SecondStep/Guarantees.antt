-- ===== src/Mfa/SecondStep/Guarantees.antt =====
-- What the second step of a login establishes before it hands out a session
-- (backend/src/auth/mfa.service.ts, `completeLogin`).
use sistema_de_gestion_de_po.Common.{
  ℕ, ◌≤◌, ◌≡◌, refl, sym, subst, ◌⊎◌, inl, inr, true, false, not, none, some, String, List, [], ◌∷◌,
  length, lookup, put, lookup-put_self, arith, str_eq, eq_iff, any, keep, Option-cases,
}
use sistema_de_gestion_de_po.Login.{assert_not_locked}
use sistema_de_gestion_de_po.Login.Session.{User}
use sistema_de_gestion_de_po.Totp.Codes.{verify_totp, normalize_recovery_code}
use sistema_de_gestion_de_po.Mfa.{Account, State, Env, Payload, done, secret_of, recovery_code_hash}
use sistema_de_gestion_de_po.Mfa.SecondStep.{
  Decision, crash, wrong_code, by_totp, by_recovery, has_code, without_code, decide, decide_account,
  decide_code, finish_login, consume, carry_out, complete_login,
}

pub code_gone :
    (hash : String) (codes : List String)
    → any (λ h. str_eq h hash) (keep (λ h. not (str_eq h hash)) codes) ≡ false
code_gone hash [] = refl
code_gone hash (c ∷ codes) = ground (arith, code_gone hash codes)

module _ (env : Env) where
  -- Either the code is a valid one of the secret, or it is one of the account's recovery codes and
  -- is no longer one afterwards.
  abbrev pub ByCode : State → String → Account → List ℕ → List ℕ → ℕ → State → Type 0
  ByCode s id a secret code now s' =
      (verify_totp env.hmac secret code now 1 ≡ some true)
      ⊎ ((10 ≤ length (normalize_recovery_code code))
          × (has_code (recovery_code_hash env code) a ≡ true)
          × ((b : Account) × (lookup id s'.accounts ≡ some b)
              × (has_code (recovery_code_hash env code) b ≡ false)))

  finish_login-keeps_codes :
      (s : State) (id : String) (a b : Account) (now : ℕ)
      → lookup id s.accounts ≡ some b
      → (c : Account) × (lookup id (finish_login env s id a now).1.accounts ≡ some c)
        × (c.mfa_recovery_codes ≡ b.mfa_recovery_codes)
  unfolding finish_login
  finish_login-keeps_codes s id a b now e = (
    record b { user = record b.user { last_login_at = some now } },
    rw (finish_login, e)
        (lookup-put_self id (record b { user = record b.user { last_login_at = some now } })
          s.accounts),
    refl,
  )

  by_recovery-ByCode :
      (s : State) (id : String) (a : Account) (secret code : List ℕ) (now : ℕ)
      → lookup id s.accounts ≡ some a
      → 10 ≤ length (normalize_recovery_code code)
      → has_code (recovery_code_hash env code) a ≡ true
      → ByCode s id a secret code now
          (carry_out env s (by_recovery id a (recovery_code_hash env code)) now).1
  unfolding carry_out consume
  by_recovery-ByCode s id a secret code now e long has =
      let hash = recovery_code_hash env code in
      let b : Account = record a { mfa_recovery_codes = without_code hash a } in
      let s' : State = record s { accounts = put id b s.accounts } in
      let (c, found, same) =
        finish_login-keeps_codes s' id a b now (lookup-put_self id b s.accounts) in
      inr (
        long,
        has,
        (c, rw (carry_out, consume, e, has) found, rw same (code_gone hash a.mfa_recovery_codes)),
      )

  finish_login-answer :
      (s : State) (id : String) (a : Account) (now : ℕ) (user : User)
      → (finish_login env s id a now).0 ≡ done user
      → a.user ≡ user
  unfolding finish_login
  finish_login-answer s id a now user h = ground (arith, h)

  code_cases :
      (id : String) (a : Account) (secret code : List ℕ) (now : ℕ)
      → (decide_code env id a secret code now ≡ crash)
        ⊎ (decide_code env id a secret code now ≡ wrong_code a.user.email)
        ⊎ ((decide_code env id a secret code now ≡ by_totp id a)
            × (verify_totp env.hmac secret code now 1 ≡ some true))
        ⊎ ((decide_code env id a secret code now ≡ by_recovery id a (recovery_code_hash env code))
            × (10 ≤ length (normalize_recovery_code code))
            × (has_code (recovery_code_hash env code) a ≡ true))
  unfolding decide_code
  code_cases id a secret code now = ground arith

  carry_out-recovery :
      (s : State) (id : String) (a : Account) (hash : String) (now : ℕ) (user : User)
      → (carry_out env s (by_recovery id a hash) now).0 ≡ done user
      → a.user ≡ user
  unfolding carry_out finish_login
  carry_out-recovery s id a hash now user h = ground (arith, h)

  abbrev Carried : State → String → Account → List ℕ → List ℕ → ℕ → User → Decision → Type 0
  Carried s id a secret code now user d =
      (carry_out env s d now).0 ≡ done user
      → (a.user ≡ user) × ByCode s id a secret code now (carry_out env s d now).1

  decide_code-ByCode :
      (s : State) (id : String) (a : Account) (secret code : List ℕ) (now : ℕ) (user : User)
      → lookup id s.accounts ≡ some a
      → Carried s id a secret code now user (decide_code env id a secret code now)
  unfolding carry_out
  decide_code-ByCode s id a secret code now user e = elim (code_cases id a secret code now) [
    | inl c ↦ subst (Carried s id a secret code now user) (sym c) (λ h. ground (arith, h))
    | inr (inl c) ↦ subst (Carried s id a secret code now user) (sym c) (λ h. ground (arith, h))
    | inr (inr (inl (c, valid))) ↦
        subst (Carried s id a secret code now user) (sym c)
          (λ h. (finish_login-answer s id a now user h, inl valid))
    | inr (inr (inr (c, long, has))) ↦ subst (Carried s id a secret code now user) (sym c) (λ h. (
      carry_out-recovery s id a (recovery_code_hash env code) now user h,
      by_recovery-ByCode s id a secret code now e long has,
    ))
  ]

  -- The checks that come before the code.
  abbrev Admitted : State → Payload → Account → List ℕ → ℕ → Type 0
  Admitted s payload a secret now =
      (payload.purpose ≡ "mfa")
      × (a.user.is_active ≡ true)
      × (a.user.organization_active ≡ true)
      × (a.user.token_version ≡ payload.ver)
      × (a.user.mfa_enabled ≡ true)
      × (assert_not_locked env.key_of env.settings s.attempts a.user.email now ≡ none)

  done-Admitted :
      (s : State) (token : String) (code : List ℕ) (now : ℕ) (user : User) (payload : Payload)
      (a : Account) (secret : List ℕ)
      → env.verify_token token ≡ some payload
      → lookup payload.sub s.accounts ≡ some a
      → secret_of a.mfa_secret ≡ some secret
      → (complete_login env s token code now).0 ≡ done user
      → Admitted s payload a secret now
        × (decide env s token code now ≡ decide_code env payload.sub a secret code now)
  unfolding complete_login decide decide_account carry_out
  done-Admitted s token code now user payload a secret t e k h = (
    (
      ground (arith, h, eq_iff payload.purpose "mfa"),
      ground (arith, h),
      ground (arith, h),
      ground (arith, h),
      ground (arith, h),
      ground (arith, h),
    ),
    ground (arith, h),
  )

  done-Known :
      (s : State) (token : String) (code : List ℕ) (now : ℕ) (user : User)
      → (complete_login env s token code now).0 ≡ done user
      → (payload : Payload) × (a : Account) × (secret : List ℕ) × (env.verify_token token
          ≡ some payload)
        × (lookup payload.sub s.accounts ≡ some a)
        × (secret_of a.mfa_secret ≡ some secret)
  unfolding complete_login decide decide_account carry_out
  done-Known s token code now user h = elim (Option-cases (env.verify_token token)) [
    | inl t ↦ ground (arith, h, t)
    | inr (payload, t) ↦ elim (Option-cases (lookup payload.sub s.accounts)) [
      | inl e ↦ ground (arith, h, t, e)
      | inr (a, e) ↦ elim (Option-cases (secret_of a.mfa_secret)) [
        | inl k ↦ ground (arith, h, t, e, k)
        | inr (secret, k) ↦ (payload, a, secret, t, e, k)
      ]
    ]
  ]

  -- A session of the second step is only given on a signed token issued for that step, for the
  -- user it names and the version it carries, active in an active organization, with the second
  -- factor on and not locked, and for a current code or a recovery code that is used up by it.
  pub complete_login-Verified :
      (s : State) (token : String) (code : List ℕ) (now : ℕ) (user : User)
      → (complete_login env s token code now).0 ≡ done user
      → (payload : Payload) × (a : Account) × (secret : List ℕ) × (env.verify_token token
          ≡ some payload)
        × (payload.purpose ≡ "mfa")
        × (lookup payload.sub s.accounts ≡ some a)
        × (a.user ≡ user)
        × (user.is_active ≡ true)
        × (user.organization_active ≡ true)
        × (user.token_version ≡ payload.ver)
        × (user.mfa_enabled ≡ true)
        × (secret_of a.mfa_secret ≡ some secret)
        × (assert_not_locked env.key_of env.settings s.attempts user.email now ≡ none)
        × ByCode s payload.sub a secret code now (complete_login env s token code now).1
  unfolding complete_login
  complete_login-Verified s token code now user h =
      let (payload, a, secret, t, e, k) = done-Known s token code now user h in
      let ((purpose, active, org, ver, enabled, free), same) =
        done-Admitted s token code now user payload a secret t e k h in
      let (u, by) =
        decide_code-ByCode s payload.sub a secret code now user e
          (subst (λ (d : Decision). (carry_out env s d now).0 ≡ done user) same h) in
      (
        payload,
        a,
        secret,
        t,
        purpose,
        e,
        u,
        rw (sym u) active,
        rw (sym u) org,
        rw (sym u) ver,
        rw (sym u) enabled,
        k,
        subst
            (λ (v : User). assert_not_locked env.key_of env.settings s.attempts v.email now ≡ none)
            u free,
        subst (λ (d : Decision). ByCode s payload.sub a secret code now (carry_out env s d now).1)
            (sym same) by,
      )
