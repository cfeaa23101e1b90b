-- ===== src/Mfa/SecondStep/Consumption.antt =====
-- Requests that use recovery codes at the same time, and wrong codes one after another
-- (backend/src/auth/mfa.service.ts, `completeLogin`).
use sistema_de_gestion_de_po.Common.{
  ℕ, ◌≡◌, refl, sym, ◌≢◌, true, false, not, some, String, List, [], ◌∷◌, lookup, lookup-put_self,
  arith, str_eq, eq_iff, any, keep,
}
use sistema_de_gestion_de_po.Mfa.{Account, State, Env, refused, done}
use sistema_de_gestion_de_po.Mfa.SecondStep.{
  by_recovery, incorrect, has_code, without_code, decide, decide_account, decide_code, count_wrong,
  finish_login, consume, carry_out,
}
use sistema_de_gestion_de_po.Mfa.SecondStep.Guarantees.{code_gone}

other_code_stays :
    (used kept : String) (codes : List String)
    → used ≢ kept
    → any (λ h. str_eq h kept) codes ≡ true
    → any (λ h. str_eq h kept) (keep (λ h. not (str_eq h used)) codes) ≡ true
other_code_stays used kept [] other h = ground (arith, h)
other_code_stays used kept (c ∷ codes) other h =
    ground (arith, h, eq_iff c kept, eq_iff c used, other, other_code_stays used kept codes other)

module _ (env : Env) where
  -- The account after a recovery code was used.
  abbrev after_use : Account → Account → List String → ℕ → Account
  after_use b a codes now = record b {
    mfa_recovery_codes = codes;
    user = record b.user { last_login_at = some now };
  }

  use_code :
      (s : State) (id : String) (a b : Account) (hash : String) (now : ℕ)
      → lookup id s.accounts ≡ some b
      → has_code hash b ≡ true
      → ((carry_out env s (by_recovery id a hash) now).0 ≡ done a.user)
        × (lookup id (carry_out env s (by_recovery id a hash) now).1.accounts
            ≡ some (after_use b a (without_code hash a) now))
  unfolding carry_out consume finish_login
  use_code s id a b hash now e has = (
    rw (carry_out, consume, e, has, finish_login, lookup-put_self) refl,
    rw (carry_out, consume, e, has, finish_login, lookup-put_self, lookup-put_self) refl,
  )

  refused_code :
      (s : State) (id : String) (a b : Account) (hash : String) (now : ℕ)
      → lookup id s.accounts ≡ some b
      → has_code hash b ≡ false
      → carry_out env s (by_recovery id a hash) now
        ≡ (refused incorrect, count_wrong env s a.user.email now)
  unfolding carry_out consume
  refused_code s id a b hash now e has = rw (carry_out, consume, e, has) refl

  decide-by_recovery :
      (s : State) (token : String) (code : List ℕ) (now : ℕ) (id : String) (a : Account)
      (hash : String)
      → decide env s token code now ≡ by_recovery id a hash
      → (lookup id s.accounts ≡ some a) × (has_code hash a ≡ true)
  unfolding decide decide_account decide_code
  decide-by_recovery s token code now id a hash h = (ground (arith, h), ground (arith, h))

  -- Of two requests that have read the account with the same recovery code in it, the first to
  -- write gets the session and the second is refused, which counts as a failure.
  pub recovery_code-SingleUse :
      (s : State) (token : String) (code : List ℕ) (id : String) (a : Account) (hash : String)
      (now later : ℕ)
      → decide env s token code now ≡ by_recovery id a hash
      → let (first, s') = carry_out env s (by_recovery id a hash) now in
        (first ≡ done a.user)
        × (carry_out env s' (by_recovery id a hash) later
            ≡ (refused incorrect, count_wrong env s' a.user.email later))
  recovery_code-SingleUse s token code id a hash now later h =
      let (e, has) = decide-by_recovery s token code now id a hash h in
      let (answer, found) = use_code s id a a hash now e has in
      (
        answer,
        refused_code (carry_out env s (by_recovery id a hash) now).1 id a
            (after_use a a (without_code hash a) now) hash later found
            (code_gone hash a.mfa_recovery_codes),
      )

  -- Two requests that have read the account with two different recovery codes both get a session,
  -- and the code of the first to write is back among the account's codes afterwards: the second
  -- writes the codes it had read, less its own.
  pub stale_codes_return :
      (s : State) (t u : String) (c d : List ℕ) (id : String) (a : Account) (one two : String)
      (now later : ℕ)
      → decide env s t c now ≡ by_recovery id a one
      → decide env s u d later ≡ by_recovery id a two
      → one ≢ two
      → let (first, s') = carry_out env s (by_recovery id a one) now in
        let (second, s'') = carry_out env s' (by_recovery id a two) later in
        (first ≡ done a.user)
        × (second ≡ done a.user)
        × ((b : Account) × (lookup id s''.accounts ≡ some b) × (has_code one b ≡ true))
  stale_codes_return s t u c d id a one two now later h k other =
      let (e, has_one) = decide-by_recovery s t c now id a one h in
      let (_, has_two) = decide-by_recovery s u d later id a two k in
      let (answer, found) = use_code s id a a one now e has_one in
      let s' = (carry_out env s (by_recovery id a one) now).1 in
      let b = after_use a a (without_code one a) now in
      let (answer', found') =
        use_code s' id a b two later found
          (other_code_stays one two a.mfa_recovery_codes other has_two) in
      (
        answer,
        answer',
        (
          after_use b a (without_code two a) later,
          found',
          other_code_stays two one a.mfa_recovery_codes (λ q. other (sym q)) has_one,
        ),
      )
