-- ===== src/Mfa/Invariant.antt =====
-- What stays true of every account whatever its owner, an administrator and the requests in flight
-- do (backend/src/auth/mfa.service.ts).
use sistema_de_gestion_de_po.Common.{
  ℕ, ◌≡◌, ◌⊎◌, inl, inr, true, Option, none, some, String, List, [], ◌∷◌, map, lookup, put,
  lookup-put, is_some, arith, Option-cases, Bool-cases,
}
use sistema_de_gestion_de_po.Mfa.{
  Account, State, Env, setup, enable, disable, clear, admin_disable, cleared, activated, secret_of,
}
use sistema_de_gestion_de_po.Totp.Codes.{generate_totp_secret, generate_recovery_code}
use sistema_de_gestion_de_po.Mfa.SecondStep.{
  Decision, deny, crash, wrong_code, by_totp, by_recovery, has_code, without_code, carry_out,
  consume, finish_login, count_wrong,
}

-- The second factor is on exactly when a secret is set, and only then has a date and codes.
abbrev pub AccountIsValid : Account → Type 0
AccountIsValid a =
    (is_some (secret_of a.mfa_secret) ≡ a.user.mfa_enabled)
    × (is_some a.mfa_enabled_at ≡ a.user.mfa_enabled)
    × ((a.user.mfa_enabled ≡ true) ⊎ (a.mfa_recovery_codes ≡ []))

unfoldable pub IsValid : State → Type 0
IsValid s = (id : String) (a : Account) → lookup id s.accounts ≡ some a → AccountIsValid a

-- One operation. A decision may have been taken at any earlier time.
pub data Step (env : Env) : State → State → Type 0 where
  sets_up : (s : State) (id : String) (drawn : List ℕ) → Step env s (setup s id drawn).1
  enables :
      (s : State) (id : String) (code : List ℕ) (drawn : List (List ℕ)) (now : ℕ)
      → Step env s (enable env s id code drawn now).1
  disables :
      (s : State) (id password : String) (code : List ℕ) (now : ℕ)
      → Step env s (disable env s id password code now).1
  admin_disables : (s : State) (target : String) → Step env s (admin_disable s target).1
  carries_out : (s : State) (d : Decision) (now : ℕ) → Step env s (carry_out env s d now).1

put-IsValid :
    (s : State) (id : String) (a : Account)
    → AccountIsValid a
    → IsValid s
    → IsValid (record s { accounts = put id a s.accounts })
unfolding IsValid
put-IsValid s id a valid h id' b e =
    ground (arith, lookup-put id id' a s.accounts, e, valid, h id' b)

setup-IsValid :
    (s : State) (id : String) (drawn : List ℕ) → IsValid s → IsValid (setup s id drawn).1
unfolding setup IsValid
setup-IsValid s id drawn h id' b found = elim (Option-cases (lookup id s.accounts)) [
  | inl e ↦ ground (arith, e, found, h id' b)
  | inr (a, e) ↦ ground (
    arith,
    e,
    found,
    h id' b,
    h id a,
    lookup-put id id' (record a { mfa_pending_secret = some (generate_totp_secret drawn) })
        s.accounts,
  )
]

clear-IsValid : (s : State) (id : String) → IsValid s → IsValid (clear s id).1
unfolding clear cleared IsValid
clear-IsValid s id h id' b found = elim (Option-cases (lookup id s.accounts)) [
  | inl e ↦ ground (arith, e, found, h id' b)
  | inr (a, e) ↦ ground (arith, e, found, h id' b, lookup-put id id' (cleared a) s.accounts)
]

code_enabled :
    (a : Account) (hash : String)
    → AccountIsValid a
    → has_code hash a ≡ true
    → a.user.mfa_enabled ≡ true
code_enabled a hash valid has = elim valid.2 [
  | inl on ↦ on
  | inr none_left ↦ ground (arith, has, none_left)
]

secret_of-twice :
    (o : Option (List ℕ)) (secret : List ℕ)
    → secret_of o ≡ some secret
    → secret_of (some secret) ≡ some secret
secret_of-twice none secret e = ground (arith, e)
secret_of-twice (some []) secret e = ground (arith, e)
secret_of-twice (some (c ∷ cs)) secret e = ground (arith, e)

module _ (env : Env) where
  disable-cases :
      (s : State) (id password : String) (code : List ℕ) (now : ℕ)
      → ((disable env s id password code now).1 ≡ s)
        ⊎ ((disable env s id password code now).1 ≡ (clear s id).1)
  unfolding disable clear
  disable-cases s id password code now = ground arith

  enable-IsValid :
      (s : State) (id : String) (code : List ℕ) (drawn : List (List ℕ)) (now : ℕ)
      → IsValid s
      → IsValid (enable env s id code drawn now).1
  unfolding enable activated IsValid
  enable-IsValid s id code drawn now h id' b found = elim (Option-cases (lookup id s.accounts)) [
    | inl e ↦ ground (arith, e, found, h id' b)
    | inr (a, e) ↦ elim (Option-cases (secret_of a.mfa_pending_secret)) [
      | inl k ↦ ground (arith, e, k, found, h id' b)
      | inr (secret, k) ↦ ground (
        arith,
        e,
        k,
        found,
        h id' b,
        secret_of-twice a.mfa_pending_secret secret k,
        lookup-put id id' (activated env a secret (map generate_recovery_code drawn) now)
            s.accounts,
      )
    ]
  ]

  finish_login-IsValid :
      (s : State) (id : String) (a : Account) (now : ℕ)
      → IsValid s
      → IsValid (finish_login env s id a now).1
  unfolding finish_login IsValid
  finish_login-IsValid s id a now h id' b found = elim (Option-cases (lookup id s.accounts)) [
    | inl e ↦ ground (arith, e, found, h id' b)
    | inr (c, e) ↦ ground (
      arith,
      e,
      found,
      h id' b,
      h id c,
      lookup-put id id' (record c { user = record c.user { last_login_at = some now } }) s.accounts,
    )
  ]

  -- Codes are only written over codes.
  consume-IsValid :
      (s s' : State) (id : String) (a : Account) (hash : String)
      → IsValid s
      → consume env s id a hash ≡ some s'
      → IsValid s'
  unfolding consume IsValid
  consume-IsValid s s' id a hash h same id' b found = elim (Option-cases (lookup id s.accounts)) [
    | inl e ↦ ground (arith, e, same)
    | inr (c, e) ↦ elim (Bool-cases (has_code hash c)) [
      | inr gone ↦ ground (arith, e, gone, same)
      | inl there ↦
          let on = code_enabled c hash (h id c e) there in
          ground (
            arith,
            e,
            there,
            same,
            found,
            h id' b,
            h id c,
            on,
            lookup-put id id' (record c { mfa_recovery_codes = without_code hash a }) s.accounts,
          )
    ]
  ]

  disable-IsValid :
      (s : State) (id password : String) (code : List ℕ) (now : ℕ)
      → IsValid s
      → IsValid (disable env s id password code now).1
  disable-IsValid s id password code now h = elim (disable-cases s id password code now) [
    | inl e ↦ rw e h
    | inr e ↦ rw e (clear-IsValid s id h)
  ]

  carry_out-IsValid :
      (s : State) (d : Decision) (now : ℕ) → IsValid s → IsValid (carry_out env s d now).1
  unfolding carry_out count_wrong IsValid
  carry_out-IsValid s (deny error) now h = h
  carry_out-IsValid s crash now h = h
  carry_out-IsValid s (wrong_code email) now h = h
  carry_out-IsValid s (by_totp id a) now h = finish_login-IsValid s id a now h
  carry_out-IsValid s (by_recovery id a hash) now h =
      elim (Option-cases (consume env s id a hash)) [
        | inl e ↦ rw (carry_out, e) h
        | inr (s', e) ↦
            rw (carry_out, e)
              (finish_login-IsValid s' id a now (consume-IsValid s s' id a hash h e))
      ]

  -- Every operation keeps every account valid, whenever a login in flight carries out what it decided.
  pub step-IsValid : (s s' : State) → Step env s s' → IsValid s → IsValid s'
  unfolding admin_disable
  step-IsValid s s' (sets_up _ id drawn) h = setup-IsValid s id drawn h
  step-IsValid s s' (enables _ id code drawn now) h = enable-IsValid s id code drawn now h
  step-IsValid s s' (disables _ id password code now) h = disable-IsValid s id password code now h
  step-IsValid s s' (admin_disables _ target) h = clear-IsValid s target h
  step-IsValid s s' (carries_out _ d now) h = carry_out-IsValid s d now h
