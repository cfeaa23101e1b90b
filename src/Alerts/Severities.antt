-- ===== src/Alerts/Severities.antt =====
-- The order of severities, the ports that are new and the delays of deliveries.
use sistema_de_gestion_de_po.Common.{
  ℕ, suc, ◌+◌, ◌*◌, ◌^◌, ◌≤◌, ◌<◌, ◌≡◌, refl, ◌⊎◌, inl, inr, ◌↔◌, Bool, true, false, ◌&&◌, ◌||◌,
  not, none, some, String, List, [], ◌∷◌, if◌then◌else◌, leb, ltb, str_eq, any, keep, All, arith,
  Bool-cases, ◌∙◌, sym, ap,
}
use native.Mathlib.Omega.{pow_step}
use native.Mathlib.Nat.{mul_left_comm}
use sistema_de_gestion_de_po.Domain.{Severity, same_severity}
use sistema_de_gestion_de_po.Alerts.{
  PortInfo, severity_rank, meets_threshold, max_severity, location_of, is_among, diff_open_ports,
  calculate_next_retry,
}

-- The greatest severity so far meets every threshold that it met before, and is one of the two.
max-step :
    (s acc : Severity)
    → let m = if ltb (severity_rank s) (severity_rank acc) then s else acc in
      (severity_rank m ≤ severity_rank s) × (severity_rank m ≤ severity_rank acc)
max-step s acc = ground arith

max-below :
    (ss : List Severity) (acc : Severity)
    → (severity_rank (max_severity ss acc) ≤ severity_rank acc)
      × All (λ s. severity_rank (max_severity ss acc) ≤ severity_rank s) ss
unfolding max_severity
max-below [] acc = (omega arith, tt)
max-below (s ∷ ss) acc =
    let m = if ltb (severity_rank s) (severity_rank acc) then s else acc in
    let (low, all_low) = max-below ss m in
    let (to_s, to_acc) = max-step s acc in
    (omega (arith, low, to_acc), (omega (arith, low, to_s), all_low))

All-meets :
    (m : Severity) (ss : List Severity)
    → All (λ s. severity_rank m ≤ severity_rank s) ss
    → All (λ s. meets_threshold m s ≡ true) ss
unfolding meets_threshold
All-meets m [] h = tt
All-meets m (s ∷ ss) h = (ground (arith, h.0), All-meets m ss h.1)

max-nil : (acc : Severity) → max_severity [] acc ≡ acc
unfolding max_severity
max-nil acc = refl

max-cons :
    (s : Severity) (ss : List Severity) (acc : Severity)
    → max_severity (s ∷ ss) acc
      ≡ max_severity ss (if ltb (severity_rank s) (severity_rank acc) then s else acc)
unfolding max_severity
max-cons s ss acc = refl

here_cons : (m s : Severity) (ss : List Severity) → m ≡ s → any (same_severity m) (s ∷ ss) ≡ true
here_cons m s ss e = ground (arith, e)

there_cons :
    (m s : Severity) (ss : List Severity)
    → any (same_severity m) ss ≡ true
    → any (same_severity m) (s ∷ ss) ≡ true
there_cons m s ss e = ground (arith, e)

either :
    (c : Bool) (s acc : Severity) → ((if c then s else acc) ≡ acc) ⊎ ((if c then s else acc) ≡ s)
either true s acc = inr refl
either false s acc = inl refl

one_of :
    (ss : List Severity) (acc : Severity)
    → (max_severity ss acc ≡ acc) ⊎ (any (same_severity (max_severity ss acc)) ss ≡ true)
unfolding severity_rank max_severity
one_of [] acc = inl (max-nil acc)
one_of (s ∷ ss) acc =
    let c = ltb (severity_rank s) (severity_rank acc) in
    rw (max-cons s ss acc) (elim (one_of ss (if c then s else acc)) [
      | inl same ↦ elim (either c s acc) [
        | inl kept ↦ inl (same ∙ kept)
        | inr taken ↦ inr (here_cons _ s ss (same ∙ taken))
      ]
      | inr found ↦ inr (there_cons _ s ss found)
    ])

-- The greatest severity meets the threshold of each of the values and of the fallback, and is one of
-- them.
pub max_severity-greatest :
    (ss : List Severity) (fallback : Severity)
    → (meets_threshold (max_severity ss fallback) fallback ≡ true)
      × All (λ s. meets_threshold (max_severity ss fallback) s ≡ true) ss
      × ((max_severity ss fallback ≡ fallback)
          ⊎ (any (same_severity (max_severity ss fallback)) ss ≡ true))
unfolding meets_threshold
max_severity-greatest ss fallback =
    let (low, all_low) = max-below ss fallback in
    (ground (arith, low), All-meets (max_severity ss fallback) ss all_low, one_of ss fallback)

-- The thresholds order the severities: the order is total, transitive and antisymmetric.
pub meets_threshold-order :
    (s t u : Severity)
    → ((meets_threshold s t || meets_threshold t s) ≡ true)
      × ((meets_threshold s t && meets_threshold t u && not (meets_threshold s u)) ≡ false)
      × ((meets_threshold s t && meets_threshold t s) ≡ same_severity s t)
unfolding meets_threshold severity_rank
meets_threshold-order s t u = (ground arith, ground arith, ground arith)

doubled : (base n : ℕ) → base * 2 ^ suc n ≡ 2 * (base * 2 ^ n)
doubled base n = rw (pow_step 2 n) (mul_left_comm base 2 (2 ^ n))

later :
    (attempts max_retries base_ms now : ℕ)
    → suc attempts < max_retries
    → calculate_next_retry (suc attempts) max_retries base_ms now
      ≡ some (now + base_ms * 2 ^ attempts)
unfolding calculate_next_retry
later attempts max_retries base_ms now h = ground (arith, h)

-- A delivery is tried again exactly while attempts are left, and from the first attempt on each delay
-- is twice the one before.
pub calculate_next_retry-doubles :
    (attempts max_retries base_ms now : ℕ)
    → ((calculate_next_retry attempts max_retries base_ms now ≡ none) ↔ (max_retries ≤ attempts))
      × ((max_retries ≤ suc (suc attempts))
          ⊎ ((delay : ℕ) × (calculate_next_retry (suc attempts) max_retries base_ms now
                ≡ some (now + delay))
              × (calculate_next_retry (suc (suc attempts)) max_retries base_ms now
                  ≡ some (now + 2 * delay))))
unfolding calculate_next_retry
calculate_next_retry-doubles attempts max_retries base_ms now = (
  (λ e. ground arith, λ e. ground arith),
  elim (Bool-cases (leb max_retries (suc (suc attempts)))) [
    | inl e ↦ inl (ground arith)
    | inr e ↦ inr (
      base_ms * 2 ^ attempts,
      later attempts max_retries base_ms now (ground (arith, e)),
      later (suc attempts) max_retries base_ms now (ground (arith, e))
          ∙ ap (λ d. some (now + d)) (doubled base_ms attempts),
    )
  ],
)

none_among :
    (q : PortInfo → Bool) (ps : List PortInfo) → All (λ p. q p ≡ false) (keep (λ p. not (q p)) ps)
none_among q [] = tt
none_among q (p ∷ ps) = elim (Bool-cases (q p)) [
  | inl e ↦ rw e (none_among q ps)
  | inr e ↦ rw e (e, none_among q ps)
]

keep_complete :
    (q r : PortInfo → Bool) (ps : List PortInfo)
    → any (λ p. not (q p) && r p) ps ≡ any r (keep (λ p. not (q p)) ps)
keep_complete q r [] = refl
keep_complete q r (p ∷ ps) = ground (arith, keep_complete q r ps)

-- The new ports are those of the current scan at no location of the previous one: none of them is
-- among the previous, and a current port at a new location is among them.
pub diff_open_ports-new :
    (show : ℕ → String) (sqrt_tenths : ℕ → ℕ → ℕ) (previous current : List PortInfo) (l : String)
    → let new = diff_open_ports show sqrt_tenths previous current in
      All (λ p. is_among show sqrt_tenths previous (location_of show sqrt_tenths p) ≡ false) new
      × (is_among show sqrt_tenths new l
          ≡ any
              (λ p.
                not (is_among show sqrt_tenths previous (location_of show sqrt_tenths p))
                && str_eq (location_of show sqrt_tenths p) l)
              current)
unfolding diff_open_ports
diff_open_ports-new show sqrt_tenths previous current l = (
  none_among (λ p. is_among show sqrt_tenths previous (location_of show sqrt_tenths p)) current,
  sym (
      keep_complete (λ p. is_among show sqrt_tenths previous (location_of show sqrt_tenths p))
        (λ p. str_eq (location_of show sqrt_tenths p) l) current),
)
