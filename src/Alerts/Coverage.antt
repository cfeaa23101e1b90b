-- ===== src/Alerts/Coverage.antt =====
-- Every critical finding that a scan opens is named by an alert of critical severity
-- (backend/src/alerts/alert-rules.ts, `detectAlerts`).
use sistema_de_gestion_de_po.Common.{
  ℕ, ◌≡◌, ◌≢◌, ◌⊎◌, inl, inr, Bool, true, false, ◌&&◌, ◌||◌, String, List, [], ◌∷◌, ◌++◌, map, ◌==◌,
  ==_iff, any, keep, All, arith, Bool-cases, any-append, ◌∙◌,
}
use sistema_de_gestion_de_po.Domain.{Severity, same_severity}
use sistema_de_gestion_de_po.Findings.Sync.{OpenedFinding}
use sistema_de_gestion_de_po.Alerts.{
  AlertDraft, AlertDetectionInput, PortInfo, severity_rank, meets_threshold, has_id, ids,
  is_cert_expiry, cert_alerts, critical_alert, is_uncovered_critical, is_related, port_alert,
  port_alerts, covered, new_ports, detect_alerts, host_alerts, score_alerts,
}
use sistema_de_gestion_de_po.Alerts.Severities.{max_severity-greatest}

abbrev pub severity_of : OpenedFinding → Severity
severity_of f = f.severity

-- The alert names the finding and is critical.
abbrev pub is_critical_alert : ℕ → AlertDraft → Bool
is_critical_alert i a = same_severity a.severity Severity.critical && has_id i a.findings

-- Every finding of the identifier is critical.
abbrev pub IsCritical : ℕ → List OpenedFinding → Type 0
IsCritical i fs = All (λ f. (f.id ≢ i) ⊎ (f.severity ≡ Severity.critical)) fs

certs-critical :
    (i : ℕ) (fs : List OpenedFinding)
    → IsCritical i fs
    → has_id i (ids (keep is_cert_expiry fs)) ≡ true
    → any (is_critical_alert i) (cert_alerts fs) ≡ true
unfolding cert_alerts
certs-critical i [] c h = absurd (ground arith)
certs-critical i (f ∷ fs) c h = elim (Bool-cases (is_cert_expiry f)) [
  | inr e ↦ ground (arith, e, h, certs-critical i fs c.1)
  | inl e ↦ elim (Bool-cases (f.id == i)) [
    | inl same ↦ ground (arith, e, same, c.0)
    | inr other ↦ ground (arith, e, other, h, certs-critical i fs c.1)
  ]
]

-- Some of the severities is critical, where a finding of the identifier is among them.
critical_among :
    (i : ℕ) (p : OpenedFinding → Bool) (fs : List OpenedFinding) (m : Severity)
    → IsCritical i fs
    → has_id i (ids (keep p fs)) ≡ true
    → All (λ s. meets_threshold m s ≡ true) (map severity_of (keep p fs))
    → m ≡ Severity.critical
unfolding meets_threshold severity_rank
critical_among i p [] m c h le = absurd (ground arith)
critical_among i p (f ∷ fs) m c h le = elim (Bool-cases (p f)) [
  | inr e ↦ critical_among i p fs m c.1 (rw e at h) (rw e at le)
  | inl e ↦ kept (λ g k. critical_among i p fs m c.1 g k) (rw e at h) (rw e at le)
]
  where
    kept :
        (has_id i (ids (keep p fs)) ≡ true
          → All (λ s. meets_threshold m s ≡ true) (map severity_of (keep p fs))
          → m ≡ Severity.critical)
        → has_id i (ids (f ∷ keep p fs)) ≡ true
        → All (λ s. meets_threshold m s ≡ true) (map severity_of (f ∷ keep p fs))
        → m ≡ Severity.critical
    kept rest h le = elim (Bool-cases (f.id == i)) [
      | inl same ↦ ground (arith, same, c.0, le.0)
      | inr other ↦ rest (ground (arith, other, h)) le.1
    ]

uncovered-critical :
    (i : ℕ) (cov : List ℕ) (fs : List OpenedFinding)
    → IsCritical i fs
    → has_id i cov ≡ false
    → has_id i (ids fs) ≡ true
    → has_id i (ids (keep (is_uncovered_critical cov) fs)) ≡ true
uncovered-critical i cov [] c free h = absurd (ground arith)
uncovered-critical i cov (f ∷ fs) c free h = elim (Bool-cases (f.id == i)) [
  | inl same ↦ ground (arith, same, c.0, free, same_free ((==_iff f.id i).0 same))
  | inr other ↦ elim (Bool-cases (is_uncovered_critical cov f)) [
    | inl e ↦ rw e (ground (arith, other, h, uncovered-critical i cov fs c.1 free))
    | inr e ↦ rw e (uncovered-critical i cov fs c.1 free (ground (arith, other, h)))
  ]
]
  where
    same_free : f.id ≡ i → has_id f.id cov ≡ false
    same_free e = rw e free

alert-critical :
    (i : ℕ) (fs : List OpenedFinding)
    → has_id i (ids fs) ≡ true
    → any (is_critical_alert i) (critical_alert fs) ≡ true
unfolding critical_alert
alert-critical i [] h = absurd (ground arith)
alert-critical i (f ∷ fs) h = ground (arith, h)

ids-append : (i : ℕ) (js ks : List ℕ) → has_id i (js ++ ks) ≡ (has_id i js || has_id i ks)
ids-append i js ks = any-append (λ j. j == i) js ks

any-left :
    (q : AlertDraft → Bool) (xs ys : List AlertDraft) → any q xs ≡ true → any q (xs ++ ys) ≡ true
any-left q xs ys h = ground (arith, h, any-append q xs ys)

any-right :
    (q : AlertDraft → Bool) (xs ys : List AlertDraft) → any q ys ≡ true → any q (xs ++ ys) ≡ true
any-right q xs ys h = ground (arith, h, any-append q xs ys)

-- The first, the second and the fourth of five lists.
any-five :
    (q : AlertDraft → Bool) (xs bs cs ds es : List AlertDraft)
    → ((any q xs || any q bs) ≡ true) ⊎ (any q ds ≡ true)
    → any q (xs ++ bs ++ cs ++ ds ++ es) ≡ true
any-five q xs bs cs ds es (inr h) =
    any-left q (xs ++ bs ++ cs ++ ds) es (any-right q (xs ++ bs ++ cs) ds h)
any-five q xs bs cs ds es (inl h) =
    any-left q (xs ++ bs ++ cs ++ ds) es
      (any-left q (xs ++ bs ++ cs) ds (any-left q (xs ++ bs) cs (any-append q xs bs ∙ h)))

module _ (show : ℕ → String) (sqrt_tenths : ℕ → ℕ → ℕ) where
  -- What is covered has its critical alert among the first two kinds.
  covered-critical :
      (i : ℕ) (ps : List PortInfo) (fs : List OpenedFinding)
      → IsCritical i fs
      → has_id i (covered show sqrt_tenths ps fs) ≡ true
      → (any (is_critical_alert i) (port_alerts show sqrt_tenths ps fs)
          || any (is_critical_alert i) (cert_alerts fs))
        ≡ true
  unfolding covered port_alerts
  covered-critical i [] fs c h = ground (arith, certs-critical i fs c h)
  covered-critical i (p ∷ ps) fs c h =
      elim (Bool-cases (has_id i (ids (keep (is_related show sqrt_tenths (p ∷ ps)) fs)))) [
        | inl e ↦ ground (arith, e, port_critical e)
        | inr e ↦ ground (
          arith,
          certs-critical i fs c,
          h,
          e,
          ids-append i (ids (keep (is_related show sqrt_tenths (p ∷ ps)) fs))
              (ids (keep is_cert_expiry fs)),
        )
      ]
    where
      port_critical :
          has_id i (ids (keep (is_related show sqrt_tenths (p ∷ ps)) fs)) ≡ true
          → (port_alert show sqrt_tenths (p ∷ ps) fs).severity ≡ Severity.critical
      port_critical e =
          let related = keep (is_related show sqrt_tenths (p ∷ ps)) fs in
          critical_among i (is_related show sqrt_tenths (p ∷ ps)) fs _ c e
            (max_severity-greatest (map severity_of related) Severity.medium).1

  -- Every critical finding that a scan opens is named by an alert of critical severity, whether an
  -- alert of ports or of certificates covers it or not; the findings of its identifier are critical.
  pub detect_alerts-critical :
      (input : AlertDetectionInput) (i : ℕ)
      → has_id i (ids input.opened) ≡ true
      → IsCritical i input.opened
      → any (is_critical_alert i) (detect_alerts show sqrt_tenths input) ≡ true
  unfolding detect_alerts
  detect_alerts-critical input i h c =
      let ps = new_ports show sqrt_tenths input in
      let rest =
        keep (is_uncovered_critical (covered show sqrt_tenths ps input.opened)) input.opened in
      any-five (is_critical_alert i) (port_alerts show sqrt_tenths ps input.opened)
        (cert_alerts input.opened) (host_alerts input.scan_type input.new_hosts)
        (critical_alert rest) (score_alerts show sqrt_tenths input.score_change)
        (elim (Bool-cases (has_id i (covered show sqrt_tenths ps input.opened))) [
          | inl e ↦ inl (covered-critical i ps input.opened c e)
          | inr e ↦ inr (
              alert-critical i rest (
                uncovered-critical i (covered show sqrt_tenths ps input.opened) input.opened c e h))
        ])
