-- ===== src/Findings/Query/Partition.antt =====
-- The counts of the summary divide its total, and a list shows one organization.
use sistema_de_gestion_de_po.Common.{
  ℕ, ◌+◌, ◌≤◌, ◌≡◌, refl, Bool, true, ◌&&◌, not, Option, none, some, List, [], ◌∷◌, count_if,
  is_some, arith, All, keep, if◌then◌else◌, zero, suc, ◌==◌, ◌-◌, Bool-cases, inl, inr, length,
  take,
}
use sistema_de_gestion_de_po.Domain.{Severity, same_severity}
use sistema_de_gestion_de_po.Findings.{Finding}
use sistema_de_gestion_de_po.Findings.Sla.{SlaStatus, due_matches}
use sistema_de_gestion_de_po.Findings.Query.{
  ListQuery, matches, in_summary, summary, find_all, drop_rows,
}

one_due :
    (due : Option ℕ) (now : ℕ)
    → (if due_matches SlaStatus.overdue due now then 1 else 0)
        + (if due_matches SlaStatus.approaching due now then 1 else 0)
        + (if due_matches SlaStatus.on_track due now then 1 else 0)
        + (if due_matches SlaStatus.no_sla due now then 1 else 0)
      ≡ 1
unfolding due_matches
one_due none now = refl
one_due (some d) now = ground arith

-- Every finding meets exactly one of the four conditions on its due date.
count_due :
    (p : Finding → Bool) (now : ℕ) (rows : List Finding)
    → count_if (λ r. p r && due_matches SlaStatus.overdue r.due_date now) rows
        + count_if (λ r. p r && due_matches SlaStatus.approaching r.due_date now) rows
        + count_if (λ r. p r && due_matches SlaStatus.on_track r.due_date now) rows
        + count_if (λ r. p r && due_matches SlaStatus.no_sla r.due_date now) rows
      ≡ count_if (λ r. p r && true) rows
count_due p now [] = refl
count_due p now (r ∷ rs) = ground (arith, count_due p now rs, one_due r.due_date now)

count_assigned :
    (p : Finding → Bool) (rows : List Finding)
    → count_if (λ r. p r && not (is_some r.assigned_to)) rows
        + count_if (λ r. p r && is_some r.assigned_to) rows
      ≡ count_if (λ r. p r && true) rows
count_assigned p [] = refl
count_assigned p (r ∷ rs) = ground (arith, count_assigned p rs)

count_severities :
    (p : Finding → Bool) (rows : List Finding)
    → count_if (λ r. p r && same_severity r.severity Severity.critical) rows
        + count_if (λ r. p r && same_severity r.severity Severity.high) rows
        + count_if (λ r. p r && same_severity r.severity Severity.medium) rows
        + count_if (λ r. p r && same_severity r.severity Severity.low) rows
        + count_if (λ r. p r && same_severity r.severity Severity.info) rows
      ≡ count_if (λ r. p r && true) rows
count_severities p [] = refl
count_severities p (r ∷ rs) = ground (arith, count_severities p rs)

-- The counts by deadline, by assignment and by severity each add up to the total of the summary.
pub summary_partition :
    (organization : ℕ) (asset : Option ℕ) (now : ℕ) (rows : List Finding)
    → let s = summary organization asset now rows in
      (s.overdue + s.approaching + s.on_track + s.no_sla ≡ s.total)
      × (s.unassigned + s.assigned ≡ s.total)
      × (s.by_severity Severity.critical
            + s.by_severity Severity.high
            + s.by_severity Severity.medium
            + s.by_severity Severity.low
            + s.by_severity Severity.info
          ≡ s.total)
unfolding summary
summary_partition organization asset now rows = (
  count_due (in_summary organization asset) now rows,
  count_assigned (in_summary organization asset) rows,
  count_severities (in_summary organization asset) rows,
)

All-keep :
    (P : Finding → Type 0) (p : Finding → Bool) (rows : List Finding)
    → ((r : Finding) → p r ≡ true → P r)
    → All P (keep p rows)
All-keep P p [] h = tt
All-keep P p (r ∷ rs) h = elim (Bool-cases (p r)) [
  | inl e ↦ rw e (h r e, All-keep P p rs h)
  | inr e ↦ rw e (All-keep P p rs h)
]

All-take : (P : Finding → Type 0) (n : ℕ) (rows : List Finding) → All P rows → All P (take n rows)
All-take P zero rows h = tt
All-take P (suc n) [] h = tt
All-take P (suc n) (r ∷ rs) h = (h.0, All-take P n rs h.1)

All-drop :
    (P : Finding → Type 0) (n : ℕ) (rows : List Finding) → All P rows → All P (drop_rows n rows)
unfolding drop_rows
All-drop P n [] h = tt
All-drop P n (r ∷ rs) h = elim (Bool-cases (n == 0)) [
  | inl e ↦ rw e h
  | inr e ↦ rw e (All-drop P (n - 1) rs h.1)
]

length-take : (n : ℕ) (rows : List Finding) → length (take n rows) ≤ n
length-take zero rows = omega arith
length-take (suc n) [] = omega arith
length-take (suc n) (r ∷ rs) = omega (arith, length-take n rs)

length-keep-count :
    (p : Finding → Bool) (rows : List Finding) → length (keep p rows) ≡ count_if p rows
length-keep-count p [] = refl
length-keep-count p (r ∷ rs) = ground (arith, length-keep-count p rs)

owned :
    (organization : ℕ) (q : ListQuery) (now : ℕ) (r : Finding)
    → matches organization q now r ≡ true
    → r.organization ≡ organization
unfolding matches
owned organization q now r h = ground arith

All-page :
    (P : Finding → Type 0) (n k : ℕ) (rows : List Finding)
    → All P rows
    → All P (take n (drop_rows k rows)) × (length (take n (drop_rows k rows)) ≤ n)
All-page P n k rows h =
    (All-take P n (drop_rows k rows) (All-drop P k rows h), length-take n (drop_rows k rows))

-- A page holds at most as many findings as asked for, and each is of the organization that asks
-- and meets the conditions of the query; the total counts all that do, on every page.
pub find_all-page :
    (organization : ℕ) (q : ListQuery) (page page_size now : ℕ) (rows : List Finding)
    → let found = find_all organization q page page_size now rows in
      All (λ r. (r.organization ≡ organization) × (matches organization q now r ≡ true)) found.items
      × (length found.items ≤ page_size)
      × (found.total ≡ count_if (matches organization q now) rows)
unfolding find_all
find_all-page organization q page page_size now rows =
    let hits = keep (matches organization q now) rows in
    let P =
      λ (r : Finding). (r.organization ≡ organization) × (matches organization q now r ≡ true) in
    let (inside, short) =
      All-page P page_size _ hits
        (All-keep P (matches organization q now) rows (λ r h. (owned organization q now r h, h))) in
    (inside, short, length-keep-count (matches organization q now) rows)
