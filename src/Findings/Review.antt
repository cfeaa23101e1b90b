-- ===== src/Findings/Review.antt =====
-- Triage and re-test of one finding (backend/src/findings/findings.service.ts, `findOne`, `review`,
-- `retest`). `trim` is a parameter, and so is the outcome of the network probe of a re-test. The
-- audit record is not modelled; a request for a risk snapshot is kept in a list.
pub mod Guarantees
mod Tests
use sistema_de_gestion_de_po.Common.{
  ℕ, ◌≡◌, Bool, true, false, ◌&&◌, ◌||◌, not, Option, none, some, String, List, [], ◌∷◌,
  if◌then◌else◌, str_eq, ◌==◌, find, any, is_some, opt_map, or_else,
}
use sistema_de_gestion_de_po.Domain.{Status, same_status}
use sistema_de_gestion_de_po.Findings.{
  Finding, Table, Failure, Result, ok, err, not_found, bad_request, update_row,
}

pub record Account : Type 0 where
  pub id : ℕ
  pub organization : ℕ

pub record State : Type 0 where
  pub findings : Table
  pub users : List Account
  -- organization and asset of each snapshot asked for, newest first
  pub snapshots : List (ℕ × ℕ)

-- `some none` stands for an explicit null, `none` for an absent field.
pub record ReviewDto : Type 0 where
  pub status : Option Status
  pub note : Option String
  pub assigned_to : Option (Option ℕ)
  pub due_date : Option (Option ℕ)
  pub remediation_note : Option (Option String)

-- The statuses that the validation of the request lets through.
abbrev pub is_reviewable : Status → Bool
is_reviewable Status.resolved = false
is_reviewable _ = true

pub find_one : Table → ℕ → ℕ → Result Finding
find_one t organization id =
    elim (find (λ r. r.id == id && r.organization == organization) t.rows) [
      | none ↦ err not_found
      | some r ↦ ok r
    ]

-- `dto.assignedToId` names a user of the organization, or is absent or null.
assignee_allowed : List Account → ℕ → Option (Option ℕ) → Bool
assignee_allowed users organization none = true
assignee_allowed users organization (some none) = true
assignee_allowed users organization (some (some u)) =
    any (λ a. a.id == u && a.organization == organization) users

abbrev changes_status : Option Status → Status → Bool
changes_status none old = false
changes_status (some s) old = not (same_status s old)

-- An empty text counts as null.
abbrev trimmed : (String → String) → String → Option String
trimmed trim s = if str_eq s "" then none else some (trim s)

module _ (trim : String → String) where
  pub reviewed : Account → ReviewDto → Finding → Finding → Finding
  reviewed actor dto existing r = record r {
    status = or_else dto.status r.status;
    resolved_at =
        if is_some dto.status && same_status existing.status Status.resolved
        then none
        else r.resolved_at;
    review_note = elim dto.note [ none ↦ r.review_note | some n ↦ trimmed trim n ];
    reviewed_by =
        if is_some dto.note || changes_status dto.status existing.status
        then some actor.id
        else r.reviewed_by;
    assigned_to = or_else dto.assigned_to r.assigned_to;
    due_date = or_else dto.due_date r.due_date;
    remediation_note = elim dto.remediation_note [
      | none ↦ r.remediation_note
      | some none ↦ none
      | some (some n) ↦ trimmed trim n
    ];
  }

  pub review : Account → ℕ → ReviewDto → State → Result State
  unfolding find_one assignee_allowed
  review actor id dto s = elim (find_one s.findings actor.organization id) [
    | err e ↦ err e
    | ok existing ↦
        if assignee_allowed s.users actor.organization dto.assigned_to
        then ok (record s {
          findings = record (s.findings) {
            rows = update_row id (reviewed actor dto existing) s.findings.rows;
          };
          snapshots =
              if changes_status dto.status existing.status
              then (actor.organization, existing.asset) ∷ s.snapshots
              else s.snapshots;
        })
        else err (bad_request "El usuario asignado no pertenece a la organización")
  ]

-- The columns that a re-test writes.
pub retested : Bool → ℕ → Finding → Finding → Finding
retested still now existing r =
    if not still
    then record r { status = Status.resolved; resolved_at = some now; last_seen_at = now }
    else if same_status existing.status Status.resolved
    then record r { status = Status.open_; resolved_at = none; last_seen_at = now }
    else record r { last_seen_at = now }

-- `probe` is the probe's answer for the finding, or its refusal.
pub retest : (Finding → Result Bool) → Account → ℕ → ℕ → State → Result State
unfolding find_one retested
retest probe actor id now s = elim (find_one s.findings actor.organization id) [
  | err e ↦ err e
  | ok existing ↦ elim (probe existing) [
    | err e ↦ err e
    | ok still ↦ ok (record s {
      findings = record (s.findings) {
        rows = update_row id (retested still now existing) s.findings.rows;
      };
      snapshots =
          if same_status existing.status (retested still now existing existing).status
          then s.snapshots
          else (actor.organization, existing.asset) ∷ s.snapshots;
    })
  ]
]
