-- ===== src/Findings/Sla.antt =====
-- The remediation deadline of a finding (backend/src/findings/findings.service.ts, `computeSla`, and
-- the filter of `findAll` by SLA status). Times are milliseconds.
use sistema_de_gestion_de_po.Common.{
  ℕ, ◌+◌, ◌-◌, ◌*◌, ◌/◌, ◌≤◌, ◌<◌, max, ◌≡◌, ◌↔◌, Bool, true, false, ◌&&◌, ◌||◌, Option, none, some,
  if◌then◌else◌, leb, ltb, ◌==◌, ceil_div, round_div, arith, ℤ, pos, negsuc, pos_part, neg_part,
  ltb_ℤ, leb_ℤ,
}
use sistema_de_gestion_de_po.Domain.{Status, same_status}
use sistema_de_gestion_de_po.Findings.{is_active}

pub data SlaStatus : Type 0 where
  overdue approaching on_track resolved no_sla : SlaStatus

-- The texts of the labels, with the numbers that they name.
pub data Label : Type 0 where
  closed_label no_sla_label due_within_hour : Label
  overdue_days due_hours days_left : ℕ → Label

pub record FindingSla : Type 0 where
  pub status : SlaStatus
  pub hours_remaining : Option ℤ
  pub is_overdue : Bool
  pub is_approaching : Bool
  pub due_date : Option ℕ
  pub label : Label

abbrev pub hour_ms : ℕ
hour_ms = 1000 * 60 * 60

-- `Math.round((dueTime - now) / hour)`: halves are rounded up, so towards 0 before the deadline's
-- sign changes; a quotient in [-0.5, 0) gives -0, which compares as 0.
pub diff_hours : ℕ → ℕ → ℤ
diff_hours due now =
    if leb now due
    then pos (round_div (due - now) hour_ms)
    else negate ((2 * (now - due) + hour_ms - 1) / (2 * hour_ms))
  where
    negate : ℕ → ℤ
    negate n = if n == 0 then pos 0 else negsuc (n - 1)

pub compute_sla : Option ℕ → Status → ℕ → FindingSla
unfolding diff_hours
compute_sla due status now =
    if same_status status Status.resolved
      || same_status status Status.accepted
      || same_status status Status.false_positive
    then record {
      status = SlaStatus.resolved;
      hours_remaining = none;
      is_overdue = false;
      is_approaching = false;
      due_date = due;
      label = closed_label;
    }
    else elim due [
      | none ↦ record {
        status = no_sla;
        hours_remaining = none;
        is_overdue = false;
        is_approaching = false;
        due_date = none;
        label = no_sla_label;
      }
      | some d ↦
          let hours = diff_hours d now in
          if ltb_ℤ hours (pos 0)
          then record {
            status = overdue;
            hours_remaining = some hours;
            is_overdue = true;
            is_approaching = false;
            due_date = some d;
            label = overdue_days (max 1 (ceil_div (neg_part hours) 24));
          }
          else if leb_ℤ hours (pos 48)
          then record {
            status = approaching;
            hours_remaining = some hours;
            is_overdue = false;
            is_approaching = true;
            due_date = some d;
            label = if leb_ℤ hours (pos 1) then due_within_hour else due_hours (pos_part hours);
          }
          else record {
            status = on_track;
            hours_remaining = some hours;
            is_overdue = false;
            is_approaching = false;
            due_date = some d;
            label = days_left (max 1 (ceil_div (pos_part hours) 24));
          }
    ]

abbrev pub two_days_ms : ℕ
two_days_ms = 48 * 60 * 60 * 1000

-- The condition on `dueDate` for a value of the query's `slaStatus`: `RESOLVED` adds none.
unfoldable pub due_matches : SlaStatus → Option ℕ → ℕ → Bool
due_matches overdue none now = false
due_matches overdue (some d) now = ltb d now
due_matches approaching none now = false
due_matches approaching (some d) now = leb now d && leb d (now + two_days_ms)
due_matches on_track none now = false
due_matches on_track (some d) now = ltb (now + two_days_ms) d
due_matches no_sla none now = true
due_matches no_sla (some d) now = false
due_matches SlaStatus.resolved due now = true

-- The SLA status of an active finding in exact times, with no rounding: it is overdue when the
-- deadline is more than half an hour past, approaching until 48.5 hours before it, and on track
-- before that; without a deadline it has no SLA, and a finding that is not active is closed.
pub compute_sla-intervals :
    (status : Status) (d now : ℕ)
    → is_active status ≡ true
    → (((compute_sla (some d) status now).status ≡ overdue) ↔ (d + 1800000 < now))
      × (((compute_sla (some d) status now).status ≡ approaching)
          ↔ ((now ≤ d + 1800000) × (d < now + 174600000)))
      × (((compute_sla (some d) status now).status ≡ on_track) ↔ (now + 174600000 ≤ d))
      × ((compute_sla none status now).status ≡ no_sla)
unfolding compute_sla
compute_sla-intervals status d now h = (
  (λ e. ground arith, λ e. ground arith),
  (λ e. ground arith, λ e. ground arith),
  (λ e. ground arith, λ e. ground arith),
  ground arith,
)

-- Within half an hour after the deadline the list filter finds an active finding as overdue, and
-- the computed status says that the deadline is approaching.
pub overdue_filter_disagrees :
    (status : Status) (d now : ℕ)
    → is_active status ≡ true
    → d < now
    → now ≤ d + 1800000
    → (due_matches overdue (some d) now ≡ true)
      × ((compute_sla (some d) status now).status ≡ approaching)
unfolding due_matches
overdue_filter_disagrees status d now h late soon =
    (ground arith, (compute_sla-intervals status d now h).1.1 (soon, omega arith))
