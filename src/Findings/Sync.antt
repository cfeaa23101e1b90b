-- ===== src/Findings/Sync.antt =====
-- The findings of a completed scan (backend/src/findings/findings.service.ts, `syncForScan`).
-- `fingerprint` and `cut` stand for the SHA-256 of `ruleId|location` and for `String.slice(0, n)`.
-- The catalogue of rules is an argument. Every time of one call is the same `now`.
pub mod Rules
pub mod Lifecycle
pub mod Detected
pub mod Counts
mod Tests
use sistema_de_gestion_de_po.Common.{
  ℕ, suc, ◌+◌, ◌≡◌, Bool, true, false, ◌&&◌, ◌||◌, not, Option, none, some, String, List, [], ◌∷◌,
  ◌++◌, map, if◌then◌else◌, str_eq, ◌==◌, find, keep, count_if, or_else, any,
}
use sistema_de_gestion_de_po.Domain.{
  Severity, Status, Category, ScanType, same_severity, same_status,
}
use sistema_de_gestion_de_po.Findings.{
  Finding, Table, Rule, Failure, Result, ok, err, get_rule, is_active, in_categories,
  categories_by_scan_type, update_row,
}

pub record Draft : Type 0 where
  pub rule_id : String
  pub location : String
  pub evidence : Option String
  pub title : Option String
  pub description : Option String
  pub recommendation : Option String
  pub severity : Option Severity
  pub cvss : Option ℕ

pub record SyncInput : Type 0 where
  pub organization : ℕ
  pub asset : ℕ
  pub scan : ℕ
  pub scan_type : ScanType
  pub drafts : List Draft
  pub incomplete : List Category

pub record SyncResult : Type 0 where
  pub created : ℕ
  pub updated : ℕ
  pub reopened : ℕ
  pub resolved : ℕ
  pub by_severity : Severity → ℕ

pub record OpenedFinding : Type 0 where
  pub id : ℕ
  pub rule_id : String
  pub category : Category
  pub severity : Severity
  pub title : String
  pub location : String
  pub evidence : String
  pub reopened : Bool

-- The variables of the loop, with the table that it writes.
pub record Progress : Type 0 where
  pub table : Table
  pub result : SyncResult
  pub opened : List OpenedFinding
  pub seen : List String

abbrev pub empty_result : SyncResult
empty_result = record { created = 0; updated = 0; reopened = 0; resolved = 0; by_severity = λ s. 0 }

abbrev pub has : String → List String → Bool
has k ks = any (λ j. str_eq j k) ks

-- `findUnique({ assetId_fingerprint })`.
abbrev pub is_at : ℕ → String → Finding → Bool
is_at asset k r = r.asset == asset && str_eq r.fingerprint k

abbrev add_one_at : Severity → (Severity → ℕ) → Severity → ℕ
add_one_at s n t = if same_severity s t then suc (n t) else n t

module _ (fingerprint : String → String → String) (cut : ℕ → String → String) (now : ℕ) where
  -- The columns that each detection writes.
  abbrev pub detected : SyncInput → Draft → Rule → Finding → Finding
  detected input d rule r = record r {
    category = rule.category;
    rule_id = rule.id;
    severity = or_else d.severity rule.severity;
    cvss = or_else d.cvss rule.cvss;
    title = cut 200 (or_else d.title rule.title);
    description = or_else d.description rule.description;
    recommendation = or_else d.recommendation rule.recommendation;
    location = cut 500 d.location;
    evidence = or_else d.evidence "{}";
    last_seen_at = now;
    last_scan = some input.scan;
  }

  -- A created row: the columns above, the keys, and the defaults of the schema.
  abbrev pub blank : SyncInput → ℕ → String → Finding
  blank input id k = record {
    id = id;
    organization = input.organization;
    asset = input.asset;
    fingerprint = k;
    category = Category.exposed_service;
    rule_id = "";
    severity = Severity.info;
    cvss = 0;
    status = Status.open_;
    title = "";
    description = "";
    recommendation = "";
    location = "";
    evidence = "";
    first_seen_at = now;
    last_seen_at = now;
    last_scan = none;
    resolved_at = none;
    assigned_to = none;
    due_date = none;
    remediation_note = none;
    review_note = none;
    reviewed_by = none;
    cloud_account = none;
  }

  opened_info : Finding → Bool → OpenedFinding
  opened_info r again = record {
    id = r.id;
    rule_id = r.rule_id;
    category = r.category;
    severity = r.severity;
    title = r.title;
    location = r.location;
    evidence = r.evidence;
    reopened = again;
  }

  -- The three branches: a new finding, one that comes back, one that is still there.
  pub create : SyncInput → Draft → Rule → String → Progress → Progress
  unfolding opened_info
  create input d rule k p =
      let r = detected input d rule (blank input p.table.next_id k) in
      record p {
        table = record { rows = r ∷ p.table.rows; next_id = suc p.table.next_id };
        result = record (p.result) { created = suc p.result.created };
        opened = p.opened ++ opened_info r false ∷ [];
      }

  abbrev pub reopen_row : SyncInput → Draft → Rule → Finding → Finding
  reopen_row input d rule r = record (detected input d rule r) {
    status = Status.open_;
    resolved_at = none;
  }

  pub reopen : SyncInput → Draft → Rule → Finding → Progress → Progress
  unfolding opened_info
  reopen input d rule existing p = record p {
    table = record (p.table) {
      rows = update_row existing.id (reopen_row input d rule) p.table.rows;
    };
    result = record (p.result) { reopened = suc p.result.reopened };
    opened = p.opened ++ opened_info (detected input d rule existing) true ∷ [];
  }

  pub refresh : SyncInput → Draft → Rule → Finding → Progress → Progress
  refresh input d rule existing p = record p {
    table = record (p.table) { rows = update_row existing.id (detected input d rule) p.table.rows };
    result = record (p.result) { updated = suc p.result.updated };
  }

  pub save : SyncInput → Draft → Rule → String → Progress → Progress
  save input d rule k p = elim (find (is_at input.asset k) p.table.rows) [
    | none ↦ create input d rule k p
    | some existing ↦
        if same_status existing.status Status.resolved
        then reopen input d rule existing p
        else refresh input d rule existing p
  ]

  -- The end of the loop's body: the fingerprint is seen and its severity counted.
  abbrev pub counted : Severity → String → Progress → Progress
  counted s k p = record p {
    result = record (p.result) { by_severity = add_one_at s p.result.by_severity };
    seen = k ∷ p.seen;
  }

  -- One round of the loop. The rule is looked up before a repeated fingerprint is skipped.
  pub sync_draft : List Rule → SyncInput → Draft → Progress → Result Progress
  sync_draft rules input d p = elim (get_rule rules d.rule_id) [
    | err e ↦ err e
    | ok rule ↦
        let k = fingerprint d.rule_id d.location in
        if has k p.seen
        then ok p
        else ok (counted (or_else d.severity rule.severity) k (save input d rule k p))
  ]

  pub sync_drafts : List Rule → SyncInput → List Draft → Progress → Result Progress
  sync_drafts rules input [] p = ok p
  sync_drafts rules input (d ∷ ds) p = elim (sync_draft rules input d p) [
    | err e ↦ err e
    | ok p' ↦ sync_drafts rules input ds p'
  ]

  -- `updateMany`: the active findings of the categories whose fingerprint was not seen.
  abbrev pub is_missing : SyncInput → List Category → List String → Finding → Bool
  is_missing input categories seen r =
      r.asset == input.asset
      && in_categories categories r.category
      && is_active r.status
      && not (has r.fingerprint seen)

  abbrev pub resolve_row : Finding → Finding
  resolve_row r = record r { status = Status.resolved; resolved_at = some now }

  abbrev pub settle : SyncInput → List Category → List String → Finding → Finding
  settle input categories seen r = if is_missing input categories seen r then resolve_row r else r

  -- The categories that the scan evaluated in full.
  abbrev pub evaluated : SyncInput → List Category
  evaluated input =
      keep (λ c. not (in_categories input.incomplete c)) (categories_by_scan_type input.scan_type)

  pub resolve : SyncInput → List Category → Progress → Progress
  resolve input categories p = record p {
    table = record (p.table) { rows = map (settle input categories p.seen) p.table.rows };
    result = record (p.result) {
      resolved = count_if (is_missing input categories p.seen) p.table.rows;
    };
  }

  -- With no category evaluated the source returns before the resolution.
  pub finish : SyncInput → Progress → Progress
  finish input p = elim (evaluated input) [ [] ↦ p | c ∷ cs ↦ resolve input (c ∷ cs) p ]

  -- An unknown rule aborts the transaction, so the table is then unchanged.
  pub sync_for_scan : List Rule → SyncInput → Table → Result Progress
  sync_for_scan rules input t =
      let start : Progress = record { table = t; result = empty_result; opened = []; seen = [] } in
      elim (sync_drafts rules input input.drafts start) [
        | err e ↦ err e
        | ok p ↦ ok (finish input p)
      ]
