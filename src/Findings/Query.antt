-- ===== src/Findings/Query.antt =====
-- The list and the summary of findings (backend/src/findings/findings.service.ts, `findAll`,
-- `summary`). The order of a page is that of the table.
pub mod Partition
mod Tests
use sistema_de_gestion_de_po.Common.{
  ℕ, suc, ◌+◌, ◌-◌, ◌*◌, max, ◌≡◌, Bool, true, false, ◌&&◌, ◌||◌, not, Option, none, some, String,
  List, [], ◌∷◌, if◌then◌else◌, str_eq, ◌==◌, leb, ltb, keep, count_if, take, is_some, length,
  ceil_div, any,
}
use sistema_de_gestion_de_po.Domain.{
  Severity, Status, Category, same_status, same_severity, same_category, exposed_service,
  http_headers, tls_certificate, sensitive_path, vulnerable_software, email, cloud_iam,
  cloud_storage, cloud_network, cloud_compute, cloud_database, cloud_logging,
}
use sistema_de_gestion_de_po.Findings.{Finding, is_active, in_categories}
use sistema_de_gestion_de_po.Findings.Sla.{SlaStatus, due_matches}

pub data Domain : Type 0 where
  cloud perimeter : Domain

pub data AssigneeFilter : Type 0 where
  unassigned : AssigneeFilter
  user : ℕ → AssigneeFilter

pub record ListQuery : Type 0 where
  pub asset : Option ℕ
  pub cloud_account : Option ℕ
  pub severity : Option Severity
  pub status : Option Status
  pub category : Option Category
  pub domain : Option Domain
  pub assigned_to : Option AssigneeFilter
  pub sla_status : Option SlaStatus
  -- the identifiers of the rules of `effortLevel`, where it is given
  pub effort_rules : Option (List String)

abbrev pub cloud_categories : List Category
cloud_categories =
    cloud_iam ∷ cloud_storage ∷ cloud_network ∷ cloud_compute ∷ cloud_database ∷ cloud_logging ∷ []

abbrev pub perimeter_categories : List Category
perimeter_categories =
    exposed_service ∷ http_headers ∷ tls_certificate ∷ sensitive_path ∷ vulnerable_software ∷ email
    ∷ []

-- A condition of `where` that an absent value leaves out.
abbrev wants {ℓ} : {A : Type ℓ} → Option A → (A → Bool) → Bool
wants none p = true
wants (some a) p = p a

-- A nullable column equals a number.
abbrev holds : Option ℕ → ℕ → Bool
holds none n = false
holds (some m) n = m == n

domain_categories : Domain → List Category
domain_categories cloud = cloud_categories
domain_categories perimeter = perimeter_categories

category_matches : ListQuery → Category → Bool
unfolding domain_categories
category_matches q c = elim q.category [
  | some d ↦ same_category d c
  | none ↦ wants q.domain (λ d. in_categories (domain_categories d) c)
]

assignee_matches : AssigneeFilter → Option ℕ → Bool
assignee_matches unassigned a = not (is_some a)
assignee_matches (user u) a = holds a u

-- The value `RESOLVED` of `slaStatus` sets no condition; another one asks for an active status where
-- the query names none.
sla_matches : ListQuery → SlaStatus → Finding → ℕ → Bool
sla_matches q SlaStatus.resolved r now = true
sla_matches q s r now = (is_some q.status || is_active r.status) && due_matches s r.due_date now

-- The conditions beside that on the organization.
conditions : ListQuery → ℕ → Finding → Bool
unfolding category_matches assignee_matches sla_matches
conditions q now r =
    wants q.asset (λ a. r.asset == a)
    && wants q.cloud_account (λ c. holds r.cloud_account c)
    && wants q.severity (λ s. same_severity s r.severity)
    && wants q.status (λ s. same_status s r.status)
    && category_matches q r.category
    && wants q.assigned_to (λ a. assignee_matches a r.assigned_to)
    && wants q.sla_status (λ s. sla_matches q s r now)
    && wants q.effort_rules (λ ids. any (λ i. str_eq i r.rule_id) ids)

pub matches : ℕ → ListQuery → ℕ → Finding → Bool
matches organization q now r = r.organization == organization && conditions q now r

drop_rows : ℕ → List Finding → List Finding
drop_rows n [] = []
drop_rows n (r ∷ rs) = if n == 0 then r ∷ rs else drop_rows (n - 1) rs

pub record Page : Type 0 where
  pub items : List Finding
  pub total : ℕ
  pub page : ℕ
  pub page_size : ℕ
  pub total_pages : ℕ

pub find_all : ℕ → ListQuery → (page page_size now : ℕ) → List Finding → Page
unfolding drop_rows
find_all organization q page page_size now rows =
    let hits = keep (matches organization q now) rows in
    record {
      items = take page_size (drop_rows ((page - 1) * page_size) hits);
      total = length hits;
      page = page;
      page_size = page_size;
      total_pages = max 1 (ceil_div (length hits) page_size);
    }

pub record Summary : Type 0 where
  pub total : ℕ
  pub by_severity : Severity → ℕ
  pub by_category : Category → ℕ
  pub overdue : ℕ
  pub approaching : ℕ
  pub on_track : ℕ
  pub no_sla : ℕ
  pub unassigned : ℕ
  pub assigned : ℕ

-- The condition that all counts of the summary share.
abbrev pub in_summary : ℕ → Option ℕ → Finding → Bool
in_summary organization asset r =
    r.organization == organization && wants asset (λ a. r.asset == a) && is_active r.status

pub summary : ℕ → Option ℕ → ℕ → List Finding → Summary
summary organization asset now rows =
    let count =
      λ (p : Finding → Bool). count_if (λ r. in_summary organization asset r && p r) rows in
    record {
      total = count (λ r. true);
      by_severity = λ s. count (λ r. same_severity r.severity s);
      by_category = λ c. count (λ r. same_category r.category c);
      overdue = count (λ r. due_matches SlaStatus.overdue r.due_date now);
      approaching = count (λ r. due_matches SlaStatus.approaching r.due_date now);
      on_track = count (λ r. due_matches SlaStatus.on_track r.due_date now);
      no_sla = count (λ r. due_matches SlaStatus.no_sla r.due_date now);
      unassigned = count (λ r. not (is_some r.assigned_to));
      assigned = count (λ r. is_some r.assigned_to);
    }
