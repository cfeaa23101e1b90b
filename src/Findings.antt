-- ===== src/Findings.antt =====
-- Findings: the rows of the table, their statuses and the errors of the service
-- (backend/src/findings/findings.service.ts, findings/rules.catalog.ts, prisma/schema.prisma).
-- Times are milliseconds, scores are tenths. A row's `evidence` is the text of its JSON value.
pub mod Rows
pub mod Sync
pub mod Sla
pub mod Review
pub mod Query
mod Tests
use sistema_de_gestion_de_po.Common.{
  ℕ, suc, ◌*◌, ◌+◌, ◌<◌, ◌≡◌, ◌↔◌, ◌⊎◌, inl, inr, refl, Bool, true, false, ◌&&◌, ◌||◌, not, Option,
  none, some, String, List, [], ◌∷◌, map, if◌then◌else◌, str_eq, ◌==◌, leb, ltb, find, is_some,
}
use sistema_de_gestion_de_po.Domain.{
  Severity, Status, Category, ScanType, same_status, same_category, exposed_service, http_headers,
  tls_certificate, sensitive_path, vulnerable_software, email, cloud_iam, cloud_storage,
  cloud_network, cloud_compute, cloud_database, cloud_logging,
}

pub record Rule : Type 0 where
  pub id : String
  pub category : Category
  pub severity : Severity
  pub cvss : ℕ
  pub title : String
  pub description : String
  pub recommendation : String

pub record Finding : Type 0 where
  pub id : ℕ
  pub organization : ℕ
  pub asset : ℕ
  pub fingerprint : String
  pub category : Category
  pub rule_id : String
  pub severity : Severity
  pub cvss : ℕ
  pub status : Status
  pub title : String
  pub description : String
  pub recommendation : String
  pub location : String
  pub evidence : String
  pub first_seen_at : ℕ
  pub last_seen_at : ℕ
  pub last_scan : Option ℕ
  pub resolved_at : Option ℕ
  pub assigned_to : Option ℕ
  pub due_date : Option ℕ
  pub remediation_note : Option String
  pub review_note : Option String
  pub reviewed_by : Option ℕ
  pub cloud_account : Option ℕ

-- The table, newest row first, and the next identifier.
pub record Table : Type 0 where
  pub rows : List Finding
  pub next_id : ℕ

pub data Failure : Type 0 where
  unknown_rule : String → Failure
  not_found : Failure
  bad_request : String → Failure

pub data Result {ℓ} (A : Type ℓ) : Type ℓ where
  ok : A → Result A
  err : Failure → Result A

pub Result-cases {ℓ} :
    {A : Type ℓ} (m : Result A) → ((a : A) × (m ≡ ok a)) ⊎ ((e : Failure) × (m ≡ err e))
Result-cases (ok a) = inl (a, refl)
Result-cases (err e) = inr (e, refl)

-- OPEN, IN_PROGRESS or VERIFYING.
abbrev pub is_active : Status → Bool
is_active Status.open_ = true
is_active Status.in_progress = true
is_active Status.verifying = true
is_active _ = false

abbrev pub in_categories : List Category → Category → Bool
in_categories [] c = false
in_categories (d ∷ ds) c = same_category d c || in_categories ds c

abbrev pub categories_by_scan_type : ScanType → List Category
categories_by_scan_type ScanType.port_scan = exposed_service ∷ vulnerable_software ∷ []
categories_by_scan_type ScanType.web_headers = http_headers ∷ []
categories_by_scan_type ScanType.ssl_cert = tls_certificate ∷ []
categories_by_scan_type ScanType.sensitive_paths = sensitive_path ∷ []
categories_by_scan_type ScanType.email_security = email ∷ []
categories_by_scan_type ScanType.subdomain_discovery = []

-- `getRule`: an unknown identifier throws.
unfoldable pub get_rule : List Rule → String → Result Rule
get_rule [] id = err (unknown_rule id)
get_rule (r ∷ rs) id = if str_eq r.id id then ok r else get_rule rs id

-- `update({ where: { id } })`: the row of that identifier is replaced.
unfoldable pub update_row : ℕ → (Finding → Finding) → List Finding → List Finding
update_row i f [] = []
update_row i f (r ∷ rs) = (if r.id == i then f r else r) ∷ update_row i f rs

-- `findUnique({ where: { id } })`.
unfoldable pub row : ℕ → List Finding → Option Finding
row i [] = none
row i (r ∷ rs) = if r.id == i then some r else row i rs

-- Identifiers fall along the table and stay below the bound, so each names one row.
abbrev pub Below : ℕ → List Finding → Type 0
Below n [] = Unit {0}
Below n (r ∷ rs) = (r.id < n) × Below r.id rs

-- A row has a resolution date exactly when it is resolved.
abbrev pub DatedWhenResolved : Finding → Type 0
DatedWhenResolved r = (r.status ≡ Status.resolved) ↔ (is_some r.resolved_at ≡ true)
