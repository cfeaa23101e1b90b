-- ===== src/Domain.antt =====
-- The enumerations of the database schema (backend/prisma/schema.prisma) that the services share.
use sistema_de_gestion_de_po.Common.{ℕ, Bool, ◌==◌}

pub data Severity : Type 0 where
  critical high medium low info : Severity

pub data Criticality : Type 0 where
  critical high medium low : Criticality

pub data Status : Type 0 where
  open_ in_progress verifying resolved accepted false_positive : Status

pub data AssetType : Type 0 where
  domain ip cloud_account : AssetType

pub data ScanType : Type 0 where
  port_scan web_headers ssl_cert sensitive_paths email_security subdomain_discovery : ScanType

pub data Category : Type 0 where
  exposed_service http_headers tls_certificate sensitive_path vulnerable_software email : Category
  cloud_iam cloud_storage cloud_network cloud_compute cloud_database cloud_logging : Category

pub data ScanStatus : Type 0 where
  pending running completed failed cancelled : ScanStatus

pub data ScanSource : Type 0 where
  manual scheduled : ScanSource

-- The position of a value in its enumeration, which tells the values apart.
abbrev pub category_index : Category → ℕ
category_index exposed_service = 0
category_index http_headers = 1
category_index tls_certificate = 2
category_index sensitive_path = 3
category_index vulnerable_software = 4
category_index email = 5
category_index cloud_iam = 6
category_index cloud_storage = 7
category_index cloud_network = 8
category_index cloud_compute = 9
category_index cloud_database = 10
category_index cloud_logging = 11

abbrev pub status_index : Status → ℕ
status_index open_ = 0
status_index in_progress = 1
status_index verifying = 2
status_index resolved = 3
status_index accepted = 4
status_index false_positive = 5

abbrev pub scan_type_index : ScanType → ℕ
scan_type_index port_scan = 0
scan_type_index web_headers = 1
scan_type_index ssl_cert = 2
scan_type_index sensitive_paths = 3
scan_type_index email_security = 4
scan_type_index subdomain_discovery = 5

abbrev pub scan_status_index : ScanStatus → ℕ
scan_status_index pending = 0
scan_status_index running = 1
scan_status_index completed = 2
scan_status_index failed = 3
scan_status_index cancelled = 4

abbrev pub asset_type_index : AssetType → ℕ
asset_type_index domain = 0
asset_type_index ip = 1
asset_type_index cloud_account = 2

abbrev pub severity_index : Severity → ℕ
severity_index critical = 0
severity_index high = 1
severity_index medium = 2
severity_index low = 3
severity_index info = 4

-- `===` on the enumerations.
abbrev pub same_category : Category → Category → Bool
same_category a b = category_index a == category_index b

abbrev pub same_status : Status → Status → Bool
same_status a b = status_index a == status_index b

abbrev pub same_scan_type : ScanType → ScanType → Bool
same_scan_type a b = scan_type_index a == scan_type_index b

abbrev pub same_scan_status : ScanStatus → ScanStatus → Bool
same_scan_status a b = scan_status_index a == scan_status_index b

abbrev pub same_asset_type : AssetType → AssetType → Bool
same_asset_type a b = asset_type_index a == asset_type_index b

abbrev pub same_severity : Severity → Severity → Bool
same_severity a b = severity_index a == severity_index b
