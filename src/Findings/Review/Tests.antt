-- ===== src/Findings/Review/Tests.antt =====
-- A review and a re-test of a finding of organization 1, in a table of two organizations.
use sistema_de_gestion_de_po.Common.{
  ℕ, ◌≡◌, refl, Bool, true, false, Option, none, some, String, [], ◌∷◌, arith,
}
use sistema_de_gestion_de_po.Domain.{Severity, Status, Category}
use sistema_de_gestion_de_po.Findings.{Finding, Result, ok, err, not_found, update_row}
use sistema_de_gestion_de_po.Findings.Review.{
  Account, State, ReviewDto, is_reviewable, find_one, reviewed, review, retested, retest,
}
use sistema_de_gestion_de_po.Findings.Review.Guarantees.{ChangesOnly, review-ChangesOnly}

abbrev stored : ℕ → ℕ → Status → Option ℕ → Finding
stored id organization s date = record {
  id = id;
  organization = organization;
  asset = 7;
  fingerprint = "k";
  category = Category.http_headers;
  rule_id = "HDR-CSP";
  severity = Severity.low;
  cvss = 31;
  status = s;
  title = "";
  description = "";
  recommendation = "";
  location = "/";
  evidence = "{}";
  first_seen_at = 10;
  last_seen_at = 20;
  last_scan = none;
  resolved_at = date;
  assigned_to = none;
  due_date = none;
  remediation_note = none;
  review_note = none;
  reviewed_by = none;
  cloud_account = none;
}

abbrev analyst : Account
analyst = record { id = 5; organization = 1 }

abbrev before : State
before = record {
  findings = record {
    rows = stored 2 1 Status.open_ none ∷ stored 1 2 Status.resolved (some 15) ∷ [];
    next_id = 3;
  };
  users = analyst ∷ record { id = 6; organization = 2 } ∷ [];
  snapshots = [];
}

abbrev request : ReviewDto
request = record {
  status = some Status.accepted;
  note = some "riesgo asumido";
  assigned_to = some (some 5);
  due_date = some none;
  remediation_note = none;
}

abbrev keep_text : String → String
keep_text s = s

abbrev state_of : Result State → State
state_of (ok s) = s
state_of (err e) = before

abbrev after_review : State
after_review = state_of (review keep_text analyst 2 request before)

abbrev still_there : Finding → Result Bool
still_there r = ok false

abbrev after_retest : State
after_retest = state_of (retest still_there analyst 2 90 before)

review_succeeds : review keep_text analyst 2 request before ≡ ok after_review
unfolding review find_one reviewed update_row
review_succeeds = refl

retest_succeeds : retest still_there analyst 2 90 before ≡ ok after_retest
unfolding retest find_one retested update_row
retest_succeeds = refl

-- Another organization's finding is not found.
foreign_refused : review keep_text analyst 1 request before ≡ err not_found
unfolding review find_one
foreign_refused = refl

allowed : (st : Status) → request.status ≡ some st → is_reviewable st ≡ true
allowed st e = ground (arith, e)

review-ChangesOnly_example :
    ChangesOnly 1 2 (reviewed keep_text analyst request) before.findings after_review.findings
review-ChangesOnly_example =
    review-ChangesOnly keep_text analyst 2 request before after_review (omega arith) review_succeeds
