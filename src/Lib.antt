-- ===== src/Lib.antt =====
-- Verification of the security posture platform (backend/src): the synchronisation of findings,
-- the queue of scans and the diagnostics that fill it, logins with their second factor, and the
-- Security Score.
--
-- The parts and how they interact. A user or the monitoring
-- (backend/src/monitoring/monitoring.scheduler.ts) asks for a scan of an asset
-- (backend/src/scans/scans.service.ts), whose address is checked before it is scanned
-- (backend/src/scans/target-resolver.ts); the table of scans is the queue, from which a worker
-- claims the next one, runs a scanner and ends the scan
-- (backend/src/scans/scan-worker.service.ts). A diagnostic asks for the scans of its stages, one
-- stage after another (backend/src/scans/diagnostic-orchestrator.service.ts). The findings of a completed scan are synchronised
-- with the table of findings (backend/src/findings/findings.service.ts), which people then review
-- and test again. The open findings of an asset give its score (backend/src/risk/scoring.ts), and
-- the scores of the assets that of the organization (backend/src/risk/risk-scores.service.ts).
-- What a scan has changed gives the alerts (backend/src/alerts/alert-rules.ts). Users log in
-- behind a protection against guessing (backend/src/auth/auth.service.ts,
-- backend/src/auth/login-protection.service.ts), and with a one-time code where they have set up a
-- second factor (backend/src/auth/mfa.service.ts, backend/src/auth/totp.ts).
--
-- The files.
--   Common        shared names, Boolean tests, lists, dictionaries, tables of keyed rows, integers
--   Domain        the enumerations of backend/prisma/schema.prisma
--   Scoring       backend/src/risk/scoring.ts: compute_score is computeScore, grade_for is gradeFor,
--                 aggregate_scores is aggregateScores; Scoring/Bounds and Scoring/Monotone prove;
--                 Scoring/Anomaly is evaluateScoreAnomaly with its theorem
--   Risk          backend/src/risk/risk-scores.service.ts: open_counts, compute_asset, compute_all_assets,
--                 organization_score (computeHybridOrganizationScore), snapshot; Risk/Organization
--                 and Risk/Agreement prove
--   Login         backend/src/auth/login-protection.service.ts: next_failure_state, assert_not_locked,
--                 record_failure, reset; Login/Lockout proves
--   Login/Session backend/src/auth/auth.service.ts: login; Login/Session/Guarantees proves
--   Totp          backend/src/auth/totp.ts: base32_encode and base32_decode; Totp/Codes has hotp_code,
--                 totp_code, verify_totp and the recovery codes; Totp/RoundTrip and
--                 Totp/Codes/Window prove
--   Mfa           backend/src/auth/mfa.service.ts: status, setup, enable, disable, admin_disable;
--                 Mfa/SecondStep is completeLogin, decide up to its last read and carry_out after
--                 it; Mfa/Invariant and, below Mfa/SecondStep, Guarantees, Consumption and Guesses
--                 prove
--   Findings      the rows of findings and the catalogue of rules; Findings/Rows has the lemmas
--   Findings/Sync syncForScan, one function for each part of its loop; Findings/Sync/Rules has the
--                 proof rules of the loop, Lifecycle, Detected and Counts prove
--   Findings/Sla  computeSla and the conditions on due dates
--   Findings/Review
--                 findOne, review and retest; Findings/Review/Guarantees proves
--   Findings/Query
--                 findAll and summary; Findings/Query/Partition proves
--   Alerts        backend/src/alerts/alert-rules.ts: detect_alerts, meets_threshold, max_severity,
--                 diff_open_ports, and calculateNextRetry of backend/src/alerts/alerts.service.ts; Alerts/Coverage
--                 and Alerts/Severities prove
--   Scans         the rows of scans, assets and scanners
--   Scans/Queue   enqueue, cancel, claim_next and fail_stale_scans; Scans/Queue/Admission proves
--   Scans/Worker  the end of an execution, adapt_concurrency, is_transient, preflight;
--                 Scans/Worker/Adaptive and Scans/Worker/Outcome prove
--   Scans/Steps   the queue as a transition system, one constructor for each operation of the API and
--                 of the workers; its modules Moves, Operations and Invariant prove
--   Diagnostics   backend/src/scans/diagnostic-orchestrator.service.ts: stages_for_profile
--   Diagnostics/Summary
--                 what completeBatch stores
--   Diagnostics/Pipeline
--                 start, advance_pipeline, complete_batch and cancel_batch; its modules Order, Rows,
--                 Operations, Invariant, Cancellation, StageScans and QueueInvariant prove
--   Diagnostics/Progress
--                 getBatch and getLatestBatchForAsset
--   Diagnostics/Diff
--                 getPostureDiff; Diagnostics/Diff/Partition and Diagnostics/Diff/Reports prove
--   Monitoring    backend/src/monitoring/monitoring.scheduler.ts and monitoring.service.ts: next_run_at,
--                 is_due (dueWhere), run_once, shown_as_due (status), and enqueue_all (enqueueAll of
--                 backend/src/scans/scans.service.ts); Monitoring/Guarantees proves
--   Targets       backend/src/common/utils/network.util.ts: is_private_or_reserved_ip;
--                 Targets/Reserved proves
--   Targets/Resolver
--                 backend/src/scans/target-resolver.ts: resolve_scan_target; Targets/Resolver/Safety
--                 and Targets/Resolver/CacheSize prove
-- Each component has a module Tests with concrete runs.
--
-- How the state corresponds. A table is a list of records, newest row first, with the next
-- identifier: the UUIDs of the database are numbers that grow. A row keeps the columns that the
-- modelled code reads or writes. An update of the database is a function on the list, and what a
-- transaction does is one step. Times are natural numbers of milliseconds, and one call sees one
-- time. A fallible handler returns a result type of its module with a constructor for each
-- refusal. Quantities with two decimals are natural numbers of hundredths; the weights of the
-- score are multiples of 1/4, which the floating-point numbers of the source represent exactly.
-- The statistics of a history of scores are tenths and hundredths, as the source rounds them.
--
-- Parameters. What is not code of the repository is an argument: SHA-256, HMAC-SHA1, bcrypt, random bytes, the signature of
-- tokens, trim, slice, Math.sqrt, the text of a number, the functions on texts, the recognition of addresses, the name service, the answer of a
-- probe and the outcome of a scanner. The catalogue of rules is an argument of syncForScan.
--
-- Loops are structural recursion on lists, so no fuel is used.
--
-- Not modelled. Audit records, mails and web hooks, the texts of alerts, the network itself, the
-- parsers of scanner output, reports and exports, the web application, cloud accounts, account
-- tokens, API keys and retention. A claim of a scan is one step: that two workers
-- count the running scans of an organization at the same time is left out, and so is that two
-- requests for different assets count the last hour at the same time. The deletion of old scans is
-- left out of the transition system. The calls of a diagnostic are one step each, though the code
-- reads and writes without a transaction.
pub mod Common
pub mod Domain
pub mod Scoring
pub mod Risk
pub mod Alerts
pub mod Login
pub mod Findings
pub mod Totp
pub mod Mfa
pub mod Diagnostics
pub mod Monitoring
pub mod Targets
pub mod Scans
