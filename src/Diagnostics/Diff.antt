-- ===== src/Diagnostics/Diff.antt =====
-- The comparison of two diagnostics of an asset
-- (backend/src/scans/diagnostic-orchestrator.service.ts, `getPostureDiff`). The two texts of the
-- conclusion, which are the same, are their kind with the numbers put into them.
pub mod Partition
pub mod Reports
use sistema_de_gestion_de_po.Common.{
  ℕ, suc, ◌+◌, ◌-◌, Bool, true, false, not, ◌&&◌, ◌||◌, Option, none, some, String, List, [], ◌∷◌,
  map, keep, any, find, length, count_if, ◌==◌, leb, ltb, if◌then◌else◌, is_some, or_else, opt_map,
  str_eq, ℤ, pos, negsuc, pos_part, neg_part, sub_ℕ, ltb_ℤ,
}
use sistema_de_gestion_de_po.Domain.{AssetType, Severity, Status}
use sistema_de_gestion_de_po.Diagnostics.{BatchStatus, same_batch_status}
use sistema_de_gestion_de_po.Diagnostics.Summary.{Data, Summary, Surface, Score, PostureFinding}
use sistema_de_gestion_de_po.Diagnostics.Pipeline.{
  Batch, State, Failure, Answer, failed, crashed, done,
}
use sistema_de_gestion_de_po.Diagnostics.Pipeline
use sistema_de_gestion_de_po.Diagnostics.Progress.{View, get_batch}

pub data GradeChange : Type 0 where
  improved degraded unchanged : GradeChange

pub data Assessment : Type 0 where
  baseline : (score : ℕ) (grade : String) (findings : ℕ) → Assessment
  better : (delta : ℤ) (score : ℕ) (grade : String) (remediated new_ones : ℕ) → Assessment
  worse : (delta : ℤ) (score : ℕ) (grade : String) (new_ones : ℕ) → Assessment
  stable : (score : ℕ) (grade : String) (persistent : ℕ) → Assessment

pub record FindingDiff : Type 0 where
  pub new_findings : List PostureFinding
  pub remediated_findings : List PostureFinding
  pub persistent_findings : List PostureFinding

pub record SurfaceDiff : Type 0 where
  pub new_ports : List ℕ
  pub closed_ports : List ℕ
  pub waf_changed : Bool
  pub waf_before : String
  pub waf_after : String
  pub subdomains_delta : ℤ
  pub new_subdomains_count : ℕ
  pub tls_protocols : List String
  pub open_api_endpoints_count : ℕ
  pub unauthenticated_api_ops_count : ℕ
  pub unauthenticated_api_ops_delta : ℤ
  pub debug_stack_trace_exposed : Bool

pub record Diff : Type 0 where
  pub previous : Option ℕ
  pub current : ℕ
  pub delta : ℤ
  pub grade_change : GradeChange
  pub from_grade : Option String
  pub to_grade : String
  pub findings : FindingDiff
  pub surface : SurfaceDiff
  pub assessment : Assessment

pub record Report : Type 0 where
  pub asset : ℕ
  pub from_batch : Option ℕ
  pub to_batch : ℕ
  pub baseline_date : Option ℕ
  pub comparison_date : ℕ
  pub diff : Diff

abbrev pub empty_surface : Surface
empty_surface = record {
  open_ports = [];
  subdomains_count = 0;
  technologies = [];
  waf = "Ninguno detectado";
  external_scripts_count = 0;
  tls_protocols = none;
  open_api_endpoints_count = none;
  unauthenticated_api_ops_count = none;
  debug_stack_trace_exposed = none;
}

abbrev pub has_fingerprint : String → List PostureFinding → Bool
has_fingerprint p fs = any (λ (g : PostureFinding). str_eq g.fingerprint p) fs

unfoldable pub compare_findings : List PostureFinding → List PostureFinding → FindingDiff
compare_findings from to = record {
  new_findings = keep (λ (f : PostureFinding). not (has_fingerprint f.fingerprint from)) to;
  persistent_findings = keep (λ (f : PostureFinding). has_fingerprint f.fingerprint from) to;
  remediated_findings =
      map (λ (f : PostureFinding). record f { status = Status.resolved })
        (keep (λ (f : PostureFinding). not (has_fingerprint f.fingerprint to)) from);
}

abbrev pub has_port : ℕ → List ℕ → Bool
has_port p ps = any (λ q. q == p) ps

unfoldable pub compare_surface : Surface → Surface → SurfaceDiff
compare_surface from to = record {
  new_ports = keep (λ p. not (has_port p from.open_ports)) to.open_ports;
  closed_ports = keep (λ p. not (has_port p to.open_ports)) from.open_ports;
  waf_changed = not (str_eq from.waf "") && not (str_eq from.waf to.waf);
  waf_before = from.waf;
  waf_after = to.waf;
  subdomains_delta = sub_ℕ to.subdomains_count from.subdomains_count;
  new_subdomains_count = pos_part (sub_ℕ to.subdomains_count from.subdomains_count);
  tls_protocols = or_else to.tls_protocols [];
  open_api_endpoints_count = or_else to.open_api_endpoints_count 0;
  unauthenticated_api_ops_count = or_else to.unauthenticated_api_ops_count 0;
  unauthenticated_api_ops_delta =
      sub_ℕ (or_else to.unauthenticated_api_ops_count 0)
        (or_else from.unauthenticated_api_ops_count 0);
  debug_stack_trace_exposed = or_else to.debug_stack_trace_exposed false;
}

abbrev pub delta_of : Option ℕ → ℕ → ℤ
delta_of none current = pos 0
delta_of (some previous) current = sub_ℕ current previous

abbrev pub grade_change_of : ℤ → GradeChange
grade_change_of d =
    if ltb_ℤ (pos 0) d then improved else if ltb_ℤ d (pos 0) then degraded else unchanged

-- The first argument says whether there is a batch to compare with.
abbrev pub assess : Bool → ℤ → Score → FindingDiff → ℕ → Assessment
assess false d s f total = baseline s.score s.grade total
assess true d s f total =
    if ltb_ℤ (pos 0) d
    then better d s.score s.grade (length f.remediated_findings) (length f.new_findings)
    else if ltb_ℤ d (pos 0)
    then worse d s.score s.grade (length f.new_findings)
    else stable s.score s.grade (length f.persistent_findings)

-- What is read of a summary when it is there, and of none.
abbrev pub score_of : Option Summary → Score
score_of none = record { score = 100; grade = "A" }
score_of (some s) = s.score

abbrev pub snapshots_of : Option Summary → List PostureFinding
snapshots_of none = []
snapshots_of (some s) = s.finding_snapshots

abbrev pub surface_in : Option Summary → Surface
surface_in none = empty_surface
surface_in (some s) = s.surface

-- `from` is the summary of the batch to compare with.
unfoldable pub compare : Option Summary → Option Summary → Diff
unfolding compare_findings compare_surface
compare from to =
    let previous = opt_map (λ (s : Summary). s.score.score) from in
    let current = score_of to in
    let delta = delta_of previous current.score in
    let findings = compare_findings (snapshots_of from) (snapshots_of to) in
    record {
      previous = previous;
      current = current.score;
      delta = delta;
      grade_change = grade_change_of delta;
      from_grade = opt_map (λ (s : Summary). s.score.grade) from;
      to_grade = current.grade;
      findings = findings;
      surface = compare_surface (surface_in from) (surface_in to);
      assessment = assess (is_some from) delta current findings (length (snapshots_of to));
    }

-- A batch to compare with that has no summary has no surface either, and its ports are read:
-- `none` is that error.
unfoldable pub posture_diff : Option Batch → Batch → Option Diff
unfolding compare
posture_diff none to = some (compare none to.summary)
posture_diff (some from) to = elim from.summary [
  | none ↦ none
  | some s ↦ some (compare (some s) to.summary)
]

-- `finishedAt` in falling order: a row without one comes first.
abbrev pub finished_later : Batch → Option Batch → Option Batch
finished_later b none = some b
finished_later b (some c) = elim b.finished_at [
  | none ↦ some b
  | some t ↦ elim c.finished_at [ none ↦ some c | some u ↦ if ltb t u then some c else some b ]
]

unfoldable pub latest_finished : (Batch → Bool) → List Batch → Option Batch
latest_finished p [] = none
latest_finished p (b ∷ bs) =
    let rest = latest_finished p bs in if p b then finished_later b rest else rest

abbrev pub is_completed_of : ℕ → ℕ → Batch → Bool
is_completed_of organization asset b =
    b.asset == asset
    && b.organization == organization
    && same_batch_status b.status BatchStatus.completed

abbrev pub finished_before : ℕ → Batch → Bool
finished_before limit b = elim b.finished_at [ none ↦ false | some t ↦ ltb t limit ]

abbrev pub reference_date : Batch → ℕ
reference_date b = or_else b.finished_at b.created_at

unfoldable pub report : ℕ → Option Batch → Batch → Answer Report
unfolding posture_diff
report asset from to = elim (posture_diff from to) [
  | none ↦ crashed
  | some diff ↦ done (record {
    asset = asset;
    from_batch = opt_map (λ (b : Batch). b.id) from;
    to_batch = to.id;
    baseline_date = elim from [ none ↦ none | some b ↦ b.finished_at ];
    comparison_date = reference_date to;
    diff = diff;
  })
]

module _ (env : Pipeline.Env) (d : Data) (type_of : ℕ → AssetType)
    (organization asset now : ℕ) where
  -- The batch to compare: the one asked for, or the latest completed of the asset.
  unfoldable pub choose_to : State → Option ℕ → Answer Batch × State
  choose_to s (some id) =
      let (answer, s') = get_batch env d type_of s organization id now in
      (elim answer [ failed e ↦ failed e | crashed ↦ crashed | done v ↦ done v.batch ], s')
  choose_to s none = elim (latest_finished (is_completed_of organization asset) s.batches) [
    | none ↦ (failed Failure.nothing_to_compare, s)
    | some b ↦
        let (answer, s') = get_batch env d type_of s organization b.id now in
        (elim answer [ failed e ↦ failed e | crashed ↦ crashed | done v ↦ done v.batch ], s')
  ]

  -- The batch to compare it with: the one asked for, or the latest that was completed before.
  unfoldable pub choose_from : State → Option ℕ → Batch → Answer (Option Batch) × State
  choose_from s (some id) to =
      let (answer, s') = get_batch env d type_of s organization id now in
      (elim answer [ failed e ↦ failed e | crashed ↦ crashed | done v ↦ done (some v.batch) ], s')
  choose_from s none to =
      elim (latest_finished
        (λ b. is_completed_of organization asset b && finished_before (reference_date to) b)
        s.batches) [
          | none ↦ (done none, s)
          | some b ↦
              let (answer, s') = get_batch env d type_of s organization b.id now in
              (
                elim answer [
                  | failed e ↦ failed e
                  | crashed ↦ crashed
                  | done v ↦ done (some v.batch)
                ],
                s',
              )
        ]

  unfoldable pub get_posture_diff : State → Option ℕ → Option ℕ → Answer Report × State
  unfolding choose_to choose_from report
  get_posture_diff s from_batch to_batch =
      let (chosen, s') = choose_to s to_batch in
      elim chosen [
        | failed e ↦ (failed e, s')
        | crashed ↦ (crashed, s')
        | done to ↦
            let (other, s'') = choose_from s' from_batch to in
            (
              elim other [
                | failed e ↦ failed e
                | crashed ↦ crashed
                | done from ↦ report asset from to
              ],
              s'',
            )
      ]
