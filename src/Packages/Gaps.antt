-- ===== src/Packages/Gaps.antt =====
-- internal/decisionpackage/build.go, `buildSnapshot` and `deduplicateGaps`.
pub mod Distinct
pub mod Empty
use pfas_load_control.Base.{
  ℕ, Bool, true, false, ◌||◌, Option, none, some, List, [], ◌∷◌, ◌++◌, map, any, find, String,
  str_eq, Text, codes, text_eq, text_lt, if◌then◌else◌, ltb, ◌==◌, Result, panic, ok, err, ◌>>=◌,
}
use pfas_load_control.Placement.Model.{PlacementPlan, PlacementGap, PlacementField}
use pfas_load_control.ActionCenter.Model.{PackageGap}
use pfas_load_control.Packages.Model.{
  Decision, LabGap, Analyte, Draft, Report, PlacementRecord, PhysicalDataGap, PhysicalEvaluation,
  ResponseDataGap, ResponseRun, LabAnalyte, LabSnapshot, Snapshot,
}

-- `gap.Source + ":" + gap.Code`
abbrev pub gap_key : PackageGap → Text
gap_key gap = codes gap.source ++ b':' ∷ codes gap.code

-- The rows of which no earlier one has the key, behind those with the keys `seen`.
unfoldable pub first_by : {A : Type 0} → (A → Text) → List Text → List A → List A
first_by key seen [] = []
first_by key seen (x ∷ xs) =
    let skipped = first_by key seen xs in
    let kept = x ∷ first_by key (key x ∷ seen) xs in
    if any (text_eq (key x)) seen then skipped else kept

unfoldable pub deduplicate_gaps : List PackageGap → List PackageGap
unfolding first_by
deduplicate_gaps = first_by gap_key []

abbrev pub upper_bound_of : Analyte → Option Text
upper_bound_of a =
    if a.is_non_detect
    then elim a.normalized_reporting_limit [ some t ↦ some t | none ↦ a.normalized_detection_limit ]
    else none

abbrev pub lab_analyte : Analyte → LabAnalyte
lab_analyte a = record {
  name = a.canonical_analyte;
  result_text = a.result_text;
  value_ug_kg_dry = a.normalized_value;
  upper_bound = upper_bound_of a;
  is_non_detect = a.is_non_detect;
  source_page = a.source_page;
  source_excerpt = a.source_excerpt;
}

-- The gaps of the report that are not resolved.
unfoldable pub lab_gaps : List LabGap → List PackageGap
lab_gaps [] = []
lab_gaps (gap ∷ gaps) =
    let rest = lab_gaps gaps in
    if str_eq gap.status "RESOLVED"
    then rest
    else (record {
      source = "LAB";
      code = gap.code;
      detail = gap.detail;
      resolution = gap.resolution;
      critical = true;
    })
      ∷ rest

unfoldable pub lab_snapshot : Report → Draft → LabSnapshot
unfolding lab_gaps
lab_snapshot report draft = record {
  report_id = report.id;
  report_version = draft.version;
  original_filename = report.original_filename;
  media_type = report.media_type;
  sha256 = report.sha256;
  laboratory = draft.laboratory;
  sample_identifier = draft.sample_identifier;
  collection_date = draft.collection_date;
  matrix = draft.matrix;
  method = draft.method;
  basis = draft.basis;
  analytes = map lab_analyte draft.analytes;
  gaps = lab_gaps report.gaps;
  confirmed_at = report.confirmed_at;
}

abbrev pub placement_gap : PlacementGap → PackageGap
placement_gap gap = record {
  source = "PLACEMENT";
  code = gap.code;
  detail = gap.detail;
  resolution = gap.resolution;
  critical = true;
}

abbrev pub physical_gap : PhysicalDataGap → PackageGap
physical_gap gap = record {
  source = "PHYSICAL_EVIDENCE";
  code = gap.code;
  detail = gap.detail;
  resolution = "Review the source record and resolve the missing condition.";
  critical = gap.critical;
}

abbrev pub response_gap : ResponseDataGap → PackageGap
response_gap gap = record {
  source = "PFAS_RESPONSE";
  code = gap.code;
  detail = gap.detail;
  resolution = gap.resolution;
  critical = gap.critical;
}

-- `physical[id].Gaps`; a missing evaluation is Go's zero value, with no gaps.
unfoldable pub gaps_at : String → List PhysicalEvaluation → List PackageGap
gaps_at id [] = []
gaps_at id (e ∷ es) =
    let rest = gaps_at id es in if str_eq e.id id then map physical_gap e.gaps else rest

unfoldable pub field_gaps : List PhysicalEvaluation → List PlacementField → List PackageGap
unfolding gaps_at
field_gaps physical [] = []
field_gaps physical (f ∷ fs) =
    let rest = field_gaps physical fs in
    if str_eq f.physical_evaluation_id ""
    then rest
    else gaps_at f.physical_evaluation_id physical ++ rest

unfoldable pub plan_gaps : List PhysicalEvaluation → Option PlacementRecord → List PackageGap
unfolding field_gaps
plan_gaps physical none = []
plan_gaps physical (some p) = map placement_gap p.plan.gaps ++ field_gaps physical p.plan.fields

abbrev pub response_gaps : Option ResponseRun → List PackageGap
response_gaps none = []
response_gaps (some run) = map response_gap run.data_gaps

-- `sort.Strings` on the identifiers, which are the keys of a map, with the evaluation of each.
unfoldable pub insert_by_id : PhysicalEvaluation → List PhysicalEvaluation → List PhysicalEvaluation
insert_by_id x [] = x ∷ []
insert_by_id x (y ∷ ys) =
    let rest = insert_by_id x ys in
    if text_lt (codes y.id) (codes x.id) then y ∷ rest else x ∷ y ∷ ys

unfoldable pub sort_by_id : List PhysicalEvaluation → List PhysicalEvaluation
unfolding insert_by_id
sort_by_id [] = []
sort_by_id (x ∷ xs) = insert_by_id x (sort_by_id xs)

-- The gaps of the four sources, in this order.
abbrev pub all_gaps :
    Report → Option PlacementRecord → Option ResponseRun → List PhysicalEvaluation → List PackageGap
all_gaps report plan response physical =
    lab_gaps report.gaps ++ (plan_gaps physical plan ++ response_gaps response)

-- `physical` is the map from identifiers to evaluations. A report with no draft is dereferenced.
unfoldable pub build_snapshot :
    Decision
    → Report
    → Option PlacementRecord
    → Option ResponseRun
    → List PhysicalEvaluation
    → Result String Snapshot
unfolding lab_snapshot plan_gaps sort_by_id deduplicate_gaps
build_snapshot decision report plan response physical = elim report.draft [
  | none ↦ panic
  | some draft ↦ ok (record {
    decision = decision;
    lab = lab_snapshot report draft;
    placement = plan;
    physical_evidence = sort_by_id physical;
    response = response;
    gaps = deduplicate_gaps (all_gaps report plan response physical);
  })
]
