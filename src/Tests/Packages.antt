-- ===== src/Tests/Packages.antt =====
-- A package for a prohibited batch whose plan is not ready, and one that is ready.
use pfas_load_control.Base.{
  true, false, none, some, List, [], ◌∷◌, map, find, All, Ordered, Text, codes, text_eq, ◌≡◌, refl,
  ◌↔◌,
}
use pfas_load_control.Placement.Model.{Status, ready, land_application_blocked}
use pfas_load_control.Policy.Model.{Requirement, tier_prohibited, tier_standard}
use pfas_load_control.ActionCenter.Model.{PackageGap, ProposedAction, control}
use pfas_load_control.ActionCenter.Payloads.{action_mode, is_internal_release}
use pfas_load_control.Packages.Model.{
  Decision, Draft, Report, PlacementRecord, ResponseTask, ResponseRun, Snapshot,
}
use pfas_load_control.Packages.Gaps.{
  gap_key, first_by, deduplicate_gaps, lab_snapshot, build_snapshot,
}
use pfas_load_control.Packages.Gaps.Distinct.{KeysDiffer, has_key, deduplicate_gaps_lem}
use pfas_load_control.Packages.Gaps.Empty.{AllResolved, PlanIsClear, ResponseIsClear}
use pfas_load_control.Packages.Actions.{
  has_code, candidates, build_proposed_actions, package_status,
}
use pfas_load_control.Packages.Actions.Built.{
  IsBuilt, code_of, unplaced, build_proposed_actions-IsBuilt, build_proposed_actions-first_by,
}
use pfas_load_control.Packages.Actions.Modes.{build_proposed_actions-unreleased}
use pfas_load_control.Packages.Actions.Blocks.{block_code, build_proposed_actions-blocked}
use pfas_load_control.Packages.Actions.Review.{package_status-build_snapshot}

abbrev gap_with : Text → PackageGap
gap_with detail = record {
  source = "LAB";
  code = "UNIT";
  detail = detail;
  resolution = "";
  critical = true;
}

abbrev physical_gap_row : PackageGap
physical_gap_row = record {
  source = "PHYSICAL_EVIDENCE";
  code = "UNIT";
  detail = [];
  resolution = "";
  critical = false;
}

abbrev three_gaps : List PackageGap
three_gaps = gap_with (codes "a") ∷ physical_gap_row ∷ gap_with (codes "b") ∷ []

deduplicate_test : deduplicate_gaps three_gaps ≡ gap_with (codes "a") ∷ physical_gap_row ∷ []
unfolding deduplicate_gaps text_eq
deduplicate_test = refl

deduplicate_gaps_lem_example :
    Ordered (KeysDiffer gap_key) (deduplicate_gaps three_gaps)
    × ((k : Text)
        → find (has_key gap_key k) (deduplicate_gaps three_gaps)
          ≡ find (has_key gap_key k) three_gaps)
deduplicate_gaps_lem_example = deduplicate_gaps_lem three_gaps

abbrev requirement : Text → Requirement
requirement id = record {
  id = id;
  title = [];
  detail = [];
  timing = [];
  rule_id = "R";
  source_url = "";
  source_title = "";
  authority_type = "";
}

abbrev prohibited_decision : Decision
prohibited_decision = record {
  id = codes "D";
  tier = tier_prohibited;
  requirements =
      requirement (codes "MI-PFAS-LAND-APPLICATION-PROHIBITED") ∷ requirement (codes "LOCAL") ∷ [];
}

abbrev task : Text → ResponseTask
task code = record {
  code = code;
  category = "CONTROL";
  title = [];
  detail = [];
  timing = [];
  state = "ENFORCED";
}

abbrev response : ResponseRun
response = record {
  id = codes "R";
  status = "READY";
  tasks = task block_code ∷ task (codes "NOTIFY_EGLE") ∷ [];
  data_gaps = [];
}

abbrev plan : Status → PlacementRecord
plan status = record {
  id = codes "P";
  plan = record {
    status = status;
    tier = "";
    config_version = "";
    config_checksum = "";
    wet_mass_kg = [];
    percent_solids = [];
    batch_dry_tons = [];
    allocated_dry_tons = codes "0.0";
    unallocated_dry_tons = [];
    fields = [];
    allocations = [];
    gaps = [];
  };
}

abbrev draft : Draft
draft = record {
  version = 1;
  laboratory = none;
  sample_identifier = none;
  collection_date = none;
  matrix = none;
  method = none;
  basis = none;
  analytes = [];
}

abbrev report : Report
report = record {
  id = codes "L";
  original_filename = [];
  media_type = [];
  sha256 = [];
  draft = some draft;
  gaps = (record { code = "UNIT"; detail = []; resolution = ""; status = "RESOLVED" }) ∷ [];
  confirmed_at = some 7;
}

abbrev snapshot : Decision → Status → Snapshot
snapshot d status = record {
  decision = d;
  lab = lab_snapshot report draft;
  placement = some (plan status);
  physical_evidence = [];
  response = some response;
  gaps = [];
}

abbrev blocked_snapshot : Snapshot
blocked_snapshot = snapshot prohibited_decision land_application_blocked

proposed_test :
    map code_of (build_proposed_actions blocked_snapshot)
    ≡ block_code ∷ codes "POLICY_LOCAL" ∷ codes "NOTIFY_EGLE" ∷ codes "RESOLVE_PLACEMENT_GAPS" ∷ []
unfolding build_proposed_actions candidates text_eq
proposed_test = refl

build_proposed_actions-IsBuilt_example : IsBuilt (build_proposed_actions blocked_snapshot)
build_proposed_actions-IsBuilt_example = build_proposed_actions-IsBuilt blocked_snapshot

build_proposed_actions-first_by_example :
    map unplaced (build_proposed_actions blocked_snapshot)
    ≡ map unplaced (first_by code_of [] (candidates blocked_snapshot))
build_proposed_actions-first_by_example = build_proposed_actions-first_by blocked_snapshot

build_proposed_actions-unreleased_example :
    All
      (λ a. is_internal_release (action_mode a).0 ≡ false)
      (build_proposed_actions blocked_snapshot)
unfolding text_eq
build_proposed_actions-unreleased_example =
    build_proposed_actions-unreleased blocked_snapshot refl (refl, (refl, tt))

build_proposed_actions-blocked_example :
    (a : ProposedAction) × (find (has_code block_code) (build_proposed_actions blocked_snapshot)
      ≡ some a)
    × (action_mode a ≡ (control, false))
build_proposed_actions-blocked_example = build_proposed_actions-blocked blocked_snapshot refl

abbrev standard_decision : Decision
standard_decision = record { id = codes "D"; tier = tier_standard; requirements = [] }

package_status-build_snapshot_example :
    (package_status (snapshot standard_decision ready) ≡ "READY") ↔ (
      AllResolved report.gaps
      × PlanIsClear [] (some (plan ready))
      × ResponseIsClear (some response))
unfolding build_snapshot
package_status-build_snapshot_example =
    package_status-build_snapshot standard_decision report (some (plan ready)) (some response) []
      (snapshot standard_decision ready) refl
