-- ===== src/Tests/Placements.antt =====
-- A batch and two fields that the placement engine plans for.
use pfas_load_control.Base.{
  ℕ, ◌+◌, ◌*◌, ◌≤◌, ◌≡◌, refl, true, false, none, [], ◌∷◌, codes, trim_space, text_eq, ok, err,
  Result, inr, arith,
}
use pfas_load_control.Rat.{Rat, new_rat, sign, cmp, mul, sub, add, quo}
use pfas_load_control.Numeral.{scan, float_string}
use pfas_load_control.Placement.Model.{
  Status, Disposition, FieldInput, Input, PlacementField, PlacementPlan,
}
use pfas_load_control.Placement.Decimal.{
  Outcome, dry_tons, format_rat, decimal, positive_decimal, nonnegative_decimal, min_rat,
  decimal_or_zero,
}
use pfas_load_control.Placement.Facts.{
  within, positive_fact, all_facts_complete, contains_any, exceeds_surface_slope_limit, fact_map,
  bool_fact,
}
use pfas_load_control.Placement.Field.{
  Verifier, Verified, usable_of, gated_field, is_eligible, evaluate_field, capacity_of,
  allowed_rate, capacity_left,
}
use pfas_load_control.Placement.Engine.{blank_plan, evaluate}
use pfas_load_control.Placement.Engine.Conservation.{IsAccounted, evaluate-IsAccounted}
use pfas_load_control.Placement.Engine.Batch.{IsTonnage, dry_tons_lem}
use pfas_load_control.Placement.Decimal.Printed.{decimal-format_rat}
use pfas_load_control.Placement.Field.Gates.{PassesGates, IsCosted, verified_of}
use pfas_load_control.Placement.Field.Capacity.{IsPositive, IsWorkedOut}
use pfas_load_control.Placement.Field.Eligible.{evaluate_field_eligible, gated_field_iff}
use pfas_load_control.Placement.Categories.{
  water_category, subsurface_category, surface_category, human_category, uncertainty_category,
}
use pfas_load_control.Placement.Rank.{ranks_before, insert_ranked, rank_fields, add_counterfactuals}
use pfas_load_control.Placement.Allocate.{allocate}
use pfas_load_control.Rat.Micro.{IsMicro}
use pfas_load_control.Tests.Standard.{read, library}

abbrev verify : Verifier
verify f t = inr (record { code = "NO_RESOLUTION"; detail = [] })

abbrev north : FieldInput
north = record {
  id = "north";
  name = "North";
  status = "READY";
  rmp_approved = true;
  usable_acres = codes "10";
  agronomic_rate = codes "2";
  prior_loading_dry_tons = codes "1";
  crop_or_use = codes "corn";
  physical_evaluation_id = "physical";
  physical_status = "SUCCEEDED";
  physical_critical_gaps = 0;
  physical_other_gaps = 0;
  supplemental_available = true;
  boundary_version = 1;
  slope_resolution = none;
  facts = [];
}

abbrev nothing : PlacementField
nothing = record {
  field_id = "";
  field_name = "";
  disposition = Disposition.ineligible;
  rank = none;
  explanation = [];
  counterfactual = "";
  high_concern_count = 0;
  moderate_concern_count = 0;
  data_gap_count = 0;
  allowed_rate = [];
  available_capacity = [];
  road_access_distance_m = none;
  physical_evaluation_id = "";
  slope_resolution = none;
  reasons = [];
  categories = [];
}

abbrev south : FieldInput
south = record north {
  id = "south";
  name = "South";
  agronomic_rate = codes "1";
  prior_loading_dry_tons = codes "0";
}

abbrev batch : Input
batch = record {
  tier = "ELEVATED";
  policy_rate = codes "1.5";
  wet_mass_kg = codes "100000";
  percent_solids = codes "20";
  fields = north ∷ south ∷ [];
  decision_input_hash = "";
  evidence_as_of = 1;
}

abbrev field_of : Outcome PlacementField → PlacementField
field_of (ok r) = r
field_of (err e) = nothing
field_of Result.panic = nothing

abbrev north_field : PlacementField
north_field = field_of (evaluate_field library verify 1 "ELEVATED" (codes "1.5") north 1)

north_run : evaluate_field library verify 1 "ELEVATED" (codes "1.5") north 1 ≡ ok north_field
unfolding evaluate_field capacity_of exceeds_surface_slope_limit fact_map bool_fact positive_decimal
    decimal read scan trim_space sign nonnegative_decimal allowed_rate
north_run = refl

north_eligible : is_eligible north_field.disposition ≡ true
unfolding evaluate_field capacity_of exceeds_surface_slope_limit fact_map bool_fact positive_decimal
    decimal read scan trim_space sign nonnegative_decimal allowed_rate capacity_left min_rat mul sub
    cmp add quo
north_eligible = refl

abbrev plan_of : Outcome PlacementPlan → PlacementPlan
plan_of (ok p) = p
plan_of (err e) = blank_plan library batch Status.ready
plan_of Result.panic = blank_plan library batch Status.ready

abbrev plan : PlacementPlan
plan = plan_of (evaluate library verify 1 batch)

batch_run : evaluate library verify 1 batch ≡ ok plan
unfolding evaluate evaluate_field capacity_of exceeds_surface_slope_limit fact_map bool_fact
    positive_decimal decimal read scan trim_space sign nonnegative_decimal allowed_rate
    capacity_left min_rat mul sub cmp add quo dry_tons format_rat float_string text_eq allocate
    add_counterfactuals rank_fields insert_ranked ranks_before water_category within positive_fact
    all_facts_complete subsurface_category surface_category human_category contains_any
    uncertainty_category decimal_or_zero
batch_run = refl

batch_ready : plan.status ≡ Status.ready
unfolding evaluate evaluate_field capacity_of exceeds_surface_slope_limit fact_map bool_fact
    positive_decimal decimal read scan trim_space sign nonnegative_decimal allowed_rate
    capacity_left min_rat mul sub cmp add quo dry_tons format_rat float_string text_eq allocate
    add_counterfactuals rank_fields insert_ranked ranks_before water_category within positive_fact
    all_facts_complete subsurface_category surface_category human_category contains_any
    uncertainty_category decimal_or_zero
batch_ready = refl

evaluate-IsAccounted_example : IsAccounted library verify 1 batch plan
evaluate-IsAccounted_example = evaluate-IsAccounted library verify 1 batch refl refl batch_run

evaluate_field_eligible_example :
    (c : IsCosted library verify 1 "ELEVATED" (codes "1.5") north 1 north_field) × IsWorkedOut
      library "ELEVATED"
      (codes "1.5")
      north
      (usable_of north (verified_of library verify 1 "ELEVATED" (codes "1.5") north 1))
      c.allowed
      c.capacity
    × IsPositive c.capacity
evaluate_field_eligible_example =
    evaluate_field_eligible library verify 1 "ELEVATED" (codes "1.5") north 1 north_run
      north_eligible

gated_field_iff_example :
    (is_eligible (gated_field library north (fact_map []) false Verified.not_needed).disposition
        ≡ true
      → PassesGates library north (fact_map []) false Verified.not_needed)
    × (PassesGates library north (fact_map []) false Verified.not_needed
        → is_eligible
            (gated_field library north (fact_map []) false Verified.not_needed).disposition
          ≡ true)
gated_field_iff_example = gated_field_iff library north (fact_map []) false Verified.not_needed

tonnage : dry_tons read (codes "100000") (codes "20") ≡ ok (new_rat 100000000000 4535923700)
unfolding dry_tons positive_decimal decimal read scan trim_space sign mul cmp quo
tonnage = refl

decimal-format_rat_example :
    (y : Rat) × (n : ℕ) × (decimal library.set_string (format_rat (new_rat 2 3)) ≡ ok y)
    × IsMicro y n
    × (2 * (n * 3) ≤ 2 * (2 * 1000000) + 3)
    × (2 * (2 * 1000000) ≤ 2 * (n * 3) + 3)
decimal-format_rat_example = decimal-format_rat library (new_rat 2 3) (refl, omega arith)

dry_tons_lem_example :
    IsTonnage library (codes "100000") (codes "20") (new_rat 100000000000 4535923700)
dry_tons_lem_example = dry_tons_lem library (codes "100000") (codes "20") tonnage
