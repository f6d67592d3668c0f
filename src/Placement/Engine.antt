-- ===== src/Placement/Engine.antt =====
-- internal/placement/engine.go, `EvaluateWithEvidenceAndPolicy`: the plan of a batch. The evidence
-- store and the resolution policy act only through the parameter `verify`.
pub mod Batch
pub mod Priced
pub mod Conservation
use pfas_load_control.Base.{
  ℕ, ◌+◌, Bool, true, false, not, ◌&&◌, ◌||◌, Option, none, some, [], ◌∷◌, ◌++◌, List, String, Text,
  message, codes, is_empty, str_eq, if◌then◌else◌, is_gt, is_eq, any, ◌>>=◌, ok, err, panic,
  map_err,
}
use pfas_load_control.Rat.{Rat, sign, zero_rat}
use pfas_load_control.Placement.Decimal.{
  PlacementError, field_error, Outcome, decimal, dry_tons, format_rat,
}
use pfas_load_control.Placement.Model.{
  Status, ready, insufficient_capacity, land_application_blocked, Disposition, FieldInput, Input,
  PlacementField, PlacementGap, PlacementPlan,
}
use pfas_load_control.Placement.Model.Resolution.{Time}
use pfas_load_control.Placement.Facts.{Library}
use pfas_load_control.Placement.Categories.{config_version}
use pfas_load_control.Placement.Field.{Verifier, evaluate_field}
use pfas_load_control.Placement.Rank.{rank_fields, add_counterfactuals}
use pfas_load_control.Placement.Allocate.{Ledger, allocate}

abbrev is_review : Disposition → Bool
is_review Disposition.review_required = true
is_review _ = false

-- `hasDisposition(fields, DispositionReviewRequired)`
abbrev pub has_review : List PlacementField → Bool
has_review = any (λ f. is_review f.disposition)

abbrev pub has_quantity : Input → Bool
has_quantity input = not (is_empty input.wet_mass_kg) && not (is_empty input.percent_solids)

abbrev pub prohibited_gap : PlacementGap
prohibited_gap = record {
  code = "LAND_APPLICATION_PROHIBITED";
  detail = message "Michigan's active PFAS rule blocks land application for this batch.";
  resolution = "Use the alternative-management path.";
}

abbrev pub quantity_gap : PlacementGap
quantity_gap = record {
  code = "BATCH_QUANTITY_MISSING";
  detail = message "Wet mass and total solids are needed to calculate the batch's dry tonnage.";
  resolution = "Enter the measured wet mass and total-solids percentage.";
}

review_gap : Ledger → PlacementGap
review_gap l = record {
  code = "FIELD_REVIEW_REQUIRED";
  detail =
      if is_eq (sign l.allocated)
      then message "No field is currently eligible to receive this batch."
      else format_rat l.remaining
        ++ message
            " dry tons remain because one or more fields cannot be used until their review is complete.";
  resolution =
      "Resolve the listed field evidence, or add another approved field, then compare again.";
}

capacity_gap : Ledger → PlacementGap
capacity_gap l = record {
  code = "INSUFFICIENT_ELIGIBLE_CAPACITY";
  detail =
      format_rat l.remaining
      ++ message " dry tons remain after all eligible field capacity is used.";
  resolution = "Add another approved field, or reduce the batch assigned to this plan.";
}

-- The plan from what the loop over the fields left.
unfoldable pub settle : PlacementPlan → List PlacementField → Ledger → PlacementPlan
unfolding review_gap capacity_gap
settle plan fields l =
    let filled = record plan {
      fields = fields;
      allocations = l.allocations;
      allocated_dry_tons = format_rat l.allocated;
      unallocated_dry_tons = format_rat l.remaining;
    } in
    if is_gt (sign l.remaining)
    then (if has_review fields
        then record filled {
          status = Status.review_required;
          gaps = plan.gaps ++ review_gap l ∷ [];
        }
        else record filled {
          status = insufficient_capacity;
          gaps = plan.gaps ++ capacity_gap l ∷ [];
        })
    else record filled { status = ready }

module _ (lib : Library) where
  -- The checksum that `ConfigChecksum` holds.
  abbrev pub config_checksum : String
  config_checksum =
      lib.sha256_hex
        "mi-fieldproof-placement-2026.08.5|water-direct-overlap-review|wetland-100m|groundwater-0.762m-3m|surface-slope-6pct-review-unless-parent-bound-and-sampled-screen-resolution-v3|epa-2026-crop-guidance|uncertainty-v1|rank-all-fields-distinct|review-before-capacity|DEMO-MI-LAND-APPLICATION-2026.08.1|POLYGON_STRATIFIED_SCREEN_V1"

  -- The plan before anything is decided.
  unfoldable pub blank_plan : Input → Status → PlacementPlan
  blank_plan input status = record {
    status = status;
    tier = input.tier;
    config_version = config_version;
    config_checksum = config_checksum;
    wet_mass_kg = input.wet_mass_kg;
    percent_solids = input.percent_solids;
    batch_dry_tons = [];
    allocated_dry_tons = [];
    unallocated_dry_tons = [];
    fields = [];
    allocations = [];
    gaps = [];
  }

  unfoldable pub prohibited_plan : Input → Outcome PlacementPlan
  unfolding blank_plan
  prohibited_plan input =
      let plan = record (blank_plan input land_application_blocked) {
        gaps = prohibited_gap ∷ [];
      } in
      if has_quantity input
      then (dry_tons lib.set_string input.wet_mass_kg input.percent_solids >>= λ tons.
          ok (record plan {
            batch_dry_tons = format_rat tons;
            allocated_dry_tons = codes "0";
            unallocated_dry_tons = format_rat tons;
          }))
      else ok plan

module _ (lib : Library) (verify : Verifier) (now : Time) where
  -- The fields in the order of the input; an error names the field.
  unfoldable pub evaluate_fields : Input → List FieldInput → Outcome (List PlacementField)
  evaluate_fields input [] = ok []
  evaluate_fields input (f ∷ fs) = do
    r ←
        map_err (field_error f.name)
          (evaluate_field lib verify now input.tier input.policy_rate f input.evidence_as_of)
    rs ← evaluate_fields input fs
    ok (r ∷ rs)

  unfoldable pub ranked_fields : Input → Outcome (List PlacementField)
  unfolding evaluate_fields
  ranked_fields input = do
    rs ← evaluate_fields input input.fields
    ok (add_counterfactuals (rank_fields lib.set_string rs))

  -- A batch whose quantity is known: the printed tonnage is read back and allocated.
  unfoldable pub quantified_plan : Input → Outcome PlacementPlan
  unfolding blank_plan ranked_fields settle
  quantified_plan input = do
    tons ← dry_tons lib.set_string input.wet_mass_kg input.percent_solids
    batch ← decimal lib.set_string (format_rat tons)
    fields ← ranked_fields input
    l ←
        allocate lib.set_string fields
          (record { remaining = batch; allocated = zero_rat; allocations = [] })
    ok (settle (record (blank_plan lib input ready) { batch_dry_tons = format_rat tons }) fields l)

  unfoldable pub evaluate : Input → Outcome PlacementPlan
  unfolding prohibited_plan quantified_plan
  evaluate input =
      if str_eq input.tier "PROHIBITED"
      then prohibited_plan lib input
      else if has_quantity input
      then quantified_plan input
      else (ranked_fields input >>= λ fields.
          ok (record (blank_plan lib input Status.review_required) {
            fields = fields;
            gaps = quantity_gap ∷ [];
          }))
