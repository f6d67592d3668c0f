-- ===== src/Placement/Field.antt =====
-- internal/placement/engine.go, `evaluateField`: the verdict on one field. The verification of a
-- slope resolution (resolution.go) is the parameter `verify`, of the field and the time; `now` is
-- the clock that is read when no time is given.
pub mod Gates
pub mod Capacity
pub mod Eligible
use pfas_load_control.Base.{
  ℕ, ◌+◌, suc, Bool, true, false, not, ◌&&◌, ◌||◌, Option, none, some, [], ◌∷◌, ◌++◌, List, String,
  Text, message, is_empty, ltb, ◌==◌, str_eq, if◌then◌else◌, is_lt, is_eq, Result, ok, err, panic,
  ◌>>=◌, ◌⊎◌, inl, inr,
}
use pfas_load_control.Rat.{Rat, sign, mul, sub, zero_rat}
use pfas_load_control.Numeral.{show}
use pfas_load_control.Placement.Decimal.{
  PlacementError, invalid_number, rate_ceiling_unavailable, Outcome, format_rat, min_rat,
  positive_decimal, nonnegative_decimal,
}
use pfas_load_control.Placement.Model.{
  Disposition, Band, FieldInput, PlacementField, VulnerabilityCategory,
}
use pfas_load_control.Placement.Model.Resolution.{Time, ResolutionVerification, ResolutionError}
use pfas_load_control.Placement.Facts.{
  Library, Facts, fact_map, at, bool_fact, numeric_fact, exceeds_surface_slope_limit,
}
use pfas_load_control.Placement.Categories.{
  water_category, subsurface_category, surface_category, human_category, uncertainty_category,
}

-- How many of the categories stand in a band.
unfoldable pub count_band : (Band → Bool) → List VulnerabilityCategory → ℕ
count_band p [] = 0
count_band p (c ∷ cs) = let n = count_band p cs in if p c.band then suc n else n

abbrev is_high : Band → Bool
is_high Band.high = true
is_high _ = false

abbrev is_moderate : Band → Bool
is_moderate Band.moderate = true
is_moderate _ = false

abbrev is_unknown : Band → Bool
is_unknown Band.unknown = true
is_unknown _ = false

abbrev pub is_eligible : Disposition → Bool
is_eligible Disposition.eligible = true
is_eligible _ = false

abbrev pub not_ready_reason : Text
not_ready_reason = message "The field is not confirmed as ready under its approved RMP record."

abbrev pub incomplete_reason : Text
incomplete_reason =
    message "Usable acres, the controlling agronomic rate, and prior loading are all required."

-- What the verification of a slope resolution left: nothing when it was not called for.
pub data Verified : Type 0 where
  not_needed : Verified
  verified : ResolutionVerification → Verified
  refused : ResolutionError → Verified

abbrev pub resolution_of : Verified → Option ResolutionVerification
resolution_of (verified v) = some v
resolution_of _ = none

-- The `switch` on the gates: the disposition and the reason of the first gate that fails.
unfoldable pub gate : Library → FieldInput → Facts → Bool → Verified → Disposition × List Text
gate lib f m steep v =
    if not (str_eq f.status "READY") || not f.rmp_approved
    then (Disposition.ineligible, not_ready_reason ∷ [])
    else if str_eq f.physical_evaluation_id ""
    then (
      Disposition.review_required,
      message "Physical conditions have not been checked for the confirmed boundary." ∷ [],
    )
    else if not (str_eq f.physical_status "SUCCEEDED") || ltb 0 f.physical_critical_gaps
    then (
      Disposition.review_required,
      message "Critical physical evidence is incomplete or needs human review." ∷ [],
    )
    else if bool_fact lib (at m "intersects_wetland") || bool_fact lib (at m "intersects_nhd_area")
    then (
      Disposition.review_required,
      message
            "The mapped application boundary overlaps a wetland or surface-water feature and must be reconciled before allocation."
          ∷ [],
    )
    else if steep && elim (resolution_of v) [ none ↦ true | some r ↦ false ]
    then (
      Disposition.review_required,
      message
            "The sampled maximum slope exceeds Michigan's default six-percent surface-application threshold. Supply a stored, verified resolution record before allocation; this engine currently supports a confirmed boundary polygon that excludes every high-slope sample."
          ∷ [],
    )
    else (Disposition.eligible, [])

-- The note on a resolution that was verified, or on one that was supplied and refused.
resolution_note : FieldInput → Verified → List Text
resolution_note f not_needed = []
resolution_note f (verified r) =
    (message
        "The engine verified the immutable boundary artifact and confirmed that the captured high-slope sample lies outside boundary version "
      ++ show r.boundary_version
      ++ message ".")
    ∷ []
resolution_note f (refused e) = elim f.slope_resolution [
  | none ↦ []
  | some reference ↦
      (message "The supplied slope-resolution reference failed closed: "
        ++ message e.code
        ++ message ": "
        ++ e.detail
        ++ message ".")
      ∷ []
]

abbrev pub Verifier : Type 0
Verifier = FieldInput → Time → ResolutionVerification ⊎ ResolutionError

-- A resolution is asked for where the slope is too steep.
unfoldable pub verify_slope : Verifier → Time → FieldInput → Bool → Time → Verified
verify_slope verify now f steep as_of =
    if steep
    then elim (verify f (if as_of == 0 then now else as_of)) [
      | inl r ↦ verified r
      | inr e ↦ refused e
    ]
    else not_needed

-- A verified boundary brings its own acres.
unfoldable pub usable_of : FieldInput → Verified → Text
usable_of f not_needed = f.usable_acres
usable_of f (verified r) = r.derived_usable_acres
usable_of f (refused e) = f.usable_acres

-- Is one of the three operating quantities absent?
unfoldable pub lacks_quantity : FieldInput → Text → Bool
lacks_quantity f usable =
    is_empty usable || is_empty f.agronomic_rate || is_empty f.prior_loading_dry_tons

-- The elevated tier caps the agronomic rate.
unfoldable pub allowed_rate : Library → String → Text → Rat → Outcome Rat
allowed_rate lib tier policy_rate agronomic =
    if str_eq tier "ELEVATED"
    then elim (positive_decimal lib.set_string policy_rate) [
      | ok ceiling ↦ ok (min_rat agronomic ceiling)
      | err e ↦ err rate_ceiling_unavailable
      | panic ↦ panic
    ]
    else ok agronomic

-- What is left of the rate on the usable acres, and never less than nothing.
unfoldable pub capacity_left : Rat → Rat → Rat → Rat
capacity_left usable allowed prior =
    let capacity = sub (mul usable allowed) prior in
    if is_lt (sign capacity) then zero_rat else capacity

-- The rate and the capacity of a field that passed every gate.
unfoldable pub capacity_of : Library → String → Text → FieldInput → Text → Outcome (Rat × Rat)
capacity_of lib tier policy_rate f usable_acres = do
  usable ← positive_decimal lib.set_string usable_acres
  agronomic ← positive_decimal lib.set_string f.agronomic_rate
  prior ← nonnegative_decimal lib.set_string f.prior_loading_dry_tons
  allowed ← allowed_rate lib tier policy_rate agronomic
  ok (allowed, capacity_left usable allowed prior)

abbrev pub all_categories : Library → FieldInput → Facts → List VulnerabilityCategory
all_categories lib f m =
    water_category lib m
    ∷ subsurface_category lib m
    ∷ surface_category lib m
    ∷ human_category lib m f.crop_or_use
    ∷ uncertainty_category lib f
    ∷ []

-- The result before the rate and the capacity are worked out.
unfoldable pub gated_field : Library → FieldInput → Facts → Bool → Verified → PlacementField
unfolding count_band gate resolution_note usable_of lacks_quantity
gated_field lib f m steep v =
    let categories = all_categories lib f m in
    let verdict = gate lib f m steep v in
    let lacking = lacks_quantity f (usable_of f v) in
    record {
      field_id = f.id;
      field_name = f.name;
      disposition =
          if lacking && is_eligible verdict.0 then Disposition.review_required else verdict.0;
      rank = none;
      explanation = [];
      counterfactual = "";
      high_concern_count = count_band is_high categories;
      moderate_concern_count = count_band is_moderate categories;
      data_gap_count =
          count_band is_unknown categories
          + (f.physical_critical_gaps + f.physical_other_gaps)
          + (if lacking then 1 else 0);
      allowed_rate = [];
      available_capacity = [];
      road_access_distance_m = none;
      physical_evaluation_id = f.physical_evaluation_id;
      slope_resolution = resolution_of v;
      reasons =
          verdict.1 ++ resolution_note f v ++ (if lacking then incomplete_reason ∷ [] else []);
      categories = categories;
    }

abbrev complete_reason : Text
complete_reason = message "Required field and evidence gates are complete."

-- The access distance, and the explanation, which is the first reason.
unfoldable pub finish_field : Library → Facts → PlacementField → PlacementField
finish_field lib m r =
    let road = numeric_fact lib (at m "nearest_road_distance_m") in
    elim r.reasons [
      | [] ↦ record r {
        road_access_distance_m = road;
        reasons = complete_reason ∷ [];
        explanation = complete_reason;
      }
      | first ∷ more ↦ record r { road_access_distance_m = road; explanation = first }
    ]

-- An eligible field has its rate and capacity written; with none left it is ineligible.
unfoldable pub add_capacity : PlacementField → Rat × Rat → PlacementField
add_capacity r quantities =
    let priced = record r {
      allowed_rate = format_rat quantities.0;
      available_capacity = format_rat quantities.1;
    } in
    if is_eq (sign quantities.1)
    then record priced {
      disposition = Disposition.ineligible;
      reasons =
          r.reasons ++ message "No application capacity remains at the controlling rate." ∷ [];
    }
    else priced

unfoldable pub evaluate_field :
    Library → Verifier → Time → String → Text → FieldInput → Time → Outcome PlacementField
unfolding verify_slope gated_field add_capacity finish_field
evaluate_field lib verify now tier policy_rate f as_of =
    let m = fact_map f.facts in
    let steep = exceeds_surface_slope_limit lib m in
    let v = verify_slope verify now f steep as_of in
    let r = gated_field lib f m steep v in
    if is_eligible r.disposition
    then (capacity_of lib tier policy_rate f (usable_of f v) >>= λ quantities.
        ok (finish_field lib m (add_capacity r quantities)))
    else ok (finish_field lib m r)
