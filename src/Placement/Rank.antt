-- ===== src/Placement/Rank.antt =====
-- internal/placement/engine.go, `rankFields` and `addCounterfactuals`.
pub mod Order
pub mod Kept
use pfas_load_control.Base.{
  ℕ, ◌+◌, suc, Bool, true, false, not, ◌&&◌, ◌||◌, Option, none, some, [], ◌∷◌, List, String, ltb,
  ◌==◌, str_eq, if◌then◌else◌, is_gt, is_eq, Text,
}
use pfas_load_control.Rat.{Rat, cmp}
use pfas_load_control.Placement.Decimal.{decimal_or_zero}
use pfas_load_control.Placement.Model.{Disposition, PlacementField}
use pfas_load_control.Placement.Model.Resolution.{Float}
use pfas_load_control.Placement.Facts.Floats.{float_lt, max_float}
use pfas_load_control.Placement.Field.{is_eligible}

abbrev pub disposition_order : Disposition → ℕ
disposition_order Disposition.eligible = 0
disposition_order Disposition.review_required = 1
disposition_order Disposition.ineligible = 2

abbrev pub road_distance : Option Float → Float
road_distance none = max_float
road_distance (some x) = x

-- `big.Rat.SetString` is the parameter.
module _ (set_string : Text → Option Rat) where
  -- Does `left` rank before `right`?
  unfoldable pub ranks_before : PlacementField → PlacementField → Bool
  ranks_before left right =
      if not (disposition_order left.disposition == disposition_order right.disposition)
      then ltb (disposition_order left.disposition) (disposition_order right.disposition)
      else if not (left.high_concern_count == right.high_concern_count)
      then ltb left.high_concern_count right.high_concern_count
      else if not (left.moderate_concern_count == right.moderate_concern_count)
      then ltb left.moderate_concern_count right.moderate_concern_count
      else if not (left.data_gap_count == right.data_gap_count)
      then ltb left.data_gap_count right.data_gap_count
      else let comparison =
          cmp (decimal_or_zero set_string left.available_capacity)
            (decimal_or_zero set_string right.available_capacity) in
        if not (is_eq comparison)
        then is_gt comparison
        else float_lt (road_distance left.road_access_distance_m)
            (road_distance right.road_access_distance_m)

  -- `sort.SliceStable` by insertion: an element goes before the first one that it ranks before.
  unfoldable pub insert_ranked : PlacementField → List PlacementField → List PlacementField
  insert_ranked x [] = x ∷ []
  insert_ranked x (y ∷ ys) =
      let later = y ∷ insert_ranked x ys in if ranks_before x y then x ∷ y ∷ ys else later

  -- The fields in their order, each put among those before it.
  unfoldable pub sort_from : List PlacementField → List PlacementField → List PlacementField
  sort_from sorted [] = sorted
  sort_from sorted (x ∷ xs) = sort_from (insert_ranked x sorted) xs

-- Ranks count from 1.
unfoldable pub number_from : ℕ → List PlacementField → List PlacementField
number_from i [] = []
number_from i (f ∷ fs) = record f { rank = some (i + 1) } ∷ number_from (i + 1) fs

unfoldable pub rank_fields : (Text → Option Rat) → List PlacementField → List PlacementField
unfolding sort_from number_from
rank_fields set_string fs = number_from 0 (sort_from set_string [] fs)

-- The first eligible field.
unfoldable pub preferred_of : List PlacementField → Option PlacementField
preferred_of [] = none
preferred_of (f ∷ fs) =
    let rest = preferred_of fs in if is_eligible f.disposition then some f else rest

unfoldable pub counterfactual_of : PlacementField → PlacementField → String
counterfactual_of preferred f =
    if str_eq f.field_id preferred.field_id
    then "This field is preferred under the current confirmed evidence."
    else if not (is_eligible f.disposition)
    then "Resolve its blocking eligibility or evidence issue before it can outrank an eligible field."
    else if ltb preferred.high_concern_count f.high_concern_count
    then "It would rank higher with fewer high-concern vulnerability categories."
    else if ltb preferred.moderate_concern_count f.moderate_concern_count
    then "It would rank higher with fewer moderate-concern vulnerability categories."
    else if ltb preferred.data_gap_count f.data_gap_count
    then "It would rank higher after its additional evidence gaps are resolved."
    else "It would rank higher with more usable capacity or easier verified road access."

explain_from : PlacementField → List PlacementField → List PlacementField
unfolding counterfactual_of
explain_from preferred [] = []
explain_from preferred (f ∷ fs) =
    record f { counterfactual = counterfactual_of preferred f } ∷ explain_from preferred fs

unfoldable pub add_counterfactuals : List PlacementField → List PlacementField
unfolding preferred_of explain_from
add_counterfactuals fs = elim (preferred_of fs) [ none ↦ fs | some p ↦ explain_from p fs ]
