-- ===== src/Tests/Details.antt =====
-- A field whose details are stored and that has a stale gap, and a boundary.
use pfas_load_control.Base.{
  Bool, true, false, none, some, List, [], ◌∷◌, change, Text, codes, ok, is_panic, ◌≡◌, refl,
}
use pfas_load_control.Fields.Model.{
  needs_details, rmp_approval_missing, prior_loading_missing, CandidateField, Store,
}
use pfas_load_control.Fields.Readiness.{confirmed_geometry, definition_of, sync_field_state}
use pfas_load_control.Placement.Model.Resolution.{Float}
use pfas_load_control.Placement.Facts.Floats.{float_lt, float_le}
use pfas_load_control.Fields.Geometry.{Position, validate_coordinates}
use pfas_load_control.Fields.Geometry.Valid.{IsBoundary, validate_coordinates-IsBoundary}
use pfas_load_control.Fields.Geometry.Total.{validate_coordinates_total}
use pfas_load_control.Fields.Readiness.Synced.{IsSynced, sync_field_state-IsSynced}

abbrev to_lower : Text → Text
to_lower t = t

abbrev field : CandidateField
field = record {
  id = 7;
  workspace_id = 1;
  status = needs_details;
  current_geometry_id = some 3;
  rmp_approved = some true;
  usable_acres = some (codes "40");
  agronomic_rate = some (codes "5");
  prior_loading = none;
}

abbrev before : Store
before = record {
  fields = field ∷ [];
  gaps =
      (record {
        field_id = 7;
        code = rmp_approval_missing;
        definition = definition_of rmp_approval_missing;
        is_open = true;
        resolved_at = none;
      })
      ∷ [];
  latest_lookup = λ id. none;
  confirmation = λ geometry id. some (some 4);
}

abbrev after : Store
after = record before {
  gaps =
      (record {
        field_id = 7;
        code = rmp_approval_missing;
        definition = definition_of rmp_approval_missing;
        is_open = false;
        resolved_at = some 9;
      })
      ∷ (record {
        field_id = 7;
        code = prior_loading_missing;
        definition = definition_of prior_loading_missing;
        is_open = true;
        resolved_at = none;
      })
      ∷ [];
}

sync_test : sync_field_state to_lower field 9 before ≡ ok after
unfolding sync_field_state change
sync_test = refl

sync_field_state-IsSynced_example :
    (confirmed : Bool) × (confirmed_geometry field before ≡ ok confirmed)
    × IsSynced to_lower field confirmed before after
sync_field_state-IsSynced_example = sync_field_state-IsSynced to_lower field 9 before sync_test

abbrev one : Float
one = 0x3ff0000000000000

abbrev triangle : List (List (List Position))
triangle = (((0 ∷ 0 ∷ []) ∷ (one ∷ 0 ∷ []) ∷ (one ∷ one ∷ []) ∷ (0 ∷ 0 ∷ []) ∷ []) ∷ []) ∷ []

triangle_test : validate_coordinates triangle ≡ ok tt
unfolding validate_coordinates float_lt float_le
triangle_test = refl

validate_coordinates-IsBoundary_example : IsBoundary triangle
validate_coordinates-IsBoundary_example = validate_coordinates-IsBoundary triangle triangle_test

-- A ring whose last position has one coordinate.
abbrev broken : List (List (List Position))
broken = (((0 ∷ 0 ∷ []) ∷ (one ∷ 0 ∷ []) ∷ (one ∷ one ∷ []) ∷ (0 ∷ []) ∷ []) ∷ []) ∷ []

validate_coordinates_total_example : is_panic (validate_coordinates broken) ≡ false
validate_coordinates_total_example = validate_coordinates_total broken
