-- ===== src/Fields/Readiness.antt =====
-- internal/field/service.go, `syncFieldState`.
pub mod Gaps
pub mod Synced
use pfas_load_control.Base.{
  ℕ, Bool, true, false, not, ◌&&◌, ◌||◌, ◌==◌, Option, none, some, List, [], ◌∷◌, ◌++◌, any, change,
  String, str_eq, Text, codes, text_eq, trim_space, if◌then◌else◌, Result, ok, err, ◌>>=◌,
}
use pfas_load_control.Workspace.{Uuid, Time}
use pfas_load_control.Fields.Model.{
  FieldStatus, needs_location, needs_geometry, needs_details, ready, GapCode, location_unresolved,
  location_ambiguous, outside_michigan, geometry_unconfirmed, rmp_approval_missing,
  usable_acres_missing, agronomic_rate_missing, prior_loading_missing, CandidateField,
  LocationLookup, GapDefinition, FieldGapRow, Store,
}

abbrev pub is_some : {A : Type 0} → Option A → Bool
is_some none = false
is_some (some x) = true

-- `gapDefinitions`
abbrev pub definition_of : GapCode → GapDefinition
definition_of location_unresolved = record {
  detail = "The field location has not been safely resolved.";
  resolution = "Use an address or coordinates Mireye can resolve, or upload the field boundary.";
}
definition_of location_ambiguous = record {
  detail = "More than one location matches this field.";
  resolution = "Select the correct location or upload the field boundary.";
}
definition_of outside_michigan = record {
  detail = "The resolved location is outside Michigan.";
  resolution = "Correct the locator or upload the Michigan field boundary.";
}
definition_of geometry_unconfirmed = record {
  detail = "The actual application boundary is not confirmed.";
  resolution = "Confirm the matched parcel or upload the actual field boundary.";
}
definition_of rmp_approval_missing = record {
  detail = "RMP approval is not confirmed.";
  resolution = "Confirm the field is approved in the Residuals Management Program.";
}
definition_of usable_acres_missing = record {
  detail = "Usable application acres are missing.";
  resolution = "Enter the approved usable acreage.";
}
definition_of agronomic_rate_missing = record {
  detail = "The operator's agronomic rate is missing.";
  resolution = "Enter the dry tons per acre allowed by the agronomic plan.";
}
definition_of prior_loading_missing = record {
  detail = "Prior biosolids loading is missing.";
  resolution = "Enter prior dry tons, including zero when none were applied.";
}

abbrev pub gap_codes_of_fields : List GapCode
gap_codes_of_fields =
    location_unresolved ∷ location_ambiguous ∷ outside_michigan ∷ geometry_unconfirmed
    ∷ rmp_approval_missing ∷ usable_acres_missing ∷ agronomic_rate_missing ∷ prior_loading_missing
    ∷ []

abbrev pub code_number : GapCode → ℕ
code_number location_unresolved = 0
code_number location_ambiguous = 1
code_number outside_michigan = 2
code_number geometry_unconfirmed = 3
code_number rmp_approval_missing = 4
code_number usable_acres_missing = 5
code_number agronomic_rate_missing = 6
code_number prior_loading_missing = 7

-- What the state of a field depends on.
pub record FieldFacts : Type 0 where
  pub lookup : Option LocationLookup
  pub has_geometry : Bool
  pub has_confirmed_geometry : Bool
  pub approved : Bool
  pub has_acres : Bool
  pub has_rate : Bool
  pub has_loading : Bool

-- `strings.ToLower` is the parameter.
module _ (to_lower : Text → Text) where
  unfoldable pub is_michigan : Option Text → Bool
  is_michigan none = false
  is_michigan (some state) =
      let value = to_lower (trim_space state) in
      text_eq value (codes "mi") || text_eq value (codes "michigan")

  -- Is the disposition of the latest lookup, if there is one, the given one?
  abbrev pub has_disposition : String → Option LocationLookup → Bool
  has_disposition d none = false
  has_disposition d (some l) = str_eq l.disposition d

  abbrev pub found_in_michigan : Option LocationLookup → Bool
  found_in_michigan none = false
  found_in_michigan (some l) = is_michigan l.state

  -- `open[code]`
  unfoldable pub opens : FieldFacts → GapCode → Bool
  opens f location_unresolved =
      not f.has_geometry && (not (is_some f.lookup) || has_disposition "no_match" f.lookup)
  opens f location_ambiguous = not f.has_geometry && has_disposition "clarify" f.lookup
  opens f outside_michigan =
      not f.has_geometry
      && (has_disposition "resolved" f.lookup && not (found_in_michigan f.lookup))
  opens f geometry_unconfirmed = not f.has_confirmed_geometry
  opens f rmp_approval_missing = not f.approved
  opens f usable_acres_missing = not f.has_acres
  opens f agronomic_rate_missing = not f.has_rate
  opens f prior_loading_missing = not f.has_loading

  unfoldable pub field_status : FieldFacts → FieldStatus
  unfolding opens
  field_status f =
      if opens f location_unresolved || opens f location_ambiguous || opens f outside_michigan
      then needs_location
      else if opens f geometry_unconfirmed
      then needs_geometry
      else if any (opens f) gap_codes_of_fields
      then needs_details
      else ready

abbrev pub approval_of : Option Bool → Bool
approval_of none = false
approval_of (some b) = b

abbrev pub facts_with : Option LocationLookup → Bool → CandidateField → FieldFacts
facts_with lookup confirmed r = record {
  lookup = lookup;
  has_geometry = is_some r.current_geometry_id;
  has_confirmed_geometry = confirmed;
  approved = approval_of r.rmp_approved;
  has_acres = is_some r.usable_acres;
  has_rate = is_some r.agronomic_rate;
  has_loading = is_some r.prior_loading;
}

-- The confirmation of the current geometry; no row is an error.
unfoldable pub confirmed_geometry : CandidateField → Store → Result String Bool
confirmed_geometry r s = elim r.current_geometry_id [
  | none ↦ ok false
  | some geometry ↦ elim (s.confirmation geometry r.id) [
    | none ↦ err "load field boundary confirmation"
    | some confirmed_at ↦ ok (is_some confirmed_at)
  ]
]

-- A row of the field and the code; one that is open.
abbrev pub has_key : Uuid → GapCode → FieldGapRow → Bool
has_key id code row = row.field_id == id && code_number row.code == code_number code

abbrev pub is_open_gap : Uuid → GapCode → FieldGapRow → Bool
is_open_gap id code row = has_key id code row && row.is_open

abbrev pub reopened : GapCode → FieldGapRow → FieldGapRow
reopened code row = record row {
  definition = definition_of code;
  is_open = true;
  resolved_at = none;
}

abbrev pub resolved : Time → FieldGapRow → FieldGapRow
resolved now row = record row { is_open = false; resolved_at = some now }

-- `OpenFieldGap`: an upsert by the field and the code.
unfoldable pub open_field_gap : Uuid → GapCode → List FieldGapRow → List FieldGapRow
open_field_gap id code rows =
    if any (has_key id code) rows
    then change (has_key id code) (reopened code) rows
    else rows
      ++ (record {
        field_id = id;
        code = code;
        definition = definition_of code;
        is_open = true;
        resolved_at = none;
      })
        ∷ []

-- `ResolveFieldGap`
unfoldable pub resolve_field_gap : Uuid → GapCode → Time → List FieldGapRow → List FieldGapRow
resolve_field_gap id code now rows = change (is_open_gap id code) (resolved now) rows

-- The loop over the definitions, in some order.
unfoldable pub sync_gaps :
    (GapCode → Bool) → Uuid → Time → List GapCode → List FieldGapRow → List FieldGapRow
unfolding open_field_gap resolve_field_gap
sync_gaps open_codes id now [] rows = rows
sync_gaps open_codes id now (code ∷ rest) rows =
    let opened = sync_gaps open_codes id now rest (open_field_gap id code rows) in
    let closed = sync_gaps open_codes id now rest (resolve_field_gap id code now rows) in
    if open_codes code then opened else closed

abbrev pub is_field : Uuid → Uuid → CandidateField → Bool
is_field id workspace r = r.id == id && r.workspace_id == workspace

abbrev pub with_status : FieldStatus → CandidateField → CandidateField
with_status status r = record r { status = status }

unfoldable pub sync_field_state :
    (Text → Text) → CandidateField → Time → Store → Result String Store
unfolding confirmed_geometry sync_gaps field_status opens
sync_field_state to_lower r now s = confirmed_geometry r s >>= λ confirmed.
    let facts = facts_with (s.latest_lookup r.id) confirmed r in
    ok (record s {
      gaps = sync_gaps (opens to_lower facts) r.id now gap_codes_of_fields s.gaps;
      fields =
          change (is_field r.id r.workspace_id) (with_status (field_status to_lower facts))
            s.fields;
    })
