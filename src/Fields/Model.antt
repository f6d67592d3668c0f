-- ===== src/Fields/Model.antt =====
-- The rows of the tables behind internal/field/service.go, as far as the state of a field reads them.
-- A number column is the text of its value, where it has one.
use pfas_load_control.Base.{Bool, Option, List, String, Text}
use pfas_load_control.Workspace.{Uuid, Time}

pub data FieldStatus : Type 0 where
  needs_location : FieldStatus
  needs_geometry : FieldStatus
  needs_details : FieldStatus
  ready : FieldStatus

-- The keys of `gapDefinitions`.
pub data GapCode : Type 0 where
  location_unresolved : GapCode
  location_ambiguous : GapCode
  outside_michigan : GapCode
  geometry_unconfirmed : GapCode
  rmp_approval_missing : GapCode
  usable_acres_missing : GapCode
  agronomic_rate_missing : GapCode
  prior_loading_missing : GapCode

pub record CandidateField : Type 0 where
  pub id : Uuid
  pub workspace_id : Uuid
  pub status : FieldStatus
  pub current_geometry_id : Option Uuid
  pub rmp_approved : Option Bool
  pub usable_acres : Option Text
  pub agronomic_rate : Option Text
  pub prior_loading : Option Text

pub record LocationLookup : Type 0 where
  pub disposition : String
  pub state : Option Text

pub record GapDefinition : Type 0 where
  pub detail : String
  pub resolution : String

pub record FieldGapRow : Type 0 where
  pub field_id : Uuid
  pub code : GapCode
  pub definition : GapDefinition
  pub is_open : Bool
  pub resolved_at : Option Time

-- The tables: the latest lookup of a field, and the confirmation of a geometry of a field, are what
-- the queries answer.
pub record Store : Type 0 where
  pub fields : List CandidateField
  pub gaps : List FieldGapRow
  pub latest_lookup : Uuid → Option LocationLookup
  pub confirmation : Uuid → Uuid → Option (Option Time)
