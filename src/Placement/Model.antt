-- ===== src/Placement/Model.antt =====
-- internal/placement/model.go and the results of internal/placement/resolution.go: the data of the
-- placement engine. Texts that are only compared or passed on are `String`s; decimal numbers and
-- composed messages are `Text`s. A Go `int` that counts is a natural number; a `time.Time` is a
-- number of nanoseconds, 0 for the zero time; a `float64` is its bit pattern.
pub mod Resolution
use pfas_load_control.Base.{ℕ, Bool, Option, List, String, Text}
use pfas_load_control.Placement.Model.Resolution.{
  SlopeResolutionReference, ResolutionVerification, Float, Time,
}

pub data Status : Type 0 where
  ready : Status
  review_required : Status
  insufficient_capacity : Status
  land_application_blocked : Status

pub data Disposition : Type 0 where
  eligible : Disposition
  review_required : Disposition
  ineligible : Disposition

pub data Band : Type 0 where
  low moderate high unknown : Band

pub record FactInput : Type 0 where
  pub name : String
  pub label : String
  pub state : String
  pub value : Text
  pub unit : String
  pub source : String
  pub source_url : String

pub record FieldInput : Type 0 where
  pub id : String
  pub name : String
  pub status : String
  pub rmp_approved : Bool
  pub usable_acres : Text
  pub agronomic_rate : Text
  pub prior_loading_dry_tons : Text
  pub crop_or_use : Text
  pub physical_evaluation_id : String
  pub physical_status : String
  pub physical_critical_gaps : ℕ
  pub physical_other_gaps : ℕ
  pub supplemental_available : Bool
  pub boundary_version : ℕ
  pub slope_resolution : Option SlopeResolutionReference
  pub facts : List FactInput

pub record Input : Type 0 where
  pub tier : String
  pub policy_rate : Text
  pub wet_mass_kg : Text
  pub percent_solids : Text
  pub fields : List FieldInput
  pub decision_input_hash : String
  pub evidence_as_of : Time

pub record PlacementComponent : Type 0 where
  pub fact_name : String
  pub label : String
  pub state : String
  pub value : Text
  pub unit : String
  pub source : String
  pub source_url : String

pub record VulnerabilityCategory : Type 0 where
  pub key : String
  pub label : String
  pub band : Band
  pub explanation : String
  pub components : List PlacementComponent
  pub authority_type : String
  pub source_title : String
  pub source_url : String
  pub config_version : String

pub record PlacementField : Type 0 where
  pub field_id : String
  pub field_name : String
  pub disposition : Disposition
  pub rank : Option ℕ
  pub explanation : Text
  pub counterfactual : String
  pub high_concern_count : ℕ
  pub moderate_concern_count : ℕ
  pub data_gap_count : ℕ
  pub allowed_rate : Text
  pub available_capacity : Text
  pub road_access_distance_m : Option Float
  pub physical_evaluation_id : String
  pub slope_resolution : Option ResolutionVerification
  pub reasons : List Text
  pub categories : List VulnerabilityCategory

pub record PlacementAllocation : Type 0 where
  pub position : ℕ
  pub field_id : String
  pub field_name : String
  pub dry_tons : Text
  pub acres : Text
  pub rate : Text

pub record PlacementGap : Type 0 where
  pub code : String
  pub detail : Text
  pub resolution : String

-- The engine leaves `ID`, `DecisionID`, `InputHash` and `CreatedAt` to its caller.
pub record PlacementPlan : Type 0 where
  pub status : Status
  pub tier : String
  pub config_version : String
  pub config_checksum : String
  pub wet_mass_kg : Text
  pub percent_solids : Text
  pub batch_dry_tons : Text
  pub allocated_dry_tons : Text
  pub unallocated_dry_tons : Text
  pub fields : List PlacementField
  pub allocations : List PlacementAllocation
  pub gaps : List PlacementGap
