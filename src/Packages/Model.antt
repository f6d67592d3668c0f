-- ===== src/Packages/Model.antt =====
-- internal/decisionpackage/model.go, and what build.go reads of the other packages' records.
use pfas_load_control.Base.{ℕ, Bool, Option, List, String, Text}
use pfas_load_control.Placement.Model.{PlacementPlan}
use pfas_load_control.Policy.Model.{Tier, Requirement}
use pfas_load_control.ActionCenter.Model.{PackageGap}

-- internal/policy/model.go
pub record Decision : Type 0 where
  pub id : Text
  pub tier : Tier
  pub requirements : List Requirement

-- internal/lab/model.go
pub record LabGap : Type 0 where
  pub code : String
  pub detail : Text
  pub resolution : String
  pub status : String

pub record Analyte : Type 0 where
  pub canonical_analyte : Text
  pub result_text : Text
  pub is_non_detect : Bool
  pub normalized_value : Option Text
  pub normalized_reporting_limit : Option Text
  pub normalized_detection_limit : Option Text
  pub source_page : ℕ
  pub source_excerpt : Text

pub record Draft : Type 0 where
  pub version : ℕ
  pub laboratory : Option Text
  pub sample_identifier : Option Text
  pub collection_date : Option Text
  pub matrix : Option Text
  pub method : Option Text
  pub basis : Option Text
  pub analytes : List Analyte

pub record Report : Type 0 where
  pub id : Text
  pub original_filename : Text
  pub media_type : Text
  pub sha256 : Text
  pub draft : Option Draft
  pub gaps : List LabGap
  pub confirmed_at : Option ℕ

-- A plan as it is stored, with its identifier.
pub record PlacementRecord : Type 0 where
  pub id : Text
  pub plan : PlacementPlan

-- internal/evidence/model.go
pub record PhysicalDataGap : Type 0 where
  pub code : String
  pub source : String
  pub detail : Text
  pub critical : Bool

pub record PhysicalEvaluation : Type 0 where
  pub id : String
  pub gaps : List PhysicalDataGap

-- internal/responseplan/model.go
pub record ResponseTask : Type 0 where
  pub code : Text
  pub category : String
  pub title : Text
  pub detail : Text
  pub timing : Text
  pub state : String

pub record ResponseDataGap : Type 0 where
  pub code : String
  pub detail : Text
  pub resolution : String
  pub critical : Bool

pub record ResponseRun : Type 0 where
  pub id : Text
  pub status : String
  pub tasks : List ResponseTask
  pub data_gaps : List ResponseDataGap

pub record LabAnalyte : Type 0 where
  pub name : Text
  pub result_text : Text
  pub value_ug_kg_dry : Option Text
  pub upper_bound : Option Text
  pub is_non_detect : Bool
  pub source_page : ℕ
  pub source_excerpt : Text

pub record LabSnapshot : Type 0 where
  pub report_id : Text
  pub report_version : ℕ
  pub original_filename : Text
  pub media_type : Text
  pub sha256 : Text
  pub laboratory : Option Text
  pub sample_identifier : Option Text
  pub collection_date : Option Text
  pub matrix : Option Text
  pub method : Option Text
  pub basis : Option Text
  pub analytes : List LabAnalyte
  pub gaps : List PackageGap
  pub confirmed_at : Option ℕ

pub record Snapshot : Type 0 where
  pub decision : Decision
  pub lab : LabSnapshot
  pub placement : Option PlacementRecord
  pub physical_evidence : List PhysicalEvaluation
  pub response : Option ResponseRun
  pub gaps : List PackageGap
