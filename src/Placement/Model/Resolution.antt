-- ===== src/Placement/Model/Resolution.antt =====
-- internal/placement/resolution.go and model.go: the reference that asks for a slope resolution,
-- and the record of a verified one.
use pfas_load_control.Base.{ℕ, Bool, String, Text}

-- A `float64` by its IEEE 754 bits, a `time.Time` by its nanoseconds since the zero time.
abbrev pub Float : Type 0
Float = ℕ

abbrev pub Time : Type 0
Time = ℕ

pub record SlopeResolutionReference : Type 0 where
  pub program_policy_version : String
  pub evidence_record_id : String
  pub evidence_type : String
  pub artifact_hash : String
  pub boundary_version : ℕ
  pub parent_boundary_evidence_record_id : String
  pub parent_boundary_artifact_hash : String
  pub parent_boundary_version : ℕ
  pub source_evidence_record_id : String
  pub source_artifact_hash : String
  pub revised_screening_evidence_record_id : String
  pub revised_screening_artifact_hash : String

pub record RevisedScreeningVerification : Type 0 where
  pub evidence_record_id : String
  pub artifact_hash : String
  pub endpoint : String
  pub request_id : String
  pub request_hash : String
  pub response_hash : String
  pub retrieved_at : Time
  pub algorithm_version : String
  pub minimum_spacing_meters : String
  pub max_request_samples : ℕ
  pub requested_sample_count : ℕ
  pub returned_sample_count : ℕ
  pub boundary_near_sample_count : ℕ
  pub interior_sample_count : ℕ
  pub maximum_slope_degrees : String
  pub maximum_slope_grade_percent : String
  pub status : String
  pub limitation : String

pub record SlopeConversion : Type 0 where
  pub original_degrees : String
  pub derived_grade_percent : String
  pub threshold_grade_percent : String
  pub threshold_degrees : String
  pub formula : String
  pub policy_source_url : String

pub record ResolutionVerification : Type 0 where
  pub program_policy_version : String
  pub demonstration_roles : Bool
  pub evidence_record_id : String
  pub evidence_type : String
  pub artifact_hash : String
  pub field_id : String
  pub boundary_version : ℕ
  pub crs : String
  pub parent_boundary_evidence_record_id : String
  pub parent_boundary_artifact_hash : String
  pub parent_boundary_version : ℕ
  pub source_evidence_record_id : String
  pub source_artifact_hash : String
  pub revised_screening_evidence_record_id : String
  pub revised_screening_artifact_hash : String
  pub issuing_role : String
  pub reviewer_role : String
  pub reviewer_authorization_record_id : String
  pub reviewer_authorization_hash : String
  pub recorded_at : Time
  pub verified_at : Time
  pub derived_usable_acres : Text
  pub high_slope_samples_excluded : ℕ
  pub parent_boundary_acres : String
  pub revised_screening : RevisedScreeningVerification
  pub slope_conversion : SlopeConversion

-- The code of a refusal and the text of its cause.
pub record ResolutionError : Type 0 where
  pub code : String
  pub detail : Text
