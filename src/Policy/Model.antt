-- ===== src/Policy/Model.antt =====
-- internal/policy/model.go: rule packs, the evidence on a batch and its evaluation. Texts that are
-- trimmed, upper-cased, searched or parsed are `Text`s, the others `String`s; a `time.Time` is a
-- number of nanoseconds, 0 for the zero time. `Tier` is a string type in the source.
use pfas_load_control.Base.{ℕ, Bool, Option, List, String, Text}

abbrev pub Tier : Type 0
Tier = String

abbrev pub tier_standard : Tier
tier_standard = "STANDARD"

abbrev pub tier_elevated : Tier
tier_elevated = "ELEVATED"

abbrev pub tier_prohibited : Tier
tier_prohibited = "PROHIBITED"

abbrev pub tier_undetermined : Tier
tier_undetermined = "UNDETERMINED"

pub record Rule : Type 0 where
  pub id : String
  pub tier : Tier
  pub operator : String
  pub threshold_ug_kg_dry : Text
  pub maximum_application_rate : Option Text
  pub prohibited_actions : List String
  pub explanation : Text

pub record RequirementDefinition : Type 0 where
  pub id : Text
  pub tiers : List Tier
  pub title : Text
  pub detail : Text
  pub timing : Text

pub record RulePack : Type 0 where
  pub schema_version : ℕ
  pub code : String
  pub version : String
  pub jurisdiction : String
  pub authority_type : String
  pub effective_from : String
  pub source_url : String
  pub source_title : String
  pub retrieved_at : ℕ
  pub reviewed_at : ℕ
  pub reviewed_by : String
  pub review_status : String
  pub explanation : Text
  pub elevated_threshold : Text
  pub prohibited_threshold : Text
  pub accepted_method_tokens : List Text
  pub rules : List Rule
  pub requirements : List RequirementDefinition
  pub checksum : String

pub record AnalyteEvidence : Type 0 where
  pub canonical_analyte : Text
  pub result_text : Text
  pub is_non_detect : Bool
  pub normalized_value : Option Text
  pub upper_bound : Option Text
  pub source_page : ℕ

pub record ClassificationInput : Type 0 where
  pub jurisdiction : String
  pub matrix : Option Text
  pub method : Option Text
  pub basis : Option Text
  pub analytes : List AnalyteEvidence

pub record Requirement : Type 0 where
  pub id : Text
  pub title : Text
  pub detail : Text
  pub timing : Text
  pub rule_id : String
  pub source_url : String
  pub source_title : String
  pub authority_type : String

pub record Evaluation : Type 0 where
  pub tier : Tier
  pub matched_rule_id : String
  pub explanation : Text
  pub requirements : List Requirement
  pub maximum_application_rate : Option Text
  pub prohibited_actions : List String
  pub blocking_reason : Option Text
