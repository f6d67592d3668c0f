-- ===== src/Evidence/Model.antt =====
-- The types of internal/evidence/aggregation.go and the field catalog of catalog.go. A raw JSON
-- message is the text of its bytes, a `float64` its IEEE 754 bits.
use pfas_load_control.Base.{ℕ, Bool, false, Option, some, List, String, Text, ◌≡◌}
use pfas_load_control.Workspace.{Time}
use pfas_load_control.Placement.Model.Resolution.{Float}
use pfas_load_control.Placement.Facts.Floats.{is_nan}

-- The five methods, and any other string.
pub data AggregateMethod : Type 0 where
  any_true : AggregateMethod
  minimum : AggregateMethod
  maximum : AggregateMethod
  numeric_range : AggregateMethod
  distribution : AggregateMethod
  unsupported : AggregateMethod

pub record FieldSpec : Type 0 where
  pub name : String
  pub label : String
  pub category : String
  pub type_name : String
  pub method : AggregateMethod
  pub critical : Bool

pub record SampleObservation : Type 0 where
  pub index : ℕ
  pub status : String
  pub value : Text
  pub unit : String
  pub source : String
  pub source_url : String
  pub fetched_at : Option Time

pub record AggregateResult : Type 0 where
  pub state : String
  pub value : Text
  pub unit : String
  pub source : String
  pub source_url : String
  pub fetched_at : Option Time
  pub ok_count : ℕ
  pub absent_count : ℕ
  pub failed_count : ℕ
  pub sample_indices : List ℕ

pub record DistributionValue : Type 0 where
  pub value : Text
  pub count : ℕ

-- What is handed to `json.Marshal`.
pub data AggregateValue : Type 0 where
  truth : Bool → AggregateValue
  number : Float → AggregateValue
  range : Float → Float → Float → AggregateValue
  categories : List DistributionValue → AggregateValue

pub data AggregateError : Type 0 where
  unknown_status : String → AggregateError
  aggregate_failed : String → String → AggregateError
  encode_failed : String → AggregateError

-- `encoding/json` on a raw message and on a value, the number of a JSON literal, and the two float
-- operations behind a median. A literal that is parsed without an error is not NaN.
pub record Json : Type 0 where
  pub unmarshal_bool : Text → Option Bool
  pub decode_number : Text → Option Text
  pub parse_float : Text → Option Float
  pub is_valid : Text → Bool
  pub marshal : AggregateValue → Option Text
  pub float_add : Float → Float → Float
  pub float_halve : Float → Float
  pub parse_float_number : (t : Text) (x : Float) → parse_float t ≡ some x → is_nan x ≡ false
