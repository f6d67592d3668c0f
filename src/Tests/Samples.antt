-- ===== src/Tests/Samples.antt =====
-- The samples of a field, aggregated.
use pfas_load_control.Base.{
  ℕ, true, false, Option, none, some, List, [], ◌∷◌, Text, codes, text_eq, ltb, if◌then◌else◌,
  some-injective, Bool-cases, inl, inr, ok, is_panic, ◌≡◌, refl, subst, arith,
}
use pfas_load_control.Placement.Model.Resolution.{Float}
use pfas_load_control.Placement.Facts.Floats.{is_nan, float_lt}
use pfas_load_control.Evidence.Model.{
  minimum, FieldSpec, SampleObservation, AggregateResult, AggregateValue, truth, number, range,
  categories, Json,
}
use pfas_load_control.Evidence.Aggregation.{Provenance, aggregate_field, shared_provenance}
use pfas_load_control.Evidence.Aggregation.Tallies.{available_of}
use pfas_load_control.Evidence.Aggregation.Counts.{IsCounted, aggregate_field-IsCounted}
use pfas_load_control.Evidence.Aggregation.Values.{HasValue, aggregate_field-HasValue}
use pfas_load_control.Evidence.Aggregation.Total.{aggregate_field_total}
use pfas_load_control.Evidence.Aggregation.Sources.{IsShared, shared_provenance-IsShared}

-- A letter stands for the float with its code as bits.
abbrev parse_letter : Text → Option Float
parse_letter [] = none
parse_letter (c ∷ t) = if ltb c 128 then some c else none

parse_letter_number : (t : Text) (x : Float) → parse_letter t ≡ some x → is_nan x ≡ false
parse_letter_number [] x h = cc
parse_letter_number (c ∷ t) x h = elim (Bool-cases (ltb c 128)) [
  | inl small ↦
      subst (λ (y : Float). is_nan y ≡ false) (some-injective (rw small at h)) (ground arith)
  | inr large ↦ let absurd : ◌≡◌ {A = Option Float} none (some x) = rw large at h in cc
]

abbrev encode_letter : AggregateValue → Option Text
encode_letter (truth b) = some (if b then codes "true" else codes "false")
encode_letter (number x) = some (x ∷ [])
encode_letter (range x y z) = some (x ∷ y ∷ z ∷ [])
encode_letter (categories ds) = some []

abbrev json : Json
json = record {
  unmarshal_bool = λ t. if text_eq t (codes "true") then some true else some false;
  decode_number = λ t. some t;
  parse_float = parse_letter;
  is_valid = λ t. true;
  marshal = encode_letter;
  float_add = λ x y. x;
  float_halve = λ x. x;
  parse_float_number = parse_letter_number;
}

abbrev sample : ℕ → Text → Option ℕ → SampleObservation
sample index value time = record {
  index = index;
  status = "ok";
  value = value;
  unit = "m";
  source = "USGS";
  source_url = "";
  fetched_at = time;
}

abbrev absent_sample : SampleObservation
absent_sample = record (sample 2 [] none) { status = "absent" }

abbrev samples : List SampleObservation
samples = sample 0 (codes "c") (some 5) ∷ absent_sample ∷ sample 3 (codes "a") (some 4) ∷ []

abbrev field_spec : FieldSpec
field_spec = record {
  name = "nearest_wetland_distance_m";
  label = "";
  category = "WATER";
  type_name = "float";
  method = minimum;
  critical = true;
}

abbrev result : AggregateResult
result = record {
  state = "PARTIAL";
  value = codes "a";
  unit = "m";
  source = "USGS";
  source_url = "";
  fetched_at = some 5;
  ok_count = 2;
  absent_count = 1;
  failed_count = 1;
  sample_indices = 0 ∷ 3 ∷ [];
}

aggregate_test : aggregate_field json field_spec samples 4 ≡ ok result
unfolding aggregate_field float_lt
aggregate_test = refl

aggregate_field-IsCounted_example : IsCounted 4 samples result
aggregate_field-IsCounted_example =
    aggregate_field-IsCounted json field_spec 4 samples aggregate_test

aggregate_field-HasValue_example : HasValue json minimum (available_of samples) result
aggregate_field-HasValue_example =
    aggregate_field-HasValue json field_spec samples 4 aggregate_test (omega arith)

aggregate_field_total_example : is_panic (aggregate_field json field_spec samples 4) ≡ false
aggregate_field_total_example = aggregate_field_total json field_spec samples 4

abbrev shared : Provenance
shared = record { unit = "m"; source = "USGS"; source_url = ""; fetched_at = some 5 }

shared_provenance-IsShared_example :
    IsShared (sample 0 (codes "c") (some 5)) (sample 3 (codes "a") (some 4) ∷ []) shared
unfolding shared_provenance
shared_provenance-IsShared_example =
    shared_provenance-IsShared (sample 0 (codes "c") (some 5)) (sample 3 (codes "a") (some 4) ∷ [])
      refl
