-- ===== src/Evidence/Aggregation.antt =====
-- internal/evidence/aggregation.go.
pub mod Tallies
pub mod States
pub mod Counts
pub mod Sorted
pub mod Boundary
pub mod Keys
pub mod Categories
pub mod Sources
pub mod Median
pub mod Values
pub mod Total
use pfas_load_control.Base.{
  ℕ, zero, suc, ◌+◌, ◌-◌, ◌/◌, ◌%◌, Bool, true, false, not, ◌&&◌, ◌||◌, ◌==◌, ltb, Option, none,
  some, List, [], ◌∷◌, ◌++◌, String, str_eq, Text, codes, text_eq, text_lt, trim_space, length,
  if◌then◌else◌, Result, panic, ok, err, ◌>>=◌, map_err,
}
use pfas_load_control.Workspace.{Time}
use pfas_load_control.Placement.Model.Resolution.{Float}
use pfas_load_control.Placement.Facts.Floats.{float_lt}
use pfas_load_control.Evidence.Model.{
  AggregateMethod, any_true, minimum, maximum, numeric_range, distribution, unsupported, FieldSpec,
  SampleObservation, AggregateResult, DistributionValue, AggregateValue, truth, number, range,
  categories, AggregateError, unknown_status, aggregate_failed, encode_failed, Json,
}

-- The counts of the result, with the observations that have a value.
pub record Tally : Type 0 where
  pub available : List SampleObservation
  pub ok_count : ℕ
  pub absent_count : ℕ
  pub failed_count : ℕ
  pub sample_indices : List ℕ

abbrev pub add_ok : Tally → SampleObservation → Tally
add_ok t o = record t {
  available = t.available ++ o ∷ [];
  ok_count = t.ok_count + 1;
  sample_indices = t.sample_indices ++ o.index ∷ [];
}

abbrev pub add_absent : Tally → Tally
add_absent t = record t { absent_count = t.absent_count + 1 }

abbrev pub add_failed : Tally → Tally
add_failed t = record t { failed_count = t.failed_count + 1 }

unfoldable pub tally_step : Tally → SampleObservation → Result AggregateError Tally
tally_step t o =
    if str_eq o.status "ok"
    then ok (add_ok t o)
    else if str_eq o.status "absent"
    then ok (add_absent t)
    else if str_eq o.status "failed"
    then ok (add_failed t)
    else err (unknown_status o.status)

unfoldable pub tally_from : Tally → List SampleObservation → Result AggregateError Tally
unfolding tally_step
tally_from t [] = ok t
tally_from t (o ∷ os) = tally_step t o >>= λ next. tally_from next os

abbrev pub empty_tally : Tally
empty_tally = record {
  available = [];
  ok_count = 0;
  absent_count = 0;
  failed_count = 0;
  sample_indices = [];
}

-- The samples without an observation count as failed; more observations than samples, a negative
-- number of missing ones, add nothing.
abbrev pub add_missing : ℕ → ℕ → Tally → Tally
add_missing sample_count observed t = record t {
  failed_count = t.failed_count + (sample_count - observed);
}

-- `values[i]`, which panics out of range.
unfoldable pub value_at : ℕ → List Float → Result String Float
value_at i [] = panic
value_at zero (x ∷ xs) = ok x
value_at (suc i) (x ∷ xs) = value_at i xs

-- `sort.Float64s` on numbers that are not NaN.
unfoldable pub insert_float : Float → List Float → List Float
insert_float x [] = x ∷ []
insert_float x (y ∷ ys) =
    let later = y ∷ insert_float x ys in if float_lt y x then later else x ∷ y ∷ ys

unfoldable pub sort_floats : List Float → List Float
unfolding insert_float
sort_floats [] = []
sort_floats (x ∷ xs) = insert_float x (sort_floats xs)

-- The map of the counts by key, in the order in which the keys are seen first. The value of a key is
-- the key itself.
unfoldable pub count_key : Text → List DistributionValue → List DistributionValue
count_key k [] = (record { value = k; count = 1 }) ∷ []
count_key k (d ∷ ds) =
    let later = d ∷ count_key k ds in
    if text_eq d.value k then (record d { count = d.count + 1 }) ∷ ds else later

-- `sort.Strings` on the keys.
unfoldable pub insert_value : DistributionValue → List DistributionValue → List DistributionValue
insert_value d [] = d ∷ []
insert_value d (e ∷ es) =
    let later = e ∷ insert_value d es in if text_lt e.value d.value then later else d ∷ e ∷ es

unfoldable pub sort_values : List DistributionValue → List DistributionValue
unfolding insert_value
sort_values [] = []
sort_values (d ∷ ds) = insert_value d (sort_values ds)

-- The variables of `sharedProvenance`.
pub record Provenance : Type 0 where
  pub unit : String
  pub source : String
  pub source_url : String
  pub fetched_at : Option Time

-- The later of the two times, if there are two.
abbrev pub later_time : Option Time → Option Time → Option Time
later_time none best = best
later_time (some t) none = some t
later_time (some t) (some best) = if ltb best t then some t else some best

unfoldable pub share : Provenance → SampleObservation → Provenance
share p o =
    let unit_now = if not (str_eq o.unit p.unit) then "" else p.unit in
    let differs = not (str_eq o.source p.source) || not (str_eq o.source_url p.source_url) in
    record {
      unit = unit_now;
      source = if differs then "Multiple cited sources" else p.source;
      source_url = if differs then "" else p.source_url;
      fetched_at = later_time o.fetched_at p.fetched_at;
    }

unfoldable pub share_all : Provenance → List SampleObservation → Provenance
unfolding share
share_all p [] = p
share_all p (o ∷ os) = share_all (share p o) os

unfoldable pub shared_provenance : List SampleObservation → Result AggregateError Provenance
unfolding share_all
shared_provenance [] = panic
shared_provenance (o ∷ os) = ok (
    share_all
      (record { unit = o.unit; source = o.source; source_url = o.source_url; fetched_at = none })
      (o ∷ os))

-- What `aggregateField` sets before it looks at the values.
abbrev pub state_of : ℕ → Tally → String
state_of sample_count t =
    if not (t.ok_count == sample_count) || ltb 0 t.absent_count || ltb 0 t.failed_count
    then "PARTIAL"
    else "COMPLETE"

abbrev pub result_of : String → Text → Provenance → Tally → AggregateResult
result_of state value p t = record {
  state = state;
  value = value;
  unit = p.unit;
  source = p.source;
  source_url = p.source_url;
  fetched_at = p.fetched_at;
  ok_count = t.ok_count;
  absent_count = t.absent_count;
  failed_count = t.failed_count;
  sample_indices = t.sample_indices;
}

abbrev no_provenance : Provenance
no_provenance = record { unit = ""; source = ""; source_url = ""; fetched_at = none }

module _ (json : Json) where
  open json use {
    unmarshal_bool, decode_number, parse_float, is_valid, marshal, float_add, float_halve,
  }

  unfoldable pub any_true_from : Bool → List SampleObservation → Result String Bool
  any_true_from found [] = ok found
  any_true_from found (o ∷ os) = elim (unmarshal_bool o.value) [
    | none ↦ err "expected a boolean value"
    | some b ↦ any_true_from (found || b) os
  ]

  unfoldable pub numeric_value : SampleObservation → Result String Float
  numeric_value o = elim (decode_number o.value) [
    | none ↦ err "expected a numeric value"
    | some literal ↦ elim (parse_float literal) [
      | none ↦ err "expected a finite numeric value"
      | some x ↦ ok x
    ]
  ]

  unfoldable pub numeric_values : List SampleObservation → Result String (List Float)
  unfolding numeric_value
  numeric_values [] = ok []
  numeric_values (o ∷ os) = numeric_value o >>= λ x. numeric_values os >>= λ xs. ok (x ∷ xs)

  unfoldable pub numeric_boundary : List SampleObservation → Bool → Result String Float
  unfolding numeric_values sort_floats value_at
  numeric_boundary os is_minimum = numeric_values os >>= λ values.
      let sorted = sort_floats values in
      if is_minimum then value_at 0 sorted else value_at (length sorted - 1) sorted

  unfoldable pub median_of : List Float → Result String Float
  unfolding value_at
  median_of sorted =
      let middle = length sorted / 2 in
      value_at middle sorted >>= λ upper.
      if length sorted % 2 == 0
      then (value_at (middle - 1) sorted >>= λ lower. ok (float_halve (float_add lower upper)))
      else ok upper

  unfoldable pub numeric_range_of : List SampleObservation → Result String AggregateValue
  unfolding numeric_values sort_floats median_of
  numeric_range_of os = numeric_values os >>= λ values.
      let sorted = sort_floats values in
      median_of sorted >>= λ median. value_at 0 sorted >>= λ least.
      value_at (length sorted - 1) sorted >>= λ greatest. ok (range least greatest median)

  unfoldable pub count_all :
      List DistributionValue → List SampleObservation → Result String (List DistributionValue)
  unfolding count_key
  count_all counts [] = ok counts
  count_all counts (o ∷ os) =
      let rest = count_all (count_key o.value counts) os in
      if not (is_valid o.value) || text_eq (trim_space o.value) (codes "null")
      then err "expected a non-null category"
      else rest

  unfoldable pub distribution_of : List SampleObservation → Result String (List DistributionValue)
  unfolding count_all sort_values
  distribution_of os = count_all [] os >>= λ counts. ok (sort_values counts)

  unfoldable pub aggregate_values :
      AggregateMethod → List SampleObservation → Result String AggregateValue
  unfolding any_true_from numeric_boundary numeric_range_of distribution_of
  aggregate_values any_true os = any_true_from false os >>= λ b. ok (truth b)
  aggregate_values minimum os = numeric_boundary os true >>= λ x. ok (number x)
  aggregate_values maximum os = numeric_boundary os false >>= λ x. ok (number x)
  aggregate_values numeric_range os = numeric_range_of os
  aggregate_values distribution os = distribution_of os >>= λ ds. ok (categories ds)
  aggregate_values unsupported os = err "unsupported aggregation method"

  unfoldable pub encode_value : FieldSpec → AggregateValue → Result AggregateError Text
  encode_value spec value = elim (marshal value) [
    | none ↦ err (encode_failed spec.name)
    | some text ↦ ok text
  ]

  -- From the count on.
  unfoldable pub aggregate_tally : FieldSpec → ℕ → Tally → Result AggregateError AggregateResult
  unfolding shared_provenance aggregate_values encode_value
  aggregate_tally spec sample_count t =
      if t.ok_count == 0
      then ok (result_of "UNAVAILABLE" [] no_provenance t)
      else (shared_provenance t.available >>= λ p.
          map_err (aggregate_failed spec.name) (aggregate_values spec.method t.available)
          >>= λ value.
              encode_value spec value >>= λ text. ok (result_of (state_of sample_count t) text p t))

  unfoldable pub aggregate_field :
      FieldSpec → List SampleObservation → ℕ → Result AggregateError AggregateResult
  unfolding tally_from aggregate_tally
  aggregate_field spec observations sample_count = tally_from empty_tally observations >>= λ t.
      aggregate_tally spec sample_count (add_missing sample_count (length observations) t)
