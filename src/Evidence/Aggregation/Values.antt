-- ===== src/Evidence/Aggregation/Values.antt =====
-- internal/evidence/aggregation.go: the value of an aggregate, by its method.
use pfas_load_control.Base.{
  ℕ, suc, ◌-◌, ◌<◌, ◌≡◌, refl, sym, ◌∙◌, ap, subst, inl, inr, Bool, true, false, ◌||◌, ◌==◌,
  ==-true, ◌≤◌, none, some, List, [], ◌∷◌, any, Ordered, length, String, Text, Bool-cases,
  Option-cases, Result, panic, ok, err, ok-injective, >>=-eq-ok, map_err, arith,
}
use pfas_load_control.Placement.Model.Resolution.{Float}
use pfas_load_control.Evidence.Model.{
  AggregateMethod, any_true, minimum, maximum, numeric_range, distribution, unsupported, FieldSpec,
  SampleObservation, AggregateResult, DistributionValue, AggregateValue, truth, number, range,
  categories, AggregateError, aggregate_failed, Json,
}
use pfas_load_control.Evidence.Aggregation.{
  Provenance, Tally, tally_from, empty_tally, add_missing, any_true_from, numeric_value,
  numeric_values, numeric_boundary, sort_floats, value_at, median_of, numeric_range_of,
  distribution_of, aggregate_values, encode_value, shared_provenance, aggregate_tally,
  aggregate_field,
}
use pfas_load_control.Evidence.Aggregation.Tallies.{available_of, tally_from-IsTally}
use pfas_load_control.Evidence.Aggregation.Boundary.{
  IsBoundary, sort_floats-IsBoundary, numeric_values-IsNumber, numeric_boundary-IsBoundary,
}
use pfas_load_control.Evidence.Aggregation.Median.{IsMedian, median_of-IsMedian}
use pfas_load_control.Evidence.Aggregation.Keys.{ValuesRise}
use pfas_load_control.Evidence.Aggregation.Categories.{
  occurrences, counted, distribution_of-Ordered,
}

-- Is the value of the observation the JSON `true`?
abbrev pub is_true : Json → SampleObservation → Bool
is_true json o = elim (json.unmarshal_bool o.value) [ none ↦ false | some b ↦ b ]

-- The numbers are those of the observations' JSON literals, in their order.
abbrev pub IsRead : Json → List SampleObservation → List Float → Type 0
IsRead json [] [] = Unit
IsRead json [] (x ∷ xs) = ⊥
IsRead json (o ∷ os) [] = ⊥
IsRead json (o ∷ os) (x ∷ xs) =
    ((literal : Text) × (json.decode_number o.value ≡ some literal)
      × (json.parse_float literal ≡ some x))
    × IsRead json os xs

-- What the value of an aggregate says of the observations.
abbrev pub IsAggregate : Json → AggregateMethod → List SampleObservation → AggregateValue → Type 0
IsAggregate json any_true os v = v ≡ truth (any (is_true json) os)
IsAggregate json minimum os v =
    (x : Float) × (v ≡ number x) × ((xs : List Float) × IsRead json os xs × IsBoundary true xs x)
IsAggregate json maximum os v =
    (x : Float) × (v ≡ number x) × ((xs : List Float) × IsRead json os xs × IsBoundary false xs x)
IsAggregate json numeric_range os v =
    (least : Float) × (greatest : Float) × (median : Float) × (v ≡ range least greatest median)
    × ((xs : List Float) × IsRead json os xs
        × IsBoundary true xs least
        × IsBoundary false xs greatest
        × IsMedian json xs median)
IsAggregate json distribution os v =
    (ds : List DistributionValue) × (v ≡ categories ds)
    × Ordered ValuesRise ds
    × ((k : Text) → counted k ds ≡ occurrences k os)
IsAggregate json unsupported os v = ⊥

module _ (json : Json) where
  any_true_from-any :
      (found : Bool) (os : List SampleObservation) {b : Bool}
      → any_true_from json found os ≡ ok b
      → b ≡ (found || any (is_true json) os)
  unfolding any_true_from
  any_true_from-any found [] {b} h = sym (ok-injective b h) ∙ or_none found
    where
      or_none : (a : Bool) → a ≡ (a || false)
      or_none a = ground arith
  any_true_from-any found (o ∷ os) {b} h = elim (Option-cases (json.unmarshal_bool o.value)) [
    | inl missing ↦
        let absurd : ◌≡◌ {A = Result String Bool} (err _) (ok b) =
          rw (any_true_from, missing) at h in
        cc
    | inr (c, read) ↦
        let truth_is : c ≡ is_true json o = rw (is_true, read) refl in
        any_true_from-any (found || c) os (rw (any_true_from, read) at h)
        ∙ or_assoc found c (any (is_true json) os)
        ∙ ap (λ (d : Bool). found || (d || any (is_true json) os)) truth_is
  ]
    where
      or_assoc : (a c d : Bool) → ((a || c) || d) ≡ (a || (c || d))
      or_assoc a c d = ground arith

  numeric_value-read :
      (o : SampleObservation) {x : Float}
      → numeric_value json o ≡ ok x
      → (literal : Text) × (json.decode_number o.value ≡ some literal)
        × (json.parse_float literal ≡ some x)
  unfolding numeric_value
  numeric_value-read o {x} h = elim (Option-cases (json.decode_number o.value)) [
    | inl missing ↦
        let absurd : ◌≡◌ {A = Result String Float} (err _) (ok x) =
          rw (numeric_value, missing) at h in
        cc
    | inr (literal, decoded) ↦ elim (Option-cases (json.parse_float literal)) [
      | inl missing ↦
          let absurd : ◌≡◌ {A = Result String Float} (err _) (ok x) =
            rw (numeric_value, decoded, missing) at h in
          cc
      | inr (y, parsed) ↦
          let same = ok-injective x (rw (numeric_value, decoded, parsed) at h) in
          (literal, decoded, parsed ∙ ap (λ (z : Float). some z) same)
    ]
  ]

  numeric_values-IsRead :
      (os : List SampleObservation) {xs : List Float}
      → numeric_values json os ≡ ok xs
      → IsRead json os xs
  unfolding numeric_values
  numeric_values-IsRead [] {xs} h = subst (IsRead json []) (ok-injective xs h) tt
  numeric_values-IsRead (o ∷ os) {xs} h =
      let (x, e1, h1) = >>=-eq-ok (numeric_value json o) _ h in
      let (rest, e2, h2) = >>=-eq-ok (numeric_values json os) _ h1 in
      subst (IsRead json (o ∷ os)) (ok-injective xs h2)
        (numeric_value-read o e1, numeric_values-IsRead os e2)

  numeric_range-IsAggregate :
      (os : List SampleObservation) {v : AggregateValue}
      → numeric_range_of json os ≡ ok v
      → IsAggregate json numeric_range os v
  unfolding numeric_range_of
  numeric_range-IsAggregate os {v} h =
      let (xs, read, h1) = >>=-eq-ok (numeric_values json os) _ h in
      let (median, e1, h2) = >>=-eq-ok (median_of json (sort_floats xs)) _ h1 in
      let (least, e2, h3) = >>=-eq-ok (value_at 0 (sort_floats xs)) _ h2 in
      let (greatest, e3, h4) =
        >>=-eq-ok (value_at (length (sort_floats xs) - 1) (sort_floats xs)) _ h3 in
      let numbers = numeric_values-IsNumber json os read in
      (
        least,
        greatest,
        median,
        sym (ok-injective v h4),
        (
          xs,
          numeric_values-IsRead os read,
          sort_floats-IsBoundary true xs numbers e2,
          sort_floats-IsBoundary false xs numbers e3,
          median_of-IsMedian json xs numbers e1,
        ),
      )

  aggregate_values-IsAggregate :
      (method : AggregateMethod) (os : List SampleObservation) {v : AggregateValue}
      → aggregate_values json method os ≡ ok v
      → IsAggregate json method os v
  unfolding aggregate_values
  aggregate_values-IsAggregate any_true os {v} h =
      let (b, found, h1) = >>=-eq-ok (any_true_from json false os) _ h in
      sym (ok-injective v h1) ∙ ap (λ (c : Bool). truth c) (any_true_from-any false os found)
  aggregate_values-IsAggregate minimum os {v} h =
      let (x, found, h1) = >>=-eq-ok (numeric_boundary json os true) _ h in
      let (xs, read, bound) = numeric_boundary-IsBoundary json os true found in
      (x, sym (ok-injective v h1), (xs, numeric_values-IsRead os read, bound))
  aggregate_values-IsAggregate maximum os {v} h =
      let (x, found, h1) = >>=-eq-ok (numeric_boundary json os false) _ h in
      let (xs, read, bound) = numeric_boundary-IsBoundary json os false found in
      (x, sym (ok-injective v h1), (xs, numeric_values-IsRead os read, bound))
  aggregate_values-IsAggregate numeric_range os h = numeric_range-IsAggregate os h
  aggregate_values-IsAggregate distribution os {v} h =
      let (ds, found, h1) = >>=-eq-ok (distribution_of json os) _ h in
      let (rises, counts) = distribution_of-Ordered json os found in
      (ds, sym (ok-injective v h1), rises, counts)
  aggregate_values-IsAggregate unsupported os h = cc

  encode_value-marshal :
      (spec : FieldSpec) (v : AggregateValue) {text : Text}
      → encode_value json spec v ≡ ok text
      → json.marshal v ≡ some text
  unfolding encode_value
  encode_value-marshal spec v {text} h = elim (Option-cases (json.marshal v)) [
    | inl missing ↦
        let absurd : ◌≡◌ {A = Result AggregateError Text} (err _) (ok text) =
          rw (encode_value, missing) at h in
        cc
    | inr (t, encoded) ↦
        encoded ∙ ap (λ (u : Text). some u) (ok-injective text (rw (encode_value, encoded) at h))
  ]

abbrev pub provenance_of : AggregateResult → Provenance
provenance_of r = record {
  unit = r.unit;
  source = r.source;
  source_url = r.source_url;
  fetched_at = r.fetched_at;
}

-- The value of a result is the encoding of an aggregate of the observations, whose provenance it has.
abbrev pub HasValue : Json → AggregateMethod → List SampleObservation → AggregateResult → Type 0
HasValue json method os r =
    ((v : AggregateValue) × IsAggregate json method os v × (json.marshal v ≡ some r.value))
    × (shared_provenance os ≡ ok (provenance_of r))

map_err-ok :
    {F : Type 0} (wrap : String → F) (m : Result String AggregateValue) {v : AggregateValue}
    → map_err wrap m ≡ ok v
    → m ≡ ok v
map_err-ok wrap panic h = cc
map_err-ok wrap (err failure) h = cc
map_err-ok wrap (ok x) {v} h = ap (λ (y : AggregateValue). ok y) (ok-injective v h)

aggregate_tally-HasValue :
    (json : Json) (spec : FieldSpec) (n : ℕ) (t : Tally) {r : AggregateResult}
    → aggregate_tally json spec n t ≡ ok r
    → 0 < r.ok_count
    → HasValue json spec.method t.available r
unfolding aggregate_tally
aggregate_tally-HasValue json spec n t {r} h positive = elim (Bool-cases (t.ok_count == 0)) [
  | inl nothing ↦
      let count_is : t.ok_count ≡ r.ok_count =
        ap (λ (z : AggregateResult). z.ok_count) (ok-injective r (rw nothing at h)) in
      let zero_count = ==-true t.ok_count 0 nothing in
      let absurd : suc r.ok_count ≤ r.ok_count = omega arith in elim (no_less r.ok_count absurd) [ ]
  | inr something ↦
      let (p, shared, h1) = >>=-eq-ok (shared_provenance t.available) _ (rw something at h) in
      let (v, made, h2) =
        >>=-eq-ok
          (map_err (aggregate_failed spec.name) (aggregate_values json spec.method t.available)) _
          h1 in
      let (text, encoded, h3) = >>=-eq-ok (encode_value json spec v) _ h2 in
      subst (HasValue json spec.method t.available) (ok-injective r h3) (
        (
          v,
          aggregate_values-IsAggregate json spec.method t.available
              (map_err-ok (aggregate_failed spec.name) _ made),
          encode_value-marshal json spec v encoded,
        ),
        shared,
      )
]
  where
    no_less : (m : ℕ) → suc m ≤ m → ⊥
    no_less m k = omega arith

-- An aggregate of at least one observation with a value has their provenance, and its value
-- encodes, by the method of the field: whether one of them is true; the least or the greatest of
-- their numbers, or both with their median, which is the middle one of the numbers in their
-- order, or of an even number of them the halved sum of the two in the middle; or their values
-- in the strict order of the texts, with for each the number of the observations that have it.
-- Only these five methods give an aggregate.
pub aggregate_field-HasValue :
    (json : Json) (spec : FieldSpec) (os : List SampleObservation) (n : ℕ) {r : AggregateResult}
    → aggregate_field json spec os n ≡ ok r
    → 0 < r.ok_count
    → HasValue json spec.method (available_of os) r
unfolding aggregate_field
aggregate_field-HasValue json spec os n {r} h positive =
    let (t, read, made) = >>=-eq-ok (tally_from empty_tally os) _ h in
    let (all, indices, oks, absents, faileds, sum) = tally_from-IsTally empty_tally os read in
    subst (λ (available : List SampleObservation). HasValue json spec.method available r) all
      (aggregate_tally-HasValue json spec n (add_missing n (length os) t) made positive)
