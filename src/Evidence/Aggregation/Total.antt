-- ===== src/Evidence/Aggregation/Total.antt =====
-- internal/evidence/aggregation.go: no aggregate reads out of range.
use pfas_load_control.Base.{
  ℕ, zero, suc, ◌-◌, ◌/◌, ◌%◌, ◌<◌, ◌≡◌, refl, sym, ◌∙◌, ap, inl, inr, ◌⊎◌, Bool, true, false, not,
  ◌||◌, ◌==◌, List, [], ◌∷◌, length, str_eq, text_eq, trim_space, codes, if◌then◌else◌, Bool-cases,
  Option-cases, ok, ok-injective, ◌>>=◌, >>=-eq-ok, >>=-is_panic, is_panic, map_err,
  map_err-is_panic, arith,
}
use pfas_load_control.Placement.Model.Resolution.{Float}
use pfas_load_control.Evidence.Model.{
  AggregateMethod, any_true, minimum, maximum, numeric_range, distribution, unsupported, FieldSpec,
  SampleObservation, DistributionValue, AggregateValue, aggregate_failed, Json,
}
use pfas_load_control.Evidence.Aggregation.{
  Tally, tally_step, tally_from, empty_tally, add_missing, value_at, insert_float, sort_floats,
  count_key, count_all, distribution_of, any_true_from, numeric_value, numeric_values,
  numeric_boundary, median_of, numeric_range_of, aggregate_values, encode_value, shared_provenance,
  aggregate_tally, aggregate_field,
}
use pfas_load_control.Evidence.Aggregation.Tallies.{available_of, tally_from-IsTally}

pub length-insert_float :
    (x : Float) (xs : List Float) → length (insert_float x xs) ≡ suc (length xs)
unfolding insert_float
length-insert_float x [] = refl
length-insert_float x (y ∷ ys) = ground (arith, length-insert_float x ys)

pub length-sort_floats : (xs : List Float) → length (sort_floats xs) ≡ length xs
unfolding sort_floats
length-sort_floats [] = refl
length-sort_floats (x ∷ xs) =
    length-insert_float x (sort_floats xs) ∙ ap (λ (n : ℕ). suc n) (length-sort_floats xs)

value_at_total : (i : ℕ) (xs : List Float) → i < length xs → is_panic (value_at i xs) ≡ false
unfolding value_at
value_at_total i [] h = ground arith
value_at_total zero (x ∷ xs) h = refl
value_at_total (suc i) (x ∷ xs) h = value_at_total i xs (omega arith)

module _ (json : Json) where
  any_true_from_total :
      (found : Bool) (os : List SampleObservation) → is_panic (any_true_from json found os) ≡ false
  unfolding any_true_from
  any_true_from_total found [] = refl
  any_true_from_total found (o ∷ os) = elim (Option-cases (json.unmarshal_bool o.value)) [
    | inl missing ↦ rw (any_true_from, missing) refl
    | inr (b, read) ↦ rw (any_true_from, read) (any_true_from_total (found || b) os)
  ]

  numeric_value_total : (o : SampleObservation) → is_panic (numeric_value json o) ≡ false
  unfolding numeric_value
  numeric_value_total o = elim (Option-cases (json.decode_number o.value)) [
    | inl missing ↦ rw (numeric_value, missing) refl
    | inr (literal, decoded) ↦ elim (Option-cases (json.parse_float literal)) [
      | inl missing ↦ rw (numeric_value, decoded, missing) refl
      | inr (x, parsed) ↦ rw (numeric_value, decoded, parsed) refl
    ]
  ]

  numeric_values_total : (os : List SampleObservation) → is_panic (numeric_values json os) ≡ false
  unfolding numeric_values
  numeric_values_total [] = refl
  numeric_values_total (o ∷ os) =
      >>=-is_panic (numeric_value json o) _ (numeric_value_total o)
        (λ x e. >>=-is_panic (numeric_values json os) _ (numeric_values_total os) (λ xs e2. refl))

  pub length-numeric_values :
      (os : List SampleObservation) {xs : List Float}
      → numeric_values json os ≡ ok xs
      → length xs ≡ length os
  unfolding numeric_values
  length-numeric_values [] {xs} h = ap (λ (ys : List Float). length ys) (sym (ok-injective xs h))
  length-numeric_values (o ∷ os) {xs} h =
      let (x, e1, h1) = >>=-eq-ok (numeric_value json o) _ h in
      let (rest, e2, h2) = >>=-eq-ok (numeric_values json os) _ h1 in
      ap (λ (ys : List Float). length ys) (sym (ok-injective xs h2))
      ∙ ap (λ (n : ℕ). suc n) (length-numeric_values os e2)

  sorted_length :
      (os : List SampleObservation) {xs : List Float}
      → 0 < length os
      → numeric_values json os ≡ ok xs
      → 0 < length (sort_floats xs)
  sorted_length os {xs} h e =
      let sorted = length-sort_floats xs in let read = length-numeric_values os e in omega arith

  numeric_boundary_total :
      (os : List SampleObservation) (is_minimum : Bool)
      → 0 < length os
      → is_panic (numeric_boundary json os is_minimum) ≡ false
  unfolding numeric_boundary
  numeric_boundary_total os is_minimum h =
      >>=-is_panic (numeric_values json os) _ (numeric_values_total os)
        (λ xs e. end_total is_minimum (sort_floats xs) (sorted_length os h e))
    where
      end_total :
          (is_minimum : Bool) (xs : List Float)
          → 0 < length xs
          → is_panic (if is_minimum then value_at 0 xs else value_at (length xs - 1) xs) ≡ false
      end_total true xs k = value_at_total 0 xs k
      end_total false xs k = value_at_total (length xs - 1) xs (omega arith)

  median_of_total : (xs : List Float) → 0 < length xs → is_panic (median_of json xs) ≡ false
  unfolding median_of
  median_of_total xs h =
      >>=-is_panic (value_at (length xs / 2) xs) _ (value_at_total (length xs / 2) xs (omega arith))
        (λ upper e. lower_total upper (Bool-cases (length xs % 2 == 0)))
    where
      lower_total :
          (upper : Float)
          → ((length xs % 2 == 0) ≡ true) ⊎ ((length xs % 2 == 0) ≡ false)
          → is_panic (
              if length xs % 2 == 0
              then (value_at (length xs / 2 - 1) xs >>= λ lower.
                  ok (json.float_halve (json.float_add lower upper)))
              else ok upper)
            ≡ false
      lower_total upper (inl even) = rw even (
          >>=-is_panic (value_at (length xs / 2 - 1) xs) _
            (value_at_total (length xs / 2 - 1) xs (omega arith)) (λ lower e. refl))
      lower_total upper (inr odd) = rw odd refl

  numeric_range_of_total :
      (os : List SampleObservation) → 0 < length os → is_panic (numeric_range_of json os) ≡ false
  unfolding numeric_range_of
  numeric_range_of_total os h =
      >>=-is_panic (numeric_values json os) _ (numeric_values_total os) (λ xs e.
        let positive = sorted_length os h e in
        >>=-is_panic (median_of json (sort_floats xs)) _ (median_of_total (sort_floats xs) positive)
          (λ median e1.
            >>=-is_panic (value_at 0 (sort_floats xs)) _
              (value_at_total 0 (sort_floats xs) positive)
              (λ least e2.
                >>=-is_panic (value_at (length (sort_floats xs) - 1) (sort_floats xs)) _
                  (value_at_total (length (sort_floats xs) - 1) (sort_floats xs) (omega arith))
                  (λ greatest e3. refl))))

  count_all_total :
      (counts : List DistributionValue) (os : List SampleObservation)
      → is_panic (count_all json counts os) ≡ false
  unfolding count_all
  count_all_total counts [] = refl
  count_all_total counts (o ∷ os) =
      elim (Bool-cases
        (not (json.is_valid o.value) || text_eq (trim_space o.value) (codes "null"))) [
          | inl refused ↦ rw (count_all, refused) refl
          | inr counted ↦ rw (count_all, counted) (count_all_total (count_key o.value counts) os)
        ]

  aggregate_values_total :
      (method : AggregateMethod) (os : List SampleObservation)
      → 0 < length os
      → is_panic (aggregate_values json method os) ≡ false
  unfolding aggregate_values distribution_of
  aggregate_values_total any_true os h =
      >>=-is_panic (any_true_from json false os) _ (any_true_from_total false os) (λ b e. refl)
  aggregate_values_total minimum os h =
      >>=-is_panic (numeric_boundary json os true) _ (numeric_boundary_total os true h)
        (λ x e. refl)
  aggregate_values_total maximum os h =
      >>=-is_panic (numeric_boundary json os false) _ (numeric_boundary_total os false h)
        (λ x e. refl)
  aggregate_values_total numeric_range os h = numeric_range_of_total os h
  aggregate_values_total distribution os h =
      >>=-is_panic (distribution_of json os) _
        (>>=-is_panic (count_all json [] os) _ (count_all_total [] os) (λ counts e. refl))
        (λ ds e. refl)
  aggregate_values_total unsupported os h = refl

  shared_provenance_total :
      (os : List SampleObservation) → 0 < length os → is_panic (shared_provenance os) ≡ false
  unfolding shared_provenance
  shared_provenance_total [] h = ground arith
  shared_provenance_total (o ∷ os) h = refl

  encode_value_total :
      (spec : FieldSpec) (v : AggregateValue) → is_panic (encode_value json spec v) ≡ false
  unfolding encode_value
  encode_value_total spec v = elim (Option-cases (json.marshal v)) [
    | inl missing ↦ rw (encode_value, missing) refl
    | inr (text, encoded) ↦ rw (encode_value, encoded) refl
  ]

  aggregate_tally_total :
      (spec : FieldSpec) (n : ℕ) (t : Tally)
      → t.ok_count ≡ length t.available
      → is_panic (aggregate_tally json spec n t) ≡ false
  unfolding aggregate_tally
  aggregate_tally_total spec n t same = elim (Bool-cases (t.ok_count == 0)) [
    | inl nothing ↦ rw nothing refl
    | inr something ↦
        let positive : 0 < length t.available = ground arith in
        rw something (
          >>=-is_panic (shared_provenance t.available) _
            (shared_provenance_total t.available positive)
            (λ p e1.
              >>=-is_panic
                (map_err (aggregate_failed spec.name)
                  (aggregate_values json spec.method t.available))
                _
                (map_err-is_panic (aggregate_failed spec.name) _
                  (aggregate_values_total spec.method t.available positive))
                (λ value e2.
                  >>=-is_panic (encode_value json spec value) _ (encode_value_total spec value)
                    (λ text e3. refl))))
  ]

tally_step_total : (t : Tally) (o : SampleObservation) → is_panic (tally_step t o) ≡ false
unfolding tally_step
tally_step_total t o = elim (Bool-cases (str_eq o.status "ok")) [
  | inl is_ok ↦ rw is_ok refl
  | inr not_ok ↦ elim (Bool-cases (str_eq o.status "absent")) [
    | inl is_absent ↦ rw (not_ok, is_absent) refl
    | inr not_absent ↦ elim (Bool-cases (str_eq o.status "failed")) [
      | inl is_failed ↦ rw (not_ok, not_absent, is_failed) refl
      | inr unknown ↦ rw (not_ok, not_absent, unknown) refl
    ]
  ]
]

tally_from_total : (t : Tally) (os : List SampleObservation) → is_panic (tally_from t os) ≡ false
unfolding tally_from
tally_from_total t [] = refl
tally_from_total t (o ∷ os) =
    >>=-is_panic (tally_step t o) _ (tally_step_total t o) (λ next e. tally_from_total next os)

-- An aggregation never panics, whatever the field, the observations and the number of samples:
-- it returns an aggregate or an error.
pub aggregate_field_total :
    (json : Json) (spec : FieldSpec) (os : List SampleObservation) (n : ℕ)
    → is_panic (aggregate_field json spec os n) ≡ false
unfolding aggregate_field
aggregate_field_total json spec os n =
    >>=-is_panic (tally_from empty_tally os) _ (tally_from_total empty_tally os) (λ t e.
      let (all, indices, oks, absents, faileds, sum) = tally_from-IsTally empty_tally os e in
      let sizes : length t.available ≡ length (available_of os) =
        ap (λ (available : List SampleObservation). length available) all in
      aggregate_tally_total json spec n (add_missing n (length os) t) (omega arith))
