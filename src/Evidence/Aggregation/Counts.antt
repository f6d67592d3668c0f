-- ===== src/Evidence/Aggregation/Counts.antt =====
-- internal/evidence/aggregation.go, the counts and the state of an aggregate.
use pfas_load_control.Base.{
  ℕ, ◌+◌, ◌-◌, ◌<◌, ◌≡◌, refl, sym, ◌∙◌, subst, inl, inr, ◌↔◌, ◌==◌, List, map, All, length,
  if◌then◌else◌, Bool-cases, ok, ok-injective, >>=-eq-ok, map_err, arith,
}
use pfas_load_control.Evidence.Model.{FieldSpec, SampleObservation, AggregateResult, Json}
use pfas_load_control.Evidence.Aggregation.{
  Tally, tally_from, empty_tally, add_missing, state_of, shared_provenance, aggregate_values,
  encode_value, aggregate_failed, aggregate_tally, aggregate_field,
}
use pfas_load_control.Evidence.Aggregation.Tallies.{
  available_of, count_of, tally_from-IsTally, IsOk, available_of-full, available_of-All,
}
use pfas_load_control.Evidence.Aggregation.States.{final_state_unavailable, final_state_complete}

-- What a result says of the tally that it was made from.
abbrev pub FitsTally : ℕ → Tally → AggregateResult → Type 0
FitsTally sample_count t r =
    (r.sample_indices ≡ t.sample_indices)
    × (r.ok_count ≡ t.ok_count)
    × (r.absent_count ≡ t.absent_count)
    × (r.failed_count ≡ t.failed_count)
    × (r.state ≡ (if t.ok_count == 0 then "UNAVAILABLE" else state_of sample_count t))

module _ (json : Json) (spec : FieldSpec) (n : ℕ) where
  aggregate_tally-FitsTally :
      (t : Tally) {r : AggregateResult} → aggregate_tally json spec n t ≡ ok r → FitsTally n t r
  unfolding aggregate_tally
  aggregate_tally-FitsTally t {r} h = elim (Bool-cases (t.ok_count == 0)) [
    | inl none_ok ↦ rw none_ok (
        subst
          (λ (z : AggregateResult).
            (z.sample_indices ≡ t.sample_indices)
            × (z.ok_count ≡ t.ok_count)
            × (z.absent_count ≡ t.absent_count)
            × (z.failed_count ≡ t.failed_count)
            × (z.state ≡ "UNAVAILABLE"))
          (ok-injective r (rw none_ok at h)) (refl, refl, refl, refl, refl))
    | inr some_ok ↦
        let (p, e1, h1) = >>=-eq-ok (shared_provenance t.available) _ (rw some_ok at h) in
        let (value, e2, h2) =
          >>=-eq-ok
            (map_err (aggregate_failed spec.name) (aggregate_values json spec.method t.available)) _
            h1 in
        let (text, e3, h3) = >>=-eq-ok (encode_value json spec value) _ h2 in
        rw some_ok (
          subst
            (λ (z : AggregateResult).
              (z.sample_indices ≡ t.sample_indices)
              × (z.ok_count ≡ t.ok_count)
              × (z.absent_count ≡ t.absent_count)
              × (z.failed_count ≡ t.failed_count)
              × (z.state ≡ state_of n t))
            (ok-injective r h3) (refl, refl, refl, refl, refl))
  ]

-- The counts add up, and the state is what the observations say.
abbrev pub IsCounted : ℕ → List SampleObservation → AggregateResult → Type 0
IsCounted n os r =
    (r.sample_indices ≡ map (λ (o : SampleObservation). o.index) (available_of os))
    × (r.ok_count ≡ length (available_of os))
    × (r.absent_count ≡ count_of "absent" os)
    × (r.failed_count ≡ count_of "failed" os + (n - length os))
    × (r.ok_count + r.absent_count + r.failed_count ≡ length os + (n - length os))
    × ((r.state ≡ "UNAVAILABLE") ↔ (r.ok_count ≡ 0))
    × ((r.state ≡ "COMPLETE") ↔ ((0 < length os) × (length os ≡ n) × All IsOk os))

-- An aggregate that is made has the indices and the number of the observations with a value, the
-- number of those that are absent, and as failed those that failed and the samples without an
-- observation, so that the three numbers add up to the larger of the observations and the
-- samples. It is unavailable exactly where no observation has a value, and complete exactly
-- where there is an observation, there are as many as samples, and all of them have a value.
pub aggregate_field-IsCounted :
    (json : Json) (spec : FieldSpec) (n : ℕ) (os : List SampleObservation) {r : AggregateResult}
    → aggregate_field json spec os n ≡ ok r
    → IsCounted n os r
unfolding aggregate_field
aggregate_field-IsCounted json spec n os {r} h =
    let (t, counted, made) = >>=-eq-ok (tally_from empty_tally os) _ h in
    let (all, indices, oks, absents, faileds, sum) = tally_from-IsTally empty_tally os counted in
    let (e1, e2, e3, e4, e5) =
      aggregate_tally-FitsTally json spec n (add_missing n (length os) t) made in
    let unavailable =
      final_state_unavailable n t.ok_count t.absent_count (t.failed_count + (n - length os)) in
    let complete =
      final_state_complete n t.ok_count t.absent_count (t.failed_count + (n - length os)) in
    (
      e1 ∙ indices,
      omega arith,
      omega arith,
      omega arith,
      omega arith,
      (λ s. e2 ∙ unavailable.0 (sym e5 ∙ s), λ e. e5 ∙ unavailable.1 (sym e2 ∙ e)),
      (
        λ s.
            let (positive, full, no_absent, no_failed) = complete.0 (sym e5 ∙ s) in
            (omega arith, omega arith, available_of-full os (omega arith)),
        λ (positive, full, all_ok).
            let every = available_of-All os all_ok in
            e5 ∙ complete.1 (omega arith, omega arith, omega arith, omega arith),
      ),
    )
