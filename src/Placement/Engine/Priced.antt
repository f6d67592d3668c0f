-- ===== src/Placement/Engine/Priced.antt =====
-- The fields of a plan carry prints of their capacities and rates.
use pfas_load_control.Base.{
  ◌≡◌, ◌∙◌, [], ◌∷◌, List, String, Text, map_err, map_err_ok, All, ok, >>=-eq-ok, ok-injective, inl,
  inr, subst,
}
use pfas_load_control.Rat.{micro}
use pfas_load_control.Placement.Decimal.{field_error}
use pfas_load_control.Placement.Decimal.RoundTrip.{format_rat-micro}
use pfas_load_control.Placement.Model.{FieldInput, Input, PlacementField}
use pfas_load_control.Placement.Model.Resolution.{Time}
use pfas_load_control.Placement.Facts.{Library}
use pfas_load_control.Placement.Field.{Verifier, evaluate_field, usable_of}
use pfas_load_control.Placement.Field.Gates.{evaluate_field_lem, verified_of}
use pfas_load_control.Placement.Field.Capacity.{capacity_of_lem}
use pfas_load_control.Placement.Rank.Kept.{rank_fields-All}
use pfas_load_control.Placement.Allocate.Micro.{IsPriced}
use pfas_load_control.Placement.Engine.{evaluate_fields, ranked_fields}

module _ (lib : Library) (verify : Verifier) (now : Time) where
  evaluate_field-IsPriced :
      (tier : String) (policy_rate : Text) (f : FieldInput) (as_of : Time) {r : PlacementField}
      → evaluate_field lib verify now tier policy_rate f as_of ≡ ok r
      → IsPriced r
  evaluate_field-IsPriced tier policy_rate f as_of {r} e =
      elim (evaluate_field_lem lib verify now tier policy_rate f as_of e) [
        | inl (no_verdict, nothing) ↦ inl nothing
        | inr costed ↦
            let worked =
              capacity_of_lem lib tier policy_rate f
                (usable_of f (verified_of lib verify now tier policy_rate f as_of))
                costed.worked_out in
            inr (
              micro costed.capacity,
              micro costed.allowed,
              costed.capacity_text ∙ format_rat-micro costed.capacity worked.nonneg.0,
              costed.rate_text ∙ format_rat-micro costed.allowed worked.rate.positive.0,
            )
      ]

  evaluate_fields-IsPriced :
      (input : Input) (fs : List FieldInput) {rs : List PlacementField}
      → evaluate_fields lib verify now input fs ≡ ok rs
      → All IsPriced rs
  unfolding evaluate_fields
  evaluate_fields-IsPriced input [] {rs} e = subst (All IsPriced) (ok-injective rs e) tt
  evaluate_fields-IsPriced input (f ∷ fs) {rs} e =
      let (r, e1, e2) =
        >>=-eq-ok
          (map_err (field_error f.name)
            (evaluate_field lib verify now input.tier input.policy_rate f input.evidence_as_of))
          _ e in
      let (later, e3, e4) = >>=-eq-ok (evaluate_fields lib verify now input fs) _ e2 in
      subst (All IsPriced) (ok-injective rs e4) (
        evaluate_field-IsPriced input.tier input.policy_rate f input.evidence_as_of
            (map_err_ok (field_error f.name) _ e1),
        evaluate_fields-IsPriced input fs e3,
      )

  pub ranked_fields-IsPriced :
      (input : Input) {fs : List PlacementField}
      → ranked_fields lib verify now input ≡ ok fs
      → All IsPriced fs
  unfolding ranked_fields
  ranked_fields-IsPriced input {fs} e =
      let (rs, e1, e2) = >>=-eq-ok (evaluate_fields lib verify now input input.fields) _ e in
      subst (All IsPriced) (ok-injective fs e2) (
        rank_fields-All lib.set_string IsPriced (λ f r p. p) (λ f c p. p) rs
          (evaluate_fields-IsPriced input input.fields e1))
