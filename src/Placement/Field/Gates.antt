-- ===== src/Placement/Field/Gates.antt =====
-- Which fields pass the gates of `evaluateField`, and what an evaluated field carries.
use pfas_load_control.Base.{
  ◌≡◌, ◌≢◌, refl, sym, ◌∙◌, ap, Bool, true, false, not, none, [], String, Text, eq_iff, is_eq, ok,
  ◌>>=◌, >>=-eq-ok, ok-injective, Bool-cases, ◌⊎◌, inl, inr, arith, subst,
}
use pfas_load_control.Rat.{Rat, sign}
use pfas_load_control.Placement.Decimal.{format_rat}
use pfas_load_control.Placement.Model.{FieldInput, PlacementField}
use pfas_load_control.Placement.Model.Resolution.{Time}
use pfas_load_control.Placement.Facts.{
  Library, Facts, fact_map, at, bool_fact, exceeds_surface_slope_limit,
}
use pfas_load_control.Placement.Field.{
  is_eligible, Verified, resolution_of, gate, gated_field, lacks_quantity, usable_of, Verifier,
  verify_slope, capacity_of, add_capacity, finish_field, evaluate_field,
}

-- What a field needs before material may be put on it.
pub record PassesGates (lib : Library) (f : FieldInput) (m : Facts) (steep : Bool) (v : Verified)
    : Type 0 where
  pub status : f.status ≡ "READY"
  pub approved : f.rmp_approved ≡ true
  pub evaluated : f.physical_evaluation_id ≢ ""
  pub succeeded : f.physical_status ≡ "SUCCEEDED"
  pub no_critical_gap : f.physical_critical_gaps ≡ 0
  pub no_wetland : bool_fact lib (at m "intersects_wetland") ≡ false
  pub no_surface_water : bool_fact lib (at m "intersects_nhd_area") ≡ false
  pub slope_resolved : steep ≡ true → resolution_of v ≢ none
  pub usable : usable_of f v ≢ []
  pub rate : f.agronomic_rate ≢ []
  pub prior : f.prior_loading_dry_tons ≢ []

module _ (lib : Library) (f : FieldInput) (m : Facts) (steep : Bool) (v : Verified) where
  -- An eligible verdict, before the capacity is worked out, means that every gate is passed.
  pub gated_field-PassesGates :
      is_eligible (gated_field lib f m steep v).disposition ≡ true → PassesGates lib f m steep v
  unfolding gated_field gate lacks_quantity
  gated_field-PassesGates h = ground (
    arith,
    eq_iff f.status "READY",
    eq_iff f.physical_evaluation_id "",
    eq_iff f.physical_status "SUCCEEDED",
  )

  -- A field that passes every gate is eligible.
  pub PassesGates-gated_field :
      PassesGates lib f m steep v → is_eligible (gated_field lib f m steep v).disposition ≡ true
  unfolding gated_field gate lacks_quantity
  PassesGates-gated_field h = ground (
    arith,
    eq_iff f.status "READY",
    eq_iff f.physical_evaluation_id "",
    eq_iff f.physical_status "SUCCEEDED",
  )

-- The final touches change neither the disposition nor the quantities.
module _ (lib : Library) (m : Facts) (r : PlacementField) where
  finish_field_same :
      ((finish_field lib m r).disposition ≡ r.disposition)
      × ((finish_field lib m r).allowed_rate ≡ r.allowed_rate)
      × ((finish_field lib m r).available_capacity ≡ r.available_capacity)
  unfolding finish_field
  finish_field_same = ground arith

gated_capacity :
    (lib : Library) (f : FieldInput) (m : Facts) (steep : Bool) (v : Verified)
    → (gated_field lib f m steep v).available_capacity ≡ []
unfolding gated_field
gated_capacity lib f m steep v = refl

add_capacity_lem :
    (r : PlacementField) (q : Rat × Rat)
    → is_eligible r.disposition ≡ true
    → (is_eligible (add_capacity r q).disposition ≡ not (is_eq (sign q.1)))
      × ((add_capacity r q).allowed_rate ≡ format_rat q.0)
      × ((add_capacity r q).available_capacity ≡ format_rat q.1)
unfolding add_capacity
add_capacity_lem r q passed = ground arith

module _ (lib : Library) (verify : Verifier) (now : Time) (tier : String) (policy_rate : Text) where
  module _ (f : FieldInput) (as_of : Time) where
    -- The facts, the slope test and the verification that the evaluation of the field goes by.
    abbrev pub facts_of : Facts
    facts_of = fact_map f.facts

    abbrev pub is_steep : Bool
    is_steep = exceeds_surface_slope_limit lib facts_of

    abbrev pub verified_of : Verified
    verified_of = verify_slope verify now f is_steep as_of

    abbrev gated : PlacementField
    gated = gated_field lib f facts_of is_steep verified_of

    -- What an evaluated field carries: nothing to allocate, or a rate and a capacity worked out
    -- after every gate was passed, the capacity being positive if the field is still eligible.
    pub record IsCosted (r : PlacementField) : Type 0 where
      pub passes : PassesGates lib f facts_of is_steep verified_of
      pub allowed : Rat
      pub capacity : Rat
      pub worked_out :
          capacity_of lib tier policy_rate f (usable_of f verified_of) ≡ ok (allowed, capacity)
      pub rate_text : r.allowed_rate ≡ format_rat allowed
      pub capacity_text : r.available_capacity ≡ format_rat capacity
      pub still_eligible : is_eligible r.disposition ≡ not (is_eq (sign capacity))

    evaluate_field_passed :
        is_eligible gated.disposition ≡ true
        → evaluate_field lib verify now tier policy_rate f as_of ≡ (
            capacity_of lib tier policy_rate f (usable_of f verified_of) >>= λ q.
            ok (finish_field lib facts_of (add_capacity gated q)))
    unfolding evaluate_field
    evaluate_field_passed passed = rw passed

    evaluate_field_failed :
        is_eligible gated.disposition ≡ false
        → evaluate_field lib verify now tier policy_rate f as_of
          ≡ ok (finish_field lib facts_of gated)
    unfolding evaluate_field
    evaluate_field_failed failed = rw failed

    finished-IsCosted :
        (q : Rat × Rat)
        → is_eligible gated.disposition ≡ true
        → capacity_of lib tier policy_rate f (usable_of f verified_of) ≡ ok q
        → IsCosted (finish_field lib facts_of (add_capacity gated q))
    finished-IsCosted q passed worked =
        let (d, a, c) = finish_field_same lib facts_of (add_capacity gated q) in
        let (d', a', c') = add_capacity_lem gated q passed in
        record {
          passes = gated_field-PassesGates lib f facts_of is_steep verified_of passed;
          allowed = q.0;
          capacity = q.1;
          worked_out = worked;
          rate_text = a ∙ a';
          capacity_text = c ∙ c';
          still_eligible = ap is_eligible d ∙ d';
        }

    -- Every evaluated field is one or the other.
    pub evaluate_field_lem :
        {r : PlacementField}
        → evaluate_field lib verify now tier policy_rate f as_of ≡ ok r
        → ((is_eligible r.disposition ≡ false) × (r.available_capacity ≡ [])) ⊎ IsCosted r
    evaluate_field_lem {r} e = elim (Bool-cases (is_eligible gated.disposition)) [
      | inl passed ↦
          let (q, worked, rest) =
            >>=-eq-ok (capacity_of lib tier policy_rate f (usable_of f verified_of)) _
              (sym (evaluate_field_passed passed) ∙ e) in
          inr (subst IsCosted (ok-injective r rest) (finished-IsCosted q passed worked))
      | inr failed ↦
          let same = ok-injective r (sym (evaluate_field_failed failed) ∙ e) in
          let (d, a, c) = finish_field_same lib facts_of gated in
          inl (
            subst
              (λ (x : PlacementField).
                (is_eligible x.disposition ≡ false) × (x.available_capacity ≡ []))
              same
              (ap is_eligible d ∙ failed, c ∙ gated_capacity lib f facts_of is_steep verified_of))
    ]
