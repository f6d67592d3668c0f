-- ===== src/Placement/Field/Eligible.antt =====
-- internal/placement/engine.go, `evaluateField`: what an eligible field has behind it.
use mathlib.Core.Bool.{false≢true}
use pfas_load_control.Base.{
  ◌≡◌, sym, ◌∙◌, Bool, true, not, String, Text, is_eq, ok, inl, inr, arith,
}
use pfas_load_control.Rat.{Rat, sign, IsNonneg}
use pfas_load_control.Placement.Model.{FieldInput, PlacementField}
use pfas_load_control.Placement.Model.Resolution.{Time}
use pfas_load_control.Placement.Facts.{Library, Facts}
use pfas_load_control.Placement.Field.{
  Verifier, Verified, is_eligible, evaluate_field, gated_field, usable_of,
}
use pfas_load_control.Placement.Field.Gates.{
  IsCosted, verified_of, evaluate_field_lem, PassesGates, gated_field-PassesGates,
  PassesGates-gated_field,
}
use pfas_load_control.Placement.Field.Capacity.{IsPositive, IsWorkedOut, capacity_of_lem}

capacity-IsPositive : (x : Rat) → IsNonneg x → not (is_eq (sign x)) ≡ true → IsPositive x
unfolding sign
capacity-IsPositive x h e = ground arith

module _ (lib : Library) (verify : Verifier) (now : Time) (tier : String) (policy_rate : Text)
    (f : FieldInput) (as_of : Time) where
  -- A field that is evaluated as eligible has passed every gate: it is ready and its RMP
  -- approved, its physical evaluation succeeded with no critical gap, no wetland or surface
  -- water is mapped in it, a slope over the limit was resolved, and the three quantities are
  -- given. It carries the prints of a rate and of a capacity: the rate is positive, at most the
  -- agronomic one and in the ELEVATED tier at most the rate of the policy, and the agronomic one
  -- in any other tier; the capacity is exactly what the usable acres take at that rate less the
  -- prior loading, and it is positive.
  pub evaluate_field_eligible :
      {r : PlacementField}
      → evaluate_field lib verify now tier policy_rate f as_of ≡ ok r
      → is_eligible r.disposition ≡ true
      → (c : IsCosted lib verify now tier policy_rate f as_of r) × IsWorkedOut lib tier policy_rate
          f
          (usable_of f (verified_of lib verify now tier policy_rate f as_of))
          c.allowed
          c.capacity
        × IsPositive c.capacity
  evaluate_field_eligible {r} e may =
      elim (evaluate_field_lem lib verify now tier policy_rate f as_of e) [
        | inl (not_it, nothing) ↦ absurd (false≢true (sym not_it ∙ may))
        | inr c ↦
            let worked =
              capacity_of_lem lib tier policy_rate f
                (usable_of f (verified_of lib verify now tier policy_rate f as_of)) c.worked_out in
            (c, worked, capacity-IsPositive c.capacity worked.nonneg (sym c.still_eligible ∙ may))
      ]

module _ (lib : Library) (f : FieldInput) (m : Facts) (steep : Bool) (v : Verified) where
  -- Before its capacity is worked out, a field is eligible exactly when it passes every gate:
  -- ready and RMP approved, physical evaluation present and succeeded with no critical gap, no
  -- mapped wetland or surface water, a slope over the limit resolved, and the three quantities
  -- given.
  pub gated_field_iff :
      (is_eligible (gated_field lib f m steep v).disposition ≡ true → PassesGates lib f m steep v)
      × (PassesGates lib f m steep v → is_eligible (gated_field lib f m steep v).disposition ≡ true)
  gated_field_iff =
      (gated_field-PassesGates lib f m steep v, PassesGates-gated_field lib f m steep v)
