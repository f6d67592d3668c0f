-- ===== src/Placement/Engine/Batch.antt =====
-- The dry tonnage of a batch.
use pfas_load_control.Base.{
  ◌*◌, ◌≤◌, ◌<◌, ◌≡◌, refl, sym, ◌∙◌, ap, false, Text, compare, if◌then◌else◌, is_gt, ok, err,
  >>=-eq-ok, ok-injective, arith, Result, map_err, map_err_ok,
}
use pfas_load_control.Rat.{Rat, mul, quo, cmp, new_rat}
use pfas_load_control.Rat.Micro.{mul_nonneg, cmp_nonneg, lt-mul}
use pfas_load_control.Placement.Decimal.{
  Outcome, solids_out_of_range, wet_mass_not_positive, positive_decimal, dry_tons,
}
use pfas_load_control.Placement.Facts.{Library}
use pfas_load_control.Placement.Field.Capacity.{IsPositive, positive_decimal_lem}

-- Division of positive numbers.
quo_positive :
    {E : Type 0} (x y : Rat)
    → x.neg ≡ false
    → IsPositive y
    → ◌≡◌ {A = Result E Rat} (quo x y) (ok (new_rat (x.abs * y.den) (x.den * y.abs)))
unfolding quo
quo_positive x y sx (sy, py, dy) = rw (sx, sy) (ground arith)

-- The mass and the solids that a tonnage was computed from.
pub record IsTonnage (lib : Library) (wet_mass_kg percent_solids : Text) (tons : Rat) : Type 0 where
  pub wet : Rat
  pub solids : Rat
  pub wet_read : positive_decimal lib.set_string wet_mass_kg ≡ ok wet
  pub solids_read : positive_decimal lib.set_string percent_solids ≡ ok solids
  pub solids_at_most : solids.abs ≤ 100 * solids.den
  pub positive : IsPositive tons
  pub exact :
      tons.abs * (wet.den * solids.den * 100 * 45359237) ≡ wet.abs * solids.abs * 50000 * tons.den

within_percent :
    (s : Rat) {m : Outcome Rat} {x : Rat}
    → IsPositive s
    → (if is_gt (cmp s (new_rat 100 1)) then err solids_out_of_range else m) ≡ ok x
    → (s.abs ≤ 100 * s.den) × (m ≡ ok x)
within_percent s {m} {x} h e =
    let e' : (if is_gt (compare (s.abs * 1) (100 * s.den)) then err solids_out_of_range else m)
        ≡ ok x =
      rw (cmp_nonneg s (new_rat 100 1) h.0 refl) at e in
    ground arith

module _ (w s : Rat) (hw : IsPositive w) (hs : IsPositive s) where
  numerator_pos : 0 < w.abs * s.abs
  numerator_pos = omega (arith, lt-mul 0 w.abs s.abs hw.1 hs.1)

  denominator_pos : 0 < w.den * s.den
  denominator_pos = omega (arith, lt-mul 0 w.den s.den hw.2 hs.2)

  divided :
      {x y : Rat}
      → ◌≡◌ {A = Outcome Rat} (quo (mul w s) (new_rat 100 1)) (ok x)
      → ◌≡◌ {A = Outcome Rat} (quo x (new_rat 45359237 50000)) (ok y)
      → y ≡ new_rat (w.abs * s.abs * 1 * 50000) (w.den * s.den * 100 * 45359237)
  divided {x} {y} e1 e2 =
      let product = new_rat (w.abs * s.abs) (w.den * s.den) in
      let first : new_rat (w.abs * s.abs * 1) (w.den * s.den * 100) ≡ x = ok-injective x (
        sym (quo_positive product (new_rat 100 1) refl (refl, omega arith, omega arith))
        ∙ ap (λ z. quo z (new_rat 100 1)) (sym (mul_nonneg w s hw.0 hs.0))
        ∙ e1) in
      ok-injective y (
        sym e2
        ∙ ap (λ z. quo z (new_rat 45359237 50000)) (sym first)
        ∙ quo_positive (new_rat (w.abs * s.abs * 1) (w.den * s.den * 100)) (new_rat 45359237 50000)
            refl (refl, omega arith, omega arith))

module _ (lib : Library) (wet_mass_kg percent_solids : Text) where
  -- A tonnage that is computed comes from a mass and a percentage of solids that are both
  -- positive, the latter at most 100, and is exactly their product in short tons of 907.18474
  -- kg; it is positive.
  pub dry_tons_lem :
      {tons : Rat}
      → dry_tons lib.set_string wet_mass_kg percent_solids ≡ ok tons
      → IsTonnage lib wet_mass_kg percent_solids tons
  unfolding dry_tons
  dry_tons_lem {tons} e =
      let (w, w1, e1) =
        >>=-eq-ok
          (map_err (λ x. wet_mass_not_positive) (positive_decimal lib.set_string wet_mass_kg)) _
          e in
      let (s, s1, e2) =
        >>=-eq-ok
          (map_err (λ x. solids_out_of_range) (positive_decimal lib.set_string percent_solids)) _
          e1 in
      let hw = positive_decimal_lem lib wet_mass_kg (map_err_ok _ _ w1) in
      let hs = positive_decimal_lem lib percent_solids (map_err_ok _ _ s1) in
      let (most, e3) = within_percent s hs e2 in
      let (x, q1, q2) = >>=-eq-ok (quo (mul w s) (new_rat 100 1)) _ e3 in
      rw (divided w s hw hs q1 q2) (record {
        wet = w;
        solids = s;
        wet_read = map_err_ok _ _ w1;
        solids_read = map_err_ok _ _ s1;
        solids_at_most = most;
        positive = (
          refl,
          omega (arith, numerator_pos w s hw hs),
          omega (arith, denominator_pos w s hw hs),
        );
        exact = omega arith;
      })
