-- ===== src/Lab/Concentration/Normalized.antt =====
-- internal/lab/decimal.go, `normalizeConcentration`: what a normalized concentration is.
use pfas_load_control.Base.{
  ℕ, ◌+◌, ◌*◌, ◌≤◌, ◌<◌, true, false, ◌||◌, ◌≡◌, ◌∙◌, sym, ap, subst, refl, ◌⊎◌, inl, inr,
  Bool-cases, Option, none, some, String, str_eq, Text, length, is_le, is_gt, compare, ◌==◌, ok,
  ok-injective, arith, some-injective,
}
use pfas_load_control.Rat.{Rat, new_rat, sign, cmp, mul, quo}
use pfas_load_control.Rat.Micro.{mul_nonneg, cmp_nonneg, lt-mul}
use pfas_load_control.Lab.Decimal.{Outcome, half_word}
use pfas_load_control.Lab.Concentration.{unit_factor, text_or, normalize_concentration}
use pfas_load_control.Lab.Concentration.Numbers.{IsReader, IsNumber, decimal_rat-IsNumber}
use pfas_load_control.Lab.Concentration.Printed.{IsPrintOf, print_concentration-IsPrintOf}
use pfas_load_control.Lab.Concentration.Steps.{IsDivided, IsRun, normalize_concentration-IsRun}

-- How many micrograms a kilogram one of a unit by mass is.
abbrev pub IsMassUnit : String → ℕ → Type 0
IsMassUnit unit k =
    ((str_eq unit "UG_KG" ≡ true) × (k ≡ 1))
    ⊎ ((str_eq unit "NG_G" ≡ true) × (k ≡ 1))
    ⊎ ((str_eq unit "MG_KG" ≡ true) × (k ≡ 1000))

mass_unit :
    (unit : String) (factor : Rat)
    → unit_factor unit ≡ some factor
    → (k : ℕ) × (factor ≡ new_rat k 1) × IsMassUnit unit k
unfolding unit_factor
mass_unit unit factor e = elim (Bool-cases (str_eq unit "UG_KG")) [
  | inl ug ↦ (1, sym (some-injective (rw (unit_factor, ug) at e)), inl (ug, refl))
  | inr not_ug ↦ elim (Bool-cases (str_eq unit "NG_G")) [
    | inl ng ↦ (1, sym (some-injective (rw (unit_factor, not_ug, ng) at e)), inr (inl (ng, refl)))
    | inr not_ng ↦ elim (Bool-cases (str_eq unit "MG_KG")) [
      | inl mg ↦ (
        1000,
        sym (some-injective (rw (unit_factor, not_ug, not_ng, mg) at e)),
        inr (inr (mg, refl)),
      )
      | inr not_mg ↦ absurd (none-ne-some (rw (unit_factor, not_ug, not_ng, not_mg) at e))
    ]
  ]
]
  where
    none-ne-some : {x : Rat} → ◌≡◌ {A = Option Rat} none (some x) → ⊥
    none-ne-some p = cc

solids_in_range :
    (x : Rat)
    → x.neg ≡ false
    → (is_le (sign x) || is_gt (cmp x (new_rat 100 1))) ≡ false
    → (0 < x.abs) × (x.abs ≤ 100 * x.den)
unfolding sign
solids_in_range x s h =
    let range : (is_le (sign x) || is_gt (compare (x.abs * 1) (100 * x.den))) ≡ false =
      ap (λ o. is_le (sign x) || is_gt o) (sym (cmp_nonneg x (new_rat 100 1) s refl)) ∙ h in
    ground arith

quo_nonneg :
    (x y : Rat) {z : Rat}
    → x.neg ≡ false
    → y.neg ≡ false
    → 0 < y.abs
    → ◌≡◌ {A = Outcome Rat} (quo x y) (ok z)
    → z ≡ new_rat (x.abs * y.den) (x.den * y.abs)
unfolding quo
quo_nonneg x y {z} sx sy h e =
    let nonzero : (y.abs == 0) ≡ false = ground arith in
    sym (ok-injective z (rw (quo, nonzero, sx, sy) at e))

-- The share of solids: a decimal above 0 and at most 100.
pub record IsSolids (percent_solids : Option Text) (solids : Rat) : Type 0 where
  pub number : IsNumber (text_or percent_solids) solids
  pub above : 0 < solids.abs
  pub at_most : solids.abs ≤ 100 * solids.den

-- The amount on dry weight, in micrograms a kilogram: on a dry basis the amount by the factor
-- of its unit, on a wet basis a hundred times that over the percentage of solids.
pub record IsDry (basis : String) (percent_solids : Option Text) (amount : Rat) (k : ℕ) (dry : Rat)
    : Type 0 where
  pub nonnegative : dry.neg ≡ false
  pub positive : 0 < dry.den
  pub on_basis :
      ((str_eq basis "DRY" ≡ true) × (dry.abs * amount.den ≡ amount.abs * k * dry.den))
      ⊎ ((str_eq basis "WET" ≡ true)
          × ((solids : Rat) × IsSolids percent_solids solids
              × (dry.abs * (amount.den * solids.abs)
                  ≡ amount.abs * k * 100 * solids.den * dry.den)))

-- A concentration is normalized where its text is a decimal with no minus sign, its unit is by
-- mass, and the text is printed of the amount on dry weight.
pub record IsNormalized (t : Text) (unit basis : String) (percent_solids : Option Text)
    (printed : Text) : Type 0 where
  pub amount : Rat
  pub number : IsNumber t amount
  pub factor : ℕ
  pub by_mass : IsMassUnit unit factor
  pub dry : Rat
  pub dry_weight : IsDry basis percent_solids amount factor dry
  pub printed_dry : IsPrintOf printed dry

module _ (memory : ℕ) (set_string : Text → Option Rat) (reads : IsReader set_string) where
  mul-IsDry :
      (basis : String) (percent_solids : Option Text) (amount dry : Rat) (k : ℕ)
      → str_eq basis "DRY" ≡ true
      → amount.neg ≡ false
      → 0 < amount.den
      → dry ≡ mul amount (new_rat k 1)
      → IsDry basis percent_solids amount k dry
  mul-IsDry basis percent_solids amount dry k is_dry s d e =
      subst (IsDry basis percent_solids amount k) (sym (e ∙ mul_nonneg amount (new_rat k 1) s refl))
        (record {
          nonnegative = refl;
          positive = omega arith;
          on_basis = inl (is_dry, omega arith);
        })

  quo-IsDry :
      (basis : String) (percent_solids : Option Text) (amount dry : Rat) (k : ℕ)
      → memory + length (text_or percent_solids) < half_word
      → str_eq basis "WET" ≡ true
      → amount.neg ≡ false
      → 0 < amount.den
      → IsDivided memory set_string percent_solids (mul amount (new_rat k 1)) dry
      → IsDry basis percent_solids amount k dry
  quo-IsDry basis percent_solids amount dry k small is_wet s d w =
      let number =
        decimal_rat-IsNumber memory set_string reads (text_or percent_solids) w.solids small
          w.read in
      let (above, at_most) = solids_in_range w.solids number.same.0 w.in_range in
      let scaled = mul_nonneg amount (new_rat k 1) s refl in
      let hundred : mul (mul amount (new_rat k 1)) (new_rat 100 1)
          ≡ new_rat (amount.abs * k * 100) (amount.den * 1 * 1) =
        ap (λ (x : Rat). mul x (new_rat 100 1)) scaled
        ∙ mul_nonneg (new_rat (amount.abs * k) (amount.den * 1)) (new_rat 100 1) refl refl in
      let quotient =
        quo_nonneg (new_rat (amount.abs * k * 100) (amount.den * 1 * 1)) w.solids refl number.same.0
          above (ap (λ (x : Rat). quo x w.solids) (sym hundred) ∙ w.divided) in
      let plain : amount.den * 1 * 1 ≡ amount.den = omega arith in
      subst (IsDry basis percent_solids amount k)
        (sym (
          quotient
          ∙ ap (λ (n : ℕ). new_rat (amount.abs * k * 100 * w.solids.den) (n * w.solids.abs)) plain))
        (record {
          nonnegative = refl;
          positive = omega (arith, lt-mul 0 amount.den w.solids.abs d above);
          on_basis = inr (
            is_wet,
            (w.solids, record { number = number; above = above; at_most = at_most }, refl),
          );
        })

  IsRun-IsNormalized :
      (t : Text) (unit basis : String) (percent_solids : Option Text) (printed : Text)
      → memory + length t < half_word
      → memory + length (text_or percent_solids) < half_word
      → IsRun memory set_string t unit basis percent_solids printed
      → IsNormalized t unit basis percent_solids printed
  IsRun-IsNormalized t unit basis percent_solids printed small small_solids r =
      let number = decimal_rat-IsNumber memory set_string reads t r.amount small r.read in
      let (k, is_k, by_mass) = mass_unit unit r.factor r.by_mass in
      let scaled : mul r.amount r.factor ≡ mul r.amount (new_rat k 1) =
        ap (λ (f : Rat). mul r.amount f) is_k in
      let dry : IsDry basis percent_solids r.amount k r.dry = elim r.on_basis [
        | inl (is_dry, e) ↦
            mul-IsDry basis percent_solids r.amount r.dry k is_dry number.same.0 number.positive
              (e ∙ scaled)
        | inr (is_wet, w) ↦
            quo-IsDry basis percent_solids r.amount r.dry k small_solids is_wet number.same.0
              number.positive
              (subst (λ (x : Rat). IsDivided memory set_string percent_solids x r.dry) scaled w)
      ] in
      record {
        amount = r.amount;
        number = number;
        factor = k;
        by_mass = by_mass;
        dry = r.dry;
        dry_weight = dry;
        printed_dry =
            subst (λ (p : Text). IsPrintOf p r.dry) (sym r.printed_dry)
              (print_concentration-IsPrintOf r.dry dry.nonnegative dry.positive);
      }

  -- Where SetString reads decimal notation as the number that it stands for, and the texts are
  -- not so long that they and the memory reach two to the 63, a concentration that is normalized
  -- comes from a decimal with no minus sign, in the unit UG_KG or NG_G, which counts once, or
  -- MG_KG, which counts a thousand times. Its amount on dry weight is on the basis DRY the exact
  -- value of the text by the unit, and on the basis WET a hundred times that over a percentage
  -- of solids that is a decimal above 0 and at most 100. The printed text is read back as a
  -- number of at most twelve decimal places that is within half a unit of the last place of that
  -- amount.
  pub normalize_concentration-IsNormalized :
      (t : Text) (unit basis : String) (percent_solids : Option Text) {printed : Text}
      → memory + length t < half_word
      → memory + length (text_or percent_solids) < half_word
      → normalize_concentration memory set_string t unit basis percent_solids ≡ ok (some printed)
      → IsNormalized t unit basis percent_solids printed
  normalize_concentration-IsNormalized t unit basis percent_solids {printed} small small_solids e =
      IsRun-IsNormalized t unit basis percent_solids printed small small_solids
        (normalize_concentration-IsRun memory set_string t unit basis percent_solids e)
