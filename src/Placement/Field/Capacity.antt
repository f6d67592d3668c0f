-- ===== src/Placement/Field/Capacity.antt =====
-- The rate and the capacity that `evaluateField` works out, as exact fractions.
use pfas_load_control.Base.{
  ℕ, ◌-◌, ◌*◌, ◌≤◌, ◌<◌, ◌≡◌, ◌≢◌, refl, sym, ◌∙◌, ap, true, false, Option, some, String, Text,
  str_eq, eq_iff, if◌then◌else◌, is_le, is_lt, ok, err, >>=-eq-ok, ok-injective, trim_space,
  Bool-cases, inl, inr, arith, subst,
}
use mathlib.Core.Bool.{false≢true}
use native.Mathlib.Decide.{dec_le}
use pfas_load_control.Rat.{Rat, IsNonneg, sign, sub, new_rat}
use pfas_load_control.Rat.Micro.{lt-mul, mul_nonneg, sub_nonneg, cmp_nonneg}
use pfas_load_control.Placement.Decimal.{
  Outcome, invalid_number, decimal, positive_decimal, nonnegative_decimal, min_rat,
}
use pfas_load_control.Placement.Model.{FieldInput}
use pfas_load_control.Placement.Facts.{Library}
use pfas_load_control.Placement.Field.{allowed_rate, capacity_left, capacity_of}

-- `x` is at most `y`, for fractions that are not negative.
abbrev pub AtMost : Rat → Rat → Type 0
AtMost x y = x.abs * y.den ≤ y.abs * x.den

abbrev pub IsPositive : Rat → Type 0
IsPositive x = (x.neg ≡ false) × (0 < x.abs) × (0 < x.den)

positive_sign : (x : Rat) → is_le (sign x) ≡ false → (x.neg ≡ false) × (0 < x.abs)
unfolding sign
positive_sign x h = ground arith

min_rat-AtMost :
    (x y : Rat)
    → IsPositive x
    → IsPositive y
    → IsPositive (min_rat x y) × AtMost (min_rat x y) x × AtMost (min_rat x y) y
unfolding min_rat
min_rat-AtMost x y hx hy = rw (cmp_nonneg x y hx.0 hy.0) (ground arith)

decimal_ok :
    (set_string : Text → Option Rat) (t : Text) {x : Rat}
    → decimal set_string t ≡ ok x
    → set_string (trim_space t) ≡ some x
unfolding decimal
decimal_ok set_string t e = ground arith

positive_ok :
    (x : Rat) {y : Rat}
    → ◌≡◌ {A = Outcome Rat} (if is_le (sign x) then err invalid_number else ok x) (ok y)
    → (x ≡ y) × (is_le (sign x) ≡ false)
positive_ok x e = ground arith

nonneg_ok :
    (x : Rat) {y : Rat}
    → ◌≡◌ {A = Outcome Rat} (if is_lt (sign x) then err invalid_number else ok x) (ok y)
    → (x ≡ y) × (is_lt (sign x) ≡ false)
nonneg_ok x e = ground arith

nonneg_sign : (x : Rat) → (x.neg ≡ true → 0 < x.abs) → is_lt (sign x) ≡ false → x.neg ≡ false
unfolding sign
nonneg_sign x n h = ground arith

module _ (lib : Library) where
  pub positive_decimal_lem :
      (t : Text) {x : Rat} → positive_decimal lib.set_string t ≡ ok x → IsPositive x
  unfolding positive_decimal
  positive_decimal_lem t e =
      let (y, d, q) = >>=-eq-ok (decimal lib.set_string t) _ e in
      let (same, s) = positive_ok y q in
      let (n, a) = positive_sign y s in
      subst IsPositive same
        (n, a, (lib.set_string_normal (trim_space t) y (decimal_ok lib.set_string t d)).0)

  pub nonnegative_decimal_lem :
      (t : Text) {x : Rat} → nonnegative_decimal lib.set_string t ≡ ok x → IsNonneg x
  unfolding nonnegative_decimal
  nonnegative_decimal_lem t e =
      let (y, d, q) = >>=-eq-ok (decimal lib.set_string t) _ e in
      let (same, s) = nonneg_ok y q in
      let (den, zero_plain) =
        lib.set_string_normal (trim_space t) y (decimal_ok lib.set_string t d) in
      subst IsNonneg same (nonneg_sign y zero_plain s, den)

-- A difference that is not negative is kept, any other becomes zero.
kept : (x : Rat) → x.neg ≡ false → is_lt (sign x) ≡ false
unfolding sign
kept x h = ground arith

sub_negative :
    (x y : Rat)
    → x.neg ≡ false
    → y.neg ≡ false
    → x.abs * y.den < y.abs * x.den
    → is_lt (sign (sub x y)) ≡ true
unfolding sub sign
sub_negative x y sx sy h = rw (sx, sy) (ground arith)

product_pos : (a b c : ℕ) → 0 < a → 0 < b → 0 < c → 0 < a * b * c
product_pos a b c ha hb hc =
    let front : 0 < a * b = omega (arith, lt-mul 0 a b ha hb) in
    omega (arith, lt-mul 0 (a * b) c front hc)

cut_off : (d a b : ℕ) → a ≤ b → 0 * d ≡ (a - b) * 1
cut_off d a b h = omega arith

-- The capacity is the difference, cut off at zero.
capacity_left_lem :
    (u a p : Rat)
    → IsPositive u
    → IsPositive a
    → IsNonneg p
    → IsNonneg (capacity_left u a p)
      × ((capacity_left u a p).abs * (u.den * a.den * p.den)
          ≡ (u.abs * a.abs * p.den - p.abs * (u.den * a.den)) * (capacity_left u a p).den)
unfolding capacity_left
capacity_left_lem u a p hu ha hp =
    let product = new_rat (u.abs * a.abs) (u.den * a.den) in
    let same = ap (λ z. sub z p) (mul_nonneg u a hu.0 ha.0) in
    elim (dec_le (p.abs * (u.den * a.den)) (u.abs * a.abs * p.den)) [
      | yes fits ↦
          let left =
            new_rat (u.abs * a.abs * p.den - p.abs * (u.den * a.den)) (u.den * a.den * p.den) in
          rw (same, sub_nonneg product p refl hp.0 fits, kept left refl)
            ((refl, product_pos u.den a.den p.den hu.2 ha.2 hp.1), refl)
      | no over ↦
          rw (same, sub_negative product p refl hp.0 (omega arith))
            ((refl, omega arith), cut_off _ _ _ (omega arith))
    ]

module _ (lib : Library) (tier : String) (policy_rate : Text) where
  -- The rate is the agronomic one, cut down to the ceiling in the elevated tier.
  pub record IsRate (agronomic allowed : Rat) : Type 0 where
    pub positive : IsPositive allowed
    pub at_most_agronomic : AtMost allowed agronomic
    pub outside_elevated : tier ≢ "ELEVATED" → agronomic ≡ allowed
    pub within_ceiling :
        tier ≡ "ELEVATED"
        → (ceiling : Rat) × (positive_decimal lib.set_string policy_rate ≡ ok ceiling)
          × AtMost allowed ceiling

  elevated_rate :
      (agronomic : Rat) {allowed : Rat}
      → IsPositive agronomic
      → str_eq tier "ELEVATED" ≡ true
      → allowed_rate lib tier policy_rate agronomic ≡ ok allowed
      → (ceiling : Rat) × (positive_decimal lib.set_string policy_rate ≡ ok ceiling)
        × (min_rat agronomic ceiling ≡ allowed)
  unfolding allowed_rate
  elevated_rate agronomic p t e = ground arith

  plain_rate :
      (agronomic : Rat) {allowed : Rat}
      → str_eq tier "ELEVATED" ≡ false
      → allowed_rate lib tier policy_rate agronomic ≡ ok allowed
      → agronomic ≡ allowed
  unfolding allowed_rate
  plain_rate agronomic {allowed} t e = ok-injective allowed (rw t at e)

  allowed_rate_lem :
      (agronomic : Rat) {allowed : Rat}
      → IsPositive agronomic
      → allowed_rate lib tier policy_rate agronomic ≡ ok allowed
      → IsRate agronomic allowed
  allowed_rate_lem agronomic {allowed} p e = elim (Bool-cases (str_eq tier "ELEVATED")) [
    | inl elevated ↦
        let (ceiling, read, same) = elevated_rate agronomic p elevated e in
        let (pos, left, right) =
          min_rat-AtMost agronomic ceiling p (positive_decimal_lem lib policy_rate read) in
        subst (IsRate agronomic) same (record {
          positive = pos;
          at_most_agronomic = left;
          outside_elevated = λ no_tier. absurd (no_tier ((eq_iff tier "ELEVATED").0 elevated));
          within_ceiling = λ _. (ceiling, read, right);
        })
    | inr plain ↦
        let same = plain_rate agronomic plain e in
        subst (IsRate agronomic) same (record {
          positive = p;
          at_most_agronomic = omega arith;
          outside_elevated = λ _. refl;
          within_ceiling = λ t. absurd (false≢true (sym plain ∙ (eq_iff tier "ELEVATED").1 t));
        })
  ]

  -- How the rate and the capacity of a field come from its quantities.
  pub record IsWorkedOut (f : FieldInput) (usable_acres : Text) (allowed capacity : Rat)
      : Type 0 where
    pub usable : Rat
    pub agronomic : Rat
    pub prior : Rat
    pub usable_read : positive_decimal lib.set_string usable_acres ≡ ok usable
    pub agronomic_read : positive_decimal lib.set_string f.agronomic_rate ≡ ok agronomic
    pub prior_read : nonnegative_decimal lib.set_string f.prior_loading_dry_tons ≡ ok prior
    pub rate : IsRate agronomic allowed
    pub nonneg : IsNonneg capacity
    pub exact :
        capacity.abs * (usable.den * allowed.den * prior.den)
        ≡ (usable.abs * allowed.abs * prior.den - prior.abs * (usable.den * allowed.den))
          * capacity.den

  pub capacity_of_lem :
      (f : FieldInput) (usable_acres : Text) {q : Rat × Rat}
      → capacity_of lib tier policy_rate f usable_acres ≡ ok q
      → IsWorkedOut f usable_acres q.0 q.1
  unfolding capacity_of
  capacity_of_lem f usable_acres {q} e =
      let (u, ru, e1) = >>=-eq-ok (positive_decimal lib.set_string usable_acres) _ e in
      let (g, rg, e2) = >>=-eq-ok (positive_decimal lib.set_string f.agronomic_rate) _ e1 in
      let (p, rp, e3) =
        >>=-eq-ok (nonnegative_decimal lib.set_string f.prior_loading_dry_tons) _ e2 in
      let (a, ra, e4) = >>=-eq-ok (allowed_rate lib tier policy_rate g) _ e3 in
      let rate = allowed_rate_lem g (positive_decimal_lem lib f.agronomic_rate rg) ra in
      let (nonneg, exact) =
        capacity_left_lem u a p (positive_decimal_lem lib usable_acres ru) rate.positive
          (nonnegative_decimal_lem lib f.prior_loading_dry_tons rp) in
      subst (λ (z : Rat × Rat). IsWorkedOut f usable_acres z.0 z.1) (ok-injective q e4)
        (record {
          usable = u;
          agronomic = g;
          prior = p;
          usable_read = ru;
          agronomic_read = rg;
          prior_read = rp;
          rate = rate;
          nonneg = nonneg;
          exact = exact;
        })
