-- ===== src/Lab/Concentration/Numbers.antt =====
-- internal/lab/decimal.go, `decimalRat`: the number that a text is read as.
use native.Mathlib.Nat.{mul-div_cancel}
use pfas_load_control.Base.{
  ℕ, ◌+◌, ◌*◌, ◌/◌, ◌<◌, false, ◌≡◌, ◌∙◌, sym, ap, subst, Option, some, require, Text, length,
  trim_space, ok, arith, >>=-eq-ok, some-injective, require_ok,
}
use pfas_load_control.Rat.{Rat}
use pfas_load_control.Numeral.{scan}
use pfas_load_control.Numeral.Scan.{scan_positive}
use pfas_load_control.Lab.Decimal.{
  Match, match_decimal, remove_commas, canonical_decimal, not_a_decimal, not_exact, half_word,
}
use pfas_load_control.Lab.Decimal.Pattern.{match_decimal-length, input_length}
use pfas_load_control.Lab.Decimal.Canonical.{literal, Same, canonical_decimal_lem}
use pfas_load_control.Lab.Concentration.{decimal_rat}

-- `big.Rat.SetString` reads decimal notation as the number that it stands for.
abbrev pub IsReader : (Text → Option Rat) → Type 0
IsReader set_string =
    (t : Text) (x : Rat)
    → scan t ≡ some x
    → x.neg ≡ false
    → (y : Rat) × (set_string t ≡ some y) × Same y x × (0 < y.den)

-- The text is a decimal with no minus sign, of the value `x`.
pub record IsNumber (t : Text) (x : Rat) : Type 0 where
  pub groups : Match
  pub matched : match_decimal (remove_commas (trim_space t)) ≡ some groups
  pub no_minus : groups.minus ≡ false
  pub same : Same x (literal groups)
  pub positive : 0 < x.den

-- Fractions of the same value as a third one.
Same-trans : (x y z : Rat) → 0 < y.den → Same x y → Same y z → Same x z
Same-trans x y z h (s, e) (r, g) = (
  s,
  cancel y.den _ _ h (
      swap x.abs z.den y.den
      ∙ ap (λ (n : ℕ). n * z.den) e
      ∙ swap y.abs x.den z.den
      ∙ ap (λ (n : ℕ). n * x.den) g
      ∙ swap z.abs y.den x.den),
)
  where
    cancel : (n a b : ℕ) → 0 < n → a * n ≡ b * n → a ≡ b
    cancel n a b p q = sym (mul-div_cancel a p) ∙ ap (λ (m : ℕ). m / n) q ∙ mul-div_cancel b p

    swap : (a b c : ℕ) → a * b * c ≡ a * c * b
    swap a b c = grind arith

module _ (memory : ℕ) (set_string : Text → Option Rat) (reads : IsReader set_string) where
  pub decimal_rat-IsNumber :
      (t : Text) (x : Rat)
      → memory + length t < half_word
      → decimal_rat memory set_string t ≡ ok x
      → IsNumber t x
  unfolding decimal_rat canonical_decimal
  decimal_rat-IsNumber t x small e =
      let (c, e1, e2) = >>=-eq-ok (canonical_decimal memory t) _ e in
      let (m, e3, e4) =
        >>=-eq-ok (require (match_decimal (remove_commas (trim_space t))) not_a_decimal) _ e1 in
      let matched = require_ok (match_decimal (remove_commas (trim_space t))) not_a_decimal e3 in
      let short : memory + length m.fraction < half_word =
        omega
          (arith, match_decimal-length (remove_commas (trim_space t)) matched, input_length t) in
      let (no_minus, (y, spelt, exact)) = canonical_decimal_lem memory t m matched short e1 in
      let (z, read, same, positive) = reads c y spelt exact.0 in
      let z_is_x : z ≡ x = some-injective (sym read ∙ require_ok (set_string c) not_exact e2) in
      subst (IsNumber t) z_is_x (record {
        groups = m;
        matched = matched;
        no_minus = no_minus;
        same = Same-trans z y (literal m) (scan_positive c y spelt) same exact;
        positive = positive;
      })
