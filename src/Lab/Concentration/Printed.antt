-- ===== src/Lab/Concentration/Printed.antt =====
-- internal/lab/decimal.go, `normalizeConcentration`: how far the printed concentration is from the
-- fraction.
use native.Mathlib.Nat.{mod-mod, mod_def, div-add-mod, div-div-eq-div-mul, pow-suc}
use pfas_load_control.Base.{
  ℕ, zero, suc, ◌+◌, ◌-◌, ◌*◌, ◌/◌, ◌%◌, ◌^◌, ◌≤◌, ◌<◌, ◌≡◌, ◌∙◌, sym, ap, refl, true, false, ◌∷◌,
  some, arith, Text, length, trim_right,
}
use pfas_load_control.Rat.{Rat, new_rat, round_div}
use pfas_load_control.Rat.Rounding.{round_div_near}
use pfas_load_control.Numeral.{is_digit, digit, show, value, scan}
use pfas_load_control.Numeral.Digits.{IsDigits, show-IsDigits, value-show, show-is_empty}
use pfas_load_control.Numeral.Trim.{is_zero, trim_right-append_cons, trim_right-IsDigits}
use pfas_load_control.Placement.Decimal.RoundTrip.{
  number_text, trim_zeros_dot, trim_dot, keep_digits, number_text_value,
}
use pfas_load_control.Numeral.Scan.{power_pos}
use pfas_load_control.Lab.Decimal.Reads.{fraction_scaled}
use pfas_load_control.Lab.Concentration.{last_digits, float_string_12, print_concentration}

last_digits-IsDigits : (k n : ℕ) → IsDigits (last_digits k n)
last_digits-IsDigits zero n = tt
last_digits-IsDigits (suc k) n = (digit_lem (n / 10 ^ k), last_digits-IsDigits k n)
  where
    digit_lem : (m : ℕ) → is_digit (digit m) ≡ true
    digit_lem m = unfold digit in ground arith

length-last_digits : (k n : ℕ) → length (last_digits k n) ≡ k
length-last_digits zero n = refl
length-last_digits (suc k) n = ap suc (length-last_digits k n)

-- The last digits of a number are the next one, then those behind it.
mod_split : (n p : ℕ) → n % (p * 10) ≡ n / p % 10 * p + n % p
mod_split n p =
    let whole : p * (n / p) + n % p ≡ n = div-add-mod n p in
    let tens : 10 * (n / p / 10) + n / p % 10 ≡ n / p = div-add-mod (n / p) 10 in
    let spread : p * (n / p) ≡ p * 10 * (n / p / 10) + n / p % 10 * p =
      ap (λ (m : ℕ). p * m) (sym tens) ∙ distribute p (n / p / 10) (n / p % 10) in
    mod_def n (p * 10)
    ∙ ap (λ (q : ℕ). n - p * 10 * q) (sym (div-div-eq-div-mul n p 10))
    ∙ omega (arith, whole, spread)
  where
    distribute : (a b c : ℕ) → a * (10 * b + c) ≡ a * 10 * b + c * a
    distribute a b c = grind arith

value-last_digits : (v k n : ℕ) → value v (last_digits k n) ≡ v * 10 ^ k + n % 10 ^ k
value-last_digits v zero n = omega arith
value-last_digits v (suc k) n =
    let p = 10 ^ k in
    let d = n / p % 10 in
    let plain : v * 10 + (digit (n / p) - b'0') ≡ v * 10 + d = unfold digit in omega arith in
    let power : 10 ^ suc k ≡ p * 10 = omega (arith, pow-suc 10 k) in
    ap (λ (m : ℕ). value m (last_digits k n)) plain
    ∙ value-last_digits (v * 10 + d) k n
    ∙ joined v d p (n % p)
    ∙ ap (λ (m : ℕ). v * (p * 10) + m) (sym (mod_split n p))
    ∙ ap (λ (q : ℕ). v * q + n % q) (sym power)
  where
    joined : (v d p r : ℕ) → (v * 10 + d) * p + r ≡ v * (p * 10) + (d * p + r)
    joined v d p r = grind arith

-- What is printed of `n` units of the twelfth place.
printed_text : ℕ → Text
printed_text n =
    number_text (show (n / 10 ^ 12)) (trim_right is_zero (last_digits 12 (n % 10 ^ 12)))

-- The number that a text of at most twelve places is read as is `n` units of the twelfth place.
abbrev pub IsPico : Rat → ℕ → Type 0
IsPico x n = (x.neg ≡ false) × (x.abs * 10 ^ 12 ≡ n * x.den) × (0 < x.den)

scan-printed_text : (n : ℕ) → (x : Rat) × (scan (printed_text n) ≡ some x) × IsPico x n
unfolding printed_text
scan-printed_text n =
    let q = show (n / 10 ^ 12) in
    let t = last_digits 12 (n % 10 ^ 12) in
    let f = trim_right is_zero t in
    let v = n / 10 ^ 12 in
    let digits = last_digits-IsDigits 12 (n % 10 ^ 12) in
    let last : value v t ≡ v * 10 ^ 12 + n % 10 ^ 12 % 10 ^ 12 =
      value-last_digits v 12 (n % 10 ^ 12) in
    let spelt : n ≡ value v t = omega (arith, last, mod-mod n (10 ^ 12), div-add-mod n (10 ^ 12)) in
    (
      new_rat (value (value 0 q) f) (10 ^ length f),
      number_text_value q f (show-IsDigits v) (trim_right-IsDigits is_zero t digits)
          (show-is_empty v),
      (
        refl,
        rw (value-show v) (fraction_scaled v 12 t n (length-last_digits 12 (n % 10 ^ 12)) spelt),
        power_pos (length f),
      ),
    )

print_concentration_lem :
    (x : Rat)
    → x.neg ≡ false
    → print_concentration x ≡ printed_text (round_div (x.abs * 10 ^ 12) x.den)
unfolding print_concentration float_string_12 printed_text
print_concentration_lem x h =
    let n = round_div (x.abs * 10 ^ 12) x.den in
    let q = show (n / 10 ^ 12) in
    let t = last_digits 12 (n % 10 ^ 12) in
    let f = trim_right is_zero t in
    let whole = show-IsDigits (n / 10 ^ 12) in
    let digits = last_digits-IsDigits 12 (n % 10 ^ 12) in
    let full = keep_digits q f whole (show-is_empty (n / 10 ^ 12)) in
    rw
      (
        h,
        trim_right-append_cons is_zero q (b'.' ∷ t) b'.' f (trim_zeros_dot t),
        trim_dot q f whole (trim_right-IsDigits is_zero t digits),
        full.0,
      )
      refl

-- The text is read as a whole number of units of the twelfth place, within half of one of the
-- fraction.
abbrev pub IsPrintOf : Text → Rat → Type 0
IsPrintOf t x =
    (y : Rat) × (n : ℕ) × (scan t ≡ some y)
    × IsPico y n
    × (2 * (n * x.den) ≤ 2 * (x.abs * 10 ^ 12) + x.den)
    × (2 * (x.abs * 10 ^ 12) ≤ 2 * (n * x.den) + x.den)

pub print_concentration-IsPrintOf :
    (x : Rat) → x.neg ≡ false → 0 < x.den → IsPrintOf (print_concentration x) x
print_concentration-IsPrintOf x h d =
    let n = round_div (x.abs * 10 ^ 12) x.den in
    let (y, e, exact) = scan-printed_text n in
    let (below, above) = round_div_near (x.abs * 10 ^ 12) x.den d in
    (y, n, ap scan (print_concentration_lem x h) ∙ e, exact, below, above)
