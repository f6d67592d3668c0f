-- ===== src/Lab/Concentration.antt =====
-- internal/lab/decimal.go, `normalizeConcentration`: micrograms per kilogram of dry weight.
pub mod Printed
pub mod Numbers
pub mod Steps
pub mod Normalized
use pfas_load_control.Base.{
  ℕ, zero, suc, ◌+◌, ◌-◌, ◌*◌, ◌/◌, ◌%◌, ◌^◌, Bool, true, false, not, ◌&&◌, ◌||◌, ◌≡◌, ◌∙◌, refl,
  sym, ap, subst, ◌⊎◌, inl, inr, Bool-cases, Option-cases, Option, none, some, List, [], ◌∷◌, ◌++◌,
  String, str_eq, Text, is_empty, trim_space, trim_right, is_le, is_gt, if◌then◌else◌, Result,
  panic, ok, err, ◌>>=◌, >>=-eq-ok, ok-injective, require, forbid, require_ok, forbid_ok, compare,
  Ordering,
}
use pfas_load_control.Rat.{Rat, new_rat, sign, cmp, mul, quo, round_div}
use pfas_load_control.Numeral.{show, digit}
use pfas_load_control.Numeral.Trim.{is_zero, is_dot}
use pfas_load_control.Lab.Decimal.{Outcome, LabError, not_exact, invalid_solids, canonical_decimal}

-- The last `k` digits of a number.
abbrev pub last_digits : ℕ → ℕ → Text
last_digits zero n = []
last_digits (suc k) n = digit (n / 10 ^ k) ∷ last_digits k n

-- `FloatString(12)`
unfoldable pub float_string_12 : Rat → Text
unfolding show digit round_div
float_string_12 x =
    let n = round_div (x.abs * 10 ^ 12) x.den in
    (if x.neg then b'-' ∷ [] else []) ++ show (n / 10 ^ 12) ++ b'.' ∷ last_digits 12 (n % 10 ^ 12)

unfoldable pub print_concentration : Rat → Text
unfolding float_string_12 trim_right
print_concentration x =
    let normalized = trim_right is_dot (trim_right is_zero (float_string_12 x)) in
    if is_empty normalized then b'0' ∷ [] else normalized

-- The factor of a unit by mass; `none` where the unit is not one.
unfoldable pub unit_factor : String → Option Rat
unit_factor unit =
    if str_eq unit "UG_KG" || str_eq unit "NG_G"
    then some (new_rat 1 1)
    else if str_eq unit "MG_KG"
    then some (new_rat 1000 1)
    else none

-- `strings.TrimSpace(*percentSolids)` of a text that may be missing.
abbrev pub blank : Option Text → Bool
blank none = true
blank (some t) = is_empty (trim_space t)

abbrev pub text_or : Option Text → Text
text_or none = []
text_or (some t) = t

abbrev pub print_option : Option Rat → Option Text
print_option none = none
print_option (some x) = some (print_concentration x)

module _ (memory : ℕ) (set_string : Text → Option Rat) where
  unfoldable pub decimal_rat : Text → Outcome Rat
  unfolding canonical_decimal
  decimal_rat input = do
    canonical ← canonical_decimal memory input
    require (set_string canonical) not_exact

  -- The percentage of solids: above 0, at most 100.
  unfoldable pub read_solids : Text → Outcome Rat
  unfolding decimal_rat sign cmp
  read_solids t = do
    solids ← decimal_rat t
    range ← forbid (is_le (sign solids) || is_gt (cmp solids (new_rat 100 1))) invalid_solids
    ok solids

  -- The amount on dry weight; `none` where the basis does not say how.
  unfoldable pub dry_amount : Rat → String → Option Text → Outcome (Option Rat)
  unfolding read_solids mul quo
  dry_amount amount basis percent_solids =
      if str_eq basis "DRY"
      then ok (some amount)
      else if str_eq basis "WET" && not (blank percent_solids)
      then (read_solids (text_or percent_solids) >>= λ solids.
          quo (mul amount (new_rat 100 1)) solids >>= λ dry. ok (some dry))
      else ok none

  unfoldable pub normalize_concentration :
      Text → String → String → Option Text → Outcome (Option Text)
  unfolding decimal_rat unit_factor dry_amount print_concentration mul
  normalize_concentration t unit basis percent_solids =
      let read = decimal_rat t in
      if is_empty (trim_space t)
      then ok none
      else (read >>= λ amount. elim (unit_factor unit) [
        | none ↦ ok none
        | some factor ↦
            dry_amount (mul amount factor) basis percent_solids >>= λ dry. ok (print_option dry)
      ])

-- `decimalPointer`
unfoldable pub decimal_pointer : ℕ → Option Text → Outcome (Option Text)
unfolding canonical_decimal
decimal_pointer memory none = ok none
decimal_pointer memory (some t) =
    if is_empty (trim_space t) then ok none else (canonical_decimal memory t >>= λ c. ok (some c))
