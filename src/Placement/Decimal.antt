-- ===== src/Placement/Decimal.antt =====
-- internal/placement/engine.go, from `dryTons` on: decimal texts and exact fractions.
pub mod RoundTrip
pub mod Printed
use pfas_load_control.Base.{
  ℕ, ◌≡◌, Bool, ◌||◌, Option, none, some, [], ◌∷◌, String, ◌==◌, if◌then◌else◌, is_le, is_lt, is_gt,
  Text, codes, is_empty, text_eq, trim_right, trim_space, Result, ok, err, panic, ◌>>=◌, map_err,
}
use pfas_load_control.Rat.{Rat, sign, cmp, mul, quo, new_rat, zero_rat, micro}
use pfas_load_control.Numeral.{float_string, fixed}

-- The errors of the engine; `field_error` is the wrapping by `fmt.Errorf("evaluate field …")`.
pub data PlacementError : Type 0 where
  invalid_number : PlacementError
  wet_mass_not_positive : PlacementError
  solids_out_of_range : PlacementError
  rate_ceiling_unavailable : PlacementError
  field_error : String → PlacementError → PlacementError

abbrev pub Outcome : Type 0 → Type 0
Outcome = Result PlacementError

-- `strings.TrimRight(strings.TrimRight(text, "0"), ".")`, and zero for what is left of "-0".
unfoldable pub tidy : Text → Text
tidy t =
    let trimmed = trim_right (λ c. c == b'.') (trim_right (λ c. c == b'0') t) in
    if is_empty trimmed || text_eq trimmed (codes "-0") then codes "0" else trimmed

unfoldable pub format_rat : Rat → Text
unfolding tidy
format_rat x = tidy (float_string x)

-- The text of `n` millionths.
unfoldable pub micro_text : ℕ → Text
micro_text n = tidy (fixed n)

unfoldable pub min_rat : Rat → Rat → Rat
min_rat x y = if is_le (cmp x y) then x else y

-- `set_string` is `big.Rat.SetString`.
module _ (set_string : Text → Option Rat) where
  unfoldable pub decimal : Text → Outcome Rat
  decimal t = elim (set_string (trim_space t)) [ none ↦ err invalid_number | some x ↦ ok x ]

  unfoldable pub positive_decimal : Text → Outcome Rat
  positive_decimal t = do x ← decimal t; if is_le (sign x) then err invalid_number else ok x

  unfoldable pub nonnegative_decimal : Text → Outcome Rat
  nonnegative_decimal t = do x ← decimal t; if is_lt (sign x) then err invalid_number else ok x

  -- Both callers drop the error. On a text that does not parse Go returns no number, and their
  -- comparison with it panics; here it is zero. The ranking gets none but empty and printed
  -- texts (Placement.Engine.Priced), on which the two agree.
  unfoldable pub decimal_or_zero : Text → Rat
  unfolding decimal
  decimal_or_zero t =
      if is_empty t
      then zero_rat
      else elim (decimal t) [ ok x ↦ x | err e ↦ zero_rat | panic ↦ zero_rat ]

  -- `100` percent, then pounds of 45359237 / 50000 kg to the ton.
  unfoldable pub dry_tons : Text → Text → Outcome Rat
  unfolding positive_decimal
  dry_tons wet_mass_kg percent_solids = do
    wet ← map_err (λ e. wet_mass_not_positive) (positive_decimal wet_mass_kg)
    solids ← map_err (λ e. solids_out_of_range) (positive_decimal percent_solids)
    if is_gt (cmp solids (new_rat 100 1))
        then err solids_out_of_range
        else (quo (mul wet solids) (new_rat 100 1) >>= λ percent.
            quo percent (new_rat 45359237 50000))
