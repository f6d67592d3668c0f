-- ===== src/Lab/Decimal.antt =====
-- internal/lab/decimal.go: the canonical notation of decimals.
pub mod Pattern
pub mod Reads
pub mod Canonical
use pfas_load_control.Base.{
  ℕ, zero, suc, ◌+◌, ◌-◌, ◌*◌, ◌^◌, Bool, true, false, not, ◌&&◌, ◌||◌, ◌==◌, ltb, leb, Option,
  none, some, List, [], ◌∷◌, ◌++◌, length, replicate, String, str_eq, Text, is_empty, trim_space,
  trim_left, trim_right, if◌then◌else◌, Result, panic, ok, err, ◌>>=◌, require, forbid,
}
use pfas_load_control.Numeral.{is_digit, value}
use pfas_load_control.Numeral.Trim.{is_zero}

pub data LabError : Type 0 where
  not_a_decimal : LabError
  negative : LabError
  invalid_exponent : LabError
  not_exact : LabError
  invalid_solids : LabError

abbrev pub Outcome : Type 0 → Type 0
Outcome A = Result LabError A

-- The four groups of `decimalPattern`; a sign is `true` where it is a minus.
pub record Match : Type 0 where
  pub minus : Bool
  pub whole : Text
  pub fraction : Text
  pub exponent : Option (Bool × Text)

-- The longest run of digits in front, and what follows it.
unfoldable pub take_digits : Text → Text × Text
take_digits [] = ([], [])
take_digits (c ∷ t) =
    let more = take_digits t in if is_digit c then (c ∷ more.0, more.1) else ([], c ∷ t)

-- `[+-]?`
abbrev pub take_sign : Text → Bool × Text
take_sign [] = (false, [])
take_sign (c ∷ t) =
    if c == b'-' then (true, t) else if c == b'+' then (false, t) else (false, c ∷ t)

-- `(?:[eE]([+-]?\d+))?$`
unfoldable pub match_exponent : Bool → Text → Text → Text → Option Match
unfolding take_digits
match_exponent minus whole fraction [] =
    some (record { minus = minus; whole = whole; fraction = fraction; exponent = none })
match_exponent minus whole fraction (c ∷ t) =
    let (negative_exponent, rest) = take_sign t in
    let (digits, after) = take_digits rest in
    if (c == b'e' || c == b'E') && not (is_empty digits) && is_empty after
    then some (record {
      minus = minus;
      whole = whole;
      fraction = fraction;
      exponent = some (negative_exponent, digits);
    })
    else none

-- `(?:\.(\d+))?` and the rest.
unfoldable pub match_fraction : Bool → Text → Text → Option Match
unfolding take_digits match_exponent
match_fraction minus whole [] = match_exponent minus whole [] []
match_fraction minus whole (c ∷ t) =
    let (fraction, rest) = take_digits t in
    if c == b'.'
    then if is_empty fraction then none else match_exponent minus whole fraction rest
    else match_exponent minus whole [] (c ∷ t)

-- `decimalPattern.FindStringSubmatch`
unfoldable pub match_decimal : Text → Option Match
unfolding take_digits match_fraction
match_decimal t =
    let (minus, rest) = take_sign t in
    let (whole, after) = take_digits rest in
    if is_empty whole then none else match_fraction minus whole after

-- `strings.ReplaceAll(t, ",", "")`
unfoldable pub remove_commas : Text → Text
remove_commas [] = []
remove_commas (c ∷ t) = let rest = remove_commas t in if c == b',' then rest else c ∷ rest

-- An `int`: `places k` is the positive scale `k`, and `shift k` the scale `-k`.
pub data Scale : Type 0 where
  places : ℕ → Scale
  shift : ℕ → Scale

abbrev pub word : ℕ
word = 18446744073709551616

abbrev pub half_word : ℕ
half_word = 9223372036854775808

abbrev pub scale_of : ℕ → Scale
scale_of zero = shift 0
scale_of (suc k) = places (suc k)

-- `scale -= exponent`, in 64 bits: a scale that is too large wraps round to a negative one.
unfoldable pub subtract_exponent : ℕ → Bool → ℕ → Scale
subtract_exponent n false e = if leb n e then shift (e - n) else scale_of (n - e)
subtract_exponent n true e =
    if ltb (n + e) half_word then scale_of (n + e) else shift (word - (n + e))

-- `fmt.Sscanf` with `%d`, which refuses what does not fit an `int`.
unfoldable pub find_scale : Match → Outcome Scale
unfolding subtract_exponent
find_scale m = elim m.exponent [
  | none ↦ ok (scale_of (length m.fraction))
  | some (minus, digits) ↦
      if ltb (value 0 digits) half_word || (minus && value 0 digits == half_word)
      then ok (subtract_exponent (length m.fraction) minus (value 0 digits))
      else err invalid_exponent
]

-- The first `n` of a text, and the rest.
abbrev pub take : ℕ → Text → Text
take zero t = []
take (suc n) [] = []
take (suc n) (c ∷ t) = c ∷ take n t

abbrev pub drop : ℕ → Text → Text
drop zero t = t
drop (suc n) [] = []
drop (suc n) (c ∷ t) = drop n t

abbrev pub zero_or : Text → Text
zero_or [] = b'0' ∷ []
zero_or (c ∷ t) = c ∷ t

-- `integer + "." + fraction`, or the integer where no fraction is left.
abbrev pub join_parts : Text → Text → Text
join_parts whole [] = whole
join_parts whole (c ∷ t) = whole ++ b'.' ∷ (c ∷ t)

-- `strings.Repeat` gets memory for at most `memory` bytes, and panics above.
module _ (memory : ℕ) where
  unfoldable pub zeros : ℕ → Outcome Text
  zeros n = if leb n memory then ok (replicate n b'0') else panic

  unfoldable pub place_point : Text → Scale → Outcome Text
  unfolding zeros trim_left trim_right
  place_point digits (shift k) = zeros k >>= λ padding. ok (trim_left is_zero (digits ++ padding))
  place_point digits (places k) =
      if leb (length digits) k
      then (zeros (k - length digits) >>= λ padding.
          ok (b'0' ∷ b'.' ∷ trim_right is_zero (padding ++ digits)))
      else ok (
          join_parts (zero_or (trim_left is_zero (take (length digits - k) digits)))
            (trim_right is_zero (drop (length digits - k) digits)))

  unfoldable pub canonical_digits : Match → Outcome Text
  unfolding find_scale place_point trim_right
  canonical_digits m =
      let digits = m.whole ++ m.fraction in
      if is_empty (trim_right is_zero digits)
      then ok (b'0' ∷ [])
      else find_scale m >>= place_point digits

  unfoldable pub canonical_decimal : Text → Outcome Text
  unfolding match_decimal remove_commas canonical_digits
  canonical_decimal input = do
    m ← require (match_decimal (remove_commas (trim_space input))) not_a_decimal
    signless ← forbid m.minus negative
    canonical_digits m
