-- ===== src/Numeral.antt =====
-- The decimal texts that Go's `big.Rat.FloatString` writes, and those that `SetString` reads.
pub mod Digits
pub mod Trim
pub mod Scan
pub mod Values
use pfas_load_control.Base.{
  ℕ, zero, suc, ◌+◌, ◌-◌, ◌*◌, ◌/◌, ◌%◌, ◌^◌, ◌≡◌, refl, Bool, true, false, ◌&&◌, ◌||◌, Option,
  none, some, List, [], ◌∷◌, ◌++◌, ◌==◌, ltb, leb, if◌then◌else◌, Text, codes,
}
use pfas_load_control.Rat.{Rat, round_div, micro, new_rat}

abbrev pub is_digit : ℕ → Bool
is_digit c = leb b'0' c && leb c b'9'

-- The digits of `n` in front of `out`; each round divides by ten.
digits_into : ℕ → ℕ → Text → Text
digits_into zero n out = out
digits_into (suc f) n out =
    let more = digits_into f (n / 10) ((b'0' + n % 10) ∷ out) in
    if ltb n 10 then (b'0' + n) ∷ out else more

-- A number has fewer digits than `n + 1`.
unfoldable pub show : ℕ → Text
unfolding digits_into
show n = digits_into (suc n) n []

unfoldable pub digit : ℕ → ℕ
digit n = b'0' + n % 10

-- The six digits of a number of millionths below one.
unfoldable pub six_digits : ℕ → Text
unfolding digit
six_digits r =
    digit (r / 100000)
    ∷ digit (r / 10000)
    ∷ digit (r / 1000)
    ∷ digit (r / 100)
    ∷ digit (r / 10)
    ∷ digit r
    ∷ []

-- `n` millionths with six decimal places.
unfoldable pub fixed : ℕ → Text
unfolding show six_digits
fixed n = show (n / 1000000) ++ b'.' ∷ six_digits (n % 1000000)

-- `FloatString(6)`
unfoldable pub float_string : Rat → Text
unfolding fixed micro round_div
float_string x = (if x.neg then b'-' ∷ [] else []) ++ fixed (micro x)

-- The number that digits spell behind `n`.
abbrev pub value : ℕ → Text → ℕ
value n [] = n
value n (c ∷ t) = value (n * 10 + (c - b'0')) t

-- `SetString` on decimal notation: a sign, digits with at most one point, and an exponent.
-- Fractions `a/b`, prefixed bases and underscores are not read by this one.
span_digits : Text → ℕ → ℕ → ℕ × ℕ × Text
span_digits [] n k = (n, k, [])
span_digits (c ∷ t) n k =
    let more = span_digits t (n * 10 + (c - b'0')) (k + 1) in
    if is_digit c then more else (n, k, c ∷ t)

is_end : ℕ → Text → Bool
is_end k [] = leb 1 k
is_end k (c ∷ t) = false

-- Behind the `e`: a sign and digits.
read_exponent : Text → ℕ → ℕ → Option Rat
unfolding span_digits is_end
read_exponent [] n f = none
read_exponent (c ∷ t) n f =
    let (p, j, r) = span_digits t 0 0 in
    let (q, k, s) = span_digits (c ∷ t) 0 0 in
    if c == b'-'
    then if is_end j r then some (new_rat n (10 ^ (f + p))) else none
    else if c == b'+'
    then if is_end j r then some (new_rat (n * 10 ^ p) (10 ^ f)) else none
    else if is_end k s
    then some (new_rat (n * 10 ^ q) (10 ^ f))
    else none

-- `k` digits spell `n`, `f` of them behind the point.
read_rest : ℕ → ℕ → ℕ → Text → Option Rat
unfolding read_exponent
read_rest n k f [] = if k == 0 then none else some (new_rat n (10 ^ f))
read_rest n k f (c ∷ t) =
    if k == 0 then none else if c == b'e' || c == b'E' then read_exponent t n f else none

read_point : ℕ → ℕ → Text → Option Rat
unfolding span_digits read_rest
read_point n k [] = read_rest n k 0 []
read_point n k (c ∷ t) =
    let (m, j, r) = span_digits t n 0 in
    if c == b'.' then read_rest m (k + j) j r else read_rest n k 0 (c ∷ t)

scan_unsigned : Text → Option Rat
unfolding span_digits read_point
scan_unsigned t = let (n, k, r) = span_digits t 0 0 in read_point n k r

abbrev negate : Option Rat → Option Rat
negate none = none
negate (some x) = some (record x { neg = ltb 0 x.abs })

unfoldable pub scan : Text → Option Rat
unfolding scan_unsigned
scan [] = none
scan (c ∷ t) =
    if c == b'-'
    then negate (scan_unsigned t)
    else if c == b'+'
    then scan_unsigned t
    else scan_unsigned (c ∷ t)

scan_tests :
    (scan (codes "-12.50") ≡ some (record { neg = true; abs = 1250; den = 100 }))
    × (scan (codes ".5e2") ≡ some (new_rat 500 10))
    × (scan (codes "1.2.3") ≡ none)
    × (scan (codes "") ≡ none)
    × (float_string (new_rat 2 3) ≡ codes "0.666667")
unfolding scan float_string
scan_tests = (refl, refl, refl, refl, refl)
