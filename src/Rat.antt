-- ===== src/Rat.antt =====
-- Go's `math/big.Rat`: a sign, a magnitude and a denominator. Fractions are not reduced here, which
-- no operation below can tell; the denominator of a fraction that the program holds is positive.
pub mod Micro
pub mod Rounding
use pfas_load_control.Base.{
  ℕ, ◌+◌, ◌-◌, ◌*◌, ◌/◌, ◌%◌, compare, Ordering, Bool, true, false, not, ◌&&◌, ◌==◌, ltb, leb,
  if◌then◌else◌, Result, ok, panic, ◌≡◌, ◌<◌,
}

pub record Rat : Type 0 where
  pub neg : Bool
  pub abs : ℕ
  pub den : ℕ

-- Zero has no sign.
abbrev pub signed : Bool → ℕ → ℕ → Rat
signed n a d = record { neg = n && ltb 0 a; abs = a; den = d }

-- `big.NewRat(a, b)` for the constants of the program, and `new(big.Rat)`
abbrev pub new_rat : ℕ → ℕ → Rat
new_rat a b = record { neg = false; abs = a; den = b }

abbrev pub zero_rat : Rat
zero_rat = new_rat 0 1

unfoldable pub sign : Rat → Ordering
sign x = if x.abs == 0 then Ordering.eq else if x.neg then Ordering.lt else Ordering.gt

unfoldable pub cmp_signed : Bool → ℕ → Bool → ℕ → Ordering
cmp_signed false a false b = compare a b
cmp_signed true a true b = compare b a
cmp_signed false a true b = if a + b == 0 then Ordering.eq else Ordering.gt
cmp_signed true a false b = if a + b == 0 then Ordering.eq else Ordering.lt

unfoldable pub cmp : Rat → Rat → Ordering
unfolding cmp_signed
cmp x y = cmp_signed x.neg (x.abs * y.den) y.neg (y.abs * x.den)

unfoldable pub mul : Rat → Rat → Rat
mul x y = signed (if x.neg then not y.neg else y.neg) (x.abs * y.abs) (x.den * y.den)

-- A division by zero panics.
unfoldable pub quo {ℓ} : {E : Type ℓ} → Rat → Rat → Result E Rat
quo x y =
    if y.abs == 0
    then panic
    else ok (signed (if x.neg then not y.neg else y.neg) (x.abs * y.den) (x.den * y.abs))

unfoldable pub add_signed : Bool → ℕ → Bool → ℕ → ℕ → Rat
add_signed false a false b d = signed false (a + b) d
add_signed true a true b d = signed true (a + b) d
add_signed false a true b d = if leb b a then signed false (a - b) d else signed true (b - a) d
add_signed true a false b d = if leb a b then signed false (b - a) d else signed true (a - b) d

unfoldable pub add : Rat → Rat → Rat
unfolding add_signed
add x y = add_signed x.neg (x.abs * y.den) y.neg (y.abs * x.den) (x.den * y.den)

unfoldable pub sub : Rat → Rat → Rat
unfolding add
sub x y = add x (record y { neg = not y.neg })

-- n / d to the nearest whole number, halves upwards.
unfoldable pub round_div : ℕ → ℕ → ℕ
round_div n d = let q = n / d in if leb d (2 * (n % d)) then q + 1 else q

-- The number of millionths that `FloatString(6)` prints.
unfoldable pub micro : Rat → ℕ
micro x = round_div (x.abs * 1000000) x.den

abbrev pub IsNonneg : Rat → Type 0
IsNonneg x = (x.neg ≡ false) × (0 < x.den)
