-- ===== src/Placement/Facts/Floats.antt =====
-- The order of `float64`, on IEEE 754 bit patterns: a sign bit above 63 bits of magnitude.
use pfas_load_control.Base.{ℕ, ◌-◌, ◌+◌, Bool, false, not, ◌&&◌, ◌==◌, ltb, leb, if◌then◌else◌}
use pfas_load_control.Placement.Model.Resolution.{Float}

abbrev pub is_negative : Float → Bool
is_negative x = leb 0x8000000000000000 x

abbrev pub magnitude : Float → ℕ
magnitude x = if is_negative x then x - 0x8000000000000000 else x

abbrev pub infinity : ℕ
infinity = 0x7ff0000000000000

abbrev pub is_nan : Float → Bool
is_nan x = ltb infinity (magnitude x)

abbrev pub is_inf : Float → Bool
is_inf x = magnitude x == infinity

-- The order of two numbers that are not NaN; the two zeros are equal.
unfoldable pub number_lt : Float → Float → Bool
number_lt x y =
    if is_negative x
    then (if is_negative y
        then ltb (magnitude y) (magnitude x)
        else ltb 0 (magnitude x + magnitude y))
    else if is_negative y
    then false
    else ltb (magnitude x) (magnitude y)

unfoldable pub float_lt : Float → Float → Bool
unfolding number_lt
float_lt x y = not (is_nan x) && not (is_nan y) && number_lt x y

unfoldable pub float_le : Float → Float → Bool
unfolding number_lt
float_le x y = not (is_nan x) && not (is_nan y) && not (number_lt y x)

-- `math.MaxFloat64`
abbrev pub max_float : Float
max_float = 0x7fefffffffffffff
