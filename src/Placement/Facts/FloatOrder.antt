-- ===== src/Placement/Facts/FloatOrder.antt =====
-- The order of the `float64` numbers that are not NaN.
use pfas_load_control.Base.{true, false, ◌≡◌, arith}
use pfas_load_control.Placement.Model.Resolution.{Float}
use pfas_load_control.Placement.Facts.Floats.{is_nan, number_lt, float_lt}

pub float_lt_irrefl : (x : Float) → float_lt x x ≡ false
unfolding float_lt number_lt
float_lt_irrefl x = ground arith

pub float_lt_asym : (x y : Float) → float_lt x y ≡ true → float_lt y x ≡ false
unfolding float_lt number_lt
float_lt_asym x y h = ground arith

-- `y` is not below `x` and `z` not below `y`.
pub float_lt_trans :
    (x y z : Float)
    → is_nan y ≡ false
    → float_lt y x ≡ false
    → float_lt z y ≡ false
    → float_lt z x ≡ false
unfolding float_lt number_lt
float_lt_trans x y z n h k = ground arith
