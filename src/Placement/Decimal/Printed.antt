-- ===== src/Placement/Decimal/Printed.antt =====
-- internal/placement/engine.go, `formatRat`: what is printed, and what the engine reads back.
use pfas_load_control.Base.{ℕ, ◌+◌, ◌*◌, ◌≤◌, ◌≡◌, ◌∙◌, ap, ok}
use pfas_load_control.Rat.{Rat, IsNonneg, micro}
use pfas_load_control.Rat.Micro.{IsMicro}
use pfas_load_control.Rat.Rounding.{micro_near}
use pfas_load_control.Placement.Decimal.{decimal, format_rat}
use pfas_load_control.Placement.Decimal.RoundTrip.{format_rat-micro}
use pfas_load_control.Placement.Facts.{Library}
use pfas_load_control.Placement.Allocate.Micro.{decimal-micro_text}

-- The text that a fraction which is not negative is printed as reads back as a whole number of
-- millionths, within half a millionth of the fraction.
pub decimal-format_rat :
    (lib : Library) (x : Rat)
    → IsNonneg x
    → (y : Rat) × (n : ℕ) × (decimal lib.set_string (format_rat x) ≡ ok y)
      × IsMicro y n
      × (2 * (n * x.den) ≤ 2 * (x.abs * 1000000) + x.den)
      × (2 * (x.abs * 1000000) ≤ 2 * (n * x.den) + x.den)
decimal-format_rat lib x h =
    let (y, e, m) = decimal-micro_text lib (micro x) in
    let (below, above) = micro_near x h.1 in
    (y, micro x, ap (decimal lib.set_string) (format_rat-micro x h.0) ∙ e, m, below, above)
