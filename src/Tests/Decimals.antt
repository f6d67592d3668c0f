-- ===== src/Tests/Decimals.antt =====
-- Decimals in their canonical notation, and normalized concentrations.
use pfas_load_control.Base.{
  none, some, [], ◌++◌, is_empty, trim_right, false, codes, ◌≡◌, refl, ok, err, panic, trim_space,
  arith,
}
use pfas_load_control.Rat.{Rat}
use pfas_load_control.Numeral.{scan}
use pfas_load_control.Numeral.Scan.{scan_positive}
use pfas_load_control.Numeral.Trim.{is_zero}
use pfas_load_control.Lab.Decimal.{negative, Match, match_decimal, remove_commas, canonical_decimal}
use pfas_load_control.Lab.Decimal.Canonical.{
  literal, Same, canonical_decimal_lem, canonical_decimal_panics,
}
use pfas_load_control.Lab.Concentration.{normalize_concentration}
use pfas_load_control.Lab.Concentration.Numbers.{IsReader}
use pfas_load_control.Lab.Concentration.Normalized.{
  IsNormalized, normalize_concentration-IsNormalized,
}

canonical_tests :
    (canonical_decimal 1000 (codes " +1,234.500 ") ≡ ok (codes "1234.5"))
    × (canonical_decimal 1000 (codes "12.5e3") ≡ ok (codes "12500"))
    × (canonical_decimal 1000 (codes "0.05E-2") ≡ ok (codes "0.0005"))
    × (canonical_decimal 1000 (codes "00.00e5") ≡ ok (codes "0"))
    × (canonical_decimal 1000 (codes "-1") ≡ err negative)
    × (canonical_decimal 1000 (codes "1e5000") ≡ panic)
unfolding canonical_decimal trim_space
canonical_tests = (refl, refl, refl, refl, refl, refl)

abbrev price : Match
price = record { minus = false; whole = codes "1234"; fraction = codes "500"; exponent = none }

price_matched : match_decimal (remove_commas (trim_space (codes " +1,234.500 "))) ≡ some price
unfolding match_decimal remove_commas trim_space
price_matched = refl

price_run : canonical_decimal 1000 (codes " +1,234.500 ") ≡ ok (codes "1234.5")
unfolding canonical_decimal trim_space
price_run = refl

canonical_decimal_lem_example :
    (price.minus ≡ false) × ((x : Rat) × (scan (codes "1234.5") ≡ some x) × Same x (literal price))
canonical_decimal_lem_example =
    canonical_decimal_lem 1000 (codes " +1,234.500 ") price price_matched (omega arith) price_run

abbrev huge : Match
huge = record {
  minus = false;
  whole = codes "1";
  fraction = [];
  exponent = some (false, codes "5000");
}

huge_matched : match_decimal (remove_commas (trim_space (codes "1e5000"))) ≡ some huge
unfolding match_decimal remove_commas trim_space
huge_matched = refl

huge_full : is_empty (trim_right is_zero (huge.whole ++ huge.fraction)) ≡ false
unfolding trim_right
huge_full = refl

canonical_decimal_panics_example : canonical_decimal 1000 (codes "1e5000") ≡ panic
canonical_decimal_panics_example =
    canonical_decimal_panics 1000 (codes "1e5000") (codes "5000") huge huge_matched refl refl
      huge_full (omega arith) (omega arith)

wet_run :
    normalize_concentration 1000 scan (codes "2") "MG_KG" "WET" (some (codes "25"))
    ≡ ok (some (codes "8000"))
unfolding normalize_concentration trim_space scan
wet_run = refl

scan-IsReader : IsReader scan
scan-IsReader t x e h = (x, e, (h, refl), scan_positive t x e)

normalize_concentration-IsNormalized_example :
    IsNormalized (codes "2") "MG_KG" "WET" (some (codes "25")) (codes "8000")
normalize_concentration-IsNormalized_example =
    normalize_concentration-IsNormalized 1000 scan scan-IsReader (codes "2") "MG_KG" "WET"
      (some (codes "25")) (omega arith) (omega arith) wet_run
