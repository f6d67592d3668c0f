-- ===== src/Tests/Standard.antt =====
-- Functions that stand for Go's standard library in the tests: decimal notation is read by `scan`,
-- JSON is read in the few forms that the tests use, and letters are made small or large in ASCII.
use pfas_load_control.Base.{
  ℕ, ◌+◌, ◌-◌, ◌<◌, ◌≡◌, refl, Bool, true, false, not, ◌&&◌, ◌||◌, ltb, leb, Option, none, some,
  Text, map, codes, text_eq, if◌then◌else◌, arith,
}
use pfas_load_control.Rat.{Rat}
use pfas_load_control.Rat.Micro.{IsMicro}
use pfas_load_control.Numeral.{scan}
use pfas_load_control.Placement.Decimal.{micro_text}
use pfas_load_control.Placement.Decimal.RoundTrip.{scan-micro_text}
use pfas_load_control.Placement.Facts.{Library}

abbrev is_normal : Rat → Bool
is_normal x = ltb 0 x.den && (not x.neg || ltb 0 x.abs)

-- Decimal notation, in normal form.
unfoldable pub read : Text → Option Rat
read t = elim (scan t) [ none ↦ none | some x ↦ if is_normal x then some x else none ]

normal_micro : (x : Rat) (n : ℕ) → IsMicro x n → is_normal x ≡ true
normal_micro x n (s, e, d) = ground arith

pub read-micro_text : (n : ℕ) → (x : Rat) × (read (micro_text n) ≡ some x) × IsMicro x n
unfolding read
read-micro_text n =
    let (x, e, h) = scan-micro_text n in (x, rw (read, e, normal_micro x n h) refl, h)

pub read_normal : (t : Text) (x : Rat) → read t ≡ some x → (0 < x.den) × (x.neg ≡ true → 0 < x.abs)
unfolding read
read_normal t x e = ground arith

abbrev pub to_lower : Text → Text
to_lower = map (λ c. if leb 65 c && leb c 90 then c + 32 else c)

abbrev pub to_upper : Text → Text
to_upper = map (λ c. if leb 97 c && leb c 122 then c - 32 else c)

abbrev pub library : Library
library = record {
  unmarshal_bool = λ t.
      if text_eq t (codes "true")
      then some true
      else if text_eq t (codes "false")
      then some false
      else none;
  unmarshal_max = λ t. none;
  decode_number = λ t. some t;
  parse_float = λ t. none;
  marshal_string = codes;
  to_lower = to_lower;
  float_mul = λ x y. x;
  float_div = λ x y. x;
  atan = λ x. x;
  sha256_hex = λ s. s;
  set_string = read;
  set_string-micro_text = read-micro_text;
  set_string_normal = read_normal;
}
