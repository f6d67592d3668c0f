-- ===== src/Placement/Facts.antt =====
-- internal/placement/engine.go: how the engine reads the facts of a field, with what it takes of
-- Go's standard library as the record `Library`.
pub mod Floats
pub mod FloatOrder
use pfas_load_control.Base.{
  ℕ, zero, suc, ◌*◌, ◌≡◌, ◌<◌, Bool, true, false, not, ◌&&◌, ◌||◌, Option, none, some, List, [],
  ◌∷◌, String, Text, contains, codes, str_eq, if◌then◌else◌,
}
use pfas_load_control.Rat.{Rat}
use pfas_load_control.Rat.Micro.{IsMicro}
use pfas_load_control.Placement.Decimal.{micro_text}
use pfas_load_control.Placement.Model.{FactInput, PlacementComponent}
use pfas_load_control.Placement.Model.Resolution.{Float}
use pfas_load_control.Placement.Facts.Floats.{float_lt, float_le, is_nan, is_inf}

-- `encoding/json` on a raw message, `strings.ToLower`, the two float operations behind the slope
-- threshold, and `big.Rat.SetString`, with its documented effect on the texts that the engine
-- prints: a decimal notation is read as the number that it stands for, in a normal form whose
-- denominator is positive and whose zero has no sign.
pub record Library : Type 0 where
  pub unmarshal_bool : Text → Option Bool
  pub unmarshal_max : Text → Option Float
  pub decode_number : Text → Option Text
  pub parse_float : Text → Option Float
  pub marshal_string : String → Text
  pub to_lower : Text → Text
  pub float_mul : Float → Float → Float
  pub float_div : Float → Float → Float
  pub atan : Float → Float
  pub sha256_hex : String → String
  pub set_string : Text → Option Rat
  pub set_string-micro_text :
      (n : ℕ) → (x : Rat) × (set_string (micro_text n) ≡ some x) × IsMicro x n
  pub set_string_normal :
      (t : Text) (x : Rat) → set_string t ≡ some x → (0 < x.den) × (x.neg ≡ true → 0 < x.abs)

-- A map from names to facts; a name that is absent reads as the zero value of Go.
abbrev pub Facts : Type 0
Facts = String → Option FactInput

abbrev insert_fact : Facts → FactInput → Facts
insert_fact m f = λ k. if str_eq k f.name then some f else m k

fact_map_from : Facts → List FactInput → Facts
fact_map_from m [] = m
fact_map_from m (f ∷ fs) = fact_map_from (insert_fact m f) fs

unfoldable pub fact_map : List FactInput → Facts
unfolding fact_map_from
fact_map fs = fact_map_from (λ k. none) fs

abbrev zero_fact : FactInput
zero_fact = record {
  name = "";
  label = "";
  state = "";
  value = [];
  unit = "";
  source = "";
  source_url = "";
}

unfoldable pub at : Facts → String → FactInput
at m k = elim (m k) [ none ↦ zero_fact | some f ↦ f ]

unfoldable pub components : Facts → List String → List PlacementComponent
components m [] = []
components m (k ∷ ks) =
    let rest = components m ks in
    elim (m k) [
      | none ↦ rest
      | some f ↦
          record {
            fact_name = f.name;
            label = f.label;
            state = f.state;
            value = f.value;
            unit = f.unit;
            source = f.source;
            source_url = f.source_url;
          }
          ∷ rest
    ]

unfoldable pub is_complete : FactInput → Bool
is_complete f = str_eq f.state "COMPLETE"

unfoldable pub all_facts_complete : Facts → List String → Bool
unfolding at is_complete
all_facts_complete m [] = true
all_facts_complete m (k ∷ ks) = is_complete (at m k) && all_facts_complete m ks

unfoldable pub contains_any : Text → List String → Bool
unfolding contains
contains_any t [] = false
contains_any t (needle ∷ needles) = contains t (codes needle) || contains_any t needles

module _ (lib : Library) where
  open lib use {
    unmarshal_bool, unmarshal_max, decode_number, parse_float, float_mul, float_div, atan,
  }

  unfoldable pub bool_fact : FactInput → Bool
  unfolding is_complete
  bool_fact f = is_complete f && elim (unmarshal_bool f.value) [ none ↦ false | some b ↦ b ]

  -- A JSON number that is a finite `float64`.
  finite_number : Text → Option Float
  finite_number literal = elim (parse_float literal) [
    | none ↦ none
    | some x ↦ if is_nan x || is_inf x then none else some x
  ]

  unfoldable pub numeric_fact : FactInput → Option Float
  unfolding is_complete finite_number
  numeric_fact f =
      if is_complete f
      then elim (decode_number f.value) [ none ↦ none | some literal ↦ finite_number literal ]
      else none

  unfoldable pub positive_fact : FactInput → Bool
  unfolding numeric_fact
  positive_fact f = elim (numeric_fact f) [ none ↦ false | some x ↦ float_lt 0 x ]

  unfoldable pub within : FactInput → Float → Bool
  unfolding numeric_fact
  within f limit = elim (numeric_fact f) [ none ↦ false | some x ↦ float_le x limit ]

  unfoldable pub range_maximum : FactInput → Option Float
  unfolding is_complete
  range_maximum f = if is_complete f then unmarshal_max f.value else none

  -- `math.Atan(0.06) * 180 / math.Pi`
  unfoldable pub surface_slope_threshold_degrees : Float
  surface_slope_threshold_degrees =
      float_div (float_mul (atan 0x3faeb851eb851eb8) 0x4066800000000000) 0x400921fb54442d18

  unfoldable pub slope_exceeds_surface_limit : Float → Bool
  unfolding surface_slope_threshold_degrees
  slope_exceeds_surface_limit degrees = float_lt surface_slope_threshold_degrees degrees

  unfoldable pub exceeds_surface_slope_limit : Facts → Bool
  unfolding at range_maximum slope_exceeds_surface_limit
  exceeds_surface_slope_limit m = elim (range_maximum (at m "slope_degrees")) [
    | none ↦ false
    | some maximum ↦ slope_exceeds_surface_limit maximum
  ]
