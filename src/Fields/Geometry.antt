-- ===== src/Fields/Geometry.antt =====
-- internal/field/geometry.go, `validateCoordinates`.
pub mod Valid
pub mod Total
use pfas_load_control.Base.{
  ℕ, Bool, true, false, not, ◌&&◌, ◌||◌, List, [], ◌∷◌, String, length, ltb, if◌then◌else◌, Result,
  panic, ok, err, ◌>>=◌,
}
use pfas_load_control.Placement.Model.Resolution.{Float}
use pfas_load_control.Placement.Facts.Floats.{float_lt, float_le, is_nan, is_inf}

abbrev pub Check : Type 0 → Type 0
Check = Result String

-- A position is a list of coordinates, a ring a list of positions, a polygon a list of rings.
abbrev pub Position : Type 0
Position = List Float

-- -180, 180, -90 and 90
abbrev pub west : Float
west = 0xc066800000000000

abbrev pub east : Float
east = 0x4066800000000000

abbrev pub south : Float
south = 0xc056800000000000

abbrev pub north : Float
north = 0x4056800000000000

abbrev pub is_infinite : Float → Float → Bool
is_infinite x y = is_nan x || is_nan y || is_inf x || is_inf y

abbrev pub is_outside : Float → Float → Bool
is_outside x y = float_lt x west || float_lt east x || float_lt y south || float_lt north y

-- `==` on two numbers
abbrev pub float_eq : Float → Float → Bool
float_eq x y = float_le x y && float_le y x

unfoldable pub check_position : Position → Check Unit
check_position [] = err "each field boundary position must contain finite longitude and latitude"
check_position (x ∷ []) =
    err "each field boundary position must contain finite longitude and latitude"
check_position (x ∷ y ∷ more) =
    if is_infinite x y
    then err "each field boundary position must contain finite longitude and latitude"
    else if is_outside x y
    then err "field boundary coordinates are outside longitude and latitude bounds"
    else ok tt

unfoldable pub check_positions : List Position → Check Unit
unfolding check_position
check_positions [] = ok tt
check_positions (p ∷ ps) = check_position p >>= λ u. check_positions ps

-- `p[0]` and `p[1]`, and the first and the last position of a ring, which panic out of range.
unfoldable pub coordinates_of : Position → Result String (Float × Float)
coordinates_of [] = panic
coordinates_of (x ∷ []) = panic
coordinates_of (x ∷ y ∷ more) = ok (x, y)

unfoldable pub first_position : List Position → Result String Position
first_position [] = panic
first_position (p ∷ ps) = ok p

unfoldable pub last_position : List Position → Result String Position
last_position [] = panic
last_position (p ∷ []) = ok p
last_position (p ∷ q ∷ ps) = last_position (q ∷ ps)

unfoldable pub check_closed : List Position → Check Unit
unfolding coordinates_of first_position last_position
check_closed ring = first_position ring >>= λ first. last_position ring >>= λ last.
    coordinates_of first >>= λ a. coordinates_of last >>= λ b.
    if not (float_eq a.0 b.0) || not (float_eq a.1 b.1)
    then err "each field boundary ring must be closed"
    else ok tt

unfoldable pub check_ring : List Position → Check Unit
unfolding check_positions check_closed
check_ring ring =
    if ltb (length ring) 4
    then err "each field boundary ring must contain at least four positions"
    else (check_positions ring >>= λ u. check_closed ring)

unfoldable pub check_field_rings : List (List Position) → Check Unit
unfolding check_ring
check_field_rings [] = ok tt
check_field_rings (ring ∷ rings) = check_ring ring >>= λ u. check_field_rings rings

unfoldable pub check_polygon : List (List Position) → Check Unit
unfolding check_field_rings
check_polygon [] = err "each field polygon must contain an exterior ring"
check_polygon (ring ∷ rings) = check_field_rings (ring ∷ rings)

unfoldable pub check_polygons : List (List (List Position)) → Check Unit
unfolding check_polygon
check_polygons [] = ok tt
check_polygons (polygon ∷ polygons) = check_polygon polygon >>= λ u. check_polygons polygons

unfoldable pub validate_coordinates : List (List (List Position)) → Check Unit
unfolding check_polygons
validate_coordinates [] = err "field boundary must contain at least one polygon"
validate_coordinates (polygon ∷ polygons) = check_polygons (polygon ∷ polygons)
