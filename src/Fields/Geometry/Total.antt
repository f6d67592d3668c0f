-- ===== src/Fields/Geometry/Total.antt =====
-- internal/field/geometry.go, `validateCoordinates`: no position is read out of range.
use pfas_load_control.Base.{
  ◌≡◌, refl, subst, inl, inr, Bool, true, false, not, ◌||◌, ltb, List, [], ◌∷◌, String, All, length,
  if◌then◌else◌, Bool-cases, ok, err, ok-injective, is_panic, >>=-is_panic,
}
use pfas_load_control.Fields.Geometry.{
  Check, Position, is_infinite, is_outside, float_eq, check_position, check_positions,
  coordinates_of, last_position, check_closed, check_ring, check_field_rings, check_polygon,
  check_polygons, validate_coordinates,
}
use pfas_load_control.Fields.Geometry.Valid.{IsPosition, check_positions-All}

last_total : (p : Position) (ps : List Position) → is_panic (last_position (p ∷ ps)) ≡ false
unfolding last_position
last_total p [] = refl
last_total p (q ∷ ps) = last_total q ps

last_position-IsPosition :
    (p : Position) (ps : List Position) {q : Position}
    → All IsPosition (p ∷ ps)
    → last_position (p ∷ ps) ≡ ok q
    → IsPosition q
unfolding last_position
last_position-IsPosition p [] {q} (hp, h) e = subst IsPosition (ok-injective p e) hp
last_position-IsPosition p (r ∷ ps) (hp, h) e = last_position-IsPosition r ps h e

coordinates_total : (p : Position) → IsPosition p → is_panic (coordinates_of p) ≡ false
unfolding coordinates_of
coordinates_total [] h = elim h [ ]
coordinates_total (x ∷ []) h = elim h [ ]
coordinates_total (x ∷ y ∷ more) h = refl

abbrev refused_if : Bool → String → Check Unit
refused_if b message = if b then err message else ok tt

if_total : (b : Bool) (message : String) → is_panic (refused_if b message) ≡ false
if_total true message = refl
if_total false message = refl

check_closed_total :
    (p : Position) (ps : List Position)
    → All IsPosition (p ∷ ps)
    → is_panic (check_closed (p ∷ ps)) ≡ false
unfolding check_closed
check_closed_total p ps (hp, h) =
    >>=-is_panic (last_position (p ∷ ps)) _ (last_total p ps) (λ last e1.
      >>=-is_panic (coordinates_of p) _ (coordinates_total p hp) (λ a e2.
        >>=-is_panic (coordinates_of last) _
          (coordinates_total last (last_position-IsPosition p ps (hp, h) e1))
          (λ b e3.
            if_total (not (float_eq a.0 b.0) || not (float_eq a.1 b.1))
              "each field boundary ring must be closed")))

check_position_total : (p : Position) → is_panic (check_position p) ≡ false
unfolding check_position
check_position_total [] = refl
check_position_total (x ∷ []) = refl
check_position_total (x ∷ y ∷ more) = elim (Bool-cases (is_infinite x y)) [
  | inl bad ↦ rw bad refl
  | inr finite ↦ rw finite (
      if_total (is_outside x y)
        "field boundary coordinates are outside longitude and latitude bounds")
]

check_positions_total : (ps : List Position) → is_panic (check_positions ps) ≡ false
unfolding check_positions
check_positions_total [] = refl
check_positions_total (p ∷ ps) =
    >>=-is_panic (check_position p) _ (check_position_total p) (λ u e. check_positions_total ps)

check_ring_total : (ring : List Position) → is_panic (check_ring ring) ≡ false
unfolding check_ring
check_ring_total [] = refl
check_ring_total (p ∷ ps) = elim (Bool-cases (ltb (length (p ∷ ps)) 4)) [
  | inl short ↦ rw short refl
  | inr long ↦ rw long (
      >>=-is_panic (check_positions (p ∷ ps)) _ (check_positions_total (p ∷ ps))
        (λ u e. check_closed_total p ps (check_positions-All (p ∷ ps) e)))
]

check_field_rings_total :
    (rings : List (List Position)) → is_panic (check_field_rings rings) ≡ false
unfolding check_field_rings
check_field_rings_total [] = refl
check_field_rings_total (ring ∷ rings) =
    >>=-is_panic (check_ring ring) _ (check_ring_total ring) (λ u e. check_field_rings_total rings)

check_polygon_total : (polygon : List (List Position)) → is_panic (check_polygon polygon) ≡ false
unfolding check_polygon
check_polygon_total [] = refl
check_polygon_total (ring ∷ rings) = check_field_rings_total (ring ∷ rings)

check_polygons_total :
    (polygons : List (List (List Position))) → is_panic (check_polygons polygons) ≡ false
unfolding check_polygons
check_polygons_total [] = refl
check_polygons_total (polygon ∷ polygons) =
    >>=-is_panic (check_polygon polygon) _ (check_polygon_total polygon)
      (λ u e. check_polygons_total polygons)

-- The checks of a boundary never panic: no ring and no position is read out of range, whatever
-- the number of polygons, rings, positions and coordinates.
pub validate_coordinates_total :
    (polygons : List (List (List Position))) → is_panic (validate_coordinates polygons) ≡ false
unfolding validate_coordinates
validate_coordinates_total [] = refl
validate_coordinates_total (polygon ∷ polygons) = check_polygons_total (polygon ∷ polygons)
