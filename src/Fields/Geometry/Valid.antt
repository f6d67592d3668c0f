-- ===== src/Fields/Geometry/Valid.antt =====
-- internal/field/geometry.go, `validateCoordinates`: what a boundary that is accepted is like.
use pfas_load_control.Base.{
  ◌≤◌, ◌≡◌, refl, inl, inr, Bool, true, false, not, ◌||◌, ltb, List, [], ◌∷◌, All, length,
  if◌then◌else◌, Bool-cases, ok, err, >>=-eq-ok, arith,
}
use pfas_load_control.Placement.Model.Resolution.{Float}
use pfas_load_control.Fields.Geometry.{
  Check, Position, is_infinite, is_outside, float_eq, check_position, check_positions,
  coordinates_of, first_position, last_position, check_closed, check_ring, check_field_rings,
  check_polygon, check_polygons, validate_coordinates,
}

-- A finite longitude and latitude within the bounds.
abbrev pub IsPosition : Position → Type 0
IsPosition [] = ⊥
IsPosition (x ∷ []) = ⊥
IsPosition (x ∷ y ∷ more) = (is_infinite x y ≡ false) × (is_outside x y ≡ false)

abbrev pub SamePlace : Position → Position → Type 0
SamePlace p q =
    (a : Float × Float) × (b : Float × Float) × (coordinates_of p ≡ ok a)
    × (coordinates_of q ≡ ok b)
    × (float_eq a.0 b.0 ≡ true)
    × (float_eq a.1 b.1 ≡ true)

abbrev pub IsRing : List Position → Type 0
IsRing ring =
    (4 ≤ length ring)
    × All IsPosition ring
    × ((first : Position) × (last : Position) × (first_position ring ≡ ok first)
        × (last_position ring ≡ ok last)
        × SamePlace first last)

abbrev pub IsPolygon : List (List Position) → Type 0
IsPolygon polygon = (1 ≤ length polygon) × All IsRing polygon

abbrev pub IsBoundary : List (List (List Position)) → Type 0
IsBoundary polygons = (1 ≤ length polygons) × All IsPolygon polygons

check_position-IsPosition : (p : Position) {u : Unit} → check_position p ≡ ok u → IsPosition p
unfolding check_position
check_position-IsPosition [] h = cc
check_position-IsPosition (x ∷ []) h = cc
check_position-IsPosition (x ∷ y ∷ more) {u} h = elim (Bool-cases (is_infinite x y)) [
  | inl bad ↦ let absurd : ◌≡◌ {A = Check Unit} (err _) (ok u) = rw bad at h in cc
  | inr finite ↦ elim (Bool-cases (is_outside x y)) [
    | inl bad ↦ let absurd : ◌≡◌ {A = Check Unit} (err _) (ok u) = rw (finite, bad) at h in cc
    | inr inside ↦ (finite, inside)
  ]
]

-- A loop that checks each element.
pub check_positions-All :
    (ps : List Position) {u : Unit} → check_positions ps ≡ ok u → All IsPosition ps
unfolding check_positions
check_positions-All [] h = tt
check_positions-All (p ∷ ps) h =
    let (v, e, h1) = >>=-eq-ok (check_position p) _ h in
    (check_position-IsPosition p e, check_positions-All ps h1)

check_closed-ends :
    (ring : List Position) {u : Unit}
    → check_closed ring ≡ ok u
    → (first : Position) × (last : Position) × (first_position ring ≡ ok first)
      × (last_position ring ≡ ok last)
      × SamePlace first last
unfolding check_closed
check_closed-ends ring {u} h =
    let (first, e1, h1) = >>=-eq-ok (first_position ring) _ h in
    let (last, e2, h2) = >>=-eq-ok (last_position ring) _ h1 in
    let (a, e3, h3) = >>=-eq-ok (coordinates_of first) _ h2 in
    let (b, e4, h4) = >>=-eq-ok (coordinates_of last) _ h3 in
    let (same_x, same_y) = both_same (float_eq a.0 b.0) (float_eq a.1 b.1) h4 in
    (first, last, e1, e2, (a, b, e3, e4, same_x, same_y))
  where
    both_same :
        (x y : Bool) {v : Unit}
        → ◌≡◌ {A = Check Unit}
            (if not x || not y then err "each field boundary ring must be closed" else ok tt)
            (ok v)
        → (x ≡ true) × (y ≡ true)
    both_same true true k = (refl, refl)
    both_same true false k = cc
    both_same false y k = cc

check_ring-IsRing : (ring : List Position) {u : Unit} → check_ring ring ≡ ok u → IsRing ring
unfolding check_ring
check_ring-IsRing ring {u} h = elim (Bool-cases (ltb (length ring) 4)) [
  | inl short ↦ let absurd : ◌≡◌ {A = Check Unit} (err _) (ok u) = rw short at h in cc
  | inr long ↦
      let (v, e, h1) = >>=-eq-ok (check_positions ring) _ (rw long at h) in
      (ground arith, check_positions-All ring e, check_closed-ends ring h1)
]

check_field_rings-All :
    (rings : List (List Position)) {u : Unit} → check_field_rings rings ≡ ok u → All IsRing rings
unfolding check_field_rings
check_field_rings-All [] h = tt
check_field_rings-All (ring ∷ rings) h =
    let (v, e, h1) = >>=-eq-ok (check_ring ring) _ h in
    (check_ring-IsRing ring e, check_field_rings-All rings h1)

check_polygon-IsPolygon :
    (polygon : List (List Position)) {u : Unit} → check_polygon polygon ≡ ok u → IsPolygon polygon
unfolding check_polygon
check_polygon-IsPolygon [] h = cc
check_polygon-IsPolygon (ring ∷ rings) h = (omega arith, check_field_rings-All (ring ∷ rings) h)

check_polygons-All :
    (polygons : List (List (List Position))) {u : Unit}
    → check_polygons polygons ≡ ok u
    → All IsPolygon polygons
unfolding check_polygons
check_polygons-All [] h = tt
check_polygons-All (polygon ∷ polygons) h =
    let (v, e, h1) = >>=-eq-ok (check_polygon polygon) _ h in
    (check_polygon-IsPolygon polygon e, check_polygons-All polygons h1)

-- A boundary that is accepted has a polygon, each polygon a ring, and each ring at least four
-- positions with a finite longitude and latitude within the bounds, of which the first and the
-- last are the same place.
pub validate_coordinates-IsBoundary :
    (polygons : List (List (List Position))) {u : Unit}
    → validate_coordinates polygons ≡ ok u
    → IsBoundary polygons
unfolding validate_coordinates
validate_coordinates-IsBoundary [] h = cc
validate_coordinates-IsBoundary (polygon ∷ polygons) h =
    (omega arith, check_polygons-All (polygon ∷ polygons) h)
