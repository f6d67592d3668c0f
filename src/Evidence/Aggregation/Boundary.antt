-- ===== src/Evidence/Aggregation/Boundary.antt =====
-- internal/evidence/aggregation.go, the least and the greatest of the observed numbers.
use pfas_load_control.Base.{
  ℕ, suc, ◌-◌, ◌≡◌, refl, sym, ◌∙◌, subst, inl, inr, Bool, true, false, ◌==◌, ==-refl, ==-true,
  List, [], ◌∷◌, any, All, Ordered, length, if◌then◌else◌, Bool-cases, Option-cases, String, Result,
  panic, ok, err, ok-injective, >>=-eq-ok, arith,
}
use pfas_load_control.Placement.Model.Resolution.{Float}
use pfas_load_control.Placement.Facts.Floats.{float_lt}
use pfas_load_control.Placement.Facts.FloatOrder.{float_lt_irrefl}
use pfas_load_control.Evidence.Model.{SampleObservation, Json}
use pfas_load_control.Evidence.Aggregation.{
  value_at, sort_floats, numeric_value, numeric_values, numeric_boundary,
}
use pfas_load_control.Evidence.Aggregation.Sorted.{
  NotBelow, IsNumber, any-sort_floats, sort_floats-Ordered,
}

any_none : (p : Float → Bool) (xs : List Float) → All (λ x. p x ≡ false) xs → any p xs ≡ false
any_none p [] h = refl
any_none p (x ∷ xs) (px, h) = rw px (any_none p xs h)

any_later :
    (p : Float → Bool) (x : Float) (xs : List Float) → any p xs ≡ true → any p (x ∷ xs) ≡ true
any_later p x xs h = elim (Bool-cases (p x)) [
  | inl here ↦ rw here refl
  | inr not_here ↦ rw not_here h
]

member-All :
    (P : Float → Type 0) (xs : List Float) (x : Float)
    → any (λ y. y == x) xs ≡ true
    → All P xs
    → P x
member-All P [] x h k = cc
member-All P (y ∷ ys) x h (py, k) = elim (Bool-cases (y == x)) [
  | inl here ↦ subst P (==-true y x here) py
  | inr later ↦ member-All P ys x (rw later at h) k
]

-- The first and the last of sorted numbers.
first_is_least :
    (xs : List Float) {x : Float}
    → Ordered NotBelow xs
    → value_at 0 xs ≡ ok x
    → (any (λ y. y == x) xs ≡ true) × (any (λ y. float_lt y x) xs ≡ false)
unfolding value_at
first_is_least [] h e = let absurd : panic ≡ ok _ = e in cc
first_is_least (y ∷ ys) {x} (first, h) e =
    subst
      (λ (z : Float).
        (any (λ w. w == z) (y ∷ ys) ≡ true) × (any (λ w. float_lt w z) (y ∷ ys) ≡ false))
      (ok-injective y e)
      (rw (==-refl y) refl, rw (float_lt_irrefl y) (any_none (λ w. float_lt w y) ys first))

-- A number of an ordered list is not above the last one.
last_is_greatest :
    (y : Float) (ys : List Float) {x : Float}
    → Ordered NotBelow (y ∷ ys)
    → value_at (length ys) (y ∷ ys) ≡ ok x
    → (any (λ z. z == x) (y ∷ ys) ≡ true) × All (λ z. float_lt x z ≡ false) (y ∷ ys)
unfolding value_at
last_is_greatest y [] {x} h e =
    subst
      (λ (z : Float).
        (any (λ w. w == z) (y ∷ []) ≡ true) × All (λ w. float_lt z w ≡ false) (y ∷ []))
      (ok-injective y e) (rw (==-refl y) refl, (float_lt_irrefl y, tt))
last_is_greatest y (z ∷ zs) {x} (first, h) e =
    let (found, above) = last_is_greatest z zs h e in
    (
      any_later (λ w. w == x) y (z ∷ zs) found,
      (member-All (NotBelow y) (z ∷ zs) x found first, above),
    )

module _ (json : Json) where
  numeric_value-IsNumber :
      (o : SampleObservation) {x : Float} → numeric_value json o ≡ ok x → IsNumber x
  unfolding numeric_value
  numeric_value-IsNumber o {x} h = elim (Option-cases (json.decode_number o.value)) [
    | inl missing ↦
        let absurd : ◌≡◌ {A = Result String Float} (err _) (ok x) =
          rw (numeric_value, missing) at h in
        cc
    | inr (literal, decoded) ↦ elim (Option-cases (json.parse_float literal)) [
      | inl missing ↦
          let absurd : ◌≡◌ {A = Result String Float} (err _) (ok x) =
            rw (numeric_value, decoded, missing) at h in
          cc
      | inr (y, parsed) ↦
          subst IsNumber (ok-injective y (rw (numeric_value, decoded, parsed) at h))
            (json.parse_float_number literal y parsed)
    ]
  ]

  pub numeric_values-IsNumber :
      (os : List SampleObservation) {xs : List Float}
      → numeric_values json os ≡ ok xs
      → All IsNumber xs
  unfolding numeric_values
  numeric_values-IsNumber [] {xs} h = subst (All IsNumber) (ok-injective xs h) tt
  numeric_values-IsNumber (o ∷ os) {xs} h =
      let (x, e1, h1) = >>=-eq-ok (numeric_value json o) _ h in
      let (rest, e2, h2) = >>=-eq-ok (numeric_values json os) _ h1 in
      subst (All IsNumber) (ok-injective xs h2)
        (numeric_value-IsNumber o e1, numeric_values-IsNumber os e2)

-- One of the numbers, such that none of them is below it, or above it.
abbrev pub IsBoundary : Bool → List Float → Float → Type 0
IsBoundary is_minimum xs x =
    (any (λ y. y == x) xs ≡ true)
    × (any (λ y. if is_minimum then float_lt y x else float_lt x y) xs ≡ false)

last_of :
    (xs : List Float) {x : Float}
    → Ordered NotBelow xs
    → value_at (length xs - 1) xs ≡ ok x
    → (any (λ y. y == x) xs ≡ true) × (any (λ y. float_lt x y) xs ≡ false)
unfolding value_at
last_of [] h e = let absurd : ◌≡◌ {A = Result String Float} panic (ok _) = e in cc
last_of (y ∷ ys) {x} h e =
    let one_less : suc (length ys) - 1 ≡ length ys = omega arith in
    let (found, above) =
      last_is_greatest y ys h (subst (λ (i : ℕ). value_at i (y ∷ ys) ≡ ok x) one_less e) in
    (found, any_none (λ z. float_lt x z) (y ∷ ys) above)

pub sort_floats-IsBoundary :
    (is_minimum : Bool) (xs : List Float) {x : Float}
    → All IsNumber xs
    → (if is_minimum
        then value_at 0 (sort_floats xs)
        else value_at (length (sort_floats xs) - 1) (sort_floats xs))
      ≡ ok x
    → IsBoundary is_minimum xs x
sort_floats-IsBoundary true xs {x} ns h =
    let (found, bound) = first_is_least (sort_floats xs) (sort_floats-Ordered xs ns) h in
    (
      sym (any-sort_floats (λ y. y == x) xs) ∙ found,
      sym (any-sort_floats (λ y. float_lt y x) xs) ∙ bound,
    )
sort_floats-IsBoundary false xs {x} ns h =
    let (found, bound) = last_of (sort_floats xs) (sort_floats-Ordered xs ns) h in
    (
      sym (any-sort_floats (λ y. y == x) xs) ∙ found,
      sym (any-sort_floats (λ y. float_lt x y) xs) ∙ bound,
    )

-- A minimum or a maximum that is found is one of the numbers of the observations, and none of them
-- is below, or above, it.
pub numeric_boundary-IsBoundary :
    (json : Json) (os : List SampleObservation) (is_minimum : Bool) {x : Float}
    → numeric_boundary json os is_minimum ≡ ok x
    → (xs : List Float) × (numeric_values json os ≡ ok xs) × IsBoundary is_minimum xs x
unfolding numeric_boundary
numeric_boundary-IsBoundary json os is_minimum {x} h =
    let (xs, read, taken) = >>=-eq-ok (numeric_values json os) _ h in
    (xs, read, sort_floats-IsBoundary is_minimum xs (numeric_values-IsNumber json os read) taken)
