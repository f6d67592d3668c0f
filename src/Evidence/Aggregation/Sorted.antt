-- ===== src/Evidence/Aggregation/Sorted.antt =====
-- internal/evidence/aggregation.go, `sort.Float64s` on the observed numbers.
use pfas_load_control.Base.{
  ◌≡◌, refl, ◌∙◌, ap, inl, inr, Bool, false, ◌||◌, List, [], ◌∷◌, any, All, All-imp, Ordered,
  Bool-cases, arith,
}
use pfas_load_control.Placement.Model.Resolution.{Float}
use pfas_load_control.Placement.Facts.Floats.{float_lt, is_nan}
use pfas_load_control.Placement.Facts.FloatOrder.{float_lt_asym, float_lt_trans}
use pfas_load_control.Evidence.Aggregation.{insert_float, sort_floats}

-- The second number is not below the first.
abbrev pub NotBelow : Float → Float → Type 0
NotBelow x y = float_lt y x ≡ false

abbrev pub IsNumber : Float → Type 0
IsNumber x = is_nan x ≡ false

-- Sorting keeps what a test finds.
any-insert_float :
    (p : Float → Bool) (x : Float) (xs : List Float) → any p (insert_float x xs) ≡ (p x || any p xs)
unfolding insert_float
any-insert_float p x [] = refl
any-insert_float p x (y ∷ ys) = elim (Bool-cases (float_lt y x)) [
  | inl below ↦ rw (below, any-insert_float p x ys) (or_swap (p y) (p x) (any p ys))
  | inr other ↦ rw other refl
]
  where
    or_swap : (a b c : Bool) → (a || (b || c)) ≡ (b || (a || c))
    or_swap a b c = ground arith

pub any-sort_floats : (p : Float → Bool) (xs : List Float) → any p (sort_floats xs) ≡ any p xs
unfolding sort_floats
any-sort_floats p [] = refl
any-sort_floats p (x ∷ xs) =
    any-insert_float p x (sort_floats xs) ∙ ap (λ (b : Bool). p x || b) (any-sort_floats p xs)

All-insert_float :
    (P : Float → Type 0) (x : Float) (xs : List Float) → P x → All P xs → All P (insert_float x xs)
unfolding insert_float
All-insert_float P x [] px h = (px, tt)
All-insert_float P x (y ∷ ys) px (py, h) = elim (Bool-cases (float_lt y x)) [
  | inl below ↦ rw below (py, All-insert_float P x ys px h)
  | inr other ↦ rw other (px, (py, h))
]

pub All-sort_floats : (P : Float → Type 0) (xs : List Float) → All P xs → All P (sort_floats xs)
unfolding sort_floats
All-sort_floats P [] h = tt
All-sort_floats P (x ∷ xs) (px, h) =
    All-insert_float P x (sort_floats xs) px (All-sort_floats P xs h)

insert_float-Ordered :
    (x : Float) (xs : List Float)
    → IsNumber x
    → All IsNumber xs
    → Ordered NotBelow xs
    → Ordered NotBelow (insert_float x xs)
unfolding insert_float
insert_float-Ordered x [] nx ns h = (tt, tt)
insert_float-Ordered x (y ∷ ys) nx (ny, ns) (first, h) = elim (Bool-cases (float_lt y x)) [
  | inl below ↦ rw below (
    All-insert_float (NotBelow y) x ys (float_lt_asym y x below) first,
    insert_float-Ordered x ys nx ns h,
  )
  | inr other ↦ rw other (
    (
      other,
      All-imp (NotBelow y) (NotBelow x) (λ z below. float_lt_trans x y z ny other below) ys first,
    ),
    (first, h),
  )
]

pub sort_floats-Ordered : (xs : List Float) → All IsNumber xs → Ordered NotBelow (sort_floats xs)
unfolding sort_floats
sort_floats-Ordered [] ns = tt
sort_floats-Ordered (x ∷ xs) (nx, ns) =
    insert_float-Ordered x (sort_floats xs) nx (All-sort_floats IsNumber xs ns)
      (sort_floats-Ordered xs ns)
