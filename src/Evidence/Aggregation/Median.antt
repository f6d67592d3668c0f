-- ===== src/Evidence/Aggregation/Median.antt =====
-- internal/evidence/aggregation.go, the median of `numericRange`.
use mathlib.Core.List.{Perm}
use mathlib.Core.List.Perm
use pfas_load_control.Base.{
  ℕ, zero, suc, ◌+◌, ◌-◌, ◌/◌, ◌%◌, ◌≡◌, refl, sym, ◌∙◌, ap, subst, inl, inr, ◌⊎◌, ◌==◌, ==-true,
  List, [], ◌∷◌, ◌++◌, All, Ordered, length, String, Bool-cases, Result, panic, ok, ok-injective,
  >>=-eq-ok, arith,
}
use pfas_load_control.Placement.Model.Resolution.{Float}
use pfas_load_control.Placement.Facts.Floats.{float_lt}
use pfas_load_control.Evidence.Model.{Json}
use pfas_load_control.Evidence.Aggregation.{value_at, insert_float, sort_floats, median_of}
use pfas_load_control.Evidence.Aggregation.Sorted.{NotBelow, IsNumber, sort_floats-Ordered}

-- With as many numbers before it as behind it, or halfway between two such.
abbrev pub IsMiddle : Json → List Float → Float → Type 0
IsMiddle json ys m =
    ((before : List Float) × (behind : List Float) × (ys ≡ before ++ m ∷ behind)
      × (length before ≡ length behind))
    ⊎ ((before : List Float) × (behind : List Float) × (lower : Float) × (upper : Float) × (ys
          ≡ before ++ lower ∷ upper ∷ behind)
        × (length before ≡ length behind)
        × (m ≡ json.float_halve (json.float_add lower upper)))

-- The middle of the numbers in their order.
abbrev pub IsMedian : Json → List Float → Float → Type 0
IsMedian json xs m = (ys : List Float) × Perm ys xs × Ordered NotBelow ys × IsMiddle json ys m

insert_float-Perm : (x : Float) (ys : List Float) → Perm (insert_float x ys) (x ∷ ys)
unfolding insert_float
insert_float-Perm x [] = Perm.refl (x ∷ [])
insert_float-Perm x (y ∷ ys) = elim (Bool-cases (float_lt y x)) [
  | inl below ↦ rw below (Perm.trans (Perm.cons y (insert_float-Perm x ys)) (Perm.swap x y ys))
  | inr other ↦ rw other (Perm.refl (x ∷ y ∷ ys))
]

sort_floats-Perm : (xs : List Float) → Perm (sort_floats xs) xs
unfolding sort_floats
sort_floats-Perm [] = Perm.refl []
sort_floats-Perm (x ∷ xs) =
    Perm.trans (insert_float-Perm x (sort_floats xs)) (Perm.cons x (sort_floats-Perm xs))

-- The number at a place splits the list there.
value_at_split :
    (i : ℕ) (ys : List Float) {m : Float}
    → value_at i ys ≡ ok m
    → (before : List Float) × (behind : List Float) × (ys ≡ before ++ m ∷ behind)
      × (length before ≡ i)
      × (length ys ≡ i + suc (length behind))
unfolding value_at
value_at_split i [] {m} h = let absurd : ◌≡◌ {A = Result String Float} panic (ok m) = h in cc
value_at_split zero (y ∷ ys) {m} h =
    ([], ys, ap (λ (z : Float). z ∷ ys) (ok-injective m h), refl, omega arith)
value_at_split (suc i) (y ∷ ys) h =
    let (before, behind, split, front, size) = value_at_split i ys h in
    (
      y ∷ before,
      behind,
      ap (λ (zs : List Float). y ∷ zs) split,
      ap (λ (n : ℕ). suc n) front,
      omega arith,
    )

-- Two neighbours.
values_at_split :
    (i : ℕ) (ys : List Float) {l u : Float}
    → value_at i ys ≡ ok l
    → value_at (suc i) ys ≡ ok u
    → (before : List Float) × (behind : List Float) × (ys ≡ before ++ l ∷ u ∷ behind)
      × (length before ≡ i)
      × (length ys ≡ i + suc (suc (length behind)))
unfolding value_at
values_at_split i [] {l} h k = let absurd : ◌≡◌ {A = Result String Float} panic (ok l) = h in cc
values_at_split zero (y ∷ []) {l} {u} h k =
    let absurd : ◌≡◌ {A = Result String Float} panic (ok u) = k in cc
values_at_split zero (y ∷ z ∷ ys) {l} {u} h k = (
  [],
  ys,
  ap (λ (a : Float). a ∷ z ∷ ys) (ok-injective l h)
      ∙ ap (λ (b : Float). l ∷ b ∷ ys) (ok-injective u k),
  refl,
  omega arith,
)
values_at_split (suc i) (y ∷ ys) h k =
    let (before, behind, split, front, size) = values_at_split i ys h k in
    (
      y ∷ before,
      behind,
      ap (λ (zs : List Float). y ∷ zs) split,
      ap (λ (n : ℕ). suc n) front,
      omega arith,
    )

median_of-IsMiddle :
    (json : Json) (ys : List Float) {m : Float} → median_of json ys ≡ ok m → IsMiddle json ys m
unfolding median_of
median_of-IsMiddle json ys {m} h =
    let (upper, e, rest) = >>=-eq-ok (value_at (length ys / 2) ys) _ h in
    elim (Bool-cases (length ys % 2 == 0)) [
      | inr odd ↦
          let same : upper ≡ m = ok-injective m (rw odd at rest) in
          let (before, behind, split, front, size) = value_at_split (length ys / 2) ys e in
          inl (
            before,
            behind,
            subst (λ (z : Float). ys ≡ before ++ z ∷ behind) same split,
            ground arith,
          )
      | inl even ↦
          let (lower, e1, e2) = >>=-eq-ok (value_at (length ys / 2 - 1) ys) _ (rw even at rest) in
          let (b0, b1, s0, f0, size0) = value_at_split (length ys / 2) ys e in
          let parity = ==-true (length ys % 2) 0 even in
          let next : length ys / 2 ≡ suc (length ys / 2 - 1) = omega arith in
          let (before, behind, split, front, size) =
            values_at_split (length ys / 2 - 1) ys e1
              (subst (λ (i : ℕ). value_at i ys ≡ ok upper) next e) in
          inr (before, behind, lower, upper, split, omega arith, sym (ok-injective m e2))
    ]

pub median_of-IsMedian :
    (json : Json) (xs : List Float) {m : Float}
    → All IsNumber xs
    → median_of json (sort_floats xs) ≡ ok m
    → IsMedian json xs m
median_of-IsMedian json xs numbers h = (
  sort_floats xs,
  sort_floats-Perm xs,
  sort_floats-Ordered xs numbers,
  median_of-IsMiddle json (sort_floats xs) h,
)
