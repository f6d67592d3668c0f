-- ===== src/Rat/Micro.antt =====
-- Fractions that are whole numbers of millionths, and the operations on them.
use mathlib.Core.Path.{ap₂}
use pfas_load_control.Rat.Rounding.{round_div_exact}
use native.Mathlib.Decide.{dec_lt}
use pfas_load_control.Base.{
  ℕ, ◌+◌, ◌-◌, ◌*◌, ◌≤◌, ◌<◌, compare, ◌≡◌, refl, ap, false, ◌==◌, le→leb, is_le, arith, sym, ◌∙◌,
}
use pfas_load_control.Rat.{Rat, sign, cmp, add, sub, mul, micro, zero_rat, new_rat}

-- `x` is `n` millionths.
abbrev pub IsMicro : Rat → ℕ → Type 0
IsMicro x n = (x.neg ≡ false) × (x.abs * 1000000 ≡ n * x.den) × (0 < x.den)

pub zero_rat-IsMicro : IsMicro zero_rat 0
zero_rat-IsMicro = (refl, refl, omega arith)

pub lt-mul : (a b k : ℕ) → a < b → 0 < k → a * k < b * k
lt-mul a b k h p = grind arith

le-mul : (a b k : ℕ) → a ≤ b → a * k ≤ b * k
le-mul a b k h = grind arith

sub-mul : (a b k : ℕ) → b ≤ a → (a - b) * k + b * k ≡ a * k
sub-mul a b k h = let e : a - b + b ≡ a = omega arith in omega (arith, ap (λ (t : ℕ). t * k) e)

compare-mul : (a b k : ℕ) → 0 < k → compare (a * k) (b * k) ≡ compare a b
compare-mul a b k h = elim (dec_lt a b) [
  | yes p ↦ ground (arith, lt-mul a b k p h)
  | no p ↦ elim (dec_lt b a) [
    | yes q ↦ ground (arith, lt-mul b a k q h)
    | no q ↦ let e : a ≡ b = omega arith in rw e (ground arith)
  ]
]

-- The operations on fractions that are not negative.
module _ (x y : Rat) (sx : x.neg ≡ false) (sy : y.neg ≡ false) where
  pub add_nonneg : add x y ≡ new_rat (x.abs * y.den + y.abs * x.den) (x.den * y.den)
  unfolding add
  add_nonneg = rw (sx, sy)

  pub sub_nonneg :
      y.abs * x.den ≤ x.abs * y.den
      → sub x y ≡ new_rat (x.abs * y.den - y.abs * x.den) (x.den * y.den)
  unfolding sub
  sub_nonneg h = rw (sx, sy, le→leb _ _ h)

  pub mul_nonneg : mul x y ≡ new_rat (x.abs * y.abs) (x.den * y.den)
  unfolding mul
  mul_nonneg = rw (sx, sy)

  pub cmp_nonneg : cmp x y ≡ compare (x.abs * y.den) (y.abs * x.den)
  unfolding cmp
  cmp_nonneg = rw (sx, sy)

-- A zero is told from a positive number.
pub sign-IsMicro : (x : Rat) (n : ℕ) → IsMicro x n → is_le (sign x) ≡ (n == 0)
unfolding sign
sign-IsMicro x n (s, e, d) = elim (dec_lt 0 n) [
  | yes p ↦ ground (arith, lt-mul 0 n x.den p d)
  | no p ↦ ground arith
]

-- Two fractions of millionths, over their common denominator.
module _ (x y : Rat) (n m : ℕ) (hx : IsMicro x n) (hy : IsMicro y m) where
  left_cross : x.abs * y.den * 1000000 ≡ n * (x.den * y.den)
  left_cross = omega (arith, ap (λ (t : ℕ). t * y.den) hx.1)

  right_cross : y.abs * x.den * 1000000 ≡ m * (x.den * y.den)
  right_cross = omega (arith, ap (λ (t : ℕ). t * x.den) hy.1)

  den_pos : 0 < x.den * y.den
  den_pos = omega (arith, lt-mul 0 x.den y.den hx.2 hy.2)

  pub cmp-IsMicro : cmp x y ≡ compare n m
  cmp-IsMicro =
      cmp_nonneg x y hx.0 hy.0
      ∙ sym (compare-mul (x.abs * y.den) (y.abs * x.den) 1000000 (omega arith))
      ∙ ap₂ compare left_cross right_cross
      ∙ compare-mul n m (x.den * y.den) den_pos

  pub add-IsMicro : IsMicro (add x y) (n + m)
  add-IsMicro =
      rw (add_nonneg x y hx.0 hy.0) (refl, omega (arith, left_cross, right_cross), den_pos)

  cross_le : m ≤ n → y.abs * x.den ≤ x.abs * y.den
  cross_le h =
      let scaled : m * (x.den * y.den) ≤ n * (x.den * y.den) = le-mul m n (x.den * y.den) h in
      omega (arith, left_cross, right_cross)

  pub sub-IsMicro : m ≤ n → IsMicro (sub x y) (n - m)
  sub-IsMicro h =
      rw (sub_nonneg x y hx.0 hy.0 (cross_le h))
        (refl, omega (arith, left_cross, right_cross, sub-mul n m (x.den * y.den) h), den_pos)

-- A whole number of millionths is printed with no rounding.
pub micro-IsMicro : (x : Rat) (n : ℕ) → IsMicro x n → micro x ≡ n
unfolding micro
micro-IsMicro x n (s, e, d) = rw e (round_div_exact n x.den d)
