-- ===== src/Rat/Rounding.antt =====
-- How far a printed number is from the fraction.
use native.Mathlib.Nat.{
  mul-div_cancel, mul-mod_left, mod_def, div-add-mod, mul-div-mul_right, mul-le-mul_right,
  mul-lt-mul_of_pos_right, mul_comm,
}
use pfas_load_control.Base.{
  ℕ, ◌+◌, ◌*◌, ◌%◌, ◌≤◌, ◌<◌, ◌≡◌, refl, sym, ap, ◌∙◌, ◌-◌, ◌/◌, arith, Bool-cases, inl, inr, leb,
  leb→le,
}
use pfas_load_control.Rat.{Rat, round_div, micro}

pub round_div_near :
    (n d : ℕ)
    → 0 < d
    → (2 * (round_div n d * d) ≤ 2 * n + d) × (2 * n ≤ 2 * (round_div n d * d) + d)
round_div_near n d h = elim (Bool-cases (leb d (2 * (n % d)))) [
  | inl e ↦ unfold round_div in rw e (omega (arith, leb→le _ _ e))
  | inr e ↦ unfold round_div in rw e (ground arith)
]

-- The number printed is within half a millionth of the fraction.
pub micro_near :
    (x : Rat)
    → 0 < x.den
    → (2 * (micro x * x.den) ≤ 2 * (x.abs * 1000000) + x.den)
      × (2 * (x.abs * 1000000) ≤ 2 * (micro x * x.den) + x.den)
unfolding micro
micro_near x h = round_div_near (x.abs * 1000000) x.den h

-- A whole number of units is divided with no rounding.
pub round_div_exact : (q d : ℕ) → 0 < d → round_div (q * d) d ≡ q
unfolding round_div
round_div_exact q d h = rw (mul-div_cancel q h, mul-mod_left q d) (ground arith)

mod-mul : (a b k : ℕ) → 0 < k → (a * k) % (b * k) ≡ a % b * k
mod-mul a b k h =
    let whole : b * (a / b) + a % b ≡ a = div-add-mod a b in
    let scaled : b * k * (a / b) + a % b * k ≡ a * k =
      spread b k (a / b) (a % b) ∙ ap (λ (n : ℕ). n * k) whole in
    mod_def (a * k) (b * k)
    ∙ ap (λ (q : ℕ). a * k - b * k * q) (mul-div-mul_right a b h)
    ∙ omega (arith, scaled)
  where
    spread : (x y q m : ℕ) → x * y * q + m * y ≡ (x * q + m) * y
    spread x y q m = grind arith

leb-mul : (a b k : ℕ) → 0 < k → leb (a * k) (b * k) ≡ leb a b
leb-mul a b k h = elim (Bool-cases (leb a b)) [
  | inl below ↦
      let scaled : a * k ≤ b * k = mul-le-mul_right k (leb→le a b below) in rw below (ground arith)
  | inr above ↦
      let less : b < a = ground arith in
      let scaled : b * k < a * k = mul-lt-mul_of_pos_right less h in rw above (ground arith)
]

-- A common factor does not change the rounded quotient, nor does another form of the fraction.
pub round_div-mul : (a b k : ℕ) → 0 < k → round_div (a * k) (b * k) ≡ round_div a b
unfolding round_div
round_div-mul a b k h =
    let doubled : 2 * (a % b * k) ≡ 2 * (a % b) * k = omega arith in
    let test : leb (b * k) (2 * (a * k % (b * k))) ≡ leb b (2 * (a % b)) =
      ap (λ (n : ℕ). leb (b * k) n) (ap (λ (n : ℕ). 2 * n) (mod-mul a b k h) ∙ doubled)
      ∙ leb-mul b (2 * (a % b)) k h in
    rw (test, mul-div-mul_right a b h) refl

pub round_div_same : (a b c d : ℕ) → 0 < b → 0 < d → a * d ≡ c * b → round_div a b ≡ round_div c d
round_div_same a b c d hb hd e =
    sym (round_div-mul a b d hd)
    ∙ ap (λ (n : ℕ). round_div n (b * d)) e
    ∙ ap (λ (n : ℕ). round_div (c * b) n) (mul_comm b d)
    ∙ round_div-mul c d b hb
