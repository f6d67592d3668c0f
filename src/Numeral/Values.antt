-- ===== src/Numeral/Values.antt =====
-- What joining and trimming digits does to the number that they spell.
use native.Mathlib.Nat.{pow-succ', pow-zero, zero-add, one-mul, suc-add, mul_assoc}
use pfas_load_control.Base.{
  ℕ, zero, suc, ◌+◌, ◌-◌, ◌*◌, ◌^◌, ◌≡◌, ◌∙◌, sym, ap, refl, ◌∷◌, [], ◌++◌, Bool-cases, inl, inr,
  arith, Text, replicate, trim_left,
}
use pfas_load_control.Numeral.{value}
use pfas_load_control.Numeral.Digits.{IsDigits}
use pfas_load_control.Numeral.Trim.{is_zero}

pub pow-add : (b m n : ℕ) → b ^ (m + n) ≡ b ^ m * b ^ n
pow-add b zero n = rw (zero-add, pow-zero, one-mul) refl
pow-add b (suc m) n =
    ap (λ (k : ℕ). b ^ k) (suc-add m n)
    ∙ pow-succ' b (m + n)
    ∙ ap (λ (x : ℕ). b * x) (pow-add b m n)
    ∙ sym (mul_assoc b (b ^ m) (b ^ n))
    ∙ ap (λ (x : ℕ). x * b ^ n) (sym (pow-succ' b m))

pub value-append : (n : ℕ) (s t : Text) → value n (s ++ t) ≡ value (value n s) t
value-append n [] t = refl
value-append n (c ∷ s) t = value-append (n * 10 + (c - b'0')) s t

pub value-replicate : (n k : ℕ) → value n (replicate k b'0') ≡ n * 10 ^ k
value-replicate n zero = omega arith
value-replicate n (suc k) =
    value-replicate (n * 10 + 0) k ∙ omega (arith, ap (λ (p : ℕ). n * p) (pow-succ' 10 k))

pub value-trim_left : (t : Text) → value 0 (trim_left is_zero t) ≡ value 0 t
unfolding trim_left
value-trim_left [] = refl
value-trim_left (c ∷ t) = elim (Bool-cases (is_zero c)) [
  | inl z ↦ rw z (value-trim_left t ∙ ap (λ n. value n t) (ground arith))
  | inr d ↦ rw d refl
]

pub trim_left-IsDigits : (t : Text) → IsDigits t → IsDigits (trim_left is_zero t)
unfolding trim_left
trim_left-IsDigits [] h = tt
trim_left-IsDigits (c ∷ t) (d, h) = elim (Bool-cases (is_zero c)) [
  | inl z ↦ rw z (trim_left-IsDigits t h)
  | inr e ↦ rw e (d, h)
]

pub replicate-IsDigits : (k : ℕ) → IsDigits (replicate k b'0')
replicate-IsDigits zero = tt
replicate-IsDigits (suc k) = (refl, replicate-IsDigits k)
