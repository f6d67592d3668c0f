-- ===== src/Numeral/Scan.antt =====
-- Reading digits back.
use pfas_load_control.Base.{
  ℕ, ◌+◌, ◌-◌, ◌*◌, ◌^◌, ◌≡◌, ◌∙◌, ap, refl, some-injective, Option, none, zero, suc, ◌<◌, true,
  false, ◌∷◌, [], ◌++◌, some, arith, Text, length, is_empty,
}
use native.Mathlib.Nat.{zero-add, add-zero, pow-suc}
use pfas_load_control.Rat.{Rat, new_rat}
use pfas_load_control.Numeral.{
  value, is_digit, span_digits, scan, scan_unsigned, read_point, read_rest, read_exponent, negate,
}
use pfas_load_control.Numeral.Digits.{IsDigits}

span_digits-append :
    (s r : Text) (n k : ℕ)
    → IsDigits s
    → span_digits (s ++ r) n k ≡ span_digits r (value n s) (length s + k)
unfolding span_digits
span_digits-append [] r n k h = rw zero-add
span_digits-append (c ∷ s) r n k (d, h) = rw d (
    span_digits-append s r (n * 10 + (c - b'0')) (k + 1) h
    ∙ ap (span_digits r (value (n * 10 + (c - b'0')) s)) (omega arith))

span_digits_all :
    (s : Text) → IsDigits s → (n k : ℕ) → span_digits s n k ≡ (value n s, length s + k, [])
unfolding span_digits
span_digits_all [] h n k = rw zero-add
span_digits_all (c ∷ s) (d, h) n k = rw d (
    span_digits_all s h (n * 10 + (c - b'0')) (k + 1)
    ∙ ap (λ (j : ℕ). (value (n * 10 + (c - b'0')) s, j, [])) (omega arith))

pub power_pos : (k : ℕ) → 0 < 10 ^ k
power_pos zero = omega arith
power_pos (suc k) = omega (arith, pow-suc 10 k, power_pos k)

-- A first digit is no sign.
scan_digit : (c : ℕ) (t : Text) → is_digit c ≡ true → scan (c ∷ t) ≡ scan_unsigned (c ∷ t)
unfolding scan
scan_digit c t d = ground arith

-- A whole number.
pub scan-digits :
    (s : Text) → IsDigits s → is_empty s ≡ false → scan s ≡ some (new_rat (value 0 s) 1)
scan-digits [] h e = cc
scan-digits (c ∷ s) (d, h) e =
    scan_digit c s d
    ∙ (unfold scan_unsigned read_point read_rest in
        rw (span_digits_all (c ∷ s) (d, h) 0 0) (ground arith))

-- A number with a point.
pub scan-point :
    (s t : Text)
    → IsDigits s
    → IsDigits t
    → is_empty s ≡ false
    → scan (s ++ b'.' ∷ t) ≡ some (new_rat (value (value 0 s) t) (10 ^ length t))
scan-point [] t h g e = cc
scan-point (c ∷ s) t (d, h) g e = scan_digit c (s ++ b'.' ∷ t) d ∙ pointed
  where
    pointed :
        scan_unsigned (c ∷ s ++ b'.' ∷ t)
        ≡ some (new_rat (value (value 0 (c ∷ s)) t) (10 ^ length t))
    pointed =
        unfold scan_unsigned in
        rw (span_digits-append (c ∷ s) (b'.' ∷ t) 0 0 (d, h)) (
          rw (span_digits_all t g (value 0 (c ∷ s)) 0, add-zero) (unfold read_rest in ground arith))

-- A number that is read has a positive denominator.
read_exponent_positive : (t : Text) (n f : ℕ) (x : Rat) → read_exponent t n f ≡ some x → 0 < x.den
unfolding read_exponent
read_exponent_positive [] n f x e = cc
read_exponent_positive (c ∷ t) n f x e =
    ground (arith, power_pos (f + (span_digits t 0 0).0), power_pos f)

read_rest_positive : (n k f : ℕ) (t : Text) (x : Rat) → read_rest n k f t ≡ some x → 0 < x.den
unfolding read_rest
read_rest_positive n k f [] x e = ground (arith, power_pos f)
read_rest_positive n k f (c ∷ t) x e = ground (arith, read_exponent_positive t n f x)

read_point_positive : (n k : ℕ) (t : Text) (x : Rat) → read_point n k t ≡ some x → 0 < x.den
unfolding read_point
read_point_positive n k [] x e = read_rest_positive n k 0 [] x e
read_point_positive n k (c ∷ t) x e =
    let (m, j, r) = span_digits t n 0 in
    ground (arith, read_rest_positive m (k + j) j r x, read_rest_positive n k 0 (c ∷ t) x)

scan_unsigned_positive : (t : Text) (x : Rat) → scan_unsigned t ≡ some x → 0 < x.den
unfolding scan_unsigned
scan_unsigned_positive t x e = let (n, k, r) = span_digits t 0 0 in read_point_positive n k r x e

negate_positive :
    (o : Option Rat)
    → ((x : Rat) → o ≡ some x → 0 < x.den)
    → (x : Rat) → negate o ≡ some x
    → 0 < x.den
negate_positive none h x e = cc
negate_positive (some y) h x e = omega (arith, h y refl, ap (λ (z : Rat). z.den) (some-injective e))

pub scan_positive : (t : Text) (x : Rat) → scan t ≡ some x → 0 < x.den
unfolding scan
scan_positive [] x e = cc
scan_positive (c ∷ t) x e = ground (
  arith,
  negate_positive (scan_unsigned t) (scan_unsigned_positive t) x,
  scan_unsigned_positive t x,
  scan_unsigned_positive (c ∷ t) x,
)
