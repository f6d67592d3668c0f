-- ===== src/Numeral/Digits.antt =====
-- What the digits that are written spell.
use pfas_load_control.Base.{
  ℕ, zero, suc, ◌+◌, ◌-◌, ◌*◌, ◌/◌, ◌%◌, ◌<◌, ◌≡◌, ◌∙◌, ap, refl, true, false, ◌∷◌, [], All,
  Bool-cases, inl, inr, ltb, arith, Text, is_empty,
}
use pfas_load_control.Numeral.{is_digit, digits_into, show, digit, six_digits, value}

abbrev pub IsDigits : Text → Type 0
IsDigits = All (λ c. is_digit c ≡ true)

digits_into-IsDigits : (f n : ℕ) (out : Text) → IsDigits out → IsDigits (digits_into f n out)
unfolding digits_into
digits_into-IsDigits zero n out h = h
digits_into-IsDigits (suc f) n out h =
    let d : is_digit (b'0' + n % 10) ≡ true = ground arith in
    ground (arith, digits_into-IsDigits f (n / 10) ((b'0' + n % 10) ∷ out) (d, h))

value-digits_into : (f n : ℕ) (out : Text) → n < f → value 0 (digits_into f n out) ≡ value n out
unfolding digits_into digit
value-digits_into zero n out h = absurd (omega arith)
value-digits_into (suc f) n out h = elim (Bool-cases (ltb n 10)) [
  | inl small ↦ rw small (ap (λ m. value m out) last)
  | inr big ↦
      rw big
        (value-digits_into f (n / 10) (digit n ∷ out) (below big) ∙ ap (λ m. value m out) joined)
]
  where
    last : 0 + (b'0' + n - b'0') ≡ n
    last = omega arith

    below : ltb n 10 ≡ false → n / 10 < f
    below e = ground arith

    joined : n / 10 * 10 + (b'0' + n % 10 - b'0') ≡ n
    joined = omega arith

digits_into-is_empty :
    (f n : ℕ) (out : Text) → is_empty out ≡ false → is_empty (digits_into f n out) ≡ false
unfolding digits_into
digits_into-is_empty zero n out h = h
digits_into-is_empty (suc f) n out h =
    ground (arith, digits_into-is_empty f (n / 10) ((b'0' + n % 10) ∷ out) refl)

pub show-IsDigits : (n : ℕ) → IsDigits (show n)
unfolding show
show-IsDigits n = digits_into-IsDigits (suc n) n [] tt

pub value-show : (n : ℕ) → value 0 (show n) ≡ n
unfolding show
value-show n = value-digits_into (suc n) n [] (omega arith)

pub show-is_empty : (n : ℕ) → is_empty (show n) ≡ false
unfolding show digits_into
show-is_empty n = ground (arith, digits_into-is_empty n (n / 10) ((b'0' + n % 10) ∷ []) refl)

pub six_digits-IsDigits : (r : ℕ) → IsDigits (six_digits r)
unfolding six_digits
six_digits-IsDigits r = ground arith

pub value-six_digits : (n r : ℕ) → r < 1000000 → value n (six_digits r) ≡ n * 1000000 + r
unfolding six_digits
value-six_digits n r h = omega arith
