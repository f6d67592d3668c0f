-- ===== src/Lab/Decimal/Pattern.antt =====
-- internal/lab/decimal.go, `decimalPattern`: the groups of a match are digits.
use pfas_load_control.Base.{
  ◌≡◌, ◌≤◌, ◌+◌, sym, ap, arith, length, trim_space, trim_left, is_space, ℕ, subst, Bool, false,
  not, ◌∷◌, [], ◌&&◌, ◌||◌, Bool-cases, inl, inr, ◌==◌, Option, some, none, some-injective, Text,
  is_empty,
}
use pfas_load_control.Numeral.{is_digit}
use pfas_load_control.Numeral.Trim.{length-trim_right}
use pfas_load_control.Numeral.Digits.{IsDigits}
use pfas_load_control.Lab.Decimal.{
  Match, take_digits, take_sign, match_exponent, match_fraction, match_decimal, remove_commas,
}

pub take_digits-IsDigits : (t : Text) → IsDigits (take_digits t).0
unfolding take_digits
take_digits-IsDigits [] = tt
take_digits-IsDigits (c ∷ t) = elim (Bool-cases (is_digit c)) [
  | inl d ↦ rw d (d, take_digits-IsDigits t)
  | inr e ↦ rw e tt
]

-- The groups that a match consists of.
pub record IsMatch (m : Match) : Type 0 where
  pub whole_digits : IsDigits m.whole
  pub whole_full : is_empty m.whole ≡ false
  pub fraction_digits : IsDigits m.fraction

match_exponent-IsMatch :
    (minus : Bool) (whole fraction t : Text) {m : Match}
    → IsDigits whole
    → is_empty whole ≡ false
    → IsDigits fraction
    → match_exponent minus whole fraction t ≡ some m
    → IsMatch m
unfolding match_exponent
match_exponent-IsMatch minus whole fraction [] h full g e =
    subst IsMatch (some-injective e)
      (record { whole_digits = h; whole_full = full; fraction_digits = g })
match_exponent-IsMatch minus whole fraction (c ∷ t) {m} h full g e =
    elim (Bool-cases (
      (c == b'e' || c == b'E')
      && not (is_empty (take_digits (take_sign t).1).0)
      && is_empty (take_digits (take_sign t).1).1)) [
        | inl fits ↦
            subst IsMatch (some-injective (rw fits at e))
              (record { whole_digits = h; whole_full = full; fraction_digits = g })
        | inr other ↦ absurd (none-ne-some (rw other at e))
      ]
  where
    none-ne-some : ◌≡◌ {A = Option Match} none (some m) → ⊥
    none-ne-some p = cc

none-ne-some : {m : Match} → ◌≡◌ {A = Option Match} none (some m) → ⊥
none-ne-some p = cc

match_fraction-IsMatch :
    (minus : Bool) (whole t : Text) {m : Match}
    → IsDigits whole
    → is_empty whole ≡ false
    → match_fraction minus whole t ≡ some m
    → IsMatch m
unfolding match_fraction
match_fraction-IsMatch minus whole [] h full e =
    match_exponent-IsMatch minus whole [] [] h full tt e
match_fraction-IsMatch minus whole (c ∷ t) {m} h full e = elim (Bool-cases (c == b'.')) [
  | inl point ↦ elim (Bool-cases (is_empty (take_digits t).0)) [
    | inl missing ↦ absurd (none-ne-some (rw (point, missing) at e))
    | inr found ↦
        match_exponent-IsMatch minus whole (take_digits t).0 (take_digits t).1 h full
          (take_digits-IsDigits t) (rw (point, found) at e)
  ]
  | inr other ↦ match_exponent-IsMatch minus whole [] (c ∷ t) h full tt (rw other at e)
]

pub match_decimal-IsMatch : (t : Text) {m : Match} → match_decimal t ≡ some m → IsMatch m
unfolding match_decimal
match_decimal-IsMatch t {m} e =
    let s = take_sign t in
    let d = take_digits s.1 in
    elim (Bool-cases (is_empty d.0)) [
      | inl missing ↦ absurd (none-ne-some (rw missing at e))
      | inr found ↦
          match_fraction-IsMatch s.0 d.0 d.1 (take_digits-IsDigits s.1) found (rw found at e)
    ]

-- The fraction of a match is no longer than the text.
length-take_digits : (t : Text) → length (take_digits t).0 + length (take_digits t).1 ≡ length t
unfolding take_digits
length-take_digits [] = omega arith
length-take_digits (c ∷ t) = elim (Bool-cases (is_digit c)) [
  | inl d ↦ rw d (omega (arith, length-take_digits t))
  | inr e ↦ rw e (omega arith)
]

match_exponent_fraction :
    (minus : Bool) (whole fraction t : Text) {m : Match}
    → match_exponent minus whole fraction t ≡ some m
    → m.fraction ≡ fraction
unfolding match_exponent
match_exponent_fraction minus whole fraction [] e =
    ap (λ (m : Match). m.fraction) (sym (some-injective e))
match_exponent_fraction minus whole fraction (c ∷ t) {m} e =
    elim (Bool-cases (
      (c == b'e' || c == b'E')
      && not (is_empty (take_digits (take_sign t).1).0)
      && is_empty (take_digits (take_sign t).1).1)) [
        | inl fits ↦ ap (λ (m : Match). m.fraction) (sym (some-injective (rw fits at e)))
        | inr other ↦ absurd (none-ne-some (rw other at e))
      ]

match_fraction-length :
    (minus : Bool) (whole t : Text) {m : Match}
    → match_fraction minus whole t ≡ some m
    → length m.fraction ≤ length t
unfolding match_fraction
match_fraction-length minus whole [] e =
    omega (arith, ap length (match_exponent_fraction minus whole [] [] e))
match_fraction-length minus whole (c ∷ t) {m} e = elim (Bool-cases (c == b'.')) [
  | inr other ↦
      omega (arith, ap length (match_exponent_fraction minus whole [] (c ∷ t) (rw other at e)))
  | inl point ↦ elim (Bool-cases (is_empty (take_digits t).0)) [
    | inl none_left ↦ absurd (none-ne-some (rw (point, match_fraction, none_left) at e))
    | inr some_left ↦ omega (
      arith,
      length-take_digits t,
      ap length (
          match_exponent_fraction minus whole (take_digits t).0 (take_digits t).1
            (rw (point, match_fraction, some_left) at e)),
    )
  ]
]

length-take_sign : (t : Text) → length (take_sign t).1 ≤ length t
length-take_sign [] = omega arith
length-take_sign (c ∷ t) = ground arith

pub match_decimal-length :
    (t : Text) {m : Match} → match_decimal t ≡ some m → length m.fraction ≤ length t
unfolding match_decimal
match_decimal-length t e = elim (Bool-cases (is_empty (take_digits (take_sign t).1).0)) [
  | inl no_digit ↦ absurd (none-ne-some (rw (match_decimal, no_digit) at e))
  | inr digits ↦ omega (
    arith,
    length-take_sign t,
    length-take_digits (take_sign t).1,
    match_fraction-length (take_sign t).0 (take_digits (take_sign t).1).0
        (take_digits (take_sign t).1).1 (rw (match_decimal, digits) at e),
  )
]

length-remove_commas : (t : Text) → length (remove_commas t) ≤ length t
unfolding remove_commas
length-remove_commas [] = omega arith
length-remove_commas (c ∷ t) = ground (arith, length-remove_commas t)

length-trim_left : (p : ℕ → Bool) (t : Text) → length (trim_left p t) ≤ length t
unfolding trim_left
length-trim_left p [] = omega arith
length-trim_left p (c ∷ t) = ground (arith, length-trim_left p t)

pub input_length : (t : Text) → length (remove_commas (trim_space t)) ≤ length t
unfolding trim_space
input_length t = omega (
  arith,
  length-remove_commas (trim_space t),
  length-trim_right is_space (trim_left is_space t),
  length-trim_left is_space t,
)
