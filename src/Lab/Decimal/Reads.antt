-- ===== src/Lab/Decimal/Reads.antt =====
-- internal/lab/decimal.go, `canonicalDecimal`: the canonical text spells the number of the input.
use native.Mathlib.Nat.{mul_assoc}
use pfas_load_control.Base.{
  ℕ, zero, suc, ◌+◌, ◌-◌, ◌*◌, ◌^◌, ◌≡◌, ◌∙◌, sym, ap, refl, subst, false, ◌∷◌, [], ◌++◌,
  Bool-cases, inl, inr, ◌⊎◌, leb, leb→le, arith, some, Text, length, length-append, replicate,
  is_empty, trim_left, trim_right, All-append, ok, panic, >>=-eq-ok, ok-injective,
}
use pfas_load_control.Rat.{Rat, new_rat}
use pfas_load_control.Numeral.{value, scan}
use pfas_load_control.Numeral.Digits.{IsDigits}
use pfas_load_control.Numeral.Trim.{
  is_zero, value-trim_right, value-zeros, length-trim_right, trim_right-IsDigits,
}
use pfas_load_control.Numeral.Scan.{scan-digits, scan-point}
use pfas_load_control.Numeral.Values.{
  pow-add, value-append, value-replicate, value-trim_left, trim_left-IsDigits, replicate-IsDigits,
}
use pfas_load_control.Lab.Decimal.{
  Outcome, Scale, places, shift, take, drop, zero_or, join_parts, zeros, place_point,
}

-- The fraction `x` is `n` over ten to the scale.
abbrev pub IsScaled : ℕ → Scale → Rat → Type 0
IsScaled n (shift k) x = x.abs ≡ n * 10 ^ k * x.den
IsScaled n (places k) x = x.abs * 10 ^ k ≡ n * x.den

-- The text reads as such a fraction, which is not negative.
abbrev pub Spells : Text → ℕ → Scale → Type 0
Spells c n scale = (x : Rat) × (scan c ≡ some x) × (x.neg ≡ false) × IsScaled n scale x

zero_or-IsDigits : (t : Text) → IsDigits t → IsDigits (zero_or t)
zero_or-IsDigits [] h = (refl, tt)
zero_or-IsDigits (c ∷ t) h = h

zero_or-is_empty : (t : Text) → is_empty (zero_or t) ≡ false
zero_or-is_empty [] = refl
zero_or-is_empty (c ∷ t) = refl

value-zero_or : (t : Text) → value 0 (zero_or t) ≡ value 0 t
value-zero_or [] = refl
value-zero_or (c ∷ t) = refl

Text-cases : (t : Text) → (t ≡ []) ⊎ ((c : ℕ) × (u : Text) × (t ≡ c ∷ u))
Text-cases [] = inl refl
Text-cases (c ∷ u) = inr (c, u, refl)

length-replicate : (k : ℕ) → length {A = ℕ} (replicate k b'0') ≡ k
length-replicate zero = refl
length-replicate (suc k) = ap suc (length-replicate k)

take-drop : (n : ℕ) (t : Text) → take n t ++ drop n t ≡ t
take-drop zero t = refl
take-drop (suc n) [] = refl
take-drop (suc n) (c ∷ t) = ap (λ (r : Text). c ∷ r) (take-drop n t)

take-IsDigits : (n : ℕ) (t : Text) → IsDigits t → IsDigits (take n t)
take-IsDigits zero t h = tt
take-IsDigits (suc n) [] h = tt
take-IsDigits (suc n) (c ∷ t) (d, h) = (d, take-IsDigits n t h)

drop-IsDigits : (n : ℕ) (t : Text) → IsDigits t → IsDigits (drop n t)
drop-IsDigits zero t h = h
drop-IsDigits (suc n) [] h = tt
drop-IsDigits (suc n) (c ∷ t) (d, h) = drop-IsDigits n t h

length-drop : (n : ℕ) (t : Text) → length (drop n t) ≡ length t - n
length-drop zero t = omega arith
length-drop (suc n) [] = omega arith
length-drop (suc n) (c ∷ t) = length-drop n t ∙ omega arith

-- A fraction whose trailing zeros are trimmed.
pub fraction_scaled :
    (v k : ℕ) (t : Text) (n : ℕ)
    → length t ≡ k
    → n ≡ value v t
    → value v (trim_right is_zero t) * 10 ^ k ≡ n * 10 ^ length (trim_right is_zero t)
fraction_scaled v k t n len e =
    let j = length t - length (trim_right is_zero t) in
    let whole : j + length (trim_right is_zero t) ≡ length t =
      omega (arith, length-trim_right is_zero t) in
    let value_eq : n ≡ value v (trim_right is_zero t) * 10 ^ j = e ∙ value-trim_right v j t whole in
    let pow_eq : 10 ^ k ≡ 10 ^ j * 10 ^ length (trim_right is_zero t) =
      ap (λ (i : ℕ). 10 ^ i) (sym len ∙ sym whole) ∙ pow-add 10 j (length (trim_right is_zero t)) in
    let l = 10 ^ length (trim_right is_zero t) in
    ap (λ (p : ℕ). value v (trim_right is_zero t) * p) pow_eq
    ∙ sym (mul_assoc (value v (trim_right is_zero t)) (10 ^ j) l)
    ∙ ap (λ (p : ℕ). p * l) (sym value_eq)

value_parts : (n : ℕ) (t : Text) → value 0 t ≡ value (value 0 (take n t)) (drop n t)
value_parts n t = ap (value 0) (sym (take-drop n t)) ∙ value-append 0 (take n t) (drop n t)

-- The integer part and what is left of the fraction.
join_scaled :
    (k : ℕ) (whole t : Text) (n : ℕ)
    → IsDigits whole
    → is_empty whole ≡ false
    → IsDigits t
    → length t ≡ k
    → n ≡ value (value 0 whole) t
    → Spells (join_parts whole (trim_right is_zero t)) n (places k)
join_scaled k whole t n digits some_digit rest len e = elim (Text-cases (trim_right is_zero t)) [
  | inl gone ↦ (
    new_rat (value 0 whole) 1,
    rw gone (scan-digits whole digits some_digit),
    refl,
    (ap (λ (i : ℕ). value 0 whole * 10 ^ i) (sym len)
        ∙ sym (e ∙ value-zeros (value 0 whole) t gone)
        ∙ omega arith),
  )
  | inr (c, u, left) ↦
      let f = trim_right is_zero t in
      (
        new_rat (value (value 0 whole) f) (10 ^ length f),
        rw left (
            subst
              (λ (g : Text).
                scan (whole ++ b'.' ∷ g) ≡ some (new_rat (value (value 0 whole) g) (10 ^ length g)))
              left (scan-point whole f digits (trim_right-IsDigits is_zero t rest) some_digit)),
        refl,
        fraction_scaled (value 0 whole) k t n len e,
      )
]

trim_left-append :
    (s t : Text)
    → is_empty (trim_left is_zero s) ≡ false
    → is_empty (trim_left is_zero (s ++ t)) ≡ false
unfolding trim_left
trim_left-append [] t h = cc
trim_left-append (c ∷ s) t h = elim (Bool-cases (is_zero c)) [
  | inl z ↦ rw z (trim_left-append s t (rw z at h))
  | inr d ↦ rw d refl
]

module _ (memory : ℕ) where
  zeros_lem : (n : ℕ) {z : Text} → zeros memory n ≡ ok z → replicate n b'0' ≡ z
  unfolding zeros
  zeros_lem n {z} e = elim (Bool-cases (leb n memory)) [
    | inl fits ↦ ok-injective z (rw (zeros, fits) at e)
    | inr large ↦ absurd (panic-ne-ok (rw (zeros, large) at e))
  ]
    where
      panic-ne-ok : {y : Text} → ◌≡◌ {A = Outcome Text} panic (ok y) → ⊥
      panic-ne-ok h = cc

  pub place_point_lem :
      (digits : Text) (scale : Scale) {c : Text}
      → IsDigits digits
      → is_empty (trim_left is_zero digits) ≡ false
      → place_point memory digits scale ≡ ok c
      → Spells c (value 0 digits) scale
  unfolding place_point
  place_point_lem digits (shift k) {c} h full e =
      let (z, e1, e2) = >>=-eq-ok (zeros memory k) _ e in
      let whole = trim_left is_zero (digits ++ replicate k b'0') in
      subst (λ t. Spells t (value 0 digits) (shift k))
        (ok-injective c (rw (← (zeros_lem k e1)) at e2))
        (
          new_rat (value 0 whole) 1,
          scan-digits whole
              (trim_left-IsDigits (digits ++ replicate k b'0')
                (All-append _ digits (replicate k b'0') h (replicate-IsDigits k)))
              (trim_left-append digits (replicate k b'0') full),
          refl,
          value-trim_left (digits ++ replicate k b'0')
              ∙ value-append 0 digits (replicate k b'0')
              ∙ value-replicate (value 0 digits) k
              ∙ omega arith,
        )
  place_point_lem digits (places k) {c} h full e = elim (Bool-cases (leb (length digits) k)) [
    | inl short ↦
        let j = k - length digits in
        let (z, e1, e2) = >>=-eq-ok (zeros memory j) _ (rw (place_point, short) at e) in
        let t = replicate j b'0' ++ digits in
        let f = trim_right is_zero t in
        subst (λ r. Spells r (value 0 digits) (places k))
          (ok-injective c (rw (← (zeros_lem j e1)) at e2))
          (
            new_rat (value (value 0 (b'0' ∷ [])) f) (10 ^ length f),
            scan-point (b'0' ∷ []) f (refl, tt)
                (trim_right-IsDigits is_zero t
                  (All-append _ (replicate j b'0') digits (replicate-IsDigits j) h))
                refl,
            refl,
            fraction_scaled 0 k t (value 0 digits)
                (length-append (replicate j b'0') digits
                  ∙ omega (arith, length-replicate j, leb→le _ _ short))
                (sym (
                  value-append 0 (replicate j b'0') digits
                  ∙ ap (λ (n : ℕ). value n digits) (value-replicate 0 j ∙ omega arith))),
          )
    | inr long ↦
        let n = length digits - k in
        subst (λ r. Spells r (value 0 digits) (places k))
          (ok-injective c (rw (place_point, long) at e))
          (join_scaled k (zero_or (trim_left is_zero (take n digits))) (drop n digits)
            (value 0 digits)
            (zero_or-IsDigits _ (trim_left-IsDigits (take n digits) (take-IsDigits n digits h)))
            (zero_or-is_empty _) (drop-IsDigits n digits h) (length-drop n digits ∙ ground arith)
            (value_parts n digits
              ∙ ap (λ (m : ℕ). value m (drop n digits))
                  (sym (
                    value-zero_or (trim_left is_zero (take n digits))
                    ∙ value-trim_left (take n digits)))))
  ]
