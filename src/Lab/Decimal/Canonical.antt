-- ===== src/Lab/Decimal/Canonical.antt =====
-- internal/lab/decimal.go, `canonicalDecimal` as a whole.
use pfas_load_control.Base.{
  ℕ, zero, suc, ◌+◌, ◌-◌, ◌*◌, ◌^◌, ◌≡◌, ◌≤◌, ◌<◌, ◌∙◌, sym, ap, refl, subst, Bool, true, false,
  ◌∷◌, [], ◌++◌, ◌&&◌, ◌||◌, Bool-cases, Option-cases, inl, inr, ◌==◌, ltb, leb, leb→le, arith,
  some, none, Text, length, is_empty, trim_left, trim_right, trim_space, if◌then◌else◌, All-append,
  ok, err, panic, >>=-eq-ok, ok-injective, forbid, forbid_ok,
}
use pfas_load_control.Rat.{Rat, new_rat}
use pfas_load_control.Numeral.{value, scan}
use pfas_load_control.Numeral.Trim.{is_zero, value-zeros}
use pfas_load_control.Numeral.Scan.{scan-digits}
use pfas_load_control.Numeral.Values.{pow-add}
use pfas_load_control.Lab.Decimal.{
  Outcome, Match, Scale, places, shift, scale_of, word, half_word, subtract_exponent, zeros,
  place_point, find_scale, canonical_digits, canonical_decimal, invalid_exponent, negative,
  match_decimal, remove_commas,
}
use pfas_load_control.Lab.Decimal.Pattern.{IsMatch, match_decimal-IsMatch}
use pfas_load_control.Lab.Decimal.Reads.{IsScaled, place_point_lem}

-- The number that a match stands for: digits with a point, and a power of ten.
abbrev pub literal : Match → Rat
literal m =
    let n = value 0 (m.whole ++ m.fraction) in
    let f = length m.fraction in
    elim m.exponent [
      | none ↦ new_rat n (10 ^ f)
      | some (minus, digits) ↦
          if minus
          then new_rat n (10 ^ (f + value 0 digits))
          else new_rat (n * 10 ^ value 0 digits) (10 ^ f)
    ]

-- Two fractions that are not negative and have the same value.
abbrev pub Same : Rat → Rat → Type 0
Same x y = (x.neg ≡ false) × (x.abs * y.den ≡ y.abs * x.den)

-- What a scale makes of digits is the number of the match, unless the scale has wrapped round.
scaled_places :
    (n f : ℕ) (x : Rat) → x.neg ≡ false → IsScaled n (scale_of f) x → Same x (new_rat n (10 ^ f))
scaled_places n zero x h e = (h, omega (arith, e))
scaled_places n (suc f) x h e = (h, e)

mul_swap : (a b c d : ℕ) → a * b * c * d ≡ a * (b * d) * c
mul_swap a b c d = grind arith

pow_split : (a b : ℕ) → b ≤ a → 10 ^ a ≡ 10 ^ (a - b) * 10 ^ b
pow_split a b h = ap (λ (i : ℕ). 10 ^ i) (omega arith) ∙ pow-add 10 (a - b) b

-- A scale whose zeros fit into memory.
abbrev Fits : ℕ → Scale → Type 0
Fits memory (shift k) = k ≤ memory
Fits memory (places k) = Unit

scaled_exponent :
    (memory n f : ℕ) (minus : Bool) (e : ℕ) (x : Rat)
    → memory + f < half_word
    → e ≤ half_word
    → Fits memory (subtract_exponent f minus e)
    → x.neg ≡ false
    → IsScaled n (subtract_exponent f minus e) x
    → Same x (if minus then new_rat n (10 ^ (f + e)) else new_rat (n * 10 ^ e) (10 ^ f))
unfolding subtract_exponent
scaled_exponent memory n f false e x small bound fit h s = elim (Bool-cases (leb f e)) [
  | inl le ↦
      let k : x.abs ≡ n * 10 ^ (e - f) * x.den = rw (subtract_exponent, le) at s in
      (
        h,
        ap (λ (y : ℕ). y * 10 ^ f) k
            ∙ mul_swap n (10 ^ (e - f)) x.den (10 ^ f)
            ∙ ap (λ (y : ℕ). n * y * x.den) (sym (pow_split e f (leb→le f e le))),
      )
  | inr gt ↦
      let (_, k) = scaled_places n (f - e) x h (rw (subtract_exponent, gt) at s) in
      (
        h,
        ap (λ (y : ℕ). x.abs * y) (pow_split f e (ground arith))
            ∙ grind (arith, ap (λ (y : ℕ). y * 10 ^ e) k),
      )
]
scaled_exponent memory n f true e x small bound fit h s =
    elim (Bool-cases (ltb (f + e) half_word)) [
      | inl lt ↦ scaled_places n (f + e) x h (rw (subtract_exponent, lt) at s)
      | inr wraps ↦
          let k : word - (f + e) ≤ memory = rw (subtract_exponent, wraps) at fit in
          absurd (omega (arith, k))
    ]

is_empty-trim : (t : Text) → is_empty (trim_left is_zero t) ≡ is_empty (trim_right is_zero t)
unfolding trim_left trim_right
is_empty-trim [] = refl
is_empty-trim (c ∷ t) = ground (arith, is_empty-trim t)

empty_text : (t : Text) → is_empty t ≡ true → t ≡ []
empty_text [] h = refl
empty_text (c ∷ t) h = cc

literal_zero : (m : Match) → value 0 (m.whole ++ m.fraction) ≡ 0 → Same (new_rat 0 1) (literal m)
literal_zero m z = elim (Option-cases m.exponent) [
  | inl e ↦ rw (e, z) (refl, omega arith)
  | inr ((minus, digits), e) ↦ rw e (elim (Bool-cases minus) [
    | inl neg ↦ rw (neg, z) (refl, omega arith)
    | inr pos ↦ rw (pos, z) (refl, omega arith)
  ])
]

module _ (memory : ℕ) where
  find_scale_lem :
      (m : Match) (x : Rat) {scale : Scale}
      → memory + length m.fraction < half_word
      → find_scale m ≡ ok scale
      → Fits memory scale
      → x.neg ≡ false
      → IsScaled (value 0 (m.whole ++ m.fraction)) scale x
      → Same x (literal m)
  unfolding find_scale
  find_scale_lem m x {scale} small h fits sign scaled =
      let n = value 0 (m.whole ++ m.fraction) in
      elim (Option-cases m.exponent) [
        | inl e ↦
            let same : scale_of (length m.fraction) ≡ scale =
              ok-injective scale (rw (find_scale, e) at h) in
            rw e (scaled_places n (length m.fraction) x sign (rw (← same) at scaled))
        | inr ((minus, digits), e) ↦
            elim (Bool-cases
              (ltb (value 0 digits) half_word || (minus && value 0 digits == half_word))) [
                | inl read ↦
                    let same : subtract_exponent (length m.fraction) minus (value 0 digits)
                        ≡ scale =
                      ok-injective scale (rw (find_scale, e, read) at h) in
                    rw e (
                      scaled_exponent memory n (length m.fraction) minus (value 0 digits) x small
                        (ground arith) (rw (← same) at fits) sign (rw (← same) at scaled))
                | inr too_large ↦ absurd (err-ne-ok (rw (find_scale, e, too_large) at h))
              ]
      ]
    where
      err-ne-ok : {y : Scale} → ◌≡◌ {A = Outcome Scale} (err invalid_exponent) (ok y) → ⊥
      err-ne-ok p = cc

  place_point-Fits :
      (digits : Text) (scale : Scale) {c : Text}
      → place_point memory digits scale ≡ ok c
      → Fits memory scale
  unfolding place_point zeros
  place_point-Fits digits (shift k) e = elim (Bool-cases (leb k memory)) [
    | inl fits ↦ leb→le k memory fits
    | inr large ↦ absurd (panic-ne-ok (rw (place_point, zeros, large) at e))
  ]
    where
      panic-ne-ok : {y : Text} → ◌≡◌ {A = Outcome Text} panic (ok y) → ⊥
      panic-ne-ok h = cc
  place_point-Fits digits (places k) e = tt

  canonical_digits_lem :
      (m : Match) {c : Text}
      → IsMatch m
      → memory + length m.fraction < half_word
      → canonical_digits memory m ≡ ok c
      → (x : Rat) × (scan c ≡ some x) × Same x (literal m)
  unfolding canonical_digits find_scale
  canonical_digits_lem m {c} match small e =
      let digits = m.whole ++ m.fraction in
      let n = value 0 digits in
      let spelt = All-append _ m.whole m.fraction match.whole_digits match.fraction_digits in
      elim (Bool-cases (is_empty (trim_right is_zero digits))) [
        | inl none_left ↦
            let z : n ≡ 0 = value-zeros 0 digits (empty_text _ none_left) ∙ omega arith in
            subst (λ t. (x : Rat) × (scan t ≡ some x) × Same x (literal m))
              (ok-injective c (rw (canonical_digits, none_left) at e))
              (new_rat 0 1, scan-digits (b'0' ∷ []) (refl, tt) refl, literal_zero m z)
        | inr left ↦
            let (scale, e1, e2) = >>=-eq-ok (find_scale m) _ (rw (canonical_digits, left) at e) in
            let (x, reads, sign, scaled) =
              place_point_lem memory digits scale spelt (is_empty-trim digits ∙ left) e2 in
            (x, reads, find_scale_lem m x small e1 (place_point-Fits digits scale e2) sign scaled)
      ]

  -- A text that matches the pattern and gets a canonical form has no minus sign, and the
  -- canonical form, read as a decimal, is a number of the same value as the digits, the point
  -- and the exponent of the text, provided that the memory and the fraction stay together below
  -- two to the 63.
  pub canonical_decimal_lem :
      (input : Text) (m : Match) {c : Text}
      → match_decimal (remove_commas (trim_space input)) ≡ some m
      → memory + length m.fraction < half_word
      → canonical_decimal memory input ≡ ok c
      → (m.minus ≡ false) × ((x : Rat) × (scan c ≡ some x) × Same x (literal m))
  unfolding canonical_decimal
  canonical_decimal_lem input m matched small e =
      let (u, e1, e2) =
        >>=-eq-ok (forbid m.minus negative) _ (rw (canonical_decimal, matched) at e) in
      (
        forbid_ok _ _ e1,
        canonical_digits_lem m (match_decimal-IsMatch (remove_commas (trim_space input)) matched)
            small e2,
      )

  -- A text with a match that has no minus sign, a digit other than zero, and a positive exponent
  -- that fits an int and exceeds the length of the fraction by more than the memory, makes the
  -- conversion panic when it repeats the zeros.
  pub canonical_decimal_panics :
      (input digits : Text) (m : Match)
      → match_decimal (remove_commas (trim_space input)) ≡ some m
      → m.minus ≡ false
      → m.exponent ≡ some (false, digits)
      → is_empty (trim_right is_zero (m.whole ++ m.fraction)) ≡ false
      → value 0 digits < half_word
      → memory + length m.fraction < value 0 digits
      → canonical_decimal memory input ≡ panic
  unfolding canonical_decimal canonical_digits find_scale subtract_exponent place_point zeros
  canonical_decimal_panics input digits m matched sign exponent full read large =
      let in_range : ltb (value 0 digits) half_word ≡ true = ground arith in
      let shifts : leb (length m.fraction) (value 0 digits) ≡ true = ground arith in
      let exceeds : leb (value 0 digits - length m.fraction) memory ≡ false = ground arith in
      rw
        (
          canonical_decimal, matched, sign, canonical_digits, full, find_scale, exponent, in_range,
          subtract_exponent, shifts, place_point, zeros, exceeds,
        )
        refl
