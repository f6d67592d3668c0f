-- ===== src/Placement/Decimal/RoundTrip.antt =====
-- The engine prints a quantity with at most six decimal places and reads the print back.
use pfas_load_control.Base.{
  ℕ, zero, suc, ◌+◌, ◌-◌, ◌*◌, ◌/◌, ◌%◌, ◌^◌, ◌≤◌, ◌<◌, ◌≡◌, ◌∙◌, ap, refl, true, false, ◌∷◌, [],
  ◌++◌, some, arith, Text, length, is_empty, All, All-append, trim_right, trim_space,
  trim_right-All, trim_left-All, is_space, text_eq, codes, All-imp,
}
use pfas_load_control.Rat.{Rat, new_rat, micro}
use pfas_load_control.Rat.Micro.{IsMicro, micro-IsMicro}
use pfas_load_control.Numeral.{is_digit, value, show, six_digits, fixed, float_string, scan}
use pfas_load_control.Numeral.Digits.{
  IsDigits, show-IsDigits, value-show, show-is_empty, six_digits-IsDigits, value-six_digits,
}
use pfas_load_control.Numeral.Trim.{
  is_zero, is_dot, trim_right-append_nil, trim_right-append_cons, length-trim_right,
  value-trim_right, trim_right-IsDigits,
}
use pfas_load_control.Numeral.Scan.{scan-digits, scan-point, power_pos}
use pfas_load_control.Placement.Decimal.{tidy, format_rat, micro_text}

-- A number is printed as its whole millionths.
pub format_rat-micro : (x : Rat) → x.neg ≡ false → format_rat x ≡ micro_text (micro x)
unfolding format_rat micro_text float_string
format_rat-micro x h = rw h refl

pub format_rat-IsMicro : (x : Rat) (n : ℕ) → IsMicro x n → format_rat x ≡ micro_text n
format_rat-IsMicro x n h = format_rat-micro x h.0 ∙ ap micro_text (micro-IsMicro x n h)

-- Digits, and a point before the digits behind it if there are any.
pub number_text : Text → Text → Text
number_text q [] = q
number_text q (c ∷ t) = q ++ b'.' ∷ c ∷ t

digit-is_dot : (c : ℕ) → is_digit c ≡ true → is_dot c ≡ false
digit-is_dot c h = ground arith

pub trim_zeros_dot : (t : Text) → trim_right is_zero (b'.' ∷ t) ≡ b'.' ∷ trim_right is_zero t
unfolding trim_right
trim_zeros_dot t = ground arith

pub trim_dot :
    (q t : Text) → IsDigits q → IsDigits t → trim_right is_dot (q ++ b'.' ∷ t) ≡ number_text q t
unfolding number_text
trim_dot q [] hq ht =
    trim_right-append_nil is_dot q (b'.' ∷ []) (unfold trim_right in refl)
    ∙ trim_right-All is_dot q (All-imp _ _ digit-is_dot q hq)
trim_dot q (c ∷ t) hq (d, ht) = trim_right-append_cons is_dot q (b'.' ∷ c ∷ t) b'.' (c ∷ t) (
    unfold trim_right in
    rw (trim_right-All is_dot t (All-imp _ _ digit-is_dot t ht), digit-is_dot c d) (ground arith))

pub keep_digits :
    (q t : Text)
    → IsDigits q
    → is_empty q ≡ false
    → (is_empty (number_text q t) ≡ false) × (text_eq (number_text q t) (codes "-0") ≡ false)
unfolding number_text text_eq
keep_digits [] t h e = cc
keep_digits (c ∷ q) [] (d, h) e = (refl, ground arith)
keep_digits (c ∷ q) (e ∷ t) (d, h) f = (refl, ground arith)

-- The digits that are left behind the point.
abbrev pub fraction : ℕ → Text
fraction n = trim_right is_zero (six_digits (n % 1000000))

fraction-IsDigits : (n : ℕ) → IsDigits (fraction n)
fraction-IsDigits n = trim_right-IsDigits is_zero _ (six_digits-IsDigits (n % 1000000))

tidy_lem :
    (q p : Text)
    → IsDigits q
    → IsDigits p
    → is_empty q ≡ false
    → tidy (q ++ b'.' ∷ p) ≡ number_text q (trim_right is_zero p)
unfolding tidy
tidy_lem q p hq hp e =
    let t = trim_right is_zero p in
    let (full, no_sign) = keep_digits q t hq e in
    rw (
      trim_right-append_cons is_zero q (b'.' ∷ p) b'.' t (trim_zeros_dot p),
      trim_dot q t hq (trim_right-IsDigits is_zero p hp),
      full,
      no_sign,
    )

micro_text_lem : (n : ℕ) → micro_text n ≡ number_text (show (n / 1000000)) (fraction n)
unfolding micro_text fixed
micro_text_lem n =
    tidy_lem (show (n / 1000000)) (six_digits (n % 1000000)) (show-IsDigits (n / 1000000))
      (six_digits-IsDigits (n % 1000000)) (show-is_empty (n / 1000000))

-- No blank stands in such a text.
digit-is_space : (c : ℕ) → is_digit c ≡ true → is_space c ≡ false
unfolding is_space
digit-is_space c h = ground arith

number_text-is_space :
    (q t : Text) → IsDigits q → IsDigits t → All (λ c. is_space c ≡ false) (number_text q t)
unfolding number_text
number_text-is_space q [] hq ht = All-imp _ _ digit-is_space q hq
number_text-is_space q (c ∷ t) hq ht =
    All-append _ q (b'.' ∷ c ∷ t) (All-imp _ _ digit-is_space q hq)
      (unfold is_space in refl, All-imp _ _ digit-is_space (c ∷ t) ht)

pub trim_space-micro_text : (n : ℕ) → trim_space (micro_text n) ≡ micro_text n
unfolding trim_space
trim_space-micro_text n =
    let plain =
      number_text-is_space (show (n / 1000000)) (fraction n) (show-IsDigits _)
        (fraction-IsDigits n) in
    rw (micro_text_lem n, trim_left-All is_space _ plain, trim_right-All is_space _ plain)

-- The reader gives the value of the digits over a power of ten.
pub number_text_value :
    (q t : Text)
    → IsDigits q
    → IsDigits t
    → is_empty q ≡ false
    → scan (number_text q t) ≡ some (new_rat (value (value 0 q) t) (10 ^ length t))
unfolding number_text
number_text_value q [] hq ht e = scan-digits q hq e
number_text_value q (c ∷ t) hq ht e = scan-point q (c ∷ t) hq ht e

length-six_digits : (r : ℕ) → length (six_digits r) ≡ 6
unfolding six_digits
length-six_digits r = refl

power_split : (k f : ℕ) → k + f ≡ 6 → (10 ^ k * 10 ^ f ≡ 1000000) × (0 < 10 ^ f)
power_split k zero h = let e : k ≡ 6 = omega arith in rw e (refl, omega arith)
power_split k (suc zero) h = let e : k ≡ 5 = omega arith in rw e (refl, omega arith)
power_split k (suc (suc zero)) h = let e : k ≡ 4 = omega arith in rw e (refl, omega arith)
power_split k (suc (suc (suc zero))) h = let e : k ≡ 3 = omega arith in rw e (refl, omega arith)
power_split k (suc (suc (suc (suc zero)))) h =
    let e : k ≡ 2 = omega arith in rw e (refl, omega arith)
power_split k (suc (suc (suc (suc (suc zero))))) h =
    let e : k ≡ 1 = omega arith in rw e (refl, omega arith)
power_split k (suc (suc (suc (suc (suc (suc zero)))))) h =
    let e : k ≡ 0 = omega arith in rw e (refl, omega arith)
power_split k (suc (suc (suc (suc (suc (suc (suc f))))))) h = absurd (omega arith)

-- The digits left behind the point, over their power of ten, are the millionths.
fraction_value : (n : ℕ) → value (n / 1000000) (fraction n) * 1000000 ≡ n * 10 ^ length (fraction n)
fraction_value n =
    let p = six_digits (n % 1000000) in
    let f = length (fraction n) in
    let v = value (n / 1000000) (fraction n) in
    let fits : f ≤ 6 =
      omega (arith, length-trim_right is_zero p, length-six_digits (n % 1000000)) in
    let k = 6 - f in
    let split = power_split k f (omega (arith, fits)) in
    let whole : n ≡ v * 10 ^ k = omega (
      arith,
      value-six_digits (n / 1000000) (n % 1000000) (omega arith),
      value-trim_right (n / 1000000) k p (omega (arith, fits, length-six_digits (n % 1000000))),
    ) in
    omega (arith, ap (λ (m : ℕ). m * 10 ^ f) whole, ap (λ (m : ℕ). v * m) split.0)

-- The reader on decimal notation gives the number of millionths that was printed.
pub scan-micro_text : (n : ℕ) → (x : Rat) × (scan (micro_text n) ≡ some x) × IsMicro x n
scan-micro_text n =
    let q = show (n / 1000000) in
    let t = fraction n in
    (
      new_rat (value (value 0 q) t) (10 ^ length t),
      rw (micro_text_lem n)
          (number_text_value q t (show-IsDigits _) (fraction-IsDigits n) (show-is_empty _)),
      (refl, rw (value-show (n / 1000000)) (fraction_value n), power_pos _),
    )

pub micro_text-is_empty : (n : ℕ) → is_empty (micro_text n) ≡ false
micro_text-is_empty n =
    rw (micro_text_lem n)
      (keep_digits (show (n / 1000000)) (fraction n) (show-IsDigits _) (show-is_empty _)).0
