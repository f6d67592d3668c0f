-- ===== src/Numeral/Trim.antt =====
-- Trailing zeros behind the point do not count.
use native.Mathlib.Nat.{pow-succ'}
use pfas_load_control.Base.{
  ℕ, ◌+◌, ◌-◌, ◌*◌, ◌^◌, ◌≤◌, ◌≡◌, ◌∙◌, ap, refl, Bool, true, false, ◌∷◌, [], ◌++◌, ◌&&◌,
  Bool-cases, inl, inr, ◌==◌, arith, Text, length, is_empty, trim_right,
}
use pfas_load_control.Numeral.{value}
use pfas_load_control.Numeral.Digits.{IsDigits}

abbrev pub is_zero : ℕ → Bool
is_zero c = c == b'0'

abbrev pub is_dot : ℕ → Bool
is_dot c = c == b'.'

-- What is trimmed away whole takes the trimming on to the text before it.
pub trim_right-append_nil :
    (p : ℕ → Bool) (s t : Text) → trim_right p t ≡ [] → trim_right p (s ++ t) ≡ trim_right p s
unfolding trim_right
trim_right-append_nil p [] t h = h
trim_right-append_nil p (c ∷ s) t h = rw (trim_right-append_nil p s t h)

is_empty-append_cons : (s : Text) (x : ℕ) (u : Text) → is_empty (s ++ x ∷ u) ≡ false
is_empty-append_cons [] x u = refl
is_empty-append_cons (c ∷ s) x u = refl

pub trim_right-append_cons :
    (p : ℕ → Bool) (s t : Text) (x : ℕ) (u : Text)
    → trim_right p t ≡ x ∷ u
    → trim_right p (s ++ t) ≡ s ++ x ∷ u
unfolding trim_right
trim_right-append_cons p [] t x u h = h
trim_right-append_cons p (c ∷ s) t x u h =
    rw (trim_right-append_cons p s t x u h, is_empty-append_cons s x u)

pub length-trim_right : (p : ℕ → Bool) (t : Text) → length (trim_right p t) ≤ length t
unfolding trim_right
length-trim_right p [] = omega arith
length-trim_right p (c ∷ t) = ground (arith, length-trim_right p t)

is_zero-digit : (c : ℕ) → is_zero c ≡ true → (n : ℕ) → n * 10 + (c - b'0') ≡ n * 10
is_zero-digit c h n = ground arith

all_zero :
    (c : ℕ) (t : Text)
    → trim_right is_zero (c ∷ t) ≡ []
    → (trim_right is_zero t ≡ []) × (is_zero c ≡ true)
unfolding trim_right
all_zero c t h = ground arith

-- A text of zeros only multiplies.
pub value-zeros : (n : ℕ) (t : Text) → trim_right is_zero t ≡ [] → value n t ≡ n * 10 ^ length t
value-zeros n [] h = omega arith
value-zeros n (c ∷ t) h =
    let (rest, z) = all_zero c t h in
    ap (λ m. value m t) (is_zero-digit c z n)
    ∙ value-zeros (n * 10) t rest
    ∙ omega (arith, ap (λ (p : ℕ). n * p) (pow-succ' 10 (length t)))

trim_right_kept :
    (c : ℕ) (t : Text)
    → (is_empty (trim_right is_zero t) && is_zero c) ≡ false
    → trim_right is_zero (c ∷ t) ≡ c ∷ trim_right is_zero t
unfolding trim_right
trim_right_kept c t h = rw h

trim_right_gone :
    (c : ℕ) (t : Text)
    → (is_empty (trim_right is_zero t) && is_zero c) ≡ true
    → trim_right is_zero (c ∷ t) ≡ []
unfolding trim_right
trim_right_gone c t h = rw h

-- A text loses `k` zeros at its end, and its value a factor of ten for each.
pub value-trim_right :
    (n k : ℕ) (t : Text)
    → k + length (trim_right is_zero t) ≡ length t
    → value n t ≡ value n (trim_right is_zero t) * 10 ^ k
value-trim_right n k [] h = unfold trim_right in ground arith
value-trim_right n k (c ∷ t) h = elim (Bool-cases (is_empty (trim_right is_zero t) && is_zero c)) [
  | inl gone ↦
      let g = trim_right_gone c t gone in
      let e : k ≡ length (c ∷ t) = omega (arith, h, ap length g) in
      rw (g, e) (value-zeros n (c ∷ t) g)
  | inr kept ↦
      let g = trim_right_kept c t kept in
      rw g (value-trim_right (n * 10 + (c - b'0')) k t (omega (arith, h, ap length g)))
]

pub trim_right-IsDigits : (p : ℕ → Bool) (t : Text) → IsDigits t → IsDigits (trim_right p t)
unfolding trim_right
trim_right-IsDigits p [] h = tt
trim_right-IsDigits p (c ∷ t) (d, h) = ground (arith, trim_right-IsDigits p t h)
