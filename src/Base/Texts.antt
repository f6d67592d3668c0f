-- ===== src/Base/Texts.antt =====
-- Texts that the program walks through, as lists of code points, with the functions of Go's
-- `strings` package that it calls on them. Texts that it only compares or passes on are `String`s.
use Prim.Native.Nat.{ℕ}
use Prim.Native.Char.{code}
use Prim.Native.String.{String}
use mathlib.Core.Path.{◌≡◌, refl, ap, ◌∙◌}
use mathlib.Core.Bool.{Bool, true, false, ◌&&◌, ◌||◌}
use mathlib.Core.List.{List, [], ◌∷◌}
use native.Mathlib.Omega.{arith}
use pfas_load_control.Base.Tests.{
  leb, ltb, ◌==◌, if◌then◌else◌, &&-eq-true, ==-true, ==-refl, ==-sym,
}
use pfas_load_control.Base.Lists.{All}

abbrev pub Text : Type 0
Text = List ℕ

abbrev pub codes : String → Text
codes String.[] = []
codes (String.◌∷◌ c s) = code c ∷ codes s

-- A literal message.
unfoldable pub message : String → Text
message s = codes s

abbrev pub is_empty : Text → Bool
is_empty [] = true
is_empty (c ∷ t) = false

unfoldable pub text_eq : Text → Text → Bool
text_eq [] [] = true
text_eq [] (d ∷ t) = false
text_eq (c ∷ s) [] = false
text_eq (c ∷ s) (d ∷ t) = c == d && text_eq s t

-- The order of Go's strings, by the bytes of UTF-8 or, what is the same, by code points.
unfoldable pub text_lt : Text → Text → Bool
text_lt s [] = false
text_lt [] (d ∷ t) = true
text_lt (c ∷ s) (d ∷ t) = let rest = text_lt s t in if c == d then rest else ltb c d

-- `unicode.IsSpace`
unfoldable pub is_space : ℕ → Bool
is_space c =
    (leb 9 c && leb c 13)
    || c == 32
    || c == 0x85
    || c == 0xa0
    || c == 0x1680
    || (leb 0x2000 c && leb c 0x200a)
    || c == 0x2028
    || c == 0x2029
    || c == 0x202f
    || c == 0x205f
    || c == 0x3000

-- `strings.TrimLeftFunc` and `strings.TrimRightFunc`
unfoldable pub trim_left : (ℕ → Bool) → Text → Text
trim_left p [] = []
trim_left p (c ∷ t) = let rest = trim_left p t in if p c then rest else c ∷ t

unfoldable pub trim_right : (ℕ → Bool) → Text → Text
trim_right p [] = []
trim_right p (c ∷ t) = let rest = trim_right p t in if is_empty rest && p c then [] else c ∷ rest

-- `strings.TrimSpace`
unfoldable pub trim_space : Text → Text
unfolding trim_left trim_right is_space
trim_space t = trim_right is_space (trim_left is_space t)

-- `strings.HasPrefix(t, prefix)` and `strings.Contains(t, needle)`
unfoldable pub has_prefix : Text → Text → Bool
has_prefix t [] = true
has_prefix [] (p ∷ ps) = false
has_prefix (c ∷ t) (p ∷ ps) = c == p && has_prefix t ps

unfoldable pub contains : Text → Text → Bool
unfolding has_prefix
contains [] needle = is_empty needle
contains (c ∷ t) needle = has_prefix (c ∷ t) needle || contains t needle

-- Trimming leaves a text alone that has nothing to trim.
pub trim_left-All : (p : ℕ → Bool) (t : Text) → All (λ c. p c ≡ false) t → trim_left p t ≡ t
unfolding trim_left
trim_left-All p [] h = refl
trim_left-All p (c ∷ t) h = ground arith

pub trim_right-All : (p : ℕ → Bool) (t : Text) → All (λ c. p c ≡ false) t → trim_right p t ≡ t
unfolding trim_right
trim_right-All p [] h = refl
trim_right-All p (c ∷ t) h = ground (arith, trim_right-All p t h.1)

pub text_eq-true : (s t : Text) → text_eq s t ≡ true → s ≡ t
unfolding text_eq
text_eq-true [] [] h = refl
text_eq-true [] (d ∷ t) h = cc
text_eq-true (c ∷ s) [] h = cc
text_eq-true (c ∷ s) (d ∷ t) h =
    let (same, rest) = &&-eq-true (c == d) (text_eq s t) h in
    ap (λ (x : ℕ). x ∷ s) (==-true c d same) ∙ ap (λ (r : Text). d ∷ r) (text_eq-true s t rest)

pub text_eq_refl : (t : Text) → text_eq t t ≡ true
unfolding text_eq
text_eq_refl [] = refl
text_eq_refl (c ∷ t) = rw (==-refl c) (text_eq_refl t)

pub text_eq-sym : (s t : Text) → text_eq s t ≡ text_eq t s
unfolding text_eq
text_eq-sym [] [] = refl
text_eq-sym [] (d ∷ t) = refl
text_eq-sym (c ∷ s) [] = refl
text_eq-sym (c ∷ s) (d ∷ t) = rw (==-sym c d, text_eq-sym s t) refl

pub text_lt_asym : (s t : Text) → text_lt s t ≡ true → text_lt t s ≡ false
unfolding text_lt
text_lt_asym [] [] h = cc
text_lt_asym [] (d ∷ t) h = refl
text_lt_asym (c ∷ s) [] h = cc
text_lt_asym (c ∷ s) (d ∷ t) h = ground (arith, text_lt_asym s t)

-- Different texts are one below the other.
pub text_lt_total : (s t : Text) → text_eq s t ≡ false → text_lt s t ≡ false → text_lt t s ≡ true
unfolding text_lt text_eq
text_lt_total [] [] h k = cc
text_lt_total [] (d ∷ t) h k = cc
text_lt_total (c ∷ s) [] h k = refl
text_lt_total (c ∷ s) (d ∷ t) h k = ground (arith, text_lt_total s t)

pub text_lt_trans : (s t u : Text) → text_lt s t ≡ true → text_lt t u ≡ true → text_lt s u ≡ true
unfolding text_lt
text_lt_trans s t [] h k = cc
text_lt_trans s [] (e ∷ u) h k = cc
text_lt_trans [] (d ∷ t) (e ∷ u) h k = refl
text_lt_trans (c ∷ s) (d ∷ t) (e ∷ u) h k = ground (arith, text_lt_trans s t u)
