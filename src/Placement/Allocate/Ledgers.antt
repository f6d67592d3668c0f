-- ===== src/Placement/Allocate/Ledgers.antt =====
-- internal/placement/engine.go, `EvaluateWithEvidenceAndPolicy`: one entry of an allocation, and the
-- numbers that it is made from.
use Prim.Native.Nat.{min}
use mathlib.Core.Path.{ap₂}
use pfas_load_control.Base.{
  ℕ, ◌+◌, ◌-◌, ◌≤◌, ◌<◌, ◌≡◌, [], ◌∷◌, ◌++◌, Text, ◌==◌, Bool-cases, inl, inr, arith, ok, panic,
  ◌*◌, length, suc, ap, ◌∙◌, >>=-eq-ok, ok-injective, sym, refl, Option, zero,
}
use pfas_load_control.Rat.{Rat, micro, round_div, quo, new_rat}
use pfas_load_control.Rat.Rounding.{round_div_same}
use pfas_load_control.Rat.Micro.{IsMicro, cmp-IsMicro, add-IsMicro, sub-IsMicro, lt-mul}
use pfas_load_control.Placement.Decimal.{Outcome, decimal_or_zero, format_rat, micro_text, min_rat}
use pfas_load_control.Placement.Decimal.RoundTrip.{format_rat-IsMicro, format_rat-micro}
use pfas_load_control.Placement.Model.{PlacementField}
use pfas_load_control.Placement.Allocate.{Ledger, enter, give}
use pfas_load_control.Placement.Allocate.Greedy.{entry_of}

-- The smaller of two fractions.
pub min_rat-IsMicro :
    (x y : Rat) (n m : ℕ) → IsMicro x n → IsMicro y m → IsMicro (min_rat x y) (min n m)
unfolding min_rat
min_rat-IsMicro x y n m hx hy = rw (cmp-IsMicro x y n m hx hy) (ground arith)

-- A ledger that holds `u` millionths to give and has given `a`.
pub record IsLedger (l : Ledger) (u a : ℕ) : Type 0 where
  pub remaining : IsMicro l.remaining u
  pub allocated : IsMicro l.allocated a

pub IsLedger-cast : (l : Ledger) {u v a b : ℕ} → u ≡ v → a ≡ b → IsLedger l u a → IsLedger l v b
IsLedger-cast l p q h = rw (← p, ← q) h

cross_multiplied :
    (a b d e g r m : ℕ) → a * m ≡ g * d → b * m ≡ r * e → a * e * m * r ≡ g * m * (d * b)
cross_multiplied a b d e g r m h k =
    let left : a * e * m * r ≡ a * m * (r * e) = grind arith in
    let right : g * d * (b * m) ≡ g * m * (d * b) = grind arith in
    left ∙ ap₂ (λ (x y : ℕ). x * y) h (sym k) ∙ right

-- The acres that an amount takes at a rate, as they are printed.
acres_text :
    (amount rate acres : Rat) (g r : ℕ)
    → IsMicro amount g
    → IsMicro rate r
    → ◌≡◌ {A = Outcome Rat} (quo amount rate) (ok acres)
    → format_rat acres ≡ micro_text (round_div (g * 1000000) r)
unfolding quo
acres_text amount rate acres g r (sa, ea, da) (sr, er, dr) e = elim (Bool-cases (rate.abs == 0)) [
  | inl zero_rate ↦ let absurd : ◌≡◌ {A = Outcome Rat} panic (ok acres) = rw zero_rate at e in cc
  | inr positive ↦
      let some_rate : 0 < rate.abs = ground arith in
      let some_divisor : 0 < amount.den * rate.abs =
        omega (arith, lt-mul 0 amount.den rate.abs da some_rate) in
      let same : new_rat (amount.abs * rate.den) (amount.den * rate.abs) ≡ acres =
        ok-injective acres (rw (positive, sa, sr) at e) in
      ap format_rat (sym same)
      ∙ format_rat-micro _ refl
      ∙ ap micro_text (
          unfold micro in
          round_div_same (amount.abs * rate.den * 1000000) (amount.den * rate.abs) (g * 1000000) r
            some_divisor (some_units rate.abs rate.den r some_rate er)
            (cross_multiplied amount.abs rate.abs amount.den rate.den g r 1000000 ea er))
]
  where
    some_units : (b e r : ℕ) → 0 < b → b * 1000000 ≡ r * e → 0 < r
    some_units b e zero p h = omega (arith, h)
    some_units b e (suc r) p h = omega arith

-- An entry of `g` millionths at a rate of `r`.
pub enter-IsLedger :
    (set_string : Text → Option Rat) (f : PlacementField) (l : Ledger) (u a g r : ℕ)
    (amount rate acres : Rat)
    → IsLedger l u a
    → IsMicro amount g
    → IsMicro rate r
    → micro (decimal_or_zero set_string f.allowed_rate) ≡ r
    → ◌≡◌ {A = Outcome Rat} (quo amount rate) (ok acres)
    → g ≤ u
    → IsLedger (enter f amount acres l) (u - g) (a + g)
      × ((enter f amount acres l).allocations
          ≡ l.allocations ++ entry_of set_string (length l.allocations + 1) f g ∷ [])
unfolding enter
enter-IsLedger set_string f l u a g r amount rate acres h hm hr er q le = (
  record {
    remaining = sub-IsMicro l.remaining amount u g h.remaining hm le;
    allocated = add-IsMicro l.allocated amount a g h.allocated hm;
  },
  rw (er, ← format_rat-IsMicro amount g hm, ← acres_text amount rate acres g r hm hr q) refl,
)

pub give_ok :
    (f : PlacementField) (l : Ledger) (amount rate : Rat) {l' : Ledger}
    → give f amount rate l ≡ ok l'
    → (acres : Rat) × (◌≡◌ {A = Outcome Rat} (quo amount rate) (ok acres))
      × (enter f amount acres l ≡ l')
unfolding give
give_ok f l amount rate e =
    let (acres, q, p) = >>=-eq-ok (quo amount rate) _ e in (acres, q, ok-injective l p)
