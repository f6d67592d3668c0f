-- ===== src/Placement/Allocate/Greedy.antt =====
-- What the allocation promises, over whole millionths of a dry ton: each eligible field, in the order
-- of the ranking, is given what is left of the batch up to its capacity.
use Prim.Native.Nat.{min}
use pfas_load_control.Base.{
  ℕ, suc, ◌*◌, map, refl, ap, ◌+◌, ◌-◌, ◌≡◌, Option, [], ◌∷◌, List, Text, ◌==◌, if◌then◌else◌,
  Bool-cases, inl, inr, arith,
}
use pfas_load_control.Rat.{Rat, micro, round_div}
use pfas_load_control.Placement.Decimal.{decimal_or_zero, micro_text}
use pfas_load_control.Placement.Model.{PlacementField, PlacementAllocation}
use pfas_load_control.Placement.Field.{is_eligible}

abbrev pub sum : List ℕ → ℕ
sum [] = 0
sum (n ∷ ns) = n + sum ns

module _ (set_string : Text → Option Rat) where
  -- The capacity of a field that may be allocated to.
  unfoldable pub offer : PlacementField → ℕ
  offer f =
      if is_eligible f.disposition
      then micro (decimal_or_zero set_string f.available_capacity)
      else 0

  abbrev pub total_offer : List PlacementField → ℕ
  total_offer [] = 0
  total_offer (f ∷ fs) = offer f + total_offer fs

  -- What is given, field by field; a field that is given nothing has no entry.
  unfoldable pub gifts : ℕ → List PlacementField → List ℕ
  gifts u [] = []
  gifts u (f ∷ fs) =
      let g = min u (offer f) in
      let rest = gifts u fs in let more = g ∷ gifts (u - g) fs in if g == 0 then rest else more

  -- The entry of `g` millionths of a ton, at the place `n`: the acres are the tons by the printed
  -- rate, to the millionth.
  abbrev pub entry_of : ℕ → PlacementField → ℕ → PlacementAllocation
  entry_of n f g = record {
    position = n;
    field_id = f.field_id;
    field_name = f.field_name;
    dry_tons = micro_text g;
    acres =
        micro_text (round_div (g * 1000000) (micro (decimal_or_zero set_string f.allowed_rate)));
    rate = f.allowed_rate;
  }

  -- The entries of the gifts, numbered from `n` on.
  unfoldable pub entries_of : ℕ → ℕ → List PlacementField → List PlacementAllocation
  entries_of n u [] = []
  entries_of n u (f ∷ fs) =
      let g = min u (offer f) in
      let rest = entries_of n u fs in
      let more = entry_of n f g ∷ entries_of (suc n) (u - g) fs in if g == 0 then rest else more

  -- Their tons are the gifts.
  pub tons-entries_of :
      (n u : ℕ) (fs : List PlacementField)
      → map (λ (x : PlacementAllocation). x.dry_tons) (entries_of n u fs)
        ≡ map micro_text (gifts u fs)
  unfolding entries_of gifts
  tons-entries_of n u [] = refl
  tons-entries_of n u (f ∷ fs) = elim (Bool-cases (min u (offer f) == 0)) [
    | inl nothing ↦ rw nothing (tons-entries_of n u fs)
    | inr something ↦ rw something (
        ap (λ (ts : List Text). micro_text (min u (offer f)) ∷ ts)
          (tons-entries_of (suc n) (u - min u (offer f)) fs))
  ]

  -- In all, the smaller of the batch and the capacity is given.
  pub sum-gifts : (u : ℕ) (fs : List PlacementField) → sum (gifts u fs) ≡ min u (total_offer fs)
  unfolding gifts
  sum-gifts u [] = omega arith
  sum-gifts u (f ∷ fs) = elim (Bool-cases (min u (offer f) == 0)) [
    | inl nothing ↦ rw nothing (ground (arith, sum-gifts u fs))
    | inr something ↦ rw something (omega (arith, sum-gifts (u - min u (offer f)) fs))
  ]
