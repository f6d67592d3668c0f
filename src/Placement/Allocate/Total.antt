-- ===== src/Placement/Allocate/Total.antt =====
-- When the loop over the fields returns, and when it panics.
use mathlib.Core.Bool.{false≢true}
use pfas_load_control.Base.{
  ℕ, ◌<◌, ◌≡◌, refl, sym, ◌∙◌, ap, Bool, true, false, [], ◌∷◌, List, ◌==◌, if◌then◌else◌,
  Bool-cases, ◌⊎◌, inl, inr, arith, is_le, is_empty, ok, panic, All,
}
use pfas_load_control.Rat.{Rat, sign, quo}
use pfas_load_control.Rat.Micro.{IsMicro, sign-IsMicro, lt-mul}
use pfas_load_control.Placement.Decimal.{Outcome, min_rat, micro_text}
use pfas_load_control.Placement.Decimal.RoundTrip.{micro_text-is_empty}
use pfas_load_control.Placement.Model.{PlacementField}
use pfas_load_control.Placement.Field.{is_eligible}
use pfas_load_control.Placement.Facts.{Library}
use pfas_load_control.Placement.Allocate.{Ledger, skips, give, allocate_field, allocate}
use pfas_load_control.Placement.Allocate.Ledgers.{IsLedger, min_rat-IsMicro}
use pfas_load_control.Placement.Allocate.Micro.{
  decimal-micro_text, skips_not, allocate_field_skipped, allocate_field_priced,
}

-- A field has no capacity text, or the prints of a capacity and of a rate that is not zero.
abbrev pub IsRated : PlacementField → Type 0
IsRated f =
    (f.available_capacity ≡ [])
    ⊎ ((c : ℕ) × (r : ℕ) × (f.available_capacity ≡ micro_text c)
        × (f.allowed_rate ≡ micro_text r)
        × (0 < r))

rated_of :
    (f : PlacementField)
    → IsRated f
    → is_empty f.available_capacity ≡ false
    → (c : ℕ) × (r : ℕ) × (f.available_capacity ≡ micro_text c)
      × (f.allowed_rate ≡ micro_text r)
      × (0 < r)
rated_of f (inl e) h = absurd (false≢true (sym h ∙ ap is_empty e))
rated_of f (inr p) h = p

divisor_positive : (y : Rat) (r : ℕ) → IsMicro y r → 0 < r → (y.abs == 0) ≡ false
divisor_positive y r (s, e, d) h = ground (arith, lt-mul 0 r y.den h d)

divisor_zero : (y : Rat) → IsMicro y 0 → (y.abs == 0) ≡ true
divisor_zero y (s, e, d) = ground arith

give_returns :
    (f : PlacementField) (amount rate : Rat) (l : Ledger)
    → (rate.abs == 0) ≡ false
    → (l' : Ledger) × (give f amount rate l ≡ ok l')
unfolding give quo
give_returns f amount rate l h = rw h (_, refl)

give_panics :
    (f : PlacementField) (amount rate : Rat) (l : Ledger)
    → (rate.abs == 0) ≡ true
    → give f amount rate l ≡ panic
unfolding give quo
give_panics f amount rate l h = rw h refl

either_returns :
    (b : Bool) (l : Ledger) {m : Outcome Ledger}
    → ((l' : Ledger) × (m ≡ ok l'))
    → (l' : Ledger) × ((if b then ok l else m) ≡ ok l')
either_returns true l h = (l, refl)
either_returns false l h = h

module _ (lib : Library) where
  allocate_field_returns :
      (f : PlacementField) (l : Ledger)
      → IsRated f
      → (l' : Ledger) × (allocate_field lib.set_string f l ≡ ok l')
  allocate_field_returns f l p = elim (Bool-cases (skips f l.remaining)) [
    | inl s ↦ (l, allocate_field_skipped lib f l s)
    | inr s ↦
        let (c, r, hc, hr, h) = rated_of f p (skips_not f l.remaining s).1 in
        let (x, dx, mx) = decimal-micro_text lib c in
        let (y, dy, my) = decimal-micro_text lib r in
        rw (allocate_field_priced lib f l c r x y s hc hr dx dy) (
          either_returns _ l
            (give_returns f (min_rat l.remaining x) y l (divisor_positive y r my h)))
  ]

  -- The loop that allocates returns a ledger from whatever it starts with, if every field
  -- carries either no capacity text or printed numbers of which the rate is not zero.
  pub allocate_returns :
      (fs : List PlacementField) (l : Ledger)
      → All IsRated fs
      → (l' : Ledger) × (allocate lib.set_string fs l ≡ ok l')
  unfolding allocate
  allocate_returns [] l ps = (l, refl)
  allocate_returns (f ∷ fs) l (p, ps) =
      let (k, e) = allocate_field_returns f l p in rw e (allocate_returns fs k ps)

  -- Where a part of the batch and a printed capacity are left at an eligible field whose rate
  -- was printed as zero, the loop panics by the division of the tons by that rate.
  pub allocate_panics :
      (f : PlacementField) (fs : List PlacementField) (l : Ledger) (u a c : ℕ)
      → IsLedger l u a
      → is_eligible f.disposition ≡ true
      → f.available_capacity ≡ micro_text c
      → f.allowed_rate ≡ micro_text 0
      → 0 < u
      → 0 < c
      → allocate lib.set_string (f ∷ fs) l ≡ panic
  unfolding allocate
  allocate_panics f fs l u a c h may hc hr hu hpos =
      let (x, dx, mx) = decimal-micro_text lib c in
      let (y, dy, my) = decimal-micro_text lib 0 in
      let left : is_le (sign l.remaining) ≡ false =
        sign-IsMicro l.remaining u h.remaining ∙ ground arith in
      let s : skips f l.remaining ≡ false =
        unfold skips in rw (may, hc, hr, micro_text-is_empty c, micro_text-is_empty 0, left) refl in
      let amount : is_le (sign (min_rat l.remaining x)) ≡ false =
        sign-IsMicro _ _ (min_rat-IsMicro l.remaining x u c h.remaining mx) ∙ ground arith in
      rw
        (
          allocate_field_priced lib f l c 0 x y s hc hr dx dy,
          amount,
          give_panics f (min_rat l.remaining x) y l (divisor_zero y my),
        )
        refl
