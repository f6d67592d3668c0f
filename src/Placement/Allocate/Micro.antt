-- ===== src/Placement/Allocate/Micro.antt =====
-- internal/placement/engine.go, `EvaluateWithEvidenceAndPolicy`: the loop over the fields, in whole
-- millionths of a dry ton.
use Prim.Native.Nat.{min}
use mathlib.Core.Bool.{false≢true}
use mathlib.Core.Path.{ap₂}
use pfas_load_control.Base.{
  ℕ, ◌+◌, ◌-◌, ◌≤◌, ◌<◌, ◌≡◌, true, false, [], ◌∷◌, ◌++◌, List, ◌==◌, if◌then◌else◌, Bool-cases,
  ◌⊎◌, inl, inr, arith, is_le, is_empty, ok, length, suc, ap, ◌∙◌, >>=-eq-ok, ok-injective, subst,
  All, sym, append-nil, append_assoc, length-append,
}
use pfas_load_control.Rat.{Rat, sign, micro, round_div}
use pfas_load_control.Rat.Micro.{IsMicro, sign-IsMicro, micro-IsMicro}
use pfas_load_control.Placement.Decimal.{decimal, decimal_or_zero, micro_text, min_rat}
use pfas_load_control.Placement.Decimal.RoundTrip.{micro_text-is_empty, trim_space-micro_text}
use pfas_load_control.Placement.Model.{PlacementField}
use pfas_load_control.Placement.Field.{is_eligible}
use pfas_load_control.Placement.Facts.{Library}
use pfas_load_control.Placement.Allocate.{Ledger, skips, give, allocate_field, allocate}
use pfas_load_control.Placement.Allocate.Greedy.{offer, total_offer, entry_of, entries_of}
use pfas_load_control.Placement.Allocate.Ledgers.{
  min_rat-IsMicro, IsLedger, IsLedger-cast, enter-IsLedger, give_ok,
}

-- A field has no capacity text, or the prints of a capacity and a rate.
abbrev pub IsPriced : PlacementField → Type 0
IsPriced f =
    (f.available_capacity ≡ [])
    ⊎ ((c : ℕ) × (r : ℕ) × (f.available_capacity ≡ micro_text c) × (f.allowed_rate ≡ micro_text r))

pub skips_not :
    (f : PlacementField) (remaining : Rat)
    → skips f remaining ≡ false
    → (is_eligible f.disposition ≡ true) × (is_empty f.available_capacity ≡ false)
unfolding skips
skips_not f remaining s = ground arith

pub priced_of :
    (f : PlacementField)
    → IsPriced f
    → is_empty f.available_capacity ≡ false
    → (c : ℕ) × (r : ℕ) × (f.available_capacity ≡ micro_text c) × (f.allowed_rate ≡ micro_text r)
priced_of f (inl e) h = absurd (false≢true (sym h ∙ ap is_empty e))
priced_of f (inr p) h = p

module _ (lib : Library) where
  -- The print of `n` millionths is read as `n` millionths.
  pub decimal-micro_text :
      (n : ℕ) → (x : Rat) × (decimal lib.set_string (micro_text n) ≡ ok x) × IsMicro x n
  unfolding decimal
  decimal-micro_text n =
      let (x, e, h) = lib.set_string-micro_text n in
      (x, rw (trim_space-micro_text n, decimal, e), h)

  offer-micro :
      (f : PlacementField) (c : ℕ)
      → f.available_capacity ≡ micro_text c
      → is_eligible f.disposition ≡ true
      → offer lib.set_string f ≡ c
  unfolding offer decimal_or_zero
  offer-micro f c h e =
      let (x, d, m) = decimal-micro_text c in
      rw (e, h, micro_text-is_empty c, decimal_or_zero, d) (micro-IsMicro x c m)

  offer_none :
      (f : PlacementField)
      → (is_eligible f.disposition ≡ false) ⊎ (f.available_capacity ≡ [])
      → offer lib.set_string f ≡ 0
  unfolding offer decimal_or_zero micro round_div
  offer_none f (inl e) = rw e
  offer_none f (inr h) = rw h (ground arith)

  pub allocate_field_skipped :
      (f : PlacementField) (l : Ledger)
      → skips f l.remaining ≡ true
      → allocate_field lib.set_string f l ≡ ok l
  unfolding allocate_field
  allocate_field_skipped f l s = rw s

  -- What happens at a field that is not passed over.
  pub allocate_field_priced :
      (f : PlacementField) (l : Ledger) (c r : ℕ) (x y : Rat)
      → skips f l.remaining ≡ false
      → f.available_capacity ≡ micro_text c
      → f.allowed_rate ≡ micro_text r
      → decimal lib.set_string (micro_text c) ≡ ok x
      → decimal lib.set_string (micro_text r) ≡ ok y
      → allocate_field lib.set_string f l ≡ (
          if is_le (sign (min_rat l.remaining x)) then ok l else give f (min_rat l.remaining x) y l)
  unfolding allocate_field
  allocate_field_priced f l c r x y s hc hr dx dy = rw (s, hc, hr, dx, dy)

  -- Nothing is to be given at a field that is passed over.
  skips-min :
      (f : PlacementField) (l : Ledger) (u a : ℕ)
      → IsPriced f
      → IsLedger l u a
      → skips f l.remaining ≡ true
      → min u (offer lib.set_string f) ≡ 0
  unfolding skips
  skips-min f l u a (inl e) h s = omega (arith, offer_none f (inr e))
  skips-min f l u a (inr (c, r, hc, hr)) h s = elim (Bool-cases (is_eligible f.disposition)) [
    | inl may ↦
        let spent : is_le (sign l.remaining) ≡ true =
          rw (may, hc, hr, micro_text-is_empty c, micro_text-is_empty r) at s in
        let z : (u == 0) ≡ true = sym (sign-IsMicro l.remaining u h.remaining) ∙ spent in
        ground arith
    | inr not_it ↦ omega (arith, offer_none f (inl not_it))
  ]

  rate-micro :
      (f : PlacementField) (r : ℕ)
      → f.allowed_rate ≡ micro_text r
      → micro (decimal_or_zero lib.set_string f.allowed_rate) ≡ r
  unfolding decimal_or_zero
  rate-micro f r h =
      let (x, d, m) = decimal-micro_text r in
      rw (h, micro_text-is_empty r, decimal_or_zero, d) (micro-IsMicro x r m)

  -- Where `g` millionths are to be given.
  given_step :
      (f : PlacementField) (l : Ledger) (u a g r : ℕ) (amount rate : Rat) {l' : Ledger}
      → IsLedger l u a
      → IsMicro amount g
      → IsMicro rate r
      → f.allowed_rate ≡ micro_text r
      → g ≤ u
      → (if is_le (sign amount) then ok l else give f amount rate l) ≡ ok l'
      → ((g ≡ 0) × (l ≡ l'))
        ⊎ ((0 < g)
            × IsLedger l' (u - g) (a + g)
            × (l'.allocations
                ≡ l.allocations ++ entry_of lib.set_string (length l.allocations + 1) f g ∷ []))
  given_step f l u a g r amount rate {l'} h hm hr er le e =
      elim (Bool-cases (is_le (sign amount))) [
        | inl z ↦
            let zero_gift : (g == 0) ≡ true = sym (sign-IsMicro amount g hm) ∙ z in
            inl (ground arith, ok-injective l (rw z at e))
        | inr more ↦
            let some_gift : (g == 0) ≡ false = sym (sign-IsMicro amount g hm) ∙ more in
            let (acres, quotient, q) = give_ok f l amount rate (rw more at e) in
            let (ledger, entries) =
              enter-IsLedger lib.set_string f l u a g r amount rate acres h hm hr
                (rate-micro f r er) quotient le in
            inr (
              ground arith,
              subst (λ k. IsLedger k (u - g) (a + g)) q ledger,
              ap (λ (k : Ledger). k.allocations) (sym q) ∙ entries,
            )
      ]

  -- The step at one field.
  allocate_field_step :
      (f : PlacementField) (l : Ledger) (u a : ℕ) {l' : Ledger}
      → IsPriced f
      → IsLedger l u a
      → allocate_field lib.set_string f l ≡ ok l'
      → let g = min u (offer lib.set_string f) in
        ((g ≡ 0) × (l ≡ l'))
        ⊎ ((0 < g)
            × IsLedger l' (u - g) (a + g)
            × (l'.allocations
                ≡ l.allocations ++ entry_of lib.set_string (length l.allocations + 1) f g ∷ []))
  allocate_field_step f l u a {l'} p h e = elim (Bool-cases (skips f l.remaining)) [
    | inl s ↦ inl (skips-min f l u a p h s, ok-injective l (sym (allocate_field_skipped f l s) ∙ e))
    | inr s ↦
        let (may, full) = skips_not f l.remaining s in
        let (c, r, hc, hr) = priced_of f p full in
        let (x, dx, mx) = decimal-micro_text c in
        let (y, dy, my) = decimal-micro_text r in
        rw (offer-micro f c hc may) (
          given_step f l u a (min u c) r (min_rat l.remaining x) y h
            (min_rat-IsMicro l.remaining x u c h.remaining mx) my hr (omega arith)
            (sym (allocate_field_priced f l c r x y s hc hr dx dy) ∙ e))
  ]

  entries_none :
      (n u : ℕ) (f : PlacementField) (fs : List PlacementField)
      → min u (offer lib.set_string f) ≡ 0
      → entries_of lib.set_string n u (f ∷ fs) ≡ entries_of lib.set_string n u fs
  unfolding entries_of
  entries_none n u f fs z = rw z

  entries_some :
      (n u : ℕ) (f : PlacementField) (fs : List PlacementField)
      → let g = min u (offer lib.set_string f) in
        0 < g
        → entries_of lib.set_string n u (f ∷ fs)
          ≡ entry_of lib.set_string n f g ∷ entries_of lib.set_string (suc n) (u - g) fs
  unfolding entries_of
  entries_some n u f fs more = ground arith

  allocate_cons :
      (f : PlacementField) (fs : List PlacementField) (l : Ledger) {l' : Ledger}
      → allocate lib.set_string (f ∷ fs) l ≡ ok l'
      → (k : Ledger) × (allocate_field lib.set_string f l ≡ ok k)
        × (allocate lib.set_string fs k ≡ ok l')
  unfolding allocate
  allocate_cons f fs l e =
      >>=-eq-ok (allocate_field lib.set_string f l) (allocate lib.set_string fs) e

  -- Over fields with either no capacity text or printed numbers, a run of the loop that returns
  -- does what the greedy allocation in whole millionths of a ton says: from a ledger with u to
  -- give and a given, it leaves u less the total capacity of the eligible fields, has given the
  -- smaller of the two more, and has appended exactly the greedy entries: one for each field
  -- that is given something, in order, numbered on from the entries before, with the identifier,
  -- the name and the rate of the field, its tons, and the acres, which are its tons by its rate
  -- to the millionth.
  pub allocate_lem :
      (fs : List PlacementField) (l : Ledger) (u a : ℕ) {l' : Ledger}
      → All IsPriced fs
      → IsLedger l u a
      → allocate lib.set_string fs l ≡ ok l'
      → IsLedger l' (u - total_offer lib.set_string fs) (a + min u (total_offer lib.set_string fs))
        × (l'.allocations
            ≡ l.allocations ++ entries_of lib.set_string (length l.allocations + 1) u fs)
  allocate_lem [] l u a p h e =
      unfold allocate entries_of in
      let same = ok-injective l e in
      (
        subst (λ k. IsLedger k (u - 0) (a + min u 0)) same
            (IsLedger-cast l (omega arith) (omega arith) h),
        ap (λ (k : Ledger). k.allocations) (sym same) ∙ sym (append-nil l.allocations),
      )
  allocate_lem (f ∷ fs) l u a {l'} (p, ps) h e =
      let (l1, e1, e2) = allocate_cons f fs l e in
      let n = length l.allocations + 1 in
      elim (allocate_field_step f l u a p h e1) [
        | inl (z, same) ↦
            let (ledger, entries) =
              allocate_lem fs l u a ps h
                (subst (λ k. allocate lib.set_string fs k ≡ ok l') (sym same) e2) in
            (
              IsLedger-cast l' (omega (arith, z)) (omega (arith, z)) ledger,
              entries ∙ ap (λ es. l.allocations ++ es) (sym (entries_none n u f fs z)),
            )
        | inr (some_gift, h1, t1) ↦
            let g = min u (offer lib.set_string f) in
            let (ledger, entries) = allocate_lem fs l1 (u - g) (a + g) ps h1 e2 in
            let next : length l1.allocations + 1 ≡ suc n =
              let longer : length l1.allocations ≡ length l.allocations + 1 =
                ap length t1 ∙ length-append l.allocations (entry_of lib.set_string n f g ∷ []) in
              omega (arith, longer) in
            (
              IsLedger-cast l' (omega arith) (omega arith) ledger,
              entries
                  ∙ ap₂ (λ es k. es ++ entries_of lib.set_string k (u - g) fs) t1 next
                  ∙ append_assoc l.allocations (entry_of lib.set_string n f g ∷ []) _
                  ∙ ap (λ es. l.allocations ++ es) (sym (entries_some n u f fs some_gift)),
            )
      ]
