-- ===== src/Placement/Rank/Order.antt =====
-- The ranking compares six keys one after the other, and leaves no pair of fields out of order.
use pfas_load_control.Base.{
  ℕ, ◌+◌, ◌≡◌, sym, ◌∙◌, Bool, true, false, not, ◌&&◌, [], ◌∷◌, List, ltb, ◌==◌, if◌then◌else◌,
  is_gt, is_eq, compare, All, Ordered, Bool-cases, inl, inr, arith,
}
use pfas_load_control.Rat.{micro, zero_rat}
use pfas_load_control.Rat.Micro.{IsMicro, zero_rat-IsMicro, cmp-IsMicro, micro-IsMicro}
use pfas_load_control.Placement.Decimal.{decimal_or_zero}
use pfas_load_control.Placement.Decimal.RoundTrip.{micro_text-is_empty}
use pfas_load_control.Placement.Model.{PlacementField}
use pfas_load_control.Placement.Model.Resolution.{Float}
use pfas_load_control.Placement.Facts.{Library}
use pfas_load_control.Placement.Facts.Floats.{float_lt, number_lt, is_negative, magnitude, is_nan}
use pfas_load_control.Placement.Allocate.Micro.{IsPriced, decimal-micro_text}
use pfas_load_control.Placement.Rank.{
  disposition_order, road_distance, ranks_before, insert_ranked, sort_from, number_from,
  rank_fields,
}
use pfas_load_control.Placement.Rank.Kept.{insert_ranked-All}

-- The order by the sign and the magnitude of two numbers.
abbrev signed_lt : Bool → ℕ → Bool → ℕ → Bool
signed_lt true m true n = ltb n m
signed_lt true m false n = ltb 0 (m + n)
signed_lt false m true n = false
signed_lt false m false n = ltb m n

number_lt_lem :
    (x y : Float)
    → number_lt x y ≡ signed_lt (is_negative x) (magnitude x) (is_negative y) (magnitude y)
unfolding number_lt
number_lt_lem x y = ground arith

signed_lt_trans :
    (s : Bool) (m : ℕ) (t : Bool) (n : ℕ) (u : Bool) (k : ℕ)
    → signed_lt s m t n ≡ true
    → signed_lt t n u k ≡ true
    → signed_lt s m u k ≡ true
signed_lt_trans s m t n u k h e = ground arith

signed_lt_asym :
    (s : Bool) (m : ℕ) (t : Bool) (n : ℕ) → signed_lt s m t n ≡ true → signed_lt t n s m ≡ false
signed_lt_asym s m t n h = ground arith

number_lt_trans :
    (x y z : Float) → number_lt x y ≡ true → number_lt y z ≡ true → number_lt x z ≡ true
number_lt_trans x y z h k = rw (number_lt_lem x z) (
    signed_lt_trans _ _ (is_negative y) (magnitude y) _ _ (rw (number_lt_lem x y) at h)
      (rw (number_lt_lem y z) at k))

number_lt_asym : (x y : Float) → number_lt x y ≡ true → number_lt y x ≡ false
number_lt_asym x y h = rw (number_lt_lem y x) (
    signed_lt_asym (is_negative x) (magnitude x) (is_negative y) (magnitude y)
      (rw (number_lt_lem x y) at h))

not_nan_trans :
    (a b c p q r : Bool)
    → (p ≡ true → q ≡ true → r ≡ true)
    → (a && b && p) ≡ true
    → (b && c && q) ≡ true
    → (a && c && r) ≡ true
not_nan_trans a b c p q r f h k = ground arith

not_nan_asym :
    (a b p q : Bool) → (p ≡ true → q ≡ false) → (a && b && p) ≡ true → (b && a && q) ≡ false
not_nan_asym a b p q f h = ground arith

pub float_lt_trans :
    (x y z : Float) → float_lt x y ≡ true → float_lt y z ≡ true → float_lt x z ≡ true
unfolding float_lt
float_lt_trans x y z h k =
    not_nan_trans (not (is_nan x)) (not (is_nan y)) (not (is_nan z)) (number_lt x y) (number_lt y z)
      (number_lt x z) (number_lt_trans x y z) h k

pub float_lt_asym : (x y : Float) → float_lt x y ≡ true → float_lt y x ≡ false
unfolding float_lt
float_lt_asym x y h =
    not_nan_asym (not (is_nan x)) (not (is_nan y)) (number_lt x y) (number_lt y x)
      (number_lt_asym x y) h

-- The keys of a field, in the order in which they count.
pub record Key : Type 0 where
  pub order : ℕ
  pub high : ℕ
  pub moderate : ℕ
  pub gaps : ℕ
  pub capacity : ℕ
  pub road : Float

-- Fewer is better, but for the capacity.
unfoldable pub precedes : Key → Key → Bool
precedes a b =
    if not (a.order == b.order)
    then ltb a.order b.order
    else if not (a.high == b.high)
    then ltb a.high b.high
    else if not (a.moderate == b.moderate)
    then ltb a.moderate b.moderate
    else if not (a.gaps == b.gaps)
    then ltb a.gaps b.gaps
    else if not (a.capacity == b.capacity)
    then ltb b.capacity a.capacity
    else float_lt a.road b.road

precedes_trans : (a b c : Key) → precedes a b ≡ true → precedes b c ≡ true → precedes a c ≡ true
unfolding precedes
precedes_trans a b c h k = ground (arith, float_lt_trans a.road b.road c.road)

precedes_asym : (a b : Key) → precedes a b ≡ true → precedes b a ≡ false
unfolding precedes
precedes_asym a b h = ground (arith, float_lt_asym a.road b.road)

not_before : {p q r : Bool} → (p ≡ true → q ≡ true → r ≡ true) → q ≡ true → r ≡ false → p ≡ false
not_before f h k = ground arith

greater_first :
    (c d : ℕ) (b : Bool)
    → (if not (is_eq (compare c d)) then is_gt (compare c d) else b)
      ≡ (if not (c == d) then ltb d c else b)
greater_first c d b = ground arith

module _ (lib : Library) where
  -- The capacity that the text of a field spells.
  abbrev pub capacity_micro : PlacementField → ℕ
  capacity_micro f = micro (decimal_or_zero lib.set_string f.available_capacity)

  abbrev pub key_of : PlacementField → Key
  key_of f = record {
    order = disposition_order f.disposition;
    high = f.high_concern_count;
    moderate = f.moderate_concern_count;
    gaps = f.data_gap_count;
    capacity = capacity_micro f;
    road = road_distance f.road_access_distance_m;
  }

  decimal_or_zero-IsMicro :
      (f : PlacementField)
      → IsPriced f
      → IsMicro (decimal_or_zero lib.set_string f.available_capacity) (capacity_micro f)
  unfolding decimal_or_zero
  decimal_or_zero-IsMicro f (inl e) =
      rw e (rw (micro-IsMicro zero_rat 0 zero_rat-IsMicro) zero_rat-IsMicro)
  decimal_or_zero-IsMicro f (inr (c, r, hc, hr)) =
      let (x, d, h) = decimal-micro_text lib c in
      rw (hc, micro_text-is_empty c, d) (rw (micro-IsMicro x c h) h)

  ranks_before-precedes :
      (f g : PlacementField)
      → IsPriced f
      → IsPriced g
      → ranks_before lib.set_string f g ≡ precedes (key_of f) (key_of g)
  unfolding ranks_before precedes
  ranks_before-precedes f g p q = rw (
    cmp-IsMicro (decimal_or_zero lib.set_string f.available_capacity)
        (decimal_or_zero lib.set_string g.available_capacity) (capacity_micro f) (capacity_micro g)
        (decimal_or_zero-IsMicro f p) (decimal_or_zero-IsMicro g q),
    greater_first (capacity_micro f) (capacity_micro g) (
        float_lt (road_distance f.road_access_distance_m) (road_distance g.road_access_distance_m)),
  )

  -- No field of the list is out of order with one behind it.
  abbrev pub NotAfter : PlacementField → PlacementField → Type 0
  NotAfter f g = precedes (key_of g) (key_of f) ≡ false

  before-All :
      (x y : PlacementField) (zs : List PlacementField)
      → precedes (key_of x) (key_of y) ≡ true
      → All (NotAfter y) zs
      → All (NotAfter x) zs
  before-All x y [] h _ = tt
  before-All x y (z ∷ zs) h (k, ks) =
      (not_before (precedes_trans (key_of z) (key_of x) (key_of y)) h k, before-All x y zs h ks)

  insert_after-All :
      (x y : PlacementField) (zs : List PlacementField)
      → NotAfter y x
      → All (NotAfter y) zs
      → All (NotAfter y) (insert_ranked lib.set_string x zs)
  unfolding insert_ranked
  insert_after-All x y [] h _ = (h, tt)
  insert_after-All x y (z ∷ zs) h (k, ks) = elim (Bool-cases (ranks_before lib.set_string x z)) [
    | inl before ↦ rw before (h, (k, ks))
    | inr after ↦ rw after (k, insert_after-All x y zs h ks)
  ]

  insert_ranked-Ordered :
      (x : PlacementField) (ys : List PlacementField)
      → IsPriced x
      → All IsPriced ys
      → Ordered NotAfter ys
      → Ordered NotAfter (insert_ranked lib.set_string x ys)
  unfolding insert_ranked
  insert_ranked-Ordered x [] p ps h = (tt, tt)
  insert_ranked-Ordered x (y ∷ ys) p (q, ps) (h, hs) =
      elim (Bool-cases (ranks_before lib.set_string x y)) [
        | inl before ↦
            let first : precedes (key_of x) (key_of y) ≡ true =
              sym (ranks_before-precedes x y p q) ∙ before in
            rw before
              ((precedes_asym (key_of x) (key_of y) first, before-All x y ys first h), (h, hs))
        | inr after ↦ rw after (
          insert_after-All x y ys (sym (ranks_before-precedes x y p q) ∙ after) h,
          insert_ranked-Ordered x ys p ps hs,
        )
      ]

  sort_from-Ordered :
      (sorted xs : List PlacementField)
      → All IsPriced sorted
      → All IsPriced xs
      → Ordered NotAfter sorted
      → Ordered NotAfter (sort_from lib.set_string sorted xs)
  unfolding sort_from
  sort_from-Ordered sorted [] ps _ h = h
  sort_from-Ordered sorted (x ∷ xs) ps (p, qs) h =
      sort_from-Ordered (insert_ranked lib.set_string x sorted) xs
        (insert_ranked-All lib.set_string IsPriced x sorted p ps) qs
        (insert_ranked-Ordered x sorted p ps h)

  number_from-NotAfter :
      (f : PlacementField) (i : ℕ) (gs : List PlacementField)
      → All (NotAfter f) gs
      → All (NotAfter f) (number_from i gs)
  unfolding number_from
  number_from-NotAfter f i [] h = tt
  number_from-NotAfter f i (g ∷ gs) (k, h) = (k, number_from-NotAfter f (i + 1) gs h)

  number_from-Ordered :
      (i : ℕ) (fs : List PlacementField) → Ordered NotAfter fs → Ordered NotAfter (number_from i fs)
  unfolding number_from
  number_from-Ordered i [] h = tt
  number_from-Ordered i (f ∷ fs) (h, hs) =
      (number_from-NotAfter f (i + 1) fs h, number_from-Ordered (i + 1) fs hs)

  -- When every field has either no capacity text or printed numbers, no field in the ranking
  -- stands before one that precedes it by the keys: eligible before review before ineligible,
  -- then fewer high concerns, fewer moderate ones, fewer gaps, more capacity, and the shorter
  -- road.
  pub rank_fields-Ordered :
      (fs : List PlacementField)
      → All IsPriced fs
      → Ordered NotAfter (rank_fields lib.set_string fs)
  unfolding rank_fields
  rank_fields-Ordered fs ps =
      number_from-Ordered 0 (sort_from lib.set_string [] fs) (sort_from-Ordered [] fs tt ps tt)
