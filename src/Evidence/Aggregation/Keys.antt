-- ===== src/Evidence/Aggregation/Keys.antt =====
-- internal/evidence/aggregation.go, the keys of a distribution.
use pfas_load_control.Base.{
  ◌≡◌, ◌∙◌, inl, inr, true, false, List, [], ◌∷◌, All, All-imp, Ordered, Text, text_eq, text_eq-sym,
  text_lt, text_lt_total, text_lt_trans, Bool-cases,
}
use pfas_load_control.Evidence.Model.{DistributionValue}
use pfas_load_control.Evidence.Aggregation.{count_key, insert_value, sort_values}

abbrev pub ValuesDiffer : DistributionValue → DistributionValue → Type 0
ValuesDiffer d e = text_eq d.value e.value ≡ false

-- In the order of the texts, strictly.
abbrev pub ValuesRise : DistributionValue → DistributionValue → Type 0
ValuesRise d e = text_lt d.value e.value ≡ true

All-count_key :
    (P : Text → Type 0) (j : Text) (ds : List DistributionValue)
    → P j
    → All (λ (d : DistributionValue). P d.value) ds
    → All (λ (d : DistributionValue). P d.value) (count_key j ds)
unfolding count_key
All-count_key P j [] pj h = (pj, tt)
All-count_key P j (d ∷ ds) pj (pd, h) = elim (Bool-cases (text_eq d.value j)) [
  | inl here ↦ rw here (pd, h)
  | inr later ↦ rw later (pd, All-count_key P j ds pj h)
]

pub count_key-Ordered :
    (j : Text) (ds : List DistributionValue)
    → Ordered ValuesDiffer ds
    → Ordered ValuesDiffer (count_key j ds)
unfolding count_key
count_key-Ordered j [] h = (tt, tt)
count_key-Ordered j (d ∷ ds) (first, h) = elim (Bool-cases (text_eq d.value j)) [
  | inl here ↦ rw here (first, h)
  | inr later ↦
      rw later
        (All-count_key (λ t. text_eq d.value t ≡ false) j ds later first, count_key-Ordered j ds h)
]

All-insert_value :
    (P : DistributionValue → Type 0) (d : DistributionValue) (ds : List DistributionValue)
    → P d
    → All P ds
    → All P (insert_value d ds)
unfolding insert_value
All-insert_value P d [] pd h = (pd, tt)
All-insert_value P d (e ∷ es) pd (pe, h) = elim (Bool-cases (text_lt e.value d.value)) [
  | inl below ↦ rw below (pe, All-insert_value P d es pd h)
  | inr other ↦ rw other (pd, (pe, h))
]

All-sort_values :
    (P : DistributionValue → Type 0) (ds : List DistributionValue)
    → All P ds
    → All P (sort_values ds)
unfolding sort_values
All-sort_values P [] h = tt
All-sort_values P (d ∷ ds) (pd, h) =
    All-insert_value P d (sort_values ds) pd (All-sort_values P ds h)

insert_value-Ordered :
    (d : DistributionValue) (ds : List DistributionValue)
    → All (ValuesDiffer d) ds
    → Ordered ValuesRise ds
    → Ordered ValuesRise (insert_value d ds)
unfolding insert_value
insert_value-Ordered d [] differ h = (tt, tt)
insert_value-Ordered d (e ∷ es) (apart, differ) (first, h) =
    elim (Bool-cases (text_lt e.value d.value)) [
      | inl below ↦
          rw below
            (All-insert_value (ValuesRise e) d es below first, insert_value-Ordered d es differ h)
      | inr other ↦
          let rises = text_lt_total e.value d.value (text_eq-sym e.value d.value ∙ apart) other in
          rw other (
            (
              rises,
              All-imp (ValuesRise e) (ValuesRise d)
                  (λ z above. text_lt_trans d.value e.value z.value rises above) es first,
            ),
            (first, h),
          )
    ]

pub sort_values-Ordered :
    (ds : List DistributionValue) → Ordered ValuesDiffer ds → Ordered ValuesRise (sort_values ds)
unfolding sort_values
sort_values-Ordered [] h = tt
sort_values-Ordered (d ∷ ds) (differ, h) =
    insert_value-Ordered d (sort_values ds) (All-sort_values (ValuesDiffer d) ds differ)
      (sort_values-Ordered ds h)
