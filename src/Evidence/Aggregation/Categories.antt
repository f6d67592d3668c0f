-- ===== src/Evidence/Aggregation/Categories.antt =====
-- internal/evidence/aggregation.go, `distribution`.
use pfas_load_control.Base.{
  ℕ, suc, ◌+◌, ◌≡◌, refl, ◌∙◌, ap, subst, inl, inr, Bool, true, false, not, ◌||◌, List, [], ◌∷◌,
  Ordered, String, Text, text_eq, text_eq-true, text_lt, trim_space, codes, if◌then◌else◌,
  Bool-cases, Result, ok, err, ok-injective, >>=-eq-ok, arith,
}
use pfas_load_control.Evidence.Model.{SampleObservation, DistributionValue, Json}
use pfas_load_control.Evidence.Aggregation.{
  count_key, insert_value, sort_values, count_all, distribution_of,
}
use pfas_load_control.Evidence.Aggregation.Keys.{
  ValuesDiffer, ValuesRise, count_key-Ordered, sort_values-Ordered,
}

-- The number of the observations with a value, and the sum of the counts that a distribution has
-- for it.
abbrev pub occurrences : Text → List SampleObservation → ℕ
occurrences k [] = 0
occurrences k (o ∷ os) = let rest = occurrences k os in if text_eq o.value k then suc rest else rest

abbrev pub counted : Text → List DistributionValue → ℕ
counted k [] = 0
counted k (d ∷ ds) = let rest = counted k ds in if text_eq d.value k then d.count + rest else rest

abbrev one_if : Bool → ℕ
one_if true = 1
one_if false = 0

counted-count_key :
    (k j : Text) (ds : List DistributionValue)
    → counted k (count_key j ds) ≡ one_if (text_eq j k) + counted k ds
unfolding count_key
counted-count_key k j [] = elim (Bool-cases (text_eq j k)) [
  | inl same ↦ rw same refl
  | inr other ↦ rw other refl
]
counted-count_key k j (d ∷ ds) = elim (Bool-cases (text_eq d.value j)) [
  | inl here ↦
      let same : text_eq d.value k ≡ text_eq j k =
        ap (λ (t : Text). text_eq t k) (text_eq-true d.value j here) in
      elim (Bool-cases (text_eq j k)) [
        | inl yes_k ↦ rw (here, same, yes_k) (omega arith)
        | inr no_k ↦ rw (here, same, no_k) (omega arith)
      ]
  | inr later ↦
      let ih = counted-count_key k j ds in
      elim (Bool-cases (text_eq d.value k)) [
        | inl yes_k ↦ rw (later, yes_k) (omega arith)
        | inr no_k ↦ rw (later, no_k) ih
      ]
]

counted-insert_value :
    (k : Text) (d : DistributionValue) (ds : List DistributionValue)
    → counted k (insert_value d ds) ≡ counted k (d ∷ ds)
unfolding insert_value
counted-insert_value k d [] = refl
counted-insert_value k d (e ∷ es) = elim (Bool-cases (text_lt e.value d.value)) [
  | inl below ↦ let ih = counted-insert_value k d es in rw below (ground arith)
  | inr other ↦ rw other refl
]

counted-sort_values :
    (k : Text) (ds : List DistributionValue) → counted k (sort_values ds) ≡ counted k ds
unfolding sort_values
counted-sort_values k [] = refl
counted-sort_values k (d ∷ ds) =
    counted-insert_value k d (sort_values ds)
    ∙ ap (λ (n : ℕ). if text_eq d.value k then d.count + n else n) (counted-sort_values k ds)

module _ (json : Json) where
  count_all-Ordered :
      (counts : List DistributionValue) (os : List SampleObservation) {ds : List DistributionValue}
      → Ordered ValuesDiffer counts
      → count_all json counts os ≡ ok ds
      → Ordered ValuesDiffer ds × ((k : Text) → counted k ds ≡ counted k counts + occurrences k os)
  unfolding count_all
  count_all-Ordered counts [] {ds} h e =
      subst
        (λ (z : List DistributionValue).
          Ordered ValuesDiffer z × ((k : Text) → counted k z ≡ counted k counts + 0))
        (ok-injective ds e) (h, λ k. omega arith)
  count_all-Ordered counts (o ∷ os) {ds} h e =
      elim (Bool-cases
        (not (json.is_valid o.value) || text_eq (trim_space o.value) (codes "null"))) [
          | inl refused ↦
              let absurd : ◌≡◌ {A = Result String (List DistributionValue)} (err _) (ok ds) =
                rw (count_all, refused) at e in
              cc
          | inr taken ↦
              let (apart, counts_are) =
                count_all-Ordered (count_key o.value counts) os (count_key-Ordered o.value counts h)
                  (rw (count_all, taken) at e) in
              (apart, λ k. counts_are k ∙ more k)
        ]
    where
      more :
          (k : Text)
          → counted k (count_key o.value counts) + occurrences k os
            ≡ counted k counts + occurrences k (o ∷ os)
      more k =
          let step = counted-count_key k o.value counts in
          elim (Bool-cases (text_eq o.value k)) [
            | inl same ↦ let step' = rw same at step in rw same (omega arith)
            | inr other ↦ let step' = rw other at step in rw other (omega arith)
          ]

-- A distribution that is made lists different values in the strict order of the texts, and counts
-- for each value the observations that have it.
pub distribution_of-Ordered :
    (json : Json) (os : List SampleObservation) {ds : List DistributionValue}
    → distribution_of json os ≡ ok ds
    → Ordered ValuesRise ds × ((k : Text) → counted k ds ≡ occurrences k os)
unfolding distribution_of
distribution_of-Ordered json os {ds} h =
    let (counts, read, sorted) = >>=-eq-ok (count_all json [] os) _ h in
    let (apart, counts_are) = count_all-Ordered json [] os tt read in
    subst
      (λ (z : List DistributionValue).
        Ordered ValuesRise z × ((k : Text) → counted k z ≡ occurrences k os))
      (ok-injective ds sorted)
      (
        sort_values-Ordered counts apart,
        λ k. let c = counts_are k in let s = counted-sort_values k counts in omega arith,
      )
