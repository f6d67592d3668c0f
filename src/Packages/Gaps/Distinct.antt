-- ===== src/Packages/Gaps/Distinct.antt =====
-- internal/decisionpackage/build.go, `deduplicateGaps`: the first gap of each key is kept.
use pfas_load_control.Base.{
  Bool, false, ◌||◌, ◌≡◌, refl, sym, ◌∙◌, subst, inl, inr, List, [], ◌∷◌, any, find, All, All-imp,
  Ordered, Text, text_eq, text_eq-true, text_eq-sym, Bool-cases, arith,
}
use pfas_load_control.ActionCenter.Model.{PackageGap}
use pfas_load_control.Packages.Gaps.{gap_key, first_by, deduplicate_gaps}

or_parts : (a b : Bool) → (a || b) ≡ false → (a ≡ false) × (b ≡ false)
or_parts a b h = ground arith

or_both : (a b : Bool) → a ≡ false → b ≡ false → (a || b) ≡ false
or_both a b h k = ground arith

module _ {A : Type 0} (key : A → Text) where
  -- Two rows with different keys, and a row with the key `k`.
  abbrev pub KeysDiffer : A → A → Type 0
  KeysDiffer x y = text_eq (key x) (key y) ≡ false

  abbrev pub has_key : Text → A → Bool
  has_key k x = text_eq (key x) k

  first_by_unseen :
      (seen : List Text) (xs : List A)
      → All (λ x. any (text_eq (key x)) seen ≡ false) (first_by key seen xs)
  unfolding first_by
  first_by_unseen seen [] = tt
  first_by_unseen seen (x ∷ xs) = elim (Bool-cases (any (text_eq (key x)) seen)) [
    | inl old ↦ rw old (first_by_unseen seen xs)
    | inr new ↦ rw new (
      new,
      All-imp (λ y. any (text_eq (key y)) (key x ∷ seen) ≡ false)
          (λ y. any (text_eq (key y)) seen ≡ false)
          (λ y h. (or_parts (text_eq (key y) (key x)) (any (text_eq (key y)) seen) h).1)
          (first_by key (key x ∷ seen) xs) (first_by_unseen (key x ∷ seen) xs),
    )
  ]

  -- The rows that are kept have different keys.
  pub first_by_distinct :
      (seen : List Text) (xs : List A) → Ordered KeysDiffer (first_by key seen xs)
  unfolding first_by
  first_by_distinct seen [] = tt
  first_by_distinct seen (x ∷ xs) = elim (Bool-cases (any (text_eq (key x)) seen)) [
    | inl old ↦ rw old (first_by_distinct seen xs)
    | inr new ↦ rw new (
      All-imp (λ y. any (text_eq (key y)) (key x ∷ seen) ≡ false) (KeysDiffer x)
          (λ y h.
            text_eq-sym (key x) (key y)
            ∙ (or_parts (text_eq (key y) (key x)) (any (text_eq (key y)) seen) h).0)
          (first_by key (key x ∷ seen) xs) (first_by_unseen (key x ∷ seen) xs),
      first_by_distinct (key x ∷ seen) xs,
    )
  ]

  -- A key that was not seen is found where it was found.
  pub find-first_by :
      (k : Text) (seen : List Text) (xs : List A)
      → any (text_eq k) seen ≡ false
      → find (has_key k) (first_by key seen xs) ≡ find (has_key k) xs
  unfolding first_by find
  find-first_by k seen [] h = refl
  find-first_by k seen (x ∷ xs) h = elim (Bool-cases (text_eq (key x) k)) [
    | inl here ↦
        let same = text_eq-true (key x) k here in
        let new : any (text_eq (key x)) seen ≡ false =
          subst (λ c. any (text_eq c) seen ≡ false) (sym same) h in
        rw (new, here) refl
    | inr later ↦ elim (Bool-cases (any (text_eq (key x)) seen)) [
      | inl old ↦ rw (old, later) (find-first_by k seen xs h)
      | inr new ↦
          rw (new, later)
            (find-first_by k (key x ∷ seen) xs (
              or_both (text_eq k (key x)) (any (text_eq k) seen) (text_eq-sym k (key x) ∙ later) h))
    ]
  ]

-- After the duplicates are removed no two gaps have the same source and code, and for every key
-- the gap that is found is the first one that the list had.
pub deduplicate_gaps_lem :
    (gaps : List PackageGap)
    → Ordered (KeysDiffer gap_key) (deduplicate_gaps gaps)
      × ((k : Text)
          → find (has_key gap_key k) (deduplicate_gaps gaps) ≡ find (has_key gap_key k) gaps)
unfolding deduplicate_gaps
deduplicate_gaps_lem gaps =
    (first_by_distinct gap_key [] gaps, λ k. find-first_by gap_key k [] gaps refl)
