-- ===== src/Placement/Rank/Kept.antt =====
-- internal/placement/engine.go, `rankFields` and `addCounterfactuals`: what the fields keep that are
-- ranked, for the modules that need it.
use pfas_load_control.Base.{
  ℕ, ◌+◌, Option, none, some, [], ◌∷◌, List, String, Text, All, Bool-cases, inl, inr,
}
use pfas_load_control.Rat.{Rat}
use pfas_load_control.Placement.Model.{PlacementField}
use pfas_load_control.Placement.Rank.{
  ranks_before, insert_ranked, sort_from, number_from, rank_fields, preferred_of, explain_from,
  add_counterfactuals,
}

module _ (set_string : Text → Option Rat) (P : PlacementField → Type 0) where
  pub insert_ranked-All :
      (x : PlacementField) (ys : List PlacementField)
      → P x
      → All P ys
      → All P (insert_ranked set_string x ys)
  unfolding insert_ranked
  insert_ranked-All x [] p h = (p, tt)
  insert_ranked-All x (y ∷ ys) p (q, h) = elim (Bool-cases (ranks_before set_string x y)) [
    | inl before ↦ rw before (p, (q, h))
    | inr after ↦ rw after (q, insert_ranked-All x ys p h)
  ]

-- A property that does not speak of the rank and the counterfactual survives the ranking.
module _ (set_string : Text → Option Rat) (P : PlacementField → Type 0)
    (any_rank : (f : PlacementField) (r : Option ℕ) → P f → P (record f { rank = r }))
    (any_counterfactual : (f : PlacementField) (c : String)
      → P f
      → P (record f { counterfactual = c })) where
  sort_from-All :
      (sorted xs : List PlacementField)
      → All P sorted
      → All P xs
      → All P (sort_from set_string sorted xs)
  unfolding sort_from
  sort_from-All sorted [] h _ = h
  sort_from-All sorted (x ∷ xs) h (p, k) =
      sort_from-All (insert_ranked set_string x sorted) xs
        (insert_ranked-All set_string P x sorted p h) k

  number_from-All : (i : ℕ) (fs : List PlacementField) → All P fs → All P (number_from i fs)
  unfolding number_from
  number_from-All i [] h = tt
  number_from-All i (f ∷ fs) (p, h) = (any_rank f (some (i + 1)) p, number_from-All (i + 1) fs h)

  explain_from-All :
      (q : PlacementField) (fs : List PlacementField) → All P fs → All P (explain_from q fs)
  unfolding explain_from
  explain_from-All q [] h = tt
  explain_from-All q (f ∷ fs) (p, h) = (any_counterfactual f _ p, explain_from-All q fs h)

  pub rank_fields-All :
      (fs : List PlacementField)
      → All P fs
      → All P (add_counterfactuals (rank_fields set_string fs))
  unfolding rank_fields add_counterfactuals
  rank_fields-All fs h =
      let ranked = number_from 0 (sort_from set_string [] fs) in
      let k = number_from-All 0 (sort_from set_string [] fs) (sort_from-All [] fs tt h) in
      explained ranked k (preferred_of ranked)
    where
      explained :
          (ranked : List PlacementField)
          → All P ranked
          → (o : Option PlacementField)
          → All P (elim o as (λ _. List PlacementField) [
            | none ↦ ranked
            | some q ↦ explain_from q ranked
          ])
      explained ranked k none = k
      explained ranked k (some q) = explain_from-All q ranked k
