-- ===== src/Packages/Actions/Built.antt =====
-- internal/decisionpackage/build.go, the closure `add` of `buildProposedActions`.
use pfas_load_control.Base.{
  ℕ, suc, ◌+◌, Bool, false, ◌||◌, ◌≡◌, refl, sym, ◌∙◌, ap, inl, inr, List, [], ◌∷◌, ◌++◌, map, any,
  All, All-any, All-append, Ordered, Ordered-last, Text, text_eq, text_eq-sym, length, append-nil,
  Bool-cases, arith,
}
use pfas_load_control.ActionCenter.Model.{ProposedAction}
use pfas_load_control.Packages.Model.{Snapshot}
use pfas_load_control.Packages.Gaps.{first_by}
use pfas_load_control.Packages.Gaps.Distinct.{KeysDiffer}
use pfas_load_control.Packages.Actions.{
  has_code, add_action, add_all, candidates, build_proposed_actions,
}

-- The actions are numbered from `n` on.
abbrev pub IsNumbered : ℕ → List ProposedAction → Type 0
IsNumbered n [] = Unit
IsNumbered n (a ∷ actions) = (a.position ≡ n) × IsNumbered (suc n) actions

abbrev pub code_of : ProposedAction → Text
code_of a = a.code

abbrev pub IsBuilt : List ProposedAction → Type 0
IsBuilt actions =
    IsNumbered 1 actions
    × All (λ a. a.executable ≡ false) actions
    × Ordered (KeysDiffer code_of) actions

IsNumbered-last :
    (n : ℕ) (actions : List ProposedAction) (a : ProposedAction)
    → IsNumbered n actions
    → a.position ≡ length actions + n
    → IsNumbered n (actions ++ a ∷ [])
IsNumbered-last n [] a h e = (omega arith, tt)
IsNumbered-last n (b ∷ actions) a (p, h) e = (p, IsNumbered-last (suc n) actions a h (omega arith))

add_action-IsBuilt :
    (actions : List ProposedAction) (a : ProposedAction)
    → IsBuilt actions
    → IsBuilt (add_action actions a)
unfolding add_action
add_action-IsBuilt actions a (numbered, inert, apart) =
    elim (Bool-cases (any (has_code a.code) actions)) [
      | inl old ↦ rw old (numbered, inert, apart)
      | inr new ↦
          let added = record a { position = length actions + 1; executable = false } in
          rw new (
            IsNumbered-last 1 actions added numbered refl,
            All-append (λ (b : ProposedAction). b.executable ≡ false) actions (added ∷ []) inert
                (refl, tt),
            Ordered-last (KeysDiffer code_of) actions added apart
                (All-any (has_code a.code) actions new),
          )
    ]

add_all-IsBuilt :
    (actions rest : List ProposedAction) → IsBuilt actions → IsBuilt (add_all actions rest)
unfolding add_all
add_all-IsBuilt actions [] h = h
add_all-IsBuilt actions (a ∷ rest) h =
    add_all-IsBuilt (add_action actions a) rest (add_action-IsBuilt actions a h)

-- The proposed actions of a package are numbered 1, 2, 3 and so on in their order, none of them
-- is executable, and no two have the same code.
pub build_proposed_actions-IsBuilt : (s : Snapshot) → IsBuilt (build_proposed_actions s)
unfolding build_proposed_actions
build_proposed_actions-IsBuilt s = add_all-IsBuilt [] (candidates s) (tt, tt, tt)

-- An action without what `add` sets.
abbrev pub unplaced : ProposedAction → ProposedAction
unplaced a = record a { position = 0; executable = false }

map-last :
    (actions : List ProposedAction) (a : ProposedAction) (rest : List ProposedAction)
    → map unplaced (actions ++ a ∷ []) ++ rest ≡ map unplaced actions ++ unplaced a ∷ rest
map-last [] a rest = refl
map-last (b ∷ actions) a rest =
    ap (λ (more : List ProposedAction). unplaced b ∷ more) (map-last actions a rest)

any_more :
    (p : ProposedAction → Bool) (actions : List ProposedAction) (a : ProposedAction)
    → any p (actions ++ a ∷ []) ≡ (p a || any p actions)
any_more p [] a = refl
any_more p (b ∷ actions) a = rw (any_more p actions a) (or_swap (p b) (p a) (any p actions))
  where
    or_swap : (x y z : Bool) → (x || (y || z)) ≡ (y || (x || z))
    or_swap x y z = ground arith

add_all-first_by :
    (actions rest : List ProposedAction) (seen : List Text)
    → ((k : Text) → any (has_code k) actions ≡ any (text_eq k) seen)
    → map unplaced (add_all actions rest)
      ≡ map unplaced actions ++ map unplaced (first_by code_of seen rest)
unfolding add_all add_action first_by
add_all-first_by actions [] seen same = sym (append-nil (map unplaced actions))
add_all-first_by actions (a ∷ rest) seen same = elim (Bool-cases (any (text_eq a.code) seen)) [
  | inl old ↦ rw (same a.code, old) (add_all-first_by actions rest seen same)
  | inr new ↦
      let added = record a { position = length actions + 1; executable = false } in
      rw (same a.code, new)
        (add_all-first_by (actions ++ added ∷ []) rest (a.code ∷ seen) (λ k.
            any_more (has_code k) actions added
            ∙ ap (λ (b : Bool). b || any (has_code k) actions) (text_eq-sym a.code k)
            ∙ ap (λ (b : Bool). text_eq k a.code || b) (same k))
          ∙ map-last actions added (map unplaced (first_by code_of (a.code ∷ seen) rest)))
]

-- The proposed actions are the candidates, in their order, without those of which an earlier one
-- has the code; only positions and the executable flag are set.
pub build_proposed_actions-first_by :
    (s : Snapshot)
    → map unplaced (build_proposed_actions s) ≡ map unplaced (first_by code_of [] (candidates s))
unfolding build_proposed_actions
build_proposed_actions-first_by s = add_all-first_by [] (candidates s) [] (λ k. refl)
