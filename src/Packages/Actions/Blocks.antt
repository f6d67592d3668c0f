-- ===== src/Packages/Actions/Blocks.antt =====
-- internal/decisionpackage/build.go with `actionMode` of internal/actioncenter/service.go: the
-- block of a batch in the prohibited tier.
use pfas_load_control.Base.{
  Bool, true, false, ◌≡◌, refl, subst, inl, inr, some, List, [], ◌∷◌, ◌++◌, map, any, any_last,
  find, find-any, find-true, text_eq-true, Text, str_eq, codes, text_eq, text_eq_refl, Bool-cases,
}
use pfas_load_control.Policy.Model.{tier_prohibited}
use pfas_load_control.ActionCenter.Model.{ProposedAction, control}
use pfas_load_control.ActionCenter.Payloads.{action_mode}
use pfas_load_control.Packages.Model.{Snapshot}
use pfas_load_control.Packages.Actions.{
  has_code, requirement_action, plan_actions, block_actions, tasks_of, response_actions, add_action,
  add_all, candidates, build_proposed_actions,
}

abbrev pub block_code : Text
block_code = codes "BLOCK_LAND_APPLICATION"

any-append_left :
    (p : ProposedAction → Bool) (xs ys : List ProposedAction)
    → any p xs ≡ true
    → any p (xs ++ ys) ≡ true
any-append_left p [] ys h = cc
any-append_left p (x ∷ xs) ys h = elim (Bool-cases (p x)) [
  | inl here ↦ rw here refl
  | inr later ↦ rw later (any-append_left p xs ys (rw later at h))
]

any-append_right :
    (p : ProposedAction → Bool) (xs ys : List ProposedAction)
    → any p ys ≡ true
    → any p (xs ++ ys) ≡ true
any-append_right p [] ys h = h
any-append_right p (x ∷ xs) ys h = elim (Bool-cases (p x)) [
  | inl here ↦ rw here refl
  | inr later ↦ rw later (any-append_right p xs ys h)
]

add_action-keeps :
    (code : Text) (actions : List ProposedAction) (a : ProposedAction)
    → any (has_code code) actions ≡ true
    → any (has_code code) (add_action actions a) ≡ true
unfolding add_action
add_action-keeps code actions a h = elim (Bool-cases (any (has_code a.code) actions)) [
  | inl old ↦ rw old h
  | inr new ↦ rw new (any-append_left (has_code code) actions _ h)
]

add_action-has :
    (actions : List ProposedAction) (a : ProposedAction)
    → any (has_code a.code) (add_action actions a) ≡ true
unfolding add_action
add_action-has actions a = elim (Bool-cases (any (has_code a.code) actions)) [
  | inl old ↦ rw old old
  | inr new ↦ rw new (any_last (has_code a.code) actions _ (text_eq_refl a.code))
]

add_all-keeps :
    (code : Text) (actions rest : List ProposedAction)
    → any (has_code code) actions ≡ true
    → any (has_code code) (add_all actions rest) ≡ true
unfolding add_all
add_all-keeps code actions [] h = h
add_all-keeps code actions (a ∷ rest) h =
    add_all-keeps code (add_action actions a) rest (add_action-keeps code actions a h)

add_all-has :
    (code : Text) (actions rest : List ProposedAction)
    → any (has_code code) rest ≡ true
    → any (has_code code) (add_all actions rest) ≡ true
unfolding add_all
add_all-has code actions [] h = cc
add_all-has code actions (a ∷ rest) h = elim (Bool-cases (has_code code a)) [
  | inl here ↦ add_all-keeps code (add_action actions a) rest (
      subst (λ c. any (has_code c) (add_action actions a) ≡ true) (text_eq-true a.code code here)
        (add_action-has actions a))
  | inr later ↦ add_all-has code (add_action actions a) rest (rw later at h)
]

candidates_block :
    (s : Snapshot)
    → str_eq s.decision.tier tier_prohibited ≡ true
    → any (has_code block_code) (candidates s) ≡ true
unfolding candidates block_actions text_eq
candidates_block s h =
    any-append_right (has_code block_code)
      (map (requirement_action (tasks_of s.response)) s.decision.requirements) _
      (any-append_right (has_code block_code) (response_actions s.decision.requirements s.response)
        _ (any-append_right (has_code block_code) (plan_actions s.placement) _ (rw h refl)))

control_mode :
    (a : ProposedAction) → text_eq a.code block_code ≡ true → action_mode a ≡ (control, false)
unfolding action_mode
control_mode a h = elim (Bool-cases (text_eq a.code (codes "ENFORCE_RATE_CAP"))) [
  | inl capped ↦ rw capped refl
  | inr uncapped ↦ rw (uncapped, h) refl
]

-- The package of a batch in the prohibited tier has an action that blocks its land application,
-- and the action center holds the first such action as a control that needs no approval.
pub build_proposed_actions-blocked :
    (s : Snapshot)
    → str_eq s.decision.tier tier_prohibited ≡ true
    → (a : ProposedAction) × (find (has_code block_code) (build_proposed_actions s) ≡ some a)
      × (action_mode a ≡ (control, false))
unfolding build_proposed_actions
build_proposed_actions-blocked s h =
    let has_block = add_all-has block_code [] (candidates s) (candidates_block s h) in
    let (a, found) = find-any (has_code block_code) (build_proposed_actions s) has_block in
    (a, found, control_mode a (find-true (has_code block_code) (build_proposed_actions s) found))
