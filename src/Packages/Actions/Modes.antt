-- ===== src/Packages/Actions/Modes.antt =====
-- internal/decisionpackage/build.go with `actionMode` of internal/actioncenter/service.go: what the
-- action center may do with the actions of a package.
use pfas_load_control.Base.{
  ◌+◌, Bool, false, ◌||◌, ◌≡◌, refl, subst, inl, inr, Option, none, some, List, [], ◌∷◌, ◌++◌, map,
  any, All, All-imp, All-append, Text, str_eq, codes, text_eq, length, is_empty, some-injective,
  Bool-cases, Option-cases,
}
use pfas_load_control.Policy.Model.{Requirement, tier_prohibited}
use pfas_load_control.ActionCenter.Model.{ProposedAction}
use pfas_load_control.ActionCenter.Payloads.{action_mode, is_internal_release}
use pfas_load_control.ActionCenter.Execute.{is_ready}
use pfas_load_control.Packages.Model.{
  PlacementRecord, ResponseTask, ResponseRun, Decision, Snapshot,
}
use pfas_load_control.Packages.Actions.{
  has_code, task_with, task_for, requirement_action, consumed, task_actions, plan_actions,
  block_actions, tasks_of, response_actions, add_action, add_all, candidates,
  build_proposed_actions, response_code_for_requirement,
}

abbrev pub review_code : Text
review_code = codes "REVIEW_DRAFT_ALLOCATION"

-- The code is not that of a release.
abbrev pub NotReview : Text → Type 0
NotReview code = text_eq code review_code ≡ false

All-task_with :
    (P : ResponseTask → Type 0) (code : Text) (tasks : List ResponseTask) {task : ResponseTask}
    → All P tasks
    → task_with code tasks ≡ some task
    → P task
unfolding task_with
All-task_with P code [] h e = cc
All-task_with P code (t ∷ ts) (pt, h) e = elim (Option-cases (task_with code ts)) [
  | inr (later, found) ↦ subst P (some-injective (rw found at e)) (All-task_with P code ts h found)
  | inl missing ↦ elim (Bool-cases (text_eq t.code code)) [
    | inl here ↦ subst P (some-injective (rw (missing, here) at e)) pt
    | inr other ↦ let absurd : none ≡ some _ = rw (missing, other) at e in cc
  ]
]

module _ (tasks : List ResponseTask) (plain : All (λ t. NotReview t.code) tasks) where
  task_for-NotReview :
      (r : Requirement) {task : ResponseTask} → task_for tasks r ≡ some task → NotReview task.code
  unfolding task_for
  task_for-NotReview r e = elim (Bool-cases (is_empty (response_code_for_requirement r.id))) [
    | inl empty ↦ let absurd : none ≡ some _ = rw empty at e in cc
    | inr code ↦
        All-task_with (λ t. NotReview t.code) (response_code_for_requirement r.id) tasks plain
          (rw code at e)
  ]

  requirement_action-NotReview : (r : Requirement) → NotReview (requirement_action tasks r).code
  unfolding requirement_action text_eq
  requirement_action-NotReview r = elim (Option-cases (task_for tasks r)) [
    | inl missing ↦ rw (requirement_action, missing) refl
    | inr (task, found) ↦ rw (requirement_action, found) (task_for-NotReview r found)
  ]

  requirement_actions-NotReview :
      (rs : List Requirement) → All (λ a. NotReview a.code) (map (requirement_action tasks) rs)
  requirement_actions-NotReview [] = tt
  requirement_actions-NotReview (r ∷ rs) =
      (requirement_action-NotReview r, requirement_actions-NotReview rs)

task_actions-NotReview :
    (run : Text) (used : List Text) (tasks : List ResponseTask)
    → All (λ t. NotReview t.code) tasks
    → All (λ a. NotReview a.code) (task_actions run used tasks)
unfolding task_actions
task_actions-NotReview run used [] h = tt
task_actions-NotReview run used (t ∷ ts) (pt, h) = elim (Bool-cases (any (text_eq t.code) used)) [
  | inl old ↦ rw old (task_actions-NotReview run used ts h)
  | inr new ↦ rw new (pt, task_actions-NotReview run used ts h)
]

response_actions-NotReview :
    (rs : List Requirement) (response : Option ResponseRun)
    → All (λ t. NotReview t.code) (tasks_of response)
    → All (λ a. NotReview a.code) (response_actions rs response)
unfolding response_actions
response_actions-NotReview rs none h = tt
response_actions-NotReview rs (some run) h =
    task_actions-NotReview run.id (consumed run.tasks rs) run.tasks h

abbrev pub plan_is_ready : Option PlacementRecord → Bool
plan_is_ready none = false
plan_is_ready (some p) = is_ready p.plan.status

plan_actions-NotReview :
    (plan : Option PlacementRecord)
    → plan_is_ready plan ≡ false
    → All (λ a. NotReview a.code) (plan_actions plan)
unfolding plan_actions text_eq
plan_actions-NotReview none h = tt
plan_actions-NotReview (some p) h = rw h (refl, tt)

block_actions-NotReview : (d : Decision) → All (λ a. NotReview a.code) (block_actions d)
unfolding block_actions text_eq
block_actions-NotReview d = elim (Bool-cases (str_eq d.tier tier_prohibited)) [
  | inl barred ↦ rw barred (refl, tt)
  | inr allowed ↦ rw allowed tt
]

-- A property of the codes is kept by `add`.
add_all-All :
    (P : Text → Type 0) (actions rest : List ProposedAction)
    → All (λ a. P a.code) actions
    → All (λ a. P a.code) rest
    → All (λ a. P a.code) (add_all actions rest)
unfolding add_all add_action
add_all-All P actions [] h k = h
add_all-All P actions (a ∷ rest) h (pa, k) = elim (Bool-cases (any (has_code a.code) actions)) [
  | inl old ↦ rw old (add_all-All P actions rest h k)
  | inr new ↦
      let added = record a { position = length actions + 1; executable = false } in
      rw new (
        add_all-All P (actions ++ added ∷ []) rest
          (All-append (λ (b : ProposedAction). P b.code) actions (added ∷ []) h (pa, tt)) k)
]

mode_lem : (a : ProposedAction) → NotReview a.code → is_internal_release (action_mode a).0 ≡ false
unfolding action_mode
mode_lem a h =
    elim (Bool-cases (
      text_eq a.code (codes "ENFORCE_RATE_CAP")
      || text_eq a.code (codes "BLOCK_LAND_APPLICATION")
      || str_eq a.state "ENFORCED")) [
        | inl fixed ↦ rw fixed refl
        | inr unfixed ↦ rw (unfixed, h) refl
      ]

-- Where the placement plan of a package is missing or not ready, and no response task has the
-- code of a release, the action center gives none of the package's actions the mode of a
-- release.
pub build_proposed_actions-unreleased :
    (s : Snapshot)
    → plan_is_ready s.placement ≡ false
    → All (λ t. NotReview t.code) (tasks_of s.response)
    → All (λ a. is_internal_release (action_mode a).0 ≡ false) (build_proposed_actions s)
unfolding build_proposed_actions candidates
build_proposed_actions-unreleased s unready plain =
    let from_requirements =
      requirement_actions-NotReview (tasks_of s.response) plain s.decision.requirements in
    let from_response = response_actions-NotReview s.decision.requirements s.response plain in
    let from_plan = plan_actions-NotReview s.placement unready in
    let all_codes =
      All-append (λ a. NotReview a.code) _ _ from_requirements
        (All-append (λ a. NotReview a.code) _ _ from_response
          (All-append (λ a. NotReview a.code) _ _ from_plan
            (block_actions-NotReview s.decision))) in
    All-imp (λ a. NotReview a.code) (λ a. is_internal_release (action_mode a).0 ≡ false) mode_lem
      (build_proposed_actions s) (add_all-All NotReview [] (candidates s) tt all_codes)
