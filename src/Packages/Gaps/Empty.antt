-- ===== src/Packages/Gaps/Empty.antt =====
-- internal/decisionpackage/build.go, `buildSnapshot`: which inputs leave no gap.
use pfas_load_control.Base.{
  true, false, not-false, ◌≡◌, refl, sym, ◌∙◌, inl, inr, Option, none, some, List, [], ◌∷◌, ◌++◌,
  map, All, str_eq, Bool-cases, ◌⊎◌,
}
use pfas_load_control.Placement.Model.{PlacementField}
use pfas_load_control.ActionCenter.Model.{PackageGap}
use pfas_load_control.ActionCenter.Execute.{is_ready}
use pfas_load_control.Packages.Model.{LabGap, PlacementRecord, PhysicalEvaluation, ResponseRun}
use pfas_load_control.Packages.Gaps.{
  lab_gaps, gaps_at, field_gaps, plan_gaps, response_gaps, first_by, deduplicate_gaps,
  placement_gap, response_gap,
}
use pfas_load_control.Packages.Actions.{is_none_left, plan_holds, response_holds}

pub append-parts : {A : Type 0} (xs ys : List A) → xs ++ ys ≡ [] → (xs ≡ []) × (ys ≡ [])
append-parts [] ys h = (refl, h)
append-parts (x ∷ xs) ys h = cc

pub map-empty : {A B : Type 0} (f : A → B) (xs : List A) → map f xs ≡ [] → xs ≡ []
map-empty f [] h = refl
map-empty f (x ∷ xs) h = cc

pub deduplicate_gaps-empty :
    (gaps : List PackageGap) → is_none_left (deduplicate_gaps gaps) ≡ true → gaps ≡ []
unfolding deduplicate_gaps first_by
deduplicate_gaps-empty [] h = refl
deduplicate_gaps-empty (gap ∷ gaps) h = cc

abbrev pub AllResolved : List LabGap → Type 0
AllResolved = All (λ gap. str_eq gap.status "RESOLVED" ≡ true)

pub lab_gaps-empty : (gaps : List LabGap) → lab_gaps gaps ≡ [] → AllResolved gaps
unfolding lab_gaps
lab_gaps-empty [] h = tt
lab_gaps-empty (gap ∷ gaps) h = elim (Bool-cases (str_eq gap.status "RESOLVED")) [
  | inl resolved ↦ (resolved, lab_gaps-empty gaps (rw resolved at h))
  | inr left ↦ let absurd : _ ∷ _ ≡ [] = rw left at h in cc
]

pub lab_gaps-AllResolved : (gaps : List LabGap) → AllResolved gaps → lab_gaps gaps ≡ []
unfolding lab_gaps
lab_gaps-AllResolved [] h = refl
lab_gaps-AllResolved (gap ∷ gaps) (resolved, h) = rw resolved (lab_gaps-AllResolved gaps h)

-- The evaluation that a field names, where it names one, has no gaps.
abbrev pub IsGapless : List PhysicalEvaluation → PlacementField → Type 0
IsGapless physical f =
    (str_eq f.physical_evaluation_id "" ≡ true) ⊎ (gaps_at f.physical_evaluation_id physical ≡ [])

field_gaps-empty :
    (physical : List PhysicalEvaluation) (fields : List PlacementField)
    → field_gaps physical fields ≡ []
    → All (IsGapless physical) fields
unfolding field_gaps
field_gaps-empty physical [] h = tt
field_gaps-empty physical (f ∷ fs) h = elim (Bool-cases (str_eq f.physical_evaluation_id "")) [
  | inl missing ↦ (inl missing, field_gaps-empty physical fs (rw missing at h))
  | inr named ↦
      let (own, later) =
        append-parts (gaps_at f.physical_evaluation_id physical) (field_gaps physical fs)
          (rw named at h) in
      (inr own, field_gaps-empty physical fs later)
]

field_gaps-IsGapless :
    (physical : List PhysicalEvaluation) (fields : List PlacementField)
    → All (IsGapless physical) fields
    → field_gaps physical fields ≡ []
unfolding field_gaps
field_gaps-IsGapless physical [] h = refl
field_gaps-IsGapless physical (f ∷ fs) (own, h) =
    elim (Bool-cases (str_eq f.physical_evaluation_id "")) [
      | inl missing ↦ rw missing (field_gaps-IsGapless physical fs h)
      | inr named ↦ elim own [
        | inl missing ↦ let absurd : true ≡ false = sym missing ∙ named in cc
        | inr gapless ↦ rw (named, gapless) (field_gaps-IsGapless physical fs h)
      ]
    ]

-- The plan is ready and neither it nor the evidence on its fields has gaps.
abbrev pub PlanIsClear : List PhysicalEvaluation → Option PlacementRecord → Type 0
PlanIsClear physical none = Unit
PlanIsClear physical (some p) =
    (is_ready p.plan.status ≡ true) × (p.plan.gaps ≡ []) × All (IsGapless physical) p.plan.fields

abbrev pub ResponseIsClear : Option ResponseRun → Type 0
ResponseIsClear none = Unit
ResponseIsClear (some run) = (str_eq run.status "READY" ≡ true) × (run.data_gaps ≡ [])

pub plan_gaps-empty :
    (physical : List PhysicalEvaluation) (plan : Option PlacementRecord)
    → plan_holds plan ≡ false
    → plan_gaps physical plan ≡ []
    → PlanIsClear physical plan
unfolding plan_gaps
plan_gaps-empty physical none h e = tt
plan_gaps-empty physical (some p) h e =
    let (own, later) =
      append-parts (map placement_gap p.plan.gaps) (field_gaps physical p.plan.fields) e in
    (
      not-false (is_ready p.plan.status) h,
      map-empty placement_gap p.plan.gaps own,
      field_gaps-empty physical p.plan.fields later,
    )

pub plan_gaps-PlanIsClear :
    (physical : List PhysicalEvaluation) (plan : Option PlacementRecord)
    → PlanIsClear physical plan
    → (plan_holds plan ≡ false) × (plan_gaps physical plan ≡ [])
unfolding plan_gaps
plan_gaps-PlanIsClear physical none h = (refl, refl)
plan_gaps-PlanIsClear physical (some p) (status, own, fields) =
    (rw status refl, rw (own, field_gaps-IsGapless physical p.plan.fields fields) refl)

pub response_gaps-empty :
    (response : Option ResponseRun)
    → response_holds response ≡ false
    → response_gaps response ≡ []
    → ResponseIsClear response
response_gaps-empty none h e = tt
response_gaps-empty (some run) h e =
    (not-false (str_eq run.status "READY") h, map-empty response_gap run.data_gaps e)

pub response_gaps-ResponseIsClear :
    (response : Option ResponseRun)
    → ResponseIsClear response
    → (response_holds response ≡ false) × (response_gaps response ≡ [])
response_gaps-ResponseIsClear none h = (refl, refl)
response_gaps-ResponseIsClear (some run) (status, own) = (rw status refl, rw own refl)
