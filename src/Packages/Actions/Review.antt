-- ===== src/Packages/Actions/Review.antt =====
-- internal/decisionpackage/build.go, `packageStatus` on what `buildSnapshot` builds.
use pfas_load_control.Base.{
  Bool, true, false, not, ◌≡◌, refl, sym, ap, subst, inl, inr, Option, List, String, str_eq,
  Option-cases, ok, ok-injective, panic, if◌then◌else◌, ◌↔◌,
}
use pfas_load_control.Packages.Model.{
  Report, PlacementRecord, PhysicalEvaluation, ResponseRun, Decision, Snapshot,
}
use pfas_load_control.Packages.Gaps.{
  lab_gaps, plan_gaps, response_gaps, all_gaps, deduplicate_gaps, build_snapshot,
}
use pfas_load_control.Packages.Gaps.Empty.{
  append-parts, deduplicate_gaps-empty, AllResolved, lab_gaps-empty, lab_gaps-AllResolved,
  PlanIsClear, ResponseIsClear, plan_gaps-empty, plan_gaps-PlanIsClear, response_gaps-empty,
  response_gaps-ResponseIsClear,
}
use pfas_load_control.Packages.Actions.{is_none_left, plan_holds, response_holds, package_status}

-- The status from the three tests.
abbrev held_status : Bool → Bool → Bool → String
held_status b c d =
    if not b
    then "REVIEW_REQUIRED"
    else if c
    then "REVIEW_REQUIRED"
    else if d
    then "REVIEW_REQUIRED"
    else "READY"

held-parts : (b c d : Bool) → held_status b c d ≡ "READY" → (b ≡ true) × (c ≡ false) × (d ≡ false)
held-parts true false false h = (refl, refl, refl)
held-parts true false true h =
    let absurd : false ≡ true = ap (λ (t : String). str_eq t "READY") h in cc
held-parts true true d h = let absurd : false ≡ true = ap (λ (t : String). str_eq t "READY") h in cc
held-parts false c d h = let absurd : false ≡ true = ap (λ (t : String). str_eq t "READY") h in cc

-- What holds a package back.
package_status-parts :
    (s : Snapshot)
    → package_status s ≡ "READY"
    → (is_none_left s.gaps ≡ true)
      × (plan_holds s.placement ≡ false)
      × (response_holds s.response ≡ false)
unfolding package_status
package_status-parts s h =
    held-parts (is_none_left s.gaps) (plan_holds s.placement) (response_holds s.response) h

package_status-ready :
    (s : Snapshot)
    → is_none_left s.gaps ≡ true
    → plan_holds s.placement ≡ false
    → response_holds s.response ≡ false
    → package_status s ≡ "READY"
unfolding package_status
package_status-ready s none_left plan response = rw (none_left, plan, response) refl

build_snapshot-parts :
    (d : Decision) (report : Report) (plan : Option PlacementRecord) (response : Option ResponseRun)
    (physical : List PhysicalEvaluation) {s : Snapshot}
    → build_snapshot d report plan response physical ≡ ok s
    → (s.gaps ≡ deduplicate_gaps (all_gaps report plan response physical))
      × (s.placement ≡ plan)
      × (s.response ≡ response)
unfolding build_snapshot
build_snapshot-parts d report plan response physical {s} h = elim (Option-cases report.draft) [
  | inl missing ↦ let absurd : panic ≡ ok _ = rw missing at h in cc
  | inr (draft, found) ↦
      let same = ok-injective s (rw found at h) in
      (
        sym (ap (λ (z : Snapshot). z.gaps) same),
        sym (ap (λ (z : Snapshot). z.placement) same),
        sym (ap (λ (z : Snapshot). z.response) same),
      )
]

-- The status of a package is READY exactly where every gap of the laboratory report is resolved,
-- the placement plan, if there is one, is ready and has no gaps and its fields' evidence has
-- none, and the response, if there is one, is ready and has no gaps.
pub package_status-build_snapshot :
    (d : Decision) (report : Report) (plan : Option PlacementRecord) (response : Option ResponseRun)
    (physical : List PhysicalEvaluation) (s : Snapshot)
    → build_snapshot d report plan response physical ≡ ok s
    → (package_status s ≡ "READY")
      ↔ (AllResolved report.gaps × PlanIsClear physical plan × ResponseIsClear response)
unfolding deduplicate_gaps
package_status-build_snapshot d report plan response physical s built =
    let (gaps_are, plan_is, response_is) =
      build_snapshot-parts d report plan response physical built in
    (
      λ status.
          let (none_left, plan_free, response_free) = package_status-parts s status in
          let none_at_all =
            deduplicate_gaps-empty (all_gaps report plan response physical)
              (subst (λ gs. is_none_left gs ≡ true) gaps_are none_left) in
          let (of_lab, others) = append-parts (lab_gaps report.gaps) _ none_at_all in
          let (of_plan, of_response) =
            append-parts (plan_gaps physical plan) (response_gaps response) others in
          (
            lab_gaps-empty report.gaps of_lab,
            plan_gaps-empty physical plan (subst (λ p. plan_holds p ≡ false) plan_is plan_free)
                of_plan,
            response_gaps-empty response
                (subst (λ r. response_holds r ≡ false) response_is response_free) of_response,
          ),
      λ clear.
          let (resolved, plan_clear, response_clear) = clear in
          let (plan_free, of_plan) = plan_gaps-PlanIsClear physical plan plan_clear in
          let (response_free, of_response) =
            response_gaps-ResponseIsClear response response_clear in
          let none_left : is_none_left s.gaps ≡ true =
            rw (gaps_are, lab_gaps-AllResolved report.gaps resolved, of_plan, of_response) refl in
          package_status-ready s none_left (rw plan_is plan_free) (rw response_is response_free),
    )
