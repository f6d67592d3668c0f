-- ===== src/Evidence/Aggregation/Tallies.antt =====
-- internal/evidence/aggregation.go, the loop that counts the observations.
use pfas_load_control.Base.{
  ℕ, suc, ◌+◌, ◌≤◌, ◌≡◌, refl, sym, ◌∙◌, subst, inl, inr, true, false, List, [], ◌∷◌, ◌++◌, map,
  append-nil, append_assoc, All, length, String, str_eq, eq_iff, if◌then◌else◌, Bool-cases, ok, err,
  ok-injective, arith,
}
use pfas_load_control.Evidence.Model.{SampleObservation}
use pfas_load_control.Evidence.Aggregation.{
  Tally, add_ok, add_absent, add_failed, tally_step, tally_from,
}

-- The observations that have a value, and the number of those of a status.
abbrev pub available_of : List SampleObservation → List SampleObservation
available_of [] = []
available_of (o ∷ os) =
    let rest = available_of os in if str_eq o.status "ok" then o ∷ rest else rest

abbrev pub count_of : String → List SampleObservation → ℕ
count_of s [] = 0
count_of s (o ∷ os) = let rest = count_of s os in if str_eq o.status s then suc rest else rest

abbrev pub IsTally : Tally → List SampleObservation → Tally → Type 0
IsTally t os result =
    (result.available ≡ t.available ++ available_of os)
    × (result.sample_indices
        ≡ t.sample_indices ++ map (λ (o : SampleObservation). o.index) (available_of os))
    × (result.ok_count ≡ t.ok_count + length (available_of os))
    × (result.absent_count ≡ t.absent_count + count_of "absent" os)
    × (result.failed_count ≡ t.failed_count + count_of "failed" os)
    × (length (available_of os) + count_of "absent" os + count_of "failed" os ≡ length os)

ok_only :
    (s : String) → str_eq s "ok" ≡ true → (str_eq s "absent" ≡ false) × (str_eq s "failed" ≡ false)
ok_only s h =
    subst (λ (u : String). (str_eq u "absent" ≡ false) × (str_eq u "failed" ≡ false))
      (sym ((eq_iff s "ok").0 h)) (refl, refl)

absent_only : (s : String) → str_eq s "absent" ≡ true → str_eq s "failed" ≡ false
absent_only s h =
    subst (λ (u : String). str_eq u "failed" ≡ false) (sym ((eq_iff s "absent").0 h)) refl

pub tally_from-IsTally :
    (t : Tally) (os : List SampleObservation) {result : Tally}
    → tally_from t os ≡ ok result
    → IsTally t os result
unfolding tally_from tally_step
tally_from-IsTally t [] {result} h = subst (IsTally t []) (ok-injective t h) (
  sym (append-nil t.available),
  sym (append-nil t.sample_indices),
  omega arith,
  omega arith,
  omega arith,
  refl,
)
tally_from-IsTally t (o ∷ os) {result} h = elim (Bool-cases (str_eq o.status "ok")) [
  | inl is_ok ↦
      let (not_absent, not_failed) = ok_only o.status is_ok in
      let (e1, e2, e3, e4, e5, e6) = tally_from-IsTally (add_ok t o) os (rw is_ok at h) in
      rw (is_ok, not_absent, not_failed)
        (
          e1 ∙ append_assoc t.available (o ∷ []) (available_of os),
          e2 ∙ append_assoc t.sample_indices (o.index ∷ []) _,
          omega arith,
          e4,
          e5,
          omega arith,
        )
  | inr not_ok ↦ elim (Bool-cases (str_eq o.status "absent")) [
    | inl is_absent ↦
        let not_failed = absent_only o.status is_absent in
        let (e1, e2, e3, e4, e5, e6) =
          tally_from-IsTally (add_absent t) os (rw (not_ok, is_absent) at h) in
        rw (not_ok, is_absent, not_failed) (e1, e2, e3, omega arith, e5, omega arith)
    | inr not_absent ↦ elim (Bool-cases (str_eq o.status "failed")) [
      | inl is_failed ↦
          let (e1, e2, e3, e4, e5, e6) =
            tally_from-IsTally (add_failed t) os (rw (not_ok, not_absent, is_failed) at h) in
          rw (not_ok, not_absent, is_failed) (e1, e2, e3, e4, omega arith, omega arith)
      | inr unknown ↦ let absurd : err _ ≡ ok result = rw (not_ok, not_absent, unknown) at h in cc
    ]
  ]
]

abbrev pub IsOk : SampleObservation → Type 0
IsOk o = str_eq o.status "ok" ≡ true

length-available_of : (os : List SampleObservation) → length (available_of os) ≤ length os
length-available_of [] = omega arith
length-available_of (o ∷ os) = elim (Bool-cases (str_eq o.status "ok")) [
  | inl is_ok ↦ let ih = length-available_of os in rw is_ok (omega arith)
  | inr not_ok ↦ let ih = length-available_of os in rw not_ok (omega arith)
]

pub available_of-full :
    (os : List SampleObservation) → length (available_of os) ≡ length os → All IsOk os
available_of-full [] h = tt
available_of-full (o ∷ os) h = elim (Bool-cases (str_eq o.status "ok")) [
  | inl is_ok ↦
      let more : suc (length (available_of os)) ≡ suc (length os) = rw is_ok at h in
      (is_ok, available_of-full os (omega arith))
  | inr not_ok ↦
      let fewer : length (available_of os) ≡ suc (length os) = rw not_ok at h in
      let bound = length-available_of os in
      let absurd : suc (length os) ≤ length os = omega arith in ground arith
]

pub available_of-All :
    (os : List SampleObservation) → All IsOk os → length (available_of os) ≡ length os
available_of-All [] h = refl
available_of-All (o ∷ os) (is_ok, h) = let ih = available_of-All os h in rw is_ok (omega arith)
