-- ===== src/Evidence/Aggregation/Sources.antt =====
-- internal/evidence/aggregation.go, `sharedProvenance`.
use pfas_load_control.Base.{
  ◌≡◌, refl, ◌∙◌, ap, subst, inl, inr, Bool, true, false, not, ◌||◌, ◌&&◌, ltb, Option, none, some,
  List, [], ◌∷◌, All, String, str_eq, eq_iff, if◌then◌else◌, Bool-cases, ok, ok-injective, arith,
}
use pfas_load_control.Workspace.{Time}
use pfas_load_control.Evidence.Model.{SampleObservation}
use pfas_load_control.Evidence.Aggregation.{
  Provenance, later_time, share, share_all, shared_provenance,
}

-- Do all observations pass the test?
abbrev pub all_pass : (SampleObservation → Bool) → List SampleObservation → Bool
all_pass p [] = true
all_pass p (o ∷ os) = p o && all_pass p os

abbrev pub has_unit : String → SampleObservation → Bool
has_unit u o = str_eq o.unit u

abbrev pub has_source : String → String → SampleObservation → Bool
has_source source url o = str_eq o.source source && str_eq o.source_url url

-- Is the first time later than the second, where no time is earlier than any?
abbrev pub is_after : Option Time → Option Time → Bool
is_after none u = false
is_after (some t) none = true
is_after (some t) (some u) = ltb u t

same_branches : {A : Type 0} (b : Bool) (x : A) → (if b then x else x) ≡ x
same_branches true x = refl
same_branches false x = refl

share_all_unit :
    (p : Provenance) (os : List SampleObservation)
    → (share_all p os).unit ≡ (if all_pass (has_unit p.unit) os then p.unit else "")
unfolding share_all share
share_all_unit p [] = refl
share_all_unit p (o ∷ os) = elim (Bool-cases (str_eq o.unit p.unit)) [
  | inl same ↦
      let kept : (share p o).unit ≡ p.unit = rw same refl in
      share_all_unit (share p o) os
      ∙ ap (λ (u : String). if all_pass (has_unit u) os then u else "") kept
      ∙ rw same refl
  | inr other ↦
      let lost : (share p o).unit ≡ "" = rw other refl in
      share_all_unit (share p o) os
      ∙ ap (λ (u : String). if all_pass (has_unit u) os then u else "") lost
      ∙ same_branches (all_pass (has_unit "") os) ""
      ∙ rw other refl
]

-- The source and its address, of a provenance and of several sources.
abbrev pub cited : Provenance → String × String
cited p = (p.source, p.source_url)

abbrev pub several : String × String
several = ("Multiple cited sources", "")

abbrev chosen : List SampleObservation → String × String → String × String
chosen os c = if all_pass (has_source c.0 c.1) os then c else several

not_or : (a b : Bool) → (not a || not b) ≡ not (a && b)
not_or a b = ground arith

share_all_source :
    (p : Provenance) (os : List SampleObservation) → cited (share_all p os) ≡ chosen os (cited p)
unfolding share_all share
share_all_source p [] = refl
share_all_source p (o ∷ os) =
    let flips = not_or (str_eq o.source p.source) (str_eq o.source_url p.source_url) in
    elim (Bool-cases (has_source p.source p.source_url o)) [
      | inl same ↦
          let kept : cited (share p o) ≡ cited p = rw (flips, same) refl in
          share_all_source (share p o) os ∙ ap (chosen os) kept ∙ rw same refl
      | inr other ↦
          let lost : cited (share p o) ≡ several = rw (flips, other) refl in
          share_all_source (share p o) os
          ∙ ap (chosen os) lost
          ∙ same_branches (all_pass (has_source several.0 several.1) os) several
          ∙ rw other refl
    ]

is_after_trans :
    (a b c : Option Time) → is_after a b ≡ false → is_after b c ≡ false → is_after a c ≡ false
is_after_trans none b c h k = refl
is_after_trans (some a) none c h k = cc
is_after_trans (some a) (some b) none h k = cc
is_after_trans (some a) (some b) (some c) h k = ground arith

later_time_bounds :
    (a b : Option Time)
    → (is_after a (later_time a b) ≡ false) × (is_after b (later_time a b) ≡ false)
later_time_bounds none none = (refl, refl)
later_time_bounds none (some b) = (refl, ground arith)
later_time_bounds (some a) none = (ground arith, refl)
later_time_bounds (some a) (some b) = (ground arith, ground arith)

share_all_time :
    (p : Provenance) (os : List SampleObservation)
    → (is_after p.fetched_at (share_all p os).fetched_at ≡ false)
      × All (λ o. is_after o.fetched_at (share_all p os).fetched_at ≡ false) os
unfolding share_all share
share_all_time p [] = (later_self p.fetched_at, tt)
  where
    later_self : (a : Option Time) → is_after a a ≡ false
    later_self none = refl
    later_self (some t) = ground arith
share_all_time p (o ∷ os) =
    let (bound, all) = share_all_time (share p o) os in
    let (own, before) = later_time_bounds o.fetched_at p.fetched_at in
    let last = (share_all (share p o) os).fetched_at in
    (
      is_after_trans p.fetched_at (share p o).fetched_at last before bound,
      (is_after_trans o.fetched_at (share p o).fetched_at last own bound, all),
    )

-- What the observations `o` and `os` share.
abbrev pub IsShared : SampleObservation → List SampleObservation → Provenance → Type 0
IsShared o os p =
    (p.unit ≡ (if all_pass (has_unit o.unit) os then o.unit else ""))
    × (cited p ≡ (
        if all_pass (has_source o.source o.source_url) os
        then (o.source, o.source_url)
        else several))
    × All (λ q. is_after q.fetched_at p.fetched_at ≡ false) (o ∷ os)

-- The provenance of observations has the unit of the first if all have it, and none otherwise;
-- the source and the address of the first if all have both, and otherwise the note that there
-- are several sources; and a time that is not before that of any of the observations.
pub shared_provenance-IsShared :
    (o : SampleObservation) (os : List SampleObservation) {p : Provenance}
    → shared_provenance (o ∷ os) ≡ ok p
    → IsShared o os p
unfolding shared_provenance
shared_provenance-IsShared o os {p} h =
    let first : Provenance = record {
      unit = o.unit;
      source = o.source;
      source_url = o.source_url;
      fetched_at = none;
    } in
    let (bound, times) = share_all_time first (o ∷ os) in
    subst (IsShared o os) (ok-injective p h) (
      share_all_unit first (o ∷ os) ∙ rw ((eq_iff o.unit o.unit).1 refl) refl,
      share_all_source first (o ∷ os)
          ∙ rw ((eq_iff o.source o.source).1 refl, (eq_iff o.source_url o.source_url).1 refl) refl,
      times,
    )
