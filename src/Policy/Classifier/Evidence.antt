-- ===== src/Policy/Classifier/Evidence.antt =====
-- internal/policy/classifier.go: what the loop over the analytes of a report has read.
use mathlib.Core.Bool.{false≢true}
use pfas_load_control.Base.{
  Bool, true, false, not, ◌&&◌, ◌||◌, Option, none, some, [], ◌∷◌, List, Text, text_eq, any, ◌≡◌,
  refl, sym, ◌∙◌, ap, if◌then◌else◌, is_lt, ok, err, >>=-eq-ok, ok-injective, All, Bool-cases,
  Option-cases, inl, inr, arith, subst,
}
use pfas_load_control.Rat.{Rat, sign}
use pfas_load_control.Policy.Model.{AnalyteEvidence, Evaluation}
use pfas_load_control.Policy.Classifier.{
  Run, Readings, add_reading, is_regulated, reported_value, limit_too_high, normalize, decimal,
  read_analyte, read_analytes,
}

err≢ok : {A : Type 0} {v : Evaluation} {a : A} → ◌≡◌ {A = Run A} (err v) (ok a) → ⊥
err≢ok e = cc

-- The first of two values that is there.
abbrev pub or_else : Option Rat → Option Rat → Option Rat
or_else (some x) other = some x
or_else none other = other

or_else_assoc : (x y z : Option Rat) → or_else (or_else x y) z ≡ or_else x (or_else y z)
or_else_assoc (some a) y z = refl
or_else_assoc none y z = refl

||-swap : (x y z : Bool) → (x || (y || z)) ≡ ((y || x) || z)
||-swap x y z = ground arith

-- A detected value is stored, that of a non-detect is not.
stored :
    (named non_detect : Bool) (x : Rat) (o other : Option Rat)
    → o ≡ some x
    → (if named && not non_detect then some x else other)
      ≡ or_else (if named && not non_detect then o else none) other
stored named non_detect x o other h = rw h (ground arith)

module _ (to_upper : Text → Text) (set_string : Text → Option Rat) where
  abbrev name_of : AnalyteEvidence → Text
  name_of a = normalize to_upper set_string a.canonical_analyte

  -- The decimal that counts for an analyte.
  abbrev pub reading : AnalyteEvidence → Option Rat
  reading a = elim (reported_value a) [ none ↦ none | some t ↦ decimal to_upper set_string t ]

  abbrev pub is_named : Text → AnalyteEvidence → Bool
  is_named name a = text_eq (name_of a) name

  -- The last detected value of an analyte in the report.
  detected : Text → AnalyteEvidence → Option Rat
  detected name a = if is_named name a && not a.is_non_detect then reading a else none

  unfoldable pub last_detected : Text → List AnalyteEvidence → Option Rat
  unfolding detected
  last_detected name [] = none
  last_detected name (a ∷ rest) = or_else (last_detected name rest) (detected name a)

  -- An analyte that the rules are about has a value that is not negative, and a non-detect one has a
  -- reporting limit of at most the lower threshold.
  pub record IsUsable (elevated : Option Rat) (a : AnalyteEvidence) : Type 0 where
    pub value : Rat
    pub read : reading a ≡ some value
    pub not_negative : is_lt (sign value) ≡ false
    pub limit : limit_too_high a.is_non_detect value elevated ≡ ok false

  read_some :
      (elevated : Option Rat) (a : AnalyteEvidence) (r : Readings) {r' : Readings}
      → is_regulated (name_of a) ≡ true
      → read_analyte to_upper set_string elevated a r ≡ ok r'
      → (u : IsUsable elevated a) × (add_reading (name_of a) a.is_non_detect u.value r ≡ r')
  unfolding read_analyte
  read_some elevated a r {r'} reg e = elim (Option-cases (reported_value a)) [
    | inl absent ↦ absurd (err≢ok (rw (reg, absent) at e))
    | inr (t, given) ↦ elim (Option-cases (decimal to_upper set_string t)) [
      | inl bad ↦ absurd (err≢ok (rw (reg, given, decimal, bad) at e))
      | inr (x, good) ↦ elim (Bool-cases (is_lt (sign x))) [
        | inl below ↦ absurd (err≢ok (rw (reg, given, decimal, good, below) at e))
        | inr above ↦
            let (too_high, e1, e2) =
              >>=-eq-ok (limit_too_high a.is_non_detect x elevated) _
                (rw (reg, given, decimal, good, above) at e) in
            elim (Bool-cases too_high) [
              | inl bad ↦ absurd (err≢ok (rw bad at e2))
              | inr fine ↦ (
                record {
                  value = x;
                  read = rw (reading, given) good;
                  not_negative = above;
                  limit = e1 ∙ ap ok fine;
                },
                ok-injective r (rw fine at e2),
              )
            ]
      ]
    ]
  ]

  read_none :
      (elevated : Option Rat) (a : AnalyteEvidence) (r : Readings) {r' : Readings}
      → is_regulated (name_of a) ≡ false
      → read_analyte to_upper set_string elevated a r ≡ ok r'
      → r ≡ r'
  unfolding read_analyte
  read_none elevated a r reg e = ok-injective r (rw reg at e)

  -- A name that `is_regulated` knows.
  abbrev IsKey : Text → Type 0
  IsKey k = (n : Text) → is_regulated n ≡ false → text_eq n k ≡ false

  -- What one round does to the two maps, at the key `k`.
  IsRound : Text → Option Rat → AnalyteEvidence → Readings → Readings → Type 0
  unfolding detected
  IsRound k elevated a r r' =
      (is_regulated (name_of a) ≡ true → IsUsable elevated a)
      × (r'.values k ≡ or_else (detected k a) (r.values k))
      × (r'.resolved k ≡ is_named k a || r.resolved k)

  read_analyte_lem :
      (k : Text) (key : IsKey k) (elevated : Option Rat) (a : AnalyteEvidence) (r : Readings)
      {r' : Readings}
      → read_analyte to_upper set_string elevated a r ≡ ok r'
      → IsRound k elevated a r r'
  unfolding IsRound
  read_analyte_lem k key elevated a r {r'} e = elim (Bool-cases (is_regulated (name_of a))) [
    | inl reg ↦
        let (u, same) = read_some elevated a r reg e in
        subst (IsRound k elevated a r) same (
          λ _. u,
          unfold add_reading in stored (is_named k a) a.is_non_detect u.value _ _ u.read,
          unfold add_reading in refl,
        )
    | inr other ↦ subst (IsRound k elevated a r) (read_none elevated a r other e) (
      λ reg. absurd (false≢true (sym other ∙ reg)),
      rw (key (name_of a) other) refl,
      rw (key (name_of a) other) refl,
    )
  ]

  -- What the loop has read.
  pub read_analytes_lem :
      (k : Text) (key : IsKey k) (elevated : Option Rat) (evidence : List AnalyteEvidence)
      (r : Readings) {r' : Readings}
      → read_analytes to_upper set_string elevated evidence r ≡ ok r'
      → All (λ a. is_regulated (name_of a) ≡ true → IsUsable elevated a) evidence
        × (r'.values k ≡ or_else (last_detected k evidence) (r.values k))
        × (r'.resolved k ≡ any (is_named k) evidence || r.resolved k)
  unfolding read_analytes last_detected IsRound
  read_analytes_lem k key elevated [] r {r'} e =
      let same = ok-injective r e in
      (tt, ap (λ x. x.values k) (sym same), ap (λ x. x.resolved k) (sym same))
  read_analytes_lem k key elevated (a ∷ evidence) r {r'} e =
      let (r1, e1, e2) = >>=-eq-ok (read_analyte to_upper set_string elevated a r) _ e in
      let (u, v, w) = read_analyte_lem k key elevated a r e1 in
      let (us, vs, ws) = read_analytes_lem k key elevated evidence r1 e2 in
      (
        (u, us),
        vs
            ∙ ap (or_else (last_detected k evidence)) v
            ∙ sym (or_else_assoc (last_detected k evidence) _ _),
        ws
            ∙ ap (λ x. any (is_named k) evidence || x) w
            ∙ ||-swap (any (is_named k) evidence) (is_named k a) (r.resolved k),
      )
