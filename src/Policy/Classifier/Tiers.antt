-- ===== src/Policy/Classifier/Tiers.antt =====
-- internal/policy/classifier.go, `Evaluate`: which tier a report is given.
use mathlib.Core.Path.{ap₂}
use mathlib.Core.Bool.{false≢true}
use pfas_load_control.Base.{
  Bool, true, false, not, ◌||◌, Option, none, some, Text, text_eq, any, ◌≡◌, refl, sym, ◌∙◌,
  if◌then◌else◌, is_lt, str_eq, ok, err, >>=-eq-ok, ok-injective, All, arith,
}
use pfas_load_control.Rat.{Rat, cmp}
use pfas_load_control.Policy.Model.{
  tier_standard, tier_elevated, tier_prohibited, RulePack, AnalyteEvidence, ClassificationInput,
  Evaluation,
}
use pfas_load_control.Policy.Classifier.{
  Run, matched, at_or_above, any_at_or_above, Readings, no_readings, pfos, pfoa, is_regulated,
  normalize, decimal, is_biosolids, is_accepted_method, is_dry, read_analytes, check_report,
  classify, evaluate,
}
use pfas_load_control.Policy.Classifier.Evidence.{
  last_detected, is_named, IsUsable, or_else, read_analytes_lem,
}

-- Is a value there that is at or above the threshold?
abbrev pub reaches : Rat → Option Rat → Bool
reaches t none = false
reaches t (some x) = not (is_lt (cmp x t))

-- The evaluation that the rules prescribe for the two values of a report.
abbrev pub prescribed : RulePack → Rat → Rat → Option Rat → Option Rat → Evaluation
prescribed pack elevated prohibited x y =
    if reaches prohibited x || reaches prohibited y
    then matched pack tier_prohibited "MI-PFAS-PROHIBIT-100"
    else if reaches elevated x || reaches elevated y
    then matched pack tier_elevated "MI-PFAS-ELEVATED-20"
    else matched pack tier_standard "MI-PFAS-STANDARD-BELOW-20"

at_or_above_lem : (t : Rat) (x : Option Rat) → at_or_above x (some t) ≡ ok (reaches t x)
unfolding at_or_above
at_or_above_lem t none = refl
at_or_above_lem t (some x) = refl

any_at_or_above_lem :
    (t : Rat) (x y : Option Rat) → any_at_or_above x y (some t) ≡ ok (reaches t x || reaches t y)
unfolding any_at_or_above
any_at_or_above_lem t x y = rw (at_or_above_lem t x, at_or_above_lem t y) (ground arith)

pfos-IsKey : (n : Text) → is_regulated n ≡ false → text_eq n pfos ≡ false
unfolding is_regulated
pfos-IsKey n h = ground arith

pfoa-IsKey : (n : Text) → is_regulated n ≡ false → text_eq n pfoa ≡ false
unfolding is_regulated
pfoa-IsKey n h = ground arith

err≢ok : {A : Type 0} {v : Evaluation} {a : A} → ◌≡◌ {A = Run A} (err v) (ok a) → ⊥
err≢ok e = cc

||-false : (b : Bool) → b ≡ (b || false)
||-false b = ground arith

or_else-none : (o : Option Rat) → or_else o none ≡ o
or_else-none none = refl
or_else-none (some x) = refl

both_there :
    {A : Type 0} (a b : Bool) (v : Evaluation) (m : Run A) {x : A}
    → (if not a || not b then err v else m) ≡ ok x
    → ((a ≡ true) × (b ≡ true)) × (m ≡ ok x)
both_there true true v m e = ((refl, refl), e)
both_there true false v m e = absurd (err≢ok e)
both_there false b v m e = absurd (err≢ok e)

choose :
    (b c : Bool) (x y z : Evaluation)
    → ◌≡◌ {A = Run Evaluation}
        (if b then ok x else if c then ok y else ok z)
        (ok (if b then x else if c then y else z))
choose true c x y z = refl
choose false true x y z = refl
choose false false x y z = refl

-- A guard that let the run through.
passed :
    {A : Type 0} (b : Bool) (v : Evaluation) (m : Run A) {a : A}
    → (if not b then err v else m) ≡ ok a
    → (b ≡ true) × (m ≡ ok a)
passed true v m e = (refl, e)
passed false v m e = absurd (err≢ok e)

module _ (to_upper : Text → Text) (set_string : Text → Option Rat) where
  -- The tests that a report passes before its analytes are read.
  pub record IsAdmissible (pack : RulePack) (input : ClassificationInput) : Type 0 where
    pub jurisdiction : str_eq input.jurisdiction pack.jurisdiction ≡ true
    pub matrix : (t : Text) × (input.matrix ≡ some t) × (is_biosolids to_upper set_string t ≡ true)
    pub method :
        (t : Text) × (input.method ≡ some t)
        × (is_accepted_method to_upper set_string pack.accepted_method_tokens t ≡ true)
    pub basis : (t : Text) × (input.basis ≡ some t) × (is_dry to_upper set_string t ≡ true)

  -- What a report that was classified has in it, and the evaluation that it was given.
  pub record IsClassified (pack : RulePack) (elevated prohibited : Rat)
      (input : ClassificationInput) (ev : Evaluation) : Type 0 where
    pub admissible : IsAdmissible pack input
    pub usable :
        All
          (λ (a : AnalyteEvidence).
            is_regulated (normalize to_upper set_string a.canonical_analyte) ≡ true
            → IsUsable to_upper set_string (some elevated) a)
          input.analytes
    pub has_pfos : any (is_named to_upper set_string pfos) input.analytes ≡ true
    pub has_pfoa : any (is_named to_upper set_string pfoa) input.analytes ≡ true
    pub verdict :
        ev
        ≡ prescribed pack elevated prohibited
            (last_detected to_upper set_string pfos input.analytes)
            (last_detected to_upper set_string pfoa input.analytes)

  confirmed :
      (o : Option Text) (p : Text → Bool)
      → elim o [ none ↦ false | some t ↦ p t ] ≡ true
      → (t : Text) × (o ≡ some t) × (p t ≡ true)
  confirmed none p h = absurd (false≢true h)
  confirmed (some t) p h = (t, refl, h)

  module _ (pack : RulePack) (input : ClassificationInput) where
    check_report_lem :
        {u : Unit} → check_report to_upper set_string pack input ≡ ok u → IsAdmissible pack input
    unfolding check_report
    check_report_lem e =
        let (j, e1) = passed _ _ _ e in
        let (m, e2) = passed _ _ _ e1 in
        let (a, e3) = passed _ _ _ e2 in
        let (b, e4) = passed _ _ _ e3 in
        record {
          jurisdiction = j;
          matrix = confirmed input.matrix _ m;
          method = confirmed input.method _ a;
          basis = confirmed input.basis _ b;
        }

    classify_lem :
        (elevated prohibited : Rat) (r : Readings) {ev : Evaluation}
        → classify to_upper set_string pack (some elevated) (some prohibited) r ≡ ok ev
        → (r.resolved pfos ≡ true)
          × (r.resolved pfoa ≡ true)
          × (prescribed pack elevated prohibited (r.values pfos) (r.values pfoa) ≡ ev)
    unfolding classify
    classify_lem elevated prohibited r {ev} e =
        let (there, e1) = both_there (r.resolved pfos) (r.resolved pfoa) _ _ e in
        (
          there.0,
          there.1,
          ok-injective ev (
              sym (
                rw
                  (
                    any_at_or_above_lem prohibited (r.values pfos) (r.values pfoa),
                    any_at_or_above_lem elevated (r.values pfos) (r.values pfoa),
                  )
                  (choose (reaches prohibited (r.values pfos) || reaches prohibited (r.values pfoa))
                    (reaches elevated (r.values pfos) || reaches elevated (r.values pfoa)) _ _ _))
              ∙ e1),
        )

    readings-IsClassified :
        (elevated prohibited : Rat) (r : Readings) {ev : Evaluation}
        → IsAdmissible pack input
        → read_analytes to_upper set_string (some elevated) input.analytes no_readings ≡ ok r
        → classify to_upper set_string pack (some elevated) (some prohibited) r ≡ ok ev
        → IsClassified pack elevated prohibited input ev
    readings-IsClassified elevated prohibited r {ev} h e3 e4 =
        let (pfos_there, pfoa_there, verdict) = classify_lem elevated prohibited r e4 in
        let (us, vs, ws) =
          read_analytes_lem to_upper set_string pfos pfos-IsKey (some elevated) input.analytes
            no_readings e3 in
        let (us', vs', ws') =
          read_analytes_lem to_upper set_string pfoa pfoa-IsKey (some elevated) input.analytes
            no_readings e3 in
        record {
          admissible = h;
          usable = us;
          has_pfos = ||-false _ ∙ sym ws ∙ pfos_there;
          has_pfoa = ||-false _ ∙ sym ws' ∙ pfoa_there;
          verdict =
              sym verdict
              ∙ ap₂ (prescribed pack elevated prohibited) (vs ∙ or_else-none _)
                  (vs' ∙ or_else-none _);
        }

    -- A report that is classified by a rule pack whose thresholds parse is from the jurisdiction
    -- of the pack, of biosolids, by an accepted method and on dry weight; it has both PFOS and
    -- PFOA; every row of either has a decimal that is not negative, in a non-detect row one not
    -- above the lower threshold; and the evaluation is the prescribed one: PROHIBITED if the
    -- last detected value of PFOS or of PFOA is at or above the upper threshold, else ELEVATED
    -- if one of them is at or above the lower threshold, else STANDARD.
    pub evaluate-IsClassified :
        (elevated prohibited : Rat) {ev : Evaluation}
        → decimal to_upper set_string pack.elevated_threshold ≡ some elevated
        → decimal to_upper set_string pack.prohibited_threshold ≡ some prohibited
        → evaluate to_upper set_string pack input ≡ ok ev
        → IsClassified pack elevated prohibited input ev
    unfolding evaluate
    evaluate-IsClassified elevated prohibited {ev} he hp e =
        let (u, e1, e2) = >>=-eq-ok (check_report to_upper set_string pack input) _ e in
        let (r, e3, e4) =
          >>=-eq-ok (read_analytes to_upper set_string (some elevated) input.analytes no_readings) _
            (rw (he, hp) at e2) in
        readings-IsClassified elevated prohibited r (check_report_lem e1) e3 e4
