-- ===== src/Policy/Classifier/Total.antt =====
-- internal/policy/classifier.go: the classifier answers, and an answer that is no classification is
-- the blocked evaluation.
use pfas_load_control.Base.{
  Bool, true, false, not, ◌||◌, Option, none, some, [], ◌∷◌, List, Text, ◌≡◌, refl, if◌then◌else◌,
  is_lt, str_eq, Result, ok, err, ◌>>=◌, ◌⊎◌, inl, inr,
}
use pfas_load_control.Rat.{Rat, sign}
use pfas_load_control.Policy.Model.{
  tier_standard, tier_elevated, tier_prohibited, RulePack, AnalyteEvidence, ClassificationInput,
  Evaluation,
}
use pfas_load_control.Policy.Classifier.{
  Run, blocked, matched, at_or_above, any_at_or_above, Readings, no_readings, is_regulated,
  reported_value, limit_too_high, pfos, pfoa, is_biosolids, is_accepted_method, is_dry, normalize,
  decimal, read_analyte, read_analytes, check_report, classify, evaluate,
}

-- A run that ends, in a result or in a blocked evaluation.
abbrev pub Returns {ℓ} : {A : Type ℓ} → Result Evaluation A → Type ℓ
Returns {A} m = ((a : A) × (m ≡ ok a)) ⊎ ((reason : Text) × (m ≡ err (blocked reason)))

>>=-Returns :
    {A B : Type 0} (m : Run A) (f : A → Run B)
    → Returns m
    → ((a : A) → Returns (f a))
    → Returns (m >>= f)
>>=-Returns m f (inl (a, e)) h = rw e (h a)
>>=-Returns m f (inr (reason, e)) h = inr (reason, rw e refl)

ok-Returns : {A : Type 0} (a : A) → Returns {A = A} (ok a)
ok-Returns a = inl (a, refl)

blocked-Returns : {A : Type 0} (reason : Text) → Returns {A = A} (err (blocked reason))
blocked-Returns reason = inr (reason, refl)

if-Returns :
    {A : Type 0} (b : Bool) (m n : Run A) → Returns m → Returns n → Returns (if b then m else n)
if-Returns true m n hm hn = hm
if-Returns false m n hm hn = hn

option-Returns {ℓ} :
    {X : Type ℓ} {A : Type 0} (o : Option X) (m : Run A) (f : X → Run A)
    → Returns m
    → ((x : X) → Returns (f x))
    → Returns (elim o [ none ↦ m | some x ↦ f x ])
option-Returns none m f hm hf = hm
option-Returns (some x) m f hm hf = hf x

limit-Returns : (b : Bool) (x elevated : Rat) → Returns (limit_too_high b x (some elevated))
unfolding limit_too_high
limit-Returns true x elevated = ok-Returns _
limit-Returns false x elevated = ok-Returns _

at_or_above-Returns : (x : Option Rat) (t : Rat) → Returns (at_or_above x (some t))
unfolding at_or_above
at_or_above-Returns none t = ok-Returns _
at_or_above-Returns (some x) t = ok-Returns _

any-Returns : (x y : Option Rat) (t : Rat) → Returns (any_at_or_above x y (some t))
unfolding any_at_or_above
any-Returns x y t =
    >>=-Returns _ _ (at_or_above-Returns x t)
      (λ b. if-Returns b _ _ (ok-Returns true) (at_or_above-Returns y t))

module _ (to_upper : Text → Text) (set_string : Text → Option Rat) where
  read_analyte-Returns :
      (elevated : Rat) (a : AnalyteEvidence) (r : Readings)
      → Returns (read_analyte to_upper set_string (some elevated) a r)
  unfolding read_analyte
  read_analyte-Returns elevated a r =
      if-Returns (not (is_regulated (normalize to_upper set_string a.canonical_analyte))) _ _
        (ok-Returns r)
        (option-Returns (reported_value a) _ _ (blocked-Returns _) (λ t.
          option-Returns (decimal to_upper set_string t) _ _ (blocked-Returns _) (λ x.
            if-Returns (is_lt (sign x)) _ _ (blocked-Returns _) (
              >>=-Returns (limit_too_high a.is_non_detect x (some elevated)) _
                (limit-Returns a.is_non_detect x elevated)
                (λ high. if-Returns high _ _ (blocked-Returns _) (ok-Returns _))))))

  read_analytes-Returns :
      (elevated : Rat) (evidence : List AnalyteEvidence) (r : Readings)
      → Returns (read_analytes to_upper set_string (some elevated) evidence r)
  unfolding read_analytes
  read_analytes-Returns elevated [] r = ok-Returns r
  read_analytes-Returns elevated (a ∷ rest) r =
      >>=-Returns (read_analyte to_upper set_string (some elevated) a r) _
        (read_analyte-Returns elevated a r) (read_analytes-Returns elevated rest)

  module _ (pack : RulePack) (input : ClassificationInput) where
    check_report-Returns : Returns (check_report to_upper set_string pack input)
    unfolding check_report
    check_report-Returns =
        if-Returns (not (str_eq input.jurisdiction pack.jurisdiction)) (err (blocked _)) _
          (blocked-Returns _)
          (if-Returns
            (not (elim input.matrix [ none ↦ false | some t ↦ is_biosolids to_upper set_string t ]))
            (err (blocked _)) _ (blocked-Returns _)
            (if-Returns
              (not (elim input.method [
                | none ↦ false
                | some t ↦ is_accepted_method to_upper set_string pack.accepted_method_tokens t
              ]))
              (err (blocked _)) _ (blocked-Returns _)
              (if-Returns
                (not (elim input.basis [ none ↦ false | some t ↦ is_dry to_upper set_string t ]))
                (err (blocked _)) _ (blocked-Returns _) (ok-Returns tt))))

    classify-Returns :
        (elevated prohibited : Rat) (r : Readings)
        → Returns (classify to_upper set_string pack (some elevated) (some prohibited) r)
    unfolding classify
    classify-Returns elevated prohibited r =
        if-Returns (not (r.resolved pfos) || not (r.resolved pfoa)) _ _ (blocked-Returns _) (
          >>=-Returns (any_at_or_above (r.values pfos) (r.values pfoa) (some prohibited)) _
            (any-Returns (r.values pfos) (r.values pfoa) prohibited)
            (λ b.
              if-Returns b (ok (matched pack tier_prohibited "MI-PFAS-PROHIBIT-100")) _
                (ok-Returns _)
                (>>=-Returns (any_at_or_above (r.values pfos) (r.values pfoa) (some elevated)) _
                  (any-Returns (r.values pfos) (r.values pfoa) elevated)
                  (λ c.
                    if-Returns c (ok (matched pack tier_elevated "MI-PFAS-ELEVATED-20"))
                      (ok (matched pack tier_standard "MI-PFAS-STANDARD-BELOW-20")) (ok-Returns _)
                      (ok-Returns _)))))

    -- With a rule pack whose two thresholds parse the classifier never panics: it classifies the
    -- report, or it ends early with the blocked evaluation, which has the undetermined tier, no
    -- requirement and a reason.
    pub evaluate-Returns :
        (elevated prohibited : Rat)
        → decimal to_upper set_string pack.elevated_threshold ≡ some elevated
        → decimal to_upper set_string pack.prohibited_threshold ≡ some prohibited
        → Returns (evaluate to_upper set_string pack input)
    unfolding evaluate
    evaluate-Returns elevated prohibited he hp =
        rw (he, hp)
          (>>=-Returns (check_report to_upper set_string pack input) _ check_report-Returns (λ u.
            >>=-Returns
              (read_analytes to_upper set_string (some elevated) input.analytes no_readings) _
              (read_analytes-Returns elevated input.analytes no_readings)
              (classify-Returns elevated prohibited)))
