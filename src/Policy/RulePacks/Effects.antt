-- ===== src/Policy/RulePacks/Effects.antt =====
-- internal/policy: what a classification by a validated rule pack brings with it.
use pfas_load_control.Base.{
  Bool, true, false, ◌||◌, Option, some, String, Text, eq_iff, if◌then◌else◌, is_le, ok,
  Option-cases, inl, inr, ◌≡◌, refl, sym, ◌∙◌, ap, arith, subst,
}
use pfas_load_control.Rat.{Rat, sign}
use pfas_load_control.Policy.Model.{
  Tier, tier_standard, tier_elevated, tier_prohibited, Rule, RulePack, ClassificationInput,
  Evaluation,
}
use pfas_load_control.Policy.Classifier.{decimal, find_rule, matched, unruled, evaluate}
use pfas_load_control.Policy.Classifier.Tiers.{prescribed, reaches, evaluate-IsClassified}
use pfas_load_control.Policy.Classifier.Total.{Returns, evaluate-Returns}
use pfas_load_control.Policy.RulePacks.{
  ExpectedRule, expected_rule, check_rule, check_rate, contains_string, rule_effects,
  validate_rule_pack,
}
use pfas_load_control.Policy.RulePacks.Checked.{err≢ok, not_failed}
use pfas_load_control.Policy.RulePacks.Valid.{HasRule, IsValid, validate_rule_pack-IsValid}

expected_tier :
    {a : ExpectedRule} (b : ExpectedRule)
    → ◌≡◌ {A = Option ExpectedRule} (some a) (some b)
    → b.tier ≡ a.tier
expected_tier b e = cc

module _ (to_upper : Text → Text) (set_string : Text → Option Rat) where
  -- A rate that the placement engine can read.
  abbrev pub IsRateText : Text → Type 0
  IsRateText t = (x : Rat) × (decimal to_upper set_string t ≡ some x) × (is_le (sign x) ≡ false)

  check_rate_lem :
      (r : Rule)
      → check_rate to_upper set_string r ≡ ok tt
      → (t : Text) × (r.maximum_application_rate ≡ some t) × IsRateText t
  unfolding check_rate
  check_rate_lem r e = elim (Option-cases r.maximum_application_rate) [
    | inl absent ↦ absurd (err≢ok (rw (check_rate, absent) at e))
    | inr (t, given) ↦ elim (Option-cases (decimal to_upper set_string t)) [
      | inl bad ↦ absurd (err≢ok (rw (check_rate, given, bad) at e))
      | inr (x, good) ↦ (
        t,
        given,
        (x, good, (not_failed (is_le (sign x)) _ (ok tt) (rw (check_rate, given, good) at e)).0),
      )
    ]
  ]

  check_rule_lem :
      (expected : ExpectedRule) (r : Rule)
      → check_rule to_upper set_string expected r ≡ ok tt
      → (r.tier ≡ expected.tier)
        × (r.tier ≡ tier_elevated → check_rate to_upper set_string r ≡ ok tt)
        × (r.tier ≡ tier_prohibited
            → contains_string r.prohibited_actions "LAND_APPLICATION" ≡ true)
  unfolding check_rule
  check_rule_lem expected r e = ground (
    arith,
    eq_iff r.tier expected.tier,
    eq_iff r.tier tier_elevated,
    eq_iff r.tier tier_prohibited,
  )

  module _ (pack : RulePack) where
    matched_lem :
        (tier : Tier) (id : String) (rule : Rule)
        → find_rule pack.rules id ≡ some rule
        → ((matched pack tier id).tier ≡ tier)
          × ((matched pack tier id).maximum_application_rate ≡ rule.maximum_application_rate)
          × ((matched pack tier id).prohibited_actions ≡ rule.prohibited_actions)
          × (rule_effects pack (some (matched pack tier id).matched_rule_id)
              ≡ (rule.maximum_application_rate, rule.prohibited_actions))
    unfolding matched unruled rule_effects
    matched_lem tier id rule found =
        rw (matched, found) (refl, refl, refl, rw (rule_effects, found) refl)

    -- What an evaluation brings with it: a prohibition of land application in the PROHIBITED tier,
    -- a rate that the placement engine can read in the ELEVATED tier, and in every tier what
    -- `ruleEffects` reads back from the pack for the stored decision.
    pub record HasEffects (ev : Evaluation) : Type 0 where
      pub prohibits :
          ev.tier ≡ tier_prohibited
          → contains_string ev.prohibited_actions "LAND_APPLICATION" ≡ true
      pub rate :
          ev.tier ≡ tier_elevated
          → (t : Text) × (ev.maximum_application_rate ≡ some t) × IsRateText t
      pub stored :
          rule_effects pack (some ev.matched_rule_id)
          ≡ (ev.maximum_application_rate, ev.prohibited_actions)

    matched-HasEffects :
        (id : String) (h : HasRule to_upper set_string pack id) (tier : Tier)
        → h.expected.tier ≡ tier
        → HasEffects (matched pack tier id)
    matched-HasEffects id h tier same =
        let (ranked, rated, prohibiting) = check_rule_lem h.expected h.rule h.checked in
        let (m, a, b, c) = matched_lem tier id h.rule h.found in
        record {
          prohibits = λ p.
              ap (λ actions. contains_string actions "LAND_APPLICATION") b
              ∙ prohibiting (ranked ∙ same ∙ sym m ∙ p);
          rate = λ p.
              let (t, given, readable) =
                check_rate_lem h.rule (rated (ranked ∙ same ∙ sym m ∙ p)) in
              (t, a ∙ given, readable);
          stored =
              c
              ∙ ap (λ rate. (rate, h.rule.prohibited_actions)) (sym a)
              ∙ ap (λ actions. ((matched pack tier id).maximum_application_rate, actions)) (sym b);
        }

    prescribed-HasEffects :
        (elevated prohibited : Rat) (x y : Option Rat)
        → IsValid to_upper set_string pack
        → HasEffects (prescribed pack elevated prohibited x y)
    unfolding expected_rule
    prescribed-HasEffects elevated prohibited x y v =
        choose (reaches prohibited x || reaches prohibited y)
          (matched-HasEffects "MI-PFAS-PROHIBIT-100" v.prohibit tier_prohibited
            (expected_tier _ v.prohibit.specified))
          (choose (reaches elevated x || reaches elevated y)
            (matched-HasEffects "MI-PFAS-ELEVATED-20" v.elevate tier_elevated
              (expected_tier _ v.elevate.specified))
            (matched-HasEffects "MI-PFAS-STANDARD-BELOW-20" v.allow tier_standard
              (expected_tier _ v.allow.specified)))
      where
        choose :
            (b : Bool) {p q : Evaluation}
            → HasEffects p
            → HasEffects q
            → HasEffects (if b then p else q)
        choose true h k = h
        choose false h k = k

    -- With a rule pack that passed the validation, the classifier answers whatever the report,
    -- with a classification or the blocked evaluation, and never panics. A PROHIBITED
    -- classification prohibits land application, an ELEVATED one brings a maximum rate that
    -- parses as a positive decimal, and every classification has the rate and the prohibited
    -- actions that are read back from the pack for the stored decision.
    pub evaluate-HasEffects :
        (parse_url : String → Option (String × String)) (is_date : String → Bool)
        (input : ClassificationInput)
        → validate_rule_pack to_upper set_string parse_url is_date pack ≡ ok tt
        → Returns (evaluate to_upper set_string pack input)
          × ((ev : Evaluation) → evaluate to_upper set_string pack input ≡ ok ev → HasEffects ev)
    evaluate-HasEffects parse_url is_date input valid =
        let v = validate_rule_pack-IsValid to_upper set_string parse_url is_date pack valid in
        let t = v.thresholds in
        (
          evaluate-Returns to_upper set_string pack input t.elevated t.prohibited t.elevated_read
              t.prohibited_read,
          λ ev e.
              let c =
                evaluate-IsClassified to_upper set_string pack input t.elevated t.prohibited
                  t.elevated_read t.prohibited_read e in
              subst HasEffects (sym c.verdict)
                (prescribed-HasEffects t.elevated t.prohibited _ _ v),
        )
