-- ===== src/Policy/RulePacks.antt =====
-- internal/policy/catalog.go, `validateRulePack`, and `ruleEffects` of service.go: which rule packs
-- the program loads, and what a stored decision takes from its pack.
pub mod Checked
pub mod Valid
pub mod Effects
use pfas_load_control.Base.{
  ℕ, Bool, true, false, not, ◌&&◌, ◌||◌, ◌==◌, Option, none, some, [], ◌∷◌, List, String, Text,
  length, is_empty, text_eq, trim_space, str_eq, any, if◌then◌else◌, is_le, is_lt, Result, ok, err,
  ◌>>=◌,
}
use pfas_load_control.Rat.{Rat, sign, cmp}
use pfas_load_control.Policy.Model.{
  Tier, tier_standard, tier_elevated, tier_prohibited, Rule, RequirementDefinition, RulePack,
}
use pfas_load_control.Policy.Classifier.{decimal, find_rule}

-- The errors, by their message.
pub data RulePackError : Type 0 where
  identity_required : RulePackError
  review_required : RulePackError
  draft_guidance : RulePackError
  retrieved_at_required : RulePackError
  source_url_invalid : RulePackError
  effective_from_invalid : RulePackError
  elevated_invalid : RulePackError
  elevated_negative : RulePackError
  prohibited_invalid : RulePackError
  prohibited_negative : RulePackError
  thresholds_out_of_order : RulePackError
  tokens_required : RulePackError
  token_blank : RulePackError
  rules_required : RulePackError
  rule_unknown_or_duplicated : String → RulePackError
  rule_mismatch : String → RulePackError
  maximum_rate_required : RulePackError
  maximum_rate_invalid : RulePackError
  land_application_not_prohibited : RulePackError
  requirement_incomplete_or_duplicated : Text → RulePackError
  requirement_tier_unsupported : Text → RulePackError

abbrev pub Check : Type 0 → Type 0
Check = Result RulePackError

abbrev pub is_blank : Text → Bool
is_blank t = is_empty (trim_space t)

abbrev pub contains_string : List String → String → Bool
contains_string values target = any (λ value. str_eq value target) values

-- What the classifier relies on of the rule with an identifier.
pub record ExpectedRule : Type 0 where
  pub tier : Tier
  pub operator : String
  pub threshold : Text

unfoldable pub expected_rule : RulePack → String → Option ExpectedRule
expected_rule pack id =
    if str_eq id "MI-PFAS-PROHIBIT-100"
    then some (record {
      tier = tier_prohibited;
      operator = "ANY_GTE";
      threshold = pack.prohibited_threshold;
    })
    else if str_eq id "MI-PFAS-ELEVATED-20"
    then some
        (record { tier = tier_elevated; operator = "ANY_GTE"; threshold = pack.elevated_threshold })
    else if str_eq id "MI-PFAS-STANDARD-BELOW-20"
    then some
        (record { tier = tier_standard; operator = "ALL_LT"; threshold = pack.elevated_threshold })
    else none

unfoldable pub is_supported : Tier → Bool
is_supported tier = not (
    not (str_eq tier tier_standard)
    && not (str_eq tier tier_elevated)
    && not (str_eq tier tier_prohibited))

-- The loop over the tiers of a requirement.
unfoldable pub check_tiers : Text → List Tier → Check Unit
unfolding is_supported
check_tiers id [] = ok tt
check_tiers id (tier ∷ tiers) =
    let rest = check_tiers id tiers in
    if not (is_supported tier) then err (requirement_tier_unsupported id) else rest

unfoldable pub is_incomplete : RequirementDefinition → Bool
is_incomplete d =
    is_blank d.id
    || (length d.tiers == 0)
    || is_blank d.title
    || is_blank d.detail
    || is_blank d.timing

-- The loop over the requirements, with the identifiers seen so far.
unfoldable pub check_requirements : List Text → List RequirementDefinition → Check Unit
unfolding check_tiers is_incomplete
check_requirements seen [] = ok tt
check_requirements seen (d ∷ ds) =
    if is_incomplete d || any (λ id. text_eq id d.id) seen
    then err (requirement_incomplete_or_duplicated d.id)
    else (check_tiers d.id d.tiers >>= λ done. check_requirements (d.id ∷ seen) ds)

-- `ruleEffects`: the rate and the prohibited actions that a stored decision has from its pack.
unfoldable pub rule_effects : RulePack → Option String → Option Text × List String
rule_effects pack none = (none, [])
rule_effects pack (some rule_id) = elim (find_rule pack.rules rule_id) [
  | none ↦ (none, [])
  | some rule ↦ (rule.maximum_application_rate, rule.prohibited_actions)
]

-- The lists that may not be empty, and the number of the rules.
unfoldable pub check_counts : RulePack → Check Unit
check_counts pack =
    if length pack.accepted_method_tokens == 0
    then err tokens_required
    else if any is_blank pack.accepted_method_tokens
    then err token_blank
    else if not (length pack.rules == 3) || (length pack.requirements == 0)
    then err rules_required
    else ok tt

-- `set_string` is `big.Rat.SetString`, `parse_url` the scheme and host of `url.Parse`, `is_date` the
-- success of `time.Parse("2006-01-02", …)`; `to_upper` is passed on to the classifier.
module _ (to_upper : Text → Text) (set_string : Text → Option Rat) where
  unfoldable pub check_rate : Rule → Check Unit
  check_rate rule = elim rule.maximum_application_rate [
    | none ↦ err maximum_rate_required
    | some t ↦ elim (decimal to_upper set_string t) [
      | none ↦ err maximum_rate_invalid
      | some rate ↦ if is_le (sign rate) then err maximum_rate_invalid else ok tt
    ]
  ]

  unfoldable pub check_rule : ExpectedRule → Rule → Check Unit
  unfolding check_rate
  check_rule expected rule =
      if not (str_eq rule.tier expected.tier)
        || not (str_eq rule.operator expected.operator)
        || not (text_eq rule.threshold_ug_kg_dry expected.threshold)
        || is_blank rule.explanation
      then err (rule_mismatch rule.id)
      else ((if str_eq rule.tier tier_elevated then check_rate rule else ok tt) >>= λ done.
          if str_eq rule.tier tier_prohibited
            && not (contains_string rule.prohibited_actions "LAND_APPLICATION")
          then err land_application_not_prohibited
          else ok tt)

  -- The loop over the rules, with the identifiers seen so far.
  unfoldable pub check_rules : RulePack → List String → List Rule → Check Unit
  unfolding expected_rule check_rule
  check_rules pack seen [] = ok tt
  check_rules pack seen (rule ∷ rules) = elim (expected_rule pack rule.id) [
    | none ↦ err (rule_unknown_or_duplicated rule.id)
    | some expected ↦
        if contains_string seen rule.id
        then err (rule_unknown_or_duplicated rule.id)
        else (check_rule expected rule >>= λ done. check_rules pack (rule.id ∷ seen) rules)
  ]

  -- A threshold that parses and is not negative.
  unfoldable pub check_threshold : RulePackError → RulePackError → Text → Check Rat
  check_threshold invalid negative t = elim (decimal to_upper set_string t) [
    | none ↦ err invalid
    | some x ↦ if is_lt (sign x) then err negative else ok x
  ]

  unfoldable pub check_thresholds : RulePack → Check Unit
  unfolding check_threshold
  check_thresholds pack = do
    elevated ← check_threshold elevated_invalid elevated_negative pack.elevated_threshold
    prohibited ← check_threshold prohibited_invalid prohibited_negative pack.prohibited_threshold
    if not (is_lt (cmp elevated prohibited)) then err thresholds_out_of_order else ok tt

  module _ (parse_url : String → Option (String × String)) (is_date : String → Bool) where
    abbrev has_https_url : String → Bool
    has_https_url url = elim (parse_url url) [
      | none ↦ false
      | some parts ↦ str_eq parts.0 "https" && not (str_eq parts.1 "")
    ]

    -- The tests before the thresholds.
    unfoldable pub check_identity : RulePack → Check Unit
    check_identity pack =
        if not (pack.schema_version == 1)
          || str_eq pack.code ""
          || str_eq pack.version ""
          || str_eq pack.jurisdiction ""
        then err identity_required
        else if not (str_eq pack.review_status "ACTIVE")
            || str_eq pack.reviewed_by ""
            || pack.reviewed_at == 0
        then err review_required
        else if str_eq pack.authority_type "DRAFT_GUIDANCE"
        then err draft_guidance
        else if pack.retrieved_at == 0
        then err retrieved_at_required
        else if not (has_https_url pack.source_url)
        then err source_url_invalid
        else if not (is_date pack.effective_from)
        then err effective_from_invalid
        else ok tt

    unfoldable pub validate_rule_pack : RulePack → Check Unit
    unfolding check_identity check_thresholds check_counts check_rules check_requirements
    validate_rule_pack pack = do
      identified ← check_identity pack
      ordered ← check_thresholds pack
      counted ← check_counts pack
      done ← check_rules pack [] pack.rules
      check_requirements [] pack.requirements
