-- ===== src/Policy/Classifier.antt =====
-- internal/policy/classifier.go. An early return with a blocked evaluation is an `err`; `panic` is
-- the comparison with a threshold that did not parse. `strings.ToUpper` and `big.Rat.SetString` are
-- parameters.
pub mod Evidence
pub mod Tiers
pub mod Total
use pfas_load_control.Base.{
  Bool, true, false, not, ◌&&◌, ◌||◌, Option, none, some, [], ◌∷◌, ◌++◌, List, String, Text,
  message, codes, text_eq, trim_space, contains, str_eq, any, if◌then◌else◌, is_lt, is_gt, Result,
  ok, err, panic, ◌>>=◌,
}
use pfas_load_control.Rat.{Rat, sign, cmp}
use pfas_load_control.Policy.Model.{
  Tier, tier_standard, tier_elevated, tier_prohibited, tier_undetermined, Rule,
  RequirementDefinition, RulePack, AnalyteEvidence, ClassificationInput, Requirement, Evaluation,
}

-- The run of the classifier, or of a part of it.
abbrev pub Run : Type 0 → Type 0
Run = Result Evaluation

unfoldable pub blocked : Text → Evaluation
blocked reason = record {
  tier = tier_undetermined;
  matched_rule_id = "";
  explanation = message "The evidence is not sufficient for deterministic classification.";
  requirements = [];
  maximum_application_rate = none;
  prohibited_actions = [];
  blocking_reason = some reason;
}

abbrev pub contains_tier : List Tier → Tier → Bool
contains_tier tiers target = any (λ tier. str_eq tier target) tiers

unfoldable pub requirements_for :
    RulePack → List RequirementDefinition → Tier → String → List Requirement
requirements_for pack [] tier rule_id = []
requirements_for pack (d ∷ ds) tier rule_id =
    let rest = requirements_for pack ds tier rule_id in
    if contains_tier d.tiers tier
    then record {
      id = d.id;
      title = d.title;
      detail = d.detail;
      timing = d.timing;
      rule_id = rule_id;
      source_url = pack.source_url;
      source_title = pack.source_title;
      authority_type = pack.authority_type;
    }
      ∷ rest
    else rest

-- The first rule with the identifier.
unfoldable pub find_rule : List Rule → String → Option Rule
find_rule [] rule_id = none
find_rule (r ∷ rs) rule_id =
    let rest = find_rule rs rule_id in if str_eq r.id rule_id then some r else rest

-- An evaluation whose rule has not been looked up yet.
unfoldable pub unruled : RulePack → Tier → String → Evaluation
unfolding requirements_for
unruled pack tier rule_id = record {
  tier = tier;
  matched_rule_id = rule_id;
  explanation = [];
  requirements = requirements_for pack pack.requirements tier rule_id;
  maximum_application_rate = none;
  prohibited_actions = [];
  blocking_reason = none;
}

unfoldable pub matched : RulePack → Tier → String → Evaluation
unfolding unruled find_rule
matched pack tier rule_id = elim (find_rule pack.rules rule_id) [
  | none ↦ unruled pack tier rule_id
  | some rule ↦ record (unruled pack tier rule_id) {
    explanation = rule.explanation;
    maximum_application_rate = rule.maximum_application_rate;
    prohibited_actions = rule.prohibited_actions;
  }
]

-- An absent value is not above any threshold.
unfoldable pub at_or_above : Option Rat → Option Rat → Run Bool
at_or_above none threshold = ok false
at_or_above (some value) none = panic
at_or_above (some value) (some threshold) = ok (not (is_lt (cmp value threshold)))

-- `atOrAbove(values["PFOS"], t) || atOrAbove(values["PFOA"], t)`
unfoldable pub any_at_or_above : Option Rat → Option Rat → Option Rat → Run Bool
unfolding at_or_above
any_at_or_above pfos pfoa threshold = do
  first ← at_or_above pfos threshold
  if first then ok true else at_or_above pfoa threshold

-- `parsed.Cmp(elevated) > 0` where the analyte is a non-detect
unfoldable pub limit_too_high : Bool → Rat → Option Rat → Run Bool
limit_too_high false value elevated = ok false
limit_too_high true value none = panic
limit_too_high true value (some elevated) = ok (is_gt (cmp value elevated))

-- The two maps of the loop.
pub record Readings : Type 0 where
  pub values : Text → Option Rat
  pub resolved : Text → Bool

abbrev pub no_readings : Readings
no_readings = record { values = λ k. none; resolved = λ k. false }

-- A reading of `name`; the value of a non-detect is not stored.
unfoldable pub add_reading : Text → Bool → Rat → Readings → Readings
add_reading name non_detect value r = record {
  values = λ k. if text_eq name k && not non_detect then some value else r.values k;
  resolved = λ k. text_eq name k || r.resolved k;
}

abbrev pub pfos : Text
pfos = codes "PFOS"

abbrev pub pfoa : Text
pfoa = codes "PFOA"

-- Is the analyte one that the rules are about?
unfoldable pub is_regulated : Text → Bool
unfolding text_eq
is_regulated name = text_eq name pfos || text_eq name pfoa

abbrev pub reported_value : AnalyteEvidence → Option Text
reported_value a = if a.is_non_detect then a.upper_bound else a.normalized_value

module _ (to_upper : Text → Text) (set_string : Text → Option Rat) where
  abbrev pub normalize : Text → Text
  normalize t = to_upper (trim_space t)

  unfoldable pub decimal : Text → Option Rat
  decimal t = set_string (trim_space t)

  unfoldable pub is_biosolids : Text → Bool
  is_biosolids t =
      let normalized = normalize t in
      text_eq normalized (codes "BIOSOLIDS")
      || text_eq normalized (codes "SEWAGE SLUDGE")
      || text_eq normalized (codes "SLUDGE")

  unfoldable pub is_accepted_method : List Text → Text → Bool
  is_accepted_method tokens t = any (λ token. contains (normalize t) (to_upper token)) tokens

  unfoldable pub is_dry : Text → Bool
  is_dry t = text_eq (normalize t) (codes "DRY")

  -- One round of the loop over the analytes.
  unfoldable pub read_analyte : Option Rat → AnalyteEvidence → Readings → Run Readings
  unfolding decimal limit_too_high is_regulated
  read_analyte elevated a r =
      let name = normalize a.canonical_analyte in
      if not (is_regulated name) then ok r else elim (reported_value a) [
        | none ↦ err (
            blocked
              (name ++ message " needs a dry-weight value or a usable non-detect reporting limit."))
        | some t ↦ elim (decimal t) [
          | none ↦
              err (
                blocked
                  (name ++ message " does not contain a valid non-negative dry-weight value."))
          | some x ↦
              if is_lt (sign x)
              then err (
                  blocked
                    (name ++ message " does not contain a valid non-negative dry-weight value."))
              else (limit_too_high a.is_non_detect x elevated >>= λ too_high.
                  if too_high
                  then err (
                      blocked (
                        name
                        ++ message
                            " is non-detect, but its reporting limit is above the 20 µg/kg threshold."))
                  else ok (add_reading name a.is_non_detect x r))
        ]
      ]

  unfoldable pub read_analytes : Option Rat → List AnalyteEvidence → Readings → Run Readings
  unfolding read_analyte
  read_analytes elevated [] r = ok r
  read_analytes elevated (a ∷ rest) r = do
    r' ← read_analyte elevated a r
    read_analytes elevated rest r'

  -- The tests on the report before its analytes are looked at.
  unfoldable pub check_report : RulePack → ClassificationInput → Run Unit
  check_report pack input =
      if not (str_eq input.jurisdiction pack.jurisdiction)
      then err
          (blocked (message "No active reviewed rule pack matches this facility's jurisdiction."))
      else if not (elim input.matrix [ none ↦ false | some t ↦ is_biosolids t ])
      then err
          (blocked (message "Confirm that the laboratory matrix is biosolids or sewage sludge."))
      else if not (elim input.method [
        | none ↦ false
        | some t ↦ is_accepted_method pack.accepted_method_tokens t
      ])
      then err (
          blocked (
            message
              "Confirm an accepted biosolids PFAS analytical method: EPA 1633, ASTM D7979, or isotope dilution (Method 537 modified)."))
      else if not (elim input.basis [ none ↦ false | some t ↦ is_dry t ])
      then err (blocked (message "Confirmed dry-weight evidence is required for classification."))
      else ok tt

  -- The tier of the readings.
  unfoldable pub classify : RulePack → Option Rat → Option Rat → Readings → Run Evaluation
  unfolding any_at_or_above matched
  classify pack elevated prohibited r =
      if not (r.resolved pfos) || not (r.resolved pfoa)
      then err (blocked (message "Confirmed PFOS and PFOA evidence are both required."))
      else (any_at_or_above (r.values pfos) (r.values pfoa) prohibited >>= λ is_prohibited.
          if is_prohibited
          then ok (matched pack tier_prohibited "MI-PFAS-PROHIBIT-100")
          else (any_at_or_above (r.values pfos) (r.values pfoa) elevated >>= λ is_elevated.
              if is_elevated
              then ok (matched pack tier_elevated "MI-PFAS-ELEVATED-20")
              else ok (matched pack tier_standard "MI-PFAS-STANDARD-BELOW-20")))

  -- `Evaluate`
  unfoldable pub evaluate : RulePack → ClassificationInput → Run Evaluation
  unfolding check_report read_analytes classify
  evaluate pack input = do
    done ← check_report pack input
    let elevated = decimal pack.elevated_threshold
    let prohibited = decimal pack.prohibited_threshold
    r ← read_analytes elevated input.analytes no_readings
    classify pack elevated prohibited r
