-- ===== src/Tests/Policies.antt =====
-- The Michigan rule pack of internal/policy/rules/mi-2024.4.json, and reports that it classifies.
use pfas_load_control.Base.{
  ◌≡◌, refl, Bool, true, false, Option, none, some, [], ◌∷◌, String, codes, trim_space, text_eq,
  contains, ok, err, Result,
}
use pfas_load_control.Rat.{Rat, new_rat, sign, cmp}
use pfas_load_control.Numeral.{scan}
use pfas_load_control.Policy.Model.{RulePack, ClassificationInput, Evaluation}
use pfas_load_control.Policy.Classifier.{
  Run, evaluate, blocked, decimal, is_biosolids, is_accepted_method, is_dry, add_reading, matched,
  unruled,
}
use pfas_load_control.Policy.Classifier.Tiers.{IsClassified, evaluate-IsClassified}
use pfas_load_control.Policy.Classifier.Total.{Returns, evaluate-Returns}
use pfas_load_control.Policy.RulePacks.{validate_rule_pack}
use pfas_load_control.Policy.RulePacks.Valid.{IsValid, validate_rule_pack-IsValid}
use pfas_load_control.Policy.RulePacks.Effects.{HasEffects, evaluate-HasEffects}
use pfas_load_control.Tests.Standard.{read, to_upper}

abbrev michigan : RulePack
michigan = record {
  schema_version = 1;
  code = "MI-PFAS-BIOSOLIDS";
  version = "2024.4";
  jurisdiction = "MI";
  authority_type = "INTERIM_POLICY";
  effective_from = "2024-01-01";
  source_url = "https://www.michigan.gov/egle";
  source_title = "Interim strategy requirements";
  retrieved_at = 1;
  reviewed_at = 1;
  reviewed_by = "implementation-source-review-2026-08-06";
  review_status = "ACTIVE";
  explanation = codes "classification";
  elevated_threshold = codes "20";
  prohibited_threshold = codes "100";
  accepted_method_tokens = codes "1633" ∷ codes "D7979" ∷ [];
  rules =
      record {
        id = "MI-PFAS-PROHIBIT-100";
        tier = "PROHIBITED";
        operator = "ANY_GTE";
        threshold_ug_kg_dry = codes "100";
        maximum_application_rate = none;
        prohibited_actions = "LAND_APPLICATION" ∷ [];
        explanation = codes "prohibited";
      }
      ∷ record {
        id = "MI-PFAS-ELEVATED-20";
        tier = "ELEVATED";
        operator = "ANY_GTE";
        threshold_ug_kg_dry = codes "20";
        maximum_application_rate = some (codes "1.5");
        prohibited_actions = [];
        explanation = codes "elevated";
      }
      ∷ record {
        id = "MI-PFAS-STANDARD-BELOW-20";
        tier = "STANDARD";
        operator = "ALL_LT";
        threshold_ug_kg_dry = codes "20";
        maximum_application_rate = none;
        prohibited_actions = [];
        explanation = codes "standard";
      }
      ∷ [];
  requirements =
      record {
        id = codes "MI-PFAS-WRD-NOTIFICATION";
        tiers = "PROHIBITED" ∷ [];
        title = codes "Notify the WRD Biosolids Program";
        detail = codes "Notify staff.";
        timing = codes "Immediate";
      }
      ∷ [];
  checksum = "";
}

abbrev parse_url : String → Option (String × String)
parse_url url = some ("https", "www.michigan.gov")

abbrev is_date : String → Bool
is_date s = true

michigan-IsChecked : validate_rule_pack to_upper read parse_url is_date michigan ≡ ok tt
unfolding validate_rule_pack decimal read scan trim_space sign cmp text_eq
michigan-IsChecked = refl

-- PFOS detected at 45.5, PFOA not detected with a limit of 2.
abbrev report : ClassificationInput
report = record {
  jurisdiction = "MI";
  matrix = some (codes " biosolids");
  method = some (codes "EPA 1633");
  basis = some (codes "dry");
  analytes =
      record {
        canonical_analyte = codes "PFOS";
        result_text = codes "45.5";
        is_non_detect = false;
        normalized_value = some (codes "45.5");
        upper_bound = none;
        source_page = 1;
      }
      ∷ record {
        canonical_analyte = codes "pfoa";
        result_text = codes "<2";
        is_non_detect = true;
        normalized_value = none;
        upper_bound = some (codes "2");
        source_page = 1;
      }
      ∷ [];
}

abbrev evaluation_of : Run Evaluation → Evaluation
evaluation_of (ok ev) = ev
evaluation_of (err ev) = ev
evaluation_of Result.panic = blocked []

abbrev elevated_report : Evaluation
elevated_report = evaluation_of (evaluate to_upper read michigan report)

report_run : evaluate to_upper read michigan report ≡ ok elevated_report
unfolding evaluate is_biosolids trim_space is_accepted_method contains is_dry decimal read scan sign
    cmp add_reading text_eq
report_run = refl

elevated_report_tier : elevated_report.tier ≡ "ELEVATED"
unfolding evaluate is_biosolids trim_space is_accepted_method contains is_dry decimal read scan sign
    cmp add_reading text_eq matched unruled
elevated_report_tier = refl

abbrev twenty : Rat
twenty = new_rat 20 1

abbrev hundred : Rat
hundred = new_rat 100 1

lower_read : decimal to_upper read michigan.elevated_threshold ≡ some twenty
unfolding decimal read scan trim_space
lower_read = refl

upper_read : decimal to_upper read michigan.prohibited_threshold ≡ some hundred
unfolding decimal read scan trim_space
upper_read = refl

evaluate-IsClassified_example :
    IsClassified to_upper read michigan twenty hundred report elevated_report
evaluate-IsClassified_example =
    evaluate-IsClassified to_upper read michigan report twenty hundred lower_read upper_read
      report_run

evaluate-Returns_example : Returns (evaluate to_upper read michigan report)
evaluate-Returns_example =
    evaluate-Returns to_upper read michigan report twenty hundred lower_read upper_read

validate_rule_pack-IsValid_example : IsValid to_upper read michigan
validate_rule_pack-IsValid_example =
    validate_rule_pack-IsValid to_upper read parse_url is_date michigan michigan-IsChecked

evaluate-HasEffects_example :
    Returns (evaluate to_upper read michigan report)
    × ((ev : Evaluation)
        → evaluate to_upper read michigan report ≡ ok ev
        → HasEffects to_upper read michigan ev)
evaluate-HasEffects_example =
    evaluate-HasEffects to_upper read michigan parse_url is_date report michigan-IsChecked
