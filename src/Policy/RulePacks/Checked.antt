-- ===== src/Policy/RulePacks/Checked.antt =====
-- internal/policy/catalog.go: what the loops of `validateRulePack` let through.
use pfas_load_control.Base.{
  Bool, true, false, not, Option, some, [], ◌∷◌, List, String, Text, eq_iff, if◌then◌else◌, is_lt,
  ok, err, ◌>>=◌, >>=-eq-ok, ok-injective, Option-cases, ◌⊎◌, inl, inr, ◌≡◌, ◌≢◌, refl, ◌∙◌, ap,
  arith, subst,
}
use pfas_load_control.Rat.{Rat, sign, cmp}
use pfas_load_control.Policy.Model.{Rule, RulePack}
use pfas_load_control.Policy.Classifier.{decimal}
use pfas_load_control.Policy.RulePacks.{
  RulePackError, rule_unknown_or_duplicated, elevated_invalid, elevated_negative,
  prohibited_invalid, prohibited_negative, thresholds_out_of_order, Check, ExpectedRule,
  expected_rule, check_rule, check_rules, check_threshold, check_thresholds, contains_string,
}

pub not-not : (b : Bool) → not b ≡ false → b ≡ true
not-not b h = ground arith

pub err≢ok : {A : Type 0} {v : RulePackError} {a : A} → ◌≡◌ {A = Check A} (err v) (ok a) → ⊥
err≢ok e = cc

-- A test that did not end the run.
pub not_failed :
    {A : Type 0} (b : Bool) (v : RulePackError) (m : Check A) {a : A}
    → (if b then err v else m) ≡ ok a
    → (b ≡ false) × (m ≡ ok a)
not_failed true v m e = absurd (err≢ok e)
not_failed false v m e = (refl, e)

module _ (to_upper : Text → Text) (set_string : Text → Option Rat) where
  check_threshold_lem :
      (v w : RulePackError) (t : Text) {x : Rat}
      → check_threshold to_upper set_string v w t ≡ ok x
      → (decimal to_upper set_string t ≡ some x) × (is_lt (sign x) ≡ false)
  unfolding check_threshold
  check_threshold_lem v w t {x} e = elim (Option-cases (decimal to_upper set_string t)) [
    | inl bad ↦ absurd (err≢ok (rw (check_threshold, bad) at e))
    | inr (y, good) ↦
        let (positive, e1) =
          not_failed (is_lt (sign y)) w (ok y) (rw (check_threshold, good) at e) in
        let same = ok-injective y e1 in
        (good ∙ ap some same, subst (λ z. is_lt (sign z) ≡ false) same positive)
  ]

  -- Two thresholds, the lower one first.
  pub record HasThresholds (pack : RulePack) : Type 0 where
    pub elevated : Rat
    pub prohibited : Rat
    pub elevated_read : decimal to_upper set_string pack.elevated_threshold ≡ some elevated
    pub prohibited_read : decimal to_upper set_string pack.prohibited_threshold ≡ some prohibited
    pub elevated_not_negative : is_lt (sign elevated) ≡ false
    pub in_order : is_lt (cmp elevated prohibited) ≡ true

  pub check_thresholds_lem :
      (pack : RulePack) {u : Unit}
      → check_thresholds to_upper set_string pack ≡ ok u
      → HasThresholds pack
  unfolding check_thresholds
  check_thresholds_lem pack e =
      let (x, e1, e2) =
        >>=-eq-ok
          (check_threshold to_upper set_string elevated_invalid elevated_negative
            pack.elevated_threshold)
          _ e in
      let (y, e3, e4) =
        >>=-eq-ok
          (check_threshold to_upper set_string prohibited_invalid prohibited_negative
            pack.prohibited_threshold)
          _ e2 in
      let (h1, h2) =
        check_threshold_lem elevated_invalid elevated_negative pack.elevated_threshold e1 in
      let (h3, h4) =
        check_threshold_lem prohibited_invalid prohibited_negative pack.prohibited_threshold e3 in
      let (order, e5) = not_failed (not (is_lt (cmp x y))) thresholds_out_of_order (ok tt) e4 in
      record {
        elevated = x;
        prohibited = y;
        elevated_read = h1;
        prohibited_read = h3;
        elevated_not_negative = h2;
        in_order = not-not _ order;
      }

  -- A rule that the loop let through.
  abbrev pub IsChecked : RulePack → Rule → Type 0
  IsChecked pack rule =
      (expected : ExpectedRule) × (expected_rule pack rule.id ≡ some expected)
      × (check_rule to_upper set_string expected rule ≡ ok tt)

  -- The rules are checked, and no two of them have the same identifier.
  abbrev pub AreChecked : RulePack → List String → List Rule → Type 0
  AreChecked pack seen [] = Unit
  AreChecked pack seen (r ∷ rs) =
      IsChecked pack r × (contains_string seen r.id ≡ false) × AreChecked pack (r.id ∷ seen) rs

  pub check_rules_lem :
      (pack : RulePack) (seen : List String) (rules : List Rule) {u : Unit}
      → check_rules to_upper set_string pack seen rules ≡ ok u
      → AreChecked pack seen rules
  unfolding check_rules
  check_rules_lem pack seen [] e = tt
  check_rules_lem pack seen (r ∷ rs) e = elim (Option-cases (expected_rule pack r.id)) [
    | inl unknown ↦ absurd (err≢ok (rw (check_rules, unknown) at e))
    | inr (expected, known) ↦
        let (fresh, e1) =
          not_failed (contains_string seen r.id) (rule_unknown_or_duplicated r.id)
            (check_rule to_upper set_string expected r >>= λ done.
              check_rules to_upper set_string pack (r.id ∷ seen) rs)
            (rw (check_rules, known) at e) in
        let (u, e2, e3) = >>=-eq-ok (check_rule to_upper set_string expected r) _ e1 in
        ((expected, known, e2), fresh, check_rules_lem pack (r.id ∷ seen) rs e3)
  ]

  pub IsChecked-known :
      (pack : RulePack) (r : Rule)
      → IsChecked pack r
      → (r.id ≡ "MI-PFAS-PROHIBIT-100")
        ⊎ (r.id ≡ "MI-PFAS-ELEVATED-20")
        ⊎ (r.id ≡ "MI-PFAS-STANDARD-BELOW-20")
  unfolding expected_rule
  IsChecked-known pack r (expected, known, e) = ground (
    arith,
    eq_iff r.id "MI-PFAS-PROHIBIT-100",
    eq_iff r.id "MI-PFAS-ELEVATED-20",
    eq_iff r.id "MI-PFAS-STANDARD-BELOW-20",
  )

-- Three different names of three: each of the three is there.
pub pigeonhole :
    (x y z a b c : String)
    → (x ≡ a) ⊎ (x ≡ b) ⊎ (x ≡ c)
    → (y ≡ a) ⊎ (y ≡ b) ⊎ (y ≡ c)
    → (z ≡ a) ⊎ (z ≡ b) ⊎ (z ≡ c)
    → x ≢ y
    → x ≢ z
    → y ≢ z
    → (x ≡ a) ⊎ (y ≡ a) ⊎ (z ≡ a)
pigeonhole x y z a b c hx hy hz d1 d2 d3 = ground arith
