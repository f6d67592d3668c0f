-- ===== src/Policy/RulePacks/Valid.antt =====
-- internal/policy/catalog.go: what a rule pack that passed `validateRulePack` guarantees.
use mathlib.Core.Bool.{false≢true}
use pfas_load_control.Base.{
  Bool, true, ◌==◌, Option, some, [], ◌∷◌, List, String, Text, length, str_eq, eq_iff, any, ok,
  >>=-eq-ok, All, Bool-cases, ◌⊎◌, inl, inr, ◌≡◌, ◌≢◌, refl, sym, ◌∙◌, ap, arith,
}
use pfas_load_control.Rat.{Rat}
use pfas_load_control.Policy.Model.{Rule, RulePack}
use pfas_load_control.Policy.Classifier.{find_rule}
use pfas_load_control.Policy.RulePacks.{
  ExpectedRule, expected_rule, check_rule, check_rules, check_thresholds, check_identity,
  check_counts, validate_rule_pack,
}
use pfas_load_control.Policy.RulePacks.Checked.{
  pigeonhole, HasThresholds, IsChecked, AreChecked, check_rules_lem, check_thresholds_lem,
  IsChecked-known,
}

str_eq-true : (s t : String) → str_eq s t ≡ true → s ≡ t
str_eq-true s t h = ground (arith, eq_iff s t)

check_counts_lem :
    (pack : RulePack) {u : Unit} → check_counts pack ≡ ok u → (length pack.rules == 3) ≡ true
unfolding check_counts
check_counts_lem pack e = ground arith

rotate : {A B C : Type 0} → A ⊎ B ⊎ C → B ⊎ C ⊎ A
rotate (inl a) = inr (inr a)
rotate (inr (inl b)) = inl b
rotate (inr (inr c)) = inr (inl c)

module _ (to_upper : Text → Text) (set_string : Text → Option Rat) where
  -- A rule that the classifier finds under an identifier, as the validation expects it there.
  pub record HasRule (pack : RulePack) (id : String) : Type 0 where
    pub rule : Rule
    pub expected : ExpectedRule
    pub found : find_rule pack.rules id ≡ some rule
    pub named : rule.id ≡ id
    pub specified : expected_rule pack id ≡ some expected
    pub checked : check_rule to_upper set_string expected rule ≡ ok tt

  find_rule_lem :
      (pack : RulePack) (id : String) (rules : List Rule)
      → All (IsChecked to_upper set_string pack) rules
      → any (λ (r : Rule). str_eq r.id id) rules ≡ true
      → (r : Rule) × (find_rule rules id ≡ some r)
        × (r.id ≡ id)
        × (IsChecked to_upper set_string pack r)
  unfolding find_rule
  find_rule_lem pack id [] h e = absurd (false≢true e)
  find_rule_lem pack id (r ∷ rs) (h, hs) e = elim (Bool-cases (str_eq r.id id)) [
    | inl same ↦ (r, rw same refl, str_eq-true r.id id same, h)
    | inr other ↦
        let (s, f, n, c) = find_rule_lem pack id rs hs (rw other at e) in (s, rw other f, n, c)
  ]

  -- The three rules of a pack that the loop let through.
  three_rules :
      (pack : RulePack) (x y z : Rule)
      → AreChecked to_upper set_string pack [] (x ∷ y ∷ z ∷ [])
      → (x.id ≢ y.id) × (x.id ≢ z.id) × (y.id ≢ z.id)
  three_rules pack x y z (cx, fx, (cy, fy, (cz, fz, done))) =
      ground (arith, eq_iff x.id y.id, eq_iff y.id z.id, eq_iff x.id z.id)

  -- A list of three rules has one under each identifier.
  find_three :
      (pack : RulePack) (rules : List Rule) (a b c : String)
      → ((r : Rule) → IsChecked to_upper set_string pack r → (r.id ≡ a) ⊎ (r.id ≡ b) ⊎ (r.id ≡ c))
      → (length rules == 3) ≡ true
      → AreChecked to_upper set_string pack [] rules
      → All (IsChecked to_upper set_string pack) rules
        × (any (λ (r : Rule). str_eq r.id a) rules ≡ true)
  find_three pack [] a b c known three h = ground arith
  find_three pack (x ∷ []) a b c known three h = ground arith
  find_three pack (x ∷ y ∷ []) a b c known three h = ground arith
  find_three pack (x ∷ y ∷ z ∷ []) a b c known three (cx, fx, (cy, fy, (cz, fz, done))) =
      let (d1, d2, d3) = three_rules pack x y z (cx, fx, (cy, fy, (cz, fz, done))) in
      let there = pigeonhole x.id y.id z.id a b c (known x cx) (known y cy) (known z cz) d1 d2 d3 in
      ((cx, (cy, (cz, tt))), ground (arith, eq_iff x.id a, eq_iff y.id a, eq_iff z.id a))
  find_three pack (x ∷ y ∷ z ∷ w ∷ rules) a b c known three h = ground arith

  has_rule :
      (pack : RulePack) (a b c : String)
      → ((r : Rule) → IsChecked to_upper set_string pack r → (r.id ≡ a) ⊎ (r.id ≡ b) ⊎ (r.id ≡ c))
      → (length pack.rules == 3) ≡ true
      → AreChecked to_upper set_string pack [] pack.rules
      → HasRule pack a
  has_rule pack a b c known three h =
      let (all, there) = find_three pack pack.rules a b c known three h in
      let (r, f, n, (expected, e, k)) = find_rule_lem pack a pack.rules all there in
      record {
        rule = r;
        expected = expected;
        found = f;
        named = n;
        specified = ap (expected_rule pack) (sym n) ∙ e;
        checked = k;
      }

  -- What the classifier needs of a pack.
  pub record IsValid (pack : RulePack) : Type 0 where
    pub thresholds : HasThresholds to_upper set_string pack
    pub prohibit : HasRule pack "MI-PFAS-PROHIBIT-100"
    pub elevate : HasRule pack "MI-PFAS-ELEVATED-20"
    pub allow : HasRule pack "MI-PFAS-STANDARD-BELOW-20"

  -- A rule pack that passes the validation has two thresholds that parse, the lower one first
  -- and not negative, and under each of the three identifiers that the classifier uses a rule
  -- that the validation checked against what is expected there.
  pub validate_rule_pack-IsValid :
      (parse_url : String → Option (String × String)) (is_date : String → Bool) (pack : RulePack)
      → validate_rule_pack to_upper set_string parse_url is_date pack ≡ ok tt
      → IsValid pack
  unfolding validate_rule_pack
  validate_rule_pack-IsValid parse_url is_date pack e =
      let (u, e1, e2) = >>=-eq-ok (check_identity to_upper set_string parse_url is_date pack) _ e in
      let (v, e3, e4) = >>=-eq-ok (check_thresholds to_upper set_string pack) _ e2 in
      let (n, e5, e6) = >>=-eq-ok (check_counts pack) _ e4 in
      let (w, e8, e9) = >>=-eq-ok (check_rules to_upper set_string pack [] pack.rules) _ e6 in
      let checked = check_rules_lem to_upper set_string pack [] pack.rules e8 in
      let three = check_counts_lem pack e5 in
      record {
        thresholds = check_thresholds_lem to_upper set_string pack e3;
        prohibit = has_rule pack _ _ _ (IsChecked-known to_upper set_string pack) three checked;
        elevate =
            has_rule pack _ _ _ (λ r k. rotate (IsChecked-known to_upper set_string pack r k)) three
              checked;
        allow =
            has_rule pack _ _ _
              (λ r k. rotate (rotate (IsChecked-known to_upper set_string pack r k))) three checked;
      }
