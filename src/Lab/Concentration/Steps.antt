-- ===== src/Lab/Concentration/Steps.antt =====
-- internal/lab/decimal.go, `normalizeConcentration`: the steps of a run that normalizes.
use pfas_load_control.Base.{
  ℕ, true, false, not, ◌&&◌, ◌||◌, ◌≡◌, ◌∙◌, sym, ap, subst, ◌⊎◌, inl, inr, Bool-cases,
  Option-cases, Option, none, some, String, str_eq, Text, is_empty, trim_space, is_le, is_gt, ok,
  >>=-eq-ok, ok-injective, some-injective, forbid, forbid_ok, &&-eq-true, not-true,
}
use pfas_load_control.Rat.{Rat, new_rat, sign, cmp, mul, quo}
use pfas_load_control.Lab.Decimal.{Outcome, invalid_solids}
use pfas_load_control.Lab.Concentration.{
  print_concentration, unit_factor, blank, text_or, decimal_rat, read_solids, dry_amount,
  normalize_concentration,
}

module _ (memory : ℕ) (set_string : Text → Option Rat) where
  -- A concentration on wet weight is divided by the share of solids.
  pub record IsDivided (percent_solids : Option Text) (amount dry : Rat) : Type 0 where
    pub solids : Rat
    pub given : blank percent_solids ≡ false
    pub read : decimal_rat memory set_string (text_or percent_solids) ≡ ok solids
    pub in_range : (is_le (sign solids) || is_gt (cmp solids (new_rat 100 1))) ≡ false
    pub divided : ◌≡◌ {A = Outcome Rat} (quo (mul amount (new_rat 100 1)) solids) (ok dry)

  pub record IsRun (t : Text) (unit basis : String) (percent_solids : Option Text) (printed : Text)
      : Type 0 where
    pub amount : Rat
    pub factor : Rat
    pub dry : Rat
    pub read : decimal_rat memory set_string t ≡ ok amount
    pub by_mass : unit_factor unit ≡ some factor
    pub on_basis :
        ((str_eq basis "DRY" ≡ true) × (dry ≡ mul amount factor))
        ⊎ ((str_eq basis "WET" ≡ true) × IsDivided percent_solids (mul amount factor) dry)
    pub printed_dry : printed ≡ print_concentration dry

  none-ne-some : {y : Rat} → ◌≡◌ {A = Outcome (Option Rat)} (ok none) (ok (some y)) → ⊥
  none-ne-some p = cc

  dry_amount_lem :
      (amount : Rat) (basis : String) (percent_solids : Option Text) {dry : Rat}
      → dry_amount memory set_string amount basis percent_solids ≡ ok (some dry)
      → ((str_eq basis "DRY" ≡ true) × (dry ≡ amount))
        ⊎ ((str_eq basis "WET" ≡ true) × IsDivided percent_solids amount dry)
  unfolding dry_amount read_solids
  dry_amount_lem amount basis percent_solids {dry} e = elim (Bool-cases (str_eq basis "DRY")) [
    | inl d ↦ inl (d, sym (some-injective (ok-injective (some dry) (rw (dry_amount, d) at e))))
    | inr no_dry ↦ elim (Bool-cases (str_eq basis "WET" && not (blank percent_solids))) [
      | inl w ↦
          let (is_wet, filled) = &&-eq-true (str_eq basis "WET") (not (blank percent_solids)) w in
          let (solids, e1, e2) =
            >>=-eq-ok (read_solids memory set_string (text_or percent_solids)) _
              (rw (dry_amount, no_dry, w) at e) in
          let (y, e3, e4) = >>=-eq-ok (quo (mul amount (new_rat 100 1)) solids) _ e2 in
          let (x, e5, e6) =
            >>=-eq-ok (decimal_rat memory set_string (text_or percent_solids)) _ e1 in
          let (u, e7, e8) =
            >>=-eq-ok (forbid (is_le (sign x) || is_gt (cmp x (new_rat 100 1))) invalid_solids) _
              e6 in
          let same : x ≡ solids = ok-injective solids e8 in
          inr (
            is_wet,
            record {
              solids = solids;
              given = not-true _ filled;
              read = e5 ∙ ap ok same;
              in_range =
                  subst (λ (z : Rat). (is_le (sign z) || is_gt (cmp z (new_rat 100 1))) ≡ false)
                    same (forbid_ok _ _ e7);
              divided = e3 ∙ ap ok (some-injective (ok-injective (some dry) e4));
            },
          )
      | inr neither ↦ absurd (none-ne-some (rw (dry_amount, no_dry, neither) at e))
    ]
  ]

  pub normalize_concentration-IsRun :
      (t : Text) (unit basis : String) (percent_solids : Option Text) {printed : Text}
      → normalize_concentration memory set_string t unit basis percent_solids ≡ ok (some printed)
      → IsRun t unit basis percent_solids printed
  unfolding normalize_concentration
  normalize_concentration-IsRun t unit basis percent_solids {printed} e =
      elim (Bool-cases (is_empty (trim_space t))) [
        | inl missing ↦ absurd (missing-ne (rw (normalize_concentration, missing) at e))
        | inr present ↦
            let (amount, e1, e2) =
              >>=-eq-ok (decimal_rat memory set_string t) _
                (rw (normalize_concentration, present) at e) in
            elim (Option-cases (unit_factor unit)) [
              | inl unknown ↦ absurd (missing-ne (rw unknown at e2))
              | inr (factor, known) ↦
                  let (out, e3, e4) =
                    >>=-eq-ok
                      (dry_amount memory set_string (mul amount factor) basis percent_solids) _
                      (rw known at e2) in
                  elim (Option-cases out) [
                    | inl no_dry ↦ absurd (missing-ne (rw no_dry at e4))
                    | inr (dry, some_dry) ↦ record {
                      amount = amount;
                      factor = factor;
                      dry = dry;
                      read = e1;
                      by_mass = known;
                      on_basis =
                          dry_amount_lem (mul amount factor) basis percent_solids
                            (e3 ∙ ap ok some_dry);
                      printed_dry =
                          sym (some-injective (ok-injective (some printed) (rw some_dry at e4)));
                    }
                  ]
            ]
      ]
    where
      missing-ne : ◌≡◌ {A = Outcome (Option Text)} (ok none) (ok (some printed)) → ⊥
      missing-ne p = cc
