-- ===== src/Placement/Engine/Conservation.antt =====
-- internal/placement/engine.go, `EvaluateWithEvidenceAndPolicy`: what a plan says of the batch.
use Prim.Native.Nat.{min}
use pfas_load_control.Base.{
  ℕ, ◌+◌, ◌-◌, ◌≡◌, sym, ◌∙◌, ap, true, false, not, [], List, map, is_gt, is_le, ok, >>=-eq-ok,
  ok-injective, arith, subst, leb, Text, ◌==◌, if◌then◌else◌, str_eq,
}
use pfas_load_control.Rat.{Rat, sign, zero_rat, micro}
use pfas_load_control.Rat.Micro.{IsMicro, zero_rat-IsMicro, sign-IsMicro}
use pfas_load_control.Placement.Decimal.{decimal, dry_tons, format_rat, micro_text}
use pfas_load_control.Placement.Decimal.RoundTrip.{format_rat-micro, format_rat-IsMicro}
use pfas_load_control.Placement.Model.{
  Status, ready, insufficient_capacity, Input, PlacementField, PlacementAllocation, PlacementPlan,
}
use pfas_load_control.Placement.Model.Resolution.{Time}
use pfas_load_control.Placement.Facts.{Library}
use pfas_load_control.Placement.Field.{Verifier}
use pfas_load_control.Placement.Allocate.{Ledger, allocate}
use pfas_load_control.Placement.Allocate.Greedy.{
  gifts, total_offer, sum, sum-gifts, entries_of, tons-entries_of,
}
use pfas_load_control.Placement.Allocate.Micro.{allocate_lem, decimal-micro_text}
use pfas_load_control.Placement.Engine.{
  ranked_fields, settle, blank_plan, quantified_plan, evaluate, has_review, has_quantity,
}
use pfas_load_control.Placement.Engine.Batch.{dry_tons_lem}
use pfas_load_control.Placement.Engine.Priced.{ranked_fields-IsPriced}

abbrev pub tons_of : List PlacementAllocation → List Text
tons_of = map (λ (x : PlacementAllocation). x.dry_tons)

-- The status that goes with a batch, the capacity of the eligible fields and the fields.
abbrev pub settled_status : ℕ → ℕ → List PlacementField → Status
settled_status batch offered fields =
    if leb batch offered
    then ready
    else if has_review fields
    then Status.review_required
    else insufficient_capacity

-- A positive sign is a number of millionths that is not zero.
gt_not_le : (x : Rat) → is_gt (sign x) ≡ not (is_le (sign x))
unfolding sign
gt_not_le x = ground arith

left-zero : (u t : ℕ) → (u - t == 0) ≡ leb u t
left-zero u t = ground arith

remaining_sign : (x : Rat) (u t : ℕ) → IsMicro x (u - t) → is_gt (sign x) ≡ not (leb u t)
remaining_sign x u t h = gt_not_le x ∙ ap not (sign-IsMicro x (u - t) h ∙ left-zero u t)

-- What `settle` writes, given how much is left.
module _ (plan : PlacementPlan) (fields : List PlacementField) (l : Ledger) (u t : ℕ) where
  settle_lem :
      is_gt (sign l.remaining) ≡ not (leb u t)
      → ((settle plan fields l).status ≡ settled_status u t fields)
        × ((settle plan fields l).fields ≡ fields)
        × ((settle plan fields l).allocations ≡ l.allocations)
        × ((settle plan fields l).allocated_dry_tons ≡ format_rat l.allocated)
        × ((settle plan fields l).unallocated_dry_tons ≡ format_rat l.remaining)
        × ((settle plan fields l).batch_dry_tons ≡ plan.batch_dry_tons)
  unfolding settle
  settle_lem h = rw h (ground arith)

module _ (lib : Library) (verify : Verifier) (now : Time) where
  -- The books of a plan, in whole millionths of a dry ton: the printed batch, what is allocated of
  -- it to whom, what is left, and the status.
  pub record IsAccounted (input : Input) (plan : PlacementPlan) : Type 0 where
    pub tons : Rat
    pub computed : dry_tons lib.set_string input.wet_mass_kg input.percent_solids ≡ ok tons
    pub evaluated : ranked_fields lib verify now input ≡ ok plan.fields
    pub batch_text : plan.batch_dry_tons ≡ micro_text (micro tons)
    pub allocated_text :
        plan.allocated_dry_tons
        ≡ micro_text (min (micro tons) (total_offer lib.set_string plan.fields))
    pub unallocated_text :
        plan.unallocated_dry_tons ≡ micro_text (micro tons - total_offer lib.set_string plan.fields)
    pub entries : plan.allocations ≡ entries_of lib.set_string 1 (micro tons) plan.fields
    pub entries_tons :
        tons_of plan.allocations ≡ map micro_text (gifts lib.set_string (micro tons) plan.fields)
    pub entries_total :
        sum (gifts lib.set_string (micro tons) plan.fields)
        ≡ min (micro tons) (total_offer lib.set_string plan.fields)
    pub settled :
        plan.status
        ≡ settled_status (micro tons) (total_offer lib.set_string plan.fields) plan.fields

  module _ (input : Input) where
    settled-IsAccounted :
        (tons batch : Rat) (fields : List PlacementField) (l : Ledger)
        → dry_tons lib.set_string input.wet_mass_kg input.percent_solids ≡ ok tons
        → decimal lib.set_string (format_rat tons) ≡ ok batch
        → ranked_fields lib verify now input ≡ ok fields
        → allocate lib.set_string fields
            (record { remaining = batch; allocated = zero_rat; allocations = [] })
          ≡ ok l
        → IsAccounted input (
            settle
              (record (blank_plan lib input ready) { batch_dry_tons = format_rat tons })
              fields
              l)
    settled-IsAccounted tons batch fields l et eb ef el =
        let printed = format_rat-micro tons (dry_tons_lem lib _ _ et).positive.0 in
        let (x, dx, mx) = decimal-micro_text lib (micro tons) in
        let hb : IsMicro batch (micro tons) =
          subst (λ b. IsMicro b (micro tons))
            (ok-injective x (sym dx ∙ ap (decimal lib.set_string) (sym printed) ∙ eb)) mx in
        let (ledger, entries) =
          allocate_lem lib fields
            (record { remaining = batch; allocated = zero_rat; allocations = [] }) (micro tons) 0
            (ranked_fields-IsPriced lib verify now input ef)
            (record { remaining = hb; allocated = zero_rat-IsMicro }) el in
        let u = micro tons in
        let t = total_offer lib.set_string fields in
        let zero_plus : 0 + min u t ≡ min u t = omega arith in
        let (s, f, a, g, r, b) =
          settle_lem (record (blank_plan lib input ready) { batch_dry_tons = format_rat tons })
            fields l u t (remaining_sign l.remaining u t ledger.remaining) in
        record {
          tons = tons;
          computed = et;
          evaluated = ef ∙ ap ok (sym f);
          batch_text = b ∙ printed;
          allocated_text =
              g
              ∙ format_rat-IsMicro l.allocated (min u t)
                  (subst (IsMicro l.allocated) zero_plus ledger.allocated)
              ∙ ap (λ fs. micro_text (min u (total_offer lib.set_string fs))) (sym f);
          unallocated_text =
              r
              ∙ format_rat-IsMicro l.remaining (u - t) ledger.remaining
              ∙ ap (λ fs. micro_text (u - total_offer lib.set_string fs)) (sym f);
          entries = a ∙ entries ∙ ap (λ fs. entries_of lib.set_string 1 u fs) (sym f);
          entries_tons =
              ap tons_of (a ∙ entries)
              ∙ tons-entries_of lib.set_string 1 u fields
              ∙ ap (λ fs. map micro_text (gifts lib.set_string u fs)) (sym f);
          entries_total = sum-gifts lib.set_string u _;
          settled = s ∙ ap (λ fs. settled_status u (total_offer lib.set_string fs) fs) (sym f);
        }

    quantified_plan-IsAccounted :
        {plan : PlacementPlan}
        → quantified_plan lib verify now input ≡ ok plan
        → IsAccounted input plan
    unfolding quantified_plan
    quantified_plan-IsAccounted {plan} e =
        let (tons, et, e1) =
          >>=-eq-ok (dry_tons lib.set_string input.wet_mass_kg input.percent_solids) _ e in
        let (batch, eb, e2) = >>=-eq-ok (decimal lib.set_string (format_rat tons)) _ e1 in
        let (fields, ef, e3) = >>=-eq-ok (ranked_fields lib verify now input) _ e2 in
        let (l, el, e4) =
          >>=-eq-ok
            (allocate lib.set_string fields
              (record { remaining = batch; allocated = zero_rat; allocations = [] }))
            _ e3 in
        subst (IsAccounted input) (ok-injective plan e4)
          (settled-IsAccounted tons batch fields l et eb ef el)

    -- When the tier is not PROHIBITED and the mass and the solids of the batch are given, a plan
    -- that the engine returns accounts for the batch to the millionth of a dry ton: the printed
    -- tonnage is the sum of the printed allocated and unallocated tons; each eligible field, in
    -- the order of the ranking, is given what is left up to its printed capacity; the
    -- allocations are one entry for each field that is given something, numbered from 1, with
    -- the identifier, the name and the rate of the field, its tons, and the acres, which are its
    -- tons by its printed rate to the millionth; what is allocated in all is the smaller of the
    -- batch and the capacity of the eligible fields; and the plan is ready exactly when all of
    -- the batch is allocated, and otherwise asks for a review if a field does, or reports
    -- insufficient capacity.
    pub evaluate-IsAccounted :
        {plan : PlacementPlan}
        → str_eq input.tier "PROHIBITED" ≡ false
        → has_quantity input ≡ true
        → evaluate lib verify now input ≡ ok plan
        → IsAccounted input plan
    unfolding evaluate
    evaluate-IsAccounted tier given e = quantified_plan-IsAccounted (rw (tier, given) at e)
