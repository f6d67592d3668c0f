-- ===== src/Placement/Allocate.antt =====
-- internal/placement/engine.go, the loop of `EvaluateWithEvidenceAndPolicy` that gives the batch to
-- the ranked fields.
pub mod Ledgers
pub mod Micro
pub mod Greedy
pub mod Total
use pfas_load_control.Base.{
  ℕ, ◌+◌, Bool, true, false, not, ◌&&◌, ◌||◌, Option, none, some, [], ◌∷◌, ◌++◌, List, Text,
  is_empty, length, if◌then◌else◌, is_le, ◌>>=◌, ok,
}
use pfas_load_control.Rat.{Rat, sign, add, sub, quo}
use pfas_load_control.Placement.Decimal.{Outcome, decimal, format_rat, min_rat}
use pfas_load_control.Placement.Model.{PlacementField, PlacementAllocation}
use pfas_load_control.Placement.Field.{is_eligible}

-- The variables of the loop.
pub record Ledger : Type 0 where
  pub remaining : Rat
  pub allocated : Rat
  pub allocations : List PlacementAllocation

-- Is the field passed over?
unfoldable pub skips : PlacementField → Rat → Bool
skips f remaining =
    not (is_eligible f.disposition)
    || is_empty f.available_capacity
    || is_empty f.allowed_rate
    || is_le (sign remaining)

-- The ledger with an entry of `amount` on `acres` acres.
unfoldable pub enter : PlacementField → Rat → Rat → Ledger → Ledger
enter f amount acres l = record {
  remaining = sub l.remaining amount;
  allocated = add l.allocated amount;
  allocations =
      l.allocations
      ++ record {
        position = length l.allocations + 1;
        field_id = f.field_id;
        field_name = f.field_name;
        dry_tons = format_rat amount;
        acres = format_rat acres;
        rate = f.allowed_rate;
      }
        ∷ [];
}

-- The division panics where the rate was printed as zero.
unfoldable pub give : PlacementField → Rat → Rat → Ledger → Outcome Ledger
unfolding enter
give f amount rate l = do acres ← quo amount rate; ok (enter f amount acres l)

-- `big.Rat.SetString` is the parameter.
module _ (set_string : Text → Option Rat) where
  unfoldable pub allocate_field : PlacementField → Ledger → Outcome Ledger
  unfolding skips give
  allocate_field f l =
      if skips f l.remaining
      then ok l
      else (decimal set_string f.available_capacity >>= λ capacity.
          decimal set_string f.allowed_rate >>= λ rate.
          let amount = min_rat l.remaining capacity in
          if is_le (sign amount) then ok l else give f amount rate l)

  unfoldable pub allocate : List PlacementField → Ledger → Outcome Ledger
  unfolding allocate_field
  allocate [] l = ok l
  allocate (f ∷ fs) l = do l' ← allocate_field f l; allocate fs l'
