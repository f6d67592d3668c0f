-- ===== src/Tests/Rankings.antt =====
-- Two fields that are ranked and given a batch.
use Prim.Native.Nat.{min}
use pfas_load_control.Base.{
  ◌+◌, ◌-◌, ◌≡◌, refl, none, [], ◌∷◌, ◌++◌, List, trim_right, trim_space, text_eq, All, Ordered, ok,
  Result, inl, inr, arith,
}
use pfas_load_control.Rat.{new_rat, zero_rat, sign, cmp, quo}
use pfas_load_control.Numeral.{scan, fixed}
use pfas_load_control.Placement.Decimal.{micro_text, tidy, decimal, min_rat, Outcome}
use pfas_load_control.Placement.Model.{Disposition, PlacementField}
use pfas_load_control.Placement.Rank.{rank_fields}
use pfas_load_control.Placement.Rank.Order.{NotAfter, rank_fields-Ordered}
use pfas_load_control.Placement.Allocate.{Ledger, allocate}
use pfas_load_control.Placement.Allocate.Greedy.{total_offer, entries_of}
use pfas_load_control.Placement.Allocate.Ledgers.{IsLedger}
use pfas_load_control.Placement.Allocate.Micro.{IsPriced, allocate_lem}
use pfas_load_control.Placement.Allocate.Total.{IsRated, allocate_returns, allocate_panics}
use pfas_load_control.Tests.Standard.{read, library}

abbrev blank : PlacementField
blank = record {
  field_id = "blank";
  field_name = "Blank";
  disposition = Disposition.ineligible;
  rank = none;
  explanation = [];
  counterfactual = "";
  high_concern_count = 0;
  moderate_concern_count = 0;
  data_gap_count = 0;
  allowed_rate = [];
  available_capacity = [];
  road_access_distance_m = none;
  physical_evaluation_id = "";
  slope_resolution = none;
  reasons = [];
  categories = [];
}

-- Fourteen tons at one and a half tons an acre.
abbrev ample : PlacementField
ample = record blank {
  field_id = "ample";
  disposition = Disposition.eligible;
  allowed_rate = micro_text 1500000;
  available_capacity = micro_text 14000000;
}

abbrev fields : List PlacementField
fields = blank ∷ ample ∷ []

fields-IsPriced : All IsPriced fields
fields-IsPriced = (inl refl, (inr (14000000, 1500000, refl, refl), tt))

rank_fields-Ordered_example : Ordered (NotAfter library) (rank_fields read fields)
rank_fields-Ordered_example = rank_fields-Ordered library fields fields-IsPriced

abbrev start : Ledger
start = record { remaining = new_rat 20 1; allocated = zero_rat; allocations = [] }

start-IsLedger : IsLedger start 20000000 0
start-IsLedger = record {
  remaining = (refl, refl, omega arith);
  allocated = (refl, refl, omega arith);
}

abbrev ledger_of : Outcome Ledger → Ledger
ledger_of (ok l) = l
ledger_of _ = start

abbrev given : Ledger
given = ledger_of (allocate read fields start)

given_run : allocate read fields start ≡ ok given
unfolding allocate micro_text tidy trim_right fixed text_eq sign decimal read scan trim_space
    min_rat cmp quo
given_run = refl

allocate_lem_example :
    IsLedger given (20000000 - total_offer read fields) (0 + min 20000000 (total_offer read fields))
    × (given.allocations ≡ [] ++ entries_of read 1 20000000 fields)
allocate_lem_example =
    allocate_lem library fields start 20000000 0 fields-IsPriced start-IsLedger given_run

fields-IsRated : All IsRated fields
fields-IsRated = (inl refl, (inr (14000000, 1500000, refl, refl, omega arith), tt))

allocate_returns_example : (l : Ledger) × (allocate read fields start ≡ ok l)
allocate_returns_example = allocate_returns library fields start fields-IsRated

-- A capacity of four millionths at a rate that is printed as zero.
abbrev tiny : PlacementField
tiny = record ample { allowed_rate = micro_text 0; available_capacity = micro_text 4 }

allocate_panics_example : allocate read (tiny ∷ []) start ≡ Result.panic
allocate_panics_example =
    allocate_panics library tiny [] start 20000000 0 4 start-IsLedger refl refl refl (omega arith)
      (omega arith)
