-- ===== src/Lib.antt =====
-- PFAS load control: a verification library for the Go program of this repository.
--
-- The program classifies a batch of biosolids by its PFAS results, plans on which fields it may be
-- spread, and controls the actions that follow. These parts of it are modelled here.
--
-- The policy part (internal/policy) holds rule packs. A pack is validated when it is loaded
-- (`validateRulePack` of catalog.go), and `Evaluate` of classifier.go gives a laboratory report a tier
-- by the thresholds of the pack, or the undetermined tier with a reason. The tier and the maximum rate
-- of the decision are what the placement part starts from.
--
-- The placement part (internal/placement) is the engine `EvaluateWithEvidenceAndPolicy` of engine.go.
-- It computes the dry tonnage of the batch as an exact fraction, evaluates every field (gates, rate,
-- capacity, five vulnerability categories), ranks the fields, gives the batch to the eligible ones in
-- the order of the ranking, and settles the status of the plan. Numbers pass between these steps as
-- decimal texts with at most six places, so the model prints and reads them back as the code does.
--
-- The action center (internal/actioncenter) keeps the proposed actions of a frozen decision package as
-- rows that a reviewer edits, approves or rejects, and executes: a ready placement plan is released
-- for scheduling, any other action becomes an operator handoff. It reads the tier and the status of
-- the plan that the other two parts have produced.
--
-- Physical evidence (internal/evidence) is sampled at points of a field and aggregated, one fact for each
-- entry of a catalog; the facts are what the placement of a batch reads.
--
-- A decision package (internal/decisionpackage) freezes a decision, its laboratory report, its
-- placement plan and its response plan for a review, with the gaps that are left and the actions that
-- follow, which the action center takes over.
--
-- The coordination part (internal/coordination) has a delivery confirmed by the farmer, the
-- contractor and the plant, in this order: a workflow with a step for each, over the tables of
-- db/migrations/00015_module_09_10_11_12.sql.
--
-- Files:
-- - Base: lists, texts, Boolean tests and `Result`, Go's value-or-error pair with a constructor for a
--   run-time panic.
-- - Rat, Numeral: `math/big.Rat` (sign, magnitude, denominator; not reduced, which no operation that
--   the program calls can tell) and its `FloatString(6)`. Rat.Micro and Rat.Rounding treat fractions
--   that are whole numbers of millionths, Numeral.Digits, .Trim and .Scan the digits of the texts.
-- - Placement.Model, .Decimal, .Facts, .Categories, .Field, .Rank, .Allocate, .Engine:
--   internal/placement/model.go and engine.go, a module for each group of functions, with its lemmas
--   in child modules. A function of the source keeps its name in snake case (`evaluateField` is
--   `evaluate_field`); the loops and guards inside a long function are functions of their own.
-- - Policy.Model, .Classifier, .RulePacks: internal/policy/model.go, classifier.go, and
--   `validateRulePack` and `ruleEffects` of catalog.go and service.go.
-- - ActionCenter.Model, .Payloads, .Store, .Decide, .Execute: internal/actioncenter/model.go and
--   service.go, over a store that holds the tables of db/migrations/00014_module_08.sql and answers the
--   queries of db/queries/actions.sql. A database transaction is one step of the store.
-- - Packages.Model, .Gaps, .Actions: internal/decisionpackage/build.go, the snapshot that is frozen for
--   a review, its gaps, the actions that are proposed from it and its status, with the records of the
--   other packages as far as it reads them.
-- - Workspace: internal/workspace/key.go and the identifiers and instants of the services.
-- - Coordination.Model, .Store, .Steps, .Documents: internal/coordination/service.go. An operation
--   takes the store and returns the new one beside its result, since the workspace of a new key stays
--   when the transaction is rolled back. Coordination.Invariant says what a reached store is like, and
--   Coordination.Progress what the next party can do.
-- - Lab.Decimal, Lab.Concentration: internal/lab/decimal.go. `big.Rat.SetString` is a parameter, with the
--   law that it reads decimal notation as the number that it stands for. The memory that strings.Repeat can get is
--   a parameter, above which it panics; the scale is a 64-bit int that can wrap round.
-- - Evidence.Model, Evidence.Aggregation: internal/evidence/aggregation.go, the samples of a field
--   aggregated by the method of the catalog.
-- - Fields.Model, Fields.Readiness: `syncFieldState` of internal/field/service.go, over the tables of
--   db/migrations/00006_module_03.sql and the queries of db/queries/fields.sql. Fields.Geometry:
--   `validateCoordinates` of internal/field/geometry.go.
-- - Tests: concrete inputs on which the definitions are run and the theorems applied.
--
-- Bounds: the texts, counts and fractions are unbounded, as the decimals of the program are; `int`
-- counters cannot overflow on lists that fit in memory. Every loop is structural recursion on the list
-- that it walks, so no fuel is used but in the printing of a number, which has a step for each unit of
-- the number and needs one for each digit.
--
-- Parameters: the record `Library` of Placement.Facts holds what the engine takes of Go's standard
-- library (JSON decoding, lower case, float products and the arc tangent, SHA-256 and
-- `big.Rat.SetString`). The laws of `SetString` are its documented effect on decimal notation: what
-- the engine prints reads back as the number that it stands for, and results are normalized. The
-- verification of a slope resolution is a parameter of the evaluation of a field. The record `Json` of
-- Evidence.Model holds what the aggregation takes of `encoding/json` and of float arithmetic, with the
-- law that a JSON number that is read is not NaN. The action center
-- takes the hash of a workspace key, the parsing of a UUID, the hash of a payload and the package
-- service as arguments of its operations, and new UUIDs and the time with each call. `float64` values
-- are their IEEE 754 bits, compared as the standard says.
--
-- A departure: `decimalOrZero` returns no number for a text that does not parse, and the comparison of
-- the ranking would panic on it, where `decimal_or_zero` gives zero. The engine ranks only capacities
-- that are empty or that it has printed itself, where the two do the same. `sort.SliceStable` is
-- written as a stable insertion sort.
--
-- Not modelled: the database driver and the HTTP layer, the evidence ledger and the rendering of
-- decision packages, the creation of actions and the download of handoffs, the parsing of laboratory
-- files, the decoding of boundaries, the Mireye client and the web interface. The manifest lists them
-- part by part.
pub mod Base
pub mod Rat
pub mod Numeral
pub mod Placement
pub mod Policy
pub mod Workspace
pub mod Coordination
pub mod ActionCenter
pub mod Lab
pub mod Packages
pub mod Evidence
pub mod Fields
pub mod Tests
