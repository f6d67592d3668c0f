-- ===== src/ActionCenter/Execute.antt =====
-- internal/actioncenter/service.go, `Execute`.
pub mod Safety
pub mod Replay
pub mod Edits
pub mod Again
use pfas_load_control.Base.{
  find, forbid, require, ℕ, ◌+◌, Bool, true, false, not, ◌&&◌, ◌||◌, ◌==◌, Option, none, some, [],
  ◌∷◌, ◌++◌, List, String, Text, text_eq, trim_space, str_eq, ltb, any, if◌then◌else◌, Result, ok,
  err, panic, ◌>>=◌,
}
use pfas_load_control.Placement.Model.{Status, ready}
use pfas_load_control.ActionCenter.Model.{
  Uuid, Time, ExecutionMode, ActionStatus, approved, executed, ActionPayload, ApprovalDecision,
  ExecutionOutcome, internal_released, operator_handoff_ready, ActionExecutionReceipt, ActionRecord,
  ControlledAction, ActionError, not_found, invalid, conflict, stale, failed, PlacementSnapshot,
  DecisionPackage,
}
use pfas_load_control.ActionCenter.Payloads.{
  Outcome, byte_length, is_control, is_internal_release, payload_of,
}
use pfas_load_control.ActionCenter.Store.{
  DecisionRow, Handoff, ExecutionAttempt, PlacementRelease, Store, get_action, change_action,
  with_status, current_approval, attempt_by_key, has_release, hydrate_action, action_context,
}
use pfas_load_control.ActionCenter.Decide.{is_executed}

abbrev pub is_approved : ActionStatus → Bool
is_approved approved = true
is_approved _ = false

abbrev pub is_ready : Status → Bool
is_ready ready = true
is_ready _ = false

-- A frozen plan that may be released, by its identifier.
unfoldable pub releasable : (Text → Option Uuid) → DecisionPackage → ActionRecord → Outcome Uuid
releasable parse_id frozen r = do
  plan ← require frozen.placement (conflict "the frozen placement plan is not releasable")
  allowed ←
      forbid (str_eq frozen.tier "PROHIBITED" || not (is_ready plan.status))
        (conflict "the frozen placement plan is not releasable")
  placement ←
      require (parse_id plan.id)
        (conflict "the approved action does not match the frozen placement plan")
  matching ←
      forbid (not (text_eq plan.id r.source_id))
        (conflict "the approved action does not match the frozen placement plan")
  ok placement

-- The identifiers that an execution takes, and its time.
pub record Fresh : Type 0 where
  pub execution : Uuid
  pub release : Uuid
  pub now : Time

abbrev pub release_receipt : Fresh → ActionExecutionReceipt
release_receipt fresh = record {
  id = fresh.execution;
  outcome = internal_released;
  summary =
      "The frozen placement plan was released for internal scheduling. No external party was contacted.";
  external_effect = false;
  handoff_url = none;
  release_id = some fresh.release;
  completed_at = fresh.now;
}

abbrev pub handoff_receipt : Fresh → ActionExecutionReceipt
handoff_receipt fresh = record {
  id = fresh.execution;
  outcome = operator_handoff_ready;
  summary =
      "The exact approved payload was frozen into an operator handoff. No external party was contacted.";
  external_effect = false;
  handoff_url = some fresh.execution;
  release_id = none;
  completed_at = fresh.now;
}

abbrev pub attempt_of :
    Uuid
    → Text
    → DecisionRow
    → ActionRecord
    → ActionExecutionReceipt
    → Option Handoff
    → ExecutionAttempt
attempt_of workspace key approval r receipt handoff = record {
  id = receipt.id;
  workspace_id = workspace;
  action_id = r.id;
  approval_id = approval.decision.id;
  idempotency_key = key;
  outcome = receipt.outcome;
  receipt = receipt;
  handoff_artifact = handoff;
  completed_at = receipt.completed_at;
}

abbrev pub handoff_of : DecisionRow → ActionRecord → Fresh → Handoff
handoff_of approval r fresh = record {
  package_id = r.decision_package_id;
  action_id = r.id;
  action_code = r.code;
  revision = r.revision;
  payload_hash = r.payload_hash;
  payload = payload_of r;
  approval = approval.decision;
  prepared_at = fresh.now;
}

abbrev pub add_attempt : ExecutionAttempt → Store → Store
add_attempt attempt s = record s { executions = s.executions ++ attempt ∷ [] }

abbrev pub add_release : PlacementRelease → Store → Store
add_release release s = record s { releases = s.releases ++ release ∷ [] }

abbrev pub release_of : Uuid → Uuid → DecisionRow → ActionRecord → Fresh → PlacementRelease
release_of workspace placement approval r fresh = record {
  id = fresh.release;
  workspace_id = workspace;
  decision_package_id = r.decision_package_id;
  placement_evaluation_id = placement;
  action_id = r.id;
  approval_id = approval.decision.id;
  execution_attempt_id = fresh.execution;
  released_at = fresh.now;
}

-- The part of an execution that writes the receipt. A release of a plan is refused where the plan
-- has one already.
unfoldable pub carry_out :
    (Text → Option Uuid)
    → Uuid
    → Text
    → DecisionPackage
    → DecisionRow
    → ActionRecord
    → Fresh
    → Store
    → Outcome (Store × ActionExecutionReceipt)
unfolding releasable
carry_out parse_id workspace key frozen approval r fresh s =
    if is_internal_release r.execution_mode
    then (releasable parse_id frozen r >>= λ placement.
        forbid (has_release placement s)
          (conflict "this frozen placement plan was already released")
        >>= λ unreleased. ok (
          add_release (release_of workspace placement approval r fresh)
              (add_attempt (attempt_of workspace key approval r (release_receipt fresh) none) s),
          release_receipt fresh,
        ))
    else ok (
      add_attempt
          (attempt_of workspace key approval r (handoff_receipt fresh)
            (some (handoff_of approval r fresh)))
          s,
      handoff_receipt fresh,
    )

-- An execution that no attempt with the key precedes.
unfoldable pub execute_once :
    (Text → Option Uuid)
    → (Uuid → Outcome DecisionPackage)
    → Uuid
    → Text
    → ActionRecord
    → Fresh
    → Store
    → Outcome (Store × ControlledAction)
unfolding current_approval carry_out change_action hydrate_action
execute_once parse_id get_package workspace key r fresh s = do
  reviewed ←
      forbid (not (is_approved r.status)) (conflict "approve the current payload before execution")
  approval ←
      require (current_approval workspace r s) (stale "approval does not match the current payload")
  frozen ← get_package r.decision_package_id
  done ← carry_out parse_id workspace key frozen approval r fresh s
  ok (
    change_action workspace r.id (with_status executed fresh.now) done.0,
    hydrate_action (with_status executed fresh.now r) [] (some done.1),
  )

-- `ListExecutionsForPackage`, and the test in the loop over its rows.
abbrev pub is_receipt_of : ActionRecord → ExecutionAttempt → Bool
is_receipt_of r e = e.action_id == r.id && e.workspace_id == r.workspace_id

-- The receipt of an action that was executed under another key.
unfoldable pub replay : ActionRecord → Store → Outcome (Store × ControlledAction)
unfolding find hydrate_action
replay r s = do
  attempt ← require (find (is_receipt_of r) s.executions) (conflict "execution receipt is missing")
  ok (s, hydrate_action r [] (some attempt.receipt))

module _ (hash : Text → Option Text) (parse_id : Text → Option Uuid) where
  module _ (get_package : Text → Uuid → Outcome DecisionPackage) where
    -- The locked row, and what becomes of it.
    unfoldable pub execute_row :
        Text → Uuid → Uuid → Text → Fresh → Store → Outcome (Store × ControlledAction)
    unfolding get_action replay execute_once
    execute_row key workspace id idempotency_key fresh s = do
      r ← require (get_action workspace id s) not_found
      open_action ←
          forbid (is_control r.execution_mode) (conflict "this control is already in effect")
      if is_executed r.status
          then replay r s
          else execute_once parse_id (get_package key) workspace idempotency_key r fresh s

    -- An attempt with the key is answered by its receipt.
    unfoldable pub execute_keyed :
        Text → Uuid → Uuid → Text → Fresh → Store → Outcome (Store × ControlledAction)
    unfolding attempt_by_key get_action hydrate_action execute_row
    execute_keyed key workspace id idempotency_key fresh s =
        elim (attempt_by_key id idempotency_key s) [
          | some attempt ↦
              require (get_action workspace id s) (failed "load executed action") >>= λ r.
              ok (s, hydrate_action r [] (some attempt.receipt))
          | none ↦ execute_row key workspace id idempotency_key fresh s
        ]

    unfoldable pub execute : Text → Text → Text → Fresh → Store → Outcome (Store × ControlledAction)
    unfolding action_context execute_keyed
    execute key action_id idempotency_key fresh s = do
      fits ←
          forbid
            (ltb (byte_length (trim_space idempotency_key)) 16
              || ltb 128 (byte_length (trim_space idempotency_key)))
            (invalid "idempotency key must contain 16 to 128 characters")
      context ← action_context hash parse_id key action_id s
      execute_keyed key context.0 context.1 (trim_space idempotency_key) fresh s
