-- ===== src/ActionCenter/Decide.antt =====
-- internal/actioncenter/service.go, `Ensure`, `UpdatePayload` and `decide`.
pub mod Approvals
use pfas_load_control.Base.{
  forbid, require, ℕ, ◌+◌, Bool, true, false, not, ◌&&◌, ◌||◌, ◌==◌, Option, none, some, [], ◌∷◌,
  ◌++◌, List, String, Text, text_eq, trim_space, is_empty, any, map, if◌then◌else◌, Result, ok, err,
  panic, ◌>>=◌,
}
use pfas_load_control.ActionCenter.Model.{
  Uuid, Time, ExecutionMode, ActionStatus, proposed, approved, rejected, executed, ActionPayload,
  DecisionKind, approve, reject, ApprovalDecision, ActionRecord, ControlledAction, ReviewGap,
  UpdatePayloadInput, DecisionInput, ActionError, not_found, invalid, conflict, stale,
  ProposedAction, DecisionPackage,
}
use pfas_load_control.ActionCenter.Payloads.{
  Outcome, action_mode, default_payload, is_control, is_short, payload_of, split_gaps,
  validate_draft_payload, validate_payload,
}
use pfas_load_control.ActionCenter.Store.{
  DecisionRow, Store, get_action, change_action, with_status, has_decision, hydrate_action,
  action_context,
}

abbrev pub is_executed : ActionStatus → Bool
is_executed executed = true
is_executed _ = false

abbrev pub is_rejected : ActionStatus → Bool
is_rejected rejected = true
is_rejected _ = false

abbrev pub is_approval : DecisionKind → Bool
is_approval approve = true
is_approval reject = false

-- `Status: kind`
abbrev pub status_of : DecisionKind → ActionStatus
status_of approve = approved
status_of reject = rejected

-- The payload with the trimmed texts of the request.
abbrev pub edited : UpdatePayloadInput → ActionPayload → ActionPayload
edited input payload = record payload {
  recipient = trim_space input.recipient;
  subject = trim_space input.subject;
  message = trim_space input.message;
}

-- `UpdateActionPayload`
abbrev pub with_payload : ActionPayload → Text → Time → ActionRecord → ActionRecord
with_payload payload payload_hash now r = record r {
  recipient = payload.recipient;
  subject = payload.subject;
  message = payload.message;
  attachments = payload.attachments;
  revision = r.revision + 1;
  payload_hash = payload_hash;
  status = proposed;
  updated_at = now;
}

abbrev gap_codes : List ReviewGap → List String
gap_codes = map (λ (g : ReviewGap). g.code)

-- The review gaps that an approval acknowledges.
unfoldable pub acknowledge : DecisionKind → DecisionInput → List ReviewGap → Outcome (List String)
acknowledge reject input review = ok []
acknowledge approve input [] = ok []
acknowledge approve input (gap ∷ gaps) =
    if not input.acknowledge_gaps
    then err (conflict "acknowledge the listed review gaps before approval")
    else ok (gap_codes (gap ∷ gaps))

abbrev pub is_any : {A : Type 0} → List A → Bool
is_any [] = false
is_any (x ∷ xs) = true

-- The tests of `decide` on the row, up to the package.
unfoldable pub check_decision : DecisionKind → DecisionInput → ActionRecord → Outcome Unit
unfolding validate_payload
check_decision kind input r = do
  open_action ←
      forbid (is_control r.execution_mode || is_executed r.status)
        (conflict "this action does not accept a decision")
  current ←
      forbid (not (text_eq (trim_space input.expected_payload_hash) r.payload_hash))
        (stale "review the current payload before deciding")
  valid ← (if is_approval kind then validate_payload (payload_of r) else ok tt)
  forbid (is_short (trim_space input.actor_name) || is_short (trim_space input.actor_role))
      (invalid "enter the reviewer name and role")

abbrev pub decision_of :
    DecisionKind → DecisionInput → List String → Uuid → Time → ActionRecord → ApprovalDecision
decision_of kind input acknowledged id now r = record {
  id = id;
  kind = kind;
  action_revision = r.revision;
  payload_hash = r.payload_hash;
  actor_name = trim_space input.actor_name;
  actor_role = trim_space input.actor_role;
  note = trim_space input.note;
  acknowledged_gap_codes = acknowledged;
  created_at = now;
}

-- The decision is stored, and its kind is the new status.
unfoldable pub record_decision :
    Uuid
    → Uuid
    → ApprovalDecision
    → ActionRecord
    → Time
    → Store
    → Outcome (Store × ControlledAction)
unfolding change_action hydrate_action
record_decision workspace id decision r now s = do
  first ← forbid (has_decision id r.revision s) (conflict "this revision already has a decision")
  let row : DecisionRow = record {
    workspace_id = workspace;
    action_id = id;
    decision_package_id = r.decision_package_id;
    decision = decision;
  }
  let stored = record s { decisions = s.decisions ++ row ∷ [] }
  ok (
    change_action workspace id (with_status (status_of decision.kind) now) stored,
    hydrate_action (with_status (status_of decision.kind) now r) (decision ∷ []) none,
  )

-- The SHA-256 of the JSON of a payload, and the package service, are parameters with those of the
-- store; new UUIDs and the time are arguments.
module _ (hash : Text → Option Text) (parse_id : Text → Option Uuid)
    (hash_payload : ActionPayload → Text) where
  unfoldable pub update_payload :
      Text → Text → UpdatePayloadInput → Time → Store → Outcome (Store × ControlledAction)
  unfolding action_context get_action change_action validate_draft_payload hydrate_action
  update_payload key action_id input now s = do
    context ← action_context hash parse_id key action_id s
    r ← require (get_action context.0 context.1 s) not_found
    open_action ←
        forbid (is_control r.execution_mode || is_executed r.status)
          (conflict "completed controls and actions cannot be edited")
    let payload = edited input (payload_of r)
    valid ← validate_draft_payload payload
    if text_eq (hash_payload payload) r.payload_hash && not (is_rejected r.status)
        then ok (s, hydrate_action r [] none)
        else ok (
          change_action context.0 context.1 (with_payload payload (hash_payload payload) now) s,
          hydrate_action (with_payload payload (hash_payload payload) now r) [] none,
        )

  module _ (get_package : Text → Uuid → Outcome DecisionPackage) where
    unfoldable pub decide :
        Text
        → Text
        → DecisionKind
        → DecisionInput
        → Uuid
        → Time
        → Store
        → Outcome (Store × ControlledAction)
    unfolding action_context get_action check_decision split_gaps acknowledge record_decision
    decide key action_id kind input decision_id now s = do
      context ← action_context hash parse_id key action_id s
      r ← require (get_action context.0 context.1 s) not_found
      checked ← check_decision kind input r
      frozen ← get_package key r.decision_package_id
      let gaps = split_gaps frozen.gaps
      resolved ←
          forbid (is_approval kind && is_any gaps.0)
            (conflict "resolve critical evidence gaps before approval")
      acknowledged ← acknowledge kind input gaps.1
      reasoned ←
          forbid (not (is_approval kind) && is_short (trim_space input.note))
            (invalid "add a reason for rejection")
      record_decision context.0 context.1 (decision_of kind input acknowledged decision_id now r) r
          now s
