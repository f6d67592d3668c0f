-- ===== src/ActionCenter/Store.antt =====
-- The tables behind internal/actioncenter/service.go, with the queries of db/queries/actions.sql that
-- it calls. A transaction that returns an error is rolled back, so an operation that fails has no
-- store to return.
use pfas_load_control.Base.{
  find, change, require, ℕ, Bool, true, false, ◌&&◌, ◌==◌, Option, List, Text, text_eq, any, ok,
  ◌>>=◌,
}
use pfas_load_control.ActionCenter.Model.{
  Uuid, Time, ActionStatus, DecisionKind, approve, reject, ApprovalDecision, ExecutionOutcome,
  ActionExecutionReceipt, ActionRecord, ControlledAction, not_found, invalid, ActionPayload,
}
use pfas_load_control.Workspace.{WorkspaceRow}
use pfas_load_control.ActionCenter.Payloads.{Outcome, payload_of}

pub record DecisionRow : Type 0 where
  pub workspace_id : Uuid
  pub action_id : Uuid
  pub decision_package_id : Uuid
  pub decision : ApprovalDecision

-- The operator handoff that is frozen with its receipt.
pub record Handoff : Type 0 where
  pub package_id : Uuid
  pub action_id : Uuid
  pub action_code : Text
  pub revision : ℕ
  pub payload_hash : Text
  pub payload : ActionPayload
  pub approval : ApprovalDecision
  pub prepared_at : Time

pub record ExecutionAttempt : Type 0 where
  pub id : Uuid
  pub workspace_id : Uuid
  pub action_id : Uuid
  pub approval_id : Uuid
  pub idempotency_key : Text
  pub outcome : ExecutionOutcome
  pub receipt : ActionExecutionReceipt
  pub handoff_artifact : Option Handoff
  pub completed_at : Time

pub record PlacementRelease : Type 0 where
  pub id : Uuid
  pub workspace_id : Uuid
  pub decision_package_id : Uuid
  pub placement_evaluation_id : Uuid
  pub action_id : Uuid
  pub approval_id : Uuid
  pub execution_attempt_id : Uuid
  pub released_at : Time

pub record Store : Type 0 where
  pub workspaces : List WorkspaceRow
  pub actions : List ActionRecord
  pub decisions : List DecisionRow
  pub executions : List ExecutionAttempt
  pub releases : List PlacementRelease

abbrev pub is_action : Uuid → Uuid → ActionRecord → Bool
is_action workspace id r = (r.id == id) && (r.workspace_id == workspace)

unfoldable pub get_action : Uuid → Uuid → Store → Option ActionRecord
unfolding find
get_action workspace id s = find (is_action workspace id) s.actions

unfoldable pub change_action : Uuid → Uuid → (ActionRecord → ActionRecord) → Store → Store
unfolding change
change_action workspace id f s = record s { actions = change (is_action workspace id) f s.actions }

abbrev pub with_status : ActionStatus → Time → ActionRecord → ActionRecord
with_status status now r = record r { status = status; updated_at = now }

abbrev pub same_kind : DecisionKind → DecisionKind → Bool
same_kind approve approve = true
same_kind reject reject = true
same_kind _ _ = false

-- `GetCurrentApproval`
abbrev pub is_current : Uuid → ActionRecord → DecisionRow → Bool
is_current workspace r d =
    (d.action_id == r.id)
    && (d.workspace_id == workspace)
    && same_kind d.decision.kind approve
    && (d.decision.action_revision == r.revision)
    && text_eq d.decision.payload_hash r.payload_hash

unfoldable pub current_approval : Uuid → ActionRecord → Store → Option DecisionRow
unfolding find
current_approval workspace r s = find (is_current workspace r) s.decisions

abbrev pub is_attempt : Uuid → Text → ExecutionAttempt → Bool
is_attempt action key e = (e.action_id == action) && text_eq e.idempotency_key key

unfoldable pub attempt_by_key : Uuid → Text → Store → Option ExecutionAttempt
unfolding find
attempt_by_key action key s = find (is_attempt action key) s.executions

-- The constraint `UNIQUE (action_id, action_revision)` on decisions.
abbrev pub has_decision : Uuid → ℕ → Store → Bool
has_decision action revision s =
    any (λ d. (d.action_id == action) && (d.decision.action_revision == revision)) s.decisions

abbrev pub is_released : Uuid → Uuid → PlacementRelease → Bool
is_released workspace placement r =
    (r.placement_evaluation_id == placement) && (r.workspace_id == workspace)

-- The constraint `UNIQUE (placement_evaluation_id)` on releases.
abbrev pub has_release : Uuid → Store → Bool
has_release placement s = any (λ r. r.placement_evaluation_id == placement) s.releases

unfoldable pub hydrate_action :
    ActionRecord → List ApprovalDecision → Option ActionExecutionReceipt → ControlledAction
hydrate_action r decisions receipt = record {
  row = r;
  payload = payload_of r;
  decisions = decisions;
  execution = receipt;
}

-- `workspace.Hash` and `uuid.Parse` are parameters.
module _ (hash : Text → Option Text) (parse_id : Text → Option Uuid) where
  unfoldable pub load_workspace : Text → Store → Outcome Uuid
  unfolding find
  load_workspace key s = do
    key_hash ← require (hash key) (invalid "invalid action request")
    row ← require (find (λ (w : WorkspaceRow). text_eq w.key_hash key_hash) s.workspaces) not_found
    ok row.id

  unfoldable pub action_context : Text → Text → Store → Outcome (Uuid × Uuid)
  unfolding load_workspace
  action_context key action_id s = do
    workspace ← load_workspace key s
    id ← require (parse_id action_id) not_found
    ok (workspace, id)
