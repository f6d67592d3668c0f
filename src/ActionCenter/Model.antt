-- ===== src/ActionCenter/Model.antt =====
-- internal/actioncenter/model.go and what the service reads of internal/decisionpackage/model.go.
-- UUIDs are numbers, times numbers of nanoseconds. A row of the table pfas.actions is an
-- `ActionRecord`; its attachments and the acknowledged gaps of a decision stand as lists where the
-- database holds their JSON.
use pfas_load_control.Base.{ℕ, Bool, Option, List, String, Text}
use pfas_load_control.Placement.Model.{Status}
pub use pfas_load_control.Workspace.{Uuid, Time}

pub data ExecutionMode : Type 0 where
  internal_release : ExecutionMode
  operator_handoff : ExecutionMode
  control : ExecutionMode

pub data ActionStatus : Type 0 where
  proposed : ActionStatus
  approved : ActionStatus
  rejected : ActionStatus
  executed : ActionStatus

pub record ActionAttachment : Type 0 where
  pub label : Text
  pub format : String
  pub media_type : String
  pub sha256 : String
  pub url : String

pub record ActionPayload : Type 0 where
  pub channel : String
  pub recipient : Text
  pub subject : Text
  pub message : Text
  pub attachments : List ActionAttachment

-- `Approve` and `Reject`
pub data DecisionKind : Type 0 where
  approve : DecisionKind
  reject : DecisionKind

pub record ApprovalDecision : Type 0 where
  pub id : Uuid
  pub kind : DecisionKind
  pub action_revision : ℕ
  pub payload_hash : Text
  pub actor_name : Text
  pub actor_role : Text
  pub note : Text
  pub acknowledged_gap_codes : List String
  pub created_at : Time

pub data ExecutionOutcome : Type 0 where
  internal_released : ExecutionOutcome
  operator_handoff_ready : ExecutionOutcome

-- Nothing that is executed has an external effect: the source never sets the flag.
pub record ActionExecutionReceipt : Type 0 where
  pub id : Uuid
  pub outcome : ExecutionOutcome
  pub summary : String
  pub external_effect : Bool
  pub handoff_url : Option Uuid
  pub release_id : Option Uuid
  pub completed_at : Time

pub record ActionRecord : Type 0 where
  pub id : Uuid
  pub workspace_id : Uuid
  pub decision_package_id : Uuid
  pub position : ℕ
  pub code : Text
  pub category : String
  pub title : Text
  pub detail : Text
  pub timing : Text
  pub source_id : Text
  pub execution_mode : ExecutionMode
  pub status : ActionStatus
  pub approval_required : Bool
  pub channel : String
  pub recipient : Text
  pub subject : Text
  pub message : Text
  pub attachments : List ActionAttachment
  pub revision : ℕ
  pub payload_hash : Text
  pub created_at : Time
  pub updated_at : Time

-- An action as it is returned: its row, its payload, and the decisions and the receipt at hand.
pub record ControlledAction : Type 0 where
  pub row : ActionRecord
  pub payload : ActionPayload
  pub decisions : List ApprovalDecision
  pub execution : Option ActionExecutionReceipt

pub record ReviewGap : Type 0 where
  pub code : String
  pub detail : Text
  pub resolution : String

pub record UpdatePayloadInput : Type 0 where
  pub recipient : Text
  pub subject : Text
  pub message : Text

pub record DecisionInput : Type 0 where
  pub expected_payload_hash : Text
  pub actor_name : Text
  pub actor_role : Text
  pub note : Text
  pub acknowledge_gaps : Bool

-- The sentinel errors, with the message that each is wrapped in, and any other wrapped error.
pub data ActionError : Type 0 where
  not_found : ActionError
  invalid : String → ActionError
  conflict : String → ActionError
  stale : String → ActionError
  failed : String → ActionError

pub record PackageGap : Type 0 where
  pub source : String
  pub code : String
  pub detail : Text
  pub resolution : String
  pub critical : Bool

pub record ProposedAction : Type 0 where
  pub position : ℕ
  pub code : Text
  pub category : String
  pub state : String
  pub title : Text
  pub detail : Text
  pub timing : Text
  pub source_id : Text
  pub executable : Bool

pub record Artifact : Type 0 where
  pub format : String
  pub media_type : String
  pub sha256 : String
  pub url : String

-- The frozen placement plan of a package, as far as an execution looks at it.
pub record PlacementSnapshot : Type 0 where
  pub id : Text
  pub status : Status

pub record DecisionPackage : Type 0 where
  pub id : Uuid
  pub status : String
  pub input_hash : String
  pub tier : String
  pub placement : Option PlacementSnapshot
  pub gaps : List PackageGap
  pub proposed_actions : List ProposedAction
  pub artifacts : List Artifact
