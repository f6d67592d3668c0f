-- ===== src/Coordination/Model.antt =====
-- The types of internal/coordination/service.go and the rows of db/migrations/00015_module_09_10_11_12.sql.
use pfas_load_control.Base.{ℕ, Option, String, Text}
use pfas_load_control.Workspace.{Uuid, Time}

-- `pfas.coordination_step_role` and `pfas.party_role`, which have the same values.
pub data StepRole : Type 0 where
  farmer : StepRole
  contractor : StepRole
  plant : StepRole

-- `pfas.coordination_status`
pub data WorkflowStatus : Type 0 where
  not_started : WorkflowStatus
  farmer_confirmed : WorkflowStatus
  contractor_confirmed : WorkflowStatus
  plant_confirmed : WorkflowStatus
  ready : WorkflowStatus
  rejected : WorkflowStatus

pub data StepStatus : Type 0 where
  pending : StepStatus
  confirmed : StepStatus
  declined : StepStatus

pub record CoordWorkflow : Type 0 where
  pub id : Uuid
  pub workspace_id : Uuid
  pub batch_id : Option Uuid
  pub field_id : Option Uuid
  pub status : WorkflowStatus
  pub created_by : Uuid
  pub created_at : Time
  pub updated_at : Time

pub record CoordStep : Type 0 where
  pub id : Uuid
  pub workspace_id : Uuid
  pub workflow_id : Uuid
  pub party_id : Option Uuid
  pub step_role : StepRole
  pub step_type : String
  pub status : StepStatus
  pub notes : Text
  pub confirmed_at : Option Time
  pub created_at : Time

pub record CoordDocument : Type 0 where
  pub id : Uuid
  pub workspace_id : Uuid
  pub workflow_id : Uuid
  pub party_id : Uuid
  pub doc_type : Text
  pub filename : Text
  pub file_hash : Text
  pub mime_type : Text
  pub size_bytes : ℕ
  pub created_at : Time

pub record CoordNotification : Type 0 where
  pub id : Uuid
  pub workspace_id : Uuid
  pub workflow_id : Uuid
  pub recipient_id : Uuid
  pub event_type : Text
  pub message : Text
  pub read_at : Option Time
  pub created_at : Time

pub record PartyRow : Type 0 where
  pub id : Uuid
  pub workspace_id : Uuid
  pub role : StepRole

pub record FieldRow : Type 0 where
  pub id : Uuid
  pub workspace_id : Uuid

pub record CoordCreateWorkflowInput : Type 0 where
  pub batch_id : Option Text
  pub field_id : Option Text
  pub created_by_party_id : Text

pub record CoordConfirmStepInput : Type 0 where
  pub party_id : Text
  pub notes : Text

pub record CoordAssignStepInput : Type 0 where
  pub party_id : Text

pub record CoordCreateDocumentInput : Type 0 where
  pub party_id : Text
  pub doc_type : Text
  pub filename : Text
  pub file_hash : Text
  pub mime_type : Text
  pub size_bytes : ℕ

-- `ErrNotFound`, `ErrInvalid` and `ErrInvalidTransition`, and what the database refuses.
pub data CoordError : Type 0 where
  not_found : CoordError
  invalid : String → CoordError
  invalid_transition : String → CoordError
  failed : String → CoordError
