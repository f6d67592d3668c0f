-- ===== src/Coordination/Steps.antt =====
-- The operations of internal/coordination/service.go that change the state.
use pfas_load_control.Base.{
  Bool, true, false, not, ◌&&◌, ◌==◌, Option, none, some, List, [], ◌∷◌, Text, is_empty, trim_space,
  String, ok, err, ◌>>=◌, require, forbid,
}
use pfas_load_control.Workspace.{Uuid, Time}
use pfas_load_control.Coordination.Model.{
  StepRole, farmer, contractor, plant, WorkflowStatus, not_started, farmer_confirmed,
  contractor_confirmed, plant_confirmed, rejected, pending, CoordWorkflow, CoordStep,
  CoordCreateWorkflowInput, CoordConfirmStepInput, CoordAssignStepInput, CoordError, not_found,
  invalid, invalid_transition, failed,
}
use pfas_load_control.Coordination.Store.{
  Outcome, Store, role_eq, is_pending, get_party, get_workflow, get_step, set_workflow_status,
  change_step, confirm, decline, assign, insert_workflow, insert_step, in_workspace,
}

unfoldable pub next_workflow_status : WorkflowStatus → StepRole → Outcome WorkflowStatus
next_workflow_status not_started farmer = ok farmer_confirmed
next_workflow_status farmer_confirmed contractor = ok contractor_confirmed
next_workflow_status contractor_confirmed plant = ok plant_confirmed
next_workflow_status _ _ = err (invalid_transition "confirmation is not available")

-- The identifiers that the creation of a workflow takes.
pub record FreshIds : Type 0 where
  pub workflow : Uuid
  pub step : StepRole → Uuid

abbrev pub step_type_of : StepRole → String
step_type_of farmer = "FARMER_CONFIRM"
step_type_of contractor = "CONTRACTOR_CONFIRM"
step_type_of plant = "PLANT_CONFIRM"

abbrev pub new_step : Uuid → FreshIds → Time → StepRole → CoordStep
new_step workspace fresh now role = record {
  id = fresh.step role;
  workspace_id = workspace;
  workflow_id = fresh.workflow;
  party_id = none;
  step_role = role;
  step_type = step_type_of role;
  status = pending;
  notes = [];
  confirmed_at = none;
  created_at = now;
}

unfoldable pub create_steps : Uuid → FreshIds → Time → List StepRole → Store → Outcome Store
unfolding insert_step
create_steps workspace fresh now [] s = ok s
create_steps workspace fresh now (role ∷ roles) s =
    insert_step (new_step workspace fresh now role) s >>= create_steps workspace fresh now roles

abbrev pub step_roles : List StepRole
step_roles = farmer ∷ contractor ∷ plant ∷ []

-- An optional identifier of a request.
abbrev pub parse_optional : (Text → Option Uuid) → Option Text → CoordError → Outcome (Option Uuid)
parse_optional parse_id none e = ok none
parse_optional parse_id (some t) e = require (parse_id t) e >>= λ id. ok (some id)

abbrev pub new_workflow : Uuid → FreshIds → Time → Uuid → Option Uuid → Option Uuid → CoordWorkflow
new_workflow workspace fresh now created_by field_id batch_id = record {
  id = fresh.workflow;
  workspace_id = workspace;
  batch_id = batch_id;
  field_id = field_id;
  status = not_started;
  created_by = created_by;
  created_at = now;
  updated_at = now;
}

-- May the party confirm or reject the step?
abbrev pub is_assigned : Option Uuid → Uuid → Bool
is_assigned none party = false
is_assigned (some id) party = id == party

abbrev pub is_unassigned : Option Uuid → Bool
is_unassigned none = true
is_unassigned (some _) = false

module _ (parse_id : Text → Option Uuid) where
  unfoldable pub create_in :
      CoordCreateWorkflowInput → FreshIds → Time → Uuid → Store → Outcome (Store × CoordWorkflow)
  unfolding insert_workflow create_steps
  create_in input fresh now workspace s = do
    created_by ← require (parse_id input.created_by_party_id) (invalid "invalid createdByPartyId")
    field_id ← parse_optional parse_id input.field_id (invalid "invalid fieldId")
    batch_id ← parse_optional parse_id input.batch_id (invalid "invalid batchId")
    let w = new_workflow workspace fresh now created_by field_id batch_id
    s1 ← insert_workflow w s
    s2 ← create_steps workspace fresh now step_roles s1
    ok (s2, w)

  unfoldable pub assign_in :
      Text → CoordAssignStepInput → Uuid → Store → Outcome (Store × CoordStep)
  unfolding get_step get_party change_step
  assign_in step_id input workspace s = do
    id ← require (parse_id step_id) (invalid "invalid coordination input")
    party_id ← require (parse_id input.party_id) (invalid "invalid coordination input")
    step ← require (get_step workspace id s) not_found
    party ←
        require (get_party workspace party_id s) (invalid "assigned party must match the step role")
    matching ←
        forbid (not (role_eq party.role step.step_role))
          (invalid "assigned party must match the step role")
    open_step ←
        forbid (not (is_pending step.status && is_unassigned step.party_id))
          (invalid_transition "invalid status transition")
    ok (change_step workspace id (assign party_id) s, assign party_id step)

  unfoldable pub confirm_in :
      Text → CoordConfirmStepInput → Time → Uuid → Store → Outcome (Store × CoordStep)
  unfolding get_step get_workflow next_workflow_status change_step set_workflow_status
  confirm_in step_id input now workspace s = do
    id ← require (parse_id step_id) (invalid "invalid coordination input")
    step ← require (get_step workspace id s) not_found
    party_id ← require (parse_id input.party_id) (invalid "invalid coordination input")
    entitled ←
        forbid (not (is_assigned step.party_id party_id && is_pending step.status))
          (invalid_transition "only the assigned party can confirm a pending step")
    w ← require (get_workflow workspace step.workflow_id s) (failed "no rows in result set")
    next ← next_workflow_status w.status step.step_role
    ok (
      set_workflow_status workspace step.workflow_id next now
          (change_step workspace id (confirm party_id input.notes now) s),
      confirm party_id input.notes now step,
    )

  unfoldable pub reject_in :
      Text → CoordConfirmStepInput → Time → Uuid → Store → Outcome (Store × CoordStep)
  unfolding get_step get_workflow change_step set_workflow_status
  reject_in step_id input now workspace s = do
    id ← require (parse_id step_id) (invalid "invalid coordination input")
    reasoned ← forbid (is_empty (trim_space input.notes)) (invalid "rejection reason is required")
    step ← require (get_step workspace id s) not_found
    party_id ←
        require (parse_id input.party_id)
          (invalid_transition "only the assigned party can reject a pending step")
    entitled ←
        forbid (not (is_assigned step.party_id party_id && is_pending step.status))
          (invalid_transition "only the assigned party can reject a pending step")
    w ← require (get_workflow workspace step.workflow_id s) (failed "no rows in result set")
    ok (
      set_workflow_status workspace step.workflow_id rejected now
          (change_step workspace id (decline input.notes now) s),
      decline input.notes now step,
    )

-- The operations, each in the workspace of its key. `hash` is `workspace.Hash`.
module _ (hash : Text → Option Text) (parse_id : Text → Option Uuid) (key : Text)
    (workspace_id : Uuid) where
  unfoldable pub create_workflow :
      CoordCreateWorkflowInput → FreshIds → Time → Store → Store × Outcome CoordWorkflow
  unfolding in_workspace create_in
  create_workflow input fresh now =
      in_workspace hash key workspace_id (create_in parse_id input fresh now)

  unfoldable pub assign_step : Text → CoordAssignStepInput → Store → Store × Outcome CoordStep
  unfolding in_workspace assign_in
  assign_step step_id input = in_workspace hash key workspace_id (assign_in parse_id step_id input)

  unfoldable pub confirm_step :
      Text → CoordConfirmStepInput → Time → Store → Store × Outcome CoordStep
  unfolding in_workspace confirm_in
  confirm_step step_id input now =
      in_workspace hash key workspace_id (confirm_in parse_id step_id input now)

  unfoldable pub reject_step :
      Text → CoordConfirmStepInput → Time → Store → Store × Outcome CoordStep
  unfolding in_workspace reject_in
  reject_step step_id input now =
      in_workspace hash key workspace_id (reject_in parse_id step_id input now)
