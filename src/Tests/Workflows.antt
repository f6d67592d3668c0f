-- ===== src/Tests/Workflows.antt =====
-- A workflow that is created, assigned, confirmed and rejected.
use pfas_load_control.Base.{
  ◌+◌, Option, none, some, [], ◌∷◌, Text, codes, text_eq, ok, ◌≡◌, refl, find,
}
use pfas_load_control.Workspace.{Uuid, WorkspaceRow}
use pfas_load_control.Coordination.Model.{
  StepRole, farmer, WorkflowStatus, pending, CoordWorkflow, CoordStep, PartyRow,
  CoordCreateWorkflowInput, CoordConfirmStepInput,
}
use pfas_load_control.Coordination.Store.{Store, get_workflow, get_step, with_status, confirm}
use pfas_load_control.Coordination.Steps.{FreshIds, create_workflow, assign_step, confirm_step}
use pfas_load_control.Coordination.Invariant.{IsConsistent, rank}
use pfas_load_control.Coordination.Invariant.Reached.{
  empty_store, Reached, start, next, creates, assigns, elsewhere, Reached-IsConsistent,
}
use pfas_load_control.Coordination.Progress.{IsNext, confirm_step_succeeds}

abbrev hash : Text → Option Text
hash t = some t

-- A one-letter text names the UUID of its code point.
abbrev parse_id : Text → Option Uuid
parse_id [] = none
parse_id (c ∷ t) = some c

abbrev farm : PartyRow
farm = record { id = b'f'; workspace_id = 1; role = farmer }

abbrev ids : FreshIds
ids = record { workflow = b'w'; step = λ (r : StepRole). 10 + rank r }

abbrev opening : Store
opening = record empty_store {
  workspaces = (record { id = 1; key_hash = codes "key" }) ∷ [];
  parties = farm ∷ [];
}

abbrev request : CoordCreateWorkflowInput
request = record { batch_id = none; field_id = none; created_by_party_id = codes "f" }

abbrev created : Store
created = (create_workflow hash parse_id (codes "key") 2 request ids 5 opening).0

abbrev assigned : Store
assigned =
    (assign_step hash parse_id (codes "key") 2 (10 ∷ []) (record { party_id = codes "f" })
      created).0

assigned-Reached : Reached hash parse_id assigned
assigned-Reached =
    next
      (next (next start (elsewhere opening.workspaces opening.parties [] [] empty_store))
        (creates (codes "key") 2 request ids 5 opening))
      (assigns (codes "key") 2 (10 ∷ []) (record { party_id = codes "f" }) created)

Reached-IsConsistent_example : IsConsistent assigned
Reached-IsConsistent_example = Reached-IsConsistent hash parse_id assigned-Reached

abbrev confirmation : CoordConfirmStepInput
confirmation = record { party_id = codes "f"; notes = [] }

abbrev farm_step : CoordStep
farm_step = record {
  id = 10;
  workspace_id = 1;
  workflow_id = b'w';
  party_id = some b'f';
  step_role = farmer;
  step_type = "FARMER_CONFIRM";
  status = pending;
  notes = [];
  confirmed_at = none;
  created_at = 5;
}

abbrev flow : CoordWorkflow
flow = record {
  id = b'w';
  workspace_id = 1;
  batch_id = none;
  field_id = none;
  status = WorkflowStatus.not_started;
  created_by = b'f';
  created_at = 5;
  updated_at = 5;
}

abbrev row : WorkspaceRow
row = record { id = 1; key_hash = codes "key" }

known : find (λ (w : WorkspaceRow). text_eq w.key_hash (codes "key")) assigned.workspaces ≡ some row
unfolding create_workflow assign_step get_step get_workflow text_eq
known = refl

found : get_step 1 10 assigned ≡ some farm_step
unfolding create_workflow assign_step get_step get_workflow text_eq
found = refl

flow_found : get_workflow 1 b'w' assigned ≡ some flow
unfolding create_workflow assign_step get_step get_workflow text_eq
flow_found = refl

confirm_step_succeeds_example :
    (n : IsNext flow.status farmer) × ((confirm_step hash parse_id
        (codes "key")
        2
        (10 ∷ [])
        confirmation
        6
        assigned).1
      ≡ ok (confirm b'f' [] 6 farm_step))
    × (get_workflow 1 b'w'
          (confirm_step hash parse_id (codes "key") 2 (10 ∷ []) confirmation 6 assigned).0
        ≡ some (with_status n.next 6 flow))
    × (get_step 1 10
          (confirm_step hash parse_id (codes "key") 2 (10 ∷ []) confirmation 6 assigned).0
        ≡ some (confirm b'f' [] 6 farm_step))
confirm_step_succeeds_example =
    confirm_step_succeeds hash parse_id (codes "key") (codes "key") 2 row assigned assigned-Reached
      refl known (10 ∷ []) confirmation 6 10 b'f' farm_step flow refl found flow_found refl refl
      refl refl
