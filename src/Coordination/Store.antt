-- ===== src/Coordination/Store.antt =====
-- The tables behind internal/coordination/service.go, with the queries of db/queries/coordination.sql,
-- and transactions.
use pfas_load_control.Base.{
  Bool, true, false, not, ◌&&◌, ◌==◌, Option, none, some, List, [], ◌∷◌, ◌++◌, any, find, change,
  Text, text_eq, Result, panic, ok, err, ◌>>=◌, require, forbid,
}
use pfas_load_control.Workspace.{Uuid, Time, WorkspaceRow}
use pfas_load_control.Coordination.Model.{
  StepRole, farmer, contractor, plant, WorkflowStatus, StepStatus, pending, confirmed, declined,
  CoordWorkflow, CoordStep, CoordDocument, CoordNotification, PartyRow, FieldRow, CoordError,
  invalid, failed,
}

abbrev pub Outcome : Type 0 → Type 0
Outcome A = Result CoordError A

pub record Store : Type 0 where
  pub workspaces : List WorkspaceRow
  pub parties : List PartyRow
  pub fields : List FieldRow
  pub workflows : List CoordWorkflow
  pub steps : List CoordStep
  pub documents : List CoordDocument
  pub notifications : List CoordNotification

abbrev pub role_eq : StepRole → StepRole → Bool
role_eq farmer farmer = true
role_eq contractor contractor = true
role_eq plant plant = true
role_eq _ _ = false

abbrev pub is_pending : StepStatus → Bool
is_pending pending = true
is_pending _ = false

abbrev pub is_party : Uuid → Uuid → PartyRow → Bool
is_party workspace id p = p.id == id && p.workspace_id == workspace

abbrev pub is_workflow : Uuid → Uuid → CoordWorkflow → Bool
is_workflow workspace id w = w.id == id && w.workspace_id == workspace

abbrev pub is_step : Uuid → Uuid → CoordStep → Bool
is_step workspace id t = t.id == id && t.workspace_id == workspace

-- `GetParty`, `GetCoordinationStep`, and the status of a workflow under its lock.
unfoldable pub get_party : Uuid → Uuid → Store → Option PartyRow
unfolding find
get_party workspace id s = find (is_party workspace id) s.parties

unfoldable pub get_workflow : Uuid → Uuid → Store → Option CoordWorkflow
unfolding find
get_workflow workspace id s = find (is_workflow workspace id) s.workflows

unfoldable pub get_step : Uuid → Uuid → Store → Option CoordStep
unfolding find
get_step workspace id s = find (is_step workspace id) s.steps

-- `UpdateCoordinationWorkflowStatus`
abbrev pub with_status : WorkflowStatus → Time → CoordWorkflow → CoordWorkflow
with_status status now w = record w { status = status; updated_at = now }

unfoldable pub set_workflow_status : Uuid → Uuid → WorkflowStatus → Time → Store → Store
unfolding change
set_workflow_status workspace id status now s = record s {
  workflows = change (is_workflow workspace id) (with_status status now) s.workflows;
}

unfoldable pub change_step : Uuid → Uuid → (CoordStep → CoordStep) → Store → Store
unfolding change
change_step workspace id f s = record s { steps = change (is_step workspace id) f s.steps }

-- `ConfirmCoordinationStep`, `RejectCoordinationStep` and the update of `AssignStep`, on a row.
abbrev pub confirm : Uuid → Text → Time → CoordStep → CoordStep
confirm party notes now t = record t {
  status = confirmed;
  party_id = some party;
  notes = notes;
  confirmed_at = some now;
}

abbrev pub decline : Text → Time → CoordStep → CoordStep
decline notes now t = record t { status = declined; notes = notes; confirmed_at = some now }

abbrev pub assign : Uuid → CoordStep → CoordStep
assign party t = record t { party_id = some party }

-- The primary and foreign keys that an insertion of a workflow or a step checks.
abbrev pub has_field : Uuid → Option Uuid → Store → Bool
has_field workspace none s = true
has_field workspace (some id) s =
    any (λ (f : FieldRow). f.id == id && f.workspace_id == workspace) s.fields

unfoldable pub insert_workflow : CoordWorkflow → Store → Outcome Store
unfolding find
insert_workflow w s = do
  fresh ← forbid (any (λ (x : CoordWorkflow). x.id == w.id) s.workflows) (failed "create workflow")
  creator ←
      require (find (is_party w.workspace_id w.created_by) s.parties) (failed "create workflow")
  known ← forbid (not (has_field w.workspace_id w.field_id s)) (failed "create workflow")
  ok (record s { workflows = s.workflows ++ w ∷ [] })

unfoldable pub insert_step : CoordStep → Store → Outcome Store
unfolding find
insert_step t s = do
  fresh ← forbid (any (λ (x : CoordStep). x.id == t.id) s.steps) (failed "create step")
  workflow ←
      require (find (is_workflow t.workspace_id t.workflow_id) s.workflows) (failed "create step")
  ok (record s { steps = s.steps ++ t ∷ [] })

-- A transaction: the store that it leaves is kept if it commits, and rolled back if it fails.
abbrev pub commit : {A : Type 0} → Store → Outcome (Store × A) → Store × Outcome A
commit s panic = (s, panic)
commit s (err e) = (s, err e)
commit s (ok (s', a)) = (s', ok a)

-- `resolveWorkspace`: a workspace with a new key is stored, whatever becomes of the transaction.
unfoldable pub in_workspace :
    {A : Type 0}
    → (Text → Option Text)
    → Text
    → Uuid
    → (Uuid → Store → Outcome (Store × A))
    → Store
    → Store × Outcome A
unfolding find
in_workspace hash key fresh body s = elim (hash key) [
  | none ↦ (s, err (invalid "workspace key is malformed"))
  | some key_hash ↦ elim (find (λ (w : WorkspaceRow). text_eq w.key_hash key_hash) s.workspaces) [
    | some w ↦ commit s (body w.id s)
    | none ↦
        let s' = record s {
          workspaces = s.workspaces ++ (record { id = fresh; key_hash = key_hash }) ∷ [];
        } in
        commit s' (body fresh s')
  ]
]
