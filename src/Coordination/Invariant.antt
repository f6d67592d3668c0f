-- ===== src/Coordination/Invariant.antt =====
-- internal/coordination/service.go: what the steps of a workflow say about its status.
pub mod Changes
pub mod Transition
pub mod Creation
pub mod Operations
pub mod Reached
use pfas_load_control.Base.{
  ℕ, Bool, true, false, ◌&&◌, ◌||◌, ◌==◌, ltb, leb, ◌≡◌, refl, Option, some, List, All, Ordered,
  find,
}
use pfas_load_control.Workspace.{Uuid}
use pfas_load_control.Coordination.Model.{
  StepRole, farmer, contractor, plant, WorkflowStatus, not_started, farmer_confirmed,
  contractor_confirmed, plant_confirmed, ready, rejected, StepStatus, pending, confirmed, declined,
  CoordWorkflow, CoordStep,
}
use pfas_load_control.Coordination.Store.{Store, role_eq, is_workflow}

-- The place of a role in the order of the confirmations, and the confirmations that a status counts.
abbrev pub rank : StepRole → ℕ
rank farmer = 0
rank contractor = 1
rank plant = 2

abbrev pub level : WorkflowStatus → ℕ
level not_started = 0
level farmer_confirmed = 1
level contractor_confirmed = 2
level _ = 3

abbrev pub is_rejected : WorkflowStatus → Bool
is_rejected rejected = true
is_rejected _ = false

abbrev pub is_ready : WorkflowStatus → Bool
is_ready ready = true
is_ready _ = false

-- A step is declined only in a rejected workflow; in any other the confirmed steps are the first.
abbrev pub fits : WorkflowStatus → StepRole → StepStatus → Bool
fits status role confirmed = is_rejected status || ltb (rank role) (level status)
fits status role pending = is_rejected status || leb (level status) (rank role)
fits status role declined = is_rejected status

abbrev pub is_slot : Uuid → Uuid → StepRole → CoordStep → Bool
is_slot workspace workflow role t =
    t.workflow_id == workflow && t.workspace_id == workspace && role_eq t.step_role role

-- Two rows with neither the same identifier nor the same role in the same workflow.
abbrev pub Apart : CoordStep → CoordStep → Type 0
Apart x y = ((x.id == y.id) ≡ false) × (is_slot y.workspace_id y.workflow_id y.step_role x ≡ false)

abbrev pub Tied : List CoordWorkflow → CoordStep → Type 0
Tied workflows t =
    (w : CoordWorkflow) × (find (is_workflow t.workspace_id t.workflow_id) workflows ≡ some w)
    × (fits w.status t.step_role t.status ≡ true)

abbrev pub HasSteps : List CoordStep → CoordWorkflow → Type 0
HasSteps steps w =
    (role : StepRole) → (t : CoordStep) × (find (is_slot w.workspace_id w.id role) steps ≡ some t)

pub record IsConsistent (s : Store) : Type 0 where
  pub tied : All (Tied s.workflows) s.steps
  pub apart : Ordered Apart s.steps
  pub complete : All (HasSteps s.steps) s.workflows
  pub unready : All (λ (w : CoordWorkflow). is_ready w.status ≡ false) s.workflows
