-- ===== src/Coordination/Progress.antt =====
-- internal/coordination/service.go, `ConfirmStep`: the party whose turn it is can confirm.
use pfas_load_control.Base.{
  ◌+◌, true, false, ◌≡◌, refl, sym, ◌∙◌, subst, Option, some, find, find-true, find-change,
  All-find, Text, text_eq, some-injective, ok, arith,
}
use pfas_load_control.Workspace.{Uuid, Time, WorkspaceRow}
use pfas_load_control.Coordination.Model.{
  StepRole, farmer, contractor, plant, WorkflowStatus, not_started, farmer_confirmed,
  contractor_confirmed, plant_confirmed, StepStatus, pending, confirmed, declined, CoordWorkflow,
  CoordStep, CoordConfirmStepInput,
}
use pfas_load_control.Coordination.Store.{
  Store, is_pending, is_workflow, is_step, get_workflow, get_step, with_status, change_step,
  set_workflow_status, confirm, in_workspace,
}
use pfas_load_control.Coordination.Steps.{
  next_workflow_status, is_assigned, confirm_in, confirm_step,
}
use pfas_load_control.Coordination.Invariant.{rank, level, is_rejected, fits, Tied, IsConsistent}
use pfas_load_control.Coordination.Invariant.Transition.{is_step_key}
use pfas_load_control.Coordination.Invariant.Reached.{Reached, Reached-IsConsistent}

turn_pending :
    (status : WorkflowStatus) (role : StepRole) (step : StepStatus)
    → is_rejected status ≡ false
    → rank role ≡ level status
    → fits status role step ≡ true
    → is_pending step ≡ true
turn_pending status role pending h e k = refl
turn_pending status role confirmed h e k = ground arith
turn_pending status role declined h e k = ground arith

-- What a confirmation in turn makes of the status.
pub record IsNext (status : WorkflowStatus) (role : StepRole) : Type 0 where
  pub next : WorkflowStatus
  pub permitted : next_workflow_status status role ≡ ok next
  pub counted : level next ≡ level status + 1
  pub not_rejected : is_rejected next ≡ false

turn-IsNext :
    (status : WorkflowStatus) (role : StepRole)
    → is_rejected status ≡ false
    → rank role ≡ level status
    → IsNext status role
unfolding next_workflow_status
turn-IsNext not_started farmer h e = record {
  next = farmer_confirmed;
  permitted = refl;
  counted = refl;
  not_rejected = refl;
}
turn-IsNext farmer_confirmed contractor h e = record {
  next = contractor_confirmed;
  permitted = refl;
  counted = refl;
  not_rejected = refl;
}
turn-IsNext contractor_confirmed plant h e = record {
  next = plant_confirmed;
  permitted = refl;
  counted = refl;
  not_rejected = refl;
}
turn-IsNext _ _ h e = absurd (ground arith)

module _ (parse_id : Text → Option Uuid) (workspace : Uuid) (s : Store) (c : IsConsistent s)
    (step_id : Text) (input : CoordConfirmStepInput) (now : Time) (id party : Uuid)
    (step : CoordStep) (w : CoordWorkflow) (parsed : parse_id step_id ≡ some id)
    (found : get_step workspace id s ≡ some step)
    (flow : get_workflow workspace step.workflow_id s ≡ some w)
    (open_flow : is_rejected w.status ≡ false) (turn : rank step.step_role ≡ level w.status)
    (signed : parse_id input.party_id ≡ some party)
    (entitled : is_assigned step.party_id party ≡ true) where
  step_pending : is_pending step.status ≡ true
  unfolding get_step get_workflow
  step_pending =
      let (v, e, fit) = All-find (Tied s.workflows) (is_step workspace id) s.steps c.tied found in
      let (_, space) =
        is_step_key workspace id step (find-true (is_step workspace id) s.steps found) in
      let same : v ≡ w = some-injective (sym (rw space at e) ∙ flow) in
      turn_pending w.status step.step_role step.status open_flow turn
        (subst (λ (x : CoordWorkflow). fits x.status step.step_role step.status ≡ true) same fit)

  abbrev confirmed_store : WorkflowStatus → Store
  confirmed_store next =
      set_workflow_status workspace step.workflow_id next now
        (change_step workspace id (confirm party input.notes now) s)

  pub confirm_in_turn :
      (n : IsNext w.status step.step_role)
      → confirm_in parse_id step_id input now workspace s
        ≡ ok (confirmed_store n.next, confirm party input.notes now step)
  unfolding confirm_in
  confirm_in_turn n = rw (parsed, found, signed, entitled, step_pending, flow, n.permitted) refl

  pub confirmed_workflow :
      (next : WorkflowStatus)
      → get_workflow workspace step.workflow_id (confirmed_store next)
        ≡ some (with_status next now w)
  unfolding get_workflow set_workflow_status change_step
  confirmed_workflow next =
      find-change (is_workflow workspace step.workflow_id) (with_status next now) s.workflows flow
        (find-true (is_workflow workspace step.workflow_id) s.workflows flow)

  pub confirmed_step :
      (next : WorkflowStatus)
      → get_step workspace id (confirmed_store next) ≡ some (confirm party input.notes now step)
  unfolding get_step set_workflow_status change_step
  confirmed_step next =
      find-change (is_step workspace id) (confirm party input.notes now) s.steps found
        (find-true (is_step workspace id) s.steps found)

-- In a reached store, for a key of a known workspace.
module _ (hash : Text → Option Text) (parse_id : Text → Option Uuid) (key key_hash : Text)
    (fresh : Uuid) (row : WorkspaceRow) (s : Store) (reached : Reached hash parse_id s)
    (hashed : hash key ≡ some key_hash)
    (known : find (λ (w : WorkspaceRow). text_eq w.key_hash key_hash) s.workspaces ≡ some row) where
  -- In every store that the service reaches, the party that is assigned to the step whose role
  -- comes next in a workflow that is not rejected can confirm it: with the key of a known
  -- workspace the call succeeds whatever the notes, the step is then stored as confirmed, and
  -- the workflow has the status that counts one confirmation more and is not rejected.
  pub confirm_step_succeeds :
      (step_id : Text) (input : CoordConfirmStepInput) (now : Time) (id party : Uuid)
      (step : CoordStep) (w : CoordWorkflow)
      → parse_id step_id ≡ some id
      → get_step row.id id s ≡ some step
      → get_workflow row.id step.workflow_id s ≡ some w
      → is_rejected w.status ≡ false
      → rank step.step_role ≡ level w.status
      → parse_id input.party_id ≡ some party
      → is_assigned step.party_id party ≡ true
      → (n : IsNext w.status step.step_role) × ((confirm_step hash parse_id key fresh step_id input
            now s).1
          ≡ ok (confirm party input.notes now step))
        × (get_workflow row.id step.workflow_id
              (confirm_step hash parse_id key fresh step_id input now s).0
            ≡ some (with_status n.next now w))
        × (get_step row.id id (confirm_step hash parse_id key fresh step_id input now s).0
            ≡ some (confirm party input.notes now step))
  unfolding confirm_step in_workspace
  confirm_step_succeeds step_id input now id party step w parsed found flow open_flow turn signed
        entitled =
      let c = Reached-IsConsistent hash parse_id reached in
      let n = turn-IsNext w.status step.step_role open_flow turn in
      let done =
        confirm_in_turn parse_id row.id s c step_id input now id party step w parsed found flow
          open_flow turn signed entitled n in
      (
        n,
        rw (confirm_step, in_workspace, hashed, known, done) refl,
        rw (confirm_step, in_workspace, hashed, known, done)
            (confirmed_workflow parse_id row.id s c step_id input now id party step w parsed found
              flow open_flow turn signed entitled n.next),
        rw (confirm_step, in_workspace, hashed, known, done)
            (confirmed_step parse_id row.id s c step_id input now id party step w parsed found flow
              open_flow turn signed entitled n.next),
      )
