-- ===== src/Coordination/Invariant/Operations.antt =====
-- internal/coordination/service.go: each operation, in its transaction, keeps the invariant.
use pfas_load_control.Base.{
  true, false, not, ◌&&◌, ◌≡◌, refl, subst, inl, inr, Option, All-imp, change, All-change, Text,
  is_empty, trim_space, Bool-cases, ok, >>=-eq-ok, ok-injective, require, forbid, require_ok, arith,
}
use pfas_load_control.Workspace.{Uuid, Time}
use pfas_load_control.Coordination.Model.{
  StepRole, farmer, contractor, plant, WorkflowStatus, not_started, farmer_confirmed,
  contractor_confirmed, rejected, StepStatus, pending, confirmed, declined, CoordWorkflow,
  CoordStep, failed, invalid, invalid_transition, not_found, CoordCreateWorkflowInput,
  CoordConfirmStepInput, CoordAssignStepInput,
}
use pfas_load_control.Coordination.Store.{
  Store, role_eq, is_pending, is_step, get_party, get_workflow, get_step, change_step, assign,
  confirm, decline, insert_workflow,
}
use pfas_load_control.Coordination.Steps.{
  FreshIds, next_workflow_status, new_workflow, create_steps, step_roles, parse_optional,
  is_assigned, is_unassigned, create_in, assign_in, confirm_in, reject_in,
}
use pfas_load_control.Coordination.Invariant.{is_ready, fits, Tied, HasSteps, IsConsistent}
use pfas_load_control.Coordination.Invariant.Changes.{Keeps, Apart-changed, HasSteps-changed}
use pfas_load_control.Coordination.Invariant.Transition.{moved-IsConsistent}
use pfas_load_control.Coordination.Invariant.Creation.{
  insert_workflow_lem, create_steps_lem, created-IsConsistent,
}

-- A confirmation counts the role that comes next, and no other.
next_fits :
    (status : WorkflowStatus) (role : StepRole) {next : WorkflowStatus}
    → next_workflow_status status role ≡ ok next
    → (fits next role confirmed ≡ true) × (is_ready next ≡ false)
unfolding next_workflow_status
next_fits not_started farmer e = ground arith
next_fits farmer_confirmed contractor e = ground arith
next_fits contractor_confirmed plant e = ground arith
next_fits _ _ e = cc

next_others :
    (status : WorkflowStatus) (own role : StepRole) (step : StepStatus) {next : WorkflowStatus}
    → next_workflow_status status own ≡ ok next
    → role_eq own role ≡ false
    → fits status role step ≡ true
    → fits next role step ≡ true
unfolding next_workflow_status
next_others not_started farmer role step e h k = ground arith
next_others farmer_confirmed contractor role step e h k = ground arith
next_others contractor_confirmed plant role step e h k = ground arith
next_others _ _ role step e h k = cc

rejected_fits : (role : StepRole) (step : StepStatus) → fits rejected role step ≡ true
rejected_fits role confirmed = refl
rejected_fits role pending = refl
rejected_fits role declined = refl

assign-Keeps : (party : Uuid) → Keeps (assign party)
assign-Keeps party = record {
  same_id = λ t. refl;
  same_workspace = λ t. refl;
  same_workflow = λ t. refl;
  same_role = λ t. refl;
}

confirm-Keeps : (party : Uuid) (notes : Text) (now : Time) → Keeps (confirm party notes now)
confirm-Keeps party notes now = record {
  same_id = λ t. refl;
  same_workspace = λ t. refl;
  same_workflow = λ t. refl;
  same_role = λ t. refl;
}

decline-Keeps : (notes : Text) (now : Time) → Keeps (decline notes now)
decline-Keeps notes now = record {
  same_id = λ t. refl;
  same_workspace = λ t. refl;
  same_workflow = λ t. refl;
  same_role = λ t. refl;
}

assigned-IsConsistent :
    (workspace id party : Uuid) (s : Store)
    → IsConsistent s
    → IsConsistent (change_step workspace id (assign party) s)
unfolding change_step
assigned-IsConsistent workspace id party s c =
    let p = is_step workspace id in
    record {
      tied =
          All-change (Tied s.workflows) (Tied s.workflows) p (assign party) s.steps
            (λ t h. elim (Bool-cases (p t)) [ inl e ↦ rw e h | inr e ↦ rw e h ]) c.tied;
      apart = Apart-changed p (assign party) (assign-Keeps party) s.steps c.apart;
      complete =
          All-imp (HasSteps s.steps) (HasSteps (change p (assign party) s.steps))
            (HasSteps-changed p (assign party) (assign-Keeps party) s.steps) s.workflows c.complete;
      unready = c.unready;
    }

module _ (parse_id : Text → Option Uuid) (workspace : Uuid) (s : Store) (c : IsConsistent s) where
  pub create_in-IsConsistent :
      (input : CoordCreateWorkflowInput) (fresh : FreshIds) (now : Time)
      {out : Store × CoordWorkflow}
      → create_in parse_id input fresh now workspace s ≡ ok out
      → IsConsistent out.0
  unfolding create_in
  create_in-IsConsistent input fresh now {out} e =
      let (by, e1, f1) =
        >>=-eq-ok
          (require (parse_id input.created_by_party_id) (invalid "invalid createdByPartyId")) _ e in
      let (field, e2, f2) =
        >>=-eq-ok (parse_optional parse_id input.field_id (invalid "invalid fieldId")) _ f1 in
      let (batch, e3, f3) =
        >>=-eq-ok (parse_optional parse_id input.batch_id (invalid "invalid batchId")) _ f2 in
      let w = new_workflow workspace fresh now by field batch in
      let (s1, e4, f4) = >>=-eq-ok (insert_workflow w s) _ f3 in
      let (s2, e5, f5) = >>=-eq-ok (create_steps workspace fresh now step_roles s1) _ f4 in
      let (new_id, same1) = insert_workflow_lem w s e4 in
      let (new_steps, same2) =
        create_steps_lem workspace fresh now by field batch s (rw (← same1) at e5) in
      subst (λ (o : Store × CoordWorkflow). IsConsistent o.0) (ok-injective out f5)
        (subst IsConsistent same2
          (created-IsConsistent workspace fresh now by field batch s new_id new_steps c))

  pub assign_in-IsConsistent :
      (step_id : Text) (input : CoordAssignStepInput) {out : Store × CoordStep}
      → assign_in parse_id step_id input workspace s ≡ ok out
      → IsConsistent out.0
  unfolding assign_in
  assign_in-IsConsistent step_id input {out} e =
      let (id, e1, f1) =
        >>=-eq-ok (require (parse_id step_id) (invalid "invalid coordination input")) _ e in
      let (party, e2, f2) =
        >>=-eq-ok (require (parse_id input.party_id) (invalid "invalid coordination input")) _ f1 in
      let (step, e3, f3) = >>=-eq-ok (require (get_step workspace id s) not_found) _ f2 in
      let (row, e4, f4) =
        >>=-eq-ok
          (require (get_party workspace party s)
            (invalid "assigned party must match the step role"))
          _ f3 in
      let (u, e5, f5) =
        >>=-eq-ok
          (forbid (not (role_eq row.role step.step_role))
            (invalid "assigned party must match the step role"))
          _ f4 in
      let (v, e6, f6) =
        >>=-eq-ok
          (forbid (not (is_pending step.status && is_unassigned step.party_id))
            (invalid_transition "invalid status transition"))
          _ f5 in
      subst (λ (o : Store × CoordStep). IsConsistent o.0) (ok-injective out f6)
        (assigned-IsConsistent workspace id party s c)

  pub confirm_in-IsConsistent :
      (step_id : Text) (input : CoordConfirmStepInput) (now : Time) {out : Store × CoordStep}
      → confirm_in parse_id step_id input now workspace s ≡ ok out
      → IsConsistent out.0
  unfolding confirm_in
  confirm_in-IsConsistent step_id input now {out} e =
      let (id, e1, f1) =
        >>=-eq-ok (require (parse_id step_id) (invalid "invalid coordination input")) _ e in
      let (step, e2, f2) = >>=-eq-ok (require (get_step workspace id s) not_found) _ f1 in
      let (party, e3, f3) =
        >>=-eq-ok (require (parse_id input.party_id) (invalid "invalid coordination input")) _ f2 in
      let (u, e4, f4) =
        >>=-eq-ok
          (forbid (not (is_assigned step.party_id party && is_pending step.status))
            (invalid_transition "only the assigned party can confirm a pending step"))
          _ f3 in
      let (w, e5, f5) =
        >>=-eq-ok
          (require (get_workflow workspace step.workflow_id s) (failed "no rows in result set")) _
          f4 in
      let (next, e6, f6) = >>=-eq-ok (next_workflow_status w.status step.step_role) _ f5 in
      let (own, unready) = next_fits w.status step.step_role e6 in
      subst (λ (o : Store × CoordStep). IsConsistent o.0) (ok-injective out f6)
        (moved-IsConsistent workspace id (confirm party input.notes now)
          (confirm-Keeps party input.notes now) next now s step w (require_ok _ _ e2)
          (require_ok _ _ e5) own
          (λ role status h k. next_others w.status step.step_role role status e6 h k) unready c)

  pub reject_in-IsConsistent :
      (step_id : Text) (input : CoordConfirmStepInput) (now : Time) {out : Store × CoordStep}
      → reject_in parse_id step_id input now workspace s ≡ ok out
      → IsConsistent out.0
  unfolding reject_in
  reject_in-IsConsistent step_id input now {out} e =
      let (id, e1, f1) =
        >>=-eq-ok (require (parse_id step_id) (invalid "invalid coordination input")) _ e in
      let (u, e2, f2) =
        >>=-eq-ok
          (forbid (is_empty (trim_space input.notes)) (invalid "rejection reason is required")) _
          f1 in
      let (step, e3, f3) = >>=-eq-ok (require (get_step workspace id s) not_found) _ f2 in
      let (party, e4, f4) =
        >>=-eq-ok
          (require (parse_id input.party_id)
            (invalid_transition "only the assigned party can reject a pending step"))
          _ f3 in
      let (v, e5, f5) =
        >>=-eq-ok
          (forbid (not (is_assigned step.party_id party && is_pending step.status))
            (invalid_transition "only the assigned party can reject a pending step"))
          _ f4 in
      let (w, e6, f6) =
        >>=-eq-ok
          (require (get_workflow workspace step.workflow_id s) (failed "no rows in result set")) _
          f5 in
      subst (λ (o : Store × CoordStep). IsConsistent o.0) (ok-injective out f6)
        (moved-IsConsistent workspace id (decline input.notes now) (decline-Keeps input.notes now)
          rejected now s step w (require_ok _ _ e3) (require_ok _ _ e6) refl
          (λ role status h k. rejected_fits role status) refl c)
