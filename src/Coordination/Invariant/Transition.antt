-- ===== src/Coordination/Invariant/Transition.antt =====
-- internal/coordination/service.go, `ConfirmStep` and `RejectStep`: a step and the status of its
-- workflow change together.
use pfas_load_control.Base.{
  ==-refl, ==-true, ==-sym, Bool, true, false, ◌==◌, ◌≡◌, refl, sym, ◌∙◌, subst, ◌⊎◌, inl, inr,
  some, List, change, changed, find-true, find_after, All-change, All-apart, All-both, Bool-cases,
  &&-eq-true, some-injective,
}
use pfas_load_control.Workspace.{Uuid, Time}
use pfas_load_control.Coordination.Model.{
  StepRole, WorkflowStatus, StepStatus, CoordWorkflow, CoordStep,
}
use pfas_load_control.Coordination.Store.{
  Store, role_eq, is_workflow, is_step, get_workflow, get_step, with_status, set_workflow_status,
  change_step,
}
use pfas_load_control.Coordination.Invariant.{
  is_ready, fits, is_slot, Apart, Tied, HasSteps, IsConsistent,
}
use pfas_load_control.Coordination.Invariant.Changes.{
  Apart-sym, Keeps, Apart-changed, HasSteps-changed,
}

pub is_workflow_key :
    (workspace id : Uuid) (w : CoordWorkflow)
    → is_workflow workspace id w ≡ true
    → (w.id ≡ id) × (w.workspace_id ≡ workspace)
is_workflow_key workspace id w e =
    let (a, b) = &&-eq-true (w.id == id) (w.workspace_id == workspace) e in
    (==-true _ _ a, ==-true _ _ b)

pub is_step_key :
    (workspace id : Uuid) (t : CoordStep)
    → is_step workspace id t ≡ true
    → (t.id ≡ id) × (t.workspace_id ≡ workspace)
is_step_key workspace id t e =
    let (a, b) = &&-eq-true (t.id == id) (t.workspace_id == workspace) e in
    (==-true _ _ a, ==-true _ _ b)

-- Steps of one workflow that are apart differ in their roles.
role_differs :
    (x y : CoordStep)
    → y.workflow_id ≡ x.workflow_id
    → y.workspace_id ≡ x.workspace_id
    → is_slot y.workspace_id y.workflow_id y.step_role x ≡ false
    → role_eq x.step_role y.step_role ≡ false
role_differs x y a b h = rw (a, b, ==-refl x.workflow_id, ==-refl x.workspace_id) at h

-- The test for a workflow does not see a change of its status.
is_workflow_kept :
    (p : CoordWorkflow → Bool) (next : WorkflowStatus) (now : Time) (workspace id : Uuid)
    (x : CoordWorkflow)
    → is_workflow workspace id (changed p (with_status next now) x) ≡ is_workflow workspace id x
is_workflow_kept p next now workspace id x = elim (Bool-cases (p x)) [
  | inl e ↦ rw e refl
  | inr e ↦ rw e refl
]

module _ (workspace id : Uuid) (f : CoordStep → CoordStep) (k : Keeps f) (next : WorkflowStatus)
    (now : Time) (s : Store) (step : CoordStep) (w : CoordWorkflow)
    (found : get_step workspace id s ≡ some step)
    (flow : get_workflow workspace step.workflow_id s ≡ some w)
    (own : fits next step.step_role (f step).status ≡ true)
    (others : (role : StepRole) (status : StepStatus)
      → role_eq step.step_role role ≡ false
      → fits w.status role status ≡ true
      → fits next role status ≡ true) where
  abbrev moved_workflows : List CoordWorkflow
  moved_workflows =
      change (is_workflow workspace step.workflow_id) (with_status next now) s.workflows

  of_workspace : step.workspace_id ≡ workspace
  unfolding get_step
  of_workspace = (is_step_key workspace id step (find-true (is_step workspace id) s.steps found)).1

  Tied-own : Tied moved_workflows (f step)
  unfolding get_workflow
  Tied-own =
      let p = is_workflow workspace step.workflow_id in
      (
        with_status next now w,
        rw (k.same_workspace step, k.same_workflow step, of_workspace)
            (find_after p p (with_status next now) s.workflows
                (is_workflow_kept p next now workspace step.workflow_id) flow
              ∙ rw (find-true p s.workflows flow) refl),
        rw (k.same_role step) own,
      )

  Tied-other : (y : CoordStep) → Tied s.workflows y → Apart step y → Tied moved_workflows y
  unfolding get_workflow
  Tied-other y (v, e, fit) (_, slot) =
      let p = is_workflow workspace step.workflow_id in
      let (y1, y2) =
        is_workflow_key y.workspace_id y.workflow_id v
          (find-true (is_workflow y.workspace_id y.workflow_id) s.workflows e) in
      let moved =
        find_after (is_workflow y.workspace_id y.workflow_id) p (with_status next now) s.workflows
          (is_workflow_kept p next now y.workspace_id y.workflow_id) e in
      elim (Bool-cases (p v)) [
        | inl here ↦
            let (v1, v2) = is_workflow_key workspace step.workflow_id v here in
            let flow_eq : y.workflow_id ≡ step.workflow_id = sym y1 ∙ v1 in
            let space_eq : y.workspace_id ≡ workspace = sym y2 ∙ v2 in
            let same : v ≡ w = some-injective (sym (rw (space_eq, flow_eq) at e) ∙ flow) in
            (
              with_status next now v,
              moved ∙ rw here refl,
              others y.step_role y.status
                  (role_differs step y flow_eq (space_eq ∙ sym of_workspace) slot)
                  (subst (λ (x : CoordWorkflow). fits x.status y.step_role y.status ≡ true) same
                    fit),
            )
        | inr apart ↦ (v, moved ∙ rw apart refl, fit)
      ]

  Tied-moved :
      (y : CoordStep)
      → Tied s.workflows y × ((y ≡ step) ⊎ Apart step y)
      → Tied moved_workflows (changed (is_step workspace id) f y)
  unfolding get_step
  Tied-moved y (t, inl same) =
      subst (λ z. Tied moved_workflows (changed (is_step workspace id) f z)) (sym same)
        (rw (find-true (is_step workspace id) s.steps found) Tied-own)
  Tied-moved y (t, inr (other, slot)) =
      let e = (is_step_key workspace id step (find-true (is_step workspace id) s.steps found)).0 in
      let elsewhere : (y.id == id) ≡ false = rw e at (==-sym y.id step.id ∙ other) in
      rw elsewhere (Tied-other y t (other, slot))

  pub moved-IsConsistent :
      is_ready next ≡ false
      → IsConsistent s
      → IsConsistent
          (set_workflow_status workspace step.workflow_id next now (change_step workspace id f s))
  unfolding set_workflow_status change_step get_step
  moved-IsConsistent unready c =
      let q = is_workflow workspace step.workflow_id in
      let p = is_step workspace id in
      record {
        tied =
            All-change (λ y. Tied s.workflows y × ((y ≡ step) ⊎ Apart step y))
              (Tied moved_workflows) p f s.steps Tied-moved
              (All-both (Tied s.workflows) (λ y. (y ≡ step) ⊎ Apart step y) s.steps c.tied
                (All-apart Apart p s.steps Apart-sym c.apart found));
        apart = Apart-changed p f k s.steps c.apart;
        complete =
            All-change (HasSteps s.steps) (HasSteps (change p f s.steps)) q (with_status next now)
              s.workflows
              (λ v h. elim (Bool-cases (q v)) [
                | inl here ↦ rw here (HasSteps-changed p f k s.steps v h)
                | inr apart ↦ rw apart (HasSteps-changed p f k s.steps v h)
              ])
              c.complete;
        unready =
            All-change (λ (v : CoordWorkflow). is_ready v.status ≡ false)
              (λ (v : CoordWorkflow). is_ready v.status ≡ false) q (with_status next now)
              s.workflows
              (λ v h. elim (Bool-cases (q v)) [
                | inl here ↦ rw here unready
                | inr apart ↦ rw apart h
              ])
              c.unready;
      }
