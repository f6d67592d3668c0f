-- ===== src/Coordination/Invariant/Creation.antt =====
-- internal/coordination/service.go, `CreateWorkflow`: the three steps of a new workflow.
use pfas_load_control.Base.{
  ==-refl, true, false, not, ◌==◌, ◌≡◌, refl, ◌∙◌, subst, Option, some, List, [], ◌∷◌, ◌++◌, any,
  All, All-imp, All-append, All-any, All-find, All-both, Ordered-last, find, find-true, find-append,
  find_last, find_new, ok, >>=-eq-ok, ok-injective, require, forbid, forbid_ok,
}
use pfas_load_control.Workspace.{Uuid, Time}
use pfas_load_control.Coordination.Model.{
  StepRole, farmer, contractor, plant, CoordWorkflow, CoordStep, failed,
}
use pfas_load_control.Coordination.Store.{
  Store, role_eq, is_party, is_workflow, has_field, insert_workflow, insert_step,
}
use pfas_load_control.Coordination.Steps.{
  FreshIds, new_step, new_workflow, create_steps, step_roles,
}
use pfas_load_control.Coordination.Invariant.{
  is_ready, is_slot, Apart, Tied, HasSteps, IsConsistent,
}
use pfas_load_control.Coordination.Invariant.Transition.{is_workflow_key}

abbrev pub with_step : CoordStep → Store → Store
with_step t s = record s { steps = s.steps ++ t ∷ [] }

abbrev pub with_workflow : CoordWorkflow → Store → Store
with_workflow w s = record s { workflows = s.workflows ++ w ∷ [] }

pub insert_workflow_lem :
    (w : CoordWorkflow) (s : Store) {s' : Store}
    → insert_workflow w s ≡ ok s'
    → All (λ (x : CoordWorkflow). (x.id == w.id) ≡ false) s.workflows × (with_workflow w s ≡ s')
unfolding insert_workflow
insert_workflow_lem w s {s'} e =
    let (u, e1, e2) =
      >>=-eq-ok
        (forbid (any (λ (x : CoordWorkflow). x.id == w.id) s.workflows) (failed "create workflow"))
        _ e in
    let (p, e3, e4) =
      >>=-eq-ok
        (require (find (is_party w.workspace_id w.created_by) s.parties) (failed "create workflow"))
        _ e2 in
    let (v, e5, e6) =
      >>=-eq-ok (forbid (not (has_field w.workspace_id w.field_id s)) (failed "create workflow")) _
        e4 in
    (
      All-any (λ (x : CoordWorkflow). x.id == w.id) s.workflows (forbid_ok _ _ e1),
      ok-injective s' e6,
    )

insert_step_lem :
    (t : CoordStep) (s : Store) {s' : Store}
    → insert_step t s ≡ ok s'
    → All (λ (x : CoordStep). (x.id == t.id) ≡ false) s.steps × (with_step t s ≡ s')
unfolding insert_step
insert_step_lem t s {s'} e =
    let (u, e1, e2) =
      >>=-eq-ok (forbid (any (λ (x : CoordStep). x.id == t.id) s.steps) (failed "create step")) _
        e in
    let (w, e3, e4) =
      >>=-eq-ok
        (require (find (is_workflow t.workspace_id t.workflow_id) s.workflows)
          (failed "create step"))
        _ e2 in
    (All-any (λ (x : CoordStep). x.id == t.id) s.steps (forbid_ok _ _ e1), ok-injective s' e4)

module _ (workspace : Uuid) (fresh : FreshIds) (now : Time) (created_by : Uuid)
    (field_id batch_id : Option Uuid) (s : Store) where
  abbrev pub w : CoordWorkflow
  w = new_workflow workspace fresh now created_by field_id batch_id

  abbrev pub step_of : StepRole → CoordStep
  step_of = new_step workspace fresh now

  abbrev pub created : Store
  created =
      with_step (step_of plant)
        (with_step (step_of contractor) (with_step (step_of farmer) (with_workflow w s)))

  -- What the keys of the new steps were checked against.
  pub record AreNew : Type 0 where
    pub new_farmer : All (λ (x : CoordStep). (x.id == fresh.step farmer) ≡ false) s.steps
    pub new_contractor :
        All
          (λ (x : CoordStep). (x.id == fresh.step contractor) ≡ false)
          (s.steps ++ step_of farmer ∷ [])
    pub new_plant :
        All
          (λ (x : CoordStep). (x.id == fresh.step plant) ≡ false)
          ((s.steps ++ step_of farmer ∷ []) ++ step_of contractor ∷ [])

  pub create_steps_lem :
      {s' : Store}
      → create_steps workspace fresh now step_roles (with_workflow w s) ≡ ok s'
      → AreNew × (created ≡ s')
  unfolding create_steps
  create_steps_lem {s'} e =
      let (s1, a1, b1) = >>=-eq-ok (insert_step (step_of farmer) (with_workflow w s)) _ e in
      let (s2, a2, b2) = >>=-eq-ok (insert_step (step_of contractor) s1) _ b1 in
      let (s3, a3, b3) = >>=-eq-ok (insert_step (step_of plant) s2) _ b2 in
      let (n1, e1) = insert_step_lem (step_of farmer) (with_workflow w s) a1 in
      let (n2, e2) =
        insert_step_lem (step_of contractor) (with_step (step_of farmer) (with_workflow w s))
          (rw (← e1) at a2) in
      let (n3, e3) =
        insert_step_lem (step_of plant)
          (with_step (step_of contractor) (with_step (step_of farmer) (with_workflow w s)))
          (rw (← e2) at a3) in
      (record { new_farmer = n1; new_contractor = n2; new_plant = n3 }, e3 ∙ ok-injective s' b3)

  -- No workflow has the new identifier, so no step is in a workflow with it.
  module _
      (new_workflow_id : All
        (λ (x : CoordWorkflow). (x.id == fresh.workflow) ≡ false)
        s.workflows) where
    is_new : find (is_workflow workspace fresh.workflow) (s.workflows ++ w ∷ []) ≡ some w
    is_new =
        find_new (is_workflow workspace fresh.workflow) s.workflows w
          (All-imp (λ (x : CoordWorkflow). (x.id == fresh.workflow) ≡ false)
            (λ x. is_workflow workspace fresh.workflow x ≡ false) (λ x h. rw h refl) s.workflows
            new_workflow_id)
          (rw (==-refl fresh.workflow, ==-refl workspace) refl)

    elsewhere : (t : CoordStep) → Tied s.workflows t → (t.workflow_id == fresh.workflow) ≡ false
    elsewhere t (v, e, _) =
        let (v1, _) = is_workflow_key t.workspace_id t.workflow_id v (find-true _ s.workflows e) in
        subst (λ i. (i == fresh.workflow) ≡ false) v1
          (All-find (λ (x : CoordWorkflow). (x.id == fresh.workflow) ≡ false) _ s.workflows
            new_workflow_id e)

    no_slot :
        (role : StepRole) (t : CoordStep)
        → Tied s.workflows t
        → is_slot workspace fresh.workflow role t ≡ false
    no_slot role t h = rw (elsewhere t h) refl

    Tied-new : (role : StepRole) → Tied (s.workflows ++ w ∷ []) (step_of role)
    Tied-new farmer = (w, is_new, refl)
    Tied-new contractor = (w, is_new, refl)
    Tied-new plant = (w, is_new, refl)

    -- A row with a new identifier, in a slot that no row has, is apart from them.
    Apart-new :
        (role : StepRole) (steps : List CoordStep)
        → All (λ (x : CoordStep). (x.id == fresh.step role) ≡ false) steps
        → All (λ x. is_slot workspace fresh.workflow role x ≡ false) steps
        → All (λ x. Apart x (step_of role)) steps
    Apart-new role steps h k =
        All-both (λ (x : CoordStep). (x.id == fresh.step role) ≡ false)
          (λ x. is_slot workspace fresh.workflow role x ≡ false) steps h k

    slot_of :
        (role other : StepRole)
        → role_eq other role ≡ false
        → is_slot workspace fresh.workflow role (step_of other) ≡ false
    slot_of role other h = rw (==-refl fresh.workflow, ==-refl workspace) h

    own_slot :
        (role : StepRole)
        → role_eq role role ≡ true
        → is_slot workspace fresh.workflow role (step_of role) ≡ true
    own_slot role h = rw (==-refl fresh.workflow, ==-refl workspace) h

    new-HasSteps : HasSteps created.steps w
    new-HasSteps farmer =
        let (t, e) =
          find_last (is_slot workspace fresh.workflow farmer) s.steps (step_of farmer)
            (own_slot farmer refl) in
        (
          t,
          find-append _ (_ ++ step_of contractor ∷ []) (step_of plant ∷ [])
              (find-append _ (s.steps ++ step_of farmer ∷ []) (step_of contractor ∷ []) e),
        )
    new-HasSteps contractor =
        let (t, e) =
          find_last (is_slot workspace fresh.workflow contractor) (s.steps ++ step_of farmer ∷ [])
            (step_of contractor) (own_slot contractor refl) in
        (t, find-append _ (_ ++ step_of contractor ∷ []) (step_of plant ∷ []) e)
    new-HasSteps plant =
        find_last (is_slot workspace fresh.workflow plant)
          ((s.steps ++ step_of farmer ∷ []) ++ step_of contractor ∷ []) (step_of plant)
          (own_slot plant refl)

    old-HasSteps : (v : CoordWorkflow) → HasSteps s.steps v → HasSteps created.steps v
    old-HasSteps v h role =
        let (t, e) = h role in
        (
          t,
          find-append _ (_ ++ step_of contractor ∷ []) (step_of plant ∷ []) (
              find-append _ (s.steps ++ step_of farmer ∷ []) (step_of contractor ∷ [])
                (find-append _ s.steps (step_of farmer ∷ []) e)),
        )

    pub created-IsConsistent : AreNew → IsConsistent s → IsConsistent created
    created-IsConsistent n c =
        let T = Tied (s.workflows ++ w ∷ []) in
        let no_slots = λ (role : StepRole).
          All-imp (Tied s.workflows) (λ x. is_slot workspace fresh.workflow role x ≡ false)
            (no_slot role) s.steps c.tied in
        let with_farmer = s.steps ++ step_of farmer ∷ [] in
        let with_contractor = with_farmer ++ step_of contractor ∷ [] in
        let kept =
          All-imp (Tied s.workflows) T
            (λ t (v, e, fit). (
              v,
              find-append (is_workflow t.workspace_id t.workflow_id) s.workflows (w ∷ []) e,
              fit,
            ))
            s.steps c.tied in
        record {
          tied =
              All-append T with_contractor (step_of plant ∷ [])
                (All-append T with_farmer (step_of contractor ∷ [])
                  (All-append T s.steps (step_of farmer ∷ []) kept (Tied-new farmer, tt))
                  (Tied-new contractor, tt))
                (Tied-new plant, tt);
          apart =
              Ordered-last Apart with_contractor (step_of plant)
                (Ordered-last Apart with_farmer (step_of contractor)
                  (Ordered-last Apart s.steps (step_of farmer) c.apart
                    (Apart-new farmer s.steps n.new_farmer (no_slots farmer)))
                  (Apart-new contractor with_farmer n.new_contractor (
                    All-append _ s.steps (step_of farmer ∷ []) (no_slots contractor)
                      (slot_of contractor farmer refl, tt))))
                (Apart-new plant with_contractor n.new_plant (
                  All-append _ with_farmer (step_of contractor ∷ [])
                    (All-append _ s.steps (step_of farmer ∷ []) (no_slots plant)
                      (slot_of plant farmer refl, tt))
                    (slot_of plant contractor refl, tt)));
          complete =
              All-append (HasSteps created.steps) s.workflows (w ∷ [])
                (All-imp (HasSteps s.steps) (HasSteps created.steps) old-HasSteps s.workflows
                  c.complete)
                (new-HasSteps, tt);
          unready =
              All-append (λ (v : CoordWorkflow). is_ready v.status ≡ false) s.workflows (w ∷ [])
                c.unready (refl, tt);
        }
