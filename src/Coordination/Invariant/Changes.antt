-- ===== src/Coordination/Invariant/Changes.antt =====
-- internal/coordination/service.go, `AssignStep`, `ConfirmStep` and `RejectStep`: the steps and the
-- status change together.
use pfas_load_control.Base.{
  ==-sym, Bool, ◌≡◌, refl, ◌∙◌, inl, inr, List, Ordered, change, changed, find_after,
  Ordered-change, Bool-cases,
}
use pfas_load_control.Workspace.{Uuid}
use pfas_load_control.Coordination.Model.{
  StepRole, farmer, contractor, plant, CoordWorkflow, CoordStep,
}
use pfas_load_control.Coordination.Store.{role_eq}
use pfas_load_control.Coordination.Invariant.{is_slot, Apart, HasSteps}

role_eq_sym : (a b : StepRole) → role_eq a b ≡ role_eq b a
role_eq_sym farmer farmer = refl
role_eq_sym farmer contractor = refl
role_eq_sym farmer plant = refl
role_eq_sym contractor farmer = refl
role_eq_sym contractor contractor = refl
role_eq_sym contractor plant = refl
role_eq_sym plant farmer = refl
role_eq_sym plant contractor = refl
role_eq_sym plant plant = refl

pub Apart-sym : (x y : CoordStep) → Apart x y → Apart y x
Apart-sym x y (h, k) = (
  ==-sym y.id x.id ∙ h,
  rw
      (
        ==-sym y.workflow_id x.workflow_id,
        ==-sym y.workspace_id x.workspace_id,
        role_eq_sym y.step_role x.step_role,
      )
      k,
)

-- A change of a step that leaves its keys alone.
pub record Keeps (f : CoordStep → CoordStep) : Type 0 where
  pub same_id : (t : CoordStep) → (f t).id ≡ t.id
  pub same_workspace : (t : CoordStep) → (f t).workspace_id ≡ t.workspace_id
  pub same_workflow : (t : CoordStep) → (f t).workflow_id ≡ t.workflow_id
  pub same_role : (t : CoordStep) → (f t).step_role ≡ t.step_role

pub changed-Keeps :
    (p : CoordStep → Bool) (f : CoordStep → CoordStep) → Keeps f → Keeps (changed p f)
changed-Keeps p f k = record {
  same_id = λ t. elim (Bool-cases (p t)) [ inl e ↦ rw e (k.same_id t) | inr e ↦ rw e refl ];
  same_workspace =
      λ t. elim (Bool-cases (p t)) [ inl e ↦ rw e (k.same_workspace t) | inr e ↦ rw e refl ];
  same_workflow =
      λ t. elim (Bool-cases (p t)) [ inl e ↦ rw e (k.same_workflow t) | inr e ↦ rw e refl ];
  same_role = λ t. elim (Bool-cases (p t)) [ inl e ↦ rw e (k.same_role t) | inr e ↦ rw e refl ];
}

module _ (g : CoordStep → CoordStep) (k : Keeps g) where
  is_slot_kept :
      (workspace workflow : Uuid) (role : StepRole) (t : CoordStep)
      → is_slot workspace workflow role (g t) ≡ is_slot workspace workflow role t
  is_slot_kept workspace workflow role t =
      rw (k.same_workflow t, k.same_workspace t, k.same_role t) refl

  Apart-kept : (x y : CoordStep) → Apart x y → Apart (g x) (g y)
  Apart-kept x y (h, e) = (
    rw (k.same_id x, k.same_id y) h,
    rw
        (
          k.same_workflow x,
          k.same_workspace x,
          k.same_role x,
          k.same_workflow y,
          k.same_workspace y,
          k.same_role y,
        )
        e,
  )

-- The keys of the steps after a change.
module _ (p : CoordStep → Bool) (f : CoordStep → CoordStep) (k : Keeps f)
    (steps : List CoordStep) where
  pub Apart-changed : Ordered Apart steps → Ordered Apart (change p f steps)
  Apart-changed =
      Ordered-change Apart p f steps (λ x y h. Apart-kept (changed p f) (changed-Keeps p f k) x y h)

  pub HasSteps-changed : (w : CoordWorkflow) → HasSteps steps w → HasSteps (change p f steps) w
  HasSteps-changed w h role =
      let (t, e) = h role in
      (
        changed p f t,
        find_after (is_slot w.workspace_id w.id role) p f steps
            (is_slot_kept (changed p f) (changed-Keeps p f k) w.workspace_id w.id role) e,
      )
