-- ===== src/ActionCenter/Execute/Safety.antt =====
-- internal/actioncenter/service.go, `Execute`: what an execution needs and writes.
use mathlib.Core.Bool.{false≢true}
use pfas_load_control.Base.{
  ==-refl, forbid_ok, forbid, change, find-true, require, any_last, require_ok, Bool, true, false,
  not, not-false, ◌||◌, ◌==◌, Option, some, [], ◌∷◌, ◌++◌, List, Text, text_eq, str_eq, any, ok,
  >>=-eq-ok, ok-injective, ◌≡◌, refl, sym, ◌∙◌, ap, subst, inl, inr, Bool-cases, arith,
}
use pfas_load_control.ActionCenter.Model.{
  Uuid, executed, ActionExecutionReceipt, ActionRecord, ControlledAction, conflict, stale,
  PlacementSnapshot, DecisionPackage,
}
use pfas_load_control.ActionCenter.Payloads.{Outcome, is_internal_release}
use pfas_load_control.ActionCenter.Store.{
  DecisionRow, ExecutionAttempt, PlacementRelease, Store, is_action, with_status, change_action,
  is_current, current_approval, has_release, hydrate_action,
}
use pfas_load_control.ActionCenter.Execute.{
  is_approved, is_ready, releasable, Fresh, carry_out, execute_once,
}

-- A plan that may be released: the batch is not prohibited, the plan is ready, and it is the one
-- that the action was approved for.
pub record IsReleasable (parse_id : Text → Option Uuid) (frozen : DecisionPackage)
    (r : ActionRecord) (placement : Uuid) : Type 0 where
  pub plan : PlacementSnapshot
  pub frozen_plan : frozen.placement ≡ some plan
  pub not_prohibited : str_eq frozen.tier "PROHIBITED" ≡ false
  pub is_ready_plan : is_ready plan.status ≡ true
  pub identified : parse_id plan.id ≡ some placement
  pub matches : text_eq plan.id r.source_id ≡ true

or_false : (a b : Bool) → (a || not b) ≡ false → (a ≡ false) × (b ≡ true)
or_false a b h = ground arith

releasable_lem :
    (parse_id : Text → Option Uuid) (frozen : DecisionPackage) (r : ActionRecord) {placement : Uuid}
    → releasable parse_id frozen r ≡ ok placement
    → IsReleasable parse_id frozen r placement
unfolding releasable
releasable_lem parse_id frozen r {placement} e =
    let (plan, e1, e2) =
      >>=-eq-ok (require frozen.placement (conflict "the frozen placement plan is not releasable"))
        _ e in
    let (u, e3, e4) =
      >>=-eq-ok
        (forbid (str_eq frozen.tier "PROHIBITED" || not (is_ready plan.status))
          (conflict "the frozen placement plan is not releasable"))
        _ e2 in
    let (id, e5, e6) =
      >>=-eq-ok
        (require (parse_id plan.id)
          (conflict "the approved action does not match the frozen placement plan"))
        _ e4 in
    let (v, e7, e8) =
      >>=-eq-ok
        (forbid (not (text_eq plan.id r.source_id))
          (conflict "the approved action does not match the frozen placement plan"))
        _ e6 in
    let (allowed, fit) = or_false _ _ (forbid_ok _ _ e3) in
    record {
      plan = plan;
      frozen_plan = require_ok _ _ e1;
      not_prohibited = allowed;
      is_ready_plan = fit;
      identified = require_ok _ _ e5 ∙ ap some (ok-injective placement e8);
      matches = not-false _ (forbid_ok _ _ e7);
    }

-- What an execution wrote, and what it rests on.
module _ (parse_id : Text → Option Uuid) (workspace : Uuid) (key : Text) (r : ActionRecord) where
  pub record IsWritten (frozen : DecisionPackage) (approval : DecisionRow) (s : Store)
      (executions : List ExecutionAttempt) (releases : List PlacementRelease)
      (receipt : ActionExecutionReceipt) : Type 0 where
    pub attempt : ExecutionAttempt
    pub recorded : executions ≡ s.executions ++ attempt ∷ []
    pub of_action : attempt.action_id ≡ r.id
    pub in_workspace : attempt.workspace_id ≡ workspace
    pub under_key : attempt.idempotency_key ≡ key
    pub by_approval : attempt.approval_id ≡ approval.decision.id
    pub with_receipt : attempt.receipt ≡ receipt
    pub internal : receipt.external_effect ≡ false
    pub release :
        is_internal_release r.execution_mode ≡ true
        → (placement : Uuid) × IsReleasable parse_id frozen r placement
          × (has_release placement s ≡ false)
          × (any (λ (x : PlacementRelease). x.placement_evaluation_id == placement) releases ≡ true)
    pub no_release : is_internal_release r.execution_mode ≡ false → releases ≡ s.releases

  carry_out-IsWritten :
      (frozen : DecisionPackage) (approval : DecisionRow) (fresh : Fresh) (s : Store)
      {out : Store × ActionExecutionReceipt}
      → carry_out parse_id workspace key frozen approval r fresh s ≡ ok out
      → IsWritten frozen approval s out.0.executions out.0.releases out.1
        × (out.0.actions ≡ s.actions)
  unfolding carry_out
  carry_out-IsWritten frozen approval fresh s {out} e =
      elim (Bool-cases (is_internal_release r.execution_mode)) [
        | inl released ↦
            let (placement, e1, e2) =
              >>=-eq-ok (releasable parse_id frozen r) _ (rw (carry_out, released) at e) in
            let (u, e3, e4) =
              >>=-eq-ok
                (forbid (has_release placement s)
                  (conflict "this frozen placement plan was already released"))
                _ e2 in
            subst
              (λ (o : Store × ActionExecutionReceipt).
                IsWritten frozen approval s o.0.executions o.0.releases o.1
                × (o.0.actions ≡ s.actions))
              (ok-injective out e4)
              (
                record {
                  attempt = _;
                  recorded = refl;
                  of_action = refl;
                  in_workspace = refl;
                  under_key = refl;
                  by_approval = refl;
                  with_receipt = refl;
                  internal = refl;
                  release = λ _. (
                    placement,
                    releasable_lem parse_id frozen r e1,
                    forbid_ok _ _ e3,
                    any_last (λ (x : PlacementRelease). x.placement_evaluation_id == placement)
                        s.releases _ (==-refl placement),
                  );
                  no_release = λ handed. absurd (false≢true (sym handed ∙ released));
                },
                refl,
              )
        | inr handed ↦
            subst
              (λ (o : Store × ActionExecutionReceipt).
                IsWritten frozen approval s o.0.executions o.0.releases o.1
                × (o.0.actions ≡ s.actions))
              (ok-injective out (rw (carry_out, handed) at e))
              (
                record {
                  attempt = _;
                  recorded = refl;
                  of_action = refl;
                  in_workspace = refl;
                  under_key = refl;
                  by_approval = refl;
                  with_receipt = refl;
                  internal = refl;
                  release = λ released. absurd (false≢true (sym handed ∙ released));
                  no_release = λ _. refl;
                },
                refl,
              )
      ]

  -- A first execution, in the store `s`, that left the store `s'`.
  pub record IsExecution (get_package : Uuid → Outcome DecisionPackage) (fresh : Fresh)
      (s s' : Store) (a : ControlledAction) : Type 0 where
    pub frozen : DecisionPackage
    pub approval : DecisionRow
    pub receipt : ActionExecutionReceipt
    pub reviewed : is_approved r.status ≡ true
    pub current : is_current workspace r approval ≡ true
    pub loaded : get_package r.decision_package_id ≡ ok frozen
    pub written : IsWritten frozen approval s s'.executions s'.releases receipt
    pub closed :
        s'.actions ≡ (change_action workspace r.id (with_status executed fresh.now) s).actions
    pub returned : a ≡ hydrate_action (with_status executed fresh.now r) [] (some receipt)

  pub execute_once-IsExecution :
      (get_package : Uuid → Outcome DecisionPackage) (fresh : Fresh) (s : Store)
      {out : Store × ControlledAction}
      → execute_once parse_id get_package workspace key r fresh s ≡ ok out
      → IsExecution get_package fresh s out.0 out.1
  unfolding execute_once current_approval change_action
  execute_once-IsExecution get_package fresh s {out} e =
      let (u, e1, e2) =
        >>=-eq-ok
          (forbid (not (is_approved r.status))
            (conflict "approve the current payload before execution"))
          _ e in
      let (approval, e3, e4) =
        >>=-eq-ok
          (require (current_approval workspace r s)
            (stale "approval does not match the current payload"))
          _ e2 in
      let (frozen, e5, e6) = >>=-eq-ok (get_package r.decision_package_id) _ e4 in
      let (done, e7, e8) =
        >>=-eq-ok (carry_out parse_id workspace key frozen approval r fresh s) _ e6 in
      let (w, same) = carry_out-IsWritten frozen approval fresh s e7 in
      subst (λ (o : Store × ControlledAction). IsExecution get_package fresh s o.0 o.1)
        (ok-injective out e8)
        (record {
          frozen = frozen;
          approval = approval;
          receipt = done.1;
          reviewed = not-false _ (forbid_ok _ _ e1);
          current = find-true (is_current workspace r) s.decisions (require_ok _ _ e3);
          loaded = e5;
          written = w;
          closed = ap (change (is_action workspace r.id) (with_status executed fresh.now)) same;
          returned = refl;
        })
