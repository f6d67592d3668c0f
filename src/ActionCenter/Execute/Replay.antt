-- ===== src/ActionCenter/Execute/Replay.antt =====
-- internal/actioncenter/service.go, `Execute` as a whole: it executes once, or returns a receipt.
use pfas_load_control.Base.{true, false, ◌==◌, Option, some, Text, ◌≡◌}
use pfas_load_control.ActionCenter.Model.{Uuid, ActionRecord, ControlledAction, DecisionPackage}
use pfas_load_control.ActionCenter.Payloads.{Outcome, is_control}
use pfas_load_control.ActionCenter.Store.{ExecutionAttempt, Store, get_action}
use pfas_load_control.ActionCenter.Execute.{Fresh}
use pfas_load_control.ActionCenter.Execute.Safety.{IsExecution}

-- The receipt of an earlier execution of the action, from an unchanged store.
pub record IsReplay (id : Uuid) (s s' : Store) (a : ControlledAction) : Type 0 where
  pub attempt : ExecutionAttempt
  pub unchanged : s' ≡ s
  pub of_action : (attempt.action_id == id) ≡ true
  pub returned : a.execution ≡ some attempt.receipt

module _ (hash : Text → Option Text) (parse_id : Text → Option Uuid)
    (get_package : Text → Uuid → Outcome DecisionPackage) where
  -- The locked row that an execution went by.
  pub record IsExecuted (key : Text) (workspace id : Uuid) (idempotency_key : Text) (fresh : Fresh)
      (s s' : Store) (a : ControlledAction) : Type 0 where
    pub row : ActionRecord
    pub locked : get_action workspace id s ≡ some row
    pub not_control : is_control row.execution_mode ≡ false
    pub executed : IsExecution parse_id workspace idempotency_key row (get_package key) fresh s s' a
