-- ===== src/ActionCenter/Execute/Again.antt =====
-- internal/actioncenter/service.go, `Execute` after `Execute`.
use pfas_load_control.Base.{find, true, false, some, ◌≡◌}
use pfas_load_control.ActionCenter.Model.{Uuid, ActionRecord}
use pfas_load_control.ActionCenter.Payloads.{is_control}
use pfas_load_control.ActionCenter.Store.{ExecutionAttempt, Store, get_action}
use pfas_load_control.ActionCenter.Decide.{is_executed}
use pfas_load_control.ActionCenter.Execute.{is_receipt_of}

-- An action that is executed and has a receipt.
record IsClosed (workspace id : Uuid) (s : Store) : Type 0 where
  pub row : ActionRecord
  pub attempt : ExecutionAttempt
  pub locked : get_action workspace id s ≡ some row
  pub not_control : is_control row.execution_mode ≡ false
  pub done : is_executed row.status ≡ true
  pub received : find (is_receipt_of row) s.executions ≡ some attempt
