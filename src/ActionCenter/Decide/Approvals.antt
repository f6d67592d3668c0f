-- ===== src/ActionCenter/Decide/Approvals.antt =====
-- internal/actioncenter/service.go, `decide` and `UpdatePayload`: what an approval has seen.
use pfas_load_control.Base.{
  true, false, ◌||◌, some, [], ◌∷◌, ◌++◌, List, String, text_eq, trim_space, ok, ◌≡◌,
}
use pfas_load_control.ActionCenter.Model.{
  Uuid, Time, DecisionKind, ActionRecord, ControlledAction, DecisionInput, DecisionPackage,
}
use pfas_load_control.ActionCenter.Payloads.{
  Outcome, is_control, is_short, payload_of, split_gaps, validate_payload,
}
use pfas_load_control.ActionCenter.Store.{DecisionRow, Store, get_action, with_status, has_decision}
use pfas_load_control.ActionCenter.Decide.{
  is_executed, is_approval, status_of, acknowledge, decision_of,
}

-- A decision that was stored, and the row that it was made on.
module _ (input : DecisionInput) (kind : DecisionKind) where
  pub record IsChecked (r : ActionRecord) : Type 0 where
    pub open_action : (is_control r.execution_mode || is_executed r.status) ≡ false
    pub seen : text_eq (trim_space input.expected_payload_hash) r.payload_hash ≡ true
    pub complete : is_approval kind ≡ true → validate_payload (payload_of r) ≡ ok tt
    pub signed :
        (is_short (trim_space input.actor_name) || is_short (trim_space input.actor_role)) ≡ false

  pub record IsDecided (get_package : Uuid → Outcome DecisionPackage)
      (workspace id decision_id : Uuid) (now : Time) (s s' : Store) (a : ControlledAction)
      : Type 0 where
    pub row : ActionRecord
    pub frozen : DecisionPackage
    pub acknowledged : List String
    pub locked : get_action workspace id s ≡ some row
    pub checked : IsChecked row
    pub loaded : get_package row.decision_package_id ≡ ok frozen
    pub no_critical : is_approval kind ≡ true → (split_gaps frozen.gaps).0 ≡ []
    pub gaps_acknowledged : acknowledge kind input (split_gaps frozen.gaps).1 ≡ ok acknowledged
    pub first : has_decision id row.revision s ≡ false
    pub stored :
        (d : DecisionRow) × (s'.decisions ≡ s.decisions ++ d ∷ [])
        × (d.action_id ≡ id)
        × (d.decision ≡ decision_of kind input acknowledged decision_id now row)
    pub returned : a.row ≡ with_status (status_of kind) now row
