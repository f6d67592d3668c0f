-- ===== src/Tests/Actions.antt =====
-- An action that is approved, executed and edited.
use pfas_load_control.Base.{
  true, false, Option, none, some, [], ◌∷◌, Text, codes, is_empty, trim_space, text_eq,
  if◌then◌else◌, ok, ◌≡◌, refl, ◌⊎◌,
}
use pfas_load_control.Placement.Model.{Status}
use pfas_load_control.ActionCenter.Model.{
  Uuid, internal_release, ActionStatus, ActionPayload, DecisionKind, ActionRecord, ControlledAction,
  UpdatePayloadInput, DecisionInput, DecisionPackage,
}
use pfas_load_control.ActionCenter.Payloads.{Outcome, payload_of, byte_length}
use pfas_load_control.ActionCenter.Store.{Store, get_action, hydrate_action}
use pfas_load_control.ActionCenter.Decide.{decide, update_payload, edited, is_rejected}
use pfas_load_control.ActionCenter.Execute.{Fresh, execute}
use pfas_load_control.ActionCenter.Execute.Edits.{IsEdited, update_payload_lem}

abbrev hash : Text → Option Text
hash t = some t

abbrev parse_id : Text → Option Uuid
parse_id t = if is_empty t then none else some 7

abbrev hash_payload : ActionPayload → Text
hash_payload p = p.subject

abbrev frozen : DecisionPackage
frozen = record {
  id = 3;
  status = "READY";
  input_hash = "";
  tier = "ELEVATED";
  placement = some (record { id = codes "plan"; status = Status.ready });
  gaps =
      record { source = "lab"; code = "LAB_NOTE"; detail = []; resolution = ""; critical = false }
      ∷ [];
  proposed_actions = [];
  artifacts = [];
}

abbrev get_package : Text → Uuid → Outcome DecisionPackage
get_package key id = ok frozen

abbrev release_action : ActionRecord
release_action = record {
  id = 7;
  workspace_id = 1;
  decision_package_id = 3;
  position = 1;
  code = codes "REVIEW_DRAFT_ALLOCATION";
  category = "placement";
  title = codes "Release";
  detail = codes "Release the plan.";
  timing = codes "Now";
  source_id = codes "plan";
  execution_mode = internal_release;
  status = ActionStatus.proposed;
  approval_required = true;
  channel = "INTERNAL_RELEASE";
  recipient = codes "Facility operations";
  subject = codes "Release";
  message = codes "Release the plan.";
  attachments = [];
  revision = 1;
  payload_hash = codes "Release";
  created_at = 1;
  updated_at = 1;
}

abbrev opening : Store
opening = record {
  workspaces = record { id = 1; key_hash = codes "key" } ∷ [];
  actions = release_action ∷ [];
  decisions = [];
  executions = [];
  releases = [];
}

abbrev approval : DecisionInput
approval = record {
  expected_payload_hash = codes "Release";
  actor_name = codes "Ada";
  actor_role = codes "Manager";
  note = [];
  acknowledge_gaps = true;
}

abbrev outcome_of : Outcome (Store × ControlledAction) → Store × ControlledAction
outcome_of (ok out) = out
outcome_of _ = (opening, hydrate_action release_action [] none)

abbrev decided : Store × ControlledAction
decided = outcome_of (
    decide hash parse_id hash_payload get_package (codes "key") (codes "id") DecisionKind.approve
      approval 11 2 opening)

abbrev fresh : Fresh
fresh = record { execution = 21; release = 22; now = 3 }

abbrev carried : Store × ControlledAction
carried = outcome_of (
    execute hash parse_id get_package (codes "key") (codes "id") (codes "0123456789abcdef") fresh
      decided.0)

abbrev edit : UpdatePayloadInput
edit = record {
  recipient = codes "Operations";
  subject = codes "Later";
  message = codes "Release it later.";
}

abbrev changed : Store × ControlledAction
changed =
    outcome_of
      (update_payload hash parse_id hash_payload (codes "key") (codes "id") edit 4 decided.0)

changed_run :
    update_payload hash parse_id hash_payload (codes "key") (codes "id") edit 4 decided.0
    ≡ ok changed
unfolding update_payload decide text_eq trim_space byte_length
changed_run = refl

update_payload_lem_example :
    (context : Uuid × Uuid) × (r : ActionRecord) × (get_action context.0 context.1 decided.0
      ≡ some r)
    × (((changed.0 ≡ decided.0)
          × (text_eq (hash_payload (edited edit (payload_of r))) r.payload_hash ≡ true)
          × (is_rejected r.status ≡ false))
        ⊎ IsEdited hash parse_id hash_payload get_package context.0 context.1 edit decided.0
            changed.0 changed.1.row r)
update_payload_lem_example =
    update_payload_lem hash parse_id hash_payload get_package (codes "key") (codes "id") edit 4
      decided.0 changed_run
