-- ===== src/Coordination/Invariant/Reached.antt =====
-- internal/coordination/service.go: the stores that its operations reach, one call after another.
use pfas_load_control.Base.{
  not, ◌==◌, ◌≡◌, refl, inl, inr, Option, List, [], ◌∷◌, ◌++◌, any, find, Text, text_eq,
  Option-cases, ok, panic, err, >>=-eq-ok, ok-injective, require, forbid, subst,
}
use pfas_load_control.Workspace.{Uuid, Time, WorkspaceRow}
use pfas_load_control.Coordination.Model.{
  CoordDocument, CoordNotification, PartyRow, FieldRow, invalid, failed, CoordCreateWorkflowInput,
  CoordConfirmStepInput, CoordAssignStepInput, CoordCreateDocumentInput,
}
use pfas_load_control.Coordination.Store.{
  Outcome, Store, get_workflow, get_party, commit, in_workspace,
}
use pfas_load_control.Coordination.Steps.{
  FreshIds, create_in, assign_in, confirm_in, reject_in, create_workflow, assign_step, confirm_step,
  reject_step,
}
use pfas_load_control.Coordination.Documents.{
  fits_documents, new_document, create_document, mark_notification_read, create_document_in,
  mark_read_in,
}
use pfas_load_control.Coordination.Invariant.{IsConsistent}
use pfas_load_control.Coordination.Invariant.Operations.{
  create_in-IsConsistent, assign_in-IsConsistent, confirm_in-IsConsistent, reject_in-IsConsistent,
}

commit-IsConsistent :
    {A : Type 0} (s : Store) (run : Outcome (Store × A))
    → IsConsistent s
    → ((out : Store × A) → run ≡ ok out → IsConsistent out.0)
    → IsConsistent (commit s run).0
commit-IsConsistent s panic c keep = c
commit-IsConsistent s (err e) c keep = c
commit-IsConsistent s (ok out) c keep = keep out refl

in_workspace-IsConsistent :
    {A : Type 0} (hash : Text → Option Text) (key : Text) (fresh : Uuid)
    (body : Uuid → Store → Outcome (Store × A)) (s : Store)
    → IsConsistent s
    → ((workspace : Uuid) (t : Store) (out : Store × A)
        → IsConsistent t
        → body workspace t ≡ ok out
        → IsConsistent out.0)
    → IsConsistent (in_workspace hash key fresh body s).0
unfolding in_workspace
in_workspace-IsConsistent hash key fresh body s c keep = elim (Option-cases (hash key)) [
  | inl malformed ↦ rw (in_workspace, malformed) c
  | inr (key_hash, hashed) ↦
      elim (Option-cases (find (λ (w : WorkspaceRow). text_eq w.key_hash key_hash) s.workspaces)) [
        | inl new ↦
            let s' = record s {
              workspaces = s.workspaces ++ (record { id = fresh; key_hash = key_hash }) ∷ [];
            } in
            let c' : IsConsistent s' = record {
              tied = c.tied;
              apart = c.apart;
              complete = c.complete;
              unready = c.unready;
            } in
            rw (in_workspace, hashed, new)
              (commit-IsConsistent s' (body fresh s') c' (λ out e. keep fresh s' out c' e))
        | inr (w, old) ↦
            rw (in_workspace, hashed, old)
              (commit-IsConsistent s (body w.id s) c (λ out e. keep w.id s out c e))
      ]
]

document-IsConsistent :
    (parse_id : Text → Option Uuid) (workflow_id : Text) (input : CoordCreateDocumentInput)
    (fresh : Uuid) (now : Time) (workspace : Uuid) (s : Store) (out : Store × CoordDocument)
    → IsConsistent s
    → create_document_in parse_id workflow_id input fresh now workspace s ≡ ok out
    → IsConsistent out.0
unfolding create_document_in
document-IsConsistent parse_id workflow_id input fresh now workspace s out c e =
    let (id, e1, f1) =
      >>=-eq-ok (require (parse_id workflow_id) (invalid "invalid coordination input")) _ e in
    let (party, e2, f2) =
      >>=-eq-ok (require (parse_id input.party_id) (invalid "invalid partyId")) _ f1 in
    let (u, e3, f3) =
      >>=-eq-ok
        (forbid (any (λ (x : CoordDocument). x.id == fresh) s.documents) (failed "create document"))
        _ f2 in
    let (w, e4, f4) =
      >>=-eq-ok (require (get_workflow workspace id s) (failed "create document")) _ f3 in
    let (p, e5, f5) =
      >>=-eq-ok (require (get_party workspace party s) (failed "create document")) _ f4 in
    let (v, e6, f6) =
      >>=-eq-ok
        (forbid (not (fits_documents (new_document input workspace id party fresh now)))
          (failed "create document"))
        _ f5 in
    subst (λ (o : Store × CoordDocument). IsConsistent o.0) (ok-injective out f6)
      (record { tied = c.tied; apart = c.apart; complete = c.complete; unready = c.unready })

read-IsConsistent :
    (parse_id : Text → Option Uuid) (id : Text) (now : Time) (workspace : Uuid) (s : Store)
    (out : Store × Unit {0})
    → IsConsistent s
    → mark_read_in parse_id id now workspace s ≡ ok out
    → IsConsistent out.0
unfolding mark_read_in
read-IsConsistent parse_id id now workspace s out c e =
    let (n, e1, f1) =
      >>=-eq-ok (require (parse_id id) (invalid "invalid coordination input")) _ e in
    subst (λ (o : Store × Unit {0}). IsConsistent o.0) (ok-injective out f1)
      (record { tied = c.tied; apart = c.apart; complete = c.complete; unready = c.unready })

abbrev pub empty_store : Store
empty_store = record {
  workspaces = [];
  parties = [];
  fields = [];
  workflows = [];
  steps = [];
  documents = [];
  notifications = [];
}

module _ (hash : Text → Option Text) (parse_id : Text → Option Uuid) where
  -- A call of the service, whether it succeeds or not, or a change that the other services make.
  pub data Moves : Store → Store → Type 0 where
    creates :
        (key : Text) (fresh : Uuid) (input : CoordCreateWorkflowInput) (ids : FreshIds) (now : Time)
        (s : Store)
        → Moves s (create_workflow hash parse_id key fresh input ids now s).0
    assigns :
        (key : Text) (fresh : Uuid) (step_id : Text) (input : CoordAssignStepInput) (s : Store)
        → Moves s (assign_step hash parse_id key fresh step_id input s).0
    confirms :
        (key : Text) (fresh : Uuid) (step_id : Text) (input : CoordConfirmStepInput) (now : Time)
        (s : Store)
        → Moves s (confirm_step hash parse_id key fresh step_id input now s).0
    rejects :
        (key : Text) (fresh : Uuid) (step_id : Text) (input : CoordConfirmStepInput) (now : Time)
        (s : Store)
        → Moves s (reject_step hash parse_id key fresh step_id input now s).0
    documents :
        (key : Text) (fresh : Uuid) (workflow_id : Text) (input : CoordCreateDocumentInput)
        (id : Uuid) (now : Time) (s : Store)
        → Moves s (create_document hash parse_id key fresh workflow_id input id now s).0
    reads :
        (key : Text) (fresh : Uuid) (id : Text) (now : Time) (s : Store)
        → Moves s (mark_notification_read hash parse_id key fresh id now s).0
    elsewhere :
        (workspaces : List WorkspaceRow) (parties : List PartyRow) (fields : List FieldRow)
        (notifications : List CoordNotification) (s : Store)
        → Moves s (record s {
          workspaces = workspaces;
          parties = parties;
          fields = fields;
          notifications = notifications;
        })

  pub data Reached : Store → Type 0 where
    start : Reached empty_store
    next : {s t : Store} → Reached s → Moves s t → Reached t

  Moves-IsConsistent : {s t : Store} → Moves s t → IsConsistent s → IsConsistent t
  unfolding create_workflow assign_step confirm_step reject_step create_document
      mark_notification_read
  Moves-IsConsistent (creates key fresh input ids now s) c =
      in_workspace-IsConsistent hash key fresh (create_in parse_id input ids now) s c
        (λ workspace t out d e. create_in-IsConsistent parse_id workspace t d input ids now e)
  Moves-IsConsistent (assigns key fresh step_id input s) c =
      in_workspace-IsConsistent hash key fresh (assign_in parse_id step_id input) s c
        (λ workspace t out d e. assign_in-IsConsistent parse_id workspace t d step_id input e)
  Moves-IsConsistent (confirms key fresh step_id input now s) c =
      in_workspace-IsConsistent hash key fresh (confirm_in parse_id step_id input now) s c
        (λ workspace t out d e. confirm_in-IsConsistent parse_id workspace t d step_id input now e)
  Moves-IsConsistent (rejects key fresh step_id input now s) c =
      in_workspace-IsConsistent hash key fresh (reject_in parse_id step_id input now) s c
        (λ workspace t out d e. reject_in-IsConsistent parse_id workspace t d step_id input now e)
  Moves-IsConsistent (documents key fresh workflow_id input id now s) c =
      in_workspace-IsConsistent hash key fresh
        (create_document_in parse_id workflow_id input id now) s c
        (λ workspace t out d e.
          document-IsConsistent parse_id workflow_id input id now workspace t out d e)
  Moves-IsConsistent (reads key fresh id now s) c =
      in_workspace-IsConsistent hash key fresh (mark_read_in parse_id id now) s c
        (λ workspace t out d e. read-IsConsistent parse_id id now workspace t out d e)
  Moves-IsConsistent (elsewhere workspaces parties fields notifications s) c = record {
    tied = c.tied;
    apart = c.apart;
    complete = c.complete;
    unready = c.unready;
  }

  -- Whatever calls of the service are made from the empty store, failed ones included, and
  -- whatever the other services do to the parties, fields, workspaces and notifications in
  -- between: every step belongs to a workflow of its workspace; no two steps share an identifier
  -- in a workspace, or a role in a workflow; every workflow has a step for each of the three
  -- roles; a step is rejected only in a rejected workflow, and in any other exactly the steps
  -- that the status counts are confirmed, farmer, contractor and plant in this order; and no
  -- workflow is READY.
  pub Reached-IsConsistent : {s : Store} → Reached s → IsConsistent s
  Reached-IsConsistent start = record { tied = tt; apart = tt; complete = tt; unready = tt }
  Reached-IsConsistent (next r m) = Moves-IsConsistent m (Reached-IsConsistent r)
