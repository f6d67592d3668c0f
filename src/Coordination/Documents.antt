-- ===== src/Coordination/Documents.antt =====
-- `CreateDocument` and `MarkNotificationRead` of internal/coordination/service.go.
use pfas_load_control.Base.{
  Bool, true, false, not, ◌&&◌, ◌==◌, leb, Option, none, some, [], ◌∷◌, ◌++◌, length, any, change,
  Text, trim_space, ok, ◌>>=◌, require, forbid,
}
use pfas_load_control.Workspace.{Uuid, Time}
use pfas_load_control.Coordination.Model.{
  CoordDocument, CoordNotification, CoordCreateDocumentInput, invalid, failed,
}
use pfas_load_control.Coordination.Store.{Outcome, Store, get_party, get_workflow, in_workspace}

abbrev pub is_unread : Option Time → Bool
is_unread none = true
is_unread (some _) = false

-- The checks of `pfas.coordination_documents`.
abbrev pub fits_documents : CoordDocument → Bool
fits_documents d =
    let type_length = length (trim_space d.doc_type) in
    let name_length = length (trim_space d.filename) in
    leb 1 type_length
    && leb type_length 100
    && leb 1 name_length
    && leb name_length 500
    && length d.file_hash == 64

abbrev pub new_document :
    CoordCreateDocumentInput → Uuid → Uuid → Uuid → Uuid → Time → CoordDocument
new_document input workspace workflow party id now = record {
  id = id;
  workspace_id = workspace;
  workflow_id = workflow;
  party_id = party;
  doc_type = input.doc_type;
  filename = input.filename;
  file_hash = input.file_hash;
  mime_type = input.mime_type;
  size_bytes = input.size_bytes;
  created_at = now;
}

module _ (parse_id : Text → Option Uuid) where
  unfoldable pub create_document_in :
      Text → CoordCreateDocumentInput → Uuid → Time → Uuid → Store → Outcome (Store × CoordDocument)
  unfolding get_workflow get_party
  create_document_in workflow_id input fresh now workspace s = do
    id ← require (parse_id workflow_id) (invalid "invalid coordination input")
    party_id ← require (parse_id input.party_id) (invalid "invalid partyId")
    let d = new_document input workspace id party_id fresh now
    new_id ←
        forbid (any (λ (x : CoordDocument). x.id == fresh) s.documents) (failed "create document")
    w ← require (get_workflow workspace id s) (failed "create document")
    party ← require (get_party workspace party_id s) (failed "create document")
    fit ← forbid (not (fits_documents d)) (failed "create document")
    ok (record s { documents = s.documents ++ d ∷ [] }, d)

  unfoldable pub mark_read_in : Text → Time → Uuid → Store → Outcome (Store × Unit {0})
  unfolding change
  mark_read_in notification_id now workspace s = do
    id ← require (parse_id notification_id) (invalid "invalid coordination input")
    let unread =
        λ (n : CoordNotification). n.id == id && n.workspace_id == workspace && is_unread n.read_at
    ok (
      record s {
        notifications =
            change unread (λ (n : CoordNotification). record n { read_at = some now })
              s.notifications;
      },
      tt,
    )

-- The operations, each in the workspace of its key.
module _ (hash : Text → Option Text) (parse_id : Text → Option Uuid) (key : Text)
    (workspace_id : Uuid) where
  unfoldable pub create_document :
      Text → CoordCreateDocumentInput → Uuid → Time → Store → Store × Outcome CoordDocument
  unfolding in_workspace create_document_in
  create_document workflow_id input fresh now =
      in_workspace hash key workspace_id (create_document_in parse_id workflow_id input fresh now)

  unfoldable pub mark_notification_read : Text → Time → Store → Store × Outcome (Unit {0})
  unfolding in_workspace mark_read_in
  mark_notification_read notification_id now =
      in_workspace hash key workspace_id (mark_read_in parse_id notification_id now)
