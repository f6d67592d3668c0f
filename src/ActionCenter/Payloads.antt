-- ===== src/ActionCenter/Payloads.antt =====
-- internal/actioncenter/service.go, from `actionMode` to `validateDraftPayload`.
use pfas_load_control.Base.{
  ℕ, ◌+◌, Bool, true, false, ◌||◌, [], ◌∷◌, ◌++◌, List, String, Text, message, codes, text_eq,
  contains, is_empty, trim_space, str_eq, ltb, if◌then◌else◌, Result, ok, err,
}
use pfas_load_control.ActionCenter.Model.{
  ExecutionMode, internal_release, operator_handoff, control, ActionAttachment, ActionPayload,
  ActionRecord, ReviewGap, ActionError, invalid, PackageGap, ProposedAction, Artifact,
  DecisionPackage,
}

abbrev pub Outcome : Type 0 → Type 0
Outcome = Result ActionError

-- The length of a text in bytes of UTF-8, Go's `len`.
unfoldable pub byte_length : Text → ℕ
byte_length [] = 0
byte_length (c ∷ t) =
    let rest = byte_length t in
    (if ltb c 0x80 then 1 else if ltb c 0x800 then 2 else if ltb c 0x10000 then 3 else 4) + rest

unfoldable pub action_mode : ProposedAction → ExecutionMode × Bool
action_mode proposal =
    if text_eq proposal.code (codes "ENFORCE_RATE_CAP")
      || text_eq proposal.code (codes "BLOCK_LAND_APPLICATION")
      || str_eq proposal.state "ENFORCED"
    then (control, false)
    else if text_eq proposal.code (codes "REVIEW_DRAFT_ALLOCATION")
    then (internal_release, true)
    else (operator_handoff, true)

abbrev pub is_internal_release : ExecutionMode → Bool
is_internal_release internal_release = true
is_internal_release _ = false

abbrev pub is_control : ExecutionMode → Bool
is_control control = true
is_control _ = false

-- The channel and the recipient of a proposal.
unfoldable pub default_route : ProposedAction → ExecutionMode → String × Text
default_route proposal mode =
    if is_internal_release mode
    then ("INTERNAL_RELEASE", codes "Facility operations")
    else if is_control mode
    then ("CONTROL", codes "FieldProof")
    else if contains proposal.code (codes "RESULT-SUBMISSION")
        || text_eq proposal.code (codes "NOTIFY_EGLE")
    then ("MIENVIRO", codes "Michigan EGLE")
    else if contains proposal.code (codes "LANDOWNER")
    then ("OPERATOR_DELIVERY", [])
    else if contains proposal.code (codes "SAMPLE") || contains proposal.code (codes "SAMPLING")
    then ("SAMPLING_REQUEST", [])
    else if contains proposal.code (codes "ALTERNATIVE")
    then ("QUOTE_REQUEST", [])
    else ("INTERNAL_WORK_ORDER", codes "Facility pretreatment and operations team")

-- The PDF and the JSON of a package; `upper` is the format in capitals.
unfoldable pub attachments_of : List Artifact → List ActionAttachment
attachments_of [] = []
attachments_of (a ∷ rest) =
    let later = attachments_of rest in
    let with_format = λ (upper : Text).
      record {
        label = message "Frozen decision package (" ++ upper ++ message ")";
        format = a.format;
        media_type = a.media_type;
        sha256 = a.sha256;
        url = a.url;
      }
      ∷ later in
    if str_eq a.format "pdf"
    then with_format (codes "PDF")
    else if str_eq a.format "json"
    then with_format (codes "JSON")
    else later

unfoldable pub default_payload : DecisionPackage → ProposedAction → ExecutionMode → ActionPayload
unfolding default_route attachments_of
default_payload frozen proposal mode =
    let route = default_route proposal mode in
    record {
      channel = route.0;
      recipient = route.1;
      subject = proposal.title;
      message =
          if is_empty proposal.timing
          then proposal.detail
          else proposal.detail ++ message " Timing: " ++ trim_space proposal.timing;
      attachments = attachments_of frozen.artifacts;
    }

abbrev pub gap_of : PackageGap → ReviewGap
gap_of item = record { code = item.code; detail = item.detail; resolution = item.resolution }

-- The critical gaps, and those that a review may acknowledge.
unfoldable pub split_gaps : List PackageGap → List ReviewGap × List ReviewGap
split_gaps [] = ([], [])
split_gaps (item ∷ items) =
    let rest = split_gaps items in
    if item.critical then (gap_of item ∷ rest.0, rest.1) else (rest.0, gap_of item ∷ rest.1)

abbrev pub payload_of : ActionRecord → ActionPayload
payload_of r = record {
  channel = r.channel;
  recipient = r.recipient;
  subject = r.subject;
  message = r.message;
  attachments = r.attachments;
}

abbrev pub is_short : Text → Bool
is_short t = ltb (byte_length t) 2

unfoldable pub validate_draft_payload : ActionPayload → Outcome Unit
validate_draft_payload payload =
    if is_short (trim_space payload.subject) || is_short (trim_space payload.message)
    then err (invalid "subject and message are required")
    else ok tt

unfoldable pub validate_payload : ActionPayload → Outcome Unit
unfolding validate_draft_payload
validate_payload payload =
    if is_short (trim_space payload.recipient)
    then err (invalid "enter the exact recipient before approval")
    else validate_draft_payload payload
