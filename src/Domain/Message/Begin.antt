-- ===== src/Domain/Message/Begin.antt =====
-- SendMessage of backend/internal/domain/message.go up to its transaction.
use sild.Common.{
  String, List, [], ◌∷◌, Bool, true, false, not, ◌&&◌, Option, none, some, str_eq, if◌then◌else◌,
}
use sild.Models.Enums.{is_peer}
use sild.Domain.Membership.{open_, closed}
use sild.Domain.Parts.{MessagePart, PartsError, stored, invalid, validate_parts}
use sild.Domain.Message.{
  Visibility, participants, internal, unset, other_visibility, Channel, app, email, no_channel,
  other_channel, Upload, AttachmentInput, MessageAttachment, SendInput, Message, Conv, Thread,
  SendError, identity_required, bad_visibility, bad_channel, forbidden, bad_parts,
  unknown_attachment, incomplete_attachment, Reply, sent, refused,
}

abbrev pub is_none {ℓ} : {A : Type ℓ} → Option A → Bool
is_none none = true
is_none (some x) = false

-- Visibility.Valid and the default of the empty value; none where it is not valid.
unfoldable pub visibility_or_default : Visibility → Option Visibility
visibility_or_default participants = some participants
visibility_or_default internal = some internal
visibility_or_default unset = some participants
visibility_or_default (other_visibility s) = none

unfoldable pub channel_or_default : Channel → Option Channel
channel_or_default app = some app
channel_or_default email = some email
channel_or_default no_channel = some app
channel_or_default (other_channel s) = none

abbrev pub is_internal : Visibility → Bool
is_internal internal = true
is_internal _ = false

-- A closed peer conversation is read-only.
unfoldable pub is_closed_peer : Option Conv → Bool
is_closed_peer none = false
is_closed_peer (some c) = is_peer c.kind && elim c.status [ open_ ↦ false | closed ↦ true ]

unfoldable pub same_key : String → Option String → Bool
same_key key none = false
same_key key (some k) = str_eq key k

unfoldable pub find_key : String → List Message → Option Message
find_key key [] = none
find_key key (m ∷ ms) =
    let rest = find_key key ms in if same_key key m.client_msg_id then some m else rest

-- findByClientMsgID
unfoldable pub find_by_client_msg_id : List Message → Option String → Option Message
find_by_client_msg_id ms none = none
find_by_client_msg_id ms (some key) = if str_eq key "" then none else find_key key ms

unfoldable pub attachment_of : Upload → String → MessageAttachment
attachment_of up disposition = record {
  disposition = if str_eq disposition "" then "attachment" else disposition;
  object_key = up.object_key;
  mime_type = up.mime_type;
  size_bytes = up.size_bytes;
  filename = up.filename;
}

pub data Resolved : Type 0 where
  attached : List MessageAttachment → Resolved
  unresolved : SendError → Resolved

abbrev before : MessageAttachment → Resolved → Resolved
before a (attached as_) = attached (a ∷ as_)
before a (unresolved e) = unresolved e

-- resolveAttachments, over the uploads of the tenant by their object key
unfoldable pub resolve_attachments : (String → Option Upload) → List AttachmentInput → Resolved
resolve_attachments uploads [] = attached []
resolve_attachments uploads (a ∷ rest) =
    let later = resolve_attachments uploads rest in
    elim (uploads a.object_key) [
      | none ↦ unresolved unknown_attachment
      | some up ↦
          if not up.completed
          then unresolved incomplete_attachment
          else before (attachment_of up a.disposition) later
    ]

pub data Parts : Type 0 where
  parsed : List MessagePart → Parts
  refused_parts : PartsError → Parts

unfoldable pub read_parts : SendInput → Parts
read_parts in_ = elim in_.parts [
  | none ↦ parsed []
  | some raw ↦ elim (validate_parts raw in_.sender_kind) [
    | stored ps ↦ parsed ps
    | invalid e ↦ refused_parts e
  ]
]

-- What a send does before its insert: an answer, or the row to insert.
pub data Begun : Type 0 where
  answers : Reply → Begun
  inserts : Message → Begun

unfoldable pub message_of :
    SendInput → String → Visibility → Channel → List MessagePart → List MessageAttachment → Message
message_of in_ id v c ps as_ = record {
  id = id;
  sender_kind = in_.sender_kind;
  visibility = v;
  channel = c;
  external_user_id = in_.external;
  internal_actor_id = in_.internal_actor;
  body = in_.body;
  client_msg_id = in_.client_msg_id;
  attachments = as_;
  parts = ps;
}

unfoldable pub look_up :
    Thread
    → (String → Option Upload)
    → SendInput
    → String
    → Visibility
    → Channel
    → List MessagePart
    → Begun
look_up th uploads in_ id v c ps =
    if is_closed_peer th.conv
    then answers (refused forbidden)
    else elim (find_by_client_msg_id th.messages in_.client_msg_id) [
      | some existing ↦ answers (sent existing)
      | none ↦ elim (resolve_attachments uploads in_.attachments) [
        | unresolved e ↦ answers (refused e)
        | attached as_ ↦ inserts (message_of in_ id v c ps as_)
      ]
    ]

unfoldable pub begin_in :
    Thread → (String → Option Upload) → SendInput → String → Visibility → Channel → Begun
begin_in th uploads in_ id v c =
    if is_internal v && not in_.allow_internal
    then answers (refused forbidden)
    else elim (read_parts in_) [
      | refused_parts e ↦ answers (refused (bad_parts e))
      | parsed ps ↦ look_up th uploads in_ id v c ps
    ]

-- SendMessage up to its transaction; `id` is the one that id.New makes.
unfoldable pub begin_send : Thread → (String → Option Upload) → SendInput → String → Begun
begin_send th uploads in_ id =
    if is_none in_.external && is_none in_.internal_actor
    then answers (refused identity_required)
    else elim (visibility_or_default in_.visibility) [
      | none ↦ answers (refused bad_visibility)
      | some v ↦ elim (channel_or_default in_.channel) [
        | none ↦ answers (refused bad_channel)
        | some c ↦ begin_in th uploads in_ id v c
      ]
    ]
