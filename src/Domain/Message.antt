-- ===== src/Domain/Message.antt =====
-- The data of SendMessage in backend/internal/domain/message.go. The state is one conversation of one
-- tenant: its row, its messages in the order of their inserts and the effects in order. A send is two
-- steps, since other sends may run between its lookup and its insert.
pub mod Begin
pub mod Finish
pub mod Admission
pub mod Retries
pub mod Channels
use sild.Common.{
  ℕ, String, List, [], ◌∷◌, ◌++◌, Bool, true, false, not, ◌&&◌, ◌||◌, Option, none, some, str_eq,
  is_empty, if◌then◌else◌,
}
use sild.Models.Enums.{ConversationKind, is_peer}
use sild.Domain.Membership.{ConversationStatus, open_, closed}
use sild.Domain.Parts.{
  MessagePart, StepPart, EvidenceItem, SenderKind, user, agent, bot, system, PartsError, stored,
  invalid, validate_parts,
}

pub data Visibility : Type 0 where
  participants internal unset : Visibility
  other_visibility : String → Visibility

pub data Channel : Type 0 where
  app email no_channel : Channel
  other_channel : String → Channel

pub record Upload : Type 0 where
  pub object_key : String
  pub completed : Bool
  pub mime_type : String
  pub size_bytes : ℕ
  pub filename : String

pub record AttachmentInput : Type 0 where
  pub object_key : String
  pub disposition : String

pub record MessageAttachment : Type 0 where
  pub disposition : String
  pub object_key : String
  pub mime_type : String
  pub size_bytes : ℕ
  pub filename : String

-- `parts` is none for no bytes, and some none for bytes that are not an array of parts.
pub record SendInput : Type 0 where
  pub sender_kind : SenderKind
  pub external : Option String
  pub internal_actor : Option String
  pub body : String
  pub visibility : Visibility
  pub channel : Channel
  pub client_msg_id : Option String
  pub attachments : List AttachmentInput
  pub allow_internal : Bool
  pub parts : Option (Option (List MessagePart))

pub record Message : Type 0 where
  pub id : String
  pub sender_kind : SenderKind
  pub visibility : Visibility
  pub channel : Channel
  pub external_user_id : Option String
  pub internal_actor_id : Option String
  pub body : String
  pub client_msg_id : Option String
  pub attachments : List MessageAttachment
  pub parts : List MessagePart

-- The rows and the calls that a send makes beside its own row.
pub data Effect : Type 0 where
  touched pushed replied emailed : Message → Effect
  webhook to_conversation to_operators : Message → Effect

-- The conversation row, and whether its queue sends webhooks.
pub record Conv : Type 0 where
  pub kind : ConversationKind
  pub status : ConversationStatus
  pub webhooks : Bool

pub record Thread : Type 0 where
  pub conv : Option Conv
  pub messages : List Message
  pub log : List Effect

pub data SendError : Type 0 where
  identity_required bad_visibility bad_channel forbidden : SendError
  bad_parts : PartsError → SendError
  unknown_attachment incomplete_attachment duplicate_key : SendError

pub data Reply : Type 0 where
  sent : Message → Reply
  refused : SendError → Reply
