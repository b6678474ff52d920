-- ===== src/Examples/Sending.antt =====
-- Examples of SendMessage of backend/internal/domain/message.go.
use sild.Common.{
  String, [], ◌∷◌, true, false, ◌&&◌, Option, none, some, ◌≡◌, ◌⊎◌, refl, str_eq, All,
}
use sild.Models.Enums.{support}
use sild.Domain.Membership.{open_}
use sild.Domain.Parts.{user}
use sild.Domain.Message.{
  SendInput, Message, Thread, Upload, participants, internal, unset, app, email, no_channel,
}
use sild.Domain.Message.Begin.{
  is_none, is_closed_peer, find_by_client_msg_id, begin_send, begin_in, look_up, read_parts,
  visibility_or_default, channel_or_default, resolve_attachments, message_of, find_key,
}
use sild.Domain.Message.Finish.{finish_send}
use sild.Domain.Message.Admission.{inserts_admitted}
use sild.Domain.Message.Retries.{run, retries_agree}
use sild.Domain.Message.Channels.{IsSafe, log-IsSafe}

abbrev quiet : Thread
quiet = record {
  conv = some (record { kind = support; status = open_; webhooks = true });
  messages = [];
  log = [];
}

abbrev no_uploads : String → Option Upload
no_uploads key = none

abbrev hello : SendInput
hello = record {
  sender_kind = user;
  external = some "ann";
  internal_actor = none;
  body = "hello";
  visibility = unset;
  channel = no_channel;
  client_msg_id = some "c1";
  attachments = [];
  allow_internal = false;
  parts = none;
}

abbrev hello_row : String → Message
hello_row id = record {
  id = id;
  sender_kind = user;
  visibility = participants;
  channel = app;
  external_user_id = some "ann";
  internal_actor_id = none;
  body = "hello";
  client_msg_id = some "c1";
  attachments = [];
  parts = [];
}

abbrev note_row : Message
note_row = record (hello_row "msg_9") { visibility = internal; client_msg_id = none }

inserts_admitted_example :
    (is_none {A = String} (some "ann") && is_none {A = String} none ≡ false)
    × ((participants ≡ participants) ⊎ ((participants ≡ internal) × (false ≡ true)))
    × ((app ≡ app) ⊎ (app ≡ email))
    × (is_closed_peer quiet.conv ≡ false)
    × (find_by_client_msg_id [] (some "c1") ≡ none)
unfolding begin_send begin_in look_up read_parts visibility_or_default channel_or_default
    resolve_attachments message_of find_by_client_msg_id find_key is_closed_peer str_eq
inserts_admitted_example = inserts_admitted quiet no_uploads hello "msg_1" (hello_row "msg_1") refl

retries_agree_example :
    finish_send (run (finish_send quiet (hello_row "msg_1")).0 (note_row ∷ [])) (hello_row "msg_2")
    ≡ (
      run (finish_send quiet (hello_row "msg_1")).0 (note_row ∷ []),
      (finish_send quiet (hello_row "msg_1")).1,
    )
unfolding str_eq
retries_agree_example =
    retries_agree "c1" quiet (hello_row "msg_1") (hello_row "msg_2") (note_row ∷ []) refl refl refl

log-IsSafe_example : All IsSafe (run quiet (hello_row "msg_1" ∷ note_row ∷ [])).log
log-IsSafe_example = log-IsSafe quiet (hello_row "msg_1" ∷ note_row ∷ []) tt
