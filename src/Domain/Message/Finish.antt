-- ===== src/Domain/Message/Finish.antt =====
-- The transaction of SendMessage in backend/internal/domain/message.go and what follows it, with
-- WithoutInternalParts of views/views.go.
use sild.Common.{
  String, List, [], ◌∷◌, ◌++◌, Bool, true, false, not, ◌||◌, Option, none, some, is_empty,
  if◌then◌else◌,
}
use sild.Domain.Parts.{MessagePart, StepPart, EvidenceItem, SenderKind, system}
use sild.Domain.Message.{
  Visibility, participants, Upload, SendInput, Message, Effect, touched, pushed, replied, emailed,
  webhook, to_conversation, to_operators, Conv, Thread, duplicate_key, Reply, sent, refused,
}
use sild.Domain.Message.Begin.{
  is_none, is_internal, find_key, find_by_client_msg_id, answers, inserts, begin_send,
}

-- The unique index on the conversation and the key: NULL never collides.
unfoldable pub collides : List Message → Option String → Bool
collides ms none = false
collides ms (some key) = not (is_none (find_key key ms))

abbrev clear_step : StepPart → StepPart
clear_step s = record s { internal = [] }

abbrev clear_evidence : EvidenceItem → EvidenceItem
clear_evidence e = record e { internal = [] }

-- withoutInternal on a list of steps and on one of evidence
unfoldable pub without_internal_steps : List StepPart → List StepPart × Bool
without_internal_steps [] = ([], false)
without_internal_steps (s ∷ ss) =
    let (clean, removed) = without_internal_steps ss in
    (clear_step s ∷ clean, not (is_empty s.internal) || removed)

unfoldable pub without_internal_evidence : List EvidenceItem → List EvidenceItem × Bool
without_internal_evidence [] = ([], false)
without_internal_evidence (e ∷ es) =
    let (clean, removed) = without_internal_evidence es in
    (clear_evidence e ∷ clean, not (is_empty e.internal) || removed)

-- stripParts; an internal field is on the wire exactly when it is not empty.
unfoldable pub strip_parts : List MessagePart → List MessagePart × Bool
strip_parts [] = ([], false)
strip_parts (p ∷ ps) =
    let (rest, later) = strip_parts ps in
    let (steps, s) = without_internal_steps p.steps in
    let (evidence, e) = without_internal_evidence p.evidence in
    (record p { steps = steps; evidence = evidence } ∷ rest, s || (e || later))

-- WithoutInternalParts
unfoldable pub without_internal_parts : Message → Message × Bool
without_internal_parts m =
    let (ps, stripped) = strip_parts m.parts in
    if stripped then (record m { parts = ps }, true) else (m, false)

-- emitMessage
unfoldable pub emit_message : Message → Bool → List Effect
emit_message m is_note =
    let (member, stripped) = without_internal_parts m in
    if is_note
    then to_operators m ∷ []
    else if stripped
    then to_conversation member ∷ to_operators m ∷ []
    else to_conversation m ∷ []

unfoldable pub sends_webhooks : Option Conv → Bool
sends_webhooks none = true
sends_webhooks (some c) = c.webhooks

abbrev is_system : SenderKind → Bool
is_system system = true
is_system _ = false

abbrev is_participants : Visibility → Bool
is_participants participants = true
is_participants _ = false

-- applyMessageActivity
unfoldable pub activity : Message → List Effect
activity m =
    if not (is_participants m.visibility) || is_system m.sender_kind then [] else touched m ∷ []

-- What the transaction writes beside the message, and what follows it.
unfoldable pub effects : Option Conv → Message → List Effect
effects conv m =
    let member = (without_internal_parts m).0 in
    if is_internal m.visibility
    then activity m ++ emit_message m true
    else activity m
      ++ (pushed m
          ∷ ((if sends_webhooks conv then webhook member ∷ [] else [])
              ++ (emit_message m false ++ replied m ∷ emailed m ∷ [])))

-- The transaction of SendMessage and what follows. A lost race answers with the winner's message.
unfoldable pub finish_send : Thread → Message → Thread × Reply
finish_send th m =
    if collides th.messages m.client_msg_id
    then (
      th,
      elim (find_by_client_msg_id th.messages m.client_msg_id) [
        | some existing ↦ sent existing
        | none ↦ refused duplicate_key
      ],
    )
    else (record th { messages = th.messages ++ m ∷ []; log = th.log ++ effects th.conv m }, sent m)

-- SendMessage, when nothing runs between its two steps.
unfoldable pub send_message :
    Thread → (String → Option Upload) → SendInput → String → Thread × Reply
send_message th uploads in_ id = elim (begin_send th uploads in_ id) [
  | answers r ↦ (th, r)
  | inserts m ↦ finish_send th m
]
