-- ===== src/Realtime.antt =====
-- backend/internal/realtime: the channels that an inbox connection follows (channels.go), those that an
-- event goes to (centrifuge.go, publisher.go), and the target of an event that operators observe
-- (emitObserved of backend/internal/domain/service.go). A channel is its kind with what its name is made
-- of, and a set of channels is a list.
pub mod Followed
pub mod Listed
pub mod Readable
pub mod Subscriptions
use sild.Common.{
  String, List, [], ◌∷◌, ◌++◌, Bool, true, false, not, ◌&&◌, ◌||◌, Option, none, some, str_eq, any,
  map, if◌then◌else◌,
}
use sild.Models.Enums.{ConversationKind, peer, is_peer, requester}
use sild.Models.Rbac.{queue_support}
use sild.Principal.{Principal, has_role, queues, reaches_queue, requester_only, requester_reaches}
use sild.Policy.Action.{conversations_list}
use sild.Policy.Scope.{ResourceScope, scope, allows_kind}
use sild.Store.ConversationList.{Conversation, Stored}
use sild.Api.Authz.{classify_conv}

-- UserChannel and so on
pub data Channel : Type 0 where
  user_channel conv_channel agents_channel peer_channel : String → Channel
  queue_channel : String → String → Channel

unfoldable pub same_channel : Channel → Channel → Bool
same_channel (user_channel u) (user_channel v) = str_eq u v
same_channel (conv_channel u) (conv_channel v) = str_eq u v
same_channel (agents_channel u) (agents_channel v) = str_eq u v
same_channel (peer_channel u) (peer_channel v) = str_eq u v
same_channel (queue_channel t u) (queue_channel s v) = str_eq t s && str_eq u v
same_channel _ _ = false

-- A channel is in a set.
abbrev pub has_channel : List Channel → Channel → Bool
has_channel chans ch = any (λ c. same_channel c ch) chans

-- store.ActorConversation
pub record ActorConversation : Type 0 where
  pub conversation_id : String
  pub queue : String
  pub kind : ConversationKind

pub record ChannelInputs : Type 0 where
  pub queues : List String
  pub conversations : List ActorConversation

-- The loop of AgentChannels over the conversations of the member.
unfoldable pub own_channels : Principal → List ActorConversation → List Channel
own_channels p [] = []
own_channels p (c ∷ cs) =
    let rest = own_channels p cs in
    if not (is_peer c.kind) && (requester_reaches p c.queue && not (reaches_queue p c.queue))
    then conv_channel c.conversation_id ∷ rest
    else rest

-- The loop of AgentChannels over the queues.
unfoldable pub queue_channels : String → List String → List Channel
queue_channels tenant [] = []
queue_channels tenant (q ∷ qs) =
    let rest = queue_channels tenant qs in
    if str_eq q queue_support then rest else queue_channel tenant q ∷ rest

abbrev pub when {ℓ} : {A : Type ℓ} → Bool → A → List A
when b a = if b then a ∷ [] else []

-- The part of AgentChannels below the requester's.
unfoldable pub operator_channels : Principal → ResourceScope → ChannelInputs → List Channel
operator_channels p s in_ =
    when (reaches_queue p queue_support) (agents_channel p.tenant_id)
    ++ (queue_channels p.tenant_id (if (queues p).all then in_.queues else (queues p).names)
        ++ when (allows_kind s peer) (peer_channel p.tenant_id))

-- AgentChannels; the empty set where it answers nil.
unfoldable pub agent_channels : Principal → ChannelInputs → List Channel
agent_channels p in_ =
    let s = scope (some p) conversations_list in
    let own = if has_role p requester then own_channels p in_.conversations else [] in
    let operated = if requester_only p then [] else operator_channels p s in_ in
    if s.deny_all then [] else user_channel p.admin_id ∷ (own ++ operated)

-- LoadChannelInputs: what of the tenant's queues and the member's conversations is read for some
-- principals.
unfoldable pub load_channel_inputs : ChannelInputs → List Principal → ChannelInputs
load_channel_inputs stored ps = record {
  queues = if any (λ p. (queues p).all) ps then stored.queues else [];
  conversations = if any (λ p. has_role p requester) ps then stored.conversations else [];
}

-- Target; the empty text is none.
pub record Target : Type 0 where
  pub conversation : String
  pub internal : Bool
  pub users : List String
  pub tenant : String
  pub queue : String × String
  pub peer : String

abbrev pub unless_empty : String → Channel → List Channel
unless_empty s ch = if str_eq s "" then [] else ch ∷ []

abbrev pub client_channels : Target → List Channel
client_channels t =
    if t.internal
    then []
    else unless_empty t.conversation (conv_channel t.conversation) ++ map user_channel t.users

-- channelsFor
unfoldable pub channels_for : Target → List Channel
channels_for t =
    client_channels t
    ++ (unless_empty t.tenant (agents_channel t.tenant)
        ++ (unless_empty t.queue.1 (queue_channel t.queue.0 t.queue.1)
            ++ unless_empty t.peer (peer_channel t.peer)))

-- operators
unfoldable pub operators : Target → String → Conversation → Target
operators t tenant_id c =
    if str_eq c.queue queue_support
    then record t { tenant = tenant_id }
    else record t { queue = (tenant_id, c.queue) }

-- The target that emitObserved emits to, for what is stored under the conversation.
unfoldable pub observed : Target → String → Stored → Target
observed t tenant_id d = elim d.row [
  | none ↦ t
  | some c ↦
      let access = classify_conv c d.assigned true in
      if access.peer
      then record t { peer = tenant_id }
      else if access.support_ok
      then operators t tenant_id c
      else t
]

-- The target of an event in a conversation that may name users, before its operators are added.
abbrev pub event_target : String → Bool → List String → Target
event_target id internal users = record {
  conversation = id;
  internal = internal;
  users = users;
  tenant = "";
  queue = ("", "");
  peer = "";
}
