-- ===== src/Realtime/Followed.antt =====
-- What the channels of an agent say of it: AgentChannels of backend/internal/realtime/channels.go.
use sild.Common.{
  String, List, [], ◌∷◌, ◌++◌, Bool, true, false, not, ◌&&◌, ◌||◌, some, str_eq, any, any-append,
  contains, All, ◌≡◌, refl, ap, ap₂, ◌∙◌, arith, if◌then◌else◌,
}
use sild.Models.Enums.{peer, is_peer, requester}
use sild.Models.Rbac.{queue_support}
use sild.Principal.{Principal, has_role, queues, reaches_queue, requester_only, requester_reaches}
use sild.Policy.Action.{conversations_list}
use sild.Policy.Scope.{scope, allows_kind}
use sild.Store.ConversationList.{Conversation, Stored, is_active_actor_member}
use sild.Realtime.{
  Channel, user_channel, conv_channel, agents_channel, peer_channel, queue_channel, same_channel,
  has_channel, ActorConversation, ChannelInputs, own_channels, queue_channels, when,
  operator_channels, agent_channels,
}

pub own_found :
    (p : Principal) (id : String) (c : Conversation) (d : Stored) (cs : List ActorConversation)
    → All
        (λ (a : ActorConversation).
          str_eq a.conversation_id id ≡ true
          → (a.queue ≡ c.queue)
            × (a.kind ≡ c.kind)
            × (is_active_actor_member d.members p.admin_id ≡ true))
        cs
    → has_channel (own_channels p cs) (conv_channel id) ≡ true
    → (is_peer c.kind ≡ false)
      × (requester_reaches p c.queue ≡ true)
      × (is_active_actor_member d.members p.admin_id ≡ true)
unfolding own_channels same_channel any
own_found p id c d [] h f = ground arith
own_found p id c d (a ∷ cs) h f = ground (arith, own_found p id c d cs h.1, h.0)

own_other :
    (p : Principal) (cs : List ActorConversation) (t k : String)
    → (has_channel (own_channels p cs) (agents_channel t) ≡ false)
      × (has_channel (own_channels p cs) (peer_channel t) ≡ false)
      × (has_channel (own_channels p cs) (queue_channel t k) ≡ false)
unfolding own_channels same_channel any
own_other p [] t k = (refl, refl, refl)
own_other p (a ∷ cs) t k = ground (arith, own_other p cs t k)

queue_found :
    (tenant t k : String) (qs : List String)
    → has_channel (queue_channels tenant qs) (queue_channel t k) ≡ true
    → contains qs k ≡ true
unfolding queue_channels same_channel any contains
queue_found tenant t k [] h = h
queue_found tenant t k (q ∷ qs) h = ground (arith, queue_found tenant t k qs)

queue_other :
    (tenant t : String) (qs : List String)
    → (has_channel (queue_channels tenant qs) (agents_channel t) ≡ false)
      × (has_channel (queue_channels tenant qs) (peer_channel t) ≡ false)
      × (has_channel (queue_channels tenant qs) (conv_channel t) ≡ false)
unfolding queue_channels same_channel any
queue_other tenant t [] = (refl, refl, refl)
queue_other tenant t (q ∷ qs) = ground (arith, queue_other tenant t qs)

own_user :
    (p : Principal) (cs : List ActorConversation) (x : String)
    → has_channel (own_channels p cs) (user_channel x) ≡ false
unfolding own_channels same_channel any
own_user p [] x = refl
own_user p (a ∷ cs) x = ground (arith, own_user p cs x)

queue_user :
    (tenant x : String) (qs : List String)
    → has_channel (queue_channels tenant qs) (user_channel x) ≡ false
unfolding queue_channels same_channel any
queue_user tenant x [] = refl
queue_user tenant x (q ∷ qs) = ground (arith, queue_user tenant x qs)

-- What is in the set of an agent, part by part.
has-when : (b : Bool) (c ch : Channel) → has_channel (when b c) ch ≡ (b && same_channel c ch)
unfolding any
has-when true c ch = ground arith
has-when false c ch = refl

has-operator_channels :
    (p : Principal) (in_ : ChannelInputs) (ch : Channel)
    → let s = scope (some p) conversations_list in
      has_channel (operator_channels p s in_) ch ≡ (
        (reaches_queue p queue_support && same_channel (agents_channel p.tenant_id) ch)
        || (has_channel
              (queue_channels p.tenant_id (if (queues p).all then in_.queues else (queues p).names))
              ch
            || (allows_kind s peer && same_channel (peer_channel p.tenant_id) ch)))
unfolding operator_channels
has-operator_channels p in_ ch =
    let names = if (queues p).all then in_.queues else (queues p).names in
    let s = scope (some p) conversations_list in
    any-append (λ c. same_channel c ch)
      (when (reaches_queue p queue_support) (agents_channel p.tenant_id))
      (queue_channels p.tenant_id names ++ when (allows_kind s peer) (peer_channel p.tenant_id))
    ∙ ap₂ (λ a b. a || b) (has-when (reaches_queue p queue_support) (agents_channel p.tenant_id) ch)
        (any-append (λ c. same_channel c ch) (queue_channels p.tenant_id names)
            (when (allows_kind s peer) (peer_channel p.tenant_id))
          ∙ ap (λ b. has_channel (queue_channels p.tenant_id names) ch || b)
              (has-when (allows_kind s peer) (peer_channel p.tenant_id) ch))

has-agent_channels :
    (p : Principal) (in_ : ChannelInputs) (ch : Channel)
    → let s = scope (some p) conversations_list in
      has_channel (agent_channels p in_) ch ≡ (
        not s.deny_all
        && (same_channel (user_channel p.admin_id) ch
            || ((has_role p requester && has_channel (own_channels p in_.conversations) ch)
                || (not (requester_only p) && has_channel (operator_channels p s in_) ch))))
unfolding agent_channels any
has-agent_channels p in_ ch =
    let s = scope (some p) conversations_list in
    let own = if has_role p requester then own_channels p in_.conversations else [] in
    let operated = if requester_only p then [] else operator_channels p s in_ in
    ground (arith, any-append (λ c. same_channel c ch) own operated)

-- What a channel that is followed says of its follower.
module _ (p : Principal) (in_ : ChannelInputs) where
  abbrev pub IsShown : Type 0
  IsShown = (scope (some p) conversations_list).deny_all ≡ false

  pub follow_conv :
      (id : String)
      → has_channel (agent_channels p in_) (conv_channel id) ≡ true
      → IsShown
        × (has_role p requester ≡ true)
        × (has_channel (own_channels p in_.conversations) (conv_channel id) ≡ true)
  unfolding same_channel
  follow_conv id h =
      let names = if (queues p).all then in_.queues else (queues p).names in
      ground (
        arith,
        has-agent_channels p in_ (conv_channel id),
        has-operator_channels p in_ (conv_channel id),
        queue_other p.tenant_id id names,
      )

  pub follow_user :
      (x : String)
      → has_channel (agent_channels p in_) (user_channel x) ≡ true
      → str_eq p.admin_id x ≡ true
  unfolding same_channel
  follow_user x h =
      let names = if (queues p).all then in_.queues else (queues p).names in
      ground (
        arith,
        has-agent_channels p in_ (user_channel x),
        has-operator_channels p in_ (user_channel x),
        own_user p in_.conversations x,
        queue_user p.tenant_id x names,
      )

  pub follow_agents :
      (t : String)
      → has_channel (agent_channels p in_) (agents_channel t) ≡ true
      → IsShown × (requester_only p ≡ false) × (reaches_queue p queue_support ≡ true)
  unfolding same_channel
  follow_agents t h =
      let names = if (queues p).all then in_.queues else (queues p).names in
      ground (
        arith,
        has-agent_channels p in_ (agents_channel t),
        has-operator_channels p in_ (agents_channel t),
        queue_other p.tenant_id t names,
        own_other p in_.conversations t t,
      )

  pub follow_peer :
      (t : String)
      → has_channel (agent_channels p in_) (peer_channel t) ≡ true
      → IsShown
        × (requester_only p ≡ false)
        × (allows_kind (scope (some p) conversations_list) peer ≡ true)
  unfolding same_channel
  follow_peer t h =
      let names = if (queues p).all then in_.queues else (queues p).names in
      ground (
        arith,
        has-agent_channels p in_ (peer_channel t),
        has-operator_channels p in_ (peer_channel t),
        queue_other p.tenant_id t names,
        own_other p in_.conversations t t,
      )

  names_reach :
      (k : String)
      → contains (if (queues p).all then in_.queues else (queues p).names) k ≡ true
      → reaches_queue p k ≡ true
  unfolding reaches_queue
  names_reach k h = ground arith

  pub follow_queue :
      (t k : String)
      → has_channel (agent_channels p in_) (queue_channel t k) ≡ true
      → IsShown × (requester_only p ≡ false) × (reaches_queue p k ≡ true)
  unfolding same_channel
  follow_queue t k h =
      let names = if (queues p).all then in_.queues else (queues p).names in
      ground (
        arith,
        has-agent_channels p in_ (queue_channel t k),
        has-operator_channels p in_ (queue_channel t k),
        queue_found p.tenant_id t k names,
        names_reach k,
        own_other p in_.conversations t k,
      )
