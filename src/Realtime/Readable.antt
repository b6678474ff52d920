-- ===== src/Realtime/Readable.antt =====
-- What reaches the socket of a session, against what the endpoints let it read:
-- backend/internal/realtime/channels.go and centrifuge.go against backend/internal/policy/scope.go.
use sild.Common.{
  String, ◌++◌, Bool, true, false, not, ◌&&◌, ◌||◌, some, str_eq, str_eq_iff, any, any-append, All,
  List, [], ◌∷◌, map, contains, refl, true≢false, ◌≡◌, sym, ap, ap₂, ◌∙◌, arith, Bool-cases, inl,
  inr,
}
use mathlib.Core.Path.{subst}
use sild.Models.Enums.{is_peer}
use sild.Models.Rbac.{queue_support}
use sild.Principal.{Principal, admin_session, reaches_queue}
use sild.Policy.Action.{conversations_list, conversations_read}
use sild.Policy.Decision.{allowed, authorize}
use sild.Policy.Scope.{scope}
use sild.Store.ConversationList.{Conversation, Stored, is_active_actor_member, is_listed}
use sild.Api.Authz.{conversation_attrs, classify_conv}
use sild.Api.Authz.Branches.{KnownKind, ValidRoles}
use sild.Api.Authz.Ceiling.{listed-authorized}
use sild.Realtime.Followed.{
  own_found, follow_conv, follow_user, follow_agents, follow_peer, follow_queue,
}
use sild.Realtime.Listed.{own_listed, support_listed, peer_listed}
use sild.Realtime.{
  client_channels, unless_empty, Channel, user_channel, conv_channel, agents_channel, peer_channel,
  queue_channel, same_channel, has_channel, ActorConversation, ChannelInputs, agent_channels,
  Target, channels_for, operators, observed, event_target,
}

-- What the member's conversations say of one id is what is stored under it.
abbrev pub IsCurrent : Principal → ChannelInputs → String → Conversation → Stored → Type 0
IsCurrent p in_ id c d =
    All
      (λ (a : ActorConversation).
        str_eq a.conversation_id id ≡ true
        → (a.queue ≡ c.queue)
          × (a.kind ≡ c.kind)
          × (is_active_actor_member d.members p.admin_id ≡ true))
      in_.conversations

-- Where an event in a conversation goes: to its peers, to the operators of its queue, or to neither.
data Destination (t : Target) (tenant : String) (c : Conversation) (d : Stored)
    : Target → Type 0 where
  among_peers : is_peer c.kind ≡ true → Destination t tenant c d (record t { peer = tenant })
  in_support :
      is_peer c.kind ≡ false
      → (c.archived || d.assigned) ≡ true
      → str_eq c.queue queue_support ≡ true
      → Destination t tenant c d (record t { tenant = tenant })
  in_queue :
      is_peer c.kind ≡ false
      → (c.archived || d.assigned) ≡ true
      → Destination t tenant c d (record t { queue = (tenant, c.queue) })
  unobserved : Destination t tenant c d t

destination :
    (t : Target) (tenant : String) (c : Conversation) (d : Stored)
    → d.row ≡ some c
    → Destination t tenant c d (observed t tenant d)
unfolding observed classify_conv operators
destination t tenant c d present = elim (Bool-cases (is_peer c.kind)) [
  | inl e ↦ rw (present, e, observed) (among_peers e)
  | inr e ↦ elim (Bool-cases c.archived) [
    | inl f ↦ elim (Bool-cases (str_eq c.queue queue_support)) [
      | inl g ↦ rw (present, e, f, g, observed) (in_support e (ground arith) g)
      | inr g ↦ rw (present, e, f, g, observed) (in_queue e (ground arith))
    ]
    | inr f ↦ elim (Bool-cases d.assigned) [
      | inl a ↦ elim (Bool-cases (str_eq c.queue queue_support)) [
        | inl g ↦ rw (present, e, f, a, g, observed) (in_support e (ground arith) g)
        | inr g ↦ rw (present, e, f, a, g, observed) (in_queue e (ground arith))
      ]
      | inr a ↦ rw (present, e, f, a, observed) unobserved
    ]
  ]
]

-- What is in the channels of a target, part by part.
has-unless_empty :
    (s : String) (c ch : Channel)
    → has_channel (unless_empty s c) ch ≡ (not (str_eq s "") && same_channel c ch)
unfolding any
has-unless_empty s c ch = ground arith

has-channels_for :
    (t : Target) (ch : Channel)
    → has_channel (channels_for t) ch ≡ (
        has_channel (client_channels t) ch
        || ((not (str_eq t.tenant "") && same_channel (agents_channel t.tenant) ch)
            || ((not (str_eq t.queue.1 "") && same_channel (queue_channel t.queue.0 t.queue.1) ch)
                || (not (str_eq t.peer "") && same_channel (peer_channel t.peer) ch))))
unfolding channels_for
has-channels_for t ch =
    let has = λ (c : Channel). same_channel c ch in
    let of_queue = unless_empty t.queue.1 (queue_channel t.queue.0 t.queue.1) in
    let of_peer = unless_empty t.peer (peer_channel t.peer) in
    let of_tenant = unless_empty t.tenant (agents_channel t.tenant) in
    any-append has (client_channels t) (of_tenant ++ (of_queue ++ of_peer))
    ∙ ap (λ b. has_channel (client_channels t) ch || b)
        (any-append has of_tenant (of_queue ++ of_peer)
          ∙ ap₂ (λ a b. a || b) (has-unless_empty t.tenant (agents_channel t.tenant) ch)
              (any-append has of_queue of_peer
                ∙ ap₂ (λ a b. a || b)
                    (has-unless_empty t.queue.1 (queue_channel t.queue.0 t.queue.1) ch)
                    (has-unless_empty t.peer (peer_channel t.peer) ch)))

-- What is in the channels of the users that an event names.
module _ (x : String) where
  named_user :
      (users : List String)
      → has_channel (map user_channel users) (user_channel x) ≡ contains users x
  unfolding same_channel any contains
  named_user [] = refl
  named_user (u ∷ users) = ground (arith, named_user users)

  named_other :
      (users : List String) (k : String)
      → (has_channel (map user_channel users) (conv_channel x) ≡ false)
        × (has_channel (map user_channel users) (agents_channel x) ≡ false)
        × (has_channel (map user_channel users) (peer_channel x) ≡ false)
        × (has_channel (map user_channel users) (queue_channel x k) ≡ false)
  unfolding same_channel any
  named_other [] k = (refl, refl, refl, refl)
  named_other (u ∷ users) k = ground (arith, named_other users k)

-- A channel of clients is the conversation's or a named user's.
client-has :
    (id : String) (internal : Bool) (users : List String) (ch : Channel)
    → has_channel (client_channels (event_target id internal users)) ch ≡ true
    → (same_channel (conv_channel id) ch || has_channel (map user_channel users) ch) ≡ true
unfolding any
client-has id internal users ch h = ground (
  arith,
  any-append (λ c. same_channel c ch) (unless_empty id (conv_channel id)) (map user_channel users),
  has-unless_empty id (conv_channel id) ch,
)

module _ (p : Principal) (in_ : ChannelInputs) (id : String) (c : Conversation) (d : Stored)
    (session : p.kind ≡ admin_session) (known : KnownKind c.kind)
    (current : IsCurrent p in_ id c d) where
  abbrev IsListed : Type 0
  IsListed = is_listed (scope (some p) conversations_list) c d ≡ true

  abbrev IsFollowed : Channel → Type 0
  IsFollowed ch = has_channel (agent_channels p in_) ch ≡ true

  by_conv : IsFollowed (conv_channel id) → IsListed
  by_conv f =
      let (shown, r, own) = follow_conv p in_ id f in
      let (kind_, reaches, member) = own_found p id c d in_.conversations current own in
      own_listed p session c d known shown r kind_ reaches member

  -- The channels of clients, the conversation's and those of the users that an event names, none of whom
  -- has the session's id.
  to_client :
      (internal : Bool) (users : List String) (ch : Channel)
      → contains users p.admin_id ≡ false
      → has_channel (client_channels (event_target id internal users)) ch ≡ true
      → IsFollowed ch
      → IsListed
  unfolding same_channel any
  to_client internal users (conv_channel x) apart h f = by_conv (
      subst (λ y. IsFollowed (conv_channel y))
        (sym (
          (str_eq_iff id x).0
            (ground (arith, client-has id internal users (conv_channel x), named_other x users x))))
        f)
  to_client internal users (user_channel x) apart h f = absurd (
      true≢false (
        sym (
          subst (λ u. contains users u ≡ true)
            (sym ((str_eq_iff p.admin_id x).0 (follow_user p in_ x f)))
            (ground (arith, client-has id internal users (user_channel x), named_user x users)))
        ∙ apart))
  to_client internal users (agents_channel x) apart h f =
      absurd
        (ground (arith, client-has id internal users (agents_channel x), named_other x users x))
  to_client internal users (peer_channel x) apart h f =
      absurd (ground (arith, client-has id internal users (peer_channel x), named_other x users x))
  to_client internal users (queue_channel x k) apart h f =
      absurd
        (ground (arith, client-has id internal users (queue_channel x k), named_other x users k))

  module _ (kind_ : is_peer c.kind ≡ false) (ready : (c.archived || d.assigned) ≡ true) where
    to_agents :
        (t : String) (ch : Channel)
        → str_eq c.queue queue_support ≡ true
        → same_channel (agents_channel t) ch ≡ true
        → IsFollowed ch
        → IsListed
    unfolding same_channel
    to_agents t (agents_channel x) q h f =
        let (shown, works, reaches) = follow_agents p in_ x f in
        support_listed p session c d shown works known kind_
          (subst (λ k. reaches_queue p k ≡ true) (sym ((str_eq_iff c.queue queue_support).0 q))
            reaches)
          ready
    to_agents t (user_channel x) q h f = absurd (ground arith)
    to_agents t (conv_channel x) q h f = absurd (ground arith)
    to_agents t (peer_channel x) q h f = absurd (ground arith)
    to_agents t (queue_channel x k) q h f = absurd (ground arith)

    to_queue :
        (t : String) (ch : Channel)
        → same_channel (queue_channel t c.queue) ch ≡ true
        → IsFollowed ch
        → IsListed
    unfolding same_channel
    to_queue t (queue_channel x k) h f =
        let (shown, works, reaches) = follow_queue p in_ x k f in
        support_listed p session c d shown works known kind_
          (subst (λ j. reaches_queue p j ≡ true) (sym ((str_eq_iff c.queue k).0 (ground arith)))
            reaches)
          ready
    to_queue t (user_channel x) h f = absurd (ground arith)
    to_queue t (conv_channel x) h f = absurd (ground arith)
    to_queue t (peer_channel x) h f = absurd (ground arith)
    to_queue t (agents_channel x) h f = absurd (ground arith)

  to_peers :
      (t : String) (ch : Channel)
      → is_peer c.kind ≡ true
      → same_channel (peer_channel t) ch ≡ true
      → IsFollowed ch
      → IsListed
  unfolding same_channel
  to_peers t (peer_channel x) kind_ h f =
      let (shown, works, admits) = follow_peer p in_ x f in
      peer_listed p session c d shown works kind_ admits
  to_peers t (user_channel x) kind_ h f = absurd (ground arith)
  to_peers t (conv_channel x) kind_ h f = absurd (ground arith)
  to_peers t (agents_channel x) kind_ h f = absurd (ground arith)
  to_peers t (queue_channel x k) kind_ h f = absurd (ground arith)

  delivered :
      (internal : Bool) (users : List String) (t : Target) (ch : Channel)
      → contains users p.admin_id ≡ false
      → Destination (event_target id internal users) p.tenant_id c d t
      → has_channel (channels_for t) ch ≡ true
      → IsFollowed ch
      → IsListed
  unfolding str_eq
  delivered internal users t ch apart to h f =
      elim (Bool-cases (has_channel (client_channels (event_target id internal users)) ch)) [
        | inl e ↦ to_client internal users ch apart e f
        | inr e ↦ observed_by t to (sym (has-channels_for t ch) ∙ h) e
      ]
    where
      observed_by :
          (t : Target)
          → Destination (event_target id internal users) p.tenant_id c d t
          → (has_channel (client_channels t) ch
              || ((not (str_eq t.tenant "") && same_channel (agents_channel t.tenant) ch)
                  || ((not (str_eq t.queue.1 "")
                        && same_channel (queue_channel t.queue.0 t.queue.1) ch)
                      || (not (str_eq t.peer "") && same_channel (peer_channel t.peer) ch))))
            ≡ true
          → has_channel (client_channels (event_target id internal users)) ch ≡ false
          → IsListed
      observed_by t (among_peers k) h e = to_peers p.tenant_id ch k (ground arith) f
      observed_by t (in_support k ready q) h e = to_agents k ready p.tenant_id ch q (ground arith) f
      observed_by t (in_queue k ready) h e = to_queue k ready p.tenant_id ch (ground arith) f
      observed_by t unobserved h e = absurd (ground arith)

-- No channel that an admin session follows brings an event of a conversation that the endpoints refuse it.
-- For a session whose roles are all recognised, a stored conversation of a known kind, inputs that agree
-- with what is stored under it, and an event that names no user with the id of the session: where a channel
-- that the observed event goes to is one that the session follows, the list shows the conversation, and
-- Authorize allows reading it.
pub delivered-authorized :
    (p : Principal) (in_ : ChannelInputs) (id : String) (internal : Bool) (users : List String)
    (c : Conversation) (d : Stored) (ch : Channel)
    → p.kind ≡ admin_session
    → ValidRoles p
    → d.row ≡ some c
    → KnownKind c.kind
    → IsCurrent p in_ id c d
    → contains users p.admin_id ≡ false
    → has_channel (channels_for (observed (event_target id internal users) p.tenant_id d)) ch ≡ true
    → has_channel (agent_channels p in_) ch ≡ true
    → (is_listed (scope (some p) conversations_list) c d ≡ true)
      × (authorize (some p) conversations_read (conversation_attrs p d) ≡ allowed)
delivered-authorized p in_ id internal users c d ch session valid present known current apart goes
      followed =
    let shows =
      delivered p in_ id c d session known current internal users
        (observed (event_target id internal users) p.tenant_id d) ch apart
        (destination (event_target id internal users) p.tenant_id c d present) goes followed in
    (shows, listed-authorized p c d present known valid shows)
