-- ===== src/Store/ConversationList.antt =====
-- The scope of a list in backend/internal/store/gormstore/conversation_list.go, and the membership
-- queries of gormstore/conversation.go. A query is a test on one conversation's rows.
use sild.Common.{
  String, List, Bool, true, false, not, ◌&&◌, ◌||◌, Option, none, some, is_empty, any, contains,
  str_eq, if◌then◌else◌,
}
use sild.Models.Enums.{ConversationKind, is_peer, is_support, same_kind}
use sild.Policy.Scope.{ResourceScope, OwnRequests}

-- The columns of models.ConversationMember that the queries read.
pub record Member : Type 0 where
  pub external_user_id : Option String
  pub internal_actor_id : Option String
  pub left : Bool

-- The columns of models.Conversation that the queries read.
pub record Conversation : Type 0 where
  pub kind : ConversationKind
  pub queue : String
  pub archived : Bool

-- What the database holds under one conversation id: the row, its members, whether an assignment
-- exists, and the members' ids in the snapshot of a tombstone.
pub record Stored : Type 0 where
  pub row : Option Conversation
  pub members : List Member
  pub assigned : Bool
  pub snapshot : Option (List String)

abbrev pub is_value : Option String → String → Bool
is_value none s = false
is_value (some t) s = str_eq t s

-- IsActiveMember, and the EXISTS on external_user_id
unfoldable pub is_active_member : List Member → String → Bool
is_active_member members id = any (λ m. not m.left && is_value m.external_user_id id) members

-- IsActiveActorMember, and the EXISTS on internal_actor_id
unfoldable pub is_active_actor_member : List Member → String → Bool
is_active_actor_member members id = any (λ m. not m.left && is_value m.internal_actor_id id) members

-- The condition that applyCeiling adds for each restriction of the scope.
unfoldable pub in_ceiling : ResourceScope → Conversation → Stored → Bool
in_ceiling s c d =
    (if is_empty s.kinds then true else any (same_kind c.kind) s.kinds)
    && (elim s.participant [ none ↦ true | some pt ↦ is_active_member d.members pt ]
        && (elim s.member_actor [
          | none ↦ true
          | some actor ↦ is_active_actor_member d.members actor
        ]
            && ((if is_empty s.queues then true else is_peer c.kind || contains s.queues c.queue)
                && (if s.requires_assignment
                    then not (is_support c.kind) || (d.assigned || c.archived)
                    else true))))

-- The part of applyScope for an operator who is also a requester.
unfoldable pub is_own_request : OwnRequests → Conversation → Stored → Bool
is_own_request o c d =
    is_support c.kind
    && (is_active_actor_member d.members o.actor
        && elim o.queues [ none ↦ true | some qs ↦ contains qs c.queue ])

-- applyScope, below the test on DenyAll that List makes first
unfoldable pub is_listed : ResourceScope → Conversation → Stored → Bool
is_listed s c d =
    if s.deny_all
    then false
    else elim s.own [ none ↦ in_ceiling s c d | some o ↦ in_ceiling s c d || is_own_request o c d ]
