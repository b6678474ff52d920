-- ===== src/Api/Authz.antt =====
-- conversationAttrs of backend/internal/apiutil/authz.go, with the classification that it calls:
-- classifyConv of domain/peer.go, IsActorMember of domain/membership.go, and HasAssignment and
-- IsArchivedMember of domain/archive_read.go. Queries do not fail here: a failed one reads as no row.
pub mod Branches
pub mod Ceiling
pub mod UnknownRole
pub mod Widening
use sild.Common.{
  String, List, [], ◌∷◌, Bool, true, false, not, ◌&&◌, ◌||◌, Option, none, some, contains,
  if◌then◌else◌, arith, ◌≡◌,
}
use sild.Models.Enums.{support, peer, unset_kind, is_peer, requester}
use sild.Models.Rbac.{queue_support}
use sild.Principal.{Principal, api_key, user, admin_session, signed, other, privileged, has_role}
use sild.Policy.Decision.{ResourceAttrs, no_attrs}
use sild.Store.ConversationList.{Conversation, Stored, is_active_member, is_active_actor_member}

pub record AgentAccess : Type 0 where
  pub peer : Bool
  pub support_ok : Bool
  pub queue : String

-- classifyConv
unfoldable pub classify_conv : Conversation → Bool → Bool → AgentAccess
classify_conv c assigned need_support =
    if is_peer c.kind
    then record { peer = true; support_ok = false; queue = c.queue }
    else if c.archived
    then record { peer = false; support_ok = true; queue = c.queue }
    else record { peer = false; support_ok = need_support && assigned; queue = c.queue }

-- ClassifyAgentAccess
unfoldable pub classify_agent_access : Stored → Bool → AgentAccess
classify_agent_access d need_support = elim d.row [
  | none ↦ record { peer = false; support_ok = false; queue = queue_support }
  | some c ↦ classify_conv c d.assigned need_support
]

-- IsArchivedMember
unfoldable pub is_archived_member : Stored → String → Bool
is_archived_member d id =
    is_active_member d.members id || elim d.snapshot [ none ↦ false | some ids ↦ contains ids id ]

-- The attributes of an admin's decision.
unfoldable pub admin_attrs : Principal → Stored → ResourceAttrs
admin_attrs p d =
    let access = classify_agent_access d (not (privileged p)) in
    record {
      kind = if access.peer then peer else support;
      support_reachable = access.support_ok;
      is_member =
          if has_role p requester then is_active_actor_member d.members p.admin_id else false;
      queue = access.queue;
    }

unfoldable pub member_attrs : Principal → Stored → ResourceAttrs
member_attrs p d = record no_attrs {
  is_member = is_active_member d.members p.subject || is_archived_member d p.subject;
}

-- conversationAttrs
unfoldable pub conversation_attrs : Principal → Stored → ResourceAttrs
conversation_attrs p d = elim p.kind [
  | api_key ↦ no_attrs
  | admin_session ↦ admin_attrs p d
  | user ↦ member_attrs p d
  | signed ↦ member_attrs p d
  | other s ↦ member_attrs p d
]

pub attrs_session :
    (p : Principal)
    → p.kind ≡ admin_session
    → (d : Stored) → conversation_attrs p d ≡ admin_attrs p d
unfolding conversation_attrs
attrs_session p session d = ground arith
