-- ===== src/Api/Authz/UnknownRole.antt =====
-- The role strings that no constant names, under roleHolds and Scope of backend/internal/policy.
use sild.Common.{
  String, List, [], ◌∷◌, true, false, ◌||◌, none, some, ◌≡◌, refl, any, contains, arith,
}
use sild.Models.Enums.{
  PlatformRole, support, owner, admin, agent, requester, unknown, valid_role, same_kind,
}
use sild.Principal.{
  Principal, Assignment, admin_session, same_role, find_scope, has_role, privileged, peer_access,
  queues, reaches_queue, operator, requester_only, requester_queues,
}
use sild.Policy.Action.{capabilities, conversations_list, conversations_read}
use sild.Policy.Decision.{
  role_holds, holds, conversation_scoped, operates, own_request, authorize, is_allowed,
}
use sild.Policy.Sessions.{
  scope_of_session, kind_holds_session, kind_scope_session, authorize_conversation_session,
}
use sild.Policy.Scope.{own_requests, operator_scope, scope}
use sild.Store.ConversationList.{Conversation, Stored, in_ceiling, is_listed}
use sild.Api.Authz.{
  classify_conv, classify_agent_access, admin_attrs, conversation_attrs, attrs_session,
}
use sild.Api.Authz.Branches.{list_grant}

unknown-ne-valid :
    (name : String) (r : PlatformRole) → valid_role r ≡ true → same_role (unknown name) r ≡ false
unfolding same_role valid_role
unknown-ne-valid name (unknown s) v = cc
unknown-ne-valid name _ v = refl

lone_unknown :
    (as_ : List Assignment) (a : Assignment) (name : String) (r : PlatformRole)
    → as_ ≡ a ∷ []
    → a.role ≡ unknown name
    → valid_role r ≡ true
    → find_scope as_ r ≡ none
unfolding find_scope same_role valid_role
lone_unknown as_ a name r e u v = rw e (rw (u, same_role, unknown-ne-valid name r v))

-- A role that no constant names works the list and not the conversation: the row of a support
-- conversation with an assignment, or archived, is listed to its holder, and reading it is refused.
pub unknown_role_mismatch :
    (p : Principal) (c : Conversation) (d : Stored) (name : String) (a : Assignment)
    → p.kind ≡ admin_session
    → p.assignments ≡ a ∷ []
    → a.role ≡ unknown name
    → d.row ≡ some c
    → c.kind ≡ support
    → (d.assigned || c.archived) ≡ true
    → (is_listed (scope (some p) conversations_list) c d ≡ true)
      × (is_allowed (authorize (some p) conversations_read (conversation_attrs p d)) ≡ false)
unfolding scope authorize holds capabilities conversation_scoped is_listed operator_scope
    own_requests in_ceiling own_request operates admin_attrs classify_agent_access classify_conv
    requester_only operator privileged has_role peer_access queues reaches_queue requester_queues
    contains any role_holds same_kind valid_role
unknown_role_mismatch p c d name a k e r row is ok = ground (
  arith,
  kind_holds_session p k list_grant,
  kind_scope_session p k,
  attrs_session p k d,
  authorize_conversation_session p k conversations_read (admin_attrs p d),
  scope_of_session p k owner,
  scope_of_session p k admin,
  scope_of_session p k agent,
  scope_of_session p k requester,
  lone_unknown p.assignments a name owner e r refl,
  lone_unknown p.assignments a name admin e r refl,
  lone_unknown p.assignments a name agent e r refl,
  lone_unknown p.assignments a name requester e r refl,
)
