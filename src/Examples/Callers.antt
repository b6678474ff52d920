-- ===== src/Examples/Callers.antt =====
-- Principals, conversations and scopes that the examples share.
use sild.Common.{List, [], ◌∷◌, true, false, none, some, any, contains, str_eq, keep}
use sild.Models.Enums.{
  PlatformRole, agent, translator, requester, unknown, support, peer, valid_role, same_kind,
}
use sild.Models.Rbac.{RoleScope, no_scope, allows}
use sild.Principal.{
  Principal, Assignment, admin_session, Kind, scope_of, find_scope, same_role, has_role, privileged,
  operator, requester_only, peer_access, queues, agent_queues, reaches_queue, requester_queues,
  requester_reaches,
}
use sild.Policy.Decision.{
  ResourceAttrs, authorize, holds, kind_holds, role_holds, conversation_scoped,
  authorize_conversation, own_request, requester_grant, operates, internal,
}
use sild.Policy.Action.{capabilities}
use sild.Policy.Scope.{scope, kind_scope, requester_scope, operator_scope, own_requests}
use sild.Policy.Catalog.{admin_roles}
use sild.Policy.Translation.{
  authorize_translation, may_publish, translation_narrowing, holds_without_translator,
  authorize_scope, publishable,
}
use sild.Policy.Grants.{advertised}
use sild.Api.Authz.{
  conversation_attrs, admin_attrs, member_attrs, is_archived_member, classify_agent_access,
  classify_conv,
}
use sild.Store.ConversationList.{
  Conversation, Member, Stored, is_listed, in_ceiling, is_own_request, is_active_member,
  is_active_actor_member,
}

abbrev pub session : Kind → List Assignment → Principal
session k roles = record {
  tenant_id = "ten_1";
  kind = k;
  subject = "u1";
  admin_id = "adm_1";
  service = false;
  assignments = roles;
  object_key = "";
}

abbrev pub with_scope : PlatformRole → RoleScope → Assignment
with_scope r s = record { role = r; scope = s }

abbrev pub billing_agent : Principal
billing_agent =
    session admin_session (with_scope agent (record no_scope { queues = "billing" ∷ [] }) ∷ [])

abbrev pub peer_agent : Principal
peer_agent = session admin_session (with_scope agent (record no_scope { peer = true }) ∷ [])

abbrev pub it_requester : Principal
it_requester =
    session admin_session (with_scope requester (record no_scope { queues = "it" ∷ [] }) ∷ [])

abbrev pub spanish_translator : Principal
spanish_translator =
    session admin_session
      (with_scope translator (record no_scope { projects = "web" ∷ []; locales = "es" ∷ [] }) ∷ [])

abbrev pub release_translator : Principal
release_translator = session admin_session (
    with_scope translator
      (record no_scope { projects = "web" ∷ []; locales = "all" ∷ []; publish = true })
    ∷ [])

abbrev pub stray : Assignment
stray = with_scope (unknown "auditor") no_scope

abbrev pub stray_member : Principal
stray_member = session admin_session (stray ∷ [])

abbrev pub billing_row : Conversation
billing_row = record { kind = support; queue = "billing"; archived = false }

abbrev pub billing_stored : Stored
billing_stored = record { row = some billing_row; members = []; assigned = true; snapshot = none }

abbrev pub own_member : Member
own_member = record { external_user_id = none; internal_actor_id = some "adm_1"; left = false }

abbrev pub it_attrs : ResourceAttrs
it_attrs = record { kind = support; support_reachable = false; is_member = true; queue = "it" }

abbrev pub peer_attrs : ResourceAttrs
peer_attrs = record { kind = peer; support_reachable = false; is_member = false; queue = "support" }

-- To unfold this name is to unfold what the decisions compute with.
unfoldable pub decisions : Unit {0}
unfolding valid_role same_kind is_listed in_ceiling is_own_request scope holds capabilities
    kind_holds role_holds any kind_scope requester_scope requester_only operator privileged has_role
    scope_of find_scope same_role operator_scope own_requests requester_queues requester_reaches
    peer_access queues agent_queues contains str_eq authorize conversation_scoped
    authorize_conversation own_request requester_grant operates reaches_queue conversation_attrs
    admin_attrs member_attrs is_active_member is_active_actor_member is_archived_member
    classify_agent_access classify_conv internal authorize_translation translation_narrowing
    holds_without_translator authorize_scope publishable allows may_publish advertised admin_roles
    keep
decisions = tt
