-- ===== src/Examples/Sockets.antt =====
-- Examples of the channels of backend/internal/realtime.
use sild.Common.{[], ◌∷◌, true, false, some, none, str_eq, any, contains, ◌≡◌, refl, inl}
use sild.Models.Enums.{owner, agent, support, valid_role, same_kind}
use sild.Models.Rbac.{RoleScope, no_scope}
use sild.Principal.{
  Principal, admin_session, same_role, find_scope, scope_of, has_role, privileged, peer_access,
  agent_queues, queues, reaches_queue, operator, requester_only, requester_queues,
}
use sild.Policy.Action.{conversations_list, conversations_read, capabilities}
use sild.Policy.Decision.{allowed, authorize, holds, kind_holds, role_holds}
use sild.Policy.Scope.{scope, allows_kind, kind_scope, operator_scope, own_requests}
use sild.Store.ConversationList.{Conversation, Stored, is_listed}
use sild.Api.Authz.{conversation_attrs, classify_conv}
use sild.Realtime.{
  queue_channel, ChannelInputs, agent_channels, own_channels, queue_channels, operator_channels,
  channels_for, observed, operators, same_channel,
}
use sild.Realtime.Readable.{delivered-authorized}
use sild.Domain.Team.{Team}
use sild.Domain.Team.Writes.{assigns, removes}
use sild.Domain.Team.Sockets.{held, writes_followed, AreFollowing, writes-AreFollowing}

-- An agent of the sales queue, and a conversation in it.
abbrev of_sales : RoleScope
of_sales = record no_scope { queues = "sales" ∷ [] }

abbrev seller : Principal
seller = record {
  tenant_id = "t1";
  kind = admin_session;
  subject = "";
  admin_id = "a1";
  service = false;
  assignments = record { role = agent; scope = of_sales } ∷ [];
  object_key = "";
}

abbrev no_inputs : ChannelInputs
no_inputs = record { queues = "sales" ∷ []; conversations = [] }

abbrev sale : Conversation
sale = record { kind = support; queue = "sales"; archived = false }

abbrev stored_sale : Stored
stored_sale = record { row = some sale; members = []; assigned = true; snapshot = none }

delivered-authorized_example :
    (is_listed (scope (some seller) conversations_list) sale stored_sale ≡ true)
    × (authorize (some seller) conversations_read (conversation_attrs seller stored_sale) ≡ allowed)
unfolding valid_role channels_for observed operators classify_conv same_channel str_eq any
    agent_channels own_channels queue_channels operator_channels scope holds kind_holds role_holds
    capabilities kind_scope requester_only operator privileged has_role scope_of find_scope
    same_role operator_scope queues agent_queues reaches_queue contains peer_access own_requests
    requester_queues allows_kind same_kind
delivered-authorized_example =
    delivered-authorized seller no_inputs "c1" false ("u1" ∷ []) sale stored_sale
      (queue_channel "t1" "sales") refl (refl, tt) refl (inl refl) tt refl refl refl

abbrev sellers : Team
sellers = record {
  members = [];
  grants = record { admin_user_id = "a1"; role = agent; scope = of_sales } ∷ [];
  queues = "sales" ∷ [];
  projects = [];
}

writes-AreFollowing_example : AreFollowing no_inputs "t1" "a1" (
    writes_followed no_inputs "t1" "a1"
      (sellers, agent_channels (held sellers "t1" "a1") no_inputs)
      (removes "a1" agent ∷ assigns "a2" owner no_scope ∷ []))
writes-AreFollowing_example =
    writes-AreFollowing no_inputs "t1" "a1"
      (sellers, agent_channels (held sellers "t1" "a1") no_inputs)
      (removes "a1" agent ∷ assigns "a2" owner no_scope ∷ []) (λ ch. refl)
