-- ===== src/Policy/Decision.antt =====
-- backend/internal/policy/policy.go, and roleHolds of action.go: one decision.
use sild.Common.{String, Bool, true, false, not, ◌&&◌, ◌||◌, Option, none, some, any, if◌then◌else◌}
use sild.Models.Enums.{
  PlatformRole, owner, admin, agent, translator, requester, unknown, ConversationKind, unset_kind,
  is_peer,
}
use sild.Principal.{
  Principal, api_key, user, admin_session, signed, other, has_role, privileged, peer_access,
  reaches_queue, requester_only, requester_reaches,
}
use sild.Policy.Action.{
  Action, Grant, capabilities, conversations_read, conversations_close, messages_read,
  messages_send, receipts_write, typing_write, assignments_create, assignments_claim,
  assignments_close,
}

-- Denied, with the flag that makes it a 401 rather than a 403.
pub record Denied : Type 0 where
  pub code : String
  pub message : String
  pub authn : Bool

-- A decision's `error`: nil, or a refusal.
pub data Verdict : Type 0 where
  allowed : Verdict
  refused : Denied → Verdict

abbrev pub denied : String → String → Verdict
denied code msg = refused (record { code = code; message = msg; authn = false })

abbrev pub unauthenticated : Verdict
unauthenticated =
    refused (record { code = "unauthorized"; message = "authentication required"; authn = true })

pub record ResourceAttrs : Type 0 where
  pub kind : ConversationKind
  pub support_reachable : Bool
  pub is_member : Bool
  pub queue : String

-- The zero value, for an action with no resource dimension.
abbrev pub no_attrs : ResourceAttrs
no_attrs = record { kind = unset_kind; support_reachable = false; is_member = false; queue = "" }

-- roleHolds: the translator's and the requester's bits stand alone, and owner wins over adminPriv.
unfoldable pub role_holds : Grant → PlatformRole → Bool
role_holds g translator = g.translator
role_holds g requester = g.requester
role_holds g owner = if g.owner then true else if g.admin_priv then true else g.admin
role_holds g admin = if g.owner then false else if g.admin_priv then true else g.admin
role_holds g agent = if g.owner then false else if g.admin_priv then false else g.admin
role_holds g (unknown s) = if g.owner then false else if g.admin_priv then false else g.admin

-- The part of holds below the two guards.
unfoldable pub kind_holds : Principal → Grant → Bool
kind_holds p g = elim p.kind [
  | api_key ↦ g.api_key
  | user ↦ g.user
  | signed ↦ g.signed
  | admin_session ↦ any (λ a. role_holds g a.role) p.assignments
  | other s ↦ false
]

-- holds: an undeclared action is denied, and so is a caller that is not there.
unfoldable pub holds : Option Principal → Action → Bool
holds caller a = elim (capabilities a) [
  | none ↦ false
  | some g ↦ elim caller [ none ↦ false | some p ↦ kind_holds p g ]
]

unfoldable pub conversation_scoped : Action → Bool
conversation_scoped conversations_read = true
conversation_scoped conversations_close = true
conversation_scoped messages_read = true
conversation_scoped messages_send = true
conversation_scoped receipts_write = true
conversation_scoped typing_write = true
conversation_scoped assignments_create = true
conversation_scoped assignments_claim = true
conversation_scoped assignments_close = true
conversation_scoped _ = false

abbrev pub not_a_member : Verdict
not_a_member = denied "not_a_member" "not a member of this conversation"

-- operates: the operator rules for an admin, without a requester's own-request access.
unfoldable pub operates : Principal → ResourceAttrs → Verdict
operates p r =
    if requester_only p
    then (if is_peer r.kind || not r.is_member
        then not_a_member
        else denied "queue_out_of_scope" "this conversation is in a queue you do not use")
    else if is_peer r.kind
    then (if peer_access p
        then allowed
        else denied "peer_access_required" "peer access is not enabled for this operator")
    else if privileged p
    then allowed
    else if not (reaches_queue p r.queue)
    then denied "queue_out_of_scope" "this conversation is in a queue you do not work"
    else if r.support_reachable
    then allowed
    else denied "support_only" "agents may only access support conversations"

-- capabilities[a].requester; a missing key reads as the zero grant.
unfoldable pub requester_grant : Action → Bool
requester_grant a = elim (capabilities a) [ none ↦ false | some g ↦ g.requester ]

unfoldable pub own_request : Principal → Action → ResourceAttrs → Bool
own_request p a r =
    requester_grant a
    && (has_role p requester
        && (not (is_peer r.kind) && (r.is_member && requester_reaches p r.queue)))

unfoldable pub authorize_conversation : Principal → Action → ResourceAttrs → Verdict
authorize_conversation p a r = elim p.kind [
  | api_key ↦ allowed
  | admin_session ↦ if own_request p a r then allowed else operates p r
  | user ↦ if r.is_member then allowed else not_a_member
  | signed ↦ denied "forbidden" "insufficient capability"
  | other s ↦ denied "forbidden" "insufficient capability"
]

-- Authorize. A caller that is not there holds nothing, so the last `none` is never reached.
unfoldable pub authorize : Option Principal → Action → ResourceAttrs → Verdict
authorize caller a r =
    if not (holds caller a)
    then elim caller [
      | none ↦ unauthenticated
      | some p ↦ denied "forbidden" "insufficient capability"
    ]
    else if not (conversation_scoped a)
    then allowed
    else elim caller [ none ↦ unauthenticated | some p ↦ authorize_conversation p a r ]

abbrev pub is_allowed : Verdict → Bool
is_allowed allowed = true
is_allowed (refused d) = false

-- Internal: may the caller use notes here, as someone who operates the conversation.
unfoldable pub internal : Option Principal → Action → ResourceAttrs → Bool
internal none a r = false
internal (some p) a r =
    if not (holds (some p) a)
    then false
    else elim p.kind [ api_key ↦ true | admin_session ↦ is_allowed (operates p r) | _ ↦ false ]
