-- ===== src/Realtime/Listed.antt =====
-- What an admin session's list shows, by what the session reaches: backend/internal/policy/scope.go and
-- backend/internal/store/gormstore/conversation_list.go.
use sild.Common.{
  true, false, ◌||◌, some, any, contains, ◌≡◌, refl, sym, ap, ◌∙◌, arith, Bool-cases, inl, inr,
  if◌then◌else◌,
}
use sild.Models.Enums.{peer, is_peer, requester, same_kind}
use sild.Principal.{
  Principal, admin_session, has_role, queues, agent_queues, reaches_queue, requester_only,
  requester_reaches, requester_queues, operator, privileged,
}
use sild.Policy.Action.{conversations_list}
use sild.Policy.Scope.{scope, allows_kind, requester_scope, operator_scope, own_requests}
use sild.Policy.Sessions.{kind_scope_session}
use sild.Store.ConversationList.{
  Conversation, Stored, is_active_actor_member, is_listed, in_ceiling, is_own_request,
}
use sild.Api.Authz.Branches.{KnownKind}

module _ (p : Principal) (session : p.kind ≡ admin_session) (c : Conversation) (d : Stored) where
  scoped :
      (scope (some p) conversations_list).deny_all ≡ false
      → scope (some p) conversations_list
        ≡ (if requester_only p then requester_scope p else operator_scope p)
  unfolding scope
  scoped h = ground (arith, kind_scope_session p session)

  requester_own :
      KnownKind c.kind
      → has_role p requester ≡ true
      → is_peer c.kind ≡ false
      → requester_reaches p c.queue ≡ true
      → is_active_actor_member d.members p.admin_id ≡ true
      → requester_only p ≡ true
      → is_listed (requester_scope p) c d ≡ true
  unfolding is_listed requester_scope in_ceiling requester_only operator privileged requester_queues
      requester_reaches same_kind any contains
  requester_own known r kind_ reaches member e = ground arith

  operator_own :
      KnownKind c.kind
      → has_role p requester ≡ true
      → is_peer c.kind ≡ false
      → requester_reaches p c.queue ≡ true
      → is_active_actor_member d.members p.admin_id ≡ true
      → requester_only p ≡ false
      → is_listed (operator_scope p) c d ≡ true
  unfolding is_listed operator_scope own_requests in_ceiling is_own_request requester_only operator
      privileged requester_queues requester_reaches same_kind any queues contains
  operator_own known r kind_ reaches member e = ground arith

  pub own_listed :
      KnownKind c.kind
      → (scope (some p) conversations_list).deny_all ≡ false
      → has_role p requester ≡ true
      → is_peer c.kind ≡ false
      → requester_reaches p c.queue ≡ true
      → is_active_actor_member d.members p.admin_id ≡ true
      → is_listed (scope (some p) conversations_list) c d ≡ true
  own_listed known shown r kind_ reaches member =
      rw (scoped shown) (elim (Bool-cases (requester_only p)) [
        | inl e ↦ rw e (requester_own known r kind_ reaches member e)
        | inr e ↦ rw e (operator_own known r kind_ reaches member e)
      ])

  reached_listed :
      KnownKind c.kind
      → is_peer c.kind ≡ false
      → reaches_queue p c.queue ≡ true
      → (c.archived || d.assigned) ≡ true
      → is_listed (operator_scope p) c d ≡ true
  unfolding is_listed operator_scope own_requests in_ceiling reaches_queue queues agent_queues
      same_kind any contains
  reached_listed known kind_ reaches ready = ground arith

  admitted_listed :
      is_peer c.kind ≡ true
      → allows_kind (operator_scope p) peer ≡ true
      → is_listed (operator_scope p) c d ≡ true
  unfolding is_listed operator_scope own_requests in_ceiling allows_kind same_kind any
  admitted_listed kind_ admits = ground arith

  module _ (shown : (scope (some p) conversations_list).deny_all ≡ false)
      (works : requester_only p ≡ false) where
    of_operator : scope (some p) conversations_list ≡ operator_scope p
    of_operator = scoped shown ∙ rw works refl

    pub support_listed :
        KnownKind c.kind
        → is_peer c.kind ≡ false
        → reaches_queue p c.queue ≡ true
        → (c.archived || d.assigned) ≡ true
        → is_listed (scope (some p) conversations_list) c d ≡ true
    support_listed known kind_ reaches ready =
        ap (λ s. is_listed s c d) of_operator ∙ reached_listed known kind_ reaches ready

    pub peer_listed :
        is_peer c.kind ≡ true
        → allows_kind (scope (some p) conversations_list) peer ≡ true
        → is_listed (scope (some p) conversations_list) c d ≡ true
    peer_listed kind_ admits =
        ap (λ s. is_listed s c d) of_operator
        ∙ admitted_listed kind_ (sym (ap (λ s. allows_kind s peer) of_operator) ∙ admits)
