-- ===== src/Api/Authz/Ceiling.antt =====
-- The list of conversations and the decision on one conversation: applyScope of
-- backend/internal/store/gormstore/conversation_list.go against Authorize of policy/policy.go.
use sild.Common.{true, some, ◌≡◌, ◌⊎◌, inl, inr, refl, arith, Bool-cases}
use sild.Principal.{Principal, api_key, admin_session, requester_only}
use sild.Policy.Action.{capabilities, conversations_list, conversations_read}
use sild.Policy.Decision.{
  allowed, kind_holds, holds, conversation_scoped, authorize_conversation, authorize,
}
use sild.Policy.Sessions.{kind_holds_session, kind_scope_session, authorize_conversation_session}
use sild.Policy.Scope.{kind_scope, scope}
use sild.Store.ConversationList.{Conversation, Stored, in_ceiling, is_listed}
use sild.Api.Authz.{admin_attrs, member_attrs, conversation_attrs, attrs_session}
use sild.Api.Authz.Branches.{
  KnownKind, ValidRoles, requester_listed, requester_unlisted, operator_listed, operator_unlisted,
  not-operates_of_requester, role_reach, operator_of_reach, list_grant,
}

module _ (p : Principal) (c : Conversation) (d : Stored) (present : d.row ≡ some c) where
  admin_listed :
      p.kind ≡ admin_session
      → KnownKind c.kind
      → ValidRoles p
      → is_listed (scope (some p) conversations_list) c d ≡ true
      → authorize (some p) conversations_read (conversation_attrs p d) ≡ allowed
  unfolding is_listed scope authorize holds conversation_scoped capabilities
  admin_listed k known v h = elim (Bool-cases (requester_only p)) [
    | inl only ↦ ground (
      arith,
      kind_holds_session p k list_grant,
      kind_scope_session p k,
      attrs_session p k d,
      authorize_conversation_session p k conversations_read (admin_attrs p d),
      requester_listed p c d present known only,
    )
    | inr works ↦ ground (
      arith,
      kind_holds_session p k list_grant,
      kind_scope_session p k,
      attrs_session p k d,
      authorize_conversation_session p k conversations_read (admin_attrs p d),
      operator_listed p c d present known,
      operator_of_reach p k,
      role_reach p.assignments list_grant refl v,
    )
  ]

  admin_unlisted :
      p.kind ≡ admin_session
      → KnownKind c.kind
      → authorize (some p) conversations_read (conversation_attrs p d) ≡ allowed
      → is_listed (scope (some p) conversations_list) c d ≡ true
  unfolding is_listed scope authorize holds conversation_scoped capabilities
  admin_unlisted k known h = elim (Bool-cases (requester_only p)) [
    | inl only ↦ ground (
      arith,
      kind_holds_session p k list_grant,
      kind_scope_session p k,
      attrs_session p k d,
      authorize_conversation_session p k conversations_read (admin_attrs p d),
      requester_unlisted p c d present known only,
      not-operates_of_requester p c d present only,
    )
    | inr works ↦ ground (
      arith,
      kind_holds_session p k list_grant,
      kind_scope_session p k,
      attrs_session p k d,
      authorize_conversation_session p k conversations_read (admin_attrs p d),
      operator_unlisted p c d present known works,
    )
  ]

  -- What the list shows, the caller may read: every row that applyScope lets through under the
  -- scope of conversations.list is one that Authorize allows conversations.read on.
  pub listed-authorized :
      KnownKind c.kind
      → ValidRoles p
      → is_listed (scope (some p) conversations_list) c d ≡ true
      → authorize (some p) conversations_read (conversation_attrs p d) ≡ allowed
  unfolding is_listed in_ceiling scope kind_scope authorize holds kind_holds conversation_scoped
      capabilities conversation_attrs authorize_conversation member_attrs
  listed-authorized known v h =
      ground (arith, λ (k : p.kind ≡ admin_session). admin_listed k known v h)

  -- What an operator, a requester or an API key may read, its list shows: no conversation that
  -- Authorize allows conversations.read on is missing under the scope of conversations.list.
  pub authorized-listed :
      KnownKind c.kind
      → (p.kind ≡ admin_session) ⊎ (p.kind ≡ api_key)
      → authorize (some p) conversations_read (conversation_attrs p d) ≡ allowed
      → is_listed (scope (some p) conversations_list) c d ≡ true
  unfolding is_listed in_ceiling scope kind_scope authorize holds kind_holds capabilities
  authorized-listed known (inl k) h = admin_unlisted k known h
  authorized-listed known (inr k) h = ground arith
