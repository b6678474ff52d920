-- ===== src/Policy/Sessions.antt =====
-- The functions of backend/internal/policy that branch on the kind of principal, at an admin session.
use sild.Common.{true, false, not, some, ◌≡◌, if◌then◌else◌, any, arith}
use sild.Principal.{Principal, admin_session, find_scope, scope_of, requester_only}
use sild.Models.Enums.{PlatformRole}
use sild.Policy.Action.{Action, Grant}
use sild.Policy.Decision.{
  allowed, ResourceAttrs, role_holds, kind_holds, holds, conversation_scoped, operates, own_request,
  authorize_conversation, authorize, is_allowed, internal,
}
use sild.Policy.Scope.{kind_scope, requester_scope, operator_scope}

module _ (p : Principal) (session : p.kind ≡ admin_session) where
  pub kind_holds_session :
      (g : Grant) → kind_holds p g ≡ any (λ a. role_holds g a.role) p.assignments
  unfolding kind_holds
  kind_holds_session g = ground arith

  pub kind_scope_session :
      kind_scope p ≡ (if requester_only p then requester_scope p else operator_scope p)
  unfolding kind_scope
  kind_scope_session = ground arith

  pub authorize_conversation_session :
      (a : Action) (r : ResourceAttrs)
      → authorize_conversation p a r ≡ (if own_request p a r then allowed else operates p r)
  unfolding authorize_conversation
  authorize_conversation_session a r = ground arith

  pub scope_of_session : (r : PlatformRole) → scope_of p r ≡ find_scope p.assignments r
  unfolding scope_of
  scope_of_session r = ground arith

  pub internal_session :
      (a : Action) (r : ResourceAttrs)
      → internal (some p) a r
        ≡ (if not (holds (some p) a) then false else is_allowed (operates p r))
  unfolding internal
  internal_session a r = ground arith

  -- A conversation action of an admin session.
  pub authorize_session :
      (a : Action) (r : ResourceAttrs)
      → conversation_scoped a ≡ true
      → is_allowed (authorize (some p) a r) ≡ true
      → (holds (some p) a ≡ true)
        × (is_allowed (if own_request p a r then allowed else operates p r) ≡ true)
  unfolding authorize
  authorize_session a r scoped h = ground (arith, authorize_conversation_session a r)
