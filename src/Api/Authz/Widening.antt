-- ===== src/Api/Authz/Widening.antt =====
-- A further role only widens: "a capability is held when any of them carries it; nothing subtracts"
-- (backend/internal/principal/principal.go), for the decisions of policy/policy.go and translation.go.
use sild.Common.{
  String, List, [], ◌∷◌, ◌++◌, Bool, true, false, not, ◌&&◌, none, some, ◌≡◌, ◌≢◌, ◌⊎◌, inl, inr,
  any, contains, arith, Option-cases,
}
use sild.Models.Enums.{PlatformRole, owner, admin, agent, translator, requester}
use sild.Models.Rbac.{RoleScope}
use sild.Principal.{
  Principal, Assignment, admin_session, has_role, scope_of, find_scope, same_role, privileged,
  peer_access, operator, queues, reaches_queue, requester_only, requester_queues, requester_reaches,
}
use sild.Policy.Action.{Action, Grant, capabilities}
use sild.Policy.Decision.{
  allowed, ResourceAttrs, role_holds, kind_holds, holds, conversation_scoped, operates, own_request,
  authorize,
}
use sild.Policy.Sessions.{authorize_conversation_session, kind_holds_session, scope_of_session}
use sild.Store.ConversationList.{Stored}
use sild.Api.Authz.{
  admin_attrs, classify_agent_access, classify_conv, conversation_attrs, attrs_session,
}
use sild.Policy.Translation.{authorize_translation, translation_narrowing, holds_without_translator}

-- The principal with more role assignments behind its own.
abbrev pub with_roles : Principal → List Assignment → Principal
with_roles p extra = record p { assignments = p.assignments ++ extra }

any-append :
    {A : Type 0} (f : A → Bool) (xs ys : List A) → any f xs ≡ true → any f (xs ++ ys) ≡ true
unfolding any
any-append f [] ys h = cc
any-append f (x ∷ xs) ys h = ground (arith, any-append f xs ys)

find_scope-append :
    (xs ys : List Assignment) (r : PlatformRole) (s : RoleScope)
    → find_scope xs r ≡ some s
    → find_scope (xs ++ ys) r ≡ some s
unfolding find_scope
find_scope-append [] ys r s h = cc
find_scope-append (a ∷ xs) ys r s h = ground (arith, find_scope-append xs ys r s)

module _ (p : Principal) (extra : List Assignment) where
  scope_of-grows :
      (r : PlatformRole) (s : RoleScope)
      → scope_of p r ≡ some s
      → scope_of (with_roles p extra) r ≡ some s
  unfolding scope_of
  scope_of-grows r s h = ground (arith, find_scope-append p.assignments extra r s)

  role_grows :
      (r : PlatformRole) → has_role p r ≡ true → scope_of (with_roles p extra) r ≡ scope_of p r
  unfolding has_role
  role_grows r h = elim (Option-cases (scope_of p r)) [
    | inl e ↦ ground arith
    | inr (s, e) ↦ rw e (scope_of-grows r s e)
  ]

  kind_holds_grows : (g : Grant) → kind_holds p g ≡ true → kind_holds (with_roles p extra) g ≡ true
  unfolding kind_holds
  kind_holds_grows g h =
      ground (arith, any-append (λ (a : Assignment). role_holds g a.role) p.assignments extra)

  holds_grows : (a : Action) → holds (some p) a ≡ true → holds (some (with_roles p extra)) a ≡ true
  unfolding holds
  holds_grows a h = elim (Option-cases (capabilities a)) [
    | inl e ↦ ground arith
    | inr (g, e) ↦ ground (arith, kind_holds_grows g)
  ]

  own_request_grows :
      (a : Action) (r r' : ResourceAttrs)
      → r.kind ≡ r'.kind
      → r.queue ≡ r'.queue
      → (r.is_member ≡ true → r'.is_member ≡ true)
      → own_request p a r ≡ true
      → (own_request (with_roles p extra) a r' ≡ true)
        ⊎ (operates (with_roles p extra) r' ≡ allowed)
  unfolding own_request operates requester_only operator privileged requester_reaches
      requester_queues has_role
  own_request_grows a r r' ek eq em h =
      ground (arith, role_grows owner, role_grows admin, role_grows agent, role_grows requester)

  operates_grows :
      (r r' : ResourceAttrs)
      → r.kind ≡ r'.kind
      → r.queue ≡ r'.queue
      → (privileged (with_roles p extra) ≡ false
          → r.support_reachable ≡ true
          → r'.support_reachable ≡ true)
      → operates p r ≡ allowed
      → operates (with_roles p extra) r' ≡ allowed
  unfolding operates requester_only operator privileged has_role peer_access reaches_queue queues
      contains
  operates_grows r r' ek eq em h =
      ground (arith, role_grows owner, role_grows admin, role_grows agent, role_grows requester)

-- The translator role's own bit, as a role that carries the action.
carried :
    (as_ : List Assignment) (g : Grant)
    → any (λ a. role_holds g a.role) as_ ≡ true
    → (any (λ a. not (same_role a.role translator) && role_holds g a.role) as_ ≡ true)
      ⊎ (find_scope as_ translator ≢ none)
unfolding any find_scope
carried [] g h = cc
carried (a ∷ as_) g h = ground (arith, carried as_ g)

module _ (p : Principal) (extra : List Assignment) (session : p.kind ≡ admin_session) where
  narrowing_widens :
      (a : Action)
      → holds (some p) a ≡ true
      → (translation_narrowing (with_roles p extra) a ≡ none)
        ⊎ (translation_narrowing (with_roles p extra) a ≡ translation_narrowing p a)
  unfolding translation_narrowing holds_without_translator holds has_role
  narrowing_widens a h = elim (Option-cases (capabilities a)) [
    | inl e ↦ ground arith
    | inr (g, e) ↦ ground (
      arith,
      kind_holds_session p session g,
      carried p.assignments g,
      scope_of_session p session translator,
      role_grows p extra translator,
      any-append (λ (b : Assignment). not (same_role b.role translator) && role_holds g b.role)
          p.assignments extra,
    )
  ]

  -- Nor does a further role narrow a translation right: what an admin session may do on a project and a
  -- language, it may still do with more role assignments behind its own.
  pub translation_widens :
      (a : Action) (project locale : String)
      → conversation_scoped a ≡ false
      → authorize_translation (some p) a project locale ≡ allowed
      → authorize_translation (some (with_roles p extra)) a project locale ≡ allowed
  unfolding authorize_translation authorize
  translation_widens a project locale free h =
      ground (arith, holds_grows p extra a, narrowing_widens a)

module _ (p : Principal) (extra : List Assignment) (session : p.kind ≡ admin_session)
    (d : Stored) where
  attrs_kind : (admin_attrs p d).kind ≡ (admin_attrs (with_roles p extra) d).kind
  unfolding admin_attrs classify_agent_access classify_conv
  attrs_kind = ground arith

  attrs_queue : (admin_attrs p d).queue ≡ (admin_attrs (with_roles p extra) d).queue
  unfolding admin_attrs classify_agent_access classify_conv
  attrs_queue = ground arith

  attrs_member :
      (admin_attrs p d).is_member ≡ true → (admin_attrs (with_roles p extra) d).is_member ≡ true
  unfolding admin_attrs has_role
  attrs_member h = ground (arith, role_grows p extra requester)

  attrs_support :
      privileged (with_roles p extra) ≡ false
      → (admin_attrs p d).support_reachable ≡ true
      → (admin_attrs (with_roles p extra) d).support_reachable ≡ true
  unfolding admin_attrs classify_agent_access classify_conv
  attrs_support e h = ground arith

  -- A further role takes no conversation away: what an admin session may do on a conversation, it may
  -- still do with more role assignments behind its own, the attributes being read anew for the wider
  -- principal.
  pub authorize_widens :
      (a : Action)
      → authorize (some p) a (conversation_attrs p d) ≡ allowed
      → authorize (some (with_roles p extra)) a (conversation_attrs (with_roles p extra) d)
        ≡ allowed
  unfolding authorize
  authorize_widens a h = ground (
    arith,
    holds_grows p extra a,
    attrs_session p session d,
    attrs_session (with_roles p extra) session d,
    authorize_conversation_session p session a (admin_attrs p d),
    authorize_conversation_session (with_roles p extra) session a
        (admin_attrs (with_roles p extra) d),
    own_request_grows p extra a (admin_attrs p d) (admin_attrs (with_roles p extra) d) attrs_kind
        attrs_queue attrs_member,
    operates_grows p extra (admin_attrs p d) (admin_attrs (with_roles p extra) d) attrs_kind
        attrs_queue attrs_support,
  )
