-- ===== src/Api/Authz/Branches.antt =====
-- The branches of a scope and of a decision for one conversation, side by side: requesters,
-- operators and members (backend/internal/policy/scope.go and policy.go).
use sild.Common.{
  List, [], ◌∷◌, Bool, true, false, ◌||◌, Option, none, some, ◌≡◌, ◌⊎◌, inl, inr, refl,
  if◌then◌else◌, any, contains, All, arith, Bool-cases,
}
use sild.Models.Enums.{
  PlatformRole, ConversationKind, support, peer, owner, admin, agent, requester, translator,
  valid_role, same_kind,
}
use sild.Principal.{
  Principal, Assignment, admin_session, same_role, find_scope, scope_of, has_role, privileged,
  peer_access, agent_queues, queues, reaches_queue, operator, requester_only, requester_queues,
  requester_reaches,
}
use sild.Policy.Action.{Grant, capabilities, conversations_list, conversations_read}
use sild.Policy.Decision.{allowed, role_holds, operates, requester_grant, own_request, is_allowed}
use sild.Policy.Scope.{requester_scope, own_requests, operator_scope}
use sild.Store.ConversationList.{
  Conversation, Stored, is_active_member, in_ceiling, is_own_request, is_listed,
}
use sild.Api.Authz.{classify_conv, classify_agent_access, admin_attrs, member_attrs}

-- The kinds that are ever stored.
abbrev pub KnownKind : ConversationKind → Type 0
KnownKind k = (k ≡ support) ⊎ (k ≡ peer)

-- Every role of the principal is one that PlatformRole.Valid accepts.
abbrev pub ValidRoles : Principal → Type 0
ValidRoles p = All (λ (a : Assignment). valid_role a.role ≡ true) p.assignments

module _ (p : Principal) (c : Conversation) (d : Stored) (present : d.row ≡ some c) where
  -- A requester's list holds what the requester may read.
  pub requester_listed :
      KnownKind c.kind
      → requester_only p ≡ true
      → is_listed (requester_scope p) c d ≡ true
      → own_request p conversations_read (admin_attrs p d) ≡ true
  unfolding is_listed requester_scope in_ceiling own_request requester_grant capabilities
      admin_attrs classify_agent_access classify_conv requester_only operator privileged has_role
      requester_queues requester_reaches same_kind any
  requester_listed k only h = ground arith

  pub requester_unlisted :
      KnownKind c.kind
      → requester_only p ≡ true
      → own_request p conversations_read (admin_attrs p d) ≡ true
      → is_listed (requester_scope p) c d ≡ true
  unfolding is_listed requester_scope in_ceiling own_request requester_grant capabilities
      admin_attrs classify_agent_access classify_conv requester_only operator privileged has_role
      requester_queues requester_reaches same_kind any contains
  requester_unlisted k only h = ground arith

  pub operator_listed :
      KnownKind c.kind
      → operator p ≡ true
      → is_listed (operator_scope p) c d ≡ true
      → (own_request p conversations_read (admin_attrs p d)
          || is_allowed (operates p (admin_attrs p d)))
        ≡ true
  unfolding is_listed operator_scope own_requests in_ceiling is_own_request own_request
      requester_grant capabilities admin_attrs classify_agent_access classify_conv requester_only
      operator privileged has_role requester_queues requester_reaches same_kind any operates
      peer_access queues agent_queues reaches_queue contains
  operator_listed k works h = ground arith

  pub operator_unlisted :
      KnownKind c.kind
      → requester_only p ≡ false
      → is_allowed (
          if own_request p conversations_read (admin_attrs p d)
          then allowed
          else operates p (admin_attrs p d))
        ≡ true
      → is_listed (operator_scope p) c d ≡ true
  unfolding is_listed operator_scope own_requests in_ceiling is_own_request own_request
      requester_grant capabilities admin_attrs classify_agent_access classify_conv requester_only
      operator privileged has_role requester_queues requester_reaches same_kind any operates
      peer_access queues agent_queues reaches_queue contains
  operator_unlisted k works h = ground arith

  -- A requester operates nothing.
  pub not-operates_of_requester :
      requester_only p ≡ true → is_allowed (operates p (admin_attrs p d)) ≡ false
  unfolding operates
  not-operates_of_requester only = ground arith

  -- Of a user, the list shows what it is an active member of.
  member_listed : is_active_member d.members p.subject ≡ true → (member_attrs p d).is_member ≡ true
  unfolding member_attrs
  member_listed h = ground arith

abbrev pub found {ℓ} : {A : Type ℓ} → Option A → Bool
found none = false
found (some a) = true

abbrev pub reaches : List Assignment → Bool
reaches as_ =
    (found (find_scope as_ owner) || found (find_scope as_ admin))
    || (found (find_scope as_ agent) || found (find_scope as_ requester))

reaches-cons :
    (r : PlatformRole) (a : Assignment) (as_ : List Assignment)
    → a.role ≡ r
    → valid_role r ≡ true
    → (same_role r translator ≡ false) ⊎ (reaches as_ ≡ true)
    → reaches (a ∷ as_) ≡ true
unfolding find_scope same_role valid_role
reaches-cons owner a as_ e v h = ground arith
reaches-cons _ a as_ e v h = ground arith

-- A valid role that carries the list is not the translator's.
carries_list :
    (r : PlatformRole) (g : Grant)
    → capabilities conversations_list ≡ some g
    → role_holds g r ≡ true
    → same_role r translator ≡ false
unfolding role_holds capabilities same_role
carries_list translator g e h = ground arith
carries_list _ g e h = refl

-- Valid roles that carry the list work conversations or request them.
pub role_reach :
    (as_ : List Assignment) (g : Grant)
    → capabilities conversations_list ≡ some g
    → All (λ (a : Assignment). valid_role a.role ≡ true) as_
    → any (λ a. role_holds g a.role) as_ ≡ true
    → reaches as_ ≡ true
unfolding any
role_reach [] g e v h = cc
role_reach (a ∷ as_) g e v h = elim (Bool-cases (role_holds g a.role)) [
  | inl here ↦ reaches-cons a.role a as_ refl v.0 (inl (carries_list a.role g e here))
  | inr not_here ↦
      reaches-cons a.role a as_ refl v.0 (inr (role_reach as_ g e v.1 (rw not_here at h)))
]

abbrev pub list_grant : Grant
list_grant = record {
  api_key = true;
  user = true;
  admin = true;
  admin_priv = false;
  owner = false;
  signed = false;
  translator = false;
  requester = true;
}

pub operator_of_reach :
    (p : Principal)
    → p.kind ≡ admin_session
    → reaches p.assignments ≡ true
    → requester_only p ≡ false
    → operator p ≡ true
unfolding requester_only operator privileged has_role scope_of
operator_of_reach p k r h = ground arith
