-- ===== src/Policy/Grants.antt =====
-- The wire projection of backend/internal/policy/scope.go: what a principal is told it holds.
use sild.Common.{
  String, List, [], ◌∷◌, Bool, true, false, not, ◌&&◌, Option, none, some, if◌then◌else◌,
}
use sild.Models.Enums.{ConversationKind}
use sild.Models.Rbac.{scope_all}
use sild.Principal.{Principal, requester_queues}
use sild.Policy.Action.{Action, conversations_list, contacts_list}
use sild.Policy.Decision.{holds}
use sild.Policy.Catalog.{sorted_actions}
use sild.Policy.Scope.{ResourceScope, scope}
use sild.Policy.Translation.{translation_narrowing, publishable, is_publish}

pub record GrantScope : Type 0 where
  pub kinds : List ConversationKind
  pub requires_assignment : Bool
  pub participant : String
  pub queues : List String
  pub member_only : Bool
  pub own_queues : List String

pub record HeldGrant : Type 0 where
  pub action : Action
  pub scope : Option GrantScope

abbrev or_blank : Option String → String
or_blank none = ""
or_blank (some s) = s

-- scopeDTO, with OwnQueues as Grants sets it
unfoldable pub scope_dto : ResourceScope → List String → GrantScope
scope_dto s own = record {
  kinds = s.kinds;
  requires_assignment = s.requires_assignment;
  participant = or_blank s.participant;
  queues = s.queues;
  member_only = elim s.member_actor [ none ↦ false | some m ↦ true ];
  own_queues = own;
}

unfoldable pub own_queues : Principal → List String
own_queues p = if (requester_queues p).all then scope_all ∷ [] else (requester_queues p).names

abbrev pub is_collection : Action → Bool
is_collection conversations_list = true
is_collection contacts_list = true
is_collection _ = false

-- The two `continue`s of the loop in Grants.
unfoldable pub advertised : Principal → Action → Bool
advertised p a =
    if not (holds (some p) a)
    then false
    else not (
        is_publish a
        && elim (translation_narrowing p a) [ none ↦ false | some s ↦ not (publishable s) ])

unfoldable pub grant_of : Principal → Action → HeldGrant
grant_of p a = record {
  action = a;
  scope = if is_collection a then some (scope_dto (scope (some p) a) (own_queues p)) else none;
}

-- The loop of Grants over a list of actions.
unfoldable pub grants_over : Principal → List Action → List HeldGrant
grants_over p [] = []
grants_over p (a ∷ rest) =
    let tail = grants_over p rest in if advertised p a then grant_of p a ∷ tail else tail

-- Grants
unfoldable pub grants : Principal → List HeldGrant
grants p = grants_over p sorted_actions
