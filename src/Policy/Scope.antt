-- ===== src/Policy/Scope.antt =====
-- backend/internal/policy/scope.go: the ceiling on what a collection shows.
use sild.Common.{
  String, List, [], ◌∷◌, Bool, true, false, not, ◌&&◌, ◌||◌, Option, none, some, is_empty, any,
  if◌then◌else◌,
}
use sild.Models.Enums.{ConversationKind, support, same_kind}
use sild.Principal.{
  Principal, api_key, user, admin_session, signed, other, queues, requester_queues, requester_only,
  peer_access, privileged,
}
use sild.Policy.Action.{Action}
use sild.Policy.Decision.{holds}

-- ownRequests. A nil slice of queues is every queue.
pub record OwnRequests : Type 0 where
  pub actor : String
  pub queues : Option (List String)

pub record ResourceScope : Type 0 where
  pub kinds : List ConversationKind
  pub participant : Option String
  pub requires_assignment : Bool
  pub queues : List String
  pub member_actor : Option String
  pub own : Option OwnRequests
  pub deny_all : Bool

-- The zero value restricts nothing.
abbrev pub unrestricted : ResourceScope
unrestricted = record {
  kinds = [];
  participant = none;
  requires_assignment = false;
  queues = [];
  member_actor = none;
  own = none;
  deny_all = false;
}

abbrev pub nothing : ResourceScope
nothing = record unrestricted { deny_all = true }

-- AllowsKind
unfoldable pub allows_kind : ResourceScope → ConversationKind → Bool
allows_kind s k =
    if s.deny_all then false else if is_empty s.kinds then true else any (same_kind k) s.kinds

-- The branch of a member with nothing but the requester role.
unfoldable pub requester_scope : Principal → ResourceScope
requester_scope p =
    let qs = requester_queues p in
    if not qs.all && is_empty qs.names then nothing else record unrestricted {
      kinds = support ∷ [];
      member_actor = some p.admin_id;
      queues = qs.names;
    }

-- What an operator also reaches as the requester of it.
unfoldable pub own_requests : Principal → Option OwnRequests
own_requests p =
    let qs = requester_queues p in
    if (qs.all || not (is_empty qs.names)) && not (privileged p)
    then some (record { actor = p.admin_id; queues = if qs.all then none else some qs.names })
    else none

unfoldable pub operator_scope : Principal → ResourceScope
operator_scope p = record unrestricted {
  kinds = if peer_access p then [] else support ∷ [];
  requires_assignment = not (privileged p);
  queues = if (queues p).all then [] else (queues p).names;
  own = own_requests p;
}

unfoldable pub kind_scope : Principal → ResourceScope
kind_scope p = elim p.kind [
  | api_key ↦ unrestricted
  | user ↦ record unrestricted { participant = some p.subject }
  | admin_session ↦ if requester_only p then requester_scope p else operator_scope p
  | signed ↦ nothing
  | other s ↦ nothing
]

-- Scope
unfoldable pub scope : Option Principal → Action → ResourceScope
scope none a = nothing
scope (some p) a = if not (holds (some p) a) then nothing else kind_scope p
