-- ===== src/Principal.antt =====
-- backend/internal/principal/principal.go: the authenticated caller and the roles it holds.
-- A method on a nil principal answers as the policy package's own nil test does, so the methods
-- here take a principal that is present. Expires, which no decision reads, is left out.
use sild.Common.{
  String, List, [], ◌∷◌, Bool, true, false, not, ◌&&◌, ◌||◌, Option, none, some, is_empty, contains,
  str_eq, if◌then◌else◌, map,
}
use sild.Models.Enums.{PlatformRole, owner, admin, agent, translator, requester, unknown}
use sild.Models.Rbac.{RoleScope, no_scope, scope_all, queue_support}

pub data Kind : Type 0 where
  api_key user admin_session signed : Kind
  other : String → Kind

pub record Assignment : Type 0 where
  pub role : PlatformRole
  pub scope : RoleScope

pub record Principal : Type 0 where
  pub tenant_id : String
  pub kind : Kind
  pub subject : String
  pub admin_id : String
  pub service : Bool
  pub assignments : List Assignment
  pub object_key : String

-- Held: assignments for roles that carry no scope.
unfoldable pub held : List PlatformRole → List Assignment
held roles = map (λ r. record { role = r; scope = no_scope }) roles

-- r == PlatformOwner and so on
unfoldable pub same_role : PlatformRole → PlatformRole → Bool
same_role owner owner = true
same_role admin admin = true
same_role agent agent = true
same_role translator translator = true
same_role requester requester = true
same_role (unknown s) (unknown t) = str_eq s t
same_role _ _ = false

-- Roles lists the roles that the principal holds.
unfoldable pub roles : Principal → List PlatformRole
roles p = map (λ a. a.role) p.assignments

-- The loop of ScopeOf: the first assignment of the role.
unfoldable pub find_scope : List Assignment → PlatformRole → Option RoleScope
find_scope [] r = none
find_scope (a ∷ rest) r = if same_role a.role r then some a.scope else find_scope rest r

-- ScopeOf: only an admin session carries roles.
unfoldable pub scope_of : Principal → PlatformRole → Option RoleScope
scope_of p r = elim p.kind [ admin_session ↦ find_scope p.assignments r | _ ↦ none ]

unfoldable pub has_role : Principal → PlatformRole → Bool
has_role p r = elim (scope_of p r) [ none ↦ false | some _ ↦ true ]

unfoldable pub privileged : Principal → Bool
privileged p = has_role p owner || has_role p admin

unfoldable pub peer_access : Principal → Bool
peer_access p = elim (scope_of p agent) [ none ↦ false | some s ↦ s.peer ]

-- A set of queues, or every queue: Go's pair of a slice and `all`.
pub record QueueSet : Type 0 where
  pub names : List String
  pub all : Bool

abbrev pub every_queue : QueueSet
every_queue = record { names = []; all = true }

abbrev pub only : List String → QueueSet
only names = record { names = names; all = false }

-- The part of Queues below the tests on the roles.
unfoldable pub agent_queues : List String → QueueSet
agent_queues names =
    if is_empty names
    then only (queue_support ∷ [])
    else if contains names scope_all
    then every_queue
    else only names

-- Queues: the queues that an operator reaches.
unfoldable pub queues : Principal → QueueSet
queues p =
    if privileged p
    then every_queue
    else elim (scope_of p agent) [ none ↦ only [] | some s ↦ agent_queues s.queues ]

unfoldable pub reaches_queue : Principal → String → Bool
reaches_queue p queue = (queues p).all || contains (queues p).names queue

unfoldable pub operator : Principal → Bool
operator p = privileged p || has_role p agent

unfoldable pub requester_only : Principal → Bool
requester_only p = not (operator p) && has_role p requester

-- RequesterQueues: the queues that a requester may open conversations in.
unfoldable pub requester_queues : Principal → QueueSet
requester_queues p = if privileged p then every_queue else elim (scope_of p requester) [
  | none ↦ only []
  | some s ↦ if contains s.queues scope_all then every_queue else only s.queues
]

unfoldable pub requester_reaches : Principal → String → Bool
requester_reaches p queue =
    if privileged p && str_eq queue queue_support
    then false
    else (requester_queues p).all || contains (requester_queues p).names queue

-- The row of admin_users that ForAdmin reads, and one row of its role assignments.
pub record AdminUser : Type 0 where
  pub tenant_id : String
  pub id : String
  pub is_service : Bool

-- ForAdmin: a member with no assignment row holds nothing.
unfoldable pub for_admin : AdminUser → List Assignment → Principal
for_admin u rows = record {
  tenant_id = u.tenant_id;
  kind = admin_session;
  subject = "";
  admin_id = u.id;
  service = u.is_service;
  assignments = rows;
  object_key = "";
}
