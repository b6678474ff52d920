-- ===== src/Domain/Team.antt =====
-- The members of a tenant and their roles: backend/internal/domain/admin.go, less sessions, passwords,
-- keys and webhooks. The state is what the database holds under one tenant; the events to open sockets
-- that follow a write are left out.
pub mod Scopes
pub mod Runs
pub mod Sockets
pub mod Writes
use sild.Common.{
  String, List, [], ◌∷◌, ◌++◌, Bool, true, false, not, ◌&&◌, ◌||◌, Option, none, some, str_eq, any,
  contains, if◌then◌else◌,
}
use sild.I18n.{platform_project, normalize, valid_language}
use sild.Models.Enums.{PlatformRole, agent, translator, unknown, valid_role}
use sild.Models.Rbac.{RoleScope, scope_all, queue_support}
use sild.Policy.Roles.Document.{validate_scope}
use sild.Principal.{same_role}
use sild.Store.RoleAssignments.{
  Grant, Written, written, duplicate, not_there, last_owner, create_grant, rescope_grant,
  delete_grant,
}

pub data AdminKind : Type 0 where
  human service : AdminKind

-- AdminUser, with its names and without what signs it in
pub record Member : Type 0 where
  pub id : String
  pub kind : AdminKind
  pub email : String
  pub first_name : String
  pub last_name : String

-- The rows of a tenant: its members and their grants, the keys of its queues and the slugs of its
-- translation projects.
pub record Team : Type 0 where
  pub members : List Member
  pub grants : List Grant
  pub queues : List String
  pub projects : List String

pub data Error : Type 0 where
  not_found : Error
  invalid : String → Error
  -- What policy.ValidateScope says of the scope.
  bad_scope : Error
  -- A unique index of the members is taken.
  taken : Error

pub data Answer {ℓ} (A : Type ℓ) : Type ℓ where
  ok : A → Answer A
  refused : Error → Answer A

infixl 5 ◌>>=◌ ◌>>◌
abbrev pub ◌>>=◌ {ℓ κ} : {A : Type ℓ} {B : Type κ} → Answer A → (A → Answer B) → Answer B
ok a >>= f = f a
refused e >>= f = refused e

abbrev pub ◌>>◌ {ℓ} : {B : Type ℓ} → Answer (Unit {0}) → Answer B → Answer B
m >> k = m >>= λ _. k

-- A write behind checks that may refuse.
abbrev pub then_write {ℓ κ} :
    {A : Type ℓ} {B : Type κ} → Team → Answer A → (A → Team × Answer B) → Team × Answer B
then_write t (ok a) f = f a
then_write t (refused e) f = (t, refused e)

-- validPlatformRole
unfoldable pub valid_platform_role : PlatformRole → Answer (Unit {0})
valid_platform_role r = if valid_role r then ok tt else refused (invalid "invalid platform role")

-- QueueSettings, for whether there is such a queue
unfoldable pub queue_settings : Team → String → Answer (Unit {0})
queue_settings t key =
    if str_eq key "" || str_eq key queue_support
    then ok tt
    else if contains t.queues key
    then ok tt
    else refused (invalid "unknown queue")

-- The loop of checkScope over the queues.
unfoldable pub check_queues : Team → List String → Answer (Unit {0})
unfolding queue_settings
check_queues t [] = ok tt
check_queues t (q ∷ qs) =
    let rest = check_queues t qs in
    if str_eq q scope_all then rest else (queue_settings t q >>= λ _. rest)

-- The loop of validateTranslatorScope over the locales.
unfoldable pub clean_tags : List String → Answer (List String)
clean_tags [] = ok []
clean_tags (l ∷ ls) =
    let rest = clean_tags ls in
    if str_eq l scope_all
    then (rest >>= λ out. ok (l ∷ out))
    else if valid_language (normalize l)
    then (rest >>= λ out. ok (normalize l ∷ out))
    else refused (invalid "not a language tag")

-- The loop of validateTranslatorScope over the projects. It is only entered when one is named, and
-- passes the set of all when none is.
unfoldable pub check_projects : Team → List String → Answer (Unit {0})
check_projects t [] = ok tt
check_projects t (p ∷ ps) =
    let rest = check_projects t ps in
    if str_eq p scope_all || (str_eq p platform_project || contains t.projects p)
    then rest
    else refused (invalid "no such project")

-- validateTranslatorScope: the scope with its locales normalized
unfoldable pub validate_translator_scope : Team → RoleScope → Answer RoleScope
validate_translator_scope t scope = do
  locales ← clean_tags scope.locales
  check_projects t scope.projects
  ok (record scope { locales = locales })

-- checkScope
unfoldable pub check_scope : Team → PlatformRole → RoleScope → Answer RoleScope
check_scope t role scope = do
  valid_platform_role role
  if validate_scope role scope then ok tt else refused bad_scope
  if same_role role translator
      then validate_translator_scope t scope
      else (check_queues t scope.queues >>= λ _. ok scope)

-- How an assignment write treats one that is already there.
pub data AssignmentWrite : Type 0 where
  write_add write_rescope write_set : AssignmentWrite

abbrev pub map_written : Written × List Grant → Team → Team × Answer (Unit {0})
map_written (written, gs) t = (record t { grants = gs }, ok tt)
map_written (duplicate, gs) t = (t, refused (invalid "that member already holds the role"))
map_written (not_there, gs) t = (t, refused not_found)
map_written (last_owner, gs) t = (t, refused (invalid "the tenant must keep at least one owner"))

-- A duplicate is rescoped under write_set.
abbrev pub set_grant : Written × List Grant → Team → Grant → Team × Answer (Unit {0})
set_grant (duplicate, gs) t g =
    map_written (rescope_grant t.grants g.admin_user_id g.role g.scope) t
set_grant w t g = map_written w t

-- writeAssignment
unfoldable pub write_assignment : Team → Grant → AssignmentWrite → Team × Answer (Unit {0})
write_assignment t g write_rescope =
    map_written (rescope_grant t.grants g.admin_user_id g.role g.scope) t
write_assignment t g write_add = map_written (create_grant t.grants g) t
write_assignment t g write_set = set_grant (create_grant t.grants g) t g

abbrev pub is_member : Team → String → Bool
is_member t id = any (λ m. str_eq m.id id) t.members

-- The checks of putAssignment before its write: the scope to store.
unfoldable pub accepted_scope : Team → String → PlatformRole → RoleScope → Answer RoleScope
accepted_scope t id role scope = do
  checked ← check_scope t role scope
  if is_member t id then ok checked else refused not_found

abbrev pub grant : String → PlatformRole → RoleScope → Grant
grant id role scope = record { admin_user_id = id; role = role; scope = scope }

-- putAssignment
unfoldable pub put_assignment :
    Team → String → PlatformRole → RoleScope → AssignmentWrite → Team × Answer (Unit {0})
put_assignment t id role scope how =
    then_write t (accepted_scope t id role scope)
      (λ checked. write_assignment t (grant id role checked) how)

-- AssignRole
unfoldable pub assign_role : Team → String → PlatformRole → RoleScope → Team × Answer (Unit {0})
assign_role t id role scope = put_assignment t id role scope write_add

-- RescopeRole
unfoldable pub rescope_role : Team → String → PlatformRole → RoleScope → Team × Answer (Unit {0})
rescope_role t id role scope = put_assignment t id role scope write_rescope

-- SetRole
unfoldable pub set_role : Team → String → PlatformRole → RoleScope → Team × Answer (Unit {0})
set_role t id role scope = put_assignment t id role scope write_set

-- RemoveRole
unfoldable pub remove_role : Team → String → PlatformRole → Team × Answer (Unit {0})
remove_role t id role = map_written (delete_grant t.grants id role) t

abbrev pub is_taken : Team → Member → Bool
is_taken t m = any (λ n. str_eq n.id m.id || str_eq n.email m.email) t.members

-- The transaction of createMember: neither row without the other.
abbrev pub store_member : Team → Member → Written × List Grant → Team × Answer Member
store_member t m (written, gs) = (record t { members = t.members ++ m ∷ []; grants = gs }, ok m)
store_member t m (_, gs) = (t, refused taken)

-- createMember; the id is what the row gets when it is created.
unfoldable pub create_member : Team → Member → PlatformRole → RoleScope → Team × Answer Member
create_member t m role scope = then_write t (check_scope t role scope) (λ checked.
    if is_taken t m
    then (t, refused taken)
    else store_member t m (create_grant t.grants (grant m.id role checked)))

abbrev pub role_or_agent : PlatformRole → PlatformRole
role_or_agent r = if same_role r (unknown "") then agent else r

-- InviteAgent
unfoldable pub invite_agent :
    Team → String → String → String → String → PlatformRole → RoleScope → Team × Answer Member
invite_agent t id email first last role scope =
    if str_eq email ""
    then (t, refused (invalid "email is required"))
    else create_member t
        (record { id = id; kind = human; email = email; first_name = first; last_name = last })
        (role_or_agent role) scope

-- CreateServiceAccount
unfoldable pub create_service_account :
    Team → String → String → String → PlatformRole → RoleScope → Team × Answer Member
create_service_account t id name display_name role scope =
    if str_eq name ""
    then (t, refused (invalid "name is required"))
    else create_member t
        (record {
          id = id;
          kind = service;
          email = name;
          first_name = display_name;
          last_name = "";
        })
        role scope
