-- ===== src/Store/RoleAssignments.antt =====
-- backend/internal/store/gormstore/rbac.go: the role assignments of one tenant, one row for a member and
-- a role. A transaction is one step, so the count of owners and the delete behind it are not interleaved.
pub mod Owners
pub mod Single
use sild.Common.{
  String, List, [], ◌∷◌, ◌++◌, Bool, true, false, not, ◌&&◌, str_eq, map, any, keep, if◌then◌else◌,
}
use sild.Models.Enums.{PlatformRole, owner}
use sild.Models.Rbac.{RoleScope}
use sild.Principal.{same_role}

-- RoleAssignment, without its id and times
pub record Grant : Type 0 where
  pub admin_user_id : String
  pub role : PlatformRole
  pub scope : RoleScope

pub data Written : Type 0 where
  written duplicate not_there last_owner : Written

-- The row of a member and a role.
abbrev pub is_grant : String → PlatformRole → Grant → Bool
is_grant id role g = str_eq g.admin_user_id id && same_role g.role role

-- Create: the unique index refuses a second row.
unfoldable pub create_grant : List Grant → Grant → Written × List Grant
create_grant gs g =
    if any (is_grant g.admin_user_id g.role) gs then (duplicate, gs) else (written, gs ++ g ∷ [])

abbrev pub with_scope : String → PlatformRole → RoleScope → Grant → Grant
with_scope id role scope g = if is_grant id role g then record g { scope = scope } else g

-- Rescope
unfoldable pub rescope_grant : List Grant → String → PlatformRole → RoleScope → Written × List Grant
rescope_grant gs id role scope =
    if any (is_grant id role) gs
    then (written, map (with_scope id role scope) gs)
    else (not_there, gs)

-- Some row of an owner is another member's.
unfoldable pub other_owner : List Grant → String → Bool
other_owner gs id = any (λ g. same_role g.role owner && not (str_eq g.admin_user_id id)) gs

-- Delete
unfoldable pub delete_grant : List Grant → String → PlatformRole → Written × List Grant
delete_grant gs id role =
    if same_role role owner && not (other_owner gs id)
    then (last_owner, gs)
    else if any (is_grant id role) gs
    then (written, keep (λ g. not (is_grant id role g)) gs)
    else (not_there, gs)
