-- ===== src/Store/RoleAssignments/Owners.antt =====
-- The owners of a tenant under the writes of backend/internal/store/gormstore/rbac.go.
use sild.Common.{
  String, List, [], ◌∷◌, Bool, true, false, not, map, any, keep, any-append, ◌≡◌, refl, arith,
}
use sild.Models.Enums.{PlatformRole, owner}
use sild.Models.Rbac.{RoleScope}
use sild.Principal.{same_role}
use sild.Store.RoleAssignments.{
  Grant, is_grant, with_scope, create_grant, rescope_grant, other_owner, delete_grant,
}

abbrev pub is_owner : Grant → Bool
is_owner g = same_role g.role owner

-- Some member is an owner.
unfoldable pub has_owner : List Grant → Bool
has_owner gs = any is_owner gs

owner_apart :
    (r role : PlatformRole)
    → same_role r owner ≡ true
    → same_role role owner ≡ false
    → same_role r role ≡ false
unfolding same_role
owner_apart r role h k = ground arith

other_kept :
    (gs : List Grant) (id : String) (role : PlatformRole)
    → other_owner gs id ≡ true
    → has_owner (keep (λ g. not (is_grant id role g)) gs) ≡ true
unfolding other_owner has_owner any keep
other_kept [] id role h = h
other_kept (g ∷ gs) id role h = ground (arith, other_kept gs id role)

role_kept :
    (gs : List Grant) (id : String) (role : PlatformRole)
    → same_role role owner ≡ false
    → has_owner gs ≡ true
    → has_owner (keep (λ g. not (is_grant id role g)) gs) ≡ true
unfolding has_owner any keep
role_kept [] id role k h = h
role_kept (g ∷ gs) id role k h = ground (arith, role_kept gs id role k, owner_apart g.role role)

scope_kept :
    (gs : List Grant) (id : String) (role : PlatformRole) (scope : RoleScope)
    → has_owner (map (with_scope id role scope) gs) ≡ has_owner gs
unfolding has_owner any
scope_kept [] id role scope = refl
scope_kept (g ∷ gs) id role scope = ground (arith, scope_kept gs id role scope)

-- Each write leaves a tenant that has an owner with one.
pub create-has_owner :
    (gs : List Grant) (g : Grant) → has_owner gs ≡ true → has_owner (create_grant gs g).1 ≡ true
unfolding create_grant has_owner
create-has_owner gs g h = ground (arith, any-append is_owner gs (g ∷ []))

pub rescope-has_owner :
    (gs : List Grant) (id : String) (role : PlatformRole) (scope : RoleScope)
    → has_owner gs ≡ true
    → has_owner (rescope_grant gs id role scope).1 ≡ true
unfolding rescope_grant
rescope-has_owner gs id role scope h = ground (arith, scope_kept gs id role scope)

pub delete-has_owner :
    (gs : List Grant) (id : String) (role : PlatformRole)
    → has_owner gs ≡ true
    → has_owner (delete_grant gs id role).1 ≡ true
unfolding delete_grant
delete-has_owner gs id role h = ground (arith, role_kept gs id role, other_kept gs id role)
