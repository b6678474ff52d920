-- ===== src/Store/RoleAssignments/Single.antt =====
-- A member holds a role once: backend/internal/store/gormstore/rbac.go.
use sild.Common.{
  ◌≤◌, String, List, [], ◌∷◌, ◌++◌, Bool, true, false, not, str_eq_iff, map, any, keep, keep-append,
  append-nil, keep_none, length, ◌≡◌, refl, sym, ap, ◌∙◌, arith, Bool-cases, inl, inr,
}
use sild.Models.Enums.{PlatformRole, owner, admin, agent, translator, requester, unknown}
use sild.Models.Rbac.{RoleScope}
use sild.Principal.{same_role}
use sild.Store.RoleAssignments.{
  Grant, is_grant, with_scope, create_grant, rescope_grant, delete_grant,
}

same_role_eq : (r s : PlatformRole) → same_role r s ≡ true → r ≡ s
unfolding same_role
same_role_eq owner s h = ground arith
same_role_eq admin s h = ground arith
same_role_eq agent s h = ground arith
same_role_eq translator s h = ground arith
same_role_eq requester s h = ground arith
same_role_eq (unknown s) (unknown t) h = ap unknown ((str_eq_iff s t).0 h)
same_role_eq (unknown s) r h = ground arith

-- The rows of a member and a role.
abbrev pub rows_of : String → PlatformRole → List Grant → List Grant
rows_of id role gs = keep (is_grant id role) gs

-- There is at most one.
abbrev pub IsSingle : List Grant → Type 0
IsSingle gs = (id : String) (role : PlatformRole) → length (rows_of id role gs) ≤ 1

same_pair :
    (gs : List Grant) (id : String) (role : PlatformRole) (g : Grant)
    → is_grant id role g ≡ true
    → any (is_grant g.admin_user_id g.role) gs ≡ any (is_grant id role) gs
same_pair gs id role g h = rw (same_id, same_role_of) refl
  where
    same_id : g.admin_user_id ≡ id
    same_id = (str_eq_iff g.admin_user_id id).0 (ground arith)

    same_role_of : g.role ≡ role
    same_role_of = same_role_eq g.role role (ground arith)

added :
    (gs : List Grant) (g : Grant) (id : String) (role : PlatformRole)
    → any (is_grant g.admin_user_id g.role) gs ≡ false
    → length (rows_of id role gs) ≤ 1
    → length (rows_of id role (gs ++ g ∷ [])) ≤ 1
unfolding keep
added gs g id role free s = elim (Bool-cases (is_grant id role g)) [
  | inl e ↦
      rw
        (
          keep-append (is_grant id role) gs (g ∷ []),
          e,
          keep_none (is_grant id role) gs (sym (same_pair gs id role g e) ∙ free),
        )
        (omega arith)
  | inr e ↦ rw (keep-append (is_grant id role) gs (g ∷ []), e, append-nil (rows_of id role gs)) s
]

pub create-IsSingle : (gs : List Grant) (g : Grant) → IsSingle gs → IsSingle (create_grant gs g).1
unfolding create_grant
create-IsSingle gs g s id role = elim (Bool-cases (any (is_grant g.admin_user_id g.role) gs)) [
  | inl e ↦ rw e (s id role)
  | inr e ↦ rw e (added gs g id role e (s id role))
]

scope_rows :
    (gs : List Grant) (id id' : String) (role role' : PlatformRole) (scope : RoleScope)
    → length (rows_of id' role' (map (with_scope id role scope) gs)) ≡ length (rows_of id' role' gs)
unfolding keep
scope_rows [] id id' role role' scope = refl
scope_rows (g ∷ gs) id id' role role' scope = ground (arith, scope_rows gs id id' role role' scope)

pub rescope-IsSingle :
    (gs : List Grant) (id : String) (role : PlatformRole) (scope : RoleScope)
    → IsSingle gs
    → IsSingle (rescope_grant gs id role scope).1
unfolding rescope_grant
rescope-IsSingle gs id role scope s id' role' =
    ground (arith, scope_rows gs id id' role role' scope, s id' role')

fewer :
    (f : Grant → Bool) (gs : List Grant) (id : String) (role : PlatformRole)
    → length (rows_of id role (keep f gs)) ≤ length (rows_of id role gs)
unfolding keep
fewer f [] id role = omega arith
fewer f (g ∷ gs) id role = ground (arith, fewer f gs id role)

pub delete-IsSingle :
    (gs : List Grant) (id : String) (role : PlatformRole)
    → IsSingle gs
    → IsSingle (delete_grant gs id role).1
unfolding delete_grant
delete-IsSingle gs id role s id' role' =
    ground (arith, fewer (λ g. not (is_grant id role g)) gs id' role', s id' role')
