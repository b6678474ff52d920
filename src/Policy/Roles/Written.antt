-- ===== src/Policy/Roles/Written.antt =====
-- Scopes that the server writes itself: ValidateScope of backend/internal/policy/roles.go.
use mathlib.Core.Option.{some-injective}
use sild.Common.{
  String, List, [], ◌∷◌, ◌++◌, Bool, true, false, none, some, str_eq, is_empty, ◌≡◌, ◌↔◌, refl,
  arith, Option-cases, inl, inr, ◌∙◌,
}
use sild.Models.Enums.{PlatformRole}
use sild.Models.Rbac.{RoleScope, no_scope}
use sild.Policy.Roles.{
  RoleDef, dim_peer, dim_queues, dim_projects, dim_locales, dim_publish, role_definition, defines,
}
use sild.Policy.Roles.Document.{
  Value, object, valid, invalid, no_dimension, foreign, read_bool, read_set, read_items, items_of,
  with_peer, with_publish, with_queues, with_projects, with_locales, read_field, read_scope,
  check_fields, check_document, validate_scope_document, scope_fields, validate_scope, toggle_field,
  set_field,
}
use sild.Policy.Roles.Validated.{IsCarried, validated_only_defined}

read_items-items_of : (ss : List String) → read_items (items_of ss) ≡ some ss
unfolding read_items items_of
read_items-items_of [] = refl
read_items-items_of (s ∷ ss) = rw (read_items-items_of ss)

read_scope-append :
    (s t : RoleScope) (xs ys : List (String × Value))
    → read_scope s xs ≡ some t
    → read_scope s (xs ++ ys) ≡ read_scope t ys
unfolding read_scope
read_scope-append s t [] ys e = rw (some-injective s t e)
read_scope-append s t (x ∷ xs) ys e = elim (Option-cases (read_field s x)) [
  | inl f ↦ ground arith
  | inr (u, f) ↦ rw (f, read_scope) (read_scope-append u t xs ys (rw (f, read_scope) at e))
]

abbrev built : Bool → List String → List String → List String → Bool → RoleScope
built pe qs ps ls pu = record { peer = pe; queues = qs; projects = ps; locales = ls; publish = pu }

read_peer :
    (pe : Bool) → read_scope no_scope (toggle_field dim_peer pe) ≡ some (built pe [] [] [] false)
unfolding read_scope read_field with_peer read_bool str_eq
read_peer true = refl
read_peer false = refl

read_queues :
    (pe : Bool) (qs : List String)
    → read_scope (built pe [] [] [] false) (set_field dim_queues qs)
      ≡ some (built pe qs [] [] false)
unfolding read_scope read_field with_queues read_set str_eq read_items items_of
read_queues pe [] = refl
read_queues pe (s ∷ ss) = rw (read_items-items_of (s ∷ ss)) refl

read_projects :
    (pe : Bool) (qs ps : List String)
    → read_scope (built pe qs [] [] false) (set_field dim_projects ps)
      ≡ some (built pe qs ps [] false)
unfolding read_scope read_field with_projects read_set str_eq read_items items_of
read_projects pe qs [] = refl
read_projects pe qs (s ∷ ss) = rw (read_items-items_of (s ∷ ss)) refl

read_locales :
    (pe : Bool) (qs ps ls : List String)
    → read_scope (built pe qs ps [] false) (set_field dim_locales ls)
      ≡ some (built pe qs ps ls false)
unfolding read_scope read_field with_locales read_set str_eq read_items items_of
read_locales pe qs ps [] = refl
read_locales pe qs ps (s ∷ ss) = rw (read_items-items_of (s ∷ ss)) refl

read_publish :
    (pe : Bool) (qs ps ls : List String) (pu : Bool)
    → read_scope (built pe qs ps ls false) (toggle_field dim_publish pu)
      ≡ some (built pe qs ps ls pu)
unfolding read_scope read_field with_publish read_bool str_eq
read_publish pe qs ps ls true = refl
read_publish pe qs ps ls false = refl

-- Reading back what json.Marshal writes of a scope gives the scope.
read_scope-scope_fields : (s : RoleScope) → read_scope no_scope (scope_fields s) ≡ some s
unfolding scope_fields
read_scope-scope_fields s =
    read_scope-append _ _ _ _ (read_peer s.peer)
    ∙ read_scope-append _ _ _ _ (read_queues s.peer s.queues)
    ∙ read_scope-append _ _ _ _ (read_projects s.peer s.queues s.projects)
    ∙ read_scope-append _ _ _ _ (read_locales s.peer s.queues s.projects s.locales)
    ∙ read_publish s.peer s.queues s.projects s.locales s.publish

module _ (d : RoleDef) where
  foreign_toggle :
      (key : String) (b : Bool)
      → (b ≡ true → defines d key ≡ true)
      → foreign d (toggle_field key b) ≡ none
  unfolding foreign
  foreign_toggle key true def = rw (def refl) refl
  foreign_toggle key false def = refl

  foreign_set :
      (key : String) (ss : List String)
      → (is_empty ss ≡ false → defines d key ≡ true)
      → foreign d (set_field key ss) ≡ none
  unfolding foreign
  foreign_set key (s ∷ ss) def = rw (def refl) refl
  foreign_set key [] def = refl

  foreign-append :
      (xs ys : List (String × Value))
      → foreign d xs ≡ none
      → foreign d ys ≡ none
      → foreign d (xs ++ ys) ≡ none
  unfolding foreign
  foreign-append [] ys a b = b
  foreign-append ((key, v) ∷ xs) ys a b = ground (arith, foreign-append xs ys)

  foreign-scope_fields : (s : RoleScope) → IsCarried d s → foreign d (scope_fields s) ≡ none
  unfolding scope_fields
  foreign-scope_fields s c = foreign-append _ _ (foreign_toggle dim_peer s.peer c.peer_defined) (
      foreign-append _ _ (foreign_set dim_queues s.queues c.queues_defined) (
        foreign-append _ _ (foreign_set dim_projects s.projects c.projects_defined) (
          foreign-append _ _ (foreign_set dim_locales s.locales c.locales_defined)
            (foreign_toggle dim_publish s.publish c.publish_defined))))

accepts_own :
    (r : PlatformRole) (d : RoleDef) (s : RoleScope)
    → role_definition r ≡ some d
    → foreign d (scope_fields s) ≡ none
    → validate_scope_document r (object (scope_fields s)) ≡ valid s
unfolding validate_scope_document check_document check_fields
accepts_own r d s e own =
    rw (e, validate_scope_document, check_fields, own, read_scope-scope_fields s) refl

refuses_foreign :
    (r : PlatformRole) (d : RoleDef) (s : RoleScope) (key : String)
    → role_definition r ≡ some d
    → foreign d (scope_fields s) ≡ some key
    → validate_scope_document r (object (scope_fields s)) ≡ invalid (no_dimension r key)
unfolding validate_scope_document check_document check_fields
refuses_foreign r d s key e f = rw (e, validate_scope_document, check_fields, f) refl

own_fields :
    (r : PlatformRole) (d : RoleDef) (s : RoleScope)
    → role_definition r ≡ some d
    → validate_scope r s ≡ true
    → foreign d (scope_fields s) ≡ none
unfolding validate_scope
own_fields r d s e h = elim (Option-cases (foreign d (scope_fields s))) [
  | inl own ↦ own
  | inr (key, f) ↦ absurd (ground (arith, refuses_foreign r d s key e f))
]

-- ValidateScope accepts a scope for a role exactly when the role is in the catalogue and the scope sets no
-- dimension that the role does not define.
pub validate_scope_iff :
    (r : PlatformRole) (s : RoleScope)
    → (validate_scope r s ≡ true) ↔ ((d : RoleDef) × (role_definition r ≡ some d) × IsCarried d s)
unfolding validate_scope validate_scope_document
validate_scope_iff r s = (
  λ h. elim (Option-cases (role_definition r)) [
    | inl e ↦ absurd (ground arith)
    | inr (d, e) ↦
        validated_only_defined r (object (scope_fields s)) s
          (accepts_own r d s e (own_fields r d s e h))
  ],
  λ (d, e, c). rw (accepts_own r d s e (foreign-scope_fields d s c), validate_scope) refl,
)
