-- ===== src/Policy/Roles/Validated.antt =====
-- What a stored scope may carry: the checks of backend/internal/policy/roles.go.
use sild.Common.{
  String, List, [], ◌∷◌, Bool, true, false, Option, none, some, str_eq, str_eq_iff, is_empty, ◌≡◌,
  ◌↔◌, refl, arith, if◌then◌else◌, Option-cases, inl, inr,
}
use sild.Models.Enums.{
  PlatformRole, owner, admin, agent, translator, requester, unknown, valid_role,
}
use sild.Models.Rbac.{RoleScope, no_scope}
use sild.Principal.{same_role}
use sild.Policy.Roles.{
  RoleDef, dim_peer, dim_queues, dim_projects, dim_locales, dim_publish, find_role, role_definition,
  defines,
}
use sild.Policy.Roles.Document.{
  Value, Document, absent, object, malformed, Validation, valid, invalid, foreign, with_peer,
  with_publish, with_queues, with_projects, with_locales, read_field, read_scope, decoded,
  check_fields, check_document, validate_scope_document,
}

-- A role is in the catalogue exactly when it is one of the platform's.
pub role_definition_iff_valid :
    (r : PlatformRole) → (role_definition r ≡ none) ↔ (valid_role r ≡ false)
unfolding role_definition find_role same_role valid_role
role_definition_iff_valid owner = (λ h. ground arith, λ h. ground arith)
role_definition_iff_valid admin = (λ h. ground arith, λ h. ground arith)
role_definition_iff_valid agent = (λ h. ground arith, λ h. ground arith)
role_definition_iff_valid translator = (λ h. ground arith, λ h. ground arith)
role_definition_iff_valid requester = (λ h. ground arith, λ h. ground arith)
role_definition_iff_valid (unknown s) = (λ h. refl, λ h. refl)

-- The scope sets no dimension that the role does not define.
pub record IsCarried (d : RoleDef) (s : RoleScope) : Type 0 where
  pub peer_defined : s.peer ≡ true → defines d dim_peer ≡ true
  pub queues_defined : is_empty s.queues ≡ false → defines d dim_queues ≡ true
  pub projects_defined : is_empty s.projects ≡ false → defines d dim_projects ≡ true
  pub locales_defined : is_empty s.locales ≡ false → defines d dim_locales ≡ true
  pub publish_defined : s.publish ≡ true → defines d dim_publish ≡ true

no_scope-IsCarried : (d : RoleDef) → IsCarried d no_scope
no_scope-IsCarried d = record {
  peer_defined = λ h. ground arith;
  queues_defined = λ h. ground arith;
  projects_defined = λ h. ground arith;
  locales_defined = λ h. ground arith;
  publish_defined = λ h. ground arith;
}

-- So is what the reading gives, when it gives a scope.
abbrev CarriedIf : RoleDef → Option RoleScope → Type 0
CarriedIf d none = Unit
CarriedIf d (some s) = IsCarried d s

abbrev ValidIf : RoleDef → Validation → Type 0
ValidIf d (invalid e) = Unit
ValidIf d (valid s) = IsCarried d s

module _ (d : RoleDef) (s : RoleScope) (c : IsCarried d s) where
  with_peer_carried : (o : Option Bool) → defines d dim_peer ≡ true → CarriedIf d (with_peer s o)
  unfolding with_peer
  with_peer_carried none def = tt
  with_peer_carried (some b) def = record {
    peer_defined = λ h. def;
    queues_defined = c.queues_defined;
    projects_defined = c.projects_defined;
    locales_defined = c.locales_defined;
    publish_defined = c.publish_defined;
  }

  with_publish_carried :
      (o : Option Bool) → defines d dim_publish ≡ true → CarriedIf d (with_publish s o)
  unfolding with_publish
  with_publish_carried none def = tt
  with_publish_carried (some b) def = record {
    peer_defined = c.peer_defined;
    queues_defined = c.queues_defined;
    projects_defined = c.projects_defined;
    locales_defined = c.locales_defined;
    publish_defined = λ h. def;
  }

  with_queues_carried :
      (o : Option (List String)) → defines d dim_queues ≡ true → CarriedIf d (with_queues s o)
  unfolding with_queues
  with_queues_carried none def = tt
  with_queues_carried (some b) def = record {
    peer_defined = c.peer_defined;
    queues_defined = λ h. def;
    projects_defined = c.projects_defined;
    locales_defined = c.locales_defined;
    publish_defined = c.publish_defined;
  }

  with_projects_carried :
      (o : Option (List String)) → defines d dim_projects ≡ true → CarriedIf d (with_projects s o)
  unfolding with_projects
  with_projects_carried none def = tt
  with_projects_carried (some b) def = record {
    peer_defined = c.peer_defined;
    queues_defined = c.queues_defined;
    projects_defined = λ h. def;
    locales_defined = c.locales_defined;
    publish_defined = c.publish_defined;
  }

  with_locales_carried :
      (o : Option (List String)) → defines d dim_locales ≡ true → CarriedIf d (with_locales s o)
  unfolding with_locales
  with_locales_carried none def = tt
  with_locales_carried (some b) def = record {
    peer_defined = c.peer_defined;
    queues_defined = c.queues_defined;
    projects_defined = c.projects_defined;
    locales_defined = λ h. def;
    publish_defined = c.publish_defined;
  }

  defined_as :
      (key dim : String) → defines d key ≡ true → str_eq key dim ≡ true → defines d dim ≡ true
  defined_as key dim def same = rw ((str_eq_iff key dim).0 same) at def

  tested :
      (b : Bool) (x y : Option RoleScope)
      → (b ≡ true → CarriedIf d x)
      → CarriedIf d y
      → CarriedIf d (if b then x else y)
  tested true x y holds fails = holds refl
  tested false x y holds fails = fails

  read_field_carried :
      (key : String) (v : Value) → defines d key ≡ true → CarriedIf d (read_field s (key, v))
  unfolding read_field
  read_field_carried key v def =
      tested _ _ _ (λ e. with_peer_carried _ (defined_as key dim_peer def e))
        (tested _ _ _ (λ e. with_queues_carried _ (defined_as key dim_queues def e))
          (tested _ _ _ (λ e. with_projects_carried _ (defined_as key dim_projects def e))
            (tested _ _ _ (λ e. with_locales_carried _ (defined_as key dim_locales def e))
              (tested _ _ _ (λ e. with_publish_carried _ (defined_as key dim_publish def e)) c))))

read_scope_carried :
    (d : RoleDef) (s : RoleScope) (fields : List (String × Value))
    → IsCarried d s
    → foreign d fields ≡ none
    → CarriedIf d (read_scope s fields)
unfolding read_scope foreign
read_scope_carried d s [] c own = c
read_scope_carried d s ((key, v) ∷ rest) c own =
    let here = read_field_carried d s c key v (ground arith) in
    elim (Option-cases (read_field s (key, v))) [
      | inl e ↦ rw (e, read_scope) tt
      | inr (t, e) ↦ rw (e, read_scope) (read_scope_carried d t rest (rw e at here) (ground arith))
    ]

decoded_carried : (d : RoleDef) (o : Option RoleScope) → CarriedIf d o → ValidIf d (decoded o)
decoded_carried d none c = tt
decoded_carried d (some s) c = c

check_document_carried :
    (d : RoleDef) (r : PlatformRole) (raw : Document) → ValidIf d (check_document d r raw)
unfolding check_document check_fields
check_document_carried d r absent = no_scope-IsCarried d
check_document_carried d r malformed = tt
check_document_carried d r (object fields) = elim (Option-cases (foreign d fields)) [
  | inl own ↦
      rw (own, check_fields)
        (decoded_carried d _ (read_scope_carried d no_scope fields (no_scope-IsCarried d) own))
  | inr (key, e) ↦ rw (e, check_fields) tt
]

-- A scope that ValidateScopeDocument accepts, of whatever document, is one of a role in the catalogue and
-- sets no dimension that this role does not define.
pub validated_only_defined :
    (r : PlatformRole) (raw : Document) (s : RoleScope)
    → validate_scope_document r raw ≡ valid s
    → (d : RoleDef) × (role_definition r ≡ some d) × IsCarried d s
unfolding validate_scope_document
validated_only_defined r raw s h = elim (Option-cases (role_definition r)) [
  | inl e ↦ ground arith
  | inr (d, e) ↦
      (d, e, rw (rw (e, validate_scope_document) at h) at (check_document_carried d r raw))
]
