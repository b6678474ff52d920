-- ===== src/Policy/Roles/Document.antt =====
-- ValidateScopeDocument and ValidateScope of backend/internal/policy/roles.go. The document is what
-- encoding/json reads: an object is a list of keys and values.
use sild.Common.{
  String, List, [], ◌∷◌, ◌++◌, Bool, true, false, Option, none, some, str_eq, if◌then◌else◌,
}
use sild.Models.Enums.{PlatformRole}
use sild.Models.Rbac.{RoleScope, no_scope}
use sild.Policy.Roles.{
  RoleDef, dim_peer, dim_queues, dim_projects, dim_locales, dim_publish, role_definition, defines,
}

-- A value of a document, as far as the fields of RoleScope read it.
pub data Item : Type 0 where
  text : String → Item
  null_item other_item : Item

pub data Value : Type 0 where
  boolean : Bool → Value
  array : List Item → Value
  null other_value : Value

-- The raw bytes: none at all, an object (null reads as one without keys), or what does not parse as
-- an object.
pub data Document : Type 0 where
  absent : Document
  object : List (String × Value) → Document
  malformed : Document

pub data ScopeError : Type 0 where
  unknown_role : PlatformRole → ScopeError
  no_dimension : PlatformRole → String → ScopeError
  invalid_json : ScopeError

pub data Validation : Type 0 where
  valid : RoleScope → Validation
  invalid : ScopeError → Validation

-- The first key that the role does not define.
unfoldable pub foreign : RoleDef → List (String × Value) → Option String
foreign d [] = none
foreign d ((key, v) ∷ rest) =
    let later = foreign d rest in if defines d key then later else some key

unfoldable pub read_bool : Bool → Value → Option Bool
read_bool old (boolean b) = some b
read_bool old null = some old
read_bool old (array items) = none
read_bool old other_value = none

unfoldable pub read_items : List Item → Option (List String)
read_items [] = some []
read_items (text s ∷ rest) = elim (read_items rest) [ none ↦ none | some ss ↦ some (s ∷ ss) ]
read_items (null_item ∷ rest) = elim (read_items rest) [ none ↦ none | some ss ↦ some ("" ∷ ss) ]
read_items (other_item ∷ rest) = none

unfoldable pub read_set : Value → Option (List String)
read_set (array items) = read_items items
read_set null = some []
read_set (boolean b) = none
read_set other_value = none

unfoldable pub with_peer : RoleScope → Option Bool → Option RoleScope
with_peer s none = none
with_peer s (some b) = some (record s { peer = b })

unfoldable pub with_publish : RoleScope → Option Bool → Option RoleScope
with_publish s none = none
with_publish s (some b) = some (record s { publish = b })

unfoldable pub with_queues : RoleScope → Option (List String) → Option RoleScope
with_queues s none = none
with_queues s (some qs) = some (record s { queues = qs })

unfoldable pub with_projects : RoleScope → Option (List String) → Option RoleScope
with_projects s none = none
with_projects s (some ps) = some (record s { projects = ps })

unfoldable pub with_locales : RoleScope → Option (List String) → Option RoleScope
with_locales s none = none
with_locales s (some ls) = some (record s { locales = ls })

-- One key of json.Unmarshal into a RoleScope; a key without a field is passed over.
unfoldable pub read_field : RoleScope → String × Value → Option RoleScope
read_field s (key, v) =
    if str_eq key dim_peer
    then with_peer s (read_bool s.peer v)
    else if str_eq key dim_queues
    then with_queues s (read_set v)
    else if str_eq key dim_projects
    then with_projects s (read_set v)
    else if str_eq key dim_locales
    then with_locales s (read_set v)
    else if str_eq key dim_publish
    then with_publish s (read_bool s.publish v)
    else some s

unfoldable pub read_scope : RoleScope → List (String × Value) → Option RoleScope
read_scope s [] = some s
read_scope s (f ∷ rest) = elim (read_field s f) [ none ↦ none | some t ↦ read_scope t rest ]

abbrev pub decoded : Option RoleScope → Validation
decoded none = invalid invalid_json
decoded (some s) = valid s

unfoldable pub check_fields : RoleDef → PlatformRole → List (String × Value) → Validation
check_fields d r fields = elim (foreign d fields) [
  | some key ↦ invalid (no_dimension r key)
  | none ↦ decoded (read_scope no_scope fields)
]

unfoldable pub check_document : RoleDef → PlatformRole → Document → Validation
check_document d r absent = valid no_scope
check_document d r malformed = invalid invalid_json
check_document d r (object fields) = check_fields d r fields

-- ValidateScopeDocument
unfoldable pub validate_scope_document : PlatformRole → Document → Validation
validate_scope_document r raw = elim (role_definition r) [
  | none ↦ invalid (unknown_role r)
  | some d ↦ check_document d r raw
]

abbrev pub toggle_field : String → Bool → List (String × Value)
toggle_field key false = []
toggle_field key true = (key, boolean true) ∷ []

unfoldable pub items_of : List String → List Item
items_of [] = []
items_of (s ∷ ss) = text s ∷ items_of ss

abbrev pub set_field : String → List String → List (String × Value)
set_field key [] = []
set_field key (s ∷ ss) = (key, array (items_of (s ∷ ss))) ∷ []

-- json.Marshal of a RoleScope, whose every field is omitted when it is empty.
unfoldable pub scope_fields : RoleScope → List (String × Value)
scope_fields s =
    toggle_field dim_peer s.peer
    ++ (set_field dim_queues s.queues
        ++ (set_field dim_projects s.projects
            ++ (set_field dim_locales s.locales ++ toggle_field dim_publish s.publish)))

-- ValidateScope, true for no error
unfoldable pub validate_scope : PlatformRole → RoleScope → Bool
validate_scope r s = elim (validate_scope_document r (object (scope_fields s))) [
  | valid t ↦ true
  | invalid e ↦ false
]
