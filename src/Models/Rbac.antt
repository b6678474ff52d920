-- ===== src/Models/Rbac.antt =====
-- backend/internal/store/models/rbac.go
use sild.Common.{String, List, [], ◌∷◌, Bool, false, ◌||◌, str_eq}

abbrev pub scope_all : String
scope_all = "all"

-- models.QueueSupport
abbrev pub queue_support : String
queue_support = "support"

pub record RoleScope : Type 0 where
  pub peer : Bool
  pub queues : List String
  pub projects : List String
  pub locales : List String
  pub publish : Bool

-- The zero value of RoleScope.
abbrev pub no_scope : RoleScope
no_scope = record { peer = false; queues = []; projects = []; locales = []; publish = false }

-- Allows reports whether a set dimension admits one value.
unfoldable pub allows : List String → String → Bool
allows [] value = false
allows (s ∷ set) value = (str_eq s scope_all || str_eq s value) || allows set value
