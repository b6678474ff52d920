-- ===== src/Policy/Catalog.antt =====
-- The catalogue functions of backend/internal/policy/action.go.
use Prim.Native.String.{compare}
use text.Mathlib.Text.{is_le}
use sild.Common.{List, [], ◌∷◌, Bool, false, not, ◌&&◌, none, some, keep, if◌then◌else◌}
use sild.Models.Enums.{PlatformRole, owner, admin, agent, translator, requester}
use sild.Policy.Action.{Action, capabilities, action_name, keys}
use sild.Policy.Decision.{role_holds}

-- The order of slices.Sort on the texts of the actions.
abbrev pub name_le : Action → Action → Bool
name_le a b = is_le (compare (action_name a) (action_name b))

unfoldable pub insert : Action → List Action → List Action
insert a [] = a ∷ []
insert a (b ∷ bs) = let rest = insert a bs in if name_le a b then a ∷ b ∷ bs else b ∷ rest

-- slices.Sort
unfoldable pub sort : List Action → List Action
unfolding insert
sort [] = []
sort (a ∷ as_) = insert a (sort as_)

-- sortedActions, and Actions
unfoldable pub sorted_actions : List Action
sorted_actions = sort keys

unfoldable pub translator_action : Action → Bool
translator_action a = elim (capabilities a) [ none ↦ false | some g ↦ g.translator ]

-- TranslatorActions
unfoldable pub translator_actions : List Action
translator_actions = sort (keep translator_action keys)

-- adminRoles, and EveryAdminRole
abbrev pub every_admin_role : List PlatformRole
every_admin_role = owner ∷ admin ∷ agent ∷ translator ∷ requester ∷ []

-- AdminRoles: the platform roles that carry the action.
unfoldable pub admin_roles : Action → List PlatformRole
admin_roles a = elim (capabilities a) [ none ↦ [] | some g ↦ keep (role_holds g) every_admin_role ]

-- AdminOnly: no other kind of principal holds the action.
unfoldable pub admin_only : Action → Bool
admin_only a = elim (capabilities a) [
  | none ↦ false
  | some g ↦ not g.api_key && (not g.user && not g.signed)
]
