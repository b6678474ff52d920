-- ===== src/Policy/Translation.antt =====
-- backend/internal/policy/translation.go: the translator role's own scope.
use sild.Common.{
  String, Bool, true, false, not, ◌&&◌, Option, none, some, any, contains, str_eq, if◌then◌else◌,
}
use sild.Models.Enums.{translator}
use sild.Models.Rbac.{RoleScope, allows, scope_all}
use sild.Principal.{Principal, scope_of, same_role}
use sild.Policy.Action.{Action, capabilities, translations_publish}
use sild.Policy.Decision.{
  Verdict, allowed, refused, denied, authorize, is_allowed, no_attrs, role_holds,
}

-- publishable: a release is project-wide, so it takes every language.
unfoldable pub publishable : RoleScope → Bool
publishable s = s.publish && contains s.locales scope_all

-- holdsWithoutTranslator: another role of the member carries the action on its own.
unfoldable pub holds_without_translator : Principal → Action → Bool
holds_without_translator p a = elim (capabilities a) [
  | none ↦ false
  | some g ↦ any (λ h. not (same_role h.role translator) && role_holds g h.role) p.assignments
]

-- TranslationNarrowing: the scope that a collection filters by, if it filters at all.
unfoldable pub translation_narrowing : Principal → Action → Option RoleScope
translation_narrowing p a = elim (scope_of p translator) [
  | none ↦ none
  | some s ↦ if holds_without_translator p a then none else some s
]

abbrev pub is_publish : Action → Bool
is_publish translations_publish = true
is_publish _ = false

-- The checks of AuthorizeTranslation on a scope that narrows.
unfoldable pub authorize_scope : RoleScope → Action → String → String → Verdict
authorize_scope s a project locale =
    if not (allows s.projects project)
    then denied "translation_scope" "not granted this project"
    else if not (str_eq locale "") && not (allows s.locales locale)
    then denied "translation_scope" "not granted this language"
    else if is_publish a && not (publishable s)
    then denied "translation_scope" "publishing takes every language of the project"
    else allowed

-- AuthorizeTranslation. A caller that is not there is refused by Authorize.
unfoldable pub authorize_translation : Option Principal → Action → String → String → Verdict
authorize_translation none a project locale = authorize none a no_attrs
authorize_translation (some p) a project locale = elim (authorize (some p) a no_attrs) [
  | refused d ↦ refused d
  | allowed ↦ elim (translation_narrowing p a) [
    | none ↦ allowed
    | some s ↦ authorize_scope s a project locale
  ]
]

-- MayPublish
unfoldable pub may_publish : Option Principal → String → Bool
may_publish caller project =
    is_allowed (authorize_translation caller translations_publish project "")
