-- ===== src/Policy/Publishing.antt =====
-- What a translator's scope lets through: backend/internal/policy/translation.go, and the publish
-- grant of scope.go.
use sild.Common.{
  String, List, [], ◌∷◌, true, ◌&&◌, none, some, ◌≡◌, inl, inr, contains, arith, Option-cases,
  str_eq_refl,
}
use sild.Models.Enums.{translator}
use sild.Models.Rbac.{RoleScope, allows, scope_all}
use sild.Principal.{Principal, scope_of}
use sild.Policy.Action.{capabilities, translations_publish, translations_write}
use sild.Policy.Decision.{allowed, holds, conversation_scoped, authorize}
use sild.Policy.Translation.{
  publishable, holds_without_translator, translation_narrowing, authorize_scope,
  authorize_translation, may_publish,
}
use sild.Policy.Grants.{advertised}

-- A set that holds the literal `all` admits every value.
allows_everything :
    (set : List String) (value : String) → contains set scope_all ≡ true → allows set value ≡ true
unfolding contains allows
allows_everything [] value h = cc
allows_everything (s ∷ set) value h = ground (arith, allows_everything set value)

publishable-allows :
    (s : RoleScope) (locale : String) → publishable s ≡ true → allows s.locales locale ≡ true
unfolding publishable
publishable-allows s locale h = ground (arith, allows_everything s.locales locale)

module _ (p : Principal) (project : String) where
  -- Who may publish a project may write every language of it, whichever role the right comes from.
  pub publisher_writes :
      (locale : String)
      → may_publish (some p) project ≡ true
      → authorize_translation (some p) translations_write project locale ≡ allowed
  unfolding may_publish authorize_translation translation_narrowing authorize_scope authorize holds
      capabilities conversation_scoped holds_without_translator
  publisher_writes locale h = elim (Option-cases (scope_of p translator)) [
    | inl free ↦ ground arith
    | inr (s, narrow) ↦ ground (arith, publishable-allows s locale)
  ]

  -- The publish grant that a caller is told of is the one that is enforced: a project may be published
  -- exactly when publishing is advertised and the narrowing scope, where there is one, has the project.
  pub may_publish_iff : may_publish (some p) project ≡ (
      advertised p translations_publish && elim (translation_narrowing p translations_publish) [
        | none ↦ true
        | some s ↦ allows s.projects project
      ])
  unfolding may_publish authorize_translation authorize_scope authorize conversation_scoped
      advertised
  may_publish_iff = ground (arith, str_eq_refl "")
