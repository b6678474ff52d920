-- ===== src/Examples/Catalogue.antt =====
-- Examples of the catalogue and the grants of backend/internal/policy.
use sild.Common.{[], ◌∷◌, ◌≡◌, refl, keep}
use sild.Policy.Action.{
  action_name, capabilities, translations_publish, principal_read, translations_read,
  translations_write,
}
use sild.Policy.Catalog.{sort, translator_action, translator_actions}

-- The list that policy/translator_test.go expects.
translator_set :
    translator_actions
    ≡ principal_read ∷ translations_publish ∷ translations_read ∷ translations_write ∷ []
unfolding translator_actions sort keep translator_action capabilities action_name
translator_set = refl
