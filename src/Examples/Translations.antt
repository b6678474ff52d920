-- ===== src/Examples/Translations.antt =====
-- Examples of the translation projects of backend/internal.
use mathlib.Core.Option.{some-injective}
use mathlib.Core.Path.{subst}
use sild.Common.{
  ℕ, ◌<◌, String, [], ◌∷◌, true, false, some, Dict, ◌⊎◌, ◌≡◌, refl, str_eq, keep, any,
}
use sild.Examples.Shop.{
  shipped, same_text, german, first_release, shop, rolled_back, second_view, runs,
}
use sild.I18n.Catalog.Keys.{new_catalog-IsComplete}
use sild.Store.Translations.{Rows, is_bundle, put_key, create_release, delete_project, no_rows}
use sild.Store.Translations.Steps.{
  IsSetting, Steps, puts_key, releases, rests, then_, published_immutable,
}
use sild.Store.Translations.Versions.{IsReleased}
use sild.Store.Translations.Settings.{IsConfigured}
use sild.Domain.Translation.{ok, ProjectView, project_view}
use sild.Domain.Translation.Releases.{publish_translations, translation_bundle}
use sild.Domain.Translation.Editing.{
  put_translation_override, delete_translation_override, declare_translation_key,
}
use sild.Domain.Translation.Listing.{custom, needs_review}
use sild.Domain.Translation.Commits.{published}
use sild.Domain.Translation.Published.{fetched}
use sild.Domain.Translation.Rollback.{rollback_restores}
use sild.Domain.Translation.Live.{draft_text, publication_live, override_live}
use sild.Domain.Translation.Drafts.{IsSameLive, draft_hidden}
use sild.Domain.Translation.Manifests.{manifest_served}
use sild.Domain.Translation.Reviews.{state_in, reworded_reviewed}
use sild.Domain.Translation.Steps.{creates, configures, publishes, deletes, call, calls, call-Steps}
use sild.Domain.Translation.Runs.{calls-IsSound}

shop-IsReleased : IsReleased shop
unfolding any
shop-IsReleased = record { released = (refl, (refl, tt)) }

shop-IsConfigured : IsConfigured shop
unfolding runs
shop-IsConfigured = record {
  setting = λ p e.
      subst (λ x. IsSetting x shop.locales) (some-injective _ p e)
        (record { tags = (refl, (refl, tt)); fallback_in = refl });
  unique = refl;
}

published_immutable_example :
    keep
      (is_bundle "de" 1)
      (create_release (put_key shop "b" "B") first_release (german ∷ [])).1.bundles
    ≡ german ∷ []
unfolding runs
published_immutable_example =
    published_immutable "de" 1 german shop
      (create_release (put_key shop "b" "B") first_release (german ∷ [])).1
      (then_ shop (put_key shop "b" "B") _ (puts_key shop "b" "B") (
        then_ (put_key shop "b" "B")
          (create_release (put_key shop "b" "B") first_release (german ∷ [])).1 _
          (releases (put_key shop "b" "B") first_release (german ∷ []) (refl, tt)) (rests _)))
      refl

rollback_restores_example :
    (second_view.version ≡ 2)
    × ((locale : String)
        → (published rolled_back locale 2 ≡ published shop locale 1)
          × ((w : ℕ) → w < 2 → published rolled_back locale w ≡ published shop locale w))
unfolding runs
rollback_restores_example =
    rollback_restores 1 "u" "r2" 20 shop rolled_back second_view shop-IsReleased refl

publication_live_example :
    (fetched (publish_translations shipped "shop" "u" "r2" 20 shop).0 "de" 2 "a.title"
      ≡ some (draft_text shipped "shop" shop "de" "a.title"))
    × (str_eq (draft_text shipped "shop" shop "de" "a.title") "" ≡ false)
unfolding runs
publication_live_example =
    publication_live shipped "shop" "u" "r2" 20 shop
      (publish_translations shipped "shop" "u" "r2" 20 shop).0 second_view "de" "a.title"
      shop-IsReleased refl refl refl refl refl

override_live_example :
    fetched
      (put_translation_override shipped same_text "shop" " DE-at " "a.title" "Neu" true
        (record { id = "r2"; now = 20 })
        shop).0
      "de"
      2
      "a.title"
    ≡ some "Neu"
unfolding runs
override_live_example =
    override_live shipped same_text "shop" " DE-at " "a.title" "Neu"
      (record { id = "r2"; now = 20 }) shop _ (new_catalog-IsComplete shop.keys) shop-IsReleased
      refl refl refl

draft_hidden_example :
    IsSameLive shipped shop
      (put_translation_override shipped same_text "shop" "de" "a.title" "Neu" false
        (record { id = "r2"; now = 20 })
        shop).0
    × IsSameLive shipped shop
        (delete_translation_override shipped "shop" "de" "a.title" false
          (record { id = "r2"; now = 20 })
          shop).0
draft_hidden_example =
    draft_hidden shipped same_text "shop" "de" "a.title" "Neu" (record { id = "r2"; now = 20 }) shop

manifest_served_example : (strs : Dict String) × (translation_bundle shop "de" 1 ≡ ok strs)
unfolding runs
manifest_served_example =
    manifest_served shipped "shop" shop
      (record { project = "shop"; fallback_locale = "en"; locales = ("de", 1) ∷ ("en", 1) ∷ [] })
      "de" 1 refl refl refl

abbrev shop_view : ProjectView
shop_view = project_view shipped "shop" shop

abbrev translated : Rows
translated =
    (put_translation_override shipped same_text "shop" "de" "a.title" "Neu" true
      (record { id = "r2"; now = 20 }) shop).0

abbrev reworded : Rows
reworded =
    (declare_translation_key shipped "shop" " a.title" "Headline" (record { id = "r3"; now = 30 })
      translated).0

reworded_reviewed_example :
    (state_in shipped same_text "shop" shop_view translated "de" "a.title" ≡ custom)
    × (state_in shipped same_text "shop" shop_view reworded "de" "a.title" ≡ needs_review)
unfolding runs
reworded_reviewed_example =
    reworded_reviewed shipped same_text "shop" "de" "a.title" "Neu" " a.title" "Headline" true
      (record { id = "r2"; now = 20 }) (record { id = "r3"; now = 30 }) shop_view shop translated
      reworded refl refl refl refl refl

call-Steps_example :
    Steps no_rows (call shipped same_text "shop" no_rows (creates "Shop " "Shop"))
    ⊎ ((creates "Shop " "Shop" ≡ deletes)
        × (call shipped same_text "shop" no_rows (creates "Shop " "Shop") ≡ delete_project no_rows))
call-Steps_example = call-Steps shipped same_text "shop" no_rows (creates "Shop " "Shop")

calls-IsSound_example :
    IsReleased (
      calls shipped same_text "shop" shop (
        configures "" "de" true ("de" ∷ "fr-FR" ∷ [])
        ∷ publishes "u" (record { id = "r2"; now = 20 })
        ∷ deletes
        ∷ creates "Shop" "Shop"
        ∷ []))
    × IsConfigured (
        calls shipped same_text "shop" shop (
          configures "" "de" true ("de" ∷ "fr-FR" ∷ [])
          ∷ publishes "u" (record { id = "r2"; now = 20 })
          ∷ deletes
          ∷ creates "Shop" "Shop"
          ∷ []))
calls-IsSound_example =
    calls-IsSound shipped same_text "shop" shop
      (configures "" "de" true ("de" ∷ "fr-FR" ∷ [])
        ∷ publishes "u" (record { id = "r2"; now = 20 })
        ∷ deletes
        ∷ creates "Shop" "Shop"
        ∷ [])
      shop-IsReleased shop-IsConfigured
