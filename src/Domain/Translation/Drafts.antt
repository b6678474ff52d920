-- ===== src/Domain/Translation/Drafts.antt =====
-- A draft is not live text: backend/internal/domain/translation.go.
use sild.Common.{ℕ, String, List, Bool, true, false, ◌≡◌, refl, if◌then◌else◌}
use sild.I18n.{normalize}
use sild.I18n.Catalog.{Catalog}
use sild.Store.Translations.{
  Override, Rows, put_override, delete_override, latest_release, bundle_at, release_locales,
}
use sild.Domain.Translation.{
  ok, refused, not_found, exists, translation_project, project_view, catalog_for,
}
use sild.Domain.Translation.Keeps.{with_ok_keeps, checked_keeps}
use sild.Domain.Translation.Releases.{
  manifest_of, translation_manifest, translation_bundle, published_text, first_published,
  from_release, resolve_text,
}
use sild.Domain.Translation.Editing.{
  Stamp, override_refusal, put_translation_override, delete_translation_override,
}

-- Two states of the rows that show the same to clients, and to those who read what the server composes.
pub record IsSameLive (shipped : Catalog) (r s : Rows) : Type 0 where
  pub text :
      (locale key : String) → resolve_text shipped s locale key ≡ resolve_text shipped r locale key
  pub bundles_ :
      (locale : String) (version : ℕ)
      → translation_bundle s locale version ≡ translation_bundle r locale version
  pub manifest_ :
      (project : String)
      → translation_manifest shipped project s ≡ translation_manifest shipped project r

same : (shipped : Catalog) (r : Rows) → IsSameLive shipped r r
same shipped r = record {
  text = λ locale key. refl;
  bundles_ = λ locale version. refl;
  manifest_ = λ project. refl;
}

same_manifest :
    (shipped : Catalog) (r : Rows) (os : List Override) (project : String)
    → translation_manifest shipped project (record r { overrides = os })
      ≡ translation_manifest shipped project r
unfolding translation_manifest manifest_of translation_project project_view latest_release
    release_locales
same_manifest shipped r os project = go (exists project r)
  where
    go :
        (b : Bool)
        → manifest_of project
            (record r { overrides = os })
            (if b
              then ok (project_view shipped project (record r { overrides = os }))
              else refused not_found)
          ≡ manifest_of project r
              (if b then ok (project_view shipped project r) else refused not_found)
    go true = refl
    go false = refl

overrides_only :
    (shipped : Catalog) (r : Rows) (os : List Override)
    → IsSameLive shipped r (record r { overrides = os })
unfolding resolve_text project_view latest_release from_release first_published published_text
    translation_bundle bundle_at
overrides_only shipped r os = record {
  text = λ locale key. refl;
  bundles_ = λ locale version. refl;
  manifest_ = same_manifest shipped r os;
}

-- An override that is written or reset without the right to publish changes no text that clients or the
-- server read: neither the manifest, nor any bundle, nor what ResolveText answers.
pub draft_hidden :
    (shipped : Catalog) (hash : String → String) (project locale key value : String) (stamp : Stamp)
    (r : Rows)
    → IsSameLive shipped r
        (put_translation_override shipped hash project locale key value false stamp r).0
      × IsSameLive shipped r
          (delete_translation_override shipped project locale key false stamp r).0
unfolding put_translation_override delete_translation_override put_override delete_override
draft_hidden shipped hash project locale key value stamp r = (
  with_ok_keeps (IsSameLive shipped r) r (same shipped r) (translation_project shipped project r) _
      (λ proj read.
        checked_keeps (IsSameLive shipped r) r (same shipped r)
          (override_refusal (catalog_for shipped project r) proj (normalize locale) key value) _
          (overrides_only shipped r _)),
  with_ok_keeps (IsSameLive shipped r) r (same shipped r) (translation_project shipped project r) _
      (λ proj read. overrides_only shipped r _),
)
