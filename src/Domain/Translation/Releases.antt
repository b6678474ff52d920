-- ===== src/Domain/Translation/Releases.antt =====
-- Publishing, rolling back and reading releases: backend/internal/domain/translation.go.
use sild.Common.{
  ℕ, ◌+◌, String, List, [], ◌∷◌, Option, none, some, str_eq, map, is_empty, if◌then◌else◌, Dict,
  lookup, assign,
}
use sild.I18n.{platform_project, source_locale, normalize}
use sild.I18n.Catalog.{Catalog, text_or_empty, resolve, bundle}
use sild.Store.Page.{Page, PageParams, desc, sort_id, slice_page}
use sild.Store.Translations.{
  Override, Release, Bundle, Rows, latest_release, list_releases, bundle_at, release_bundles,
  release_locales, create_release,
}
use sild.Domain.Translation.{
  not_found, Answer, ok, refused, with_ok, stored, ProjectView, catalog_for, version_of,
  project_view, translation_project,
}

-- TranslationReleaseView, without its time
pub record ReleaseView : Type 0 where
  pub id : String
  pub version : ℕ
  pub published_by : String
  pub locales : List String

-- TranslationManifest
pub record Manifest : Type 0 where
  pub project : String
  pub fallback_locale : String
  pub locales : Dict ℕ

-- nextVersion
unfoldable pub next_version : Option ℕ → ℕ
next_version none = 1
next_version (some v) = v + 1

abbrev pub or_empty : Option (Dict String) → Dict String
or_empty none = []
or_empty (some d) = d

-- The loop of publish that turns rows into a map; later rows replace earlier ones.
unfoldable pub override_map : Dict (Dict String) → List Override → Dict (Dict String)
override_map ov [] = ov
override_map ov (o ∷ os) =
    override_map (assign ov o.locale (assign (or_empty (lookup ov o.locale)) o.key o.value)) os

abbrev pub release_of : String → ℕ → String → ℕ → Release
release_of id version by_ now = record {
  id = id;
  version = version;
  published_by = by_;
  created_at = now;
}

-- commitRelease; id is what id.New makes.
unfoldable pub commit_release :
    Rows → String → ℕ → ℕ → String → List Bundle → Rows × Answer ReleaseView
commit_release r id now version by_ bundles =
    stored
      (λ s. record {
        id = id;
        version = version;
        published_by = by_;
        locales = map (λ b. b.locale) bundles;
      })
      (create_release r (release_of id version by_ now) bundles)

-- The bundles of publish.
unfoldable pub bundles_of : Catalog → Dict (Dict String) → String → ℕ → List String → List Bundle
bundles_of cat ov fallback version locales =
    map (λ l. record { locale = l; version = version; strings = bundle cat ov l fallback }) locales

-- publish, on a view that was read before
unfoldable pub publish :
    Catalog → ProjectView → String → String → ℕ → Rows → Rows × Answer ReleaseView
publish shipped proj by_ id now r =
    let version = next_version proj.current_version in
    commit_release r id now version by_ (
      bundles_of (catalog_for shipped proj.slug r) (override_map [] r.overrides)
        proj.fallback_locale version proj.locales)

-- PublishTranslations
unfoldable pub publish_translations :
    Catalog → String → String → String → ℕ → Rows → Rows × Answer ReleaseView
publish_translations shipped project by_ id now r =
    with_ok r (translation_project shipped project r) (λ proj. publish shipped proj by_ id now r)

abbrev pub as_version : ℕ → Bundle → Bundle
as_version version b = record b { version = version }

-- RollbackTranslations
unfoldable pub rollback_translations : ℕ → String → String → ℕ → Rows → Rows × Answer ReleaseView
rollback_translations to by_ id now r =
    let old = release_bundles r to in
    let version = next_version (version_of (latest_release r)) in
    if is_empty old
    then (r, refused not_found)
    else commit_release r id now version by_ (map (as_version version) old)

-- TranslationReleases
unfoldable pub translation_releases : Rows → PageParams → Page ReleaseView
translation_releases r pp =
    slice_page
      (map
        (λ rel. record {
          id = rel.id;
          version = rel.version;
          published_by = rel.published_by;
          locales = [];
        })
        (list_releases r))
      (record pp { sort = sort_id; order = desc }) (λ v. v.id)

unfoldable pub at_version : Dict ℕ → ℕ → List String → Dict ℕ
at_version m v [] = m
at_version m v (l ∷ ls) = at_version (assign m l v) v ls

-- The manifest, for the answer of TranslationProject.
unfoldable pub manifest_of : String → Rows → Answer ProjectView → Answer Manifest
unfolding at_version
manifest_of project r (refused e) = refused e
manifest_of project r (ok proj) = ok (record {
  project = project;
  fallback_locale = proj.fallback_locale;
  locales = elim proj.current_version [
    | none ↦ []
    | some v ↦ at_version [] v (release_locales r v)
  ];
})

-- TranslationManifest
unfoldable pub translation_manifest : Catalog → String → Rows → Answer Manifest
translation_manifest shipped project r =
    manifest_of project r (translation_project shipped project r)

-- TranslationBundle
unfoldable pub translation_bundle : Rows → String → ℕ → Answer (Dict String)
translation_bundle r locale version = elim (bundle_at r (normalize locale) version) [
  | none ↦ refused not_found
  | some b ↦ ok b.strings
]

-- The text that a published locale has for a key, none for no bundle or an empty text.
unfoldable pub published_text : Rows → ℕ → String → String → Option String
published_text r version key locale = elim (translation_bundle r locale version) [
  | refused e ↦ none
  | ok strs ↦ let t = text_or_empty (lookup strs key) in if str_eq t "" then none else some t
]

-- The loop of ResolveText over the locales.
unfoldable pub first_published : Rows → ℕ → String → List String → Option String
first_published r version key [] = none
first_published r version key (l ∷ ls) =
    let rest = first_published r version key ls in
    elim (published_text r version key l) [ none ↦ rest | some t ↦ some t ]

abbrev locale_or : String → String → String
locale_or locale fallback = if str_eq locale "" then fallback else locale

unfoldable pub from_release : Rows → Option ℕ → String → List String → Option String
from_release r none key ls = none
from_release r (some v) key ls = first_published r v key ls

-- ResolveText, on the rows of the platform project, which always exists
unfoldable pub resolve_text : Catalog → Rows → String → String → String
resolve_text shipped r given key =
    let proj = project_view shipped platform_project r in
    let fallback = proj.fallback_locale in
    let locale = locale_or (normalize given) fallback in
    elim (from_release r proj.current_version key (locale ∷ fallback ∷ source_locale ∷ [])) [
      | none ↦ resolve shipped [] locale fallback key
      | some t ↦ t
    ]
