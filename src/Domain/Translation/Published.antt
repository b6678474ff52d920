-- ===== src/Domain/Translation/Published.antt =====
-- What a client reads of a release that was published: backend/internal/domain/translation.go.
use sild.Common.{
  ℕ, suc, ◌<◌, String, List, [], ◌∷◌, true, Option, none, some, str_eq, str_eq_iff, keep, contains,
  All, if◌then◌else◌, ◌≡◌, refl, ap, ◌∙◌, arith, Bool-cases, inl, inr, Dict, lookup,
}
use sild.I18n.{valid_language}
use sild.I18n.Tags.{normalize_valid}
use sild.I18n.Catalog.{Catalog, resolve, bundle}
use sild.I18n.Catalog.Resolve.{lookup-bundle}
use sild.Store.Translations.{Bundle, Rows, find_bundle, bundle_at, latest_release}
use sild.Store.Translations.Versions.{IsReleased, top, below_next}
use sild.Domain.Translation.{ok, refused, ProjectView, version_of, catalog_for}
use sild.Domain.Translation.Commits.{at_, next_top, IsCommitted, commit-IsCommitted, committed_at}
use sild.Domain.Translation.Releases.{
  ReleaseView, override_map, bundles_of, release_of, next_version, publish, translation_bundle,
}

-- The bundle of a locale, in the order of a list.
abbrev pub in_locale : List Bundle → String → Option Bundle
in_locale [] locale = none
in_locale (b ∷ bs) locale = if str_eq b.locale locale then some b else in_locale bs locale

pub find-at :
    (bs : List Bundle) (locale : String) (version : ℕ)
    → find_bundle bs locale version ≡ in_locale (at_ version bs) locale
unfolding find_bundle keep
find-at [] locale version = refl
find-at (b ∷ bs) locale version = ground (arith, find-at bs locale version)

in_locale-bundles_of :
    (cat : Catalog) (ov : Dict (Dict String)) (fallback : String) (version : ℕ) (ls : List String)
    (l : String)
    → contains ls l ≡ true
    → in_locale (bundles_of cat ov fallback version ls) l
      ≡ some (record { locale = l; version = version; strings = bundle cat ov l fallback })
unfolding bundles_of contains
in_locale-bundles_of cat ov fallback version [] l h = absurd (ground arith)
in_locale-bundles_of cat ov fallback version (j ∷ ls) l h = elim (Bool-cases (str_eq j l)) [
  | inl e ↦ rw e (rw ((str_eq_iff j l).0 e) refl)
  | inr e ↦ rw e (in_locale-bundles_of cat ov fallback version ls l (rw e at h))
]

-- What a client that fetches a bundle reads for a key.
abbrev pub fetched : Rows → String → ℕ → String → Option String
fetched r locale version key = elim (translation_bundle r locale version) [
  | refused e ↦ none
  | ok strs ↦ lookup strs key
]

fetched_bundle :
    (r : Rows) (locale : String) (version : ℕ) (key : String) (b : Bundle)
    → valid_language locale ≡ true
    → in_locale (at_ version r.bundles) locale ≡ some b
    → fetched r locale version key ≡ lookup b.strings key
unfolding translation_bundle bundle_at
fetched_bundle r locale version key b valid h =
    ground (arith, normalize_valid locale valid, find-at r.bundles locale version)

-- The bundles that a publication of a project writes.
abbrev publication : Catalog → ProjectView → Rows → List Bundle
publication shipped proj r =
    bundles_of (catalog_for shipped proj.slug r) (override_map [] r.overrides) proj.fallback_locale
      (next_version proj.current_version) proj.locales

-- The text of a key in a publication.
abbrev text_in : Catalog → ProjectView → Rows → String → String → String
text_in shipped proj r locale key =
    resolve (catalog_for shipped proj.slug r) (override_map [] r.overrides) locale
      proj.fallback_locale key

module _ (shipped : Catalog) (proj : ProjectView) (by_ id : String) (now : ℕ) (r s : Rows)
    (v : ReleaseView) (sound : IsReleased r)
    (current : proj.current_version ≡ version_of (latest_release r))
    (done : publish shipped proj by_ id now r ≡ (s, ok v)) where
  publish-IsCommitted :
      IsCommitted r
        (release_of id (next_version proj.current_version) by_ now)
        (publication shipped proj r)
        s
        v
  unfolding publish
  publish-IsCommitted = commit-IsCommitted r id now _ by_ _ s v done

  pub published_version : v.version ≡ suc (top (latest_release r))
  published_version =
      publish-IsCommitted.answered ∙ ap next_version current ∙ next_top (latest_release r)

  next_above : All (λ (b : Bundle). b.version < next_version proj.current_version) r.bundles
  next_above = rw (current, next_top (latest_release r)) (below_next r sound)

  all_at :
      (cat : Catalog) (ov : Dict (Dict String)) (fallback : String) (version : ℕ) (ls : List String)
      → at_ version (bundles_of cat ov fallback version ls) ≡ bundles_of cat ov fallback version ls
  unfolding bundles_of keep
  all_at cat ov fallback version [] = refl
  all_at cat ov fallback version (l ∷ ls) = ground (arith, all_at cat ov fallback version ls)

  published_at : at_ (next_version proj.current_version) s.bundles ≡ publication shipped proj r
  published_at = committed_at r s _ _ v publish-IsCommitted next_above ∙ all_at _ _ _ _ proj.locales

  -- A client that fetches an enabled locale reads for each declared key what it resolves to.
  pub fetched_text :
      (locale key : String)
      → valid_language locale ≡ true
      → contains proj.locales locale ≡ true
      → contains (catalog_for shipped proj.slug r).keys key ≡ true
      → fetched s locale v.version key ≡ some (text_in shipped proj r locale key)
  fetched_text locale key valid enabled key_declared =
      fetched_bundle s locale v.version key _ valid served
      ∙ lookup-bundle (catalog_for shipped proj.slug r) (override_map [] r.overrides) locale
          proj.fallback_locale key key_declared
    where
      served :
          in_locale (at_ v.version s.bundles) locale
          ≡ some (record {
            locale = locale;
            version = next_version proj.current_version;
            strings =
                bundle
                  (catalog_for shipped proj.slug r)
                  (override_map [] r.overrides)
                  locale
                  proj.fallback_locale;
          })
      served =
          rw (publish-IsCommitted.answered, published_at)
            (in_locale-bundles_of _ _ _ _ proj.locales locale enabled)
