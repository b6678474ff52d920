-- ===== src/Domain/Translation/Listing.antt =====
-- The keys of a project as the editor sees them: TranslationKeys of backend/internal/domain/translation.go.
use sild.Common.{
  String, List, [], ◌∷◌, Bool, true, false, not, ◌&&◌, ◌||◌, Option, none, some, str_eq,
  if◌then◌else◌, Dict, lookup, assign, trim_space, to_lower, includes,
}
use sild.I18n.{source_locale, normalize, namespace}
use sild.I18n.Catalog.{Catalog, is_there, source, default, resolve}
use sild.Store.Page.{Page, PageParams, asc, sort_id, slice_page}
use sild.Store.Translations.{Override, Rows, locale_overrides}
use sild.Domain.Translation.{Answer, ok, refused, ProjectView, catalog_for, translation_project}

-- A key's standing in one locale.
pub data KeyState : Type 0 where
  default_state custom needs_review : KeyState

-- The state asked for; "missing" is a filter of its own, and any other text filters nothing.
pub data StateFilter : Type 0 where
  only_custom only_needs_review only_missing any_state : StateFilter

-- TranslationKeyView
pub record KeyView : Type 0 where
  pub key : String
  pub namespace_ : String
  pub source_ : String
  pub value : String
  pub state : KeyState

-- The map from keys to rows, where a later row replaces an earlier one.
unfoldable pub by_key : Dict Override → List Override → Dict Override
by_key d [] = d
by_key d (o ∷ os) = by_key (assign d o.key o) os

unfoldable pub texts_of : Dict String → List Override → Dict String
texts_of d [] = d
texts_of d (o ∷ os) = texts_of (assign d o.key o.value) os

-- The loop of overridesFor.
unfoldable pub overrides_for : Rows → Dict (Dict String) → List String → Dict (Dict String)
overrides_for r ov [] = ov
overrides_for r ov (l ∷ ls) =
    let loaded = overrides_for r (assign ov l (texts_of [] (locale_overrides r l))) ls in
    let skipped = overrides_for r ov ls in
    if str_eq l "" || is_there (lookup ov l) then skipped else loaded

-- The state of a key with its source, by the override that it has.
unfoldable pub state_of : (String → String) → String → Option Override → KeyState
state_of hash source none = default_state
state_of hash source (some o) = if str_eq o.source_hash (hash source) then custom else needs_review

-- The view of one key; the map of overrides is that of TranslationKeys.
unfoldable pub key_view :
    Catalog
    → (String → String)
    → Dict (Dict String)
    → Dict Override
    → String
    → String
    → String
    → KeyView
key_view cat hash ov rows locale fallback k = record {
  key = k;
  namespace_ = namespace k;
  source_ = source cat k;
  value = resolve cat ov locale fallback k;
  state = state_of hash (source cat k) (lookup rows k);
}

abbrev is_custom : KeyState → Bool
is_custom custom = true
is_custom _ = false

abbrev is_needs_review : KeyState → Bool
is_needs_review needs_review = true
is_needs_review _ = false

abbrev is_default : KeyState → Bool
is_default default_state = true
is_default _ = false

abbrev in_state : StateFilter → Catalog → String → KeyView → Bool
in_state only_custom cat locale v = is_custom v.state
in_state only_needs_review cat locale v = is_needs_review v.state
in_state only_missing cat locale v = is_default v.state && not (is_there (default cat locale v.key))
in_state any_state cat locale v = true

-- matchesTranslationFilter
unfoldable pub matches_translation_filter : KeyView → Catalog → String → StateFilter → String → Bool
matches_translation_filter v cat locale state q =
    in_state state cat locale v
    && (str_eq q ""
        || (includes (to_lower v.key) q
            || (includes (to_lower v.source_) q || includes (to_lower v.value) q)))

-- The loop of TranslationKeys over the keys; view makes the view of one.
unfoldable pub listed :
    (String → KeyView)
    → Catalog
    → String
    → StateFilter
    → String
    → String
    → List String
    → List KeyView
listed view cat locale state ns q [] = []
listed view cat locale state ns q (k ∷ ks) =
    let rest = listed view cat locale state ns q ks in
    if (str_eq ns "" || str_eq (view k).namespace_ ns)
      && matches_translation_filter (view k) cat locale state q
    then view k ∷ rest
    else rest

abbrev pub locale_or_fallback : String → ProjectView → String
locale_or_fallback given proj =
    if str_eq (normalize given) "" then proj.fallback_locale else normalize given

-- The overrides that TranslationKeys resolves with: the chain's, and the rows of the locale itself.
unfoldable pub chain_overrides : Rows → String → String → Dict (Dict String)
chain_overrides r locale fallback =
    assign (overrides_for r [] (fallback ∷ source_locale ∷ [])) locale
      (texts_of [] (locale_overrides r locale))

-- The view of a key in a locale, on a project's view.
unfoldable pub view_key :
    Catalog → (String → String) → String → ProjectView → String → Rows → String → KeyView
view_key shipped hash project proj locale r k =
    key_view (catalog_for shipped project r) hash (chain_overrides r locale proj.fallback_locale)
      (by_key [] (locale_overrides r locale)) locale proj.fallback_locale k

-- TranslationKeys
unfoldable pub translation_keys :
    Catalog
    → (String → String)
    → String
    → String
    → StateFilter
    → String
    → String
    → PageParams
    → Rows
    → Answer (Page KeyView)
translation_keys shipped hash project given state ns q pp r =
    elim (translation_project shipped project r) [
      | refused e ↦ refused e
      | ok proj ↦
          let locale = locale_or_fallback given proj in
          let cat = catalog_for shipped project r in
          ok (
            slice_page
              (listed (view_key shipped hash project proj locale r) cat locale state ns
                (to_lower (trim_space q)) cat.keys)
              (record pp { sort = sort_id; order = asc }) (λ v. v.key))
    ]
