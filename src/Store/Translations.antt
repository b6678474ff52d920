-- ===== src/Store/Translations.antt =====
-- The translation tables: backend/internal/store/gormstore/translation.go and models/translation.go.
-- The state is the rows of one tenant and one project. A statement that fails has written nothing; the
-- only failure that is a matter of the rows is a primary key that is taken.
pub mod Steps
pub mod Versions
pub mod Settings
use sild.Common.{
  ℕ, suc, ◌+◌, String, List, [], ◌∷◌, ◌++◌, Bool, true, false, not, ◌&&◌, ◌||◌, Option, none, some,
  str_eq, map, contains, keep, any, ltb, ◌==◌, is_empty, if◌then◌else◌, Dict, lookup, assign, erase,
  sort_by, sort_texts,
}

-- TranslationProject, without its times
pub record Project : Type 0 where
  pub name : String
  pub fallback_locale : String
  pub auto_publish : Bool

-- TranslationOverride
pub record Override : Type 0 where
  pub locale : String
  pub key : String
  pub value : String
  pub source_hash : String

-- TranslationRelease
pub record Release : Type 0 where
  pub id : String
  pub version : ℕ
  pub published_by : String
  pub created_at : ℕ

-- TranslationBundle; its document stands for the map that it decodes to.
pub record Bundle : Type 0 where
  pub locale : String
  pub version : ℕ
  pub strings : Dict String

-- The project's row, its locales, its keys with their sources, and its other rows.
pub record Rows : Type 0 where
  pub project : Option Project
  pub locales : List String
  pub keys : Dict String
  pub overrides : List Override
  pub releases : List Release
  pub bundles : List Bundle

abbrev pub no_rows : Rows
no_rows = record {
  project = none;
  locales = [];
  keys = [];
  overrides = [];
  releases = [];
  bundles = [];
}

abbrev pub distinct : List String → Bool
distinct [] = true
distinct (x ∷ xs) = not (contains xs x) && distinct xs

-- SaveProject: the row is upserted and the locales replaced; a locale given twice is a key that is
-- taken, and the transaction writes nothing.
unfoldable pub save_project : Rows → Project → List String → Bool × Rows
save_project r p locales =
    if distinct locales
    then (true, record r { project = some p; locales = locales })
    else (false, r)

-- ProjectLocales
unfoldable pub project_locales : Rows → List String
project_locales r = sort_texts r.locales

-- DeleteProject
unfoldable pub delete_project : Rows → Rows
delete_project r = no_rows

-- PutKey
unfoldable pub put_key : Rows → String → String → Rows
put_key r key source = record r { keys = assign r.keys key source }

abbrev pub same_string : String → String → Override → Bool
same_string locale key o = str_eq o.locale locale && str_eq o.key key

-- DeleteKey: the overrides of the key in every locale go with it.
unfoldable pub delete_key : Rows → String → Rows
delete_key r key = record r {
  keys = erase r.keys key;
  overrides = keep (λ o. not (str_eq o.key key)) r.overrides;
}

-- PutOverride: a row with the primary key is replaced.
unfoldable pub put_override : Rows → Override → Rows
put_override r o = record r {
  overrides = keep (λ p. not (same_string o.locale o.key p)) r.overrides ++ o ∷ [];
}

-- DeleteOverride
unfoldable pub delete_override : Rows → String → String → Rows
delete_override r locale key = record r {
  overrides = keep (λ o. not (same_string locale key o)) r.overrides;
}

-- LocaleOverrides
unfoldable pub locale_overrides : Rows → String → List Override
locale_overrides r locale = keep (λ o. str_eq o.locale locale) r.overrides

abbrev count_one : Dict ℕ → String → Dict ℕ
count_one d l = elim (lookup d l) [ none ↦ assign d l 1 | some n ↦ assign d l (suc n) ]

unfoldable pub count_in : Dict ℕ → List Override → Dict ℕ
count_in d [] = d
count_in d (o ∷ os) =
    let counted = count_in (count_one d o.locale) os in
    let skipped = count_in d os in if str_eq o.value "" then skipped else counted

-- TranslatedCounts
unfoldable pub translated_counts : Rows → Dict ℕ
unfolding count_in
translated_counts r = count_in [] r.overrides

abbrev newer : Release → Option Release → Release
newer r none = r
newer r (some s) = if ltb r.version s.version then s else r

unfoldable pub latest_of : List Release → Option Release
latest_of [] = none
latest_of (r ∷ rs) = some (newer r (latest_of rs))

-- LatestRelease: ORDER BY version DESC, the first row
unfoldable pub latest_release : Rows → Option Release
unfolding latest_of
latest_release r = latest_of r.releases

unfoldable pub insert_newest : Release → List Release → List Release
insert_newest x [] = x ∷ []
insert_newest x (y ∷ ys) =
    let rest = insert_newest x ys in if ltb x.version y.version then y ∷ rest else x ∷ y ∷ ys

unfoldable newest_first : List Release → List Release
unfolding insert_newest
newest_first [] = []
newest_first (r ∷ rs) = insert_newest r (newest_first rs)

-- ListReleases
unfoldable pub list_releases : Rows → List Release
unfolding newest_first
list_releases r = newest_first r.releases

abbrev pub is_bundle : String → ℕ → Bundle → Bool
is_bundle locale version b = str_eq b.locale locale && b.version == version

unfoldable pub find_bundle : List Bundle → String → ℕ → Option Bundle
find_bundle [] locale version = none
find_bundle (b ∷ bs) locale version =
    let rest = find_bundle bs locale version in if is_bundle locale version b then some b else rest

-- Bundle
unfoldable pub bundle_at : Rows → String → ℕ → Option Bundle
unfolding find_bundle
bundle_at r locale version = find_bundle r.bundles locale version

-- ReleaseBundles
unfoldable pub release_bundles : Rows → ℕ → List Bundle
release_bundles r version = sort_by (λ b. b.locale) (keep (λ b. b.version == version) r.bundles)

-- ReleaseLocales
unfoldable pub release_locales : Rows → ℕ → List String
release_locales r version =
    map (λ b. b.locale) (sort_by (λ b. b.locale) (keep (λ b. b.version == version) r.bundles))

unfoldable pub is_taken : List Bundle → Bundle → Bool
is_taken rows b = any (is_bundle b.locale b.version) rows

-- The rows after the bundles, one by one, none when a primary key is taken.
unfoldable pub insert_bundles : List Bundle → List Bundle → Option (List Bundle)
unfolding is_taken
insert_bundles rows [] = some rows
insert_bundles rows (b ∷ bs) =
    let later = insert_bundles (rows ++ b ∷ []) bs in if is_taken rows b then none else later

-- CreateRelease, with whether the transaction commits
unfoldable pub create_release : Rows → Release → List Bundle → Bool × Rows
unfolding insert_bundles
create_release r rel new =
    if any (λ s. str_eq s.id rel.id) r.releases
    then (false, r)
    else elim (insert_bundles r.bundles new) [
      | none ↦ (false, r)
      | some bundles ↦ (true, record r { releases = r.releases ++ rel ∷ []; bundles = bundles })
    ]
