-- ===== src/Examples/Shop.antt =====
-- A translation project of a tenant, and what its calls compute with.
use sild.Common.{
  String, [], ◌∷◌, true, some, str_eq, lookup, assign, contains, text_le, insert_by, sort_by,
  sort_texts, keep, any, each_char, to_lower, lower_char, cut_at, trim_space, trim_left, trim_right,
  dict_keys, erase,
}
use sild.I18n.{valid_language, normalize, subtag}
use sild.I18n.Catalog.{
  Catalog, new_catalog, source, declared, text_at, text_or_empty, is_there, resolve, first_text,
  filled_or, default, bundle,
}
use sild.Store.Translations.{
  Override, Release, Bundle, Rows, save_project, put_key, put_override, create_release,
  insert_bundles, is_taken, release_bundles, latest_release, latest_of, bundle_at, find_bundle,
  project_locales, locale_overrides, release_locales,
}
use sild.Domain.Translation.{
  view_locales, catalog_for, project_view, translation_project, create_translation_project,
  create_refusal, valid_project_slug, save_translation_project, accepted_locales, clean_locales,
}
use sild.Domain.Translation.Releases.{
  ReleaseView, rollback_translations, publish_translations, publish, commit_release, next_version,
  bundles_of, override_map, translation_bundle, translation_manifest, manifest_of, at_version,
  resolve_text, from_release, first_published, published_text,
}
use sild.Domain.Translation.Editing.{
  put_translation_override, declare_translation_key, override_refusal, own_project, declare_refusal,
  valid_key, publish_automatically,
}
use sild.Domain.Translation.Listing.{view_key, key_view, by_key, state_of}
use sild.Domain.Translation.Steps.{call, calls}

abbrev pub shipped : Catalog
shipped = record {
  by_locale = ("en", ("k", "Hello") ∷ []) ∷ [];
  locales = "en" ∷ [];
  keys = "k" ∷ [];
}

abbrev pub same_text : String → String
same_text s = s

abbrev pub german : Bundle
german = record { locale = "de"; version = 1; strings = ("a.title", "Alt") ∷ [] }

abbrev pub english : Bundle
english = record { locale = "en"; version = 1; strings = ("a.title", "Title") ∷ [] }

abbrev pub first_release : Release
first_release = record { id = "r1"; version = 1; published_by = "u"; created_at = 10 }

abbrev pub written : Override
written = record { locale = "de"; key = "a.title"; value = "Titel"; source_hash = "Title" }

abbrev pub shop : Rows
shop = record {
  project = some (record { name = "Shop"; fallback_locale = "en"; auto_publish = true });
  locales = "de" ∷ "en" ∷ [];
  keys = ("a.title", "Title") ∷ [];
  overrides = written ∷ [];
  releases = first_release ∷ [];
  bundles = german ∷ english ∷ [];
}

abbrev pub second_release : Release
second_release = record { id = "r2"; version = 2; published_by = "u"; created_at = 20 }

abbrev pub rolled_back : Rows
rolled_back = record shop {
  releases = first_release ∷ second_release ∷ [];
  bundles =
      german
      ∷ english
      ∷ record { locale = "de"; version = 2; strings = ("a.title", "Alt") ∷ [] }
      ∷ record { locale = "en"; version = 2; strings = ("a.title", "Title") ∷ [] }
      ∷ [];
}

abbrev pub second_view : ReleaseView
second_view = record { id = "r2"; version = 2; published_by = "u"; locales = "de" ∷ "en" ∷ [] }

-- To unfold this name is to unfold what the calls compute with.
unfoldable pub runs : Unit {0}
unfolding str_eq lookup assign contains text_le insert_by sort_by sort_texts keep any each_char
    to_lower lower_char cut_at trim_space trim_left trim_right dict_keys erase valid_language
    normalize subtag new_catalog source declared text_at text_or_empty is_there resolve first_text
    filled_or default bundle save_project put_key put_override create_release insert_bundles
    is_taken release_bundles latest_release latest_of bundle_at find_bundle project_locales
    locale_overrides release_locales view_locales catalog_for project_view translation_project
    create_translation_project create_refusal valid_project_slug save_translation_project
    accepted_locales clean_locales rollback_translations publish_translations publish commit_release
    next_version bundles_of override_map translation_bundle translation_manifest manifest_of
    at_version resolve_text from_release first_published published_text put_translation_override
    declare_translation_key override_refusal own_project declare_refusal valid_key
    publish_automatically view_key key_view by_key state_of call calls
runs = tt
