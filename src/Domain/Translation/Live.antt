-- ===== src/Domain/Translation/Live.antt =====
-- Publishing and reading composed: backend/internal/domain/translation.go.
use sild.Common.{
  ℕ, suc, String, List, [], ◌∷◌, ◌++◌, true, false, none, some, str_eq, contains, ◌≡◌, refl, ap,
  ◌∙◌, Dict, lookup, assign, lookup-assign, trim_space,
}
use sild.I18n.{normalize, valid_language}
use sild.I18n.Catalog.{Catalog, text_at, source, resolve}
use sild.I18n.Catalog.Keys.{IsComplete}
use sild.I18n.Catalog.Resolve.{resolve_override, resolve_filled}
use mathlib.Core.Path.{subst}
use sild.I18n.Tags.{normalize_valid, valid_named, trimmed_named}
use sild.Store.Translations.{Override, Rows, latest_release, put_override}
use sild.Store.Translations.Versions.{IsReleased, top}
use sild.Domain.Translation.{
  ok, catalog_for, translation_project, project_view, view_locales, view_fallback, view_auto,
}
use sild.Domain.Translation.Releases.{ReleaseView, or_empty, override_map, publish_translations}
use sild.Domain.Translation.Editing.{
  Stamp, publish_automatically, override_refusal, put_translation_override,
}
use sild.Domain.Translation.Succeeded.{
  publish_there, auto_published, with_ok_done, checked_done, project_read, override_accepted,
}
use sild.Domain.Translation.Published.{fetched, fetched_text, published_version}

-- The text that the drafts of a project give a key in a locale.
abbrev pub draft_text : Catalog → String → Rows → String → String → String
draft_text shipped project r locale key =
    resolve (catalog_for shipped project r) (override_map [] r.overrides) locale (view_fallback r)
      key

-- After a publication that succeeds, a client that fetches an enabled language at the version that was
-- answered reads for every declared key what the drafts give it, and never an empty text.
pub publication_live :
    (shipped : Catalog) (project by_ id : String) (now : ℕ) (r s : Rows) (v : ReleaseView)
    (locale key : String)
    → IsReleased r
    → publish_translations shipped project by_ id now r ≡ (s, ok v)
    → valid_language locale ≡ true
    → contains (view_locales shipped project r) locale ≡ true
    → contains (catalog_for shipped project r).keys key ≡ true
    → str_eq key "" ≡ false
    → (fetched s locale v.version key ≡ some (draft_text shipped project r locale key))
      × (str_eq (draft_text shipped project r locale key) "" ≡ false)
unfolding project_view
publication_live shipped project by_ id now r s v locale key sound h valid enabled key_there named =
    (
      fetched_text shipped (project_view shipped project r) by_ id now r s v sound refl
          (publish_there shipped project by_ id now r s v h) locale key valid enabled key_there,
      resolve_filled (catalog_for shipped project r) (override_map [] r.overrides) locale
          (view_fallback r) key named,
    )

override_map-append :
    (ov : Dict (Dict String)) (xs ys : List Override)
    → override_map ov (xs ++ ys) ≡ override_map (override_map ov xs) ys
unfolding override_map
override_map-append ov [] ys = refl
override_map-append ov (o ∷ xs) ys =
    override_map-append (assign ov o.locale (assign (or_empty (lookup ov o.locale)) o.key o.value))
      xs ys

text_at-assign :
    (ov : Dict (Dict String)) (locale key value : String)
    → text_at (assign ov locale (assign (or_empty (lookup ov locale)) key value)) locale key
      ≡ some value
unfolding text_at
text_at-assign ov locale key value =
    rw (lookup-assign ov locale (assign (or_empty (lookup ov locale)) key value), text_at)
      (lookup-assign (or_empty (lookup ov locale)) key value)

-- The last row of a locale and a key is the one that the map has.
last_override :
    (ov : Dict (Dict String)) (xs : List Override) (o : Override)
    → text_at (override_map ov (xs ++ o ∷ [])) o.locale o.key ≡ some o.value
unfolding override_map
last_override ov xs o =
    rw (override_map-append ov xs (o ∷ []))
      (text_at-assign (override_map ov xs) o.locale o.key o.value)

-- The row that PutTranslationOverride writes.
abbrev pub row_put :
    Catalog → (String → String) → String → String → String → String → Rows → Override
row_put shipped hash project given key value r = record {
  locale = normalize given;
  key = key;
  value = value;
  source_hash = hash (source (catalog_for shipped project r) key);
}

module _ (shipped : Catalog) (hash : String → String) (project given key value : String)
    (stamp : Stamp) (r s : Rows) where
  put_done :
      put_translation_override shipped hash project given key value true stamp r ≡ (s, ok tt)
      → (override_refusal
            (catalog_for shipped project r)
            (project_view shipped project r)
            (normalize given)
            key
            value
          ≡ none)
        × (publish_automatically shipped
              (project_view shipped project r)
              stamp
              (put_override r (row_put shipped hash project given key value r))
            ≡ (s, ok tt))
  unfolding put_translation_override
  put_done h =
      let (proj, read, h1) = with_ok_done r s (translation_project shipped project r) _ tt h in
      subst
        (λ q.
          (override_refusal (catalog_for shipped project r) q (normalize given) key value ≡ none)
          × (publish_automatically shipped q stamp
                (put_override r (row_put shipped hash project given key value r))
              ≡ (s, ok tt)))
        (project_read shipped project r proj read) (checked_done r s _ _ tt h1)

  draft_written :
      valid_language (normalize given) ≡ true
      → str_eq (trim_space value) "" ≡ false
      → draft_text shipped project
          (put_override r (row_put shipped hash project given key value r))
          (normalize given)
          key
        ≡ value
  unfolding put_override
  draft_written valid filled =
      resolve_override _ _ (normalize given) _ key value
        (rw (normalize_valid (normalize given) valid) (valid_named (normalize given) valid))
        (rw (normalize_valid (normalize given) valid)
          (last_override [] _ (row_put shipped hash project given key value r)))
        (trimmed_named value filled)

-- An override that PutTranslationOverride accepts with the right to publish, for a tag that is a language
-- tag, in a project that publishes on its own, whose keys are those of its catalogue and whose bundles all
-- belong to releases, is what a client reads for the key in that language at the next version.
pub override_live :
    (shipped : Catalog) (hash : String → String) (project given key value : String) (stamp : Stamp)
    (r s : Rows)
    → IsComplete (catalog_for shipped project r)
    → IsReleased r
    → view_auto r ≡ true
    → valid_language (normalize given) ≡ true
    → put_translation_override shipped hash project given key value true stamp r ≡ (s, ok tt)
    → fetched s (normalize given) (suc (top (latest_release r))) key ≡ some value
unfolding put_override latest_release project_view catalog_for
override_live shipped hash project given key value stamp r s complete sound on valid h =
    let (free, auto) = put_done shipped hash project given key value stamp r s h in
    let (enabled, key_declared, filled) =
      override_accepted (catalog_for shipped project r) (project_view shipped project r)
        (normalize given) key value free in
    let (v, published) =
      auto_published shipped (project_view shipped project r) stamp
        (put_override r (row_put shipped hash project given key value r)) s on auto in
    let r' = put_override r (row_put shipped hash project given key value r) in
    let sound' : IsReleased r' = record { released = sound.released } in
    subst (λ n. fetched s (normalize given) n key ≡ some value)
      (published_version shipped (project_view shipped project r) "" stamp.id stamp.now r' s v
        sound' refl published)
      (fetched_text shipped (project_view shipped project r) "" stamp.id stamp.now r' s v sound'
          refl published (normalize given) key valid enabled (complete.listed key ∙ key_declared)
        ∙ ap some (draft_written shipped hash project given key value stamp r s valid filled))
