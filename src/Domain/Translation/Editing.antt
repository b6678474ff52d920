-- ===== src/Domain/Translation/Editing.antt =====
-- Overrides and keys: backend/internal/domain/translation.go. A write that publishes is given the id and
-- the time of the release; hash is sourceHash, SHA-256 in the code.
use Prim.Native.String.{len}
use sild.Common.{
  ℕ, String, Bool, true, false, not, ◌&&◌, ◌||◌, Option, none, some, str_eq, contains, leb, ◌==◌,
  if◌then◌else◌, trim_space, each_char,
}
use sild.I18n.{normalize}
use sild.I18n.Catalog.{Catalog, source, declared}
use sild.Store.Translations.{Rows, put_key, delete_key, put_override, delete_override}
use sild.Domain.Translation.{
  invalid, Answer, ok, refused, with_ok, checked, ProjectView, catalog_for, translation_project,
}
use sild.Domain.Translation.Releases.{publish}

-- The id and the time that a release gets when the call publishes.
pub record Stamp : Type 0 where
  pub id : String
  pub now : ℕ

abbrev pub only_error {ℓ} : {A : Type ℓ} → Rows × Answer A → Rows × Answer (Unit {0})
only_error (r, ok v) = (r, ok tt)
only_error (r, refused e) = (r, refused e)

-- autoPublish
unfoldable pub publish_automatically :
    Catalog → ProjectView → Stamp → Rows → Rows × Answer (Unit {0})
publish_automatically shipped proj stamp r =
    if proj.auto_publish
    then only_error (publish shipped proj "" stamp.id stamp.now r)
    else (r, ok tt)

abbrev pub publish_if : Bool → Catalog → ProjectView → Stamp → Rows → Rows × Answer (Unit {0})
publish_if false shipped proj stamp r = (r, ok tt)
publish_if true shipped proj stamp r = publish_automatically shipped proj stamp r

-- What PutTranslationOverride refuses, none for nothing.
unfoldable pub override_refusal : Catalog → ProjectView → String → String → String → Option String
override_refusal cat proj locale key value =
    if not (contains proj.locales locale)
    then some "that language is not enabled for this project"
    else if not (declared cat key)
    then some "unknown key"
    else if str_eq (trim_space value) ""
    then some "value is required"
    else none

-- PutTranslationOverride
unfoldable pub put_translation_override :
    Catalog
    → (String → String)
    → String
    → String
    → String
    → String
    → Bool
    → Stamp
    → Rows
    → Rows × Answer (Unit {0})
put_translation_override shipped hash project given key value may_publish stamp r =
    let locale = normalize given in
    let cat = catalog_for shipped project r in
    with_ok r (translation_project shipped project r) (λ proj.
      checked r (override_refusal cat proj locale key value) (
        publish_if may_publish shipped proj stamp (
          put_override r (record {
            locale = locale;
            key = key;
            value = value;
            source_hash = hash (source cat key);
          }))))

-- DeleteTranslationOverride
unfoldable pub delete_translation_override :
    Catalog → String → String → String → Bool → Stamp → Rows → Rows × Answer (Unit {0})
delete_translation_override shipped project given key may_publish stamp r =
    with_ok r (translation_project shipped project r)
      (λ proj. publish_if may_publish shipped proj stamp (delete_override r (normalize given) key))

-- ownProject
unfoldable pub own_project : Catalog → String → Rows → Answer ProjectView
own_project shipped project r = elim (translation_project shipped project r) [
  | refused e ↦ refused e
  | ok proj ↦
      if proj.platform
      then refused (invalid "Sild's own keys are declared in its releases, not here")
      else ok proj
]

abbrev pub is_key_char : ℕ → Bool
is_key_char r =
    (leb 97 r && leb r 122)
    || ((leb 65 r && leb r 90) || ((leb 48 r && leb r 57) || (r == 46 || (r == 45 || r == 95))))

-- validKey
unfoldable pub valid_key : String → Bool
valid_key key = not (str_eq key "") && (leb (len key) 255 && each_char is_key_char key)

unfoldable pub declare_refusal : String → String → Option String
declare_refusal key source =
    if not (valid_key key)
    then some "a key is up to 255 characters of letters, digits, dots, dashes and underscores"
    else if str_eq source ""
    then some "source is required"
    else none

-- DeclareTranslationKey
unfoldable pub declare_translation_key :
    Catalog → String → String → String → Stamp → Rows → Rows × Answer (Unit {0})
declare_translation_key shipped project given given_source stamp r =
    let key = trim_space given in
    let source = trim_space given_source in
    with_ok r (own_project shipped project r) (λ proj.
      checked r (declare_refusal key source)
        (publish_automatically shipped proj stamp (put_key r key source)))

-- UndeclareTranslationKey
unfoldable pub undeclare_translation_key :
    Catalog → String → String → Stamp → Rows → Rows × Answer (Unit {0})
undeclare_translation_key shipped project key stamp r =
    with_ok r (own_project shipped project r)
      (λ proj. publish_automatically shipped proj stamp (delete_key r key))
