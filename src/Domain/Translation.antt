-- ===== src/Domain/Translation.antt =====
-- Translation projects: backend/internal/domain/translation.go. The state is the rows of one tenant and
-- one project; queries do not fail, and the platform's catalogue is an argument.
pub mod Releases
pub mod Editing
pub mod Listing
pub mod Keeps
pub mod Accepted
pub mod Steps
pub mod Commits
pub mod Rollback
pub mod Published
pub mod Succeeded
pub mod Live
pub mod Manifests
pub mod Runs
pub mod Reviews
pub mod Drafts
use Prim.Native.Nat.{min}
use Prim.Native.String.{len}
use sild.Common.{
  ℕ, suc, ◌*◌, ◌/◌, String, List, [], ◌∷◌, ◌++◌, Bool, true, false, not, ◌&&◌, ◌||◌, Option, none,
  some, str_eq, contains, length, leb, ◌==◌, is_empty, if◌then◌else◌, Dict, lookup, assign,
  sort_texts, trim_space, to_lower, each_char,
}
use sild.Models.Rbac.{scope_all}
use sild.I18n.{platform_project, source_locale, normalize, valid_language}
use sild.I18n.Catalog.{Catalog, new_catalog, namespaces}
use sild.Store.Translations.{
  Project, Release, Rows, save_project, project_locales, delete_project, translated_counts,
  latest_release,
}

pub data Refusal : Type 0 where
  not_found : Refusal
  invalid : String → Refusal
  -- A primary key of the write is taken.
  taken : Refusal

pub data Answer {ℓ} (A : Type ℓ) : Type ℓ where
  ok : A → Answer A
  refused : Refusal → Answer A

-- A step that only reads, and what follows it; a refusal ends the call.
abbrev pub with_ok {ℓ κ} :
    {A : Type ℓ} {B : Type κ} → Rows → Answer A → (A → Rows × Answer B) → Rows × Answer B
with_ok r (ok a) f = f a
with_ok r (refused e) f = (r, refused e)

-- What a check of the arguments refuses, none for nothing.
abbrev pub checked {ℓ} : {A : Type ℓ} → Rows → Option String → Rows × Answer A → Rows × Answer A
checked r none next = next
checked r (some why) next = (r, refused (invalid why))

-- The answer to a transaction: of the rows after it, when it commits.
abbrev pub stored {ℓ} : {A : Type ℓ} → (Rows → A) → Bool × Rows → Rows × Answer A
stored f (false, r) = (r, refused taken)
stored f (true, r) = (r, ok (f r))

-- TranslationProjectView
pub record ProjectView : Type 0 where
  pub slug : String
  pub name : String
  pub platform : Bool
  pub fallback_locale : String
  pub auto_publish : Bool
  pub locales : List String
  pub available_locales : List String
  pub current_version : Option ℕ
  pub keys : ℕ
  pub completion : Dict ℕ
  pub namespaces_ : List String

-- catalogFor
unfoldable pub catalog_for : Catalog → String → Rows → Catalog
catalog_for shipped project r =
    if str_eq project platform_project then shipped else new_catalog r.keys

abbrev pub count_or_zero : Option ℕ → ℕ
count_or_zero none = 0
count_or_zero (some n) = n

-- The loop of completion.
unfoldable pub completion_of : Dict ℕ → List String → Dict ℕ → ℕ → List String → Dict ℕ
completion_of out shipped counts total [] = out
completion_of out shipped counts total (l ∷ ls) =
    let n =
      if total == 0 || contains shipped l
      then 100
      else min 100 (count_or_zero (lookup counts l) * 100 / total) in
    completion_of (assign out l n) shipped counts total ls

-- completion
unfoldable pub completion : Rows → Catalog → List String → Dict ℕ
unfolding completion_of
completion r cat locales =
    completion_of [] cat.locales (translated_counts r) (length cat.keys) locales

abbrev pub version_of : Option Release → Option ℕ
version_of none = none
version_of (some rel) = some rel.version

abbrev pub if_named : String → String → String
if_named name otherwise_ = if str_eq name "" then otherwise_ else name

-- The locales of projectView.
unfoldable pub view_locales : Catalog → String → Rows → List String
view_locales shipped project r =
    let default = if str_eq project platform_project then shipped.locales else source_locale ∷ [] in
    elim r.project [
      | none ↦ default
      | some p ↦ if is_empty (project_locales r) then default else project_locales r
    ]

abbrev pub view_fallback : Rows → String
view_fallback r = elim r.project [ none ↦ source_locale | some p ↦ p.fallback_locale ]

abbrev pub view_auto : Rows → Bool
view_auto r = elim r.project [ none ↦ false | some p ↦ p.auto_publish ]

abbrev pub view_name : String → Rows → String
view_name project r =
    let default = if str_eq project platform_project then "Sild" else "" in
    elim r.project [ none ↦ default | some p ↦ if_named p.name default ]

-- projectView, for the project's row in the table
unfoldable pub project_view : Catalog → String → Rows → ProjectView
project_view shipped project r =
    let cat = catalog_for shipped project r in
    let locales = view_locales shipped project r in
    record {
      slug = project;
      name = view_name project r;
      platform = str_eq project platform_project;
      fallback_locale = view_fallback r;
      auto_publish = view_auto r;
      locales = locales;
      available_locales = shipped.locales;
      current_version = version_of (latest_release r);
      keys = length cat.keys;
      completion = completion r cat locales;
      namespaces_ = namespaces cat;
    }

abbrev pub exists : String → Rows → Bool
exists project r = elim r.project [ none ↦ str_eq project platform_project | some p ↦ true ]

-- TranslationProject
unfoldable pub translation_project : Catalog → String → Rows → Answer ProjectView
translation_project shipped project r =
    if exists project r then ok (project_view shipped project r) else refused not_found

-- ListTranslationProjects, for the tenant's rows per project in the order of their slugs; r is the
-- platform project's.
unfoldable pub list_own : Catalog → List (String × Rows) → List ProjectView
list_own shipped [] = []
list_own shipped ((slug, r) ∷ rest) =
    let later = list_own shipped rest in
    if str_eq slug platform_project then later else project_view shipped slug r ∷ later

unfoldable pub list_translation_projects : Catalog → Rows → List (String × Rows) → List ProjectView
unfolding list_own
list_translation_projects shipped r own =
    project_view shipped platform_project r ∷ list_own shipped own

abbrev pub is_slug_char : ℕ → Bool
is_slug_char r = (leb 97 r && leb r 122) || ((leb 48 r && leb r 57) || r == 45)

-- validProjectSlug
unfoldable pub valid_project_slug : String → Bool
valid_project_slug slug = leb 2 (len slug) && (leb (len slug) 64 && each_char is_slug_char slug)

-- What CreateTranslationProject refuses a cleaned slug and name for, none for nothing.
unfoldable pub create_refusal : String → String → Rows → Option String
create_refusal slug name r =
    if not (valid_project_slug slug)
    then some "a project id is 2-64 characters of a-z, 0-9 and dashes"
    else if str_eq slug platform_project || str_eq slug scope_all
    then some "that project id is reserved"
    else if str_eq name ""
    then some "name is required"
    else elim r.project [ none ↦ none | some p ↦ some "a project with that id already exists" ]

-- CreateTranslationProject, on the rows of the project that the cleaned slug names
unfoldable pub create_translation_project :
    Catalog → String → String → Rows → Rows × Answer ProjectView
create_translation_project shipped given given_name r =
    let slug = to_lower (trim_space given) in
    let name = trim_space given_name in
    checked r (create_refusal slug name r) (
      stored (project_view shipped slug) (
        save_project r
          (record { name = name; fallback_locale = source_locale; auto_publish = false })
          (source_locale ∷ [])))

-- DeleteTranslationProject
unfoldable pub delete_translation_project : Catalog → String → Rows → Rows × Answer (Unit {0})
delete_translation_project shipped project r =
    if str_eq project platform_project
    then (r, refused (invalid "the Sild project cannot be deleted"))
    else with_ok r (translation_project shipped project r) (λ proj. (delete_project r, ok tt))

-- The loop of SaveTranslationProject over the locales, none for one that is no language tag.
unfoldable pub clean_locales : List String → List String → Option (List String)
clean_locales clean [] = some clean
clean_locales clean (l ∷ ls) =
    let n = normalize l in
    let added = clean_locales (clean ++ n ∷ []) ls in
    let same = clean_locales clean ls in
    if not (valid_language n) || str_eq n scope_all
    then none
    else if contains clean n
    then same
    else added

-- The fallback and the locales that SaveTranslationProject accepts, cleaned and sorted.
unfoldable pub accepted_locales : String → List String → Answer (List String)
unfolding clean_locales
accepted_locales fallback locales =
    if str_eq fallback ""
    then refused (invalid "fallback_locale is required")
    else elim (clean_locales [] locales) [
      | none ↦ refused (invalid "locale must be a language tag")
      | some clean ↦
          if contains clean fallback
          then ok (sort_texts clean)
          else refused (invalid "the fallback language must be one of the enabled languages")
    ]

-- SaveTranslationProject
unfoldable pub save_translation_project :
    Catalog → String → String → String → Bool → List String → Rows → Rows × Answer (Unit {0})
save_translation_project shipped project name given auto_publish locales r =
    let fallback = normalize given in
    with_ok r (translation_project shipped project r) (λ cur.
      with_ok r (accepted_locales fallback locales) (λ clean.
        stored (λ s. tt)
          (save_project r
            (record {
              name = if cur.platform then "" else if_named (trim_space name) cur.name;
              fallback_locale = fallback;
              auto_publish = auto_publish;
            })
            clean)))
