-- ===== src/I18n/Catalog.antt =====
-- backend/internal/i18n/catalog.go: the keys of a project, their text per locale, and what text a locale
-- shows for a key. The embedded files are what load is given, each with the strings that it decodes to.
pub mod Resolve
pub mod Keys
use sild.Common.{
  ℕ, String, List, [], ◌∷◌, Bool, true, false, not, ◌&&◌, Option, none, some, str_eq, map, contains,
  if◌then◌else◌, Dict, lookup, assign, dict_keys, sort_texts,
}
use sild.I18n.{source_locale, normalize, namespace}

pub record Catalog : Type 0 where
  pub by_locale : Dict (Dict String)
  pub locales : List String
  pub keys : List String

infixl 5 ◌>>=◌
abbrev ◌>>=◌ {ℓ κ} : {A : Type ℓ} {B : Type κ} → Option A → (A → Option B) → Option B
none >>= f = none
some a >>= f = f a

-- The loop of load over the files, none for a file that does not decode.
unfoldable pub read_files : List (String × Option (Dict String)) → Option (Dict (Dict String))
read_files [] = some []
read_files ((locale, none) ∷ rest) = none
read_files ((locale, some strs) ∷ rest) = do later ← read_files rest; some ((locale, strs) ∷ later)

-- load
unfoldable pub load : List (String × Option (Dict String)) → Option Catalog
load files = do
  by_locale ← read_files files
  sources ← lookup by_locale source_locale
  some (record {
    by_locale = by_locale;
    locales = sort_texts (dict_keys by_locale);
    keys = sort_texts (dict_keys sources);
  })

-- NewCatalog
unfoldable pub new_catalog : Dict String → Catalog
new_catalog sources = record {
  by_locale = (source_locale, sources) ∷ [];
  locales = source_locale ∷ [];
  keys = sort_texts (dict_keys sources);
}

-- m[locale][key], with whether it is there
unfoldable pub text_at : Dict (Dict String) → String → String → Option String
text_at d locale key = elim (lookup d locale) [ none ↦ none | some strs ↦ lookup strs key ]

unfoldable pub text_or_empty : Option String → String
text_or_empty none = ""
text_or_empty (some t) = t

unfoldable pub is_there {ℓ} : {A : Type ℓ} → Option A → Bool
is_there none = false
is_there (some a) = true

-- Source
unfoldable pub source : Catalog → String → String
source c key = text_or_empty (text_at c.by_locale source_locale key)

-- Declared
unfoldable pub declared : Catalog → String → Bool
declared c key = is_there (text_at c.by_locale source_locale key)

-- Default
unfoldable pub default : Catalog → String → String → Option String
default c locale key = text_at c.by_locale (normalize locale) key

-- A text that is there and not empty, and otherwise the next one.
unfoldable pub filled_or : Option String → Option String → Option String
filled_or none next = next
filled_or (some t) next = if str_eq t "" then next else some t

-- The loop of Resolve over the locales.
unfoldable pub first_text : Catalog → Dict (Dict String) → List String → String → Option String
unfolding filled_or
first_text c ov [] key = none
first_text c ov (l ∷ ls) key =
    let rest = first_text c ov ls key in
    if str_eq l "" then rest else filled_or (text_at ov l key) (filled_or (default c l key) rest)

-- Resolve
unfoldable pub resolve : Catalog → Dict (Dict String) → String → String → String → String
resolve c ov locale fallback key =
    elim (first_text c ov (normalize locale ∷ normalize fallback ∷ source_locale ∷ []) key) [
      | none ↦ key
      | some t ↦ t
    ]

-- Bundle
unfoldable pub bundle : Catalog → Dict (Dict String) → String → String → Dict String
bundle c ov locale fallback = map (λ k. (k, resolve c ov locale fallback k)) c.keys

-- The loop of Namespaces; later keys come first in what it collects.
unfoldable pub collect : List String → List String → List String
collect seen [] = seen
collect seen (k ∷ ks) =
    let ns = namespace k in
    let with_ = collect (ns ∷ seen) ks in
    let without = collect seen ks in
    if not (str_eq ns "") && not (contains seen ns) then with_ else without

-- Namespaces
unfoldable pub namespaces : Catalog → List String
unfolding collect
namespaces c = sort_texts (collect [] c.keys)
