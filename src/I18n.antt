-- ===== src/I18n.antt =====
-- backend/internal/i18n/catalog.go: language tags and the names of keys. A tag is a text of characters;
-- lower case is that of ASCII letters.
pub mod Tags
pub mod Catalog
use Prim.Native.String.{[], ◌∷◌, len}
use Prim.Native.Char.{code}
use sild.Common.{
  ℕ, String, Bool, true, false, ◌&&◌, ◌||◌, leb, ltb, ◌==◌, if◌then◌else◌, trim_space, is_blank,
  to_lower, cut_at, each_char,
}

-- PlatformProject
abbrev pub platform_project : String
platform_project = "sild"

-- SourceLocale
abbrev pub source_locale : String
source_locale = "en"

abbrev pub is_separator : ℕ → Bool
is_separator r = r == 45 || r == 95

abbrev pub is_dot : ℕ → Bool
is_dot r = r == 46

-- The language subtag: what stands before the first separator, if that is not the first character.
unfoldable pub subtag : String → String
unfolding cut_at
subtag [] = []
subtag (c ∷ s) = if is_separator (code c) then c ∷ s else c ∷ (cut_at is_separator s).0

-- Normalize
unfoldable pub normalize : String → String
unfolding subtag
normalize tag = let t = trim_space tag in if is_blank t then "" else to_lower (subtag t)

abbrev pub is_lower : ℕ → Bool
is_lower r = leb 97 r && leb r 122

-- ValidLanguage
unfoldable pub valid_language : String → Bool
valid_language tag = leb 2 (len tag) && (leb (len tag) 3 && each_char is_lower tag)

-- Namespace
unfoldable pub namespace : String → String
unfolding cut_at
namespace [] = []
namespace (c ∷ s) =
    let (before, after, found) = cut_at is_dot s in
    if is_dot (code c) then [] else if found then c ∷ before else []
