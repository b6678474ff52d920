-- ===== src/Domain/ExternalId.antt =====
-- backend/internal/domain/externalid.go: which external user ids may enter the system.
use Prim.Native.String.{len, [], ◌∷◌}
use Prim.Native.Char.{code}
use sild.Common.{
  ℕ, String, Bool, true, false, ◌&&◌, ◌||◌, Option, none, some, ltb, leb, ◌==◌, if◌then◌else◌,
}

abbrev max_external_user_id_bytes : ℕ
max_external_user_id_bytes = 128

pub data IdError : Type 0 where
  required too_long has_slash blank has_control : IdError

-- strings.ContainsRune, for a rune that passes the test
unfoldable pub some_rune : (ℕ → Bool) → String → Bool
some_rune f [] = false
some_rune f (c ∷ s) = f (code c) || some_rune f s

abbrev pub is_slash : ℕ → Bool
is_slash r = r == 47

-- unicode.IsSpace
abbrev pub is_space : ℕ → Bool
is_space r =
    (leb 9 r && leb r 13)
    || (r == 32
        || (r == 133
            || (r == 160
                || (r == 5760
                    || ((leb 8192 r && leb r 8202)
                        || (r == 8232
                            || (r == 8233 || (r == 8239 || (r == 8287 || r == 12288)))))))))

abbrev pub is_control : ℕ → Bool
is_control r = ltb r 32 || r == 127

-- strings.TrimSpace leaves nothing exactly of a text of spaces.
unfoldable pub all_space : String → Bool
all_space [] = true
all_space (c ∷ s) = is_space (code c) && all_space s

-- ValidateExternalUserID. A text of the model is always valid UTF-8.
unfoldable pub external_user_id_error : String → Option IdError
external_user_id_error id =
    if len id == 0
    then some required
    else if ltb max_external_user_id_bytes (len id)
    then some too_long
    else if some_rune is_slash id
    then some has_slash
    else if all_space id
    then some blank
    else if some_rune is_control id
    then some has_control
    else none
