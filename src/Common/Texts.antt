-- ===== src/Common/Texts.antt =====
-- The functions of Go's strings, slices and unicode packages that the code uses on texts. Lower case is
-- that of ASCII letters; other letters are left as they are.
use Prim.Native.Nat.{ℕ, ◌-◌}
use Prim.Native.Char.{Char, code}
use Prim.Native.String.{String, [], ◌∷◌, char_at}
use mathlib.Core.Bool.{Bool, true, false, ◌&&◌, ◌||◌}
use sild.Common.Tests.{leb, ◌==◌, if◌then◌else◌}

-- unicode.IsSpace
abbrev pub is_space : ℕ → Bool
is_space r =
    (leb 9 r && leb r 13)
    || (r == 32
        || (r == 133
            || (r == 160
                || (r == 5760
                    || ((leb 8192 r && leb r 8202)
                        || (r == 8232
                            || (r == 8233 || (r == 8239 || (r == 8287 || r == 12288)))))))))

abbrev pub is_blank : String → Bool
is_blank [] = true
is_blank (c ∷ s) = false

unfoldable pub trim_left : String → String
trim_left [] = []
trim_left (c ∷ s) = let rest = trim_left s in if is_space (code c) then rest else c ∷ s

unfoldable pub trim_right : String → String
trim_right [] = []
trim_right (c ∷ s) =
    let rest = trim_right s in if is_space (code c) && is_blank rest then [] else c ∷ rest

-- strings.TrimSpace
unfoldable pub trim_space : String → String
unfolding trim_left trim_right
trim_space s = trim_right (trim_left s)

-- unicode.ToLower
unfoldable pub lower_char : Char → Char
lower_char c =
    if leb 65 (code c) && leb (code c) 90
    then char_at "abcdefghijklmnopqrstuvwxyz" (code c - 65)
    else c

-- strings.ToLower
unfoldable pub to_lower : String → String
unfolding lower_char
to_lower [] = []
to_lower (c ∷ s) = lower_char c ∷ to_lower s

-- Every character passes the test.
unfoldable pub each_char : (ℕ → Bool) → String → Bool
each_char f [] = true
each_char f (c ∷ s) = f (code c) && each_char f s

-- The part before the first character that passes the test, and the part behind it, with whether there
-- is one: strings.Cut at a separator of one character.
unfoldable pub cut_at : (ℕ → Bool) → String → String × String × Bool
cut_at f [] = ([], [], false)
cut_at f (c ∷ s) =
    let (a, b, found) = cut_at f s in if f (code c) then ([], s, true) else (c ∷ a, b, found)

-- strings.HasPrefix
unfoldable pub has_prefix : String → String → Bool
has_prefix s [] = true
has_prefix [] (d ∷ p) = false
has_prefix (c ∷ s) (d ∷ p) = code c == code d && has_prefix s p

-- strings.TrimPrefix, where the prefix is there
unfoldable pub drop_prefix : String → String → String
drop_prefix s [] = s
drop_prefix [] (d ∷ p) = []
drop_prefix (c ∷ s) (d ∷ p) = drop_prefix s p

-- strings.Contains
unfoldable pub includes : String → String → Bool
unfolding has_prefix
includes [] sub = is_blank sub
includes (c ∷ s) sub = has_prefix (c ∷ s) sub || includes s sub
