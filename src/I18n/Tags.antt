-- ===== src/I18n/Tags.antt =====
-- Normalized language tags: backend/internal/i18n/catalog.go.
use Prim.Native.String.{[], ◌∷◌}
use sild.Common.{
  String, true, false, ◌≡◌, refl, sym, str_eq, str_eq_iff, true≢false, Bool-cases, inl, inr, arith,
  trim_left, trim_right, trim_space, is_blank, lower_char, to_lower, cut_at, each_char,
  if◌then◌else◌,
}
use sild.I18n.{is_separator, subtag, normalize, is_lower, valid_language}

-- A text of lower case letters has nothing to trim, to cut or to change.
trim_left_lower : (s : String) → each_char is_lower s ≡ true → trim_left s ≡ s
unfolding trim_left each_char
trim_left_lower [] h = refl
trim_left_lower (c ∷ s) h = ground arith

trim_right_lower : (s : String) → each_char is_lower s ≡ true → trim_right s ≡ s
unfolding trim_right each_char
trim_right_lower [] h = refl
trim_right_lower (c ∷ s) h = ground (arith, trim_right_lower s)

cut_lower : (s : String) → each_char is_lower s ≡ true → (cut_at is_separator s).0 ≡ s
unfolding cut_at each_char
cut_lower [] h = refl
cut_lower (c ∷ s) h = ground (arith, cut_lower s)

to_lower_lower : (s : String) → each_char is_lower s ≡ true → to_lower s ≡ s
unfolding to_lower lower_char each_char
to_lower_lower [] h = refl
to_lower_lower (c ∷ s) h = ground (arith, to_lower_lower s)

subtag_lower : (s : String) → each_char is_lower s ≡ true → subtag s ≡ s
unfolding subtag each_char
subtag_lower [] h = refl
subtag_lower (c ∷ s) h = ground (arith, cut_lower s)

trim_space_lower : (s : String) → each_char is_lower s ≡ true → trim_space s ≡ s
unfolding trim_space
trim_space_lower s h = rw (trim_left_lower s h) (trim_right_lower s h)

-- A language tag is its own normal form.
pub normalize_valid : (tag : String) → valid_language tag ≡ true → normalize tag ≡ tag
unfolding normalize valid_language
normalize_valid tag h = rw (trim_space_lower tag lower, subtag_lower tag lower) (blank_or tag lower)
  where
    lower : each_char is_lower tag ≡ true
    lower = ground arith

    blank_or :
        (s : String) → each_char is_lower s ≡ true → (if is_blank s then "" else to_lower s) ≡ s
    blank_or [] l = refl
    blank_or (c ∷ s) l = to_lower_lower (c ∷ s) l

-- A language tag, and a text that is not blank, are not empty.
pub valid_named : (tag : String) → valid_language tag ≡ true → str_eq tag "" ≡ false
unfolding valid_language
valid_named tag h = elim (Bool-cases (str_eq tag "")) [
  | inl e ↦ absurd (true≢false (sym (rw ((str_eq_iff tag "").0 e) at h)))
  | inr e ↦ e
]

pub trimmed_named : (s : String) → str_eq (trim_space s) "" ≡ false → str_eq s "" ≡ false
unfolding trim_space trim_left trim_right str_eq
trimmed_named s h = elim (Bool-cases (str_eq s "")) [
  | inl e ↦ absurd (true≢false (rw ((str_eq_iff s "").0 e) at h))
  | inr e ↦ e
]
