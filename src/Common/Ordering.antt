-- ===== src/Common/Ordering.antt =====
-- The byte order of texts is transitive and irreflexive.
use Prim.Native.Nat.{ℕ, Ordering, compare as compare_ℕ}
use Prim.Native.Char.{Char, code}
use Prim.Native.String.{String, [], ◌∷◌, compare, then}
use Prim.Native.String.compare
use text.Mathlib.Text.{is_lt}
use text.Mathlib.TextPositions.{compare_refl}
use mathlib.Core.Path.{◌≡◌, refl, sym, ap, ap₂, ◌∙◌}
use mathlib.Core.Bool.{Bool, true, false, ◌&&◌, ◌||◌}
use native.Mathlib.Omega.{arith}

abbrev is_eq : Ordering → Bool
is_eq Ordering.eq = true
is_eq _ = false

is_lt-then : (a b : Ordering) → is_lt (then a b) ≡ (is_lt a || (is_eq a && is_lt b))
is_lt-then Ordering.lt b = refl
is_lt-then Ordering.eq b = refl
is_lt-then Ordering.gt b = refl

unfoldable pub text_lt : String → String → Bool
text_lt s t = is_lt (compare s t)

text_lt-cons :
    (c d : Char) (s t : String)
    → text_lt (c ∷ s) (d ∷ t) ≡ (
        is_lt (compare_ℕ (code c) (code d)) || (is_eq (compare_ℕ (code c) (code d)) && text_lt s t))
unfolding text_lt
text_lt-cons c d s t =
    ap is_lt (compare.cons-cons c d s t) ∙ is_lt-then (compare_ℕ (code c) (code d)) (compare s t)

pub text_lt-nil : (s : String) → text_lt s [] ≡ false
unfolding text_lt
text_lt-nil [] = ap is_lt (compare_refl [])
text_lt-nil (c ∷ s) = ap is_lt (compare.cons-nil c s)

nil_less : (c : Char) (s : String) → text_lt [] (c ∷ s) ≡ true
unfolding text_lt
nil_less c s = ap is_lt (compare.nil-cons c s)

head_trans :
    (m n k : ℕ) (p q r : Bool)
    → (p ≡ true → q ≡ true → r ≡ true)
    → (is_lt (compare_ℕ m n) || (is_eq (compare_ℕ m n) && p)) ≡ true
    → (is_lt (compare_ℕ n k) || (is_eq (compare_ℕ n k) && q)) ≡ true
    → (is_lt (compare_ℕ m k) || (is_eq (compare_ℕ m k) && r)) ≡ true
head_trans m n k p q r f h j = ground arith

pub text_lt_trans : (s t u : String) → text_lt s t ≡ true → text_lt t u ≡ true → text_lt s u ≡ true
text_lt_trans [] t [] h j = absurd (ground (arith, text_lt-nil t))
text_lt_trans [] t (e ∷ u) h j = nil_less e u
text_lt_trans (c ∷ s) [] u h j = absurd (ground (arith, text_lt-nil (c ∷ s)))
text_lt_trans (c ∷ s) (d ∷ t) [] h j = absurd (ground (arith, text_lt-nil (d ∷ t)))
text_lt_trans (c ∷ s) (d ∷ t) (e ∷ u) h j =
    text_lt-cons c e s u
    ∙ head_trans (code c) (code d) (code e) (text_lt s t) (text_lt t u) (text_lt s u)
        (text_lt_trans s t u) (sym (text_lt-cons c d s t) ∙ h) (sym (text_lt-cons d e t u) ∙ j)

head_cotrans :
    (m n k : ℕ) (p q r : Bool)
    → (r ≡ true → (p || q) ≡ true)
    → (is_lt (compare_ℕ m k) || (is_eq (compare_ℕ m k) && r)) ≡ true
    → ((is_lt (compare_ℕ m n) || (is_eq (compare_ℕ m n) && p))
        || (is_lt (compare_ℕ n k) || (is_eq (compare_ℕ n k) && q)))
      ≡ true
head_cotrans m n k p q r f h = ground arith

-- A text between two, or before or behind both.
pub text_lt_cotrans : (s t u : String) → text_lt s u ≡ true → (text_lt s t || text_lt t u) ≡ true
text_lt_cotrans s t [] h = absurd (ground (arith, text_lt-nil s))
text_lt_cotrans [] [] (e ∷ u) h = ground (arith, nil_less e u)
text_lt_cotrans [] (d ∷ t) (e ∷ u) h = ground (arith, nil_less d t)
text_lt_cotrans (c ∷ s) [] (e ∷ u) h = ground (arith, nil_less e u)
text_lt_cotrans (c ∷ s) (d ∷ t) (e ∷ u) h =
    ap₂ (λ a b. a || b) (text_lt-cons c d s t) (text_lt-cons d e t u)
    ∙ head_cotrans (code c) (code d) (code e) (text_lt s t) (text_lt t u) (text_lt s u)
        (text_lt_cotrans s t u) (sym (text_lt-cons c e s u) ∙ h)

pub text_lt_irrefl : (s : String) → text_lt s s ≡ false
unfolding text_lt
text_lt_irrefl s = rw (compare_refl s) refl
