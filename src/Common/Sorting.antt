-- ===== src/Common/Sorting.antt =====
-- Go's slices.Sort and ORDER BY on texts: a stable insertion sort by a text that each element has.
use Prim.Native.String.{String, compare}
use mathlib.Core.Path.{◌≡◌, refl, sym, ap, ◌∙◌}
use mathlib.Core.Bool.{Bool, true, not}
use mathlib.Core.List.{List, [], ◌∷◌, map, map-id}
use mathlib.Core.Logic.{inl, inr}
use text.Mathlib.Text.{is_lt}
use text.Mathlib.TextPositions.{compare_refl}
use native.Mathlib.Omega.{arith}
use sild.Common.Tests.{str_eq, str_eq_iff, if◌then◌else◌, Bool-cases}
use sild.Common.Lists.{keep, contains, All}

-- The byte order of texts. It is shut, so that proofs treat a comparison as one unknown test.
unfoldable pub text_le : String → String → Bool
text_le s t = not (is_lt (compare t s))

pub text_le_refl : (s : String) → text_le s s ≡ true
unfolding text_le
text_le_refl s = rw (compare_refl s) refl

module _ {ℓ} {A : Type ℓ} where
  unfoldable pub insert_by : (A → String) → A → List A → List A
  insert_by key x [] = x ∷ []
  insert_by key x (y ∷ ys) =
      let rest = insert_by key x ys in if text_le (key x) (key y) then x ∷ y ∷ ys else y ∷ rest

  unfoldable pub sort_by : (A → String) → List A → List A
  unfolding insert_by
  sort_by key [] = []
  sort_by key (x ∷ xs) = insert_by key x (sort_by key xs)

  -- The elements with one key keep their order.
  keep-insert_by :
      (key : A → String) (k : String) (x : A) (xs : List A)
      → keep (λ y. str_eq (key y) k) (insert_by key x xs) ≡ keep (λ y. str_eq (key y) k) (x ∷ xs)
  unfolding insert_by keep
  keep-insert_by key k x [] = refl
  keep-insert_by key k x (y ∷ ys) =
      ground (
        arith,
        keep-insert_by key k x ys,
        str_eq_iff (key x) k,
        str_eq_iff (key y) k,
        text_le_refl k,
      )

-- slices.Sort on texts
unfoldable pub sort_texts : List String → List String
sort_texts ts = sort_by (λ t. t) ts

module _ {ℓ} {A : Type ℓ} where
  -- A stable sort keeps the order of the elements with one key.
  pub keep-sort_by :
      (key : A → String) (k : String) (xs : List A)
      → keep (λ y. str_eq (key y) k) (sort_by key xs) ≡ keep (λ y. str_eq (key y) k) xs
  unfolding sort_by keep
  keep-sort_by key k [] = refl
  keep-sort_by key k (x ∷ xs) =
      ground (arith, keep-insert_by key k x (sort_by key xs), keep-sort_by key k xs)

module _ {ℓ} {A : Type ℓ} (key : A → String) (k : String) where
  contains-map-insert_by :
      (x : A) (xs : List A)
      → contains (map key (insert_by key x xs)) k ≡ contains (map key (x ∷ xs)) k
  unfolding insert_by contains
  contains-map-insert_by x [] = refl
  contains-map-insert_by x (y ∷ ys) = ground (arith, contains-map-insert_by x ys)

  pub contains-map-sort_by :
      (xs : List A) → contains (map key (sort_by key xs)) k ≡ contains (map key xs) k
  unfolding sort_by contains
  contains-map-sort_by [] = refl
  contains-map-sort_by (x ∷ xs) =
      ground (arith, contains-map-insert_by x (sort_by key xs), contains-map-sort_by xs)

module _ {ℓ κ} {A : Type ℓ} (P : A → Type κ) where
  All-insert_by :
      (key : A → String) (x : A) (xs : List A) → P x → All P xs → All P (insert_by key x xs)
  unfolding insert_by
  All-insert_by key x [] h hs = (h, tt)
  All-insert_by key x (y ∷ ys) h hs = elim (Bool-cases (text_le (key x) (key y))) [
    | inl e ↦ rw e (h, hs)
    | inr e ↦ rw e (hs.0, All-insert_by key x ys h hs.1)
  ]

  pub All-sort_by : (key : A → String) (xs : List A) → All P xs → All P (sort_by key xs)
  unfolding sort_by
  All-sort_by key [] hs = tt
  All-sort_by key (x ∷ xs) hs = All-insert_by key x (sort_by key xs) hs.0 (All-sort_by key xs hs.1)

pub contains-sort_texts :
    (k : String) (xs : List String) → contains (sort_texts xs) k ≡ contains xs k
unfolding sort_texts
contains-sort_texts k xs =
    ap (λ l. contains l k) (sym (map-id (sort_by (λ t. t) xs)))
    ∙ contains-map-sort_by (λ t. t) k xs
    ∙ ap (λ l. contains l k) (map-id xs)
