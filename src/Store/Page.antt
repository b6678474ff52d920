-- ===== src/Store/Page.antt =====
-- backend/internal/store/page.go: limits, cursors and SlicePage, the in-memory keyset pagination.
pub mod Walk
use Prim.Native.Nat.{min}
use Prim.Native.String.{compare}
use text.Mathlib.Text.{is_lt}
use sild.Common.{
  ℕ, zero, suc, ◌+◌, ◌-◌, String, List, [], ◌∷◌, ◌++◌, Bool, true, false, not, ◌&&◌, ◌||◌, Option,
  none, some, ltb, length, take, drop, if◌then◌else◌,
}

-- Go's int: `negsuc n` is -(n + 1).
pub data ℤ : Type 0 where
  pos : ℕ → ℤ
  negsuc : ℕ → ℤ

-- ClampLimit
unfoldable pub clamp_limit : ℤ → ℕ → ℕ
clamp_limit (negsuc n) def = def
clamp_limit (pos zero) def = def
clamp_limit (pos (suc n)) def = if ltb 100 (suc n) then 100 else suc n

pub data SortKey : Type 0 where
  sort_id sort_last_activity sort_created sort_waiting_since : SortKey

-- Order: a string that is not "asc" scans newest-first.
pub data Order : Type 0 where
  asc desc : Order

pub record Cursor : Type 0 where
  pub key : SortKey
  pub order : Order
  pub value : Option ℕ
  pub id : String

pub record PageParams : Type 0 where
  pub limit : ℤ
  pub sort : SortKey
  pub order : Order
  pub cursor : Option Cursor

pub record Page {ℓ} (A : Type ℓ) : Type ℓ where
  pub items : List A
  pub next_cursor : Option Cursor
  pub has_more : Bool

-- The byte order of texts. It is shut, so that proofs treat a comparison as one unknown test.
unfoldable pub str_lt : String → String → Bool
str_lt s t = is_lt (compare s t)

-- An id lies past the cursor's in the scan direction.
unfoldable pub past : Order → String → String → Bool
past desc id cursor = str_lt id cursor
past asc id cursor = str_lt cursor id

module _ {ℓ} {A : Type ℓ} where
  -- The loop that skips to just past the cursor: the index of the first item that passes the test.
  unfoldable pub skip : (A → Bool) → List A → ℕ
  skip f [] = 0
  skip f (x ∷ xs) = let later = skip f xs in if f x then 0 else suc later

  unfoldable pub last : List A → Option A
  last [] = none
  last (x ∷ []) = some x
  last (x ∷ y ∷ xs) = last (y ∷ xs)

  -- items[min(start, len(items)):]
  unfoldable pub remaining : List A → PageParams → (A → String) → List A
  remaining items p id_of = elim p.cursor [
    | none ↦ items
    | some c ↦ drop (min (skip (λ x. past p.order (id_of x) c.id) items) (length items)) items
  ]

  -- The page cut from what remains.
  unfoldable pub cut : PageParams → (A → String) → List A → Page A
  cut p id_of rest =
      let limit = clamp_limit p.limit 50 in
      if ltb limit (length rest)
      then record {
        items = take limit rest;
        next_cursor = elim (last (take limit rest)) [
          | none ↦ none
          | some x ↦ some (record { key = p.sort; order = p.order; value = none; id = id_of x })
        ];
        has_more = true;
      }
      else record { items = rest; next_cursor = none; has_more = false }

  -- SlicePage
  unfoldable pub slice_page : List A → PageParams → (A → String) → Page A
  slice_page items p id_of = cut p id_of (remaining items p id_of)
