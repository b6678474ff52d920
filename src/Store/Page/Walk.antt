-- ===== src/Store/Page/Walk.antt =====
-- Paging through a collection by its cursors: SlicePage of backend/internal/store/page.go.
use mathlib.Core.List.{append_assoc, append-nil}
use sild.Common.{
  ℕ, zero, suc, ◌+◌, ◌≤◌, ◌<◌, String, List, [], ◌∷◌, ◌++◌, true, false, none, some, ltb, length,
  length-append, length-drop, take, drop, ◌≡◌, refl, sym, ap, ltb→lt, ◌∙◌, arith, All, Bool-cases,
  inl, inr,
}
use sild.Store.Page.{
  ℤ, pos, negsuc, clamp_limit, Order, PageParams, Cursor, past, skip, last, remaining, cut,
  slice_page,
}

-- The limit of a page is 1 to 100, whatever the caller asks for.
pub clamp_limit_bounds :
    (limit : ℤ) (def : ℕ)
    → 1 ≤ def
    → def ≤ 100
    → (1 ≤ clamp_limit limit def) × (clamp_limit limit def ≤ 100)
unfolding clamp_limit
clamp_limit_bounds (negsuc n) def l u = (l, u)
clamp_limit_bounds (pos zero) def l u = (l, u)
clamp_limit_bounds (pos (suc n)) def l u = ground arith

module _ {A : Type 0} (id_of : A → String) (order : Order) where
  abbrev Before : A → A → Type 0
  Before x y = (past order (id_of y) (id_of x) ≡ true) × (past order (id_of x) (id_of y) ≡ false)

  -- The collection is in scan order, each id past all earlier ones.
  abbrev pub Ordered : List A → Type 0
  Ordered [] = Unit
  Ordered (x ∷ xs) =
      (past order (id_of x) (id_of x) ≡ false)
      × All
          (λ y. (past order (id_of y) (id_of x) ≡ true) × (past order (id_of x) (id_of y) ≡ false))
          xs
      × Ordered xs

  skip_none :
      (z : A) (ys : List A) → All (Before z) ys → skip (λ x. past order (id_of x) (id_of z)) ys ≡ 0
  unfolding skip
  skip_none z [] h = refl
  skip_none z (y ∷ ys) h = rw (h.0.0, skip)

  All-at : (P : A → Type 0) (xs : List A) (z : A) (ys : List A) → All P (xs ++ z ∷ ys) → P z
  All-at P [] z ys h = h.0
  All-at P (x ∷ xs) z ys h = All-at P xs z ys h.1

  -- The loop stops just behind the cursor's item.
  skip_to :
      (xs : List A) (z : A) (ys : List A)
      → Ordered (xs ++ z ∷ ys)
      → skip (λ x. past order (id_of x) (id_of z)) (xs ++ z ∷ ys) ≡ length xs + 1
  unfolding skip
  skip_to [] z ys o = rw (o.0, skip) (ground (arith, skip_none z ys o.1))
  skip_to (x ∷ xs) z ys o =
      rw ((All-at (Before x) xs z ys o.1).1, skip) (omega (arith, skip_to xs z ys o.2))

last_split :
    {A : Type 0} (x : A) (xs : List A)
    → (ws : List A) × (z : A) × (x ∷ xs ≡ ws ++ z ∷ []) × (last (x ∷ xs) ≡ some z)
unfolding last
last_split x [] = ([], x, refl, refl)
last_split x (y ∷ xs) = let (ws, z, e, l) = last_split y xs in (x ∷ ws, z, ap (◌∷◌ x) e, l)

drop-append : {A : Type 0} (xs ys : List A) → drop (length xs) (xs ++ ys) ≡ ys
drop-append [] ys = refl
drop-append (x ∷ xs) ys = drop-append xs ys

take-append-drop : {A : Type 0} (n : ℕ) (xs : List A) → take n xs ++ drop n xs ≡ xs
take-append-drop zero xs = refl
take-append-drop (suc n) [] = refl
take-append-drop (suc n) (x ∷ xs) = rw (take-append-drop n xs)

-- A client that follows the cursors: the items of all pages, one after the other.
pub walk : {A : Type 0} → ℕ → List A → PageParams → (A → String) → List A
walk zero items p id_of = []
walk (suc fuel) items p id_of =
    let page = slice_page items p id_of in
    page.items ++ elim page.next_cursor [
      | none ↦ []
      | some c ↦ walk fuel items (record p { cursor = some c }) id_of
    ]

drop_at :
    {A : Type 0} (xs : List A) (z : A) (ys : List A) (n : ℕ)
    → n ≡ suc (length xs)
    → drop n (xs ++ z ∷ ys) ≡ ys
drop_at [] z ys n h = rw h
drop_at (x ∷ xs) z ys n h = rw h (drop_at xs z ys (suc (length xs)) refl)

split_items :
    {A : Type 0} (items pre rest : List A) (n : ℕ) (ws : List A) (z : A)
    → items ≡ pre ++ rest
    → take n rest ≡ ws ++ z ∷ []
    → items ≡ (pre ++ ws) ++ z ∷ drop n rest
split_items items pre rest n ws z e s =
    e
    ∙ ap (◌++◌ pre) (
        sym (take-append-drop n rest)
        ∙ (ap (λ t. t ++ drop n rest) s ∙ append_assoc ws (z ∷ []) (drop n rest)))
    ∙ sym (append_assoc pre ws (z ∷ drop n rest))

last-take :
    {A : Type 0} (n : ℕ) (rest : List A)
    → 1 ≤ n
    → n < length rest
    → (ws : List A) × (z : A) × (take n rest ≡ ws ++ z ∷ []) × (last (take n rest) ≡ some z)
last-take zero rest l u = absurd (omega arith)
last-take (suc n) [] l u = absurd (omega arith)
last-take (suc n) (x ∷ rest) l u = last_split x (take n rest)

module _ {A : Type 0} (id_of : A → String) where
  abbrev cursor_at : PageParams → A → Cursor
  cursor_at p z = record { key = p.sort; order = p.order; value = none; id = id_of z }

  cut_more :
      (p : PageParams) (rest : List A) (z : A)
      → ltb (clamp_limit p.limit 50) (length rest) ≡ true
      → last (take (clamp_limit p.limit 50) rest) ≡ some z
      → cut p id_of rest ≡ record {
        items = take (clamp_limit p.limit 50) rest;
        next_cursor = some (cursor_at p z);
        has_more = true;
      }
  unfolding cut
  cut_more p rest z more e = rw (more, e)

  cut_last :
      (p : PageParams) (rest : List A)
      → ltb (clamp_limit p.limit 50) (length rest) ≡ false
      → cut p id_of rest ≡ record { items = rest; next_cursor = none; has_more = false }
  unfolding cut
  cut_last p rest no_more = rw no_more

module _ {A : Type 0} (id_of : A → String) (items : List A) where
  -- After a page that ends in z, what remains is what stood behind z.
  remaining_behind :
      (p : PageParams) (xs : List A) (z : A) (ys : List A)
      → Ordered id_of p.order items
      → items ≡ xs ++ z ∷ ys
      → remaining items (record p { cursor = some (cursor_at id_of p z) }) id_of ≡ ys
  unfolding remaining
  remaining_behind p xs z ys o e = rw e (
      drop_at xs z ys _
        (omega (arith, skip_to id_of p.order xs z ys (rw e at o), length-append xs (z ∷ ys))))

  walk_rest :
      (fuel : ℕ) (p : PageParams) (pre rest : List A)
      → Ordered id_of p.order items
      → items ≡ pre ++ rest
      → remaining items p id_of ≡ rest
      → length rest < fuel
      → walk fuel items p id_of ≡ rest
  unfolding walk slice_page
  walk_rest zero p pre rest o e r lt = elim lt [ ]
  walk_rest (suc fuel) p pre rest o e r lt =
      let n = clamp_limit p.limit 50 in
      let bounds = clamp_limit_bounds p.limit 50 (omega arith) (omega arith) in
      elim (Bool-cases (ltb n (length rest))) [
        | inl more ↦
            let (ws, z, split, is_last) = last-take n rest bounds.0 (ground arith) in
            rw (r, cut_more id_of p rest z more is_last)
              (ap (◌++◌ (take n rest)) (
                  walk_rest fuel (record p { cursor = some (cursor_at id_of p z) })
                    (pre ++ take n rest) (drop n rest) o
                    (e
                      ∙ ap (◌++◌ pre) (sym (take-append-drop n rest))
                      ∙ sym (append_assoc pre (take n rest) (drop n rest)))
                    (remaining_behind p (pre ++ ws) z (drop n rest) o
                      (split_items items pre rest n ws z e split))
                    (omega (arith, length-drop n rest, bounds.0, ltb→lt n (length rest) more)))
                ∙ take-append-drop n rest)
        | inr no_more ↦ rw (r, cut_last id_of p rest no_more) (append-nil rest)
      ]

  -- Following the cursors from the first page visits every item once and in order, and ends: the pages,
  -- put together, are the collection, if it is in scan order.
  pub walk_whole :
      (p : PageParams)
      → Ordered id_of p.order items
      → p.cursor ≡ none
      → walk (suc (length items)) items p id_of ≡ items
  unfolding remaining
  walk_whole p o first =
      walk_rest (suc (length items)) p [] items o refl (rw (first, remaining)) (omega arith)
