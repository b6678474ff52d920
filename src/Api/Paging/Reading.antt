-- ===== src/Api/Paging/Reading.antt =====
-- What a request that PageParams accepts has said, and what a cursor that is put into it changes:
-- backend/internal/apiutil/paging.go.
use sild.Common.{
  String, List, [], ◌∷◌, ◌++◌, Bool, true, false, not, some, str_eq, str_eq_iff, map, keep, Dict,
  assign, lookup-assign, lookup_other, sort_texts, ◌≡◌, refl, sym, ap, arith, Bool-cases, inl, inr,
  Option-cases, true≢false,
}
use mathlib.Core.Path.{subst}
use sild.Store.Page.{clamp_limit, SortKey, PageParams, pos}
use sild.Api.Paging.{
  CursorDto, Wire, Request, PageDefaults, Answer, ok, refused, OrderRead, read, unread, query_value,
  is_paging, query_part, path_part, join, fingerprint_parts, filter_fingerprint, read_sort,
  read_order, check_cursor, read_cursor, params_of, with_order, page_params, with_cursor,
}

keep-assign :
    (q : Dict (List String)) (name : String) (vs : List String)
    → is_paging name ≡ true
    → keep (λ e. not (is_paging e.0)) (assign q name vs) ≡ keep (λ e. not (is_paging e.0)) q
unfolding keep assign
keep-assign [] name vs h = ground arith
keep-assign ((j, b) ∷ q) name vs h = elim (Bool-cases (str_eq j name)) [
  | inl e ↦ ground (arith, subst (λ k. is_paging k ≡ true) (sym ((str_eq_iff j name).0 e)) h)
  | inr e ↦ rw e (ground (arith, keep-assign q name vs h))
]

cursor_is_paging : is_paging "cursor" ≡ true
unfolding str_eq
cursor_is_paging = refl

pub same_fingerprint :
    (w : Wire) (r : Request) (raw : String)
    → filter_fingerprint w (with_cursor r raw) ≡ filter_fingerprint w r
unfolding filter_fingerprint fingerprint_parts
same_fingerprint w r raw =
    ap (λ q. w.hash (join "&" (sort_texts (map query_part q ++ map path_part r.params))))
      (keep-assign r.query "cursor" (raw ∷ []) cursor_is_paging)

pub cursor_given : (r : Request) (raw : String) → query_value (with_cursor r raw) "cursor" ≡ raw
unfolding query_value
cursor_given r raw = rw (lookup-assign r.query "cursor" (raw ∷ [])) refl

pub other_value :
    (r : Request) (raw name : String)
    → str_eq "cursor" name ≡ false
    → query_value (with_cursor r raw) name ≡ query_value r name
unfolding query_value
other_value r raw name h = rw (lookup_other r.query "cursor" name (raw ∷ []) h) refl

pub cursor_names :
    (str_eq "cursor" "limit" ≡ false)
    × (str_eq "cursor" "sort" ≡ false)
    × (str_eq "cursor" "order" ≡ false)
unfolding str_eq
cursor_names = (refl, refl, refl)

-- What a request that is accepted has said.
pub record IsRead (w : Wire) (r : Request) (d : PageDefaults) (p : PageParams) : Type 0 where
  pub sort_read : read_sort d (query_value r "sort") ≡ some p.sort
  pub order_read : read_order d (query_value r "order") ≡ read p.order
  pub limit_read : p.limit ≡ pos (clamp_limit (w.atoi (query_value r "limit")) d.limit)

abbrev pub is_ok : Answer → Bool
is_ok (ok p) = true
is_ok (refused e) = false

abbrev page_or : PageParams → Answer → PageParams
page_or q (ok p) = p
page_or q (refused e) = q

same_page :
    (q p : PageParams) → ok q ≡ ok p → (p.sort ≡ q.sort) × (p.order ≡ q.order) × (p.limit ≡ q.limit)
same_page q p h = (
  sym (ap (λ a. (page_or q a).sort) h),
  sym (ap (λ a. (page_or q a).order) h),
  sym (ap (λ a. (page_or q a).limit) h),
)

-- The cursor of a request changes nothing else of the page.
pub checked_page :
    (w : Wire) (r : Request) (d : PageDefaults) (q p : PageParams) (cur : CursorDto)
    → check_cursor w r d q cur ≡ ok p
    → (p.sort ≡ q.sort) × (p.order ≡ q.order) × (p.limit ≡ q.limit)
unfolding check_cursor
checked_page w r d q p cur h = (ground arith, ground arith, ground arith)

read_page :
    (w : Wire) (r : Request) (d : PageDefaults) (q p : PageParams)
    → read_cursor w r d q ≡ ok p
    → (p.sort ≡ q.sort) × (p.order ≡ q.order) × (p.limit ≡ q.limit)
unfolding read_cursor
read_page w r d q p h = elim (Bool-cases (str_eq (query_value r "cursor") "")) [
  | inl e ↦ same_page q p (rw e at h)
  | inr e ↦ elim (Option-cases (w.decode (query_value r "cursor"))) [
    | inl f ↦ absurd (true≢false (sym (ap is_ok (rw (e, f) at h))))
    | inr (cur, f) ↦ checked_page w r d q p cur (rw (e, f) at h)
  ]
]

order-IsRead :
    (w : Wire) (r : Request) (d : PageDefaults) (p : PageParams) (sort : SortKey) (o : OrderRead)
    → read_sort d (query_value r "sort") ≡ some sort
    → read_order d (query_value r "order") ≡ o
    → with_order w r d sort o ≡ ok p
    → IsRead w r d p
order-IsRead w r d p sort (unread e) s o h = absurd (true≢false (sym (ap is_ok h)))
order-IsRead w r d p sort (read order) s o h =
    let (same_sort, same_order, same_limit) = read_page w r d (params_of w r d sort order) p h in
    record { sort_read = rw same_sort s; order_read = rw same_order o; limit_read = same_limit }

pub page-IsRead :
    (w : Wire) (r : Request) (d : PageDefaults) (p : PageParams)
    → page_params w r d ≡ ok p
    → IsRead w r d p
unfolding page_params
page-IsRead w r d p h = elim (Option-cases (read_sort d (query_value r "sort"))) [
  | inl e ↦ absurd (true≢false (sym (ap is_ok (rw (e, page_params) at h))))
  | inr (sort, e) ↦
      order-IsRead w r d p sort (read_order d (query_value r "order")) e refl
        (rw (e, page_params) at h)
]
