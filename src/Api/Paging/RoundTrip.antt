-- ===== src/Api/Paging/RoundTrip.antt =====
-- A cursor comes back as it was sent, and only where it was minted for: backend/internal/apiutil/paging.go.
use sild.Common.{
  ℕ, String, false, Option, some, str_eq, str_eq_iff, str_eq_refl, ◌≡◌, sym, ap, ◌∙◌, arith, inl,
  inr, Option-cases, true≢false,
}
use sild.Store.Page.{clamp_limit, SortKey, Order, Cursor, PageParams, pos}
use sild.Api.Paging.{
  CursorDto, Wire, Request, PageDefaults, ok, OrderRead, read, unread, query_value, sort_text,
  order_text, dto_of, filter_fingerprint, read_sort, read_order, check_cursor, read_cursor,
  params_of, with_order, page_params, encode_cursor, with_cursor,
}
use sild.Api.Paging.Reading.{
  same_fingerprint, cursor_given, other_value, cursor_names, is_ok, checked_page, page-IsRead,
}

-- What the code relies on of encoding/json and base64, for a record: its text decodes to it, and is not
-- empty.
pub record IsLawful (w : Wire) (x : CursorDto) : Type 0 where
  pub decoded : w.decode (w.encode x) ≡ some x
  pub filled : str_eq (w.encode x) "" ≡ false

-- A place in a page, and the cursor that EncodeCursor mints for it.
abbrev pub cursor_of : PageParams → Option ℕ → String → Cursor
cursor_of p value id = record { key = p.sort; order = p.order; value = value; id = id }

abbrev pub minted : Wire → Request → PageDefaults → PageParams → Option ℕ → String → String
minted w r d p value id = encode_cursor w r d.resource (cursor_of p value id)

read_back :
    (w : Wire) (r : Request) (d : PageDefaults) (q : PageParams) (value : Option ℕ) (id : String)
    → IsLawful w (dto_of w r d.resource (cursor_of q value id))
    → read_cursor w (with_cursor r (minted w r d q value id)) d q
      ≡ ok (record q {
        cursor = some (record { key = q.sort; order = q.order; value = value; id = id });
      })
unfolding read_cursor check_cursor encode_cursor
read_back w r d q value id lawful =
    rw
      (
        cursor_given r (minted w r d q value id),
        lawful.filled,
        lawful.decoded,
        same_fingerprint w r (minted w r d q value id),
        str_eq_refl d.resource,
      )
      (ground (
        arith,
        str_eq_refl (sort_text q.sort),
        str_eq_refl (order_text q.order),
        str_eq_refl (filter_fingerprint w r),
      ))

page_from :
    (w : Wire) (r : Request) (d : PageDefaults) (sort : SortKey) (order : Order)
    → read_sort d (query_value r "sort") ≡ some sort
    → read_order d (query_value r "order") ≡ read order
    → page_params w r d ≡ read_cursor w r d (params_of w r d sort order)
unfolding page_params
page_from w r d sort order e f = rw (e, page_params) (ap (with_order w r d sort) f)

-- A cursor that EncodeCursor mints under an accepted request is accepted under the same request with the
-- cursor put in, and comes back as it was, the rest of the page unchanged.
pub cursor_round_trip :
    (w : Wire) (r : Request) (d : PageDefaults) (p : PageParams) (value : Option ℕ) (id : String)
    → IsLawful w (dto_of w r d.resource (cursor_of p value id))
    → page_params w r d ≡ ok p
    → page_params w (with_cursor r (minted w r d p value id)) d
      ≡ ok (record p {
        cursor = some (record { key = p.sort; order = p.order; value = value; id = id });
      })
cursor_round_trip w r d p value id lawful h =
    let said = page-IsRead w r d p h in
    let r' = with_cursor r (minted w r d p value id) in
    page_from w r' d p.sort p.order
      (ap (read_sort d) (other_value r (minted w r d p value id) "sort" cursor_names.1)
        ∙ said.sort_read)
      (ap (read_order d) (other_value r (minted w r d p value id) "order" cursor_names.2)
        ∙ said.order_read)
    ∙ (read_back w r d (params_of w r' d p.sort p.order) value id lawful
        ∙ ap
            (λ n. ok (record {
              limit = n;
              sort = p.sort;
              order = p.order;
              cursor = some (record { key = p.sort; order = p.order; value = value; id = id });
            }))
            (ap (λ raw. pos (clamp_limit (w.atoi raw) d.limit))
                (other_value r (minted w r d p value id) "limit" cursor_names.0)
              ∙ sym said.limit_read))

-- What a cursor that is accepted was minted for.
accepted_cursor :
    (w : Wire) (r : Request) (d : PageDefaults) (q p : PageParams) (cur : CursorDto)
    → check_cursor w r d q cur ≡ ok p
    → (cur.r ≡ d.resource)
      × (cur.s ≡ sort_text p.sort)
      × (cur.o ≡ order_text p.order)
      × (cur.f ≡ filter_fingerprint w r)
unfolding check_cursor
accepted_cursor w r d q p cur h =
    let (same_sort, same_order, same_limit) = checked_page w r d q p cur h in
    (
      (str_eq_iff cur.r d.resource).0 (ground arith),
      rw same_sort ((str_eq_iff cur.s (sort_text q.sort)).0 (ground arith)),
      rw same_order ((str_eq_iff cur.o (order_text q.order)).0 (ground arith)),
      (str_eq_iff cur.f (filter_fingerprint w r)).0 (ground arith),
    )

cursor_read :
    (w : Wire) (r : Request) (d : PageDefaults) (q p : PageParams) (dto : CursorDto)
    → IsLawful w dto
    → read_cursor w (with_cursor r (w.encode dto)) d q ≡ ok p
    → check_cursor w (with_cursor r (w.encode dto)) d q dto ≡ ok p
unfolding read_cursor
cursor_read w r d q p dto lawful h =
    rw (cursor_given r (w.encode dto), lawful.filled, lawful.decoded, read_cursor) at h

page_cursor :
    (w : Wire) (r : Request) (d : PageDefaults) (p : PageParams)
    → page_params w r d ≡ ok p
    → (q : PageParams) × (read_cursor w r d q ≡ ok p)
unfolding page_params
page_cursor w r d p h = elim (Option-cases (read_sort d (query_value r "sort"))) [
  | inl e ↦ absurd (true≢false (sym (ap is_ok (rw (e, page_params) at h))))
  | inr (sort, e) ↦ go sort (read_order d (query_value r "order")) (rw (e, page_params) at h)
]
  where
    go :
        (sort : SortKey) (o : OrderRead)
        → with_order w r d sort o ≡ ok p
        → (q : PageParams) × (read_cursor w r d q ≡ ok p)
    go sort (unread e) k = absurd (true≢false (sym (ap is_ok k)))
    go sort (read order) k = (params_of w r d sort order, k)

-- A cursor is accepted only for the resource, the ordering and the filters that it was minted for: where a
-- request that carries a cursor minted under another request is accepted, the two are for one resource,
-- the page is in the cursor's ordering, and the fingerprints of the two requests agree.
pub foreign_cursor_refused :
    (w : Wire) (r r' : Request) (d : PageDefaults) (p : PageParams) (resource : String)
    (cur : Cursor)
    → IsLawful w (dto_of w r' resource cur)
    → page_params w (with_cursor r (encode_cursor w r' resource cur)) d ≡ ok p
    → (resource ≡ d.resource)
      × (sort_text cur.key ≡ sort_text p.sort)
      × (order_text cur.order ≡ order_text p.order)
      × (filter_fingerprint w r' ≡ filter_fingerprint w r)
unfolding encode_cursor
foreign_cursor_refused w r r' d p resource cur lawful h =
    let carried = with_cursor r (encode_cursor w r' resource cur) in
    let (q, k) = page_cursor w carried d p h in
    let (same_resource, same_sort, same_order, same_filters) =
      accepted_cursor w carried d q p (dto_of w r' resource cur)
        (cursor_read w r d q p (dto_of w r' resource cur) lawful k) in
    (
      same_resource,
      same_sort,
      same_order,
      same_filters ∙ same_fingerprint w r (encode_cursor w r' resource cur),
    )
