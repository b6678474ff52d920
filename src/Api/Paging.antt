-- ===== src/Api/Paging.antt =====
-- backend/internal/apiutil/paging.go: paging parameters of a request, and cursors on the wire. The text of
-- a cursor is what the Wire makes of it, base64 of JSON in the code; a fingerprint is what it makes of the
-- joined parts of the query, a hash in the code, which memoizes it; and a limit is read as strconv.Atoi
-- reads it.
pub mod Reading
pub mod RoundTrip
use Prim.Native.String.{◌++◌ as ◌<>◌}
use sild.Common.{
  ℕ, String, List, [], ◌∷◌, ◌++◌, Bool, true, false, not, ◌&&◌, ◌||◌, Option, none, some, str_eq,
  map, any, keep, ◌==◌, if◌then◌else◌, Dict, lookup, assign, sort_texts, ◌≡◌,
}
use sild.Store.Page.{
  ℤ, clamp_limit, SortKey, sort_id, sort_last_activity, sort_created, sort_waiting_since, Order,
  asc, desc, Cursor, PageParams, pos,
}

-- cursorDTO
pub record CursorDto : Type 0 where
  pub v : ℕ
  pub r : String
  pub s : String
  pub o : String
  pub f : String
  pub k : Option ℕ
  pub id : String

-- What the code takes of encoding/json, base64, SHA-256 and strconv.
pub record Wire : Type 0 where
  pub encode : CursorDto → String
  pub decode : String → Option CursorDto
  pub hash : String → String
  pub atoi : String → ℤ

-- The request: its query with the values of each parameter, and its path parameters.
pub record Request : Type 0 where
  pub query : Dict (List String)
  pub params : List (String × String)

-- PageDefaults; no order is the empty one.
pub record PageDefaults : Type 0 where
  pub resource : String
  pub limit : ℕ
  pub sort : SortKey
  pub order : Option Order
  pub sorts : List SortKey
  pub fixed_order : Bool

pub data Refusal : Type 0 where
  unsupported_sort bad_order fixed_order_override invalid_cursor other_resource : Refusal
  other_ordering other_filters : Refusal

pub data Answer : Type 0 where
  ok : PageParams → Answer
  refused : Refusal → Answer

abbrev pub cursor_version : ℕ
cursor_version = 1

abbrev first_value : Option (List String) → String
first_value none = ""
first_value (some []) = ""
first_value (some (x ∷ xs)) = x

-- c.Query
unfoldable pub query_value : Request → String → String
query_value r name = first_value (lookup r.query name)

-- SortKey as text, and back: none for a text that no constant has.
unfoldable pub sort_text : SortKey → String
sort_text sort_id = "id"
sort_text sort_last_activity = "last_activity"
sort_text sort_created = "created"
sort_text sort_waiting_since = "waiting_since"

unfoldable pub order_text : Order → String
order_text asc = "asc"
order_text desc = "desc"

-- sortAllowed, for the text of a key: the key that it stands for
unfoldable pub allowed_in : List SortKey → String → Option SortKey
allowed_in [] raw = none
allowed_in (k ∷ ks) raw =
    let rest = allowed_in ks raw in if str_eq (sort_text k) raw then some k else rest

unfoldable pub sort_allowed : PageDefaults → String → Option SortKey
sort_allowed d raw = allowed_in (d.sort ∷ d.sorts) raw

-- A parameter that the fingerprint takes no notice of.
abbrev pub is_paging : String → Bool
is_paging k = str_eq k "limit" || (str_eq k "cursor" || str_eq k "expand")

-- strings.Join
unfoldable pub join : String → List String → String
join sep [] = ""
join sep (s ∷ []) = s
join sep (s ∷ t ∷ ts) = s <> (sep <> join sep (t ∷ ts))

abbrev query_part : String × List String → String
query_part e = e.0 <> ("=" <> join "," (sort_texts e.1))

abbrev path_part : String × String → String
path_part e = "path:" <> (e.0 <> ("=" <> e.1))

-- The parts that computeFingerprint sorts, joins and hashes.
unfoldable pub fingerprint_parts : Request → List String
fingerprint_parts r =
    map query_part (keep (λ e. not (is_paging e.0)) r.query) ++ map path_part r.params

-- FilterFingerprint
unfoldable pub filter_fingerprint : Wire → Request → String
filter_fingerprint w r = w.hash (join "&" (sort_texts (fingerprint_parts r)))

-- The sort key of PageParams.
unfoldable pub read_sort : PageDefaults → String → Option SortKey
read_sort d raw = if str_eq raw "" then some d.sort else sort_allowed d raw

abbrev order_or_desc : Option Order → Order
order_or_desc none = desc
order_or_desc (some o) = o

abbrev same_order : Order → Order → Bool
same_order asc asc = true
same_order desc desc = true
same_order asc desc = false
same_order desc asc = false

pub data OrderRead : Type 0 where
  read : Order → OrderRead
  unread : Refusal → OrderRead

abbrev override_order : PageDefaults → Order → OrderRead
override_order d o =
    if d.fixed_order && not (same_order o (order_or_desc d.order))
    then unread fixed_order_override
    else read o

-- The direction of PageParams.
unfoldable pub read_order : PageDefaults → String → OrderRead
read_order d raw =
    if str_eq raw ""
    then read (order_or_desc d.order)
    else if str_eq raw "asc"
    then override_order d asc
    else if str_eq raw "desc"
    then override_order d desc
    else unread bad_order

-- What PageParams does with a cursor that decodes.
unfoldable pub check_cursor : Wire → Request → PageDefaults → PageParams → CursorDto → Answer
check_cursor w r d p cur =
    if not (cur.v == cursor_version) || not (str_eq cur.r d.resource)
    then refused other_resource
    else if not (str_eq cur.s (sort_text p.sort)) || not (str_eq cur.o (order_text p.order))
    then refused other_ordering
    else if not (str_eq cur.f (filter_fingerprint w r))
    then refused other_filters
    else ok (record p {
      cursor = some (record { key = p.sort; order = p.order; value = cur.k; id = cur.id });
    })

-- The cursor of PageParams.
unfoldable pub read_cursor : Wire → Request → PageDefaults → PageParams → Answer
read_cursor w r d p =
    if str_eq (query_value r "cursor") "" then ok p else elim (w.decode (query_value r "cursor")) [
      | none ↦ refused invalid_cursor
      | some cur ↦ check_cursor w r d p cur
    ]

abbrev pub params_of : Wire → Request → PageDefaults → SortKey → Order → PageParams
params_of w r d sort order = record {
  limit = pos (clamp_limit (w.atoi (query_value r "limit")) d.limit);
  sort = sort;
  order = order;
  cursor = none;
}

abbrev with_order : Wire → Request → PageDefaults → SortKey → OrderRead → Answer
with_order w r d sort (unread e) = refused e
with_order w r d sort (read order) = read_cursor w r d (params_of w r d sort order)

-- PageParams
unfoldable pub page_params : Wire → Request → PageDefaults → Answer
page_params w r d = elim (read_sort d (query_value r "sort")) [
  | none ↦ refused unsupported_sort
  | some sort ↦ with_order w r d sort (read_order d (query_value r "order"))
]

-- The record that EncodeCursor puts on the wire.
abbrev pub dto_of : Wire → Request → String → Cursor → CursorDto
dto_of w r resource cur = record {
  v = cursor_version;
  r = resource;
  s = sort_text cur.key;
  o = order_text cur.order;
  f = filter_fingerprint w r;
  k = cur.value;
  id = cur.id;
}

-- EncodeCursor, for a cursor that is not nil
unfoldable pub encode_cursor : Wire → Request → String → Cursor → String
encode_cursor w r resource cur = w.encode (dto_of w r resource cur)

-- The request of a client for the page behind a cursor.
abbrev pub with_cursor : Request → String → Request
with_cursor r raw = record r { query = assign r.query "cursor" (raw ∷ []) }
