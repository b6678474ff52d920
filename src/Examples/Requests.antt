-- ===== src/Examples/Requests.antt =====
-- Examples of the members and the cursors of backend/internal.
use sild.Common.{
  ℕ, String, [], ◌∷◌, false, Option, none, some, str_eq, any, keep, contains, each_char, trim_space,
  to_lower, lookup, assign, text_le, insert_by, sort_by, sort_texts, ◌≡◌, refl, arith,
}
use sild.I18n.{normalize, valid_language, subtag}
use sild.Models.Enums.{PlatformRole, owner, agent, translator, valid_role}
use sild.Models.Rbac.{RoleScope, no_scope, queue_support}
use sild.Policy.Roles.{find_role, role_definition, defines}
use sild.Policy.Roles.Document.{
  validate_scope, validate_scope_document, scope_fields, check_document, check_fields, read_scope,
  read_field, foreign, read_set, read_items, read_bool, items_of, with_peer, with_publish,
  with_queues, with_projects, with_locales,
}
use sild.Principal.{
  same_role, reaches_queue, queues, privileged, has_role, scope_of, find_scope, agent_queues,
  for_admin,
}
use sild.Store.Page.{clamp_limit, sort_created, desc, sort_id, PageParams, pos}
use sild.Store.RoleAssignments.{Grant}
use sild.Store.RoleAssignments.Owners.{has_owner}
use sild.Domain.Team.{
  ok as accepted, check_queues, queue_settings, Team, check_scope, valid_platform_role,
  validate_translator_scope, clean_tags, check_projects,
}
use sild.Domain.Team.Scopes.{IsReachable, check_scope-IsReachable}
use sild.Domain.Team.Runs.{IsOwned, removes, assigns, run, run-IsOwned}
use sild.Api.Paging.{
  CursorDto, Wire, Request, PageDefaults, ok, query_value, sort_text, order_text, join,
  fingerprint_parts, filter_fingerprint, read_sort, read_order, check_cursor, read_cursor,
  page_params, encode_cursor, with_cursor, dto_of,
}
use sild.Api.Paging.RoundTrip.{
  IsLawful, minted, cursor_of, cursor_round_trip, foreign_cursor_refused,
}

-- One owner, in a tenant with a queue and a translation project.
abbrev grant_of : String → PlatformRole → Grant
grant_of id role = record { admin_user_id = id; role = role; scope = no_scope }

abbrev office : Team
office = record {
  members = [];
  grants = grant_of "a" owner ∷ [];
  queues = "sales" ∷ [];
  projects = "shop" ∷ [];
}

office-IsOwned : IsOwned office
unfolding has_owner any keep same_role str_eq
office-IsOwned = record { owned = refl; single = λ id role. ground arith }

run-IsOwned_example : IsOwned (run office (removes "a" owner ∷ assigns "a" agent no_scope ∷ []))
run-IsOwned_example =
    run-IsOwned office (removes "a" owner ∷ assigns "a" agent no_scope ∷ []) office-IsOwned

abbrev of_shop : String → RoleScope
of_shop tag = record {
  peer = false;
  queues = [];
  projects = "shop" ∷ [];
  locales = tag ∷ [];
  publish = false;
}

check_scope-IsReachable_example : IsReachable office translator (of_shop "de")
unfolding check_scope valid_platform_role validate_translator_scope clean_tags check_projects
    valid_role validate_scope validate_scope_document scope_fields check_document check_fields
    read_scope read_field foreign read_set read_items read_bool items_of with_peer with_publish
    with_queues with_projects with_locales find_role role_definition defines same_role str_eq
    contains any normalize valid_language subtag trim_space to_lower each_char
check_scope-IsReachable_example =
    check_scope-IsReachable office translator (of_shop "DE") (of_shop "de") refl

-- An empty queue is stored as it is, and reaches not even the support queue.
abbrev of_no_queue : RoleScope
of_no_queue = record no_scope { queues = "" ∷ [] }

empty_queue_stored : check_scope office agent of_no_queue ≡ accepted of_no_queue
unfolding check_scope valid_platform_role check_queues queue_settings valid_role validate_scope
    validate_scope_document scope_fields check_document check_fields read_scope read_field foreign
    read_set read_items read_bool items_of with_peer with_publish with_queues with_projects
    with_locales find_role role_definition defines same_role str_eq contains any
empty_queue_stored = refl

empty_queue_unreached :
    reaches_queue
      (for_admin
        (record { tenant_id = "t1"; id = "a"; is_service = false })
        (record { role = agent; scope = of_no_queue } ∷ []))
      queue_support
    ≡ false
unfolding reaches_queue queues privileged has_role scope_of find_scope same_role agent_queues
    contains str_eq for_admin
empty_queue_unreached = refl

-- A wire for the cursors of one page below, which writes their ids.
abbrev conversations_dto : String → Option ℕ → CursorDto
conversations_dto id k = record {
  v = 1;
  r = "conversations";
  s = "created";
  o = "desc";
  f = "status=open";
  k = k;
  id = id;
}

abbrev plain_wire : Wire
plain_wire = record {
  encode = λ x. x.id;
  decode = λ s. some (conversations_dto s (some 7));
  hash = λ s. s;
  atoi = λ s. pos 25;
}

abbrev open_list : Request
open_list = record { query = ("status", "open" ∷ []) ∷ ("limit", "25" ∷ []) ∷ []; params = [] }

abbrev defaults : PageDefaults
defaults = record {
  resource = "conversations";
  limit = 20;
  sort = sort_created;
  order = none;
  sorts = sort_id ∷ [];
  fixed_order = false;
}

abbrev first_page : PageParams
first_page = record { limit = pos 25; sort = sort_created; order = desc; cursor = none }

abbrev second_page : PageParams
second_page = record first_page {
  cursor = some (record { key = sort_created; order = desc; value = some 7; id = "c9" });
}

wire-IsLawful :
    IsLawful plain_wire
      (dto_of plain_wire open_list "conversations" (cursor_of first_page (some 7) "c9"))
unfolding str_eq filter_fingerprint fingerprint_parts join sort_texts insert_by sort_by text_le keep
    sort_text order_text
wire-IsLawful = record { decoded = refl; filled = refl }

cursor_round_trip_example :
    page_params plain_wire
      (with_cursor open_list (minted plain_wire open_list defaults first_page (some 7) "c9"))
      defaults
    ≡ ok second_page
unfolding page_params query_value read_sort read_order read_cursor lookup str_eq clamp_limit
cursor_round_trip_example =
    cursor_round_trip plain_wire open_list defaults first_page (some 7) "c9" wire-IsLawful refl

foreign_cursor_refused_example :
    ("conversations" ≡ defaults.resource)
    × (sort_text sort_created ≡ sort_text second_page.sort)
    × (order_text desc ≡ order_text second_page.order)
    × (filter_fingerprint plain_wire open_list ≡ filter_fingerprint plain_wire open_list)
unfolding page_params query_value read_sort read_order read_cursor check_cursor encode_cursor
    filter_fingerprint fingerprint_parts join sort_texts insert_by sort_by text_le keep sort_text
    order_text lookup assign str_eq clamp_limit
foreign_cursor_refused_example =
    foreign_cursor_refused plain_wire open_list open_list defaults second_page "conversations"
      (cursor_of first_page (some 7) "c9") wire-IsLawful refl
