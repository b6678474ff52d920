-- ===== src/Examples/Service.antt =====
-- Examples of the membership, the parts, the scope documents and the rate limit of backend/internal.
use sild.Common.{
  ◌+◌, ◌≤◌, List, [], ◌∷◌, true, false, String, Option, none, some, ◌≡◌, ◌↔◌, refl, str_eq, All,
  arith, length,
}
use sild.Models.Enums.{agent}
use sild.Models.Rbac.{RoleScope, no_scope}
use sild.Policy.Roles.{RoleDef, role_definition}
use sild.Policy.Roles.Document.{Document, object, boolean, validate_scope}
use sild.Policy.Roles.Validated.{IsCarried}
use sild.Policy.Roles.Written.{validate_scope_iff}
use sild.Domain.ExternalId.{external_user_id_error, some_rune, all_space}
use sild.Domain.Membership.{
  MemberRow, Room, user, open_, closed, add_member, remove_member, remove_external, count_active,
  count_as, is_last_of_open,
}
use sild.Domain.Membership.Members.{
  removal_keeps_member, added_twice_removed, standing, run, removes, closes, closed_terminal,
}
use sild.Domain.Parts.{
  MessagePart, StepPart, bot, validate_parts, refused_from, allowed, sends_parts, valid_content,
  valid_steps, valid_step, known_state, short, each,
}
use sild.Domain.Parts.Contents.{IsPart}
use sild.Domain.Parts.Accepted.{stored_parts}

abbrev member : Option String → MemberRow
member id = record {
  kind = user;
  external_user_id = id;
  internal_actor_id = none;
  conv_role = "client";
  left = false;
}

abbrev room_of : List MemberRow → Room
room_of ms = record { status = open_; close_reason = none; members = ms; sent = [] }

abbrev two_members : Room
two_members = room_of (member (some "ann") ∷ member (some "bob") ∷ [])

abbrev after_bob : Room
after_bob = record two_members {
  members = member (some "ann") ∷ record (member (some "bob")) { left = true } ∷ [];
  sent = "member.removed" ∷ "webhook member.removed" ∷ [];
}

removal_keeps_member_example :
    (1 ≤ count_active after_bob.members)
    × (count_active after_bob.members + 1 ≡ count_active two_members.members)
unfolding remove_member is_last_of_open count_active count_as remove_external str_eq
removal_keeps_member_example =
    removal_keeps_member two_members after_bob "bob" (omega arith) refl refl

added_twice_removed_example :
    (s : Room) × (remove_member
        (add_member
          (some (room_of (member (some "ann") ∷ [])))
          (record { user_id = "ann"; conv_role = "client"; kind = none })).0
        "ann"
      ≡ (some s, none))
    × (s.status ≡ open_)
    × (count_active s.members ≡ 0)
unfolding external_user_id_error some_rune all_space count_active count_as str_eq
added_twice_removed_example =
    added_twice_removed (room_of (member (some "ann") ∷ [])) "ann" "client" refl refl (omega arith)
      refl

abbrev resolved_room : Option Room
resolved_room = some (record two_members { status = closed; close_reason = some "resolved" })

closed_terminal_example :
    standing (run resolved_room (closes "closed" ∷ removes "bob" ∷ []))
    ≡ some (closed, some "resolved")
closed_terminal_example =
    closed_terminal resolved_room (closes "closed" ∷ removes "bob" ∷ []) (some "resolved") refl

abbrev approval : MessagePart
approval = record {
  type = "approval";
  steps = [];
  cause = "";
  fix = [];
  evidence = [];
  items = "meter readings" ∷ [];
}

abbrev checked : StepPart
checked = record {
  label = "Read the meter";
  result = "12 kWh";
  state = "done";
  internal = 123 ∷ 125 ∷ [];
  approved_until = 0;
}

abbrev progress : MessagePart
progress = record {
  type = "steps";
  steps = checked ∷ [];
  cause = "";
  fix = [];
  evidence = [];
  items = [];
}

stored_parts_example :
    (some (progress ∷ []) ≡ some (progress ∷ []))
    × (sends_parts bot ≡ true)
    × (1 ≤ length (progress ∷ []))
    × (length (progress ∷ []) ≤ 10)
    × All (λ (p : MessagePart). (allowed bot p.type ≡ true) × IsPart p) (progress ∷ [])
unfolding validate_parts refused_from allowed sends_parts valid_content valid_steps valid_step
    known_state short each str_eq
stored_parts_example = stored_parts (some (progress ∷ [])) bot (progress ∷ []) refl

abbrev peer_document : Document
peer_document = object (("peer", boolean true) ∷ [])

abbrev peer_scope : RoleScope
peer_scope = record no_scope { peer = true }

validate_scope_iff_example :
    (validate_scope agent peer_scope ≡ true)
    ↔ ((d : RoleDef) × (role_definition agent ≡ some d) × IsCarried d peer_scope)
validate_scope_iff_example = validate_scope_iff agent peer_scope
