-- ===== src/Domain/Membership/Members.antt =====
-- Who is left in a conversation: backend/internal/domain/conversation.go.
use sild.Common.{
  ◌+◌, ◌≤◌, String, List, [], ◌∷◌, ◌++◌, none, some, Option, str_eq_refl, ◌≡◌, refl, arith,
}
use sild.Domain.ExternalId.{external_user_id_error}
use sild.Domain.Membership.{
  MemberRow, Room, MemberInput, add_member, remove_member, count_active, count_as, member_of, user,
  ConversationStatus, remove_external, is_last_of_open, open_, closed, close_conversation, remap,
  build_member, close_row, announce_closed,
}

count_removed :
    (u : String) (ms : List MemberRow)
    → count_active (remove_external u ms) + count_as u ms ≡ count_active ms
unfolding count_active count_as remove_external
count_removed u [] = refl
count_removed u (m ∷ ms) = ground (arith, count_removed u ms)

-- RemoveMember that succeeds on an open conversation in which the user has at most one active row leaves at
-- least one active member, and one fewer than before.
pub removal_keeps_member :
    (r s : Room) (u : String)
    → count_as u r.members ≤ 1
    → r.status ≡ open_
    → remove_member (some r) u ≡ (some s, none)
    → (1 ≤ count_active s.members) × (count_active s.members + 1 ≡ count_active r.members)
unfolding remove_member is_last_of_open
removal_keeps_member r s u once o h = ground (arith, count_removed u r.members)

count_active-append :
    (xs ys : List MemberRow) → count_active (xs ++ ys) ≡ count_active xs + count_active ys
unfolding count_active
count_active-append [] ys = omega arith
count_active-append (x ∷ xs) ys = ground (arith, count_active-append xs ys)

count_as-append :
    (u : String) (xs ys : List MemberRow) → count_as u (xs ++ ys) ≡ count_as u xs + count_as u ys
unfolding count_as
count_as-append u [] ys = omega arith
count_as-append u (x ∷ xs) ys = ground (arith, count_as-append u xs ys)

abbrev with_member : Room → String → String → Room
with_member r u role = record r {
  members = r.members ++ member_of user u role ∷ [];
  sent = r.sent ++ "member.added" ∷ "webhook member.added" ∷ [];
}

added :
    (r : Room) (u role : String)
    → external_user_id_error u ≡ none
    → (add_member (some r) (record { user_id = u; conv_role = role; kind = none })).0
      ≡ some (with_member r u role)
unfolding add_member build_member
added r u role valid = rw (add_member, build_member, valid) refl

abbrev without_user : Room → String → Room
without_user r u = record r {
  members = remove_external u r.members;
  sent = r.sent ++ "member.removed" ∷ "webhook member.removed" ∷ [];
}

removed :
    (r : Room) (u : String)
    → 2 ≤ count_active r.members
    → 1 ≤ count_as u r.members
    → remove_member (some r) u ≡ (some (without_user r u), none)
unfolding remove_member is_last_of_open
removed r u many mine = ground arith

-- The guard of RemoveMember counts rows, and an insert makes a second row for a user who has one: if the
-- active rows of an open conversation are all one user's and the user is added again, RemoveMember of this
-- user succeeds and leaves the open conversation without an active member.
pub added_twice_removed :
    (r : Room) (u role : String)
    → external_user_id_error u ≡ none
    → r.status ≡ open_
    → 1 ≤ count_active r.members
    → count_as u r.members ≡ count_active r.members
    → (s : Room) × (remove_member
          (add_member (some r) (record { user_id = u; conv_role = role; kind = none })).0
          u
        ≡ (some s, none))
      × (s.status ≡ open_)
      × (count_active s.members ≡ 0)
unfolding count_active count_as
added_twice_removed r u role valid o some_active only =
    let m = member_of user u role ∷ [] in
    let actives = count_active-append r.members m in
    let mine = count_as-append u r.members m in
    let self = str_eq_refl u in
    let ms = r.members ++ m in
    (
      without_user (with_member r u role) u,
      rw (added r u role valid) (removed (with_member r u role) u (ground arith) (ground arith)),
      o,
      ground (arith, count_removed u ms),
    )

-- A call of the service on the conversation.
pub data Call : Type 0 where
  adds : MemberInput → Call
  removes : String → Call
  closes : String → Call
  remaps : String → String → Call

unfoldable pub step : Option Room → Call → Option Room
step r (adds mi) = (add_member r mi).0
step r (removes u) = (remove_member r u).0
step r (closes reason) = (close_conversation r reason).0
step r (remaps from to) = (remap r from to).0

unfoldable pub run : Option Room → List Call → Option Room
run r [] = r
run r (c ∷ cs) = run (step r c) cs

-- How the conversation stands: its status and the reason of its end.
abbrev pub standing : Option Room → Option (ConversationStatus × Option String)
standing none = none
standing (some r) = some (r.status, r.close_reason)

step_closed :
    (room : Option Room) (c : Call) (reason : Option String)
    → standing room ≡ some (closed, reason)
    → standing (step room c) ≡ some (closed, reason)
unfolding step add_member remove_member close_conversation remap close_row announce_closed
step_closed none c reason e = ground arith
step_closed (some r) (adds mi) reason e = ground arith
step_closed (some r) (removes u) reason e = ground arith
step_closed (some r) (closes given) reason e = ground arith
step_closed (some r) (remaps from to) reason e = ground arith

-- A closed conversation stays closed and keeps its reason, whatever calls follow.
pub closed_terminal :
    (room : Option Room) (cs : List Call) (reason : Option String)
    → standing room ≡ some (closed, reason)
    → standing (run room cs) ≡ some (closed, reason)
unfolding run
closed_terminal room [] reason e = e
closed_terminal room (c ∷ cs) reason e =
    closed_terminal (step room c) cs reason (step_closed room c reason e)
