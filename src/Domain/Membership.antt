-- ===== src/Domain/Membership.antt =====
-- The membership and the end of one conversation: AddMember, RemoveMember, CloseConversation and Remap
-- of backend/internal/domain/conversation.go, with the statements of memberRepo and conversationRepo
-- in store/gormstore/conversation.go. The state is what the database holds under one tenant and one
-- conversation id, with the names of the events that the service sends out; queries do not fail.
pub mod Members
use sild.Common.{
  ℕ, zero, suc, ◌≤◌, String, List, [], ◌∷◌, ◌++◌, Bool, true, false, not, ◌&&◌, ◌||◌, Option, none,
  some, str_eq, map, length, keep, leb, if◌then◌else◌,
}
use sild.Domain.ExternalId.{IdError, external_user_id_error}

pub data MemberKind : Type 0 where
  user agent bot email : MemberKind
  other_member : String → MemberKind

pub data ConversationStatus : Type 0 where
  open_ closed : ConversationStatus

-- ConversationMember, with whether left_at is set.
pub record MemberRow : Type 0 where
  pub kind : MemberKind
  pub external_user_id : Option String
  pub internal_actor_id : Option String
  pub conv_role : String
  pub left : Bool

-- The conversation row's status and reason, its members in the order of their rows, and what was sent.
pub record Room : Type 0 where
  pub status : ConversationStatus
  pub close_reason : Option String
  pub members : List MemberRow
  pub sent : List String

pub record MemberInput : Type 0 where
  pub user_id : String
  pub conv_role : String
  -- none is the empty kind.
  pub kind : Option MemberKind

pub data Error : Type 0 where
  not_found : Error
  invalid_id : IdError → Error
  invalid : String → Error
  conflict : String → Error

pub data Outcome {ℓ} (A : Type ℓ) : Type ℓ where
  done : A → Outcome A
  fails : Error → Outcome A

abbrev kind_or_user : Option MemberKind → MemberKind
kind_or_user none = user
kind_or_user (some k) = k

abbrev member_of : MemberKind → String → String → MemberRow
member_of agent id role = record {
  kind = agent;
  external_user_id = none;
  internal_actor_id = some id;
  conv_role = role;
  left = false;
}
member_of k id role = record {
  kind = k;
  external_user_id = some id;
  internal_actor_id = none;
  conv_role = role;
  left = false;
}

-- buildMember
unfoldable pub build_member : MemberInput → Outcome MemberRow
build_member mi = elim (external_user_id_error mi.user_id) [
  | some e ↦ fails (invalid_id e)
  | none ↦ done (member_of (kind_or_user mi.kind) mi.user_id mi.conv_role)
]

abbrev send : Room → List String → Room
send r events = record r { sent = r.sent ++ events }

-- AddMember. The insert takes no notice of rows with the same id: no index of the table is unique.
unfoldable pub add_member : Option Room → MemberInput → Option Room × Outcome MemberRow
add_member none mi = (none, fails not_found)
add_member (some r) mi = elim (build_member mi) [
  | fails e ↦ (some r, fails e)
  | done m ↦ (
    some (
        send (record r { members = r.members ++ m ∷ [] })
          ("member.added" ∷ "webhook member.added" ∷ [])),
    done m,
  )
]

abbrev pub is_user : String → Option String → Bool
is_user u none = false
is_user u (some v) = str_eq v u

-- The condition of RemoveExternal.
abbrev pub is_active_as : String → MemberRow → Bool
is_active_as u m = is_user u m.external_user_id && not m.left

-- CountActive
unfoldable pub count_active : List MemberRow → ℕ
count_active [] = 0
count_active (m ∷ ms) = if m.left then count_active ms else suc (count_active ms)

-- The rows that RemoveExternal affects.
unfoldable pub count_as : String → List MemberRow → ℕ
count_as u [] = 0
count_as u (m ∷ ms) = if is_active_as u m then suc (count_as u ms) else count_as u ms

abbrev leave_as : String → MemberRow → MemberRow
leave_as u m = if is_active_as u m then record m { left = true } else m

-- RemoveExternal sets left_at of every active row of the user.
unfoldable pub remove_external : String → List MemberRow → List MemberRow
remove_external u ms = map (leave_as u) ms

-- The refusal of RemoveMember.
unfoldable pub is_last_of_open : Room → Bool
is_last_of_open r = elim r.status [ closed ↦ false | open_ ↦ leb (count_active r.members) 1 ]

-- RemoveMember, none for success
unfoldable pub remove_member : Option Room → String → Option Room × Option Error
remove_member none u = (none, some not_found)
remove_member (some r) u =
    if is_last_of_open r
    then (some r, some (conflict "last_member_removal"))
    else if leb (count_as u r.members) 0
    then (some r, some not_found)
    else (
      some (
          send (record r { members = remove_external u r.members })
            ("member.removed" ∷ "webhook member.removed" ∷ [])),
      none,
    )

abbrev reason_or_closed : String → String
reason_or_closed reason = if str_eq reason "" then "closed" else reason

abbrev valid_reason : String → Bool
valid_reason reason = str_eq reason "closed" || str_eq reason "resolved"

-- conversationRepo.Close: the write is taken only by a row that is not closed.
unfoldable pub close_row : Room → String → Bool × Room
close_row r reason = elim r.status [
  | closed ↦ (false, r)
  | open_ ↦ (true, record r { status = closed; close_reason = some reason })
]

unfoldable pub announce_closed : Bool × Room → Room
announce_closed (false, r) = r
announce_closed (true, r) = send r ("conversation.closed" ∷ "webhook conversation.closed" ∷ [])

-- CloseConversation, none for success
unfoldable pub close_conversation : Option Room → String → Option Room × Option Error
close_conversation room given =
    let reason = reason_or_closed given in
    if not (valid_reason reason)
    then (room, some (invalid "reason must be resolved or closed"))
    else elim room [
      | none ↦ (none, some not_found)
      | some r ↦ (some (announce_closed (close_row r reason)), none)
    ]

abbrev rename_user : String → String → MemberRow → MemberRow
rename_user from to m =
    if is_user from m.external_user_id then record m { external_user_id = some to } else m

abbrev renamed : Option Room → String → String → Option Room
renamed none from to = none
renamed (some r) from to =
    some (send (record r { members = map (rename_user from to) r.members }) ("member.added" ∷ []))

-- Remap, none for success; its writes on messages and receipts are not of this state.
unfoldable pub remap : Option Room → String → String → Option Room × Option Error
remap room from to = elim (external_user_id_error from) [
  | some e ↦ (room, some (invalid_id e))
  | none ↦ elim (external_user_id_error to) [
    | some e ↦ (room, some (invalid_id e))
    | none ↦ (renamed room from to, none)
  ]
]
