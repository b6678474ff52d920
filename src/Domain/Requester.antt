-- ===== src/Domain/Requester.antt =====
-- What the assistant asks for a requester, and what the requester approves:
-- backend/internal/domain/requester_assertion.go. The state is one conversation, with its active members,
-- its assignment, its messages but for internal notes, in the order of their ids, and the assertions that
-- were made in it.
pub mod Checks
pub mod Approvals
pub mod Settled
pub mod Assertions
use Prim.Native.String.{len}
use sild.Common.{
  ℕ, suc, ◌-◌, drop, String, List, [], ◌∷◌, ◌++◌, Bool, true, false, not, ◌&&◌, ◌||◌, Option, none,
  some, str_eq, contains, length, is_empty, leb, ltb, ◌==◌, if◌then◌else◌, each_char,
}
use sild.Domain.Membership.{ConversationStatus, open_, closed, MemberRow}
use sild.Domain.Parts.{SenderKind, bot, system, StepPart, MessagePart, max_approved, has_approval}
use sild.Store.Assignments.{AssignmentStatus, queued, assigned}

abbrev pub max_assertions_per_conversation : ℕ
max_assertions_per_conversation = 50

-- 64 << 10
abbrev pub max_adapter_request_bytes : ℕ
max_adapter_request_bytes = 65536

-- adapterRequest, without its parameters
pub record AdapterRequest : Type 0 where
  pub id : String
  pub requester_id : String
  pub conversation_ref : String
  pub source : String

-- A request body: how long it is, and what it decodes to.
pub record Body : Type 0 where
  pub bytes : ℕ
  pub request : Option AdapterRequest

-- Message, with what the approvals read of it; parts that do not decode are none.
pub record PageMessage : Type 0 where
  pub sender_kind : SenderKind
  pub created_at : ℕ
  pub updated_at : Option ℕ
  pub parts : Option (List MessagePart)

-- The assignment's status and assignee.
pub record Held : Type 0 where
  pub status : AssignmentStatus
  pub assignee : Option String

-- RequesterAssertion
pub record Assertion : Type 0 where
  pub actor_id : String
  pub requester_sub : String
  pub request_id : String
  pub source : String

pub record Desk : Type 0 where
  pub id : String
  pub status : ConversationStatus
  pub members : List MemberRow
  pub assignment : Option Held
  pub messages : List PageMessage
  pub assertions : List Assertion
  -- The integrator identity of a team member, none outside for no such member.
  pub external_sub : String → Option (Option String)

pub data Error : Type 0 where
  invalid : String → Error
  conflict : String → Error
  forbidden not_found : Error

pub data Answer {ℓ} (A : Type ℓ) : Type ℓ where
  ok : A → Answer A
  refused : Error → Answer A

infixl 5 ◌>>=◌ ◌>>◌
abbrev pub ◌>>=◌ {ℓ κ} : {A : Type ℓ} {B : Type κ} → Answer A → (A → Answer B) → Answer B
ok a >>= f = f a
refused e >>= f = refused e

abbrev pub ◌>>◌ {ℓ} : {B : Type ℓ} → Answer (Unit {0}) → Answer B → Answer B
m >> k = m >>= λ _. k

abbrev pub guard : Bool → Error → Answer (Unit {0})
guard true e = ok tt
guard false e = refused e

abbrev pub is_id_char : ℕ → Bool
is_id_char r =
    (leb 65 r && leb r 90)
    || ((leb 97 r && leb r 122) || ((leb 48 r && leb r 57) || (r == 95 || r == 45)))

-- adapterRequestID
unfoldable pub is_request_id : String → Bool
is_request_id s = leb 8 (len s) && (leb (len s) 64 && each_char is_id_char s)

abbrev pub is_client : MemberRow → Bool
is_client m = str_eq m.conv_role "client"

-- requesterActor
unfoldable pub requester_actor : List MemberRow → Option String
requester_actor [] = none
requester_actor (m ∷ ms) =
    let rest = requester_actor ms in
    if is_client m then elim m.internal_actor_id [ none ↦ rest | some a ↦ some a ] else rest

abbrev pub sub_or_empty : Option String → String
sub_or_empty none = ""
sub_or_empty (some s) = s

-- requesterSub
unfoldable pub requester_sub : Desk → Answer String
requester_sub d = elim (requester_actor d.members) [
  | none ↦ ok ""
  | some actor ↦ elim (d.external_sub actor) [
    | none ↦ refused not_found
    | some sub ↦ ok (sub_or_empty sub)
  ]
]

abbrev is_assigned : AssignmentStatus → Bool
is_assigned assigned = true
is_assigned _ = false

abbrev pub same_text : Option String → String → Bool
same_text none s = false
same_text (some t) s = str_eq t s

-- The assistant holds the conversation.
unfoldable pub is_held_by : Option Held → String → Bool
is_held_by none actor = false
is_held_by (some h) actor = is_assigned h.status && same_text h.assignee actor

abbrev pub is_closed : ConversationStatus → Bool
is_closed open_ = false
is_closed closed = true

abbrev decoded : Option AdapterRequest → Answer AdapterRequest
decoded none = refused (invalid "body is not an adapter request")
decoded (some r) = ok r

-- The request of a body that is one.
unfoldable pub read_request : Desk → Body → Answer AdapterRequest
read_request d body = do
  guard (leb 1 body.bytes && leb body.bytes max_adapter_request_bytes)
      (invalid "body must be the adapter request, at most 64 KiB")
  req ← decoded body.request
  guard (is_request_id req.id && (not (str_eq req.source "") && str_eq req.conversation_ref d.id))
      (invalid "body needs an id, a source, and this conversation as conversation_ref")
  ok req

-- The assertion of MintRequesterAssertion before its insert.
unfoldable pub vouched : Desk → String → Body → Answer Assertion
vouched d actor body = do
  req ← read_request d body
  guard (not (is_closed d.status)) (conflict "conversation_closed")
  guard (is_held_by d.assignment actor) forbidden
  sub ← requester_sub d
  guard (not (str_eq sub "")) (conflict "requester_not_linked")
  guard (str_eq req.requester_id sub) (invalid "requester.id is not this conversation's requester")
  guard (ltb (length d.assertions) max_assertions_per_conversation) (conflict "request_limit")
  ok (record { actor_id = actor; requester_sub = sub; request_id = req.id; source = req.source })

-- Its insert, a statement of its own: other requests may be served between the count and it.
unfoldable pub insert_assertion : Desk → Assertion → Desk
insert_assertion d a = record d { assertions = d.assertions ++ a ∷ [] }

abbrev minted : Desk → Answer Assertion → Desk × Answer Assertion
minted d (refused e) = (d, refused e)
minted d (ok a) = (insert_assertion d a, ok a)

-- MintRequesterAssertion, up to the signature, with no other request between its statements
unfoldable pub mint_requester_assertion : Desk → String → Body → Desk × Answer Assertion
mint_requester_assertion d actor body = minted d (vouched d actor body)

abbrev is_system : SenderKind → Bool
is_system system = true
is_system _ = false

abbrev pub is_bot : SenderKind → Bool
is_bot bot = true
is_bot _ = false

-- The loop of awaitingApproval for the latest approval.
unfoldable pub approved_at : ℕ → List PageMessage → ℕ
approved_at at_ [] = at_
approved_at at_ (m ∷ ms) =
    let newer = approved_at m.created_at ms in
    let same = approved_at at_ ms in
    if is_system m.sender_kind && (ltb at_ m.created_at && has_approval m.parts)
    then newer
    else same

-- When a message was last changed.
unfoldable pub changed : PageMessage → ℕ
changed m = elim m.updated_at [
  | none ↦ m.created_at
  | some u ↦ if ltb m.created_at u then u else m.created_at
]

abbrev pub waits : StepPart → Bool
waits st = str_eq st.state "needs_approval"

-- The loop over the steps of a part. A label was seen when it is among the items.
unfoldable pub step_items : List String → List StepPart → List String
step_items items [] = items
step_items items (st ∷ sts) =
    let added = step_items (items ++ st.label ∷ []) sts in
    let same = step_items items sts in
    if waits st && (not (contains items st.label) && ltb (length items) max_approved)
    then added
    else same

unfoldable pub part_items : List String → List MessagePart → List String
part_items items [] = items
part_items items (p ∷ ps) = part_items (step_items items p.steps) ps

-- The loop over the messages.
unfoldable pub message_items : ℕ → List String → List PageMessage → List String
message_items at_ items [] = items
message_items at_ items (m ∷ ms) =
    let skipped = message_items at_ items ms in
    elim m.parts [
      | none ↦ skipped
      | some ps ↦
          if is_bot m.sender_kind && ltb at_ (changed m)
          then message_items at_ (part_items items ps) ms
          else skipped
    ]

-- The page that awaitingApproval reads: ListBefore with no id and a limit, over the messages in the order
-- of their ids.
unfoldable pub last_page : ℕ → List PageMessage → List PageMessage
last_page limit ms = drop (length ms - limit) ms

-- awaitingApproval
unfoldable pub awaiting_approval : List PageMessage → List String
awaiting_approval ms = let page = last_page 100 ms in message_items (approved_at 0 page) [] page

abbrev pub approval_part : List String → MessagePart
approval_part items = record {
  type = "approval";
  steps = [];
  cause = "";
  fix = [];
  evidence = [];
  items = items;
}

-- ApproveDataAccess, up to the message that it sends: its parts
unfoldable pub approve_data_access : Desk → String → Answer (List MessagePart)
approve_data_access d actor = do
  guard (not (is_closed d.status)) (conflict "conversation_closed")
  guard (same_text (requester_actor d.members) actor) forbidden
  guard (not (is_empty (awaiting_approval d.messages))) (conflict "nothing_to_approve")
  ok (approval_part (awaiting_approval d.messages) ∷ [])
