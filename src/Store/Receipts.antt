-- ===== src/Store/Receipts.antt =====
-- Read receipts: receiptRepo of backend/internal/store/gormstore/conversation.go, with MarkRead of
-- backend/internal/domain/receipt.go. The state is the rows of one conversation, without their times.
pub mod Monotone
use sild.Common.{
  String, List, [], ◌∷◌, ◌++◌, Bool, true, false, ◌&&◌, Option, none, some, str_eq, text_lt,
  if◌then◌else◌,
}
use sild.Domain.Membership.{MemberKind}

-- store.Participant
pub record Participant : Type 0 where
  pub kind : String
  pub external_user_id : Option String
  pub internal_actor_id : Option String

-- ReadReceipt
pub record Receipt : Type 0 where
  pub participant : Participant
  pub last_read : String

abbrev same_id : Option String → String → Bool
same_id none s = false
same_id (some t) s = str_eq t s

-- The where clause of Upsert, with applyParticipant: the id that is set decides, and none lets the kind
-- alone decide.
unfoldable pub matches : Participant → Participant → Bool
matches p q = str_eq q.kind p.kind && elim p.external_user_id [
  | some e ↦ same_id q.external_user_id e
  | none ↦ elim p.internal_actor_id [ some i ↦ same_id q.internal_actor_id i | none ↦ true ]
]

-- The first row of a participant.
unfoldable pub find_receipt : List Receipt → Participant → Option Receipt
find_receipt [] p = none
find_receipt (r ∷ rs) p =
    let rest = find_receipt rs p in if matches p r.participant then some r else rest

abbrev pub later_of : String → Receipt → Receipt
later_of id r = if text_lt r.last_read id then record r { last_read = id } else r

-- Upsert: the first row of the participant takes the id if it is later, and without a row one is made.
unfoldable pub upsert : List Receipt → Participant → String → List Receipt
upsert [] p id = record { participant = p; last_read = id } ∷ []
upsert (r ∷ rs) p id =
    let rest = upsert rs p id in if matches p r.participant then later_of id r ∷ rs else r ∷ rest

-- MarkRead: the rows, and whether message.read went out
unfoldable pub mark_read : List Receipt → Participant → String → List Receipt × Bool
mark_read rs p id = if str_eq id "" then (rs, false) else (upsert rs p id, true)

-- Get
unfoldable pub last_read_of : List Receipt → Participant → Option String
last_read_of rs p = elim (find_receipt rs p) [ none ↦ none | some r ↦ some r.last_read ]
