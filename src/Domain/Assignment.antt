-- ===== src/Domain/Assignment.antt =====
-- backend/internal/domain/assignment.go: the assignment state machine of the service. The state is
-- what the database holds, with the events that were published in order; queries do not fail.
pub mod Lifecycle
pub mod Claims
use sild.Common.{
  ℕ, String, List, [], ◌∷◌, ◌++◌, Bool, true, false, ◌&&◌, ◌||◌, Option, none, some, str_eq,
  if◌then◌else◌,
}
use sild.Models.Enums.{ConversationKind, is_peer}
use sild.Store.Assignments.{
  AssignmentStatus, queued, assigned, closed, same_status, Assignment, Table, Transition, put,
  transition,
}

pub data Error : Type 0 where
  not_found forbidden duplicate_key : Error
  conflict : String → String → Error

pub data Result {ℓ} (A : Type ℓ) : Type ℓ where
  ok : A → Result A
  err : Error → Result A

pub data Event : Type 0 where
  created updated : Assignment → Event
  emitted : Assignment → Event

pub record Db : Type 0 where
  pub assignments : Table
  -- Conversations().Get: the kind of the conversation, if there is one.
  pub conversations : String → String → Option ConversationKind
  pub events : List Event

abbrev publish : Db → List Event → Db
publish db es = record db { events = db.events ++ es }

-- AddAssignment. The id is the one that id.New makes for the row; an insert under a taken key fails.
unfoldable pub add_assignment : Db → String → String → ℕ → String → Db × Result Assignment
add_assignment db tenant conv now id =
    let a : Assignment = record {
      id = id;
      tenant_id = tenant;
      conversation_id = conv;
      assignee = none;
      status = queued;
      created_at = now;
      closed_at = none;
    } in
    elim (db.conversations tenant conv) [
      | none ↦ (db, err not_found)
      | some kind ↦ if is_peer kind then (db, err forbidden) else elim (db.assignments tenant id) [
        | some taken ↦ (db, err duplicate_key)
        | none ↦ (
          publish (record db { assignments = put db.assignments tenant id (some a) })
              (created a ∷ emitted a ∷ []),
          ok a,
        )
      ]
    ]

-- The events after a write that took the row; without its conversation only the webhook fires.
unfoldable pub announce : Db → String → Assignment → Db
announce db tenant a = elim (db.conversations tenant a.conversation_id) [
  | none ↦ publish db (updated a ∷ [])
  | some kind ↦ publish db (emitted a ∷ updated a ∷ [])
]

-- What follows the guarded write in transition: the row is read back, and `lost` decides where the
-- guard refused.
unfoldable pub settle :
    Db → String → String → Bool → (Assignment → Option Error) → Db × Result Assignment
settle db tenant id won lost = elim (db.assignments tenant id) [
  | none ↦ (db, err not_found)
  | some a ↦
      if won
      then (announce db tenant a, ok a)
      else elim (lost a) [ none ↦ (db, ok a) | some e ↦ (db, err e) ]
]

-- transition
unfoldable pub apply_transition :
    Db → String → String → Transition → (Assignment → Option Error) → Db × Result Assignment
apply_transition db tenant id t lost =
    let (won, table) = transition db.assignments tenant id t in
    settle (record db { assignments = table }) tenant id won lost

abbrev pub held_by : Option String → String → Bool
held_by none agent = false
held_by (some s) agent = str_eq s agent

abbrev pub already_closed : String → Error
already_closed msg = conflict "assignment_already_closed" msg

-- The function `lost` of ClaimAssignment.
unfoldable pub claim_lost : String → Assignment → Option Error
claim_lost agent a =
    if same_status a.status closed
    then some (already_closed "assignment is already closed")
    else if held_by a.assignee agent
    then none
    else some (conflict "assignment_already_taken" "assignment is already claimed by another agent")

abbrev pub claim_transition : String → Transition
claim_transition agent = record {
  from = queued ∷ [];
  to = assigned;
  assignee = some agent;
  clear_assignee = false;
  closed_at = none;
}

abbrev pub close_transition : ℕ → Transition
close_transition now = record {
  from = queued ∷ assigned ∷ [];
  to = closed;
  assignee = none;
  clear_assignee = false;
  closed_at = some now;
}

abbrev pub return_transition : Transition
return_transition = record {
  from = assigned ∷ [];
  to = queued;
  assignee = none;
  clear_assignee = true;
  closed_at = none;
}

-- ClaimAssignment
unfoldable pub claim_assignment : Db → String → String → String → Db × Result Assignment
claim_assignment db tenant id agent =
    apply_transition db tenant id (claim_transition agent) (claim_lost agent)

-- CloseAssignment
unfoldable pub close_assignment : Db → String → String → ℕ → Db × Result Assignment
close_assignment db tenant id now = apply_transition db tenant id (close_transition now) (λ a. none)

-- ReturnToQueue
unfoldable pub return_to_queue : Db → String → String → Db × Result Assignment
return_to_queue db tenant id =
    apply_transition db tenant id return_transition
      (λ a. some (already_closed "assignment is not currently assigned"))
