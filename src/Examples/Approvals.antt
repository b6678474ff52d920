-- ===== src/Examples/Approvals.antt =====
-- Examples of the assertions, the approvals and the receipts of backend/internal.
use mathlib.Core.Option.{some-injective}
use mathlib.Core.Path.{subst}
use sild.Common.{
  ◌++◌, ◌≤◌, String, List, [], ◌∷◌, false, none, some, str_eq, any, contains, each_char, text_lt,
  length, All, ◌≡◌, refl, arith,
}
use sild.Domain.Membership.{MemberKind, open_, MemberRow}
use sild.Domain.Parts.{
  bot, system, StepPart, MessagePart, validate_parts, stored, sends_parts, refused_from, allowed,
  valid_content, valid_steps, valid_step, known_state, short, each, valid_approval, valid_item,
  has_approval,
}
use sild.Store.Assignments.{assigned}
use sild.Store.Receipts.{Participant, matches, find_receipt, last_read_of}
use sild.Store.Receipts.Monotone.{mark_all, marks_move_forward}
use sild.Domain.Requester.{
  Assertion, Desk, Body, refused, conflict, is_request_id, requester_actor, requester_sub,
  is_held_by, read_request, vouched, insert_assertion, last_page, approved_at, changed, step_items,
  part_items, message_items, awaiting_approval, approval_part, approve_data_access,
}
use sild.Domain.Requester.Approvals.{approval_stored}
use sild.Domain.Requester.Settled.{sent_at, approval_clears}
use sild.Domain.Requester.Assertions.{
  IsVouched, vouched-IsVouched, Moves, checks, inserts, rests, then_, assertions_bounded,
}

abbrev reader : Participant
reader = record { kind = "user"; external_user_id = some "u1"; internal_actor_id = none }

marks_move_forward_example :
    (y : String) × (last_read_of
        (mark_all
          (record { participant = reader; last_read = "m4" } ∷ [])
          reader
          ("m9" ∷ "m2" ∷ []))
        reader
      ≡ some y)
    × (text_lt y "m4" ≡ false)
    × All (λ (id : String). text_lt y id ≡ false) ("m9" ∷ "m2" ∷ [])
unfolding matches last_read_of find_receipt str_eq
marks_move_forward_example =
    marks_move_forward (record { participant = reader; last_read = "m4" } ∷ []) reader
      ("m9" ∷ "m2" ∷ []) "m4" refl refl

-- A conversation that the assistant holds, with a step that waits.
abbrev waiting : StepPart
waiting = record {
  label = "Read orders";
  result = "";
  state = "needs_approval";
  internal = [];
  approved_until = 0;
}

abbrev waiting_parts : List MessagePart
waiting_parts =
    record { type = "steps"; steps = waiting ∷ []; cause = ""; fix = []; evidence = []; items = [] }
    ∷ []

abbrev client : MemberRow
client = record {
  kind = MemberKind.agent;
  external_user_id = none;
  internal_actor_id = some "a1";
  conv_role = "client";
  left = false;
}

abbrev desk : Desk
desk = record {
  id = "c1";
  status = open_;
  members = client ∷ [];
  assignment = some (record { status = assigned; assignee = some "bot" });
  messages =
      record { sender_kind = bot; created_at = 5; updated_at = none; parts = some waiting_parts }
      ∷ [];
  assertions = [];
  external_sub = λ id. some (some "ext-1");
}

abbrev order_request : Body
order_request = record {
  bytes = 120;
  request = some (record {
    id = "req-0001";
    requester_id = "ext-1";
    conversation_ref = "c1";
    source = "orders";
  });
}

-- To unfold this name is to unfold what the calls compute with.
unfoldable runs : Unit {0}
unfolding str_eq any contains each_char validate_parts sends_parts refused_from allowed
    valid_content valid_steps valid_step known_state short each valid_approval valid_item
    has_approval is_request_id requester_actor requester_sub is_held_by read_request vouched
    last_page approved_at changed step_items part_items message_items awaiting_approval
    approve_data_access
runs = tt

vouched-IsVouched_example : IsVouched desk "bot" order_request (record {
  actor_id = "bot";
  requester_sub = "ext-1";
  request_id = "req-0001";
  source = "orders";
})
unfolding runs
vouched-IsVouched_example = vouched-IsVouched desk "bot" order_request _ refl

abbrev order_assertion : Assertion
order_assertion = record {
  actor_id = "bot";
  requester_sub = "ext-1";
  request_id = "req-0001";
  source = "orders";
}

-- Two requests that are both checked before either is inserted.
two_at_once :
    Moves 2
      (desk, [])
      (insert_assertion (insert_assertion desk order_assertion) order_assertion, [])
unfolding runs
two_at_once = then_ (checks desk [] "bot" order_request order_assertion refl (ground arith)) (
    then_
      (checks desk (order_assertion ∷ []) "bot" order_request order_assertion refl (ground arith))
      (then_ (inserts desk [] order_assertion (order_assertion ∷ []))
        (then_ (inserts (insert_assertion desk order_assertion) [] order_assertion []) rests)))

assertions_bounded_example :
    length (insert_assertion (insert_assertion desk order_assertion) order_assertion).assertions
    ≤ 51
assertions_bounded_example =
    assertions_bounded 2 (desk, [])
      (insert_assertion (insert_assertion desk order_assertion) order_assertion, []) two_at_once
      (ground arith)

approval_stored_example :
    validate_parts (some (approval_part ("Read orders" ∷ []) ∷ [])) system
    ≡ stored (approval_part ("Read orders" ∷ []) ∷ [])
unfolding runs
approval_stored_example =
    approval_stored desk "a1" (approval_part ("Read orders" ∷ []) ∷ [])
      (
        record {
          accepted = λ ps b e.
              subst (λ qs. validate_parts (some qs) bot ≡ stored qs)
                (some-injective waiting_parts ps e) refl;
        },
        tt,
      )
      refl

approval_clears_example :
    approve_data_access
      (record desk {
        messages = desk.messages ++ sent_at 9 (approval_part ("Read orders" ∷ []) ∷ []) ∷ [];
      })
      "a1"
    ≡ refused (conflict "nothing_to_approve")
unfolding runs
approval_clears_example =
    approval_clears desk "a1" 9 (approval_part ("Read orders" ∷ []) ∷ []) refl (ground arith, tt)
