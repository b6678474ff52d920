-- ===== src/Examples/Assignments.antt =====
-- Examples of the assignment state machine of backend/internal/domain/assignment.go.
use sild.Common.{[], ◌∷◌, true, false, none, some, ◌≡◌, refl, str_eq, arith}
use sild.Models.Enums.{support}
use sild.Store.Assignments.{Assignment, queued, assigned, closed, put}
use sild.Domain.Assignment.{Db}
use sild.Domain.Assignment.Lifecycle.{claims, closes, returns, run, run-IsSound, IsSound, coherent}
use sild.Domain.Assignment.Claims.{run_closed, race, one_winner}

abbrev fresh : Assignment
fresh = record {
  id = "asg_1";
  tenant_id = "ten_1";
  conversation_id = "conv_1";
  assignee = none;
  status = queued;
  created_at = 5;
  closed_at = none;
}

abbrev taken : Assignment
taken = record fresh { status = assigned; assignee = some "bob" }

abbrev done : Assignment
done = record taken { status = closed; closed_at = some 9 }

abbrev db_of : Assignment → Db
db_of a = record {
  assignments = put (λ t i. none) "ten_1" "asg_1" (some a);
  conversations = λ t i. some support;
  events = [];
}

db_of-IsSound : (a : Assignment) → coherent a ≡ true → IsSound (db_of a)
unfolding put
db_of-IsSound a c = record { row_sound = λ t i b h. (ground arith, refl) }

run-IsSound_example : IsSound (
    run (db_of fresh) (
      ("ten_1", claims "asg_1" "ann")
      ∷ ("ten_1", returns "asg_1")
      ∷ ("ten_1", closes "asg_1" 9)
      ∷ []))
run-IsSound_example =
    run-IsSound (db_of fresh)
      (("ten_1", claims "asg_1" "ann")
        ∷ ("ten_1", returns "asg_1")
        ∷ ("ten_1", closes "asg_1" 9)
        ∷ [])
      (db_of-IsSound fresh refl)

run_closed_example :
    (run
        (db_of done)
        (("ten_1", claims "asg_1" "ann") ∷ ("ten_1", returns "asg_1") ∷ [])).assignments
      "ten_1" "asg_1"
    ≡ some done
unfolding put str_eq
run_closed_example =
    run_closed "ten_1" "asg_1" done refl (db_of done)
      (("ten_1", claims "asg_1" "ann") ∷ ("ten_1", returns "asg_1") ∷ []) refl

one_winner_example :
    ((race (db_of fresh).assignments "ten_1" "asg_1" ("ann" ∷ "bob" ∷ "cho" ∷ [])).0
      ≡ true ∷ false ∷ false ∷ [])
    × ((race (db_of fresh).assignments "ten_1" "asg_1" ("ann" ∷ "bob" ∷ "cho" ∷ [])).1 "ten_1"
          "asg_1"
        ≡ some (record fresh { status = assigned; assignee = some "ann" }))
unfolding put str_eq
one_winner_example =
    one_winner "ten_1" "asg_1" fresh (db_of fresh).assignments "ann" ("bob" ∷ "cho" ∷ []) refl refl
