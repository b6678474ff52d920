-- ===== src/Domain/Requester/Assertions.antt =====
-- Who an assertion is made for, and how many: backend/internal/domain/requester_assertion.go. The reads of a
-- request, its count of the assertions the last of them, are one step, and its insert is another.
use sild.Common.{
  ℕ, ◌+◌, ◌++◌, ◌≤◌, ◌<◌, String, List, [], ◌∷◌, true, false, not, str_eq, str_eq_iff, length,
  length-append, ltb, ltb→lt, ◌≡◌, refl, sym, ap, ◌∙◌, arith,
}
use mathlib.Core.Path.{subst}
use sild.Domain.Requester.{
  Desk, Body, AdapterRequest, Assertion, Answer, ok, refused, is_closed, is_held_by, requester_sub,
  read_request, vouched, minted, insert_assertion, mint_requester_assertion,
}
use sild.Domain.Requester.Checks.{bind_done, guard_done, ok_injective}

-- What stands behind an assertion of an actor in a conversation.
pub record IsVouched (d : Desk) (actor : String) (body : Body) (a : Assertion) : Type 0 where
  pub conversation_open : is_closed d.status ≡ false
  pub held : is_held_by d.assignment actor ≡ true
  pub of_requester : requester_sub d ≡ ok a.requester_sub
  pub linked : str_eq a.requester_sub "" ≡ false
  pub asked :
      (req : AdapterRequest) × (read_request d body ≡ ok req) × (req.requester_id ≡ a.requester_sub)
  pub by_actor : a.actor_id ≡ actor
  pub room_left : length d.assertions < 50

-- An assertion is made only in an open conversation that the assistant who asks holds, for the linked
-- identity of the conversation's own requester, which the request names, and while fewer than fifty were made.
pub vouched-IsVouched :
    (d : Desk) (actor : String) (body : Body) (a : Assertion)
    → vouched d actor body ≡ ok a
    → IsVouched d actor body a
unfolding vouched
vouched-IsVouched d actor body a h =
    let (req, asked', h1) = bind_done (read_request d body) _ a h in
    let (open', h2) = guard_done (not (is_closed d.status)) _ _ a h1 in
    let (held', h3) = guard_done (is_held_by d.assignment actor) _ _ a h2 in
    let (sub, of', h4) = bind_done (requester_sub d) _ a h3 in
    let (linked', h5) = guard_done (not (str_eq sub "")) _ _ a h4 in
    let (named, h6) = guard_done (str_eq req.requester_id sub) _ _ a h5 in
    let (left', h7) = guard_done (ltb (length d.assertions) 50) _ _ a h6 in
    let same_sub = ap (λ x. x.requester_sub) (ok_injective _ a h7) in
    record {
      conversation_open = ground arith;
      held = held';
      of_requester = of' ∙ ap ok same_sub;
      linked = subst (λ s. str_eq s "" ≡ false) same_sub (ground arith);
      asked = (req, asked', (str_eq_iff req.requester_id sub).0 named ∙ same_sub);
      by_actor = sym (ap (λ x. x.actor_id) (ok_injective _ a h7));
      room_left = ltb→lt (length d.assertions) 50 left';
    }

-- A conversation, with the requests in it that have passed every check and have not inserted yet.
abbrev pub Race : Type 0
Race = Desk × List Assertion

-- One statement of at most k requests at a time: the checks of one with its count, an insert, a failure
-- between the two, or a change of something other than the assertions.
pub data Move (k : ℕ) : Race → Race → Type 0 where
  checks :
      (d : Desk) (ps : List Assertion) (actor : String) (body : Body) (a : Assertion)
      → vouched d actor body ≡ ok a
      → length ps < k
      → Move k (d, ps) (d, a ∷ ps)
  inserts :
      (d : Desk) (before : List Assertion) (a : Assertion) (after : List Assertion)
      → Move k (d, before ++ a ∷ after) (insert_assertion d a, before ++ after)
  fails :
      (d : Desk) (before : List Assertion) (a : Assertion) (after : List Assertion)
      → Move k (d, before ++ a ∷ after) (d, before ++ after)
  elsewhere :
      (d e : Desk) (ps : List Assertion) → e.assertions ≡ d.assertions → Move k (d, ps) (e, ps)

pub data Moves (k : ℕ) : Race → Race → Type 0 where
  rests : {s : Race} → Moves k s s
  then_ : {s t u : Race} → Move k s t → Moves k t u → Moves k s u

-- A call that no other request comes between is two statements of one request at a time, or none.
mint-Moves :
    (d : Desk) (actor : String) (body : Body)
    → Moves 1 (d, []) ((mint_requester_assertion d actor body).0, [])
unfolding mint_requester_assertion
mint-Moves d actor body = moved (vouched d actor body) refl
  where
    moved : (x : Answer Assertion) → vouched d actor body ≡ x → Moves 1 (d, []) ((minted d x).0, [])
    moved (refused e) v = rests
    moved (ok a) v =
        then_ (checks d [] actor body a v (omega arith)) (then_ (inserts d [] a []) rests)

-- How many assertions there are and may still come of the requests that have passed.
abbrev pub made : Race → ℕ
made s = length s.0.assertions + length s.1

Move-made : (k : ℕ) {s t : Race} → Move k s t → made s ≤ 49 + k → made t ≤ 49 + k
unfolding insert_assertion
Move-made k (checks d ps actor body a v free) le =
    omega (arith, (vouched-IsVouched d actor body a v).room_left)
Move-made k (inserts d before a after) le = omega (
  arith,
  length-append before (a ∷ after),
  length-append before after,
  length-append d.assertions (a ∷ []),
)
Move-made k (fails d before a after) le =
    omega (arith, length-append before (a ∷ after), length-append before after)
Move-made k (elsewhere d e ps same) le = rw same le

Moves-made : (k : ℕ) {s t : Race} → Moves k s t → made s ≤ 49 + k → made t ≤ 49 + k
Moves-made k rests le = le
Moves-made k (then_ m ms) le = Moves-made k ms (Move-made k m le)

-- However the statements of the requests of a conversation interleave, with at most k requests between
-- their count and their insert at any time, a conversation that has no more than 49 + k assertions, those
-- that have passed their checks included, is left with no more: fifty where requests come one by one.
pub assertions_bounded :
    (k : ℕ) (s t : Race)
    → Moves k s t
    → length s.0.assertions + length s.1 ≤ 49 + k
    → length t.0.assertions ≤ 49 + k
assertions_bounded k s t ms le = omega (arith, Moves-made k ms le)

-- The bound is met: at 49 assertions two requests that both pass before either inserts make 51.
limit_overrun :
    (d : Desk) (actor : String) (body : Body) (a : Assertion)
    → vouched d actor body ≡ ok a
    → length d.assertions ≡ 49
    → (t : Desk) × Moves 2 (d, []) (t, []) × (length t.assertions ≡ 51)
unfolding insert_assertion
limit_overrun d actor body a v full = (
  insert_assertion (insert_assertion d a) a,
  then_ (checks d [] actor body a v (omega arith)) (
      then_ (checks d (a ∷ []) actor body a v (omega arith))
        (then_ (inserts d [] a (a ∷ [])) (then_ (inserts (insert_assertion d a) [] a []) rests))),
  omega
      (arith, length-append (d.assertions ++ a ∷ []) (a ∷ []), length-append d.assertions (a ∷ [])),
)
