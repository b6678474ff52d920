-- ===== src/Domain/Message/Retries.antt =====
-- One message for one client_msg_id: retries of SendMessage in backend/internal/domain/message.go.
use sild.Common.{
  String, List, [], ◌∷◌, ◌++◌, true, false, Option, none, some, str_eq, str_eq_refl, ◌≡◌, refl,
  arith, Option-cases, inl, inr,
}
use sild.Domain.Message.{Message, Thread, sent}
use sild.Domain.Message.Begin.{find_key, same_key, find_by_client_msg_id}
use sild.Domain.Message.Finish.{collides, finish_send}

-- Inserts of other sends, one after the other.
unfoldable pub run : Thread → List Message → Thread
run th [] = th
run th (m ∷ ms) = run (finish_send th m).0 ms

find_key-append :
    (key : String) (ms xs : List Message) (a : Message)
    → find_key key ms ≡ some a
    → find_key key (ms ++ xs) ≡ some a
unfolding find_key
find_key-append key [] xs a h = absurd (ground arith)
find_key-append key (m ∷ ms) xs a h = ground (arith, find_key-append key ms xs a)

find_key-last :
    (key : String) (ms : List Message) (m : Message)
    → find_key key ms ≡ none
    → m.client_msg_id ≡ some key
    → find_key key (ms ++ m ∷ []) ≡ some m
unfolding find_key same_key
find_key-last key [] m h k = rw (k, same_key, str_eq_refl key) refl
find_key-last key (n ∷ ms) m h k = ground (arith, find_key-last key ms m)

finish_keeps :
    (key : String) (th : Thread) (m a : Message)
    → find_key key th.messages ≡ some a
    → find_key key (finish_send th m).0.messages ≡ some a
unfolding finish_send
finish_keeps key th m a h = ground (arith, find_key-append key th.messages (m ∷ []) a h)

run_keeps :
    (key : String) (th : Thread) (ms : List Message) (a : Message)
    → find_key key th.messages ≡ some a
    → find_key key (run th ms).messages ≡ some a
unfolding run
run_keeps key th [] a h = h
run_keeps key th (m ∷ ms) a h = run_keeps key (finish_send th m).0 ms a (finish_keeps key th m a h)

module _ (key : String) (ms : List Message) (k : Option String) (e : k ≡ some key) where
  collides_taken : (a : Message) → find_key key ms ≡ some a → collides ms k ≡ true
  unfolding collides
  collides_taken a h = rw (e, collides, h) refl

  collides_free : find_key key ms ≡ none → collides ms k ≡ false
  unfolding collides
  collides_free h = rw (e, collides, h) refl

  found_by :
      (a : Message)
      → str_eq key "" ≡ false
      → find_key key ms ≡ some a
      → find_by_client_msg_id ms k ≡ some a
  unfolding find_by_client_msg_id
  found_by a filled h = rw (e, find_by_client_msg_id, filled, h) refl

module _ (key : String) (filled : str_eq key "" ≡ false) where
  finish_found :
      (th : Thread) (m a : Message)
      → m.client_msg_id ≡ some key
      → find_key key th.messages ≡ some a
      → finish_send th m ≡ (th, sent a)
  unfolding finish_send
  finish_found th m a k h =
      rw
        (
          collides_taken key th.messages m.client_msg_id k a h,
          finish_send,
          found_by key th.messages m.client_msg_id k a filled h,
        )
        refl

  finish_new :
      (th : Thread) (m : Message)
      → m.client_msg_id ≡ some key
      → find_key key th.messages ≡ none
      → ((finish_send th m).1 ≡ sent m) × (find_key key (finish_send th m).0.messages ≡ some m)
  unfolding finish_send
  finish_new th m k h =
      rw (finish_send, collides_free key th.messages m.client_msg_id k h)
        (refl, find_key-last key th.messages m h k)

  finish_answers :
      (th : Thread) (m : Message)
      → m.client_msg_id ≡ some key
      → (a : Message) × ((finish_send th m).1 ≡ sent a)
        × (find_key key (finish_send th m).0.messages ≡ some a)
  finish_answers th m k = elim (Option-cases (find_key key th.messages)) [
    | inl h ↦ let (e, f) = finish_new th m k h in (m, e, f)
    | inr (a, h) ↦ (a, rw (finish_found th m a k h) refl, rw (finish_found th m a k h) h)
  ]

-- Whatever other sends get through in between, a second insert under the same key that is not empty changes
-- nothing and answers with the message that the first one answered with.
pub retries_agree :
    (key : String) (th : Thread) (first again : Message) (others : List Message)
    → str_eq key "" ≡ false
    → first.client_msg_id ≡ some key
    → again.client_msg_id ≡ some key
    → finish_send (run (finish_send th first).0 others) again
      ≡ (run (finish_send th first).0 others, (finish_send th first).1)
retries_agree key th first again others filled k k' =
    let (a, e, found) = finish_answers key filled th first k in
    rw e (
      finish_found key filled (run (finish_send th first).0 others) again a k'
        (run_keeps key (finish_send th first).0 others a found))
