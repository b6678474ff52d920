-- ===== src/Webhook.antt =====
-- backend/internal/connector/webhook/relay.go: one pass over claimed events, and the retries. What the
-- relay meets is given: whether the row is still its own before each endpoint, and each answer.
pub mod Retries
use sild.Common.{
  ℕ, suc, ◌+◌, ◌-◌, String, List, [], ◌∷◌, ◌++◌, Bool, true, false, not, ◌&&◌, ◌||◌, Option, none,
  some, ltb, leb, length, get_or, map, if◌then◌else◌,
}
use sild.Store.Claim.{Row, DeliveryStatus, pending, delivered, failed, settle, reschedule}

-- backoffSchedule, in seconds
abbrev pub backoff_schedule : List ℕ
backoff_schedule = 60 ∷ 300 ∷ 1800 ∷ 7200 ∷ 21600 ∷ []

-- What one endpoint's turn meets: `ours` is the answer of holds (none for an error), `code` that of
-- post (none for an error).
pub record Turn : Type 0 where
  pub ours : Option Bool
  pub code : Option ℕ

-- One row of the delivery log.
pub record Delivery : Type 0 where
  pub attempt : ℕ
  pub status : DeliveryStatus
  pub status_code : ℕ

-- What deliver does with the outbox row in the end.
pub data Outcome : Type 0 where
  mark_delivered mark_failed abandoned : Outcome
  retry : ℕ → ℕ → Outcome

abbrev pub is_success : Option ℕ → Bool
is_success none = false
is_success (some code) = leb 200 code && ltb code 300

abbrev code_of : Option ℕ → ℕ
code_of none = 0
code_of (some code) = code

-- Relay.reschedule
unfoldable pub retry_or_fail : ℕ → Outcome
retry_or_fail attempts =
    if leb (length backoff_schedule) (attempts + 1)
    then mark_failed
    else retry (attempts + 1) (get_or backoff_schedule (attempts + 1) 0)

abbrev pub log_entry : ℕ → Option ℕ → Delivery
log_entry attempts code = record {
  attempt = attempts + 1;
  status = if is_success code then delivered else failed;
  status_code = code_of code;
}

-- The loop of deliver over the endpoints, with `allOK` so far: the outcome and the log.
unfoldable pub deliver_each : ℕ → Bool → List Turn → Outcome × List Delivery
deliver_each attempts all_ok [] = (if all_ok then mark_delivered else retry_or_fail attempts, [])
deliver_each attempts all_ok (t ∷ rest) =
    let (out, log) = deliver_each attempts (all_ok && is_success t.code) rest in
    elim t.ours [
      | none ↦ (abandoned, [])
      | some mine ↦ if mine then (out, log_entry attempts t.code ∷ log) else (abandoned, [])
    ]

-- deliver: `turns` is none where listing the endpoints failed.
unfoldable pub deliver : ℕ → Option (List Turn) → Outcome × List Delivery
deliver attempts none = (retry_or_fail attempts, [])
deliver attempts (some turns) = deliver_each attempts true turns

-- The write of the outcome on the outbox row.
unfoldable pub commit : Outcome → ℕ → Row → Row
commit mark_delivered now r = settle r.id delivered r
commit mark_failed now r = settle r.id failed r
commit abandoned now r = r
commit (retry attempts delay) now r = reschedule r.id attempts delay now r

-- A claimed event in a pass: the answer of holds before it, its row, and the turns of its endpoints.
pub record Job : Type 0 where
  pub ours : Option Bool
  pub row : Row
  pub turns : Option (List Turn)

abbrev pub work : ℕ → Job → Row
work now j = commit (deliver j.row.attempts j.turns).0 now j.row

-- ProcessOnce over the claimed events: how many it delivered, whether it ended in an error, and the rows
-- after. An error of holds stops the pass, a row that was lost is skipped.
unfoldable pub process_once : ℕ → List Job → ℕ × Bool × List Row
process_once now [] = (0, false, [])
process_once now (j ∷ rest) =
    let (n, stopped, rows) = process_once now rest in
    elim j.ours [
      | none ↦ (0, true, j.row ∷ map (λ k. k.row) rest)
      | some mine ↦ if mine then (n + 1, stopped, work now j ∷ rows) else (n, stopped, j.row ∷ rows)
    ]
