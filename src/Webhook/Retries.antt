-- ===== src/Webhook/Retries.antt =====
-- How a delivery ends: backend/internal/connector/webhook/relay.go.
use sild.Common.{
  ℕ, zero, suc, ◌+◌, ◌≤◌, ◌<◌, List, [], ◌∷◌, Bool, true, false, ◌&&◌, some, leb, if◌then◌else◌,
  ◌≡◌, ◌↔◌, refl, arith, All, str_eq_refl,
}
use sild.Store.Claim.{Row, pending, failed, settle, reschedule}
use sild.Webhook.{
  Turn, mark_delivered, retry, is_success, retry_or_fail, deliver_each, deliver, commit,
}

abbrev pub Ours : Turn → Type 0
Ours t = t.ours ≡ some true

abbrev pub Succeeds : Turn → Type 0
Succeeds t = is_success t.code ≡ true

-- The loop marks the event delivered only if every endpoint was reached, was reached as the row's
-- owner, and answered with a 2xx code; and then it does.
deliver_each_iff :
    (attempts : ℕ) (all_ok : Bool) (turns : List Turn)
    → ((deliver_each attempts all_ok turns).0 ≡ mark_delivered)
      ↔ ((all_ok ≡ true) × (All Ours turns × All Succeeds turns))
unfolding deliver_each retry_or_fail
deliver_each_iff attempts all_ok [] = (λ h. ground arith, λ h. ground arith)
deliver_each_iff attempts all_ok (t ∷ rest) = (
  λ h. ground (arith, (deliver_each_iff attempts (all_ok && is_success t.code) rest).0),
  λ h. ground (arith, (deliver_each_iff attempts (all_ok && is_success t.code) rest).1),
)

-- An event is marked delivered exactly when its endpoints could be listed and each of them was tried
-- while the row was still the relay's and answered with a 2xx code.
pub delivered_iff_All_succeed :
    (attempts : ℕ) (turns : List Turn)
    → ((deliver attempts (some turns)).0 ≡ mark_delivered) ↔ (All Ours turns × All Succeeds turns)
unfolding deliver
delivered_iff_All_succeed attempts turns = (
  λ h. ((deliver_each_iff attempts true turns).0 h).1,
  λ h. (deliver_each_iff attempts true turns).1 (refl, h),
)

-- A retry counts one more attempt, of at most four, and waits at least 300 seconds: the first entry of
-- the schedule, 60 seconds, is never waited.
pub retry_delays :
    (attempts n delay : ℕ)
    → retry_or_fail attempts ≡ retry n delay
    → (n ≡ attempts + 1) × (n ≤ 4) × (300 ≤ delay)
unfolding retry_or_fail
retry_delays zero n delay h = ground arith
retry_delays (suc zero) n delay h = ground arith
retry_delays (suc (suc zero)) n delay h = ground arith
retry_delays (suc (suc (suc zero))) n delay h = ground arith
retry_delays (suc (suc (suc (suc k)))) n delay h = ground arith

-- Passes that all fail, one after the other.
pub failing : ℕ → ℕ → Row → Row
failing zero now r = r
failing (suc n) now r = failing n now (commit (retry_or_fail r.attempts) now r)

failing_once :
    (r : Row) (now : ℕ)
    → r.status ≡ pending
    → (leb 5 (r.attempts + 1) ≡ true → (commit (retry_or_fail r.attempts) now r).status ≡ failed)
      × (leb 5 (r.attempts + 1) ≡ false
          → ((commit (retry_or_fail r.attempts) now r).status ≡ pending)
            × ((commit (retry_or_fail r.attempts) now r).attempts ≡ r.attempts + 1))
unfolding commit retry_or_fail settle reschedule
failing_once r now s = (
  λ last. ground (arith, str_eq_refl r.id),
  λ more. (ground (arith, str_eq_refl r.id), ground (arith, str_eq_refl r.id)),
)

failing_status :
    (n k now : ℕ) (r : Row)
    → r.attempts ≡ k
    → r.status ≡ pending
    → k < 5
    → k + n ≤ 5
    → (failing n now r).status ≡ (if leb 5 (k + n) then failed else pending)
unfolding failing
failing_status zero k now r a s lt le = ground arith
failing_status (suc zero) k now r a s lt le = ground (arith, failing_once r now s)
failing_status (suc (suc n)) k now r a s lt le =
    let (still, more) = (failing_once r now s).1 (ground arith) in
    ground (
      arith,
      failing_status (suc n) (k + 1) now (commit (retry_or_fail r.attempts) now r) (omega arith)
          still (omega arith) (omega arith),
    )

-- An event that keeps failing is not retried for ever: after five failing passes it is failed, and after
-- fewer it is still pending.
pub five_failures :
    (r : Row) (n now : ℕ)
    → r.attempts ≡ 0
    → r.status ≡ pending
    → n ≤ 5
    → (failing n now r).status ≡ (if leb 5 n then failed else pending)
five_failures r n now a s le = ground (arith, failing_status n 0 now r a s)
