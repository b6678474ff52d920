-- ===== src/Examples/Queues.antt =====
-- Examples of the leases, the claims, the retries and the paging of backend/internal.
use sild.Common.{◌+◌, ◌≤◌, List, [], ◌∷◌, true, false, none, some, ◌≡◌, refl, str_eq, arith}
use sild.Store.Lease.{acquire}
use sild.Store.Lease.Exclusion.{acquires, releases, run, acquired_exclusive}
use sild.Store.Claim.{Row, pending, mark, holds_token}
use sild.Store.Claim.Exclusive.{IsClaimed, second_claim_skips}
use sild.Webhook.{Turn, retry_or_fail}
use sild.Webhook.Retries.{retry_delays}
use sild.Store.Page.{pos, PageParams, sort_id, desc, past, str_lt}
use sild.Store.Page.Walk.{walk, walk_whole}

acquired_exclusive_example :
    (run (acquire none "a" 100 300).1 ((150, acquires "b" 300) ∷ (160, releases "b") ∷ [])
      ≡ some (record { owner = "a"; expires_at = 400 }))
    × ((acquire
          (run (acquire none "a" 100 300).1 ((150, acquires "b" 300) ∷ (160, releases "b") ∷ []))
          "c"
          400
          300).0
        ≡ false)
unfolding acquire str_eq
acquired_exclusive_example =
    acquired_exclusive none "a" 100 300 ((150, acquires "b" 300) ∷ (160, releases "b") ∷ []) "c" 400
      300 refl ((refl, omega arith), ((refl, omega arith), tt)) refl (omega arith)

abbrev due : Row
due = record {
  id = "obx_1";
  status = pending;
  available_at = 10;
  attempts = 0;
  claim_token = none;
  locked_until = none;
}

abbrev won : Row
won = record due { claim_token = some "h1"; locked_until = some 320 }

won-IsClaimed : IsClaimed "h1" 20 won
won-IsClaimed = record { still_pending = refl; under = refl; locked = refl }

second_claim_skips_example :
    (mark ("obx_1" ∷ []) 320 "h2" won ≡ won)
    × (holds_token "h2" (mark ("obx_1" ∷ []) 320 "h2" won) ≡ false)
unfolding str_eq
second_claim_skips_example =
    second_claim_skips won "h1" "h2" 20 320 ("obx_1" ∷ []) won-IsClaimed refl (omega arith)

abbrev turns : List Turn
turns =
    record { ours = some true; code = some 204 } ∷ record { ours = some true; code = some 500 } ∷ []

retry_delays_example : (1 ≡ 0 + 1) × (1 ≤ 4) × (300 ≤ 300)
unfolding retry_or_fail
retry_delays_example = retry_delays 0 1 300 refl

abbrev two_a_page : PageParams
two_a_page = record { limit = pos 2; sort = sort_id; order = desc; cursor = none }

walk_whole_example : walk 4 ("c" ∷ "b" ∷ "a" ∷ []) two_a_page (λ s. s) ≡ "c" ∷ "b" ∷ "a" ∷ []
unfolding past str_lt
walk_whole_example =
    walk_whole (λ s. s) ("c" ∷ "b" ∷ "a" ∷ []) two_a_page
      (refl, ((refl, refl), ((refl, refl), tt)), (refl, ((refl, refl), tt), (refl, tt, tt))) refl
