-- ===== src/Store/Claim.antt =====
-- The claim protocol of the delivery queues: backend/internal/store/gormstore/claim.go, and outboxRepo
-- of gormstore/outbox.go, which instantiates it. A transaction is one step; times are in seconds.
pub mod Exclusive
use sild.Common.{
  ℕ, ◌+◌, String, List, [], ◌∷◌, Bool, true, false, not, ◌&&◌, ◌||◌, Option, none, some, str_eq,
  ltb, leb, take, map, keep, contains, if◌then◌else◌,
}

pub data DeliveryStatus : Type 0 where
  pending delivered failed : DeliveryStatus

abbrev pub is_pending : DeliveryStatus → Bool
is_pending pending = true
is_pending delivered = false
is_pending failed = false

-- The columns that a delivery queue has.
pub record Row : Type 0 where
  pub id : String
  pub status : DeliveryStatus
  pub available_at : ℕ
  pub attempts : ℕ
  pub claim_token : Option String
  pub locked_until : Option ℕ

-- store.ClaimTTL
abbrev pub claim_ttl : ℕ
claim_ttl = 300

-- unclaimed: never claimed, or claimed by a worker whose lock lapsed
unfoldable pub unclaimed : ℕ → Row → Bool
unclaimed now r = elim r.locked_until [ none ↦ true | some t ↦ ltb t now ]

-- The rows that the select of claimDue may take.
unfoldable pub is_due : ℕ → Row → Bool
is_due now r = unclaimed now r && (is_pending r.status && leb r.available_at now)

unfoldable pub insert : Row → List Row → List Row
insert r [] = r ∷ []
insert r (s ∷ rest) =
    let later = insert r rest in
    if leb r.available_at s.available_at then r ∷ s ∷ rest else s ∷ later

-- ORDER BY available_at
unfoldable pub by_available : List Row → List Row
unfolding insert
by_available [] = []
by_available (r ∷ rest) = insert r (by_available rest)

-- The ids of the candidates.
unfoldable pub candidates : List Row → ℕ → ℕ → List String
candidates rows limit now = map (λ r. r.id) (take limit (by_available (keep (is_due now) rows)))

-- The guarded UPDATE, on one row.
unfoldable pub mark : List String → ℕ → String → Row → Row
mark ids now token r =
    if unclaimed now r && (contains ids r.id && is_pending r.status)
    then record r { claim_token = some token; locked_until = some (now + claim_ttl) }
    else r

unfoldable pub holds_token : String → Row → Bool
holds_token token r = elim r.claim_token [ none ↦ false | some t ↦ str_eq t token ]

-- claimDue: the rows that the caller won, and the table after. The token is what id.New makes.
unfoldable pub claim_due : List Row → ℕ → ℕ → String → List Row × List Row
claim_due rows limit now token =
    let table = map (mark (candidates rows limit now) now token) rows in
    (by_available (keep (holds_token token) table), table)

-- renewClaim on one row: the row after, and whether it was still the caller's
unfoldable pub renew_claim : String → String → ℕ → Row → Row × Bool
renew_claim id token now r =
    if str_eq r.id id && holds_token token r
    then (record r { locked_until = some (now + claim_ttl) }, true)
    else (r, false)

-- settle on one row: terminal, and the claim dropped
unfoldable pub settle : String → DeliveryStatus → Row → Row
settle id status r =
    if str_eq r.id id
    then record r { status = status; claim_token = none; locked_until = none }
    else r

-- reschedule on one row: back to the queue after a failed attempt
unfoldable pub reschedule : String → ℕ → ℕ → ℕ → Row → Row
reschedule id attempts delay now r =
    if str_eq r.id id
    then record r {
      attempts = attempts;
      available_at = now + delay;
      claim_token = none;
      locked_until = none;
    }
    else r
