-- ===== src/Store/Claim/Exclusive.antt =====
-- A row is worked by one process at a time: backend/internal/store/gormstore/claim.go.
use sild.Common.{
  ℕ, ◌+◌, ◌≤◌, String, List, [], ◌∷◌, true, false, some, str_eq, str_eq_refl, leb, map, keep, ◌≡◌,
  ◌≢◌, refl, arith, All, Bool-cases, inl, inr,
}
use sild.Store.Claim.{
  DeliveryStatus, pending, Row, claim_ttl, unclaimed, is_due, insert, by_available, candidates,
  mark, holds_token, claim_due, settle,
}

All-insert :
    (P : Row → Type 0) (r : Row) (rows : List Row) → P r → All P rows → All P (insert r rows)
unfolding insert
All-insert P r [] h hs = (h, tt)
All-insert P r (s ∷ rest) h hs = elim (Bool-cases (leb r.available_at s.available_at)) [
  | inl e ↦ rw (e, insert) (h, hs)
  | inr e ↦ rw (e, insert) (hs.0, All-insert P r rest h hs.1)
]

All-by_available : (P : Row → Type 0) (rows : List Row) → All P rows → All P (by_available rows)
unfolding by_available
All-by_available P [] hs = tt
All-by_available P (r ∷ rest) hs =
    All-insert P r (by_available rest) hs.0 (All-by_available P rest hs.1)

-- The row of a claim: pending, and locked for the claim's time under the token.
pub record IsClaimed (token : String) (now : ℕ) (r : Row) : Type 0 where
  pub still_pending : r.status ≡ pending
  pub under : r.claim_token ≡ some token
  pub locked : r.locked_until ≡ some (now + claim_ttl)

mark-IsClaimed :
    (ids : List String) (now : ℕ) (token : String) (r : Row)
    → holds_token token r ≡ false
    → holds_token token (mark ids now token r) ≡ true
    → IsClaimed token now (mark ids now token r)
unfolding mark holds_token
mark-IsClaimed ids now token r fresh h = record {
  still_pending = ground arith;
  under = ground arith;
  locked = ground arith;
}

IsClaimed-rows :
    (ids : List String) (now : ℕ) (token : String) (rows : List Row)
    → All (λ (r : Row). holds_token token r ≡ false) rows
    → All (IsClaimed token now) (keep (holds_token token) (map (mark ids now token) rows))
unfolding keep
IsClaimed-rows ids now token [] fresh = tt
IsClaimed-rows ids now token (r ∷ rest) fresh =
    elim (Bool-cases (holds_token token (mark ids now token r))) [
      | inl e ↦
          rw (e, keep)
            (mark-IsClaimed ids now token r fresh.0 e, IsClaimed-rows ids now token rest fresh.1)
      | inr e ↦ rw (e, keep) (IsClaimed-rows ids now token rest fresh.1)
    ]

-- What a claim returns under a fresh token is pending and locked under that token until the claim's time
-- is over.
pub claim_due-IsClaimed :
    (rows : List Row) (limit now : ℕ) (token : String)
    → All (λ (r : Row). holds_token token r ≡ false) rows
    → All (IsClaimed token now) (claim_due rows limit now token).0
unfolding claim_due
claim_due-IsClaimed rows limit now token fresh =
    All-by_available (IsClaimed token now) _
      (IsClaimed-rows (candidates rows limit now) now token rows fresh)

-- Two workers never hold one row: a claim that is made before the lock lapses, under another token,
-- leaves a row that the first one won as it is, whatever candidates it saw, and does not return it.
pub second_claim_skips :
    (r : Row) (token token' : String) (now now' : ℕ) (ids : List String)
    → IsClaimed token now r
    → str_eq token token' ≡ false
    → now' ≤ now + claim_ttl
    → (mark ids now' token' r ≡ r) × (holds_token token' (mark ids now' token' r) ≡ false)
unfolding mark unclaimed holds_token
second_claim_skips r token token' now now' ids c ne early = (ground arith, ground arith)

-- A settled row is out of the queue for good: no later claim marks it, at whatever time.
pub settled_never_due :
    (r : Row) (status : DeliveryStatus) (now : ℕ) (ids : List String) (token : String)
    → status ≢ pending
    → (is_due now (settle r.id status r) ≡ false)
      × (mark ids now token (settle r.id status r) ≡ settle r.id status r)
unfolding settle is_due mark
settled_never_due r pending now ids token terminal = absurd (terminal refl)
settled_never_due r _ now ids token terminal =
    (ground (arith, str_eq_refl r.id), ground (arith, str_eq_refl r.id))
