-- ===== src/Store/Lease/Exclusion.antt =====
-- One owner at a time: backend/internal/store/gormstore/lease.go under any interleaving of replicas.
use sild.Common.{
  ℕ, ◌+◌, ◌≤◌, ◌<◌, String, List, [], ◌∷◌, true, false, Option, none, some, str_eq, str_eq_refl,
  ◌≡◌, refl, arith,
}
use sild.Store.Lease.{JobLease, acquire, release}

-- A statement of some replica on the name.
pub data Op : Type 0 where
  acquires : String → ℕ → Op
  releases : String → Op

unfoldable pub apply : Option JobLease → ℕ × Op → Option JobLease
apply s (now, acquires owner ttl) = (acquire s owner now ttl).1
apply s (now, releases owner) = release s owner

unfoldable pub run : Option JobLease → List (ℕ × Op) → Option JobLease
run s [] = s
run s (o ∷ rest) = run (apply s o) rest

-- The statement is another replica's, and is made no later than the time.
abbrev pub IsOther : String → ℕ → ℕ × Op → Type 0
IsOther owner until (now, acquires o ttl) = (str_eq owner o ≡ false) × (now ≤ until)
IsOther owner until (now, releases o) = (str_eq owner o ≡ false) × (now ≤ until)

abbrev pub AllOther : String → ℕ → List (ℕ × Op) → Type 0
AllOther owner until [] = Unit
AllOther owner until (o ∷ rest) = IsOther owner until o × AllOther owner until rest

step_other :
    (l : JobLease) (o : ℕ × Op) → IsOther l.owner l.expires_at o → apply (some l) o ≡ some l
unfolding apply acquire release
step_other l (now, acquires owner ttl) h = ground arith
step_other l (now, releases owner) h = ground arith

run_other :
    (l : JobLease) (ops : List (ℕ × Op))
    → AllOther l.owner l.expires_at ops
    → run (some l) ops ≡ some l
unfolding run
run_other l [] h = refl
run_other l (o ∷ rest) h = rw (step_other l o h.0) (run_other l rest h.1)

acquire_won :
    (s : Option JobLease) (owner : String) (now ttl : ℕ)
    → (acquire s owner now ttl).0 ≡ true
    → (acquire s owner now ttl).1 ≡ some (record { owner = owner; expires_at = now + ttl })
unfolding acquire
acquire_won none owner now ttl h = refl
acquire_won (some l) owner now ttl h = ground arith

still_held :
    (owner : String) (until : ℕ) (other : String) (at ttl : ℕ)
    → str_eq owner other ≡ false
    → at ≤ until
    → (acquire (some (record { owner = owner; expires_at = until })) other at ttl).0 ≡ false
unfolding acquire
still_held owner until other at ttl ne early = ground arith

-- While a lease that was acquired is live, nobody else can take it or drop it: after whatever other
-- replicas try up to its expiry, the row is still the owner's, and one more try of another fails.
pub acquired_exclusive :
    (s : Option JobLease) (owner : String) (now ttl : ℕ) (ops : List (ℕ × Op)) (other : String)
    (at ttl' : ℕ)
    → (acquire s owner now ttl).0 ≡ true
    → AllOther owner (now + ttl) ops
    → str_eq owner other ≡ false
    → at ≤ now + ttl
    → (run (acquire s owner now ttl).1 ops
        ≡ some (record { owner = owner; expires_at = now + ttl }))
      × ((acquire (run (acquire s owner now ttl).1 ops) other at ttl').0 ≡ false)
acquired_exclusive s owner now ttl ops other at ttl' won others ne early =
    rw (acquire_won s owner now ttl won) (
      rw (run_other (record { owner = owner; expires_at = now + ttl }) ops others)
        (refl, still_held owner (now + ttl) other at ttl' ne early))

-- A lease that its owner releases, or lets lapse, is free to the next: no lease blocks for ever.
pub lapsed_or_released_free :
    (l : JobLease) (other : String) (at ttl : ℕ)
    → ((acquire (release (some l) l.owner) other at ttl).0 ≡ true)
      × (l.expires_at < at → (acquire (some l) other at ttl).0 ≡ true)
unfolding acquire release
lapsed_or_released_free l other at ttl = (ground (arith, str_eq_refl l.owner), λ late. ground arith)
