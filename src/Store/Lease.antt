-- ===== src/Store/Lease.antt =====
-- leaseRepo of backend/internal/store/gormstore/lease.go, and the loops of store/lease.go that hold a
-- lease. The table has one row per name, so the state of one name is an optional row; every statement
-- is one atomic step at one time.
pub mod Exclusion
use sild.Common.{
  ℕ, zero, suc, ◌+◌, ◌/◌, ◌≤◌, ◌<◌, String, List, [], ◌∷◌, Bool, true, false, not, ◌&&◌, ◌||◌,
  Option, none, some, str_eq, ltb, if◌then◌else◌,
}

pub record JobLease : Type 0 where
  pub owner : String
  pub expires_at : ℕ

-- Acquire: take the lease if it is free or expired, or renew it for the same owner.
unfoldable pub acquire : Option JobLease → String → ℕ → ℕ → Bool × Option JobLease
acquire none owner now ttl = (true, some (record { owner = owner; expires_at = now + ttl }))
acquire (some l) owner now ttl =
    if ltb l.expires_at now || str_eq l.owner owner
    then (true, some (record { owner = owner; expires_at = now + ttl }))
    else (false, some l)

-- Release: only the owner's own row is deleted.
unfoldable pub release : Option JobLease → String → Option JobLease
release none owner = none
release (some l) owner = if str_eq l.owner owner then none else some l

-- Held: a live lease exists.
unfoldable pub held : Option JobLease → ℕ → Bool
held none now = false
held (some l) now = ltb now l.expires_at

-- What one attempt of the heartbeat meets: the time of the call, its answer, and the time at which an
-- error is weighed.
pub data Beat : Type 0 where
  held_at : ℕ → Beat
  refused_at : ℕ → Beat
  failed_at : ℕ → Beat

-- renew, over the attempts that it makes until the run ends: whether onLost was called.
unfoldable pub renew : ℕ → ℕ → List Beat → Bool
renew ttl expires [] = false
renew ttl expires (held_at at ∷ rest) = renew ttl (at + ttl) rest
renew ttl expires (refused_at at ∷ rest) = true
renew ttl expires (failed_at now ∷ rest) =
    let again = renew ttl expires rest in if ltb now expires then again else true

pub data RunError : Type 0 where
  acquire_failed : RunError
  lease_lost : RunError
  work_failed : RunError
  work_failed_and_lost : RunError

-- errors.Join(ferr, ErrLeaseLost)
abbrev join_lost : Bool → RunError
join_lost false = lease_lost
join_lost true = work_failed_and_lost

-- RunLeased: `answer` is what Acquire reports (none for an error), `beats` the attempts made while fn
-- ran, and `failed` whether fn returned an error. The result is `ran` and the error.
unfoldable pub run_leased : Option Bool → ℕ → ℕ → List Beat → Bool → Bool × Option RunError
run_leased none start ttl beats failed = (false, some acquire_failed)
run_leased (some false) start ttl beats failed = (false, none)
run_leased (some true) start ttl beats failed =
    if renew ttl (start + ttl) beats
    then (true, some (join_lost failed))
    else (true, if failed then some work_failed else none)
