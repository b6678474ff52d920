-- ===== src/Middleware/RateLimit.antt =====
-- backend/internal/middleware/ratelimit.go: the counter of one replica. A time is in seconds, and a
-- request is the key that limiterKey takes from its socket; the mutex makes each request one step.
pub mod Window
use sild.Common.{
  ℕ, zero, suc, ◌+◌, ◌/◌, String, List, [], ◌∷◌, Bool, true, false, not, Option, none, some, str_eq,
  ltb, if◌then◌else◌,
}

abbrev pub rate_auth_per_minute : ℕ
rate_auth_per_minute = 10

abbrev pub rate_ingress_per_minute : ℕ
rate_ingress_per_minute = 120

-- The window is none before the first request: the zero time.
pub record Limiter : Type 0 where
  pub window : Option ℕ
  pub counter : String → ℕ

abbrev pub empty_counter : String → ℕ
empty_counter key = 0

abbrev pub new_limiter : Limiter
new_limiter = record { window = none; counter = empty_counter }

-- time.Truncate(time.Minute), as the number of the minute
abbrev pub minute : ℕ → ℕ
minute now = now / 60

-- now.After(window)
abbrev pub is_after : ℕ → Option ℕ → Bool
is_after m none = true
is_after m (some w) = ltb w m

unfoldable pub bump : (String → ℕ) → String → String → ℕ
bump counter key k = if str_eq key k then suc (counter k) else counter k

-- The part of the handler under the mutex that opens a window.
unfoldable pub open_window : Limiter → ℕ → Limiter
open_window l m =
    if is_after m l.window then record { window = some m; counter = empty_counter } else l

-- One request of rateLimit: the limiter after it, and whether it is refused.
unfoldable pub serve : ℕ → Limiter → ℕ × String → Limiter × Bool
serve per_minute l (now, key) =
    let opened = open_window l (minute now) in
    let counted = record opened { counter = bump opened.counter key } in
    (counted, ltb per_minute (counted.counter key))
