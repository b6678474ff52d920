-- ===== src/Middleware/RateLimit/Window.antt =====
-- What a window lets through: backend/internal/middleware/ratelimit.go.
use Prim.Native.Nat.{min}
use sild.Common.{
  ℕ, suc, ◌-◌, ◌<◌, String, List, [], ◌∷◌, true, false, Option, none, some, str_eq, str_eq_iff,
  str_eq_refl, if◌then◌else◌, ◌≡◌, refl, arith, All, Bool-cases, Option-cases, ◌∙◌, inl, inr, ap,
}
use sild.Middleware.RateLimit.{Limiter, empty_counter, minute, bump, open_window, serve}

-- How many of the requests of a key are let through, and how many there are.
unfoldable pub passed : ℕ → String → Limiter → List (ℕ × String) → ℕ
passed per_minute k l [] = 0
passed per_minute k l ((now, key) ∷ rest) =
    let (l', over) = serve per_minute l (now, key) in
    let later = passed per_minute k l' rest in
    if str_eq key k then (if over then later else suc later) else later

unfoldable pub asked : String → List (ℕ × String) → ℕ
asked k [] = 0
asked k ((now, key) ∷ rest) = if str_eq key k then suc (asked k rest) else asked k rest

open_same :
    (w : ℕ) (counter : String → ℕ) (m : ℕ)
    → m ≡ w
    → open_window (record { window = some w; counter = counter }) m
      ≡ record { window = some w; counter = counter }
unfolding open_window
open_same w counter m e = ground arith

bump_key :
    (counter : String → ℕ) (key k : String)
    → str_eq key k ≡ true
    → bump counter key key ≡ suc (counter k)
unfolding bump
bump_key counter key k e =
    let same = ap counter ((str_eq_iff key k).0 e) in ground (arith, str_eq_refl key)

bump_same :
    (counter : String → ℕ) (key k : String)
    → str_eq key k ≡ true
    → bump counter key k ≡ suc (counter k)
unfolding bump
bump_same counter key k e = ground arith

bump_other :
    (counter : String → ℕ) (key k : String) → str_eq key k ≡ false → bump counter key k ≡ counter k
unfolding bump
bump_other counter key k e = ground arith

-- The rest of a window lets through what the limit leaves of it.
passed_within :
    (per_minute : ℕ) (k : String) (w : ℕ) (counter : String → ℕ) (reqs : List (ℕ × String))
    → All (λ (r : ℕ × String). minute r.0 ≡ w) reqs
    → passed per_minute k (record { window = some w; counter = counter }) reqs
      ≡ min (per_minute - counter k) (asked k reqs)
unfolding passed asked serve
passed_within per_minute k w counter [] h = omega arith
passed_within per_minute k w counter ((now, key) ∷ rest) h =
    let later = passed_within per_minute k w (bump counter key) rest h.1 in
    rw (open_same w counter (minute now) h.0) (elim (Bool-cases (str_eq key k)) [
      | inl e ↦ ground (arith, later, bump_key counter key k e, bump_same counter key k e)
      | inr e ↦ ground (arith, later, bump_other counter key k e)
    ])

-- The window is older than the minute, or there was none.
abbrev pub IsBefore : Option ℕ → ℕ → Type 0
IsBefore none m = Unit
IsBefore (some w) m = w < m

open_fresh :
    (l : Limiter) (m : ℕ)
    → IsBefore l.window m
    → open_window l m ≡ record { window = some m; counter = empty_counter }
unfolding open_window
open_fresh l m b = elim (Option-cases l.window) [
  | inl e ↦ rw e refl
  | inr (w, e) ↦ rw e (ground (arith, (rw e at b)))
]

serve_fresh :
    (per_minute : ℕ) (l : Limiter) (m now : ℕ) (key : String)
    → IsBefore l.window m
    → minute now ≡ m
    → serve per_minute l (now, key)
      ≡ serve per_minute (record { window = some m; counter = empty_counter }) (now, key)
unfolding serve
serve_fresh per_minute l m now key b e =
    rw (e, open_fresh l m b, open_same m empty_counter m refl) refl

from_zero : {n : ℕ} → n - 0 ≡ n
from_zero = omega arith

-- Of all requests of one minute, the first of which opens its window, exactly as many requests of a key are
-- let through as there are, up to the limit.
pub minute_admits :
    (per_minute : ℕ) (k : String) (l : Limiter) (m : ℕ) (reqs : List (ℕ × String))
    → IsBefore l.window m
    → All (λ (r : ℕ × String). minute r.0 ≡ m) reqs
    → passed per_minute k l reqs ≡ min per_minute (asked k reqs)
unfolding passed asked
minute_admits per_minute k l m [] b h = omega arith
minute_admits per_minute k l m ((now, key) ∷ rest) b h =
    rw (serve_fresh per_minute l m now key b h.0) (
      passed_within per_minute k m empty_counter ((now, key) ∷ rest) h
      ∙ ap (λ n. min n (asked k ((now, key) ∷ rest))) from_zero)
