-- ===== src/Domain/Requester/Checks.antt =====
-- What a chain of checks that succeeds has got past: backend/internal/domain/requester_assertion.go.
use sild.Common.{Bool, true, false, ◌≡◌, refl, sym, ap, true≢false}
use sild.Domain.Requester.{Answer, ok, refused, ◌>>=◌, Error, guard}

abbrev pub is_ok {ℓ} : {A : Type ℓ} → Answer A → Bool
is_ok (ok a) = true
is_ok (refused e) = false

module _ {ℓ} {B : Type ℓ} where
  pub bind_done {κ} :
      {A : Type κ} (a : Answer A) (f : A → Answer B) (b : B)
      → (a >>= f) ≡ ok b
      → (x : A) × (a ≡ ok x) × (f x ≡ ok b)
  bind_done (ok x) f b h = (x, refl, h)
  bind_done (refused e) f b h = absurd (true≢false (sym (ap is_ok h)))

  pub guard_done :
      (c : Bool) (e : Error) (k : Answer B) (b : B)
      → (guard c e >>= λ _. k) ≡ ok b
      → (c ≡ true) × (k ≡ ok b)
  guard_done true e k b h = (refl, h)
  guard_done false e k b h = absurd (true≢false (sym (ap is_ok h)))

  pub ok_injective : (a b : B) → ok a ≡ ok b → a ≡ b
  ok_injective a b h = ap (λ x. elim x [ ok y ↦ y | refused e ↦ a ]) h
