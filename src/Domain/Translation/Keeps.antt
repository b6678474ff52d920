-- ===== src/Domain/Translation/Keeps.antt =====
-- What every way through a call keeps, the call keeps: backend/internal/domain/translation.go.
use sild.Common.{String, Bool, true, false, Option, none, some, if◌then◌else◌, ◌≡◌, refl}
use sild.Store.Translations.{Rows}
use sild.Domain.Translation.{Answer, ok, refused, with_ok, checked}

module _ {ℓ} {A : Type ℓ} (P : Rows → Type 0) where
  pub if_keeps : (b : Bool) (x y : Rows × Answer A) → P x.0 → P y.0 → P (if b then x else y).0
  if_keeps true x y h k = h
  if_keeps false x y h k = k

  module _ (r : Rows) (before : P r) where
    -- A refused call has written nothing.
    pub with_ok_keeps {κ} :
        {B : Type κ} (a : Answer B) (f : B → Rows × Answer A)
        → ((b : B) → a ≡ ok b → P (f b).0)
        → P (with_ok r a f).0
    with_ok_keeps (ok b) f h = h b refl
    with_ok_keeps (refused e) f h = before

    pub checked_keeps : (o : Option String) (x : Rows × Answer A) → P x.0 → P (checked r o x).0
    checked_keeps none x h = h
    checked_keeps (some why) x h = before
