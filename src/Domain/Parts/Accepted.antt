-- ===== src/Domain/Parts/Accepted.antt =====
-- What the parts of a stored message hold: backend/internal/domain/parts.go.
use mathlib.Core.Path.{subst}
use mathlib.Core.Bool.{false≢true}
use sild.Common.{
  ℕ, suc, ◌≤◌, String, List, [], ◌∷◌, true, false, none, some, Option, str_eq, str_eq_iff, is_empty,
  any, Bool-cases, Option-cases, length, All, ◌≡◌, ◌↔◌, inl, inr, refl, arith,
}
use sild.Domain.Parts.{
  MessagePart, SenderKind, user, agent, bot, system, other_sender, allowed, sends_parts,
  refused_from, stored, validate_parts, is_approval, has_approval,
}
use sild.Domain.Parts.Contents.{IsPart, some_length, content-IsPart}

accepted_each :
    (i : ℕ) (sender : SenderKind) (ps : List MessagePart)
    → refused_from i sender ps ≡ none
    → All (λ (p : MessagePart). (allowed sender p.type ≡ true) × IsPart p) ps
unfolding refused_from
accepted_each i sender [] h = tt
accepted_each i sender (p ∷ ps) h = (
  (ground arith, content-IsPart p sender (ground arith) (ground arith)),
  accepted_each (suc i) sender ps (ground arith),
)

stored_is :
    (qs ps : List MessagePart) (sender : SenderKind)
    → validate_parts (some qs) sender ≡ stored ps
    → (qs ≡ ps)
      × (sends_parts sender ≡ true)
      × (is_empty qs ≡ false)
      × (length qs ≤ 10)
      × (refused_from 0 sender qs ≡ none)
unfolding validate_parts
stored_is qs ps sender h = elim (Option-cases (refused_from 0 sender qs)) [
  | inl fine ↦ (ground arith, ground arith, ground arith, ground arith, fine)
  | inr (e, refused) ↦ absurd (ground arith)
]

-- A parts document is stored only for a bot or the system, as the 1 to 10 parts that it holds, each of a type
-- that the sender may send and holding what its type says, within the limits, and nothing else.
pub stored_parts :
    (raw : Option (List MessagePart)) (sender : SenderKind) (ps : List MessagePart)
    → validate_parts raw sender ≡ stored ps
    → (raw ≡ some ps)
      × (sends_parts sender ≡ true)
      × (1 ≤ length ps)
      × (length ps ≤ 10)
      × All (λ (p : MessagePart). (allowed sender p.type ≡ true) × IsPart p) ps
unfolding validate_parts
stored_parts none sender ps h = absurd (ground arith)
stored_parts (some qs) sender ps h =
    let (same, sends, full, few, fine) = stored_is qs ps sender h in
    subst
      (λ (ts : List MessagePart).
        (some qs ≡ some ts)
        × (sends_parts sender ≡ true)
        × (1 ≤ length ts)
        × (length ts ≤ 10)
        × All (λ (p : MessagePart). (allowed sender p.type ≡ true) × IsPart p) ts)
      same (refl, sends, some_length qs full, few, accepted_each 0 sender qs fine)

abbrev Sent : SenderKind → List MessagePart → Type 0
Sent sender ps = All (λ (p : MessagePart). (allowed sender p.type ≡ true) × IsPart p) ps

bot_not_approval : (t : String) → allowed bot t ≡ true → str_eq t "approval" ≡ false
unfolding allowed str_eq
bot_not_approval t h = elim (Bool-cases (str_eq t "approval")) [
  | inl e ↦
      absurd (false≢true (subst (λ s. allowed bot s ≡ true) ((str_eq_iff t "approval").0 e) h))
  | inr e ↦ e
]

bot_no_approval : (ps : List MessagePart) → Sent bot ps → any is_approval ps ≡ false
unfolding any is_approval
bot_no_approval [] h = refl
bot_no_approval (p ∷ ps) h = ground (arith, bot_not_approval p.type h.0.0, bot_no_approval ps h.1)

system_approval :
    (ps : List MessagePart) → 1 ≤ length ps → Sent system ps → any is_approval ps ≡ true
unfolding any is_approval allowed
system_approval [] l h = absurd (omega arith)
system_approval (p ∷ ps) l h = ground arith

approval_by_type :
    (sender : SenderKind) (ps : List MessagePart)
    → sends_parts sender ≡ true
    → 1 ≤ length ps
    → Sent sender ps
    → (any is_approval ps ≡ true) ↔ (sender ≡ system)
unfolding sends_parts
approval_by_type user ps s l h = absurd (ground arith)
approval_by_type agent ps s l h = absurd (ground arith)
approval_by_type (other_sender t) ps s l h = absurd (ground arith)
approval_by_type bot ps s l h =
    (λ e. absurd (ground (arith, bot_no_approval ps h)), λ e. absurd (ground arith))
approval_by_type system ps s l h = (λ e. refl, λ e. system_approval ps l h)

-- A stored parts document counts as an approval of the requester exactly when the system sent it.
pub approval_iff_system :
    (raw : Option (List MessagePart)) (sender : SenderKind) (ps : List MessagePart)
    → validate_parts raw sender ≡ stored ps
    → (has_approval (some ps) ≡ true) ↔ (sender ≡ system)
unfolding has_approval
approval_iff_system raw sender ps h =
    let (e, sends, full, few, parts) = stored_parts raw sender ps h in
    approval_by_type sender ps sends full parts
