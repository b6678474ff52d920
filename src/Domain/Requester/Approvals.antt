-- ===== src/Domain/Requester/Approvals.antt =====
-- What waits for a requester's approval: backend/internal/domain/requester_assertion.go and parts.go.
use sild.Common.{
  ℕ, zero, suc, ◌-◌, drop, ◌≤◌, String, List, [], ◌∷◌, ◌++◌, true, not, ◌&&◌, some, str_eq,
  contains, length, length-append, is_empty, ltb, All, All-append, ◌≡◌, refl, sym, arith,
  Bool-cases, Option-cases, inl, inr,
}
use mathlib.Core.Path.{subst}
use sild.Domain.Parts.{
  bot, system, StepPart, MessagePart, short, each, valid_item, valid_approval, valid_content,
  allowed, sends_parts, refused_from, stored, validate_parts,
}
use sild.Domain.Parts.Contents.{IsStep, IsPart}
use sild.Domain.Parts.Accepted.{stored_parts}
use sild.Domain.Requester.Checks.{guard_done, ok_injective}
use sild.Domain.Requester.{
  PageMessage, Desk, ok, is_bot, waits, approved_at, changed, is_closed, same_text, requester_actor,
  step_items, part_items, message_items, last_page, awaiting_approval, approval_part,
  approve_data_access,
}

-- The items of an approval that can be stored.
pub record AreItems (items : List String) : Type 0 where
  pub valid : All (λ (i : String). valid_item i ≡ true) items
  pub few : length items ≤ 10

step-valid_item : (st : StepPart) → IsStep st → valid_item st.label ≡ true
unfolding valid_item short
step-valid_item st s = ground (arith, s.labelled.0, s.labelled.1)

steps-AreItems :
    (items : List String) (sts : List StepPart)
    → AreItems items
    → All IsStep sts
    → AreItems (step_items items sts)
unfolding step_items
steps-AreItems items [] i h = i
steps-AreItems items (st ∷ sts) i h =
    elim (Bool-cases (waits st && (not (contains items st.label) && ltb (length items) 10))) [
      | inl e ↦ rw e (
          steps-AreItems (items ++ st.label ∷ []) sts
            (record {
              valid = All-append _ items (st.label ∷ []) i.valid (step-valid_item st h.0, tt);
              few = rw (length-append items (st.label ∷ [])) (ground arith);
            })
            h.1)
      | inr e ↦ rw e (steps-AreItems items sts i h.1)
    ]

part_steps : (p : MessagePart) → IsPart p → All IsStep p.steps
part_steps p (inl (t, some_, few, steps, c, f, e, i)) = steps
part_steps p (inr (inl (t, c, few, f, some_, e, none_, items))) = subst (All IsStep) (sym none_) tt
part_steps p (inr (inr (t, few, items, none_, c, f, e))) = subst (All IsStep) (sym none_) tt

parts-AreItems :
    (items : List String) (ps : List MessagePart)
    → AreItems items
    → All (λ (p : MessagePart). (allowed bot p.type ≡ true) × IsPart p) ps
    → AreItems (part_items items ps)
unfolding part_items
parts-AreItems items [] i h = i
parts-AreItems items (p ∷ ps) i h =
    parts-AreItems (step_items items p.steps) ps
      (steps-AreItems items p.steps i (part_steps p h.0.1)) h.1

-- A message of the assistant whose parts were accepted when it was written.
pub record IsAccepted (m : PageMessage) : Type 0 where
  pub accepted :
      (ps : List MessagePart)
      → is_bot m.sender_kind ≡ true
      → m.parts ≡ some ps
      → validate_parts (some ps) bot ≡ stored ps

messages-AreItems :
    (at_ : ℕ) (items : List String) (ms : List PageMessage)
    → AreItems items
    → All IsAccepted ms
    → AreItems (message_items at_ items ms)
unfolding message_items
messages-AreItems at_ items [] i h = i
messages-AreItems at_ items (m ∷ ms) i h = elim (Option-cases m.parts) [
  | inl e ↦ rw (e, message_items) (messages-AreItems at_ items ms i h.1)
  | inr (ps, e) ↦ elim (Bool-cases (is_bot m.sender_kind && ltb at_ (changed m))) [
    | inl f ↦
        rw (e, f, message_items)
          (messages-AreItems at_ (part_items items ps) ms
            (parts-AreItems items ps i
              (stored_parts (some ps) bot ps (h.0.accepted ps (ground arith) e)).4)
            h.1)
    | inr f ↦ rw (e, f, message_items) (messages-AreItems at_ items ms i h.1)
  ]
]

each-valid_item :
    (items : List String)
    → All (λ (i : String). valid_item i ≡ true) items
    → each valid_item items ≡ true
unfolding each
each-valid_item [] h = refl
each-valid_item (i ∷ items) h = ground (arith, h.0, each-valid_item items h.1)

approval_accepted :
    (items : List String)
    → AreItems items
    → validate_parts (some (approval_part items ∷ [])) system ≡ stored (approval_part items ∷ [])
unfolding validate_parts sends_parts refused_from allowed valid_content valid_approval str_eq
approval_accepted items i = ground (arith, i.few, each-valid_item items i.valid)

pub approved_parts :
    (d : Desk) (actor : String) (ps : List MessagePart)
    → approve_data_access d actor ≡ ok ps
    → ps ≡ approval_part (awaiting_approval d.messages) ∷ []
unfolding approve_data_access
approved_parts d actor ps h =
    let (open', h1) = guard_done (not (is_closed d.status)) _ _ ps h in
    let (own, h2) = guard_done (same_text (requester_actor d.members) actor) _ _ ps h1 in
    let (some', h3) = guard_done (not (is_empty (awaiting_approval d.messages))) _ _ ps h2 in
    sym (ok_injective _ ps h3)

pub All-drop {ℓ κ} :
    {A : Type ℓ} (P : A → Type κ) (n : ℕ) (xs : List A) → All P xs → All P (drop n xs)
All-drop P zero xs h = h
All-drop P (suc n) [] h = h
All-drop P (suc n) (x ∷ xs) h = All-drop P n xs h.1

-- An approval that ApproveDataAccess sends is never refused for its parts: where the parts of the
-- assistant's messages were accepted, validateParts accepts the approval's, of the system.
pub approval_stored :
    (d : Desk) (actor : String) (ps : List MessagePart)
    → All IsAccepted d.messages
    → approve_data_access d actor ≡ ok ps
    → validate_parts (some ps) system ≡ stored ps
unfolding awaiting_approval last_page
approval_stored d actor ps accepted h =
    subst (λ qs. validate_parts (some qs) system ≡ stored qs) (sym (approved_parts d actor ps h))
      (approval_accepted (awaiting_approval d.messages) (
        messages-AreItems (approved_at 0 (last_page 100 d.messages)) [] (last_page 100 d.messages)
          (record { valid = tt; few = omega arith })
          (All-drop IsAccepted (length d.messages - 100) d.messages accepted)))
