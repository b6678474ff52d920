-- ===== src/Domain/Message/Channels.antt =====
-- What reaches which channel: the effects of SendMessage in backend/internal/domain/message.go.
use sild.Common.{
  List, [], ◌∷◌, ◌++◌, Bool, true, false, Option, is_empty, All, ◌≡◌, refl, arith, inl, inr,
  Bool-cases, if◌then◌else◌,
}
use sild.Domain.Parts.{MessagePart, StepPart, EvidenceItem}
use sild.Domain.Message.{
  Message, Thread, Effect, Conv, touched, pushed, replied, emailed, webhook, to_conversation,
  to_operators,
}
use sild.Domain.Message.Begin.{is_internal}
use sild.Domain.Message.Finish.{
  without_internal_steps, without_internal_evidence, strip_parts, without_internal_parts,
  emit_message, activity, effects, sends_webhooks, collides, finish_send,
}
use sild.Domain.Message.Retries.{run}

-- No step and no evidence item carries an internal field.
abbrev pub IsBare : MessagePart → Type 0
IsBare p =
    All (λ (s : StepPart). is_empty s.internal ≡ true) p.steps
    × All (λ (e : EvidenceItem). is_empty e.internal ≡ true) p.evidence

-- What leaves the operators is no internal note, and a copy that members or hooks read carries no internal field.
abbrev pub IsSafe : Effect → Type 0
IsSafe (touched m) = is_internal m.visibility ≡ false
IsSafe (pushed m) = is_internal m.visibility ≡ false
IsSafe (replied m) = is_internal m.visibility ≡ false
IsSafe (emailed m) = is_internal m.visibility ≡ false
IsSafe (webhook m) = (is_internal m.visibility ≡ false) × All IsBare m.parts
IsSafe (to_conversation m) = (is_internal m.visibility ≡ false) × All IsBare m.parts
IsSafe (to_operators m) = Unit

steps_bare :
    (ss : List StepPart)
    → All (λ (s : StepPart). is_empty s.internal ≡ true) (without_internal_steps ss).0
unfolding without_internal_steps
steps_bare [] = tt
steps_bare (s ∷ ss) = (refl, steps_bare ss)

evidence_bare :
    (es : List EvidenceItem)
    → All (λ (e : EvidenceItem). is_empty e.internal ≡ true) (without_internal_evidence es).0
unfolding without_internal_evidence
evidence_bare [] = tt
evidence_bare (e ∷ es) = (refl, evidence_bare es)

steps_untouched :
    (ss : List StepPart)
    → (without_internal_steps ss).1 ≡ false
    → All (λ (s : StepPart). is_empty s.internal ≡ true) ss
unfolding without_internal_steps
steps_untouched [] h = tt
steps_untouched (s ∷ ss) h = (ground arith, steps_untouched ss (ground arith))

evidence_untouched :
    (es : List EvidenceItem)
    → (without_internal_evidence es).1 ≡ false
    → All (λ (e : EvidenceItem). is_empty e.internal ≡ true) es
unfolding without_internal_evidence
evidence_untouched [] h = tt
evidence_untouched (e ∷ es) h = (ground arith, evidence_untouched es (ground arith))

stripped-IsBare : (ps : List MessagePart) → All IsBare (strip_parts ps).0
unfolding strip_parts
stripped-IsBare [] = tt
stripped-IsBare (p ∷ ps) = ((steps_bare p.steps, evidence_bare p.evidence), stripped-IsBare ps)

untouched-IsBare : (ps : List MessagePart) → (strip_parts ps).1 ≡ false → All IsBare ps
unfolding strip_parts
untouched-IsBare [] h = tt
untouched-IsBare (p ∷ ps) h = (
  (steps_untouched p.steps (ground arith), evidence_untouched p.evidence (ground arith)),
  untouched-IsBare ps (ground arith),
)

abbrev Shown : Message → Type 0
Shown m = (is_internal m.visibility ≡ false) × All IsBare m.parts

member-Shown : (m : Message) → is_internal m.visibility ≡ false → Shown (without_internal_parts m).0
unfolding without_internal_parts
member-Shown m v = elim (Bool-cases (strip_parts m.parts).1) [
  | inl e ↦ rw (without_internal_parts, e) (v, stripped-IsBare m.parts)
  | inr e ↦ rw (without_internal_parts, e) (v, untouched-IsBare m.parts e)
]

All-append {ℓ κ} :
    {A : Type ℓ} (P : A → Type κ) (xs ys : List A) → All P xs → All P ys → All P (xs ++ ys)
All-append P [] ys a b = b
All-append P (x ∷ xs) ys a b = (a.0, All-append P xs ys a.1 b)

emits-IsSafe : (m : Message) → is_internal m.visibility ≡ false → All IsSafe (emit_message m false)
unfolding emit_message without_internal_parts
emits-IsSafe m v = elim (Bool-cases (strip_parts m.parts).1) [
  | inl e ↦ rw (emit_message, without_internal_parts, e) ((v, stripped-IsBare m.parts), (tt, tt))
  | inr e ↦ rw (emit_message, without_internal_parts, e) ((v, untouched-IsBare m.parts e), tt)
]

unless-IsSafe :
    (b : Bool) (m : Message)
    → (b ≡ false → is_internal m.visibility ≡ false)
    → All IsSafe (if b then [] else touched m ∷ [])
unless-IsSafe true m h = tt
unless-IsSafe false m h = (h refl, tt)

when-IsSafe : (b : Bool) (m : Message) → Shown m → All IsSafe (if b then webhook m ∷ [] else [])
when-IsSafe true m h = (h, tt)
when-IsSafe false m h = tt

activity-IsSafe : (m : Message) → All IsSafe (activity m)
unfolding activity
activity-IsSafe m = unless-IsSafe _ m (λ e. ground arith)

hooks-IsSafe :
    (conv : Option Conv) (m : Message)
    → is_internal m.visibility ≡ false
    → All IsSafe (if sends_webhooks conv then webhook (without_internal_parts m).0 ∷ [] else [])
hooks-IsSafe conv m v = when-IsSafe (sends_webhooks conv) _ (member-Shown m v)

effects-IsSafe : (conv : Option Conv) (m : Message) → All IsSafe (effects conv m)
unfolding effects emit_message
effects-IsSafe conv m = elim (Bool-cases (is_internal m.visibility)) [
  | inl e ↦ rw (effects, e) (All-append IsSafe (activity m) _ (activity-IsSafe m) (tt, tt))
  | inr e ↦
      rw (effects, e)
        (All-append IsSafe (activity m) _ (activity-IsSafe m) (
          e,
          All-append IsSafe _ _ (hooks-IsSafe conv m e)
              (All-append IsSafe (emit_message m false) _ (emits-IsSafe m e) (e, (e, tt))),
        ))
]

finish_send-IsSafe :
    (th : Thread) (m : Message) → All IsSafe th.log → All IsSafe (finish_send th m).0.log
unfolding finish_send
finish_send-IsSafe th m h = elim (Bool-cases (collides th.messages m.client_msg_id)) [
  | inl e ↦ rw (finish_send, e) h
  | inr e ↦
      rw (finish_send, e)
        (All-append IsSafe th.log (effects th.conv m) h (effects-IsSafe th.conv m))
]

-- Of all that SendMessage sets off, an internal note reaches the operators only, and a copy that goes to a
-- conversation's channel or a webhook carries no internal field of a step or an evidence item.
pub log-IsSafe : (th : Thread) (ms : List Message) → All IsSafe th.log → All IsSafe (run th ms).log
unfolding run
log-IsSafe th [] h = h
log-IsSafe th (m ∷ ms) h = log-IsSafe (finish_send th m).0 ms (finish_send-IsSafe th m h)
