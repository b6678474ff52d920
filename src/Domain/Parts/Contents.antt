-- ===== src/Domain/Parts/Contents.antt =====
-- What a part holds that passes the switch of validateParts: backend/internal/domain/parts.go.
use Prim.Native.String.{count}
use sild.Common.{
  ℕ, ◌≤◌, String, List, [], ◌∷◌, true, false, str_eq, str_eq_iff, is_empty, Bool-cases, length, All,
  ◌≡◌, ◌⊎◌, inl, inr, refl, arith,
}
use sild.Domain.Parts.{
  StepPart, EvidenceItem, known_state, valid_fix, valid_evidence, valid_item, MessagePart,
  SenderKind, allowed, short, blank, each, valid_step, valid_steps, valid_diagnosis, valid_approval,
  valid_content,
}

-- What a step holds, written out.
pub record IsStep (s : StepPart) : Type 0 where
  pub standing :
      (s.state ≡ "running")
      ⊎ (s.state ≡ "done")
      ⊎ (s.state ≡ "not_available")
      ⊎ (s.state ≡ "needs_approval")
  pub labelled : (blank s.label ≡ false) × (count s.label ≤ 200)
  pub result_short : count s.result ≤ 1024
  pub internal_short : length s.internal ≤ 1024

-- What an evidence item holds.
pub record IsEvidence (e : EvidenceItem) : Type 0 where
  pub found : (blank e.finding ≡ false) × (count e.finding ≤ 1024)
  pub sourced : (blank e.source ≡ false) × (count e.source ≤ 200)
  pub internal_short : length e.internal ≤ 1024

-- A text that is there, of no more characters than a limit.
abbrev pub IsText : ℕ → String → Type 0
IsText max t = (blank t ≡ false) × (count t ≤ max)

-- A part holds what its type says, within the limits, and nothing else.
abbrev pub IsPart : MessagePart → Type 0
IsPart p =
    ((p.type ≡ "steps")
      × (1 ≤ length p.steps)
      × (length p.steps ≤ 50)
      × All IsStep p.steps
      × (p.cause ≡ "")
      × (p.fix ≡ [])
      × (p.evidence ≡ [])
      × (p.items ≡ []))
    ⊎ ((p.type ≡ "diagnosis")
        × IsText 1024 p.cause
        × (length p.fix ≤ 20)
        × All (IsText 1024) p.fix
        × (length p.evidence ≤ 10)
        × All IsEvidence p.evidence
        × (p.steps ≡ [])
        × (p.items ≡ []))
    ⊎ ((p.type ≡ "approval")
        × (length p.items ≤ 10)
        × All (IsText 200) p.items
        × (p.steps ≡ [])
        × (p.cause ≡ "")
        × (p.fix ≡ [])
        × (p.evidence ≡ []))

step_standing :
    (s : String)
    → known_state s ≡ true
    → (s ≡ "running") ⊎ (s ≡ "done") ⊎ (s ≡ "not_available") ⊎ (s ≡ "needs_approval")
unfolding known_state
step_standing s h = elim (Bool-cases (str_eq s "running")) [
  | inl e ↦ inl ((str_eq_iff s "running").0 e)
  | inr e ↦ elim (Bool-cases (str_eq s "done")) [
    | inl f ↦ inr (inl ((str_eq_iff s "done").0 f))
    | inr f ↦ elim (Bool-cases (str_eq s "not_available")) [
      | inl g ↦ inr (inr (inl ((str_eq_iff s "not_available").0 g)))
      | inr g ↦ inr (inr (inr ((str_eq_iff s "needs_approval").0 (ground arith))))
    ]
  ]
]

each_steps : (ss : List StepPart) → each valid_step ss ≡ true → All IsStep ss
unfolding each valid_step short
each_steps [] h = tt
each_steps (s ∷ ss) h = (
  record {
    standing = step_standing s.state (ground arith);
    labelled = ground arith;
    result_short = ground arith;
    internal_short = ground arith;
  },
  each_steps ss (ground arith),
)

each_fix : (fs : List String) → each valid_fix fs ≡ true → All (IsText 1024) fs
unfolding each valid_fix short
each_fix [] h = tt
each_fix (f ∷ fs) h = (ground arith, each_fix fs (ground arith))

each-IsEvidence : (es : List EvidenceItem) → each valid_evidence es ≡ true → All IsEvidence es
unfolding each valid_evidence short
each-IsEvidence [] h = tt
each-IsEvidence (e ∷ es) h = (
  record { found = ground arith; sourced = ground arith; internal_short = ground arith },
  each-IsEvidence es (ground arith),
)

each_item : (is : List String) → each valid_item is ≡ true → All (IsText 200) is
unfolding each valid_item short
each_item [] h = tt
each_item (i ∷ is) h = (ground arith, each_item is (ground arith))

empty_is {ℓ} : {A : Type ℓ} (xs : List A) → is_empty xs ≡ true → xs ≡ []
empty_is [] h = refl
empty_is (x ∷ xs) h = ground arith

pub some_length {ℓ} : {A : Type ℓ} (xs : List A) → is_empty xs ≡ false → 1 ≤ length xs
some_length [] h = ground arith
some_length (x ∷ xs) h = omega arith

module _ (p : MessagePart) where
  steps-IsPart : str_eq p.type "steps" ≡ true → valid_steps p ≡ true → IsPart p
  unfolding valid_steps
  steps-IsPart t h = inl (
    (str_eq_iff p.type "steps").0 t,
    some_length p.steps (ground arith),
    ground arith,
    each_steps p.steps (ground arith),
    (str_eq_iff p.cause "").0 (ground arith),
    empty_is p.fix (ground arith),
    empty_is p.evidence (ground arith),
    empty_is p.items (ground arith),
  )

  diagnosis-IsPart : str_eq p.type "diagnosis" ≡ true → valid_diagnosis p ≡ true → IsPart p
  unfolding valid_diagnosis short
  diagnosis-IsPart t h = inr (
      inl (
        (str_eq_iff p.type "diagnosis").0 t,
        ground arith,
        ground arith,
        each_fix p.fix (ground arith),
        ground arith,
        each-IsEvidence p.evidence (ground arith),
        empty_is p.steps (ground arith),
        empty_is p.items (ground arith),
      ))

  approval-IsPart : str_eq p.type "approval" ≡ true → valid_approval p ≡ true → IsPart p
  unfolding valid_approval
  approval-IsPart t h = inr (
      inr (
        (str_eq_iff p.type "approval").0 t,
        ground arith,
        each_item p.items (ground arith),
        empty_is p.steps (ground arith),
        (str_eq_iff p.cause "").0 (ground arith),
        empty_is p.fix (ground arith),
        empty_is p.evidence (ground arith),
      ))

  pub content-IsPart :
      (sender : SenderKind) → allowed sender p.type ≡ true → valid_content p ≡ true → IsPart p
  unfolding allowed valid_content
  content-IsPart sender a h = elim (Bool-cases (str_eq p.type "steps")) [
    | inl s ↦ steps-IsPart s (ground arith)
    | inr ns ↦ elim (Bool-cases (str_eq p.type "diagnosis")) [
      | inl d ↦ diagnosis-IsPart d (ground arith)
      | inr nd ↦ elim (Bool-cases (str_eq p.type "approval")) [
        | inl ap ↦ approval-IsPart ap (ground arith)
        | inr na ↦ absurd (ground arith)
      ]
    ]
  ]
