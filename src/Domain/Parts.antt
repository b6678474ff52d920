-- ===== src/Domain/Parts.antt =====
-- backend/internal/domain/parts.go: the structured parts of a message. A document stands for what
-- encoding/json decodes of it; a decoded text is valid UTF-8, and is measured in characters.
pub mod Contents
pub mod Accepted
use Prim.Native.String.{count}
use sild.Common.{
  ℕ, suc, String, List, [], ◌∷◌, Bool, true, false, not, ◌&&◌, ◌||◌, Option, none, some, str_eq,
  any, length, is_empty, leb, ltb, if◌then◌else◌,
}

abbrev pub max_parts : ℕ
max_parts = 10

abbrev pub max_steps : ℕ
max_steps = 50

abbrev pub max_label_chars : ℕ
max_label_chars = 200

abbrev pub max_text_chars : ℕ
max_text_chars = 1024

abbrev pub max_internal_bytes : ℕ
max_internal_bytes = 1024

abbrev pub max_fix_items : ℕ
max_fix_items = 20

abbrev pub max_evidence : ℕ
max_evidence = 10

abbrev pub max_approved : ℕ
max_approved = 10

-- An internal document counts only by its bytes.
pub record StepPart : Type 0 where
  pub label : String
  pub result : String
  pub state : String
  pub internal : List ℕ
  pub approved_until : ℕ

pub record EvidenceItem : Type 0 where
  pub finding : String
  pub source : String
  pub internal : List ℕ

pub record MessagePart : Type 0 where
  pub type : String
  pub steps : List StepPart
  pub cause : String
  pub fix : List String
  pub evidence : List EvidenceItem
  pub items : List String

pub data SenderKind : Type 0 where
  user agent bot system : SenderKind
  other_sender : String → SenderKind

-- partsBySender[sender], and the lookup of a type in it
unfoldable pub allowed : SenderKind → String → Bool
allowed user t = false
allowed agent t = false
allowed (other_sender s) t = false
allowed bot t = str_eq t "steps" || str_eq t "diagnosis"
allowed system t = str_eq t "approval"

-- Whether partsBySender has the sender.
unfoldable pub sends_parts : SenderKind → Bool
sends_parts user = false
sends_parts agent = false
sends_parts (other_sender s) = false
sends_parts bot = true
sends_parts system = true

unfoldable pub short : String → ℕ → Bool
short s max = leb (count s) max

abbrev pub blank : String → Bool
blank s = str_eq s ""

-- Every element passes the test: a loop that refuses at the first that does not.
unfoldable pub each {ℓ} : {A : Type ℓ} → (A → Bool) → List A → Bool
each f [] = true
each f (x ∷ xs) = f x && each f xs

unfoldable pub known_state : String → Bool
known_state s =
    str_eq s "running"
    || (str_eq s "done" || (str_eq s "not_available" || str_eq s "needs_approval"))

unfoldable pub valid_step : StepPart → Bool
valid_step s =
    known_state s.state
    && (short s.label max_label_chars
        && (not (blank s.label)
            && (short s.result max_text_chars && leb (length s.internal) max_internal_bytes)))

unfoldable pub valid_steps : MessagePart → Bool
valid_steps p =
    not (is_empty p.steps)
    && (leb (length p.steps) max_steps
        && (blank p.cause
            && (is_empty p.fix
                && (is_empty p.evidence && (is_empty p.items && each valid_step p.steps)))))

unfoldable pub valid_fix : String → Bool
valid_fix f = not (blank f) && short f max_text_chars

unfoldable pub valid_evidence : EvidenceItem → Bool
valid_evidence e =
    not (blank e.finding)
    && (short e.finding max_text_chars
        && (not (blank e.source)
            && (short e.source max_label_chars && leb (length e.internal) max_internal_bytes)))

unfoldable pub valid_diagnosis : MessagePart → Bool
valid_diagnosis p =
    not (blank p.cause)
    && (short p.cause max_text_chars
        && (leb (length p.fix) max_fix_items
            && (is_empty p.steps
                && (is_empty p.items
                    && (each valid_fix p.fix
                        && (leb (length p.evidence) max_evidence
                            && each valid_evidence p.evidence))))))

unfoldable pub valid_item : String → Bool
valid_item i = not (blank i) && short i max_label_chars

unfoldable pub valid_approval : MessagePart → Bool
valid_approval p =
    is_empty p.steps
    && (blank p.cause
        && (is_empty p.fix
            && (is_empty p.evidence
                && (leb (length p.items) max_approved && each valid_item p.items))))

-- The switch on the type of a part.
unfoldable pub valid_content : MessagePart → Bool
valid_content p =
    if str_eq p.type "steps"
    then valid_steps p
    else if str_eq p.type "diagnosis"
    then valid_diagnosis p
    else if str_eq p.type "approval"
    then valid_approval p
    else true

pub data PartsError : Type 0 where
  sender_refused : PartsError
  not_an_array : PartsError
  wrong_count : PartsError
  type_refused : ℕ → PartsError
  part_refused : ℕ → PartsError

-- The loop over the parts from an index: the first that is refused.
unfoldable pub refused_from : ℕ → SenderKind → List MessagePart → Option PartsError
refused_from i sender [] = none
refused_from i sender (p ∷ ps) =
    let later = refused_from (suc i) sender ps in
    if not (allowed sender p.type)
    then some (type_refused i)
    else if not (valid_content p)
    then some (part_refused i)
    else later

pub data Validated : Type 0 where
  stored : List MessagePart → Validated
  invalid : PartsError → Validated

abbrev answer : List MessagePart → Option PartsError → Validated
answer ps none = stored ps
answer ps (some e) = invalid e

-- validateParts, over the decoded document; none is one that is not an array of parts
unfoldable pub validate_parts : Option (List MessagePart) → SenderKind → Validated
validate_parts raw sender = if not (sends_parts sender) then invalid sender_refused else elim raw [
  | none ↦ invalid not_an_array
  | some ps ↦
      if is_empty ps || ltb max_parts (length ps)
      then invalid wrong_count
      else answer ps (refused_from 0 sender ps)
]

unfoldable pub is_approval : MessagePart → Bool
is_approval p = str_eq p.type "approval"

-- hasApproval
unfoldable pub has_approval : Option (List MessagePart) → Bool
has_approval none = false
has_approval (some ps) = any is_approval ps
