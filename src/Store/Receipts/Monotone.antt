-- ===== src/Store/Receipts/Monotone.antt =====
-- A read receipt only moves forward: backend/internal/store/gormstore/conversation.go.
use sild.Common.{
  String, List, [], ◌∷◌, true, false, none, some, str_eq, str_eq_iff, text_lt, text_lt_trans,
  text_lt_irrefl, text_lt_cotrans, text_lt-nil, All, if◌then◌else◌, ◌≡◌, refl, sym, ap, ◌∙◌, arith,
  Bool-cases, inl, inr,
}
use mathlib.Core.Path.{subst}
use sild.Store.Receipts.{
  Participant, Receipt, matches, find_receipt, upsert, mark_read, last_read_of,
}

-- The id of the row that a participant finds, where there is one.
upsert_found :
    (rs : List Receipt) (p : Participant) (id : String)
    → matches p p ≡ true
    → last_read_of (upsert rs p id) p
      ≡ some (elim (last_read_of rs p) [ none ↦ id | some x ↦ if text_lt x id then id else x ])
unfolding upsert last_read_of find_receipt
upsert_found [] p id self = ground (arith, self)
upsert_found (r ∷ rs) p id self = ground (arith, upsert_found rs p id self)

-- Marks of a participant, one after another.
unfoldable pub mark_all : List Receipt → Participant → List String → List Receipt
mark_all rs p [] = rs
mark_all rs p (id ∷ ids) = mark_all (mark_read rs p id).0 p ids

-- The empty id is before none.
unmoved : (x id : String) → str_eq id "" ≡ true → x ≡ (if text_lt x id then id else x)
unmoved x id e =
    let none_before : text_lt x id ≡ false =
      subst (λ (t : String). text_lt x t ≡ false) (sym ((str_eq_iff id "").0 e)) (text_lt-nil x) in
    ground (arith, none_before)

-- What a mark leaves to read for a participant that has a row.
marked :
    (rs : List Receipt) (p : Participant) (id x : String)
    → matches p p ≡ true
    → last_read_of rs p ≡ some x
    → last_read_of (mark_read rs p id).0 p ≡ some (if text_lt x id then id else x)
unfolding mark_read
marked rs p id x self h = elim (Bool-cases (str_eq id "")) [
  | inl e ↦ rw e (h ∙ ap some (unmoved x id e))
  | inr e ↦ rw (e, upsert_found rs p id self, h) refl
]

-- A text that is not before the later of two is not before either.
not_before :
    (x id y : String)
    → text_lt y (if text_lt x id then id else x) ≡ false
    → (text_lt y x ≡ false) × (text_lt y id ≡ false)
not_before x id y h = elim (Bool-cases (text_lt x id)) [
  | inl e ↦ (ground (arith, text_lt_trans y x id), ground arith)
  | inr e ↦ (ground arith, ground (arith, text_lt_cotrans y x id))
]

-- Whatever marks reach the server, in whatever order, the receipt of a participant stays, and is then
-- neither before what it was nor before any of the marks.
pub marks_move_forward :
    (rs : List Receipt) (p : Participant) (ids : List String) (x : String)
    → matches p p ≡ true
    → last_read_of rs p ≡ some x
    → (y : String) × (last_read_of (mark_all rs p ids) p ≡ some y)
      × (text_lt y x ≡ false)
      × All (λ (id : String). text_lt y id ≡ false) ids
unfolding mark_all
marks_move_forward rs p [] x self h = (x, h, text_lt_irrefl x, tt)
marks_move_forward rs p (id ∷ ids) x self h =
    let (y, there, after, rest) =
      marks_move_forward (mark_read rs p id).0 p ids (if text_lt x id then id else x) self
        (marked rs p id x self h) in
    let (kept, past) = not_before x id y after in (y, there, kept, (past, rest))
