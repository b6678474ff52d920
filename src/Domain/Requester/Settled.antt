-- ===== src/Domain/Requester/Settled.antt =====
-- What an approval leaves to approve: backend/internal/domain/requester_assertion.go.
use sild.Common.{
  ℕ, zero, suc, ◌-◌, ◌≤◌, drop, String, List, [], ◌∷◌, ◌++◌, not, any, length, length-append, All,
  All-append, ◌≡◌, refl, ap, ◌∙◌, arith, Option-cases, inl, inr, none, some, str_eq,
}
use sild.Domain.Parts.{system, MessagePart, has_approval, is_approval}
use sild.Domain.Requester.Checks.{guard_done}
use sild.Domain.Requester.Approvals.{approved_parts, All-drop}
use sild.Domain.Requester.{
  PageMessage, Desk, ok, refused, conflict, approved_at, changed, is_closed, same_text,
  requester_actor, message_items, last_page, awaiting_approval, approval_part, approve_data_access,
}

-- No message was changed after a time.
abbrev pub IsSettledBy : ℕ → PageMessage → Type 0
IsSettledBy t m = changed m ≤ t

settled_items :
    (t at_ : ℕ) (items : List String) (ms : List PageMessage)
    → t ≤ at_
    → All (IsSettledBy t) ms
    → message_items at_ items ms ≡ items
unfolding message_items
settled_items t at_ items [] le h = refl
settled_items t at_ items (m ∷ ms) le h = elim (Option-cases m.parts) [
  | inl e ↦ rw (e, message_items) (settled_items t at_ items ms le h.1)
  | inr (ps, e) ↦ rw (e, message_items) (ground (arith, h.0, settled_items t at_ items ms le h.1))
]

-- The message of an approval that was sent at a time.
abbrev pub sent_at : ℕ → List MessagePart → PageMessage
sent_at t ps = record { sender_kind = system; created_at = t; updated_at = none; parts = some ps }

now_settled : (t : ℕ) (ps : List MessagePart) → IsSettledBy t (sent_at t ps)
unfolding changed
now_settled t ps = omega arith

-- The latest approval of a page that ends with one is not before it.
approved_last :
    (at_ t : ℕ) (items : List String) (ms : List PageMessage)
    → t ≤ approved_at at_ (ms ++ sent_at t (approval_part items ∷ []) ∷ [])
unfolding approved_at has_approval any is_approval str_eq
approved_last at_ t items [] = ground arith
approved_last at_ t items (m ∷ ms) =
    ground (arith, approved_last at_ t items ms, approved_last m.created_at t items ms)

drop-append {ℓ} :
    {A : Type ℓ} (n : ℕ) (xs : List A) (y : A)
    → n ≤ length xs
    → drop n (xs ++ y ∷ []) ≡ drop n xs ++ y ∷ []
drop-append zero xs y le = refl
drop-append (suc n) [] y le = absurd (omega arith)
drop-append (suc n) (x ∷ xs) y le = drop-append n xs y (omega arith)

-- A page of at least one message ends with the newest.
page_ends :
    (limit : ℕ) (ms : List PageMessage) (m : PageMessage)
    → last_page (suc limit) (ms ++ m ∷ []) ≡ drop (length ms - limit) ms ++ m ∷ []
unfolding last_page
page_ends limit ms m =
    ap (λ n. drop n (ms ++ m ∷ [])) excess ∙ drop-append (length ms - limit) ms m (omega arith)
  where
    excess : length (ms ++ m ∷ []) - suc limit ≡ length ms - limit
    excess = rw (length-append ms (m ∷ [])) (omega arith)

nothing_waits :
    (t : ℕ) (items : List String) (ms : List PageMessage)
    → All (IsSettledBy t) ms
    → awaiting_approval (ms ++ sent_at t (approval_part items ∷ []) ∷ []) ≡ []
unfolding awaiting_approval
nothing_waits t items ms settled =
    let m = sent_at t (approval_part items ∷ []) in
    let page = drop (length ms - 99) ms in
    ap (λ ms'. message_items (approved_at 0 ms') [] ms') (page_ends 99 ms m)
    ∙ settled_items t (approved_at 0 (page ++ m ∷ [])) [] (page ++ m ∷ [])
        (approved_last 0 t items page)
        (All-append (IsSettledBy t) page (m ∷ [])
          (All-drop (IsSettledBy t) (length ms - 99) ms settled)
          (now_settled t (approval_part items ∷ []), tt))

-- An approval ends the wait of all that waited, named or not: once its message is the newest of the
-- conversation, and no other message was changed after it, a second ApproveDataAccess has nothing to approve.
pub approval_clears :
    (d : Desk) (actor : String) (t : ℕ) (ps : List MessagePart)
    → approve_data_access d actor ≡ ok ps
    → All (IsSettledBy t) d.messages
    → approve_data_access (record d { messages = d.messages ++ sent_at t ps ∷ [] }) actor
      ≡ refused (conflict "nothing_to_approve")
unfolding approve_data_access
approval_clears d actor t ps h settled =
    let (open', h1) = guard_done (not (is_closed d.status)) _ _ ps h in
    let (own, h2) = guard_done (same_text (requester_actor d.members) actor) _ _ ps h1 in
    rw
      (
        approved_parts d actor ps h,
        approve_data_access,
        open',
        own,
        nothing_waits t (awaiting_approval d.messages) d.messages settled,
      )
      refl
