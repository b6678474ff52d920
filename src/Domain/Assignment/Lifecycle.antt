-- ===== src/Domain/Assignment/Lifecycle.antt =====
-- The state machine of backend/internal/domain/assignment.go over any sequence of its calls.
use sild.Common.{
  ℕ, String, List, [], ◌∷◌, Bool, true, false, not, ◌&&◌, Option, none, some, any, str_eq,
  str_eq_iff, ◌≡◌, ◌⊎◌, inl, inr, refl, arith, Bool-cases,
}
use sild.Models.Enums.{is_peer}
use sild.Store.Assignments.{
  queued, assigned, closed, same_status, Assignment, Transition, put, write, guarded, transition,
}
use sild.Domain.Assignment.{
  Db, Error, add_assignment, announce, settle, apply_transition, claim_lost, claim_transition,
  close_transition, return_transition, claim_assignment, close_assignment, return_to_queue,
  already_closed,
}

pub data Call : Type 0 where
  adds : String → ℕ → String → Call
  claims : String → String → Call
  closes : String → ℕ → Call
  returns : String → Call

-- One call of the service for a tenant.
unfoldable pub step : Db → String × Call → Db
step db (tenant, adds conv now id) = (add_assignment db tenant conv now id).0
step db (tenant, claims id agent) = (claim_assignment db tenant id agent).0
step db (tenant, closes id now) = (close_assignment db tenant id now).0
step db (tenant, returns id) = (return_to_queue db tenant id).0

unfoldable pub run : Db → List (String × Call) → Db
run db [] = db
run db (c ∷ cs) = run (step db c) cs

abbrev pub is_some {ℓ} : {A : Type ℓ} → Option A → Bool
is_some none = false
is_some (some a) = true

-- A queued row has no assignee, an assigned one has one, and only a closed row has a closing time.
abbrev pub coherent : Assignment → Bool
coherent a = elim a.status [
  | queued ↦ not (is_some a.assignee) && not (is_some a.closed_at)
  | assigned ↦ is_some a.assignee && not (is_some a.closed_at)
  | closed ↦ is_some a.closed_at
]

abbrev pub peer_at : Db → String → String → Bool
peer_at db tenant conv = elim (db.conversations tenant conv) [ none ↦ false | some k ↦ is_peer k ]

-- Every row is coherent, and none stands on a peer conversation.
pub record IsSound (db : Db) : Type 0 where
  pub row_sound :
      (tenant id : String) (a : Assignment)
      → db.assignments tenant id ≡ some a
      → (coherent a ≡ true) × (peer_at db tenant a.conversation_id ≡ false)

-- The two effects of a transition on the state.
pub table_after :
    (db : Db) (tenant id : String) (t : Transition) (lost : Assignment → Option Error)
    → (apply_transition db tenant id t lost).0.assignments
      ≡ (transition db.assignments tenant id t).1
unfolding apply_transition settle announce transition
table_after db tenant id t lost = ground arith

conversations_after :
    (db : Db) (tenant id : String) (t : Transition) (lost : Assignment → Option Error)
    → (apply_transition db tenant id t lost).0.conversations ≡ db.conversations
unfolding apply_transition settle announce transition
conversations_after db tenant id t lost = ground arith

-- A transition that keeps a row coherent under its guard.
abbrev Keeps : Transition → Type 0
Keeps t =
    (a : Assignment)
    → any (same_status a.status) t.from ≡ true
    → coherent a ≡ true
    → coherent (write t a) ≡ true

claim-Keeps : (agent : String) → Keeps (claim_transition agent)
unfolding any same_status write
claim-Keeps agent a g h = ground arith

close-Keeps : (now : ℕ) → Keeps (close_transition now)
unfolding any same_status write
close-Keeps now a g h = ground arith

return-Keeps : Keeps return_transition
unfolding any same_status write
return-Keeps a g h = ground arith

-- The row at a key after a transition on a key: the guarded one, or as it was.
guarded_cases :
    (t : Transition) (o : Option Assignment) (b : Assignment)
    → (guarded t o).1 ≡ some b
    → (o ≡ some b)
      ⊎ ((a : Assignment) × (o ≡ some a)
          × (any (same_status a.status) t.from ≡ true)
          × (b ≡ write t a))
unfolding guarded
guarded_cases t none b h = inl h
guarded_cases t (some a) b h = elim (Bool-cases (any (same_status a.status) t.from)) [
  | inl yes_ ↦ inr (a, refl, yes_, ground arith)
  | inr no_ ↦ inl (ground arith)
]

module _ (db : Db) (t : Transition) (keeps : Keeps t) (sound : IsSound db) where
  guarded_sound :
      (tenant : String) (o : Option Assignment) (b : Assignment)
      → ((a : Assignment)
          → o ≡ some a
          → (coherent a ≡ true) × (peer_at db tenant a.conversation_id ≡ false))
      → (guarded t o).1 ≡ some b
      → (coherent b ≡ true) × (peer_at db tenant b.conversation_id ≡ false)
  unfolding write
  guarded_sound tenant o b s h = elim (guarded_cases t o b h) [
    | inl e ↦ s b e
    | inr (a, e, g, w) ↦ rw w (keeps a g (s a e).0, (s a e).1)
  ]

  same_key_sound :
      (tenant id tenant' id' : String) (b : Assignment)
      → tenant ≡ tenant'
      → (guarded t (db.assignments tenant id)).1 ≡ some b
      → (coherent b ≡ true) × (peer_at db tenant' b.conversation_id ≡ false)
  same_key_sound tenant id tenant' id' b e h =
      rw (← e) (guarded_sound tenant (db.assignments tenant id) b (sound.row_sound tenant id) h)

  table_sound :
      (tenant id tenant' id' : String) (b : Assignment)
      → (transition db.assignments tenant id t).1 tenant' id' ≡ some b
      → (coherent b ≡ true) × (peer_at db tenant' b.conversation_id ≡ false)
  unfolding transition put
  table_sound tenant id tenant' id' b h =
      elim (Bool-cases (str_eq tenant tenant' && str_eq id id')) [
        | inl same ↦
            same_key_sound tenant id tenant' id' b (ground (arith, str_eq_iff tenant tenant'))
              (ground arith)
        | inr other ↦ sound.row_sound tenant' id' b (ground arith)
      ]

  transition-IsSound :
      (tenant id : String) (lost : Assignment → Option Error)
      → IsSound (apply_transition db tenant id t lost).0
  transition-IsSound tenant id lost = record {
    row_sound = λ tenant' id' b h.
        rw (conversations_after db tenant id t lost, peer_at)
          (table_sound tenant id tenant' id' b (rw (table_after db tenant id t lost) at h));
  }

add-IsSound :
    (db : Db) (tenant conv : String) (now : ℕ) (id : String)
    → IsSound db
    → IsSound (add_assignment db tenant conv now id).0
unfolding add_assignment put
add-IsSound db tenant conv now id s = record {
  row_sound =
      λ tenant' id' b h. ground (arith, s.row_sound tenant' id' b, str_eq_iff tenant tenant');
}

step-IsSound : (db : Db) (c : String × Call) → IsSound db → IsSound (step db c)
unfolding step claim_assignment close_assignment return_to_queue
step-IsSound db (tenant, adds conv now id) s = add-IsSound db tenant conv now id s
step-IsSound db (tenant, claims id agent) s =
    transition-IsSound db (claim_transition agent) (claim-Keeps agent) s tenant id
      (claim_lost agent)
step-IsSound db (tenant, closes id now) s =
    transition-IsSound db (close_transition now) (close-Keeps now) s tenant id (λ a. none)
step-IsSound db (tenant, returns id) s =
    transition-IsSound db return_transition return-Keeps s tenant id
      (λ a. some (already_closed "assignment is not currently assigned"))

-- Any sequence of calls keeps every assignment coherent (queued without an assignee, assigned with one,
-- closed with a closing time) and puts none on a peer conversation.
pub run-IsSound : (db : Db) (cs : List (String × Call)) → IsSound db → IsSound (run db cs)
unfolding run
run-IsSound db [] s = s
run-IsSound db (c ∷ cs) s = run-IsSound (step db c) cs (step-IsSound db c s)
