-- ===== src/Domain/Assignment/Claims.antt =====
-- Closing and claiming in backend/internal/domain/assignment.go: what is final, who wins, and what is
-- published.
use sild.Common.{
  String, List, [], ◌∷◌, Bool, true, false, not, ◌&&◌, ◌||◌, Option, none, some, any, str_eq,
  str_eq_iff, str_eq_refl, ◌≡◌, ◌⊎◌, inl, inr, refl, ap₂, arith, Bool-cases, Option-cases, map,
}
use sild.Store.Assignments.{
  queued, assigned, closed, same_status, Assignment, Table, Transition, put, write, guarded,
  transition,
}
use sild.Domain.Assignment.{
  Db, ok, err, Error, add_assignment, announce, settle, apply_transition, claim_lost,
  claim_transition, close_transition, return_transition, claim_assignment, close_assignment,
  return_to_queue, held_by,
}
use sild.Domain.Assignment.Lifecycle.{
  Call, adds, claims, closes, returns, step, run, IsSound, table_after,
}

closed_guard :
    (t : Transition) (a : Assignment)
    → a.status ≡ closed
    → any (same_status closed) t.from ≡ false
    → guarded t (some a) ≡ (false, some a)
unfolding guarded
closed_guard t a e f = rw (e, guarded, f)

closed_at_key :
    (table : Table) (tenant id tenant' id' : String) (a : Assignment)
    → table tenant id ≡ some a
    → tenant' ≡ tenant
    → id' ≡ id
    → table tenant' id' ≡ some a
closed_at_key table tenant id tenant' id' a row e f = rw (e, f) row

closed_transition :
    (table : Table) (tenant id tenant' id' : String) (t : Transition) (a : Assignment)
    → table tenant id ≡ some a
    → a.status ≡ closed
    → any (same_status closed) t.from ≡ false
    → (transition table tenant' id' t).1 tenant id ≡ some a
unfolding transition put
closed_transition table tenant id tenant' id' t a row e f =
    elim (Bool-cases (str_eq tenant' tenant && str_eq id' id)) [
      | inl same ↦ ground (
        arith,
        str_eq_iff tenant' tenant,
        str_eq_iff id' id,
        closed_guard t a e f,
        closed_at_key table tenant id tenant' id' a row,
      )
      | inr other ↦ ground arith
    ]

module _ (tenant id : String) (a : Assignment) (done : a.status ≡ closed) where
  step_closed :
      (db : Db) (c : String × Call)
      → db.assignments tenant id ≡ some a
      → (step db c).assignments tenant id ≡ some a
  unfolding step claim_assignment close_assignment return_to_queue add_assignment any same_status
      put
  step_closed db (tenant', adds conv now id') row = ground (
    arith,
    str_eq_iff tenant' tenant,
    str_eq_iff id' id,
    closed_at_key db.assignments tenant id tenant' id' a row,
  )
  step_closed db (tenant', claims id' agent) row = rw table_after (
      closed_transition db.assignments tenant id tenant' id' (claim_transition agent) a row done
        refl)
  step_closed db (tenant', closes id' now) row = rw table_after (
      closed_transition db.assignments tenant id tenant' id' (close_transition now) a row done refl)
  step_closed db (tenant', returns id') row =
      rw table_after
        (closed_transition db.assignments tenant id tenant' id' return_transition a row done refl)

  -- Closed is final: a closed assignment stays as it is, its assignee and its closing time included,
  -- whatever calls follow, for this tenant or another.
  pub run_closed :
      (db : Db) (cs : List (String × Call))
      → db.assignments tenant id ≡ some a
      → (run db cs).assignments tenant id ≡ some a
  unfolding run
  run_closed db [] row = row
  run_closed db (c ∷ cs) row = run_closed (step db c) cs (step_closed db c row)

held_by_eq : (o : Option String) (agent : String) → held_by o agent ≡ true → o ≡ some agent
held_by_eq none agent h = cc
held_by_eq (some s) agent h = ground (arith, str_eq_iff s agent)

module _ (db : Db) (tenant id agent : String) (sound : IsSound db) where
  -- A claim that returns an assignment returns one that is assigned to the claiming agent: it was
  -- queued, or the agent held it already.
  pub claim_returns :
      (db' : Db) (a : Assignment)
      → claim_assignment db tenant id agent ≡ (db', ok a)
      → (a.status ≡ assigned) × (a.assignee ≡ some agent) × (db'.assignments tenant id ≡ some a)
  unfolding claim_assignment apply_transition settle transition put guarded write claim_lost
      announce any same_status
  claim_returns db' a h = ground (
    arith,
    sound.row_sound tenant id a,
    str_eq_refl tenant,
    str_eq_refl id,
    held_by_eq a.assignee agent,
  )

  -- A claim that fails leaves every row and every event as they were. It fails only where there is no
  -- row, or where the row is no longer queued and is closed or held by another agent.
  pub claim_fails :
      (db' : Db) (e : Error)
      → claim_assignment db tenant id agent ≡ (db', err e)
      → (db'.events ≡ db.events)
        × ((tenant' id' : String) → db'.assignments tenant' id' ≡ db.assignments tenant' id')
        × ((db.assignments tenant id ≡ none)
            ⊎ ((a : Assignment) × (db.assignments tenant id ≡ some a)
                × (same_status a.status queued ≡ false)
                × ((same_status a.status closed || not (held_by a.assignee agent)) ≡ true)))
  unfolding claim_assignment apply_transition settle transition put guarded write claim_lost
      announce any same_status
  claim_fails db' e h = elim (Option-cases (db.assignments tenant id)) [
    | inl missing ↦
        (ground arith, λ t' i'. ground (arith, str_eq_iff tenant t', str_eq_iff id i'), inl missing)
    | inr (a, row) ↦ (
      ground (arith, str_eq_refl tenant, str_eq_refl id),
      λ t' i'.
          ground
            (arith, str_eq_iff tenant t', str_eq_iff id i', str_eq_refl tenant, str_eq_refl id),
      inr (
        a,
        row,
        ground (arith, str_eq_refl tenant, str_eq_refl id),
        ground (arith, str_eq_refl tenant, str_eq_refl id),
      ),
    )
  ]

-- Guarded writes of several agents on one row, in the order in which the database takes them: the
-- outcome of each, and the table after.
pub race : Table → String → String → List String → List Bool × Table
race t tenant id [] = ([], t)
race t tenant id (agent ∷ rest) =
    let (won, t') = transition t tenant id (claim_transition agent) in
    let (others, t'') = race t' tenant id rest in (won ∷ others, t'')

module _ (tenant id : String) where
  lost_write :
      (a : Assignment) (t : Table) (agent : String)
      → t tenant id ≡ some a
      → a.status ≡ assigned
      → ((transition t tenant id (claim_transition agent)).0 ≡ false)
        × ((transition t tenant id (claim_transition agent)).1 tenant id ≡ some a)
  unfolding transition put guarded any same_status
  lost_write a t agent row taken = ground (arith, str_eq_refl tenant, str_eq_refl id)

  won_write :
      (a : Assignment) (t : Table) (agent : String)
      → t tenant id ≡ some a
      → a.status ≡ queued
      → ((transition t tenant id (claim_transition agent)).0 ≡ true)
        × ((transition t tenant id (claim_transition agent)).1 tenant id
            ≡ some (record a { status = assigned; assignee = some agent }))
  unfolding transition put guarded any same_status write
  won_write a t agent row free = ground (arith, str_eq_refl tenant, str_eq_refl id)

  race_lost :
      (a : Assignment) (t : Table) (agents : List String)
      → t tenant id ≡ some a
      → a.status ≡ assigned
      → ((race t tenant id agents).0 ≡ map (λ x. false) agents)
        × ((race t tenant id agents).1 tenant id ≡ some a)
  unfolding race
  race_lost a t [] row taken = (refl, row)
  race_lost a t (agent ∷ rest) row taken =
      let (flags, last) =
        race_lost a (transition t tenant id (claim_transition agent)).1 rest
          (lost_write a t agent row taken).1 taken in
      (ap₂ ◌∷◌ (lost_write a t agent row taken).0 flags, last)

  -- Of agents that claim a queued assignment at once, the first whose write the database takes wins, all
  -- others lose, and the row is left assigned to the winner.
  pub one_winner :
      (a : Assignment) (t : Table) (first : String) (rest : List String)
      → t tenant id ≡ some a
      → a.status ≡ queued
      → ((race t tenant id (first ∷ rest)).0 ≡ true ∷ map (λ x. false) rest)
        × ((race t tenant id (first ∷ rest)).1 tenant id
            ≡ some (record a { status = assigned; assignee = some first }))
  unfolding race
  one_winner a t first rest row free =
      let (flags, last) =
        race_lost (record a { status = assigned; assignee = some first })
          (transition t tenant id (claim_transition first)).1 rest (won_write a t first row free).1
          refl in
      (ap₂ ◌∷◌ (won_write a t first row free).0 flags, last)
