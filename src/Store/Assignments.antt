-- ===== src/Store/Assignments.antt =====
-- The assignment table: assignmentRepo of backend/internal/store/gormstore/conversation.go, with the
-- row of store/models/conversation.go and AssignmentTransition of store/repos.go. The table maps the
-- primary key and the tenant to the row; a time is a number.
use sild.Common.{
  ℕ, String, List, Bool, true, false, ◌&&◌, Option, none, some, any, str_eq, if◌then◌else◌,
}

pub data AssignmentStatus : Type 0 where
  queued assigned closed : AssignmentStatus

unfoldable pub same_status : AssignmentStatus → AssignmentStatus → Bool
same_status queued queued = true
same_status assigned assigned = true
same_status closed closed = true
same_status _ _ = false

pub record Assignment : Type 0 where
  pub id : String
  pub tenant_id : String
  pub conversation_id : String
  pub assignee : Option String
  pub status : AssignmentStatus
  pub created_at : ℕ
  pub closed_at : Option ℕ

abbrev pub Table : Type 0
Table = String → String → Option Assignment

pub record Transition : Type 0 where
  pub from : List AssignmentStatus
  pub to : AssignmentStatus
  pub assignee : Option String
  pub clear_assignee : Bool
  pub closed_at : Option ℕ

-- The row at one key replaced.
unfoldable pub put : Table → String → String → Option Assignment → Table
put t tenant id a tenant' id' = if str_eq tenant tenant' && str_eq id id' then a else t tenant' id'

abbrev or_else {ℓ} : {A : Type ℓ} → Option A → Option A → Option A
or_else none b = b
or_else (some a) b = some a

-- The map `updates` that Transition writes.
unfoldable pub write : Transition → Assignment → Assignment
write t a = record a {
  status = t.to;
  assignee = if t.clear_assignee then none else or_else t.assignee a.assignee;
  closed_at = or_else t.closed_at a.closed_at;
}

-- The guard `status IN from` and the write, on the row that the key finds.
unfoldable pub guarded : Transition → Option Assignment → Bool × Option Assignment
guarded t none = (false, none)
guarded t (some a) =
    if any (same_status a.status) t.from then (true, some (write t a)) else (false, some a)

-- Transition: whether a row was affected, and the table after.
unfoldable pub transition : Table → String → String → Transition → Bool × Table
transition t tenant id tr = let (won, row) = guarded tr (t tenant id) in (won, put t tenant id row)
