-- ===== src/Domain/Team/Writes.antt =====
-- What a role write leaves as it was: AssignRole, RescopeRole, SetRole and RemoveRole of
-- backend/internal/domain/admin.go.
use mathlib.Core.Path.{subst}
use sild.Common.{
  String, List, [], ◌∷◌, ◌++◌, Bool, true, false, not, str_eq, str_eq_iff, any, map, keep,
  keep-append, append-nil, ◌≡◌, refl, sym, ◌∙◌, arith, Bool-cases, inl, inr, true≢false,
}
use sild.Models.Enums.{PlatformRole}
use sild.Models.Rbac.{RoleScope}
use sild.Store.RoleAssignments.{
  Grant, Written, written, duplicate, not_there, last_owner, is_grant, with_scope, create_grant,
  rescope_grant, delete_grant,
}
use sild.Domain.Team.{
  Team, Answer, ok, refused, then_write, map_written, set_grant, AssignmentWrite, write_add,
  write_rescope, write_set, write_assignment, accepted_scope, grant, put_assignment, assign_role,
  rescope_role, set_role, remove_role,
}

-- ListByAdmin, in the order of the rows
abbrev pub rows_of_member : List Grant → String → List Grant
rows_of_member gs id = keep (λ g. str_eq g.admin_user_id id) gs

pub data RoleWrite : Type 0 where
  assigns rescopes sets : String → PlatformRole → RoleScope → RoleWrite
  removes : String → PlatformRole → RoleWrite

unfoldable pub write : Team → RoleWrite → Team × Answer (Unit {0})
write t (assigns id role scope) = assign_role t id role scope
write t (rescopes id role scope) = rescope_role t id role scope
write t (sets id role scope) = set_role t id role scope
write t (removes id role) = remove_role t id role

abbrev pub written_for : RoleWrite → String
written_for (assigns id role scope) = id
written_for (rescopes id role scope) = id
written_for (sets id role scope) = id
written_for (removes id role) = id

abbrev pub is_ok {ℓ} : {A : Type ℓ} → Answer A → Bool
is_ok (ok a) = true
is_ok (refused e) = false

-- The rows of a member are left alone by a write for another.
module _ (id id' : String) (apart : str_eq id id' ≡ false) where
  other_grant :
      (role : PlatformRole) (g : Grant)
      → is_grant id role g ≡ true
      → str_eq g.admin_user_id id' ≡ false
  other_grant role g h =
      subst (λ s. str_eq s id' ≡ false) (sym ((str_eq_iff g.admin_user_id id).0 (ground arith)))
        apart

  rescoped_rows :
      (gs : List Grant) (role : PlatformRole) (scope : RoleScope)
      → rows_of_member (map (with_scope id role scope) gs) id' ≡ rows_of_member gs id'
  unfolding keep
  rescoped_rows [] role scope = refl
  rescoped_rows (g ∷ gs) role scope =
      ground (arith, rescoped_rows gs role scope, other_grant role g)

  kept_rows :
      (gs : List Grant) (role : PlatformRole)
      → rows_of_member (keep (λ g. not (is_grant id role g)) gs) id' ≡ rows_of_member gs id'
  unfolding keep
  kept_rows [] role = refl
  kept_rows (g ∷ gs) role = ground (arith, kept_rows gs role, other_grant role g)

  added_rows :
      (gs : List Grant) (role : PlatformRole) (scope : RoleScope)
      → rows_of_member (gs ++ grant id role scope ∷ []) id' ≡ rows_of_member gs id'
  unfolding keep
  added_rows gs role scope =
      keep-append (λ g. str_eq g.admin_user_id id') gs (grant id role scope ∷ [])
      ∙ (rw apart (append-nil (rows_of_member gs id')))

-- A write that is refused changes nothing.
abbrev pub IsAtomic : Team → Team × Answer (Unit {0}) → Type 0
IsAtomic t x = is_ok x.1 ≡ false → x.0 ≡ t

-- The rows of a member are what they were.
abbrev pub IsElsewhere : Team → String → Team → Type 0
IsElsewhere t id t' = rows_of_member t'.grants id ≡ rows_of_member t.grants id

module _ (t : Team) where
  map_written-IsAtomic : (w : Written × List Grant) → IsAtomic t (map_written w t)
  map_written-IsAtomic (written, gs) h = absurd (true≢false h)
  map_written-IsAtomic (duplicate, gs) h = refl
  map_written-IsAtomic (not_there, gs) h = refl
  map_written-IsAtomic (last_owner, gs) h = refl

  set_grant-IsAtomic : (w : Written × List Grant) (g : Grant) → IsAtomic t (set_grant w t g)
  set_grant-IsAtomic (written, gs) g h = absurd (true≢false h)
  set_grant-IsAtomic (duplicate, gs) g h =
      map_written-IsAtomic (rescope_grant t.grants g.admin_user_id g.role g.scope) h
  set_grant-IsAtomic (not_there, gs) g h = refl
  set_grant-IsAtomic (last_owner, gs) g h = refl

  assignment-IsAtomic : (g : Grant) (how : AssignmentWrite) → IsAtomic t (write_assignment t g how)
  unfolding write_assignment
  assignment-IsAtomic g write_rescope =
      map_written-IsAtomic (rescope_grant t.grants g.admin_user_id g.role g.scope)
  assignment-IsAtomic g write_add = map_written-IsAtomic (create_grant t.grants g)
  assignment-IsAtomic g write_set = set_grant-IsAtomic (create_grant t.grants g) g

  then_write-IsAtomic {ℓ} :
      {A : Type ℓ} (a : Answer A) (f : A → Team × Answer (Unit {0}))
      → ((x : A) → IsAtomic t (f x))
      → IsAtomic t (then_write t a f)
  then_write-IsAtomic (ok x) f h = h x
  then_write-IsAtomic (refused e) f h = λ _. refl

  put-IsAtomic :
      (id : String) (role : PlatformRole) (scope : RoleScope) (how : AssignmentWrite)
      → IsAtomic t (put_assignment t id role scope how)
  unfolding put_assignment
  put-IsAtomic id role scope how =
      then_write-IsAtomic (accepted_scope t id role scope) _
        (λ checked. assignment-IsAtomic (grant id role checked) how)

  pub write-IsAtomic : (w : RoleWrite) → IsAtomic t (write t w)
  unfolding write assign_role rescope_role set_role remove_role
  write-IsAtomic (assigns id role scope) = put-IsAtomic id role scope write_add
  write-IsAtomic (rescopes id role scope) = put-IsAtomic id role scope write_rescope
  write-IsAtomic (sets id role scope) = put-IsAtomic id role scope write_set
  write-IsAtomic (removes id role) = map_written-IsAtomic (delete_grant t.grants id role)

module _ (t : Team) (id id' : String) (apart : str_eq id id' ≡ false) where
  abbrev IsUnmoved : List Grant → Type 0
  IsUnmoved gs = rows_of_member gs id' ≡ rows_of_member t.grants id'

  created :
      (role : PlatformRole) (scope : RoleScope)
      → IsUnmoved (create_grant t.grants (grant id role scope)).1
  unfolding create_grant
  created role scope = elim (Bool-cases (any (is_grant id role) t.grants)) [
    | inl e ↦ rw e refl
    | inr e ↦ rw e (added_rows id id' apart t.grants role scope)
  ]

  rescoped :
      (role : PlatformRole) (scope : RoleScope) → IsUnmoved (rescope_grant t.grants id role scope).1
  unfolding rescope_grant
  rescoped role scope = elim (Bool-cases (any (is_grant id role) t.grants)) [
    | inl e ↦ rw e (rescoped_rows id id' apart t.grants role scope)
    | inr e ↦ rw e refl
  ]

  deleted : (role : PlatformRole) → IsUnmoved (delete_grant t.grants id role).1
  unfolding delete_grant
  deleted role = ground (arith, kept_rows id id' apart t.grants role)

  map_written-IsElsewhere :
      (w : Written × List Grant) → IsUnmoved w.1 → IsElsewhere t id' (map_written w t).0
  map_written-IsElsewhere (written, gs) h = h
  map_written-IsElsewhere (duplicate, gs) h = refl
  map_written-IsElsewhere (not_there, gs) h = refl
  map_written-IsElsewhere (last_owner, gs) h = refl

  set_grant-IsElsewhere :
      (w : Written × List Grant) (role : PlatformRole) (scope : RoleScope)
      → IsUnmoved w.1
      → IsElsewhere t id' (set_grant w t (grant id role scope)).0
  set_grant-IsElsewhere (written, gs) role scope h = h
  set_grant-IsElsewhere (duplicate, gs) role scope h =
      map_written-IsElsewhere (rescope_grant t.grants id role scope) (rescoped role scope)
  set_grant-IsElsewhere (not_there, gs) role scope h = refl
  set_grant-IsElsewhere (last_owner, gs) role scope h = refl

  assignment-IsElsewhere :
      (role : PlatformRole) (scope : RoleScope) (how : AssignmentWrite)
      → IsElsewhere t id' (write_assignment t (grant id role scope) how).0
  unfolding write_assignment
  assignment-IsElsewhere role scope write_rescope =
      map_written-IsElsewhere (rescope_grant t.grants id role scope) (rescoped role scope)
  assignment-IsElsewhere role scope write_add =
      map_written-IsElsewhere (create_grant t.grants (grant id role scope)) (created role scope)
  assignment-IsElsewhere role scope write_set =
      set_grant-IsElsewhere (create_grant t.grants (grant id role scope)) role scope
        (created role scope)

  then_write-IsElsewhere {ℓ} :
      {A : Type ℓ} (a : Answer A) (f : A → Team × Answer (Unit {0}))
      → ((x : A) → IsElsewhere t id' (f x).0)
      → IsElsewhere t id' (then_write t a f).0
  then_write-IsElsewhere (ok x) f h = h x
  then_write-IsElsewhere (refused e) f h = refl

  put-IsElsewhere :
      (role : PlatformRole) (scope : RoleScope) (how : AssignmentWrite)
      → IsElsewhere t id' (put_assignment t id role scope how).0
  unfolding put_assignment
  put-IsElsewhere role scope how =
      then_write-IsElsewhere (accepted_scope t id role scope) _
        (λ checked. assignment-IsElsewhere role checked how)

pub write-IsElsewhere :
    (t : Team) (w : RoleWrite) (id' : String)
    → str_eq (written_for w) id' ≡ false
    → IsElsewhere t id' (write t w).0
unfolding write assign_role rescope_role set_role remove_role
write-IsElsewhere t (assigns id role scope) id' h = put-IsElsewhere t id id' h role scope write_add
write-IsElsewhere t (rescopes id role scope) id' h =
    put-IsElsewhere t id id' h role scope write_rescope
write-IsElsewhere t (sets id role scope) id' h = put-IsElsewhere t id id' h role scope write_set
write-IsElsewhere t (removes id role) id' h =
    map_written-IsElsewhere t id id' h (delete_grant t.grants id role) (deleted t id id' h role)
