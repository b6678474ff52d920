-- ===== src/Domain/Team/Runs.antt =====
-- What any sequence of calls on a team keeps: backend/internal/domain/admin.go.
use sild.Common.{String, List, [], ◌∷◌, Bool, true, false, str_eq, ◌≡◌, if◌then◌else◌}
use sild.Models.Enums.{PlatformRole}
use sild.Models.Rbac.{RoleScope}
use sild.Store.RoleAssignments.{
  Grant, Written, written, duplicate, not_there, last_owner, create_grant, rescope_grant,
  delete_grant,
}
use sild.Store.RoleAssignments.Owners.{
  has_owner, create-has_owner, rescope-has_owner, delete-has_owner,
}
use sild.Store.RoleAssignments.Single.{IsSingle, create-IsSingle, rescope-IsSingle, delete-IsSingle}
use sild.Domain.Team.{
  Team, Member, Answer, ok, refused, then_write, map_written, set_grant, AssignmentWrite, write_add,
  write_rescope, write_set, write_assignment, accepted_scope, grant, put_assignment, assign_role,
  rescope_role, set_role, remove_role, check_scope, is_taken, store_member, create_member,
  role_or_agent, invite_agent, create_service_account,
}

-- Some member is an owner, and every member holds a role once.
pub record IsOwned (t : Team) : Type 0 where
  pub owned : has_owner t.grants ≡ true
  pub single : IsSingle t.grants

pub data Call : Type 0 where
  assigns rescopes sets : String → PlatformRole → RoleScope → Call
  removes : String → PlatformRole → Call
  invites : String → String → String → String → PlatformRole → RoleScope → Call
  serves : String → String → String → PlatformRole → RoleScope → Call

-- The rows after a call.
unfoldable pub step : Team → Call → Team
step t (assigns id role scope) = (assign_role t id role scope).0
step t (rescopes id role scope) = (rescope_role t id role scope).0
step t (sets id role scope) = (set_role t id role scope).0
step t (removes id role) = (remove_role t id role).0
step t (invites id email first last role scope) = (invite_agent t id email first last role scope).0
step t (serves id name display role scope) = (create_service_account t id name display role scope).0

unfoldable pub run : Team → List Call → Team
run t [] = t
run t (c ∷ cs) = run (step t c) cs

-- What a write leaves, where the rows that it would leave are in order.
map_written-IsOwned :
    (w : Written × List Grant) (t : Team)
    → IsOwned t
    → has_owner w.1 ≡ true
    → IsSingle w.1
    → IsOwned (map_written w t).0
map_written-IsOwned (written, gs) t i h s = record { owned = h; single = s }
map_written-IsOwned (duplicate, gs) t i h s = i
map_written-IsOwned (not_there, gs) t i h s = i
map_written-IsOwned (last_owner, gs) t i h s = i

module _ (t : Team) (i : IsOwned t) where
  rescoped :
      (g : Grant)
      → IsOwned (map_written (rescope_grant t.grants g.admin_user_id g.role g.scope) t).0
  rescoped g =
      map_written-IsOwned (rescope_grant t.grants g.admin_user_id g.role g.scope) t i
        (rescope-has_owner t.grants g.admin_user_id g.role g.scope i.owned)
        (rescope-IsSingle t.grants g.admin_user_id g.role g.scope i.single)

  set_grant-IsOwned :
      (w : Written × List Grant) (g : Grant)
      → has_owner w.1 ≡ true
      → IsSingle w.1
      → IsOwned (set_grant w t g).0
  set_grant-IsOwned (written, gs) g h s = record { owned = h; single = s }
  set_grant-IsOwned (duplicate, gs) g h s = rescoped g
  set_grant-IsOwned (not_there, gs) g h s = i
  set_grant-IsOwned (last_owner, gs) g h s = i

  write-IsOwned : (g : Grant) (how : AssignmentWrite) → IsOwned (write_assignment t g how).0
  unfolding write_assignment
  write-IsOwned g write_rescope = rescoped g
  write-IsOwned g write_add =
      map_written-IsOwned (create_grant t.grants g) t i (create-has_owner t.grants g i.owned)
        (create-IsSingle t.grants g i.single)
  write-IsOwned g write_set =
      set_grant-IsOwned (create_grant t.grants g) g (create-has_owner t.grants g i.owned)
        (create-IsSingle t.grants g i.single)

  if-IsOwned :
      (b : Bool) (x y : Team × Answer Member)
      → IsOwned x.0
      → IsOwned y.0
      → IsOwned (if b then x else y).0
  if-IsOwned true x y h k = h
  if-IsOwned false x y h k = k

  then_write-IsOwned {ℓ κ} :
      {A : Type ℓ} {B : Type κ} (a : Answer A) (f : A → Team × Answer B)
      → ((x : A) → IsOwned (f x).0)
      → IsOwned (then_write t a f).0
  then_write-IsOwned (ok x) f h = h x
  then_write-IsOwned (refused e) f h = i

  put-IsOwned :
      (id : String) (role : PlatformRole) (scope : RoleScope) (how : AssignmentWrite)
      → IsOwned (put_assignment t id role scope how).0
  unfolding put_assignment
  put-IsOwned id role scope how =
      then_write-IsOwned (accepted_scope t id role scope) _
        (λ checked. write-IsOwned (grant id role checked) how)

  store_member-IsOwned :
      (m : Member) (w : Written × List Grant)
      → has_owner w.1 ≡ true
      → IsSingle w.1
      → IsOwned (store_member t m w).0
  store_member-IsOwned m (written, gs) h s = record { owned = h; single = s }
  store_member-IsOwned m (duplicate, gs) h s = i
  store_member-IsOwned m (not_there, gs) h s = i
  store_member-IsOwned m (last_owner, gs) h s = i

  create_member-IsOwned :
      (m : Member) (role : PlatformRole) (scope : RoleScope)
      → IsOwned (create_member t m role scope).0
  unfolding create_member
  create_member-IsOwned m role scope = then_write-IsOwned (check_scope t role scope) _ (λ checked.
      if-IsOwned (is_taken t m) _ _ i (
        store_member-IsOwned m (create_grant t.grants (grant m.id role checked))
          (create-has_owner t.grants (grant m.id role checked) i.owned)
          (create-IsSingle t.grants (grant m.id role checked) i.single)))

  step-IsOwned : (c : Call) → IsOwned (step t c)
  unfolding step assign_role rescope_role set_role remove_role invite_agent create_service_account
  step-IsOwned (assigns id role scope) = put-IsOwned id role scope write_add
  step-IsOwned (rescopes id role scope) = put-IsOwned id role scope write_rescope
  step-IsOwned (sets id role scope) = put-IsOwned id role scope write_set
  step-IsOwned (removes id role) =
      map_written-IsOwned (delete_grant t.grants id role) t i
        (delete-has_owner t.grants id role i.owned) (delete-IsSingle t.grants id role i.single)
  step-IsOwned (invites id email first last role scope) =
      if-IsOwned (str_eq email "") _ _ i (create_member-IsOwned _ (role_or_agent role) scope)
  step-IsOwned (serves id name display role scope) =
      if-IsOwned (str_eq name "") _ _ i (create_member-IsOwned _ role scope)

-- A tenant that has an owner, and whose members each hold a role once, keeps an owner and the roles
-- single through any sequence of assignments, rescopes, removals, invitations and service accounts.
pub run-IsOwned : (t : Team) (cs : List Call) → IsOwned t → IsOwned (run t cs)
unfolding run
run-IsOwned t [] i = i
run-IsOwned t (c ∷ cs) i = run-IsOwned (step t c) cs (step-IsOwned t i c)
