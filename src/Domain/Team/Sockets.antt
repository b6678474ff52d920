-- ===== src/Domain/Team/Sockets.antt =====
-- What an open socket of a member follows as roles are written: AssignRole, RescopeRole, SetRole and
-- RemoveRole of backend/internal/domain/admin.go, with the held and reconcileSubscriptions that they end in.
use mathlib.Core.Path.{subst}
use sild.Common.{
  String, List, [], ◌∷◌, false, ◌&&◌, str_eq, map, ◌≡◌, sym, ap, Bool-cases, inl, inr,
  if◌then◌else◌,
}
use sild.Principal.{Principal, for_admin}
use sild.Realtime.{Channel, ChannelInputs}
use sild.Realtime.Subscriptions.{reconcile_subscriptions, IsFollowing, reconciled-IsFollowing}
use sild.Domain.Team.{Team}
use sild.Domain.Team.Writes.{
  rows_of_member, RoleWrite, write, written_for, is_ok, IsElsewhere, write-IsAtomic,
  write-IsElsewhere,
}

-- held
unfoldable pub held : Team → String → String → Principal
held t tenant id =
    for_admin (record { tenant_id = tenant; id = id; is_service = false })
      (map (λ g. record { role = g.role; scope = g.scope }) (rows_of_member t.grants id))

-- The rows after a write, and what the open sockets of one member then follow.
unfoldable pub write_followed :
    ChannelInputs → String → String → Team × List Channel → RoleWrite → Team × List Channel
write_followed stored tenant id (t, subs) w =
    let after = (write t w).0 in
    if is_ok (write t w).1 && str_eq (written_for w) id
    then (after, reconcile_subscriptions stored (held t tenant id) (held after tenant id) subs)
    else (after, subs)

unfoldable pub writes_followed :
    ChannelInputs → String → String → Team × List Channel → List RoleWrite → Team × List Channel
writes_followed stored tenant id s [] = s
writes_followed stored tenant id s (w ∷ ws) =
    writes_followed stored tenant id (write_followed stored tenant id s w) ws

-- The open sockets of a member follow the channels of what it holds.
abbrev pub AreFollowing : ChannelInputs → String → String → Team × List Channel → Type 0
AreFollowing stored tenant id s = IsFollowing stored (held s.0 tenant id) s.1

same_held :
    (t t' : Team) (tenant id : String) → IsElsewhere t id t' → held t tenant id ≡ held t' tenant id
unfolding held
same_held t t' tenant id h =
    ap
      (λ gs.
        for_admin (record { tenant_id = tenant; id = id; is_service = false })
          (map (λ g. record { role = g.role; scope = g.scope }) gs))
      (sym h)

write-AreFollowing :
    (stored : ChannelInputs) (tenant id : String) (s : Team × List Channel) (w : RoleWrite)
    → AreFollowing stored tenant id s
    → AreFollowing stored tenant id (write_followed stored tenant id s w)
unfolding write_followed
write-AreFollowing stored tenant id (t, subs) w follows = elim (Bool-cases (is_ok (write t w).1)) [
  | inl e ↦ elim (Bool-cases (str_eq (written_for w) id)) [
    | inl f ↦
        rw (e, f)
          (reconciled-IsFollowing stored (held t tenant id) (held (write t w).0 tenant id) subs
            follows)
    | inr f ↦
        rw (e, f)
          (subst (λ p. IsFollowing stored p subs)
            (same_held t (write t w).0 tenant id (write-IsElsewhere t w id f)) follows)
  ]
  | inr e ↦ rw e (
      subst (λ t'. IsFollowing stored (held t' tenant id) subs) (sym (write-IsAtomic t w e))
        follows)
]

-- Open sockets that follow the channels of what a member holds follow those of what it then holds after
-- any sequence of role writes, for any members, refused ones included.
pub writes-AreFollowing :
    (stored : ChannelInputs) (tenant id : String) (s : Team × List Channel) (ws : List RoleWrite)
    → AreFollowing stored tenant id s
    → AreFollowing stored tenant id (writes_followed stored tenant id s ws)
unfolding writes_followed
writes-AreFollowing stored tenant id s [] follows = follows
writes-AreFollowing stored tenant id s (w ∷ ws) follows =
    writes-AreFollowing stored tenant id (write_followed stored tenant id s w) ws
      (write-AreFollowing stored tenant id s w follows)
