-- ===== src/Policy/Listing.antt =====
-- The catalogue and the grants that a frontend is told: Actions, AdminRoles and Grants of
-- backend/internal/policy.
use mathlib.Core.List.{Mem, Perm, mem-cons, mem-cons_self, mem-cons_of_mem, not-mem-nil, Mem-prop}
use mathlib.Core.List.Perm
use mathlib.Core.Logic.Or
use sild.Common.{
  List, [], ◌∷◌, Bool, true, false, none, some, ◌≡◌, ◌≢◌, ◌⊎◌, ◌↔◌, inl, inr, refl, sym, ◌∙◌, any,
  All, arith, Bool-cases, Option-cases, map, keep,
}
use sild.Models.Enums.{PlatformRole, owner, unknown, valid_role}
use sild.Principal.{Principal, Assignment, admin_session, same_role}
use sild.Policy.Sessions.{kind_holds_session}
use sild.Policy.Action.{Action, Grant, capabilities, keys, undeclared}
use sild.Policy.Decision.{role_holds, holds}
use sild.Policy.Catalog.{name_le, insert, sort, sorted_actions, admin_roles, every_admin_role}
use sild.Policy.Grants.{advertised, grant_of, grants_over, grants}

insert-perm : (a : Action) (as_ : List Action) → Perm (insert a as_) (a ∷ as_)
unfolding insert
insert-perm a [] = Perm.refl _
insert-perm a (b ∷ bs) = elim (Bool-cases (name_le a b)) [
  | inl le ↦ rw (le, insert) (Perm.refl _)
  | inr gt ↦ rw (gt, insert) (Perm.trans (Perm.cons b (insert-perm a bs)) (Perm.swap a b bs))
]

sort-perm : (as_ : List Action) → Perm (sort as_) as_
unfolding sort
sort-perm [] = Perm.refl _
sort-perm (a ∷ as_) = Perm.trans (insert-perm a (sort as_)) (Perm.cons a (sort-perm as_))

abbrev In : Action → List Action → Type 0
In a [] = ⊥
In a (b ∷ bs) = (a ≡ b) ⊎ In a bs

Mem_of_In : (a : Action) (as_ : List Action) → In a as_ → Mem a as_
Mem_of_In a [] h = absurd h
Mem_of_In a (b ∷ bs) (inl e) = rw e mem-cons_self
Mem_of_In a (b ∷ bs) (inr h) = mem-cons_of_mem b (Mem_of_In a bs h)

declared-In : (a : Action) → capabilities a ≢ none → In a keys
unfolding capabilities
declared-In (undeclared s) h = absurd (h refl)
declared-In _ h = ground arith

true-prop : (b : Bool) → IsProp (b ≡ true)
true-prop b = hlevel

mem-keep : (f : Action → Bool) (a : Action) (as_ : List Action) → Mem a (keep f as_) → f a ≡ true
unfolding keep
mem-keep f a [] m = absurd (not-mem-nil m)
mem-keep f a (b ∷ bs) m = elim (Bool-cases (f b)) [
  | inl t ↦
      Or.elim (true-prop (f a)) (mem-cons.0 (rw (t, keep) at m)) (λ e. rw e t) (mem-keep f a bs)
  | inr t ↦ mem-keep f a bs (rw (t, keep) at m)
]

keep-mem :
    (f : Action → Bool) (a : Action) (as_ : List Action)
    → Mem a as_
    → f a ≡ true
    → Mem a (keep f as_)
unfolding keep
keep-mem f a [] m t = absurd (not-mem-nil m)
keep-mem f a (b ∷ bs) m t = elim (Bool-cases (f b)) [
  | inl e ↦
      rw (e, keep)
        (Or.elim Mem-prop (mem-cons.0 m) (λ q. rw q mem-cons_self)
          (λ r. mem-cons_of_mem b (keep-mem f a bs r t)))
  | inr e ↦ rw (e, keep) (Or.elim Mem-prop (mem-cons.0 m) (λ q. cc) (λ r. keep-mem f a bs r t))
]

actions-grants_over :
    (p : Principal) (as_ : List Action)
    → map (λ g. g.action) (grants_over p as_) ≡ keep (advertised p) as_
unfolding grants_over keep grant_of
actions-grants_over p [] = refl
actions-grants_over p (a ∷ as_) = ground (arith, actions-grants_over p as_)

advertised-declared : (p : Principal) (a : Action) → advertised p a ≡ true → capabilities a ≢ none
unfolding advertised holds
advertised-declared p a h e = ground arith

abbrev is_declared : Action → Bool
unfolding capabilities
is_declared a = elim (capabilities a) [ none ↦ false | some g ↦ true ]

every_key_declared : keep is_declared keys ≡ keys
unfolding keep is_declared
every_key_declared = refl

mem_declared : (a : Action) → Mem a keys → capabilities a ≢ none
unfolding is_declared
mem_declared a m e = ground (arith, mem-keep is_declared a keys (rw every_key_declared m))

-- Actions lists an action exactly when the capability table declares it.
pub mem-sorted_actions : (a : Action) → Mem a sorted_actions ↔ (capabilities a ≢ none)
unfolding sorted_actions
mem-sorted_actions a = (
  λ m. mem_declared a ((Perm.mem_iff (sort-perm keys)).0 m),
  λ h. (Perm.mem_iff (sort-perm keys)).1 (Mem_of_In a keys (declared-In a h)),
)

-- Grants names an action exactly when the caller holds it and no narrower translator scope withholds
-- it: every action that it names is held, and none that passes the test is left out.
pub mem-grants :
    (p : Principal) (a : Action) → Mem a (map (λ g. g.action) (grants p)) ↔ (advertised p a ≡ true)
unfolding grants
mem-grants p a = rw (actions-grants_over p sorted_actions) (
  mem-keep (advertised p) a sorted_actions,
  λ t.
      keep-mem (advertised p) a sorted_actions
        ((mem-sorted_actions a).1 (advertised-declared p a t)) t,
)

role_listed :
    (g : Grant) (r : PlatformRole)
    → valid_role r ≡ true
    → role_holds g r ≡ any (same_role r) (keep (role_holds g) every_admin_role)
unfolding role_holds any keep same_role valid_role
role_listed g owner v = ground arith
role_listed g (unknown s) v = ground arith
role_listed g _ v = ground arith

any-role_listed :
    (g : Grant) (as_ : List Assignment)
    → All (λ (x : Assignment). valid_role x.role ≡ true) as_
    → any (λ x. role_holds g x.role) as_
      ≡ any (λ x. any (same_role x.role) (keep (role_holds g) every_admin_role)) as_
unfolding any
any-role_listed g [] v = refl
any-role_listed g (x ∷ as_) v = rw (role_listed g x.role v.0, any-role_listed g as_ v.1)

any-none : (as_ : List Assignment) → any (λ x. any (same_role x.role) []) as_ ≡ false
unfolding any
any-none [] = refl
any-none (x ∷ as_) = any-none as_

-- The role guard that is derived from AdminRoles lets through exactly the admin sessions that hold the
-- action, where every role is a recognised one.
pub holds_iff_role_listed :
    (p : Principal) (a : Action)
    → p.kind ≡ admin_session
    → All (λ (x : Assignment). valid_role x.role ≡ true) p.assignments
    → holds (some p) a ≡ any (λ x. any (same_role x.role) (admin_roles a)) p.assignments
unfolding holds admin_roles
holds_iff_role_listed p a k v = elim (Option-cases (capabilities a)) [
  | inl e ↦ rw (e, holds, admin_roles) (sym (any-none p.assignments))
  | inr (g, e) ↦
      rw (e, holds, admin_roles) (kind_holds_session p k g ∙ any-role_listed g p.assignments v)
]
