-- ===== src/Domain/Team/Scopes.antt =====
-- The scopes that are stored: checkScope of backend/internal/domain/admin.go.
use sild.Common.{
  String, List, [], ◌∷◌, Bool, true, false, ◌||◌, str_eq, contains, All, ◌≡◌, refl, sym, ap, arith,
  Bool-cases, inl, inr, true≢false, if◌then◌else◌,
}
use mathlib.Core.Path.{subst}
use sild.I18n.{platform_project, normalize, valid_language}
use sild.Models.Enums.{PlatformRole, translator, valid_role}
use sild.Models.Rbac.{RoleScope, scope_all, queue_support}
use sild.Policy.Roles.Document.{validate_scope}
use sild.Principal.{same_role}
use sild.Domain.Team.{
  Team, Answer, ok, refused, ◌>>=◌, bad_scope, valid_platform_role, queue_settings, check_queues,
  clean_tags, check_projects, validate_translator_scope, check_scope,
}

abbrev is_ok {ℓ} : {A : Type ℓ} → Answer A → Bool
is_ok (ok a) = true
is_ok (refused e) = false

-- What a dimension may name: every one, or one that the tenant has.
abbrev pub is_tag : String → Bool
is_tag l = str_eq l scope_all || valid_language l

abbrev pub is_project : Team → String → Bool
is_project t p = str_eq p scope_all || (str_eq p platform_project || contains t.projects p)

abbrev pub is_queue : Team → String → Bool
is_queue t q = str_eq q scope_all || (str_eq q queue_support || contains t.queues q)

-- What checkScope lets through as a queue: one that the scope may name, or the empty text, which
-- QueueSettings takes for the support queue, though no conversation has it.
abbrev pub is_let_through : Team → String → Bool
is_let_through t q = str_eq q "" || is_queue t q

abbrev AreTags : Answer (List String) → Type 0
AreTags (ok out) = All (λ (l : String). is_tag l ≡ true) out
AreTags (refused e) = Unit

tags-AreTags :
    (x : String) (a : Answer (List String))
    → is_tag x ≡ true
    → AreTags a
    → AreTags (a >>= λ out. ok (x ∷ out))
tags-AreTags x (ok out) h hs = (h, hs)
tags-AreTags x (refused e) h hs = tt

clean-AreTags : (ls : List String) → AreTags (clean_tags ls)
unfolding clean_tags
clean-AreTags [] = tt
clean-AreTags (l ∷ ls) = elim (Bool-cases (str_eq l scope_all)) [
  | inl e ↦ rw e (tags-AreTags l (clean_tags ls) (rw e refl) (clean-AreTags ls))
  | inr e ↦ elim (Bool-cases (valid_language (normalize l))) [
    | inl f ↦
        rw (e, f) (tags-AreTags (normalize l) (clean_tags ls) (ground arith) (clean-AreTags ls))
    | inr f ↦ rw (e, f) tt
  ]
]

projects_there :
    (t : Team) (ps : List String)
    → is_ok (check_projects t ps) ≡ true
    → All (λ (p : String). is_project t p ≡ true) ps
unfolding check_projects
projects_there t [] h = tt
projects_there t (p ∷ ps) h = elim (Bool-cases (is_project t p)) [
  | inl e ↦ (e, projects_there t ps (rw e at h))
  | inr e ↦ absurd (true≢false (sym (rw e at h)))
]

queues_there :
    (t : Team) (qs : List String)
    → is_ok (check_queues t qs) ≡ true
    → All (λ (q : String). is_let_through t q ≡ true) qs
unfolding check_queues queue_settings
queues_there t [] h = tt
queues_there t (q ∷ qs) h = (ground arith, queues_there t qs (ground arith))

-- What a stored scope of a role may name in a tenant.
pub record IsReachable (t : Team) (role : PlatformRole) (s : RoleScope) : Type 0 where
  pub known : valid_role role ≡ true
  pub of_translator :
      same_role role translator ≡ true
      → All (λ (l : String). is_tag l ≡ true) s.locales
        × All (λ (p : String). is_project t p ≡ true) s.projects
  pub of_other :
      same_role role translator ≡ false → All (λ (q : String). is_let_through t q ≡ true) s.queues

bind_done {ℓ κ} :
    {A : Type ℓ} {B : Type κ} (a : Answer A) (f : A → Answer B) (b : B)
    → (a >>= f) ≡ ok b
    → (x : A) × (a ≡ ok x) × (f x ≡ ok b)
bind_done (ok x) f b h = (x, refl, h)
bind_done (refused e) f b h = absurd (true≢false (sym (ap is_ok h)))

ok_injective {ℓ} : {A : Type ℓ} (a b : A) → ok a ≡ ok b → a ≡ b
ok_injective a b h = ap (λ x. elim x [ ok y ↦ y | refused e ↦ a ]) h

translator_scope :
    (t : Team) (scope stored_ : RoleScope)
    → validate_translator_scope t scope ≡ ok stored_
    → All (λ (l : String). is_tag l ≡ true) stored_.locales
      × All (λ (p : String). is_project t p ≡ true) stored_.projects
unfolding validate_translator_scope
translator_scope t scope stored_ h =
    let (out, cleaned, h1) = bind_done (clean_tags scope.locales) _ stored_ h in
    let (unit, there, h2) = bind_done (check_projects t scope.projects) _ stored_ h1 in
    subst
      (λ s.
        All (λ (l : String). is_tag l ≡ true) s.locales
        × All (λ (p : String). is_project t p ≡ true) s.projects)
      (ok_injective _ stored_ h2)
      (
        subst AreTags cleaned (clean-AreTags scope.locales),
        projects_there t scope.projects (ap is_ok there),
      )

other_scope :
    (t : Team) (scope stored_ : RoleScope)
    → (check_queues t scope.queues >>= λ _. ok scope) ≡ ok stored_
    → All (λ (q : String). is_let_through t q ≡ true) stored_.queues
other_scope t scope stored_ h =
    let (unit, there, h1) = bind_done (check_queues t scope.queues) _ stored_ h in
    subst (λ s. All (λ (q : String). is_let_through t q ≡ true) s.queues)
      (ok_injective scope stored_ h1) (queues_there t scope.queues (ap is_ok there))

-- A scope that is accepted for storing is of a known role; a translator's names only language tags and
-- projects that the tenant has, and any other role's only queues that it has, besides the set of all and
-- the empty text, which names no queue.
pub check_scope-IsReachable :
    (t : Team) (role : PlatformRole) (scope stored_ : RoleScope)
    → check_scope t role scope ≡ ok stored_
    → IsReachable t role stored_
unfolding check_scope valid_platform_role
check_scope-IsReachable t role scope stored_ h =
    let (unit, valid, h1) = bind_done (valid_platform_role role) _ stored_ h in
    let (unit', own, h2) =
      bind_done (if validate_scope role scope then ok tt else refused bad_scope) _ stored_ h1 in
    record {
      known = ground arith;
      of_translator = λ e. translator_scope t scope stored_ (rw e at h2);
      of_other = λ e. other_scope t scope stored_ (rw e at h2);
    }
