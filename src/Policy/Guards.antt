-- ===== src/Policy/Guards.antt =====
-- Who is kept out: backend/internal/policy/policy.go and scope.go.
use sild.Common.{
  String, List, [], ◌∷◌, true, false, Option, none, some, ◌≡◌, ◌↔◌, inl, inr, refl, any, All, arith,
  Option-cases, ◌∙◌,
}
use sild.Models.Enums.{PlatformRole, translator, is_peer}
use sild.Principal.{
  Principal, Assignment, admin_session, peer_access, requester_only, requester_reaches,
}
use sild.Policy.Action.{
  Action, Grant, capabilities, undeclared, conversations_list, contacts_list, notes_read,
  notes_write,
}
use sild.Policy.Catalog.{translator_action}
use sild.Policy.Decision.{
  Denied, allowed, refused, ResourceAttrs, role_holds, holds, conversation_scoped, operates,
  own_request, authorize_conversation, authorize, is_allowed, internal,
}
use sild.Policy.Sessions.{authorize_conversation_session, internal_session, kind_holds_session}
use sild.Policy.Scope.{scope}
use sild.Policy.Translation.{authorize_translation}

-- An action that the table does not declare is refused to every caller on every path: no capability,
-- no authorization, no notes, no collection and no translation.
pub undeclared_denied :
    (caller : Option Principal) (s : String) (r : ResourceAttrs) (project locale : String)
    → (holds caller (undeclared s) ≡ false)
      × (is_allowed (authorize caller (undeclared s) r) ≡ false)
      × (internal caller (undeclared s) r ≡ false)
      × ((scope caller (undeclared s)).deny_all ≡ true)
      × (is_allowed (authorize_translation caller (undeclared s) project locale) ≡ false)
unfolding holds capabilities authorize internal scope authorize_translation
undeclared_denied none s r project locale = (refl, refl, refl, refl, refl)
undeclared_denied (some p) s r project locale = (refl, refl, refl, refl, refl)

operates_authn :
    (p : Principal) (r : ResourceAttrs) (d : Denied) → operates p r ≡ refused d → d.authn ≡ false
unfolding operates
operates_authn p r d h = ground arith

-- A refusal asks for authentication exactly when there is no caller.
pub authn_iff_no_caller :
    (caller : Option Principal) (a : Action) (r : ResourceAttrs) (d : Denied)
    → authorize caller a r ≡ refused d
    → (d.authn ≡ true) ↔ (caller ≡ none)
unfolding authorize holds authorize_conversation
authn_iff_no_caller none a r d h = (λ e. refl, λ e. ground arith)
authn_iff_no_caller (some p) a r d h = (λ e. ground (arith, operates_authn p r d), λ e. cc)

module _ (p : Principal) (a : Action) (r : ResourceAttrs) where
  -- An operator reads a peer conversation only through the peer dimension of its agent role,
  -- whatever other roles it holds.
  pub peer_needs_grant :
      p.kind ≡ admin_session
      → conversation_scoped a ≡ true
      → is_peer r.kind ≡ true
      → authorize (some p) a r ≡ allowed
      → peer_access p ≡ true
  unfolding authorize own_request operates
  peer_needs_grant k scoped is h = ground (arith, authorize_conversation_session p k a r)

  -- A member with no role but the requester's is let into a conversation only as a member of it, only
  -- in a queue of its own and never into a peer one, and it uses no internal notes there.
  pub requester_confined :
      p.kind ≡ admin_session
      → conversation_scoped a ≡ true
      → requester_only p ≡ true
      → authorize (some p) a r ≡ allowed
      → (is_peer r.kind ≡ false)
        × (r.is_member ≡ true)
        × (requester_reaches p r.queue ≡ true)
        × (internal (some p) a r ≡ false)
  unfolding authorize own_request operates
  requester_confined k scoped only h =
      ground (arith, authorize_conversation_session p k a r, internal_session p k a r)

role_holds_translator :
    (g : Grant) (r : PlatformRole) → r ≡ translator → role_holds g r ≡ g.translator
unfolding role_holds
role_holds_translator g r e = rw e

translator_holds :
    (as_ : List Assignment) (g : Grant)
    → All (λ (a : Assignment). a.role ≡ translator) as_
    → g.translator ≡ false
    → any (λ a. role_holds g a.role) as_ ≡ false
unfolding any
translator_holds [] g h e = refl
translator_holds (a ∷ as_) g h e =
    ground (arith, translator_holds as_ g h.1 e, role_holds_translator g a.role h.0)

translator-not-scoped : (a : Action) → conversation_scoped a ≡ true → translator_action a ≡ false
unfolding conversation_scoped translator_action capabilities
translator-not-scoped conversations_list h = cc
translator-not-scoped _ h = ground arith

module _ (p : Principal) (session : p.kind ≡ admin_session) where
  holds_of_translator :
      All (λ (a : Assignment). a.role ≡ translator) p.assignments
      → (a : Action) → translator_action a ≡ false
      → holds (some p) a ≡ false
  unfolding holds translator_action
  holds_of_translator all a h = elim (Option-cases (capabilities a)) [
    | inl e ↦ rw (e, holds)
    | inr (g, e) ↦
        rw (e, holds)
          (kind_holds_session p session g
            ∙ translator_holds p.assignments g all (rw (e, translator_action) at h))
  ]

  -- A member with no role but the translator's is refused every action on a conversation, sees an
  -- empty list of conversations and of contacts, and no internal note.
  pub translator_isolated :
      All (λ (a : Assignment). a.role ≡ translator) p.assignments
      → (a : Action) (r : ResourceAttrs) → conversation_scoped a ≡ true
      → (is_allowed (authorize (some p) a r) ≡ false)
        × ((scope (some p) conversations_list).deny_all ≡ true)
        × ((scope (some p) contacts_list).deny_all ≡ true)
        × (internal (some p) notes_read r ≡ false)
        × (internal (some p) notes_write r ≡ false)
  unfolding authorize scope internal translator_action capabilities
  translator_isolated all a r scoped = (
    ground (arith, holds_of_translator all a (translator-not-scoped a scoped)),
    rw (holds_of_translator all conversations_list refl) refl,
    rw (holds_of_translator all contacts_list refl) refl,
    rw (holds_of_translator all notes_read refl) refl,
    rw (holds_of_translator all notes_write refl) refl,
  )
