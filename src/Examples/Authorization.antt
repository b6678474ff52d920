-- ===== src/Examples/Authorization.antt =====
-- Examples of the decisions of backend/internal/policy and apiutil.
use sild.Common.{true, false, some, ◌≡◌, inl, refl}
use sild.Models.Enums.{is_peer}
use sild.Principal.{requester_reaches}
use sild.Policy.Action.{
  conversations_read, conversations_list, messages_send, contacts_list, notes_read, notes_write,
}
use sild.Policy.Decision.{Denied, allowed, authorize, is_allowed, internal}
use sild.Policy.Scope.{scope}
use sild.Policy.Guards.{requester_confined, translator_isolated}
use sild.Store.ConversationList.{is_listed}
use sild.Api.Authz.{conversation_attrs}
use sild.Api.Authz.Ceiling.{listed-authorized, authorized-listed}
use sild.Api.Authz.UnknownRole.{unknown_role_mismatch}
use sild.Examples.Callers.{
  billing_agent, it_requester, spanish_translator, stray, stray_member, billing_row, billing_stored,
  it_attrs, decisions,
}

listed-authorized_example :
    authorize
      (some billing_agent)
      conversations_read
      (conversation_attrs billing_agent billing_stored)
    ≡ allowed
unfolding decisions
listed-authorized_example =
    listed-authorized billing_agent billing_row billing_stored refl (inl refl) (refl, tt) refl

billing_read :
    authorize
      (some billing_agent)
      conversations_read
      (conversation_attrs billing_agent billing_stored)
    ≡ allowed
unfolding decisions
billing_read = refl

authorized-listed_example :
    is_listed (scope (some billing_agent) conversations_list) billing_row billing_stored ≡ true
authorized-listed_example =
    authorized-listed billing_agent billing_row billing_stored refl (inl refl) (inl refl)
      billing_read

unknown_role_mismatch_example :
    (is_listed (scope (some stray_member) conversations_list) billing_row billing_stored ≡ true)
    × (is_allowed (
          authorize
            (some stray_member)
            conversations_read
            (conversation_attrs stray_member billing_stored))
        ≡ false)
unknown_role_mismatch_example =
    unknown_role_mismatch stray_member billing_row billing_stored "auditor" stray refl refl refl
      refl refl refl

abbrev no_caller : Denied
no_caller = record { code = "unauthorized"; message = "authentication required"; authn = true }

requester_confined_example :
    (is_peer it_attrs.kind ≡ false)
    × (it_attrs.is_member ≡ true)
    × (requester_reaches it_requester it_attrs.queue ≡ true)
    × (internal (some it_requester) messages_send it_attrs ≡ false)
unfolding decisions
requester_confined_example =
    requester_confined it_requester messages_send it_attrs refl refl refl refl

translator_isolated_example :
    (is_allowed (authorize (some spanish_translator) messages_send it_attrs) ≡ false)
    × ((scope (some spanish_translator) conversations_list).deny_all ≡ true)
    × ((scope (some spanish_translator) contacts_list).deny_all ≡ true)
    × (internal (some spanish_translator) notes_read it_attrs ≡ false)
    × (internal (some spanish_translator) notes_write it_attrs ≡ false)
unfolding decisions
translator_isolated_example =
    translator_isolated spanish_translator refl (refl, tt) messages_send it_attrs refl
