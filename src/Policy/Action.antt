-- ===== src/Policy/Action.antt =====
-- backend/internal/policy/action.go: the actions and the capability table.
use sild.Common.{String, Bool, true, false, Option, none, some, List, [], ◌∷◌}

-- Action is a string type: `undeclared` stands for a string that no constant names.
pub data Action : Type 0 where
  conversations_list conversations_read conversations_create_support : Action
  conversations_create_peer conversations_close members_manage members_remap : Action
  messages_read messages_send receipts_write typing_write assignments_create : Action
  assignments_claim assignments_close contacts_list contacts_read contacts_write : Action
  uploads_issue uploads_write uploads_read tokens_mint realtime_token principal_read : Action
  push_tokens_manage push_config_manage push_recipients_manage identity_manage : Action
  brands_read_active brands_read brands_write settings_read settings_write : Action
  api_keys_manage webhooks_manage webhooks_read_deliveries team_manage : Action
  translations_fetch translations_read translations_write translations_publish : Action
  translations_manage notes_read notes_write : Action
  undeclared : String → Action

-- The text of each action, which orders the catalogue.
unfoldable pub action_name : Action → String
action_name conversations_list = "conversations.list"
action_name conversations_read = "conversations.read"
action_name conversations_create_support = "conversations.create_support"
action_name conversations_create_peer = "conversations.create_peer"
action_name conversations_close = "conversations.close"
action_name members_manage = "members.manage"
action_name members_remap = "members.remap"
action_name messages_read = "messages.read"
action_name messages_send = "messages.send"
action_name receipts_write = "receipts.write"
action_name typing_write = "typing.write"
action_name assignments_create = "assignments.create"
action_name assignments_claim = "assignments.claim"
action_name assignments_close = "assignments.close"
action_name contacts_list = "contacts.list"
action_name contacts_read = "contacts.read"
action_name contacts_write = "contacts.write"
action_name uploads_issue = "uploads.issue"
action_name uploads_write = "uploads.write"
action_name uploads_read = "uploads.read"
action_name tokens_mint = "tokens.mint"
action_name realtime_token = "realtime.token"
action_name principal_read = "principal.read"
action_name push_tokens_manage = "push_tokens.manage"
action_name push_config_manage = "push_config.manage"
action_name push_recipients_manage = "push_recipients.manage"
action_name identity_manage = "identity.manage"
action_name brands_read_active = "brands.read_active"
action_name brands_read = "brands.read"
action_name brands_write = "brands.write"
action_name settings_read = "settings.read"
action_name settings_write = "settings.write"
action_name api_keys_manage = "api_keys.manage"
action_name webhooks_manage = "webhooks.manage"
action_name webhooks_read_deliveries = "webhooks.read_deliveries"
action_name team_manage = "team.manage"
action_name translations_fetch = "translations.fetch"
action_name translations_read = "translations.read"
action_name translations_write = "translations.write"
action_name translations_publish = "translations.publish"
action_name translations_manage = "translations.manage"
action_name notes_read = "notes.read"
action_name notes_write = "notes.write"
action_name (undeclared s) = s

-- grant: which principals hold an action.
pub record Grant : Type 0 where
  pub api_key : Bool
  pub user : Bool
  pub admin : Bool
  pub admin_priv : Bool
  pub owner : Bool
  pub signed : Bool
  pub translator : Bool
  pub requester : Bool

abbrev nobody : Grant
nobody = record {
  api_key = false;
  user = false;
  admin = false;
  admin_priv = false;
  owner = false;
  signed = false;
  translator = false;
  requester = false;
}

-- The map `capabilities`; a missing key is an undeclared action.
unfoldable pub capabilities : Action → Option Grant
capabilities conversations_list =
    some (record nobody { api_key = true; user = true; admin = true; requester = true })
capabilities conversations_read =
    some (record nobody { api_key = true; user = true; admin = true; requester = true })
capabilities conversations_create_support =
    some (record nobody { api_key = true; user = true; admin = true; requester = true })
capabilities conversations_create_peer = some (record nobody { api_key = true })
capabilities conversations_close =
    some (record nobody { api_key = true; admin = true; requester = true })
capabilities members_manage = some (record nobody { api_key = true })
capabilities members_remap = some (record nobody { api_key = true })
capabilities messages_read =
    some (record nobody { api_key = true; user = true; admin = true; requester = true })
capabilities messages_send =
    some (record nobody { api_key = true; user = true; admin = true; requester = true })
capabilities receipts_write =
    some (record nobody { api_key = true; user = true; admin = true; requester = true })
capabilities typing_write =
    some (record nobody { api_key = true; user = true; admin = true; requester = true })
capabilities assignments_create = some (record nobody { api_key = true; admin = true })
capabilities assignments_claim = some (record nobody { admin = true })
capabilities assignments_close = some (record nobody { admin = true })
capabilities contacts_list = some (record nobody { admin = true })
capabilities contacts_read = some (record nobody { admin = true })
capabilities contacts_write = some (record nobody { api_key = true; user = true })
capabilities uploads_issue =
    some (record nobody { api_key = true; user = true; admin = true; requester = true })
capabilities uploads_write = some (record nobody { signed = true })
capabilities uploads_read = some (record nobody { signed = true })
capabilities tokens_mint = some (record nobody { api_key = true })
capabilities realtime_token = some (record nobody { admin = true; requester = true })
capabilities principal_read = some (record nobody {
  api_key = true;
  user = true;
  admin = true;
  translator = true;
  requester = true;
})
capabilities push_tokens_manage = some (record nobody { user = true })
capabilities push_config_manage = some (record nobody { owner = true })
capabilities push_recipients_manage = some (record nobody { api_key = true })
capabilities identity_manage = some (record nobody { owner = true })
capabilities brands_read_active =
    some (record nobody { api_key = true; user = true; admin = true; requester = true })
capabilities brands_read = some (record nobody { admin_priv = true })
capabilities brands_write = some (record nobody { admin_priv = true })
capabilities settings_read = some (record nobody { admin_priv = true })
capabilities settings_write = some (record nobody { admin_priv = true })
capabilities api_keys_manage = some (record nobody { admin_priv = true })
capabilities webhooks_manage = some (record nobody { admin_priv = true })
capabilities webhooks_read_deliveries = some (record nobody { admin_priv = true })
capabilities team_manage = some (record nobody { admin_priv = true })
capabilities translations_fetch =
    some (record nobody { api_key = true; user = true; admin = true; requester = true })
capabilities translations_read = some (record nobody { admin = true; translator = true })
capabilities translations_write = some (record nobody { admin_priv = true; translator = true })
capabilities translations_publish = some (record nobody { admin_priv = true; translator = true })
capabilities translations_manage = some (record nobody { admin_priv = true })
capabilities notes_read = some (record nobody { api_key = true; admin = true })
capabilities notes_write = some (record nobody { api_key = true; admin = true })
capabilities (undeclared s) = none

-- The keys of `capabilities`, in the order of the source.
abbrev pub keys : List Action
keys =
    conversations_list ∷ conversations_read ∷ conversations_create_support
    ∷ conversations_create_peer ∷ conversations_close ∷ members_manage ∷ members_remap
    ∷ messages_read ∷ messages_send ∷ receipts_write ∷ typing_write ∷ assignments_create
    ∷ assignments_claim ∷ assignments_close ∷ contacts_list ∷ contacts_read ∷ contacts_write
    ∷ uploads_issue ∷ uploads_write ∷ uploads_read ∷ tokens_mint ∷ realtime_token ∷ principal_read
    ∷ push_tokens_manage ∷ push_config_manage ∷ push_recipients_manage ∷ identity_manage
    ∷ brands_read_active ∷ brands_read ∷ brands_write ∷ settings_read ∷ settings_write
    ∷ api_keys_manage ∷ webhooks_manage ∷ webhooks_read_deliveries ∷ team_manage
    ∷ translations_fetch ∷ translations_read ∷ translations_write ∷ translations_publish
    ∷ translations_manage ∷ notes_read ∷ notes_write ∷ []
