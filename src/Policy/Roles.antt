-- ===== src/Policy/Roles.antt =====
-- The role catalogue of backend/internal/policy/roles.go.
pub mod Document
pub mod Validated
pub mod Written
use sild.Common.{
  String, List, [], ◌∷◌, ◌++◌, Bool, true, false, not, Option, none, some, str_eq, any, is_empty,
  if◌then◌else◌,
}
use sild.Models.Enums.{PlatformRole, owner, admin, agent, translator, requester}
use sild.Models.Rbac.{RoleScope, no_scope}
use sild.Principal.{same_role}

pub data DimensionKind : Type 0 where
  set toggle : DimensionKind

pub record Dimension : Type 0 where
  pub key : String
  pub kind : DimensionKind
  pub label : String
  pub help : String
  pub source : String

pub record RoleDef : Type 0 where
  pub role : PlatformRole
  pub label : String
  pub description : String
  pub dimensions : List Dimension

abbrev pub dim_peer : String
dim_peer = "peer"

abbrev pub dim_queues : String
dim_queues = "queues"

abbrev pub dim_projects : String
dim_projects = "projects"

abbrev pub dim_locales : String
dim_locales = "locales"

abbrev pub dim_publish : String
dim_publish = "publish"

abbrev agent_dimensions : List Dimension
agent_dimensions =
    record {
      key = dim_peer;
      kind = toggle;
      label = "Peer conversations";
      help = "Direct chats between parties with no assigned agent.";
      source = "";
    }
    ∷ record {
      key = dim_queues;
      kind = set;
      label = "Queues";
      help = "Queues this assignment works. Without one, the support queue only.";
      source = "queues";
    }
    ∷ []

abbrev translator_dimensions : List Dimension
translator_dimensions =
    record {
      key = dim_projects;
      kind = set;
      label = "Projects";
      help = "Translation projects this assignment may write.";
      source = "translation_projects";
    }
    ∷ record {
      key = dim_locales;
      kind = set;
      label = "Languages";
      help = "Languages this assignment may write.";
      source = "translation_locales";
    }
    ∷ record {
      key = dim_publish;
      kind = toggle;
      label = "Publish";
      help = "Cut a release, rather than leaving edits as drafts.";
      source = "";
    }
    ∷ []

abbrev requester_dimensions : List Dimension
requester_dimensions =
    record {
      key = dim_queues;
      kind = set;
      label = "Queues";
      help = "Queues this person may open their own conversations in.";
      source = "queues";
    }
    ∷ []

-- roleDefs
abbrev pub role_defs : List RoleDef
role_defs =
    record {
      role = owner;
      label = "owner";
      description = "Full control of the tenant, including team, billing and deletion.";
      dimensions = [];
    }
    ∷ record {
      role = admin;
      label = "admin";
      description = "Manages settings, keys, webhooks and members.";
      dimensions = [];
    }
    ∷ record {
      role = agent;
      label = "agent";
      description = "Works the assignment queue.";
      dimensions = agent_dimensions;
    }
    ∷ record {
      role = translator;
      label = "translator";
      description = "Edits strings only. Reaches no conversation, contact or message.";
      dimensions = translator_dimensions;
    }
    ∷ record {
      role = requester;
      label = "requester";
      description = "Opens conversations for themselves in its queues and sees only those.";
      dimensions = requester_dimensions;
    }
    ∷ []

unfoldable pub find_role : PlatformRole → List RoleDef → Option RoleDef
find_role r [] = none
find_role r (d ∷ ds) = let rest = find_role r ds in if same_role d.role r then some d else rest

-- RoleDefinition
unfoldable pub role_definition : PlatformRole → Option RoleDef
role_definition r = find_role r role_defs

-- RoleDef.defines
unfoldable pub defines : RoleDef → String → Bool
defines d key = any (λ (dim : Dimension). str_eq dim.key key) d.dimensions
