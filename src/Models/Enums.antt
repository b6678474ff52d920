-- ===== src/Models/Enums.antt =====
-- backend/internal/store/models/enums.go
use sild.Common.{String, Bool, true, false, str_eq}

pub data PlatformRole : Type 0 where
  owner admin agent translator requester : PlatformRole
  unknown : String → PlatformRole

-- PlatformRole.Valid
unfoldable pub valid_role : PlatformRole → Bool
valid_role owner = true
valid_role admin = true
valid_role agent = true
valid_role translator = true
valid_role requester = true
valid_role (unknown s) = false

pub data ConversationKind : Type 0 where
  support peer : ConversationKind
  other_kind : String → ConversationKind

-- The zero value of Go's string type.
abbrev pub unset_kind : ConversationKind
unset_kind = other_kind ""

-- The comparisons with models.KindPeer and models.KindSupport.
abbrev pub is_peer : ConversationKind → Bool
is_peer peer = true
is_peer support = false
is_peer (other_kind s) = false

abbrev pub is_support : ConversationKind → Bool
is_support peer = false
is_support support = true
is_support (other_kind s) = false

-- Equality of two kinds.
unfoldable pub same_kind : ConversationKind → ConversationKind → Bool
same_kind support support = true
same_kind peer peer = true
same_kind (other_kind s) (other_kind t) = str_eq s t
same_kind _ _ = false
