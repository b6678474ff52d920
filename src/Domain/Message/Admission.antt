-- ===== src/Domain/Message/Admission.antt =====
-- Which rows SendMessage of backend/internal/domain/message.go goes on to insert.
use sild.Common.{
  String, List, Bool, true, false, not, ◌&&◌, Option, none, some, ◌≡◌, ◌⊎◌, ◌∙◌, arith, inl, inr,
  Bool-cases, Option-cases,
}
use sild.Domain.Parts.{MessagePart}
use sild.Domain.Message.{
  Visibility, participants, internal, unset, other_visibility, Channel, app, email, no_channel,
  other_channel, refused, bad_parts, Upload, SendInput, Message, Thread,
}
use sild.Domain.Message.Begin.{
  is_none, is_internal, is_closed_peer, visibility_or_default, channel_or_default,
  find_by_client_msg_id, message_of, look_up, begin_in, begin_send, inserts, Parts, read_parts,
  answers, parsed, refused_parts,
}

known_visibility :
    (x v : Visibility) → visibility_or_default x ≡ some v → (v ≡ participants) ⊎ (v ≡ internal)
unfolding visibility_or_default
known_visibility participants v e = inl (ground arith)
known_visibility internal v e = inr (ground arith)
known_visibility unset v e = inl (ground arith)
known_visibility (other_visibility s) v e = absurd (ground arith)

known_channel : (x c : Channel) → channel_or_default x ≡ some c → (c ≡ app) ⊎ (c ≡ email)
unfolding channel_or_default
known_channel app c e = inl (ground arith)
known_channel email c e = inr (ground arith)
known_channel no_channel c e = inl (ground arith)
known_channel (other_channel s) c e = absurd (ground arith)

may_be_internal :
    (v w : Visibility) (may : Bool)
    → (v ≡ participants) ⊎ (v ≡ internal)
    → is_internal v && not may ≡ false
    → w ≡ v
    → (w ≡ participants) ⊎ ((w ≡ internal) × (may ≡ true))
may_be_internal v w may (inl p) ok same = inl (same ∙ p)
may_be_internal v w may (inr i) ok same = inr (same ∙ i, ground arith)

known_channel_of : {d c : Channel} → d ≡ c → (c ≡ app) ⊎ (c ≡ email) → (d ≡ app) ⊎ (d ≡ email)
known_channel_of same (inl e) = inl (same ∙ e)
known_channel_of same (inr e) = inr (same ∙ e)

module _ (th : Thread) (uploads : String → Option Upload) (in_ : SendInput) (id : String) where
  -- What holds of a row that is to be inserted, beside its visibility's permission.
  abbrev Looked : Visibility → Channel → Message → Type 0
  Looked v c m =
      (m.visibility ≡ v)
      × (m.channel ≡ c)
      × (is_closed_peer th.conv ≡ false)
      × (find_by_client_msg_id th.messages in_.client_msg_id ≡ none)

  look_up_row :
      (v : Visibility) (c : Channel) (ps : List MessagePart) (m : Message)
      → look_up th uploads in_ id v c ps ≡ inserts m
      → Looked v c m
  unfolding look_up message_of
  look_up_row v c ps m h = ground arith

  parts_row :
      (v : Visibility) (c : Channel) (r : Parts) (m : Message)
      → elim r [
        | refused_parts e ↦ answers (refused (bad_parts e))
        | parsed ps ↦ look_up th uploads in_ id v c ps
      ]
        ≡ inserts m
      → Looked v c m
  parts_row v c (refused_parts e) m h = absurd (ground arith)
  parts_row v c (parsed ps) m h = look_up_row v c ps m h

  begin_in_row :
      (v : Visibility) (c : Channel) (m : Message)
      → begin_in th uploads in_ id v c ≡ inserts m
      → (is_internal v && not in_.allow_internal ≡ false) × Looked v c m
  unfolding begin_in
  begin_in_row v c m h = elim (Bool-cases (is_internal v && not in_.allow_internal)) [
    | inl e ↦ absurd (ground arith)
    | inr e ↦ (e, parts_row v c (read_parts in_) m (rw (e, begin_in) at h))
  ]

  -- SendMessage goes on to insert a row only for a sender with an identity, with a visibility that is
  -- participants, or internal for a caller who may post notes, with the channel app or email, outside a closed
  -- peer conversation, and where the lookup found no message under the key.
  pub inserts_admitted :
      (m : Message)
      → begin_send th uploads in_ id ≡ inserts m
      → (is_none in_.external && is_none in_.internal_actor ≡ false)
        × ((m.visibility ≡ participants)
            ⊎ ((m.visibility ≡ internal) × (in_.allow_internal ≡ true)))
        × ((m.channel ≡ app) ⊎ (m.channel ≡ email))
        × (is_closed_peer th.conv ≡ false)
        × (find_by_client_msg_id th.messages in_.client_msg_id ≡ none)
  unfolding begin_send
  inserts_admitted m h = elim (Bool-cases (is_none in_.external && is_none in_.internal_actor)) [
    | inl e ↦ absurd (ground arith)
    | inr e ↦ elim (Option-cases (visibility_or_default in_.visibility)) [
      | inl f ↦ absurd (ground arith)
      | inr (v, f) ↦ elim (Option-cases (channel_or_default in_.channel)) [
        | inl g ↦ absurd (ground arith)
        | inr (c, g) ↦
            let (may, (vis, chan, live, fresh)) =
              begin_in_row v c m (rw (begin_send, e, f, g) at h) in
            (
              e,
              may_be_internal v m.visibility in_.allow_internal
                  (known_visibility in_.visibility v f) may vis,
              known_channel_of chan (known_channel in_.channel c g),
              live,
              fresh,
            )
      ]
    ]
  ]
