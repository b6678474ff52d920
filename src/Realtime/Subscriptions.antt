-- ===== src/Realtime/Subscriptions.antt =====
-- What open sockets follow after a role write: reconcileSubscriptions of
-- backend/internal/domain/admin.go, for the sockets of one member, whose subscriptions are a set.
use sild.Common.{
  List, [], ◌∷◌, true, not, ◌&&◌, ◌||◌, str_eq_iff, any, keep, ◌≡◌, refl, ap, ap₂, ◌∙◌, arith,
  if◌then◌else◌,
}
use sild.Principal.{Principal}
use sild.Realtime.{
  Channel, user_channel, conv_channel, agents_channel, peer_channel, queue_channel, same_channel,
  has_channel, ChannelInputs, agent_channels, load_channel_inputs, operator_channels,
}

-- The loop that subscribes to what is new.
unfoldable pub subscribe_new : List Channel → List Channel → List Channel → List Channel
subscribe_new was [] subs = subs
subscribe_new was (ch ∷ now) subs =
    let rest = subscribe_new was now subs in if has_channel was ch then rest else ch ∷ rest

-- The loop that unsubscribes from what is gone.
unfoldable pub unsubscribe_old : List Channel → List Channel → List Channel → List Channel
unsubscribe_old now [] subs = subs
unsubscribe_old now (ch ∷ was) subs =
    let rest = unsubscribe_old now was subs in
    if has_channel now ch then rest else keep (λ c. not (same_channel c ch)) rest

-- reconcileSubscriptions, where the member's sockets follow subs
unfoldable pub reconcile_subscriptions :
    ChannelInputs → Principal → Principal → List Channel → List Channel
reconcile_subscriptions stored before after subs =
    let in_ = load_channel_inputs stored (before ∷ after ∷ []) in
    let was = agent_channels before in_ in
    let now = agent_channels after in_ in unsubscribe_old now was (subscribe_new was now subs)

same_channel_eq : (c ch : Channel) → same_channel c ch ≡ true → c ≡ ch
unfolding same_channel
same_channel_eq (user_channel u) (user_channel v) h = ap user_channel ((str_eq_iff u v).0 h)
same_channel_eq (conv_channel u) (conv_channel v) h = ap conv_channel ((str_eq_iff u v).0 h)
same_channel_eq (agents_channel u) (agents_channel v) h = ap agents_channel ((str_eq_iff u v).0 h)
same_channel_eq (peer_channel u) (peer_channel v) h = ap peer_channel ((str_eq_iff u v).0 h)
same_channel_eq (queue_channel t u) (queue_channel s v) h =
    ap₂ queue_channel ((str_eq_iff t s).0 (ground arith)) ((str_eq_iff u v).0 (ground arith))
same_channel_eq c ch h = absurd (ground arith)

same_has :
    (chans : List Channel) (c ch : Channel)
    → same_channel c ch ≡ true
    → has_channel chans c ≡ has_channel chans ch
same_has chans c ch h = ap (has_channel chans) (same_channel_eq c ch h)

same_left : (x c ch : Channel) → same_channel x c ≡ true → same_channel x ch ≡ same_channel c ch
same_left x c ch h = ap (λ y. same_channel y ch) (same_channel_eq x c h)

same_right :
    (x c ch : Channel)
    → same_channel x ch ≡ true
    → same_channel c ch ≡ true
    → same_channel x c ≡ true
same_right x c ch h k = ap (same_channel x) (same_channel_eq c ch k) ∙ h

has-subscribe_new :
    (was now subs : List Channel) (ch : Channel)
    → has_channel (subscribe_new was now subs) ch
      ≡ ((has_channel now ch && not (has_channel was ch)) || has_channel subs ch)
unfolding subscribe_new any
has-subscribe_new was [] subs ch = refl
has-subscribe_new was (c ∷ now) subs ch =
    ground (arith, has-subscribe_new was now subs ch, same_has was c ch)

has-kept :
    (subs : List Channel) (c ch : Channel)
    → has_channel (keep (λ x. not (same_channel x c)) subs) ch
      ≡ (has_channel subs ch && not (same_channel c ch))
unfolding any keep
has-kept [] c ch = refl
has-kept (x ∷ subs) c ch = ground (arith, has-kept subs c ch, same_left x c ch, same_right x c ch)

has-unsubscribe_old :
    (now was subs : List Channel) (ch : Channel)
    → has_channel (unsubscribe_old now was subs) ch
      ≡ (has_channel subs ch && not (has_channel was ch && not (has_channel now ch)))
unfolding unsubscribe_old any
has-unsubscribe_old now [] subs ch = ground arith
has-unsubscribe_old now (c ∷ was) subs ch = ground (
  arith,
  has-unsubscribe_old now was subs ch,
  has-kept (unsubscribe_old now was subs) c ch,
  same_has now c ch,
)

-- The inputs that are loaded are those that the channels of each principal read.
loaded_first :
    (stored : ChannelInputs) (p q : Principal)
    → agent_channels p (load_channel_inputs stored (p ∷ q ∷ [])) ≡ agent_channels p stored
unfolding agent_channels load_channel_inputs operator_channels any
loaded_first stored p q = ground arith

loaded_second :
    (stored : ChannelInputs) (p q : Principal)
    → agent_channels q (load_channel_inputs stored (p ∷ q ∷ [])) ≡ agent_channels q stored
unfolding agent_channels load_channel_inputs operator_channels any
loaded_second stored p q = ground arith

-- The sockets follow what a principal's channels are.
abbrev pub IsFollowing : ChannelInputs → Principal → List Channel → Type 0
IsFollowing stored p subs =
    (ch : Channel) → has_channel subs ch ≡ has_channel (agent_channels p stored) ch

-- Sockets that followed what the member held before follow what it holds after.
pub reconciled-IsFollowing :
    (stored : ChannelInputs) (before after : Principal) (subs : List Channel)
    → IsFollowing stored before subs
    → IsFollowing stored after (reconcile_subscriptions stored before after subs)
unfolding reconcile_subscriptions
reconciled-IsFollowing stored before after subs follows ch =
    let in_ = load_channel_inputs stored (before ∷ after ∷ []) in
    let was = agent_channels before in_ in
    let now = agent_channels after in_ in
    has-unsubscribe_old now was (subscribe_new was now subs) ch
    ∙ (settled ∙ ap (λ chans. has_channel chans ch) (loaded_second stored before after))
  where
    settled :
        (has_channel
            (subscribe_new
              (agent_channels before (load_channel_inputs stored (before ∷ after ∷ [])))
              (agent_channels after (load_channel_inputs stored (before ∷ after ∷ [])))
              subs)
            ch
          && not (
              has_channel
                (agent_channels before (load_channel_inputs stored (before ∷ after ∷ [])))
                ch
              && not (
                  has_channel
                    (agent_channels after (load_channel_inputs stored (before ∷ after ∷ [])))
                    ch)))
        ≡ has_channel (agent_channels after (load_channel_inputs stored (before ∷ after ∷ []))) ch
    settled =
        let in_ = load_channel_inputs stored (before ∷ after ∷ []) in
        ground (
          arith,
          has-subscribe_new (agent_channels before in_) (agent_channels after in_) subs ch,
          follows ch,
          ap (λ chans. has_channel chans ch) (loaded_first stored before after),
        )
