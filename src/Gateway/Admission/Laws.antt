-- ===== src/Gateway/Admission/Laws.antt =====
-- What `Receive` does with a message, on every path.
use go_tiny_claw.Base.{ℕ, true, false, is_blank, contains, text_eq, ok, err, ◌≡◌, ◌≢◌, ◌⊎◌, arith}
use go_tiny_claw.Channel.{InboundMessage, direct, group, validate}
use go_tiny_claw.Access.{can_use}
use go_tiny_claw.Gateway.Conversations.Laws.{enqueue_error_unchanged}
use go_tiny_claw.Gateway.Dedup.{dedup_key, seen_contains, remember}
use go_tiny_claw.Gateway.Admission.{
  Gateway, Surroundings, ReceiveError, Outcome, dropped, accepted, admit, receive,
}

-- A message that is answered with an error, so that its platform sends it again, changes nothing:
-- no queue, no command's effect, and the repetition will not pass for a duplicate.
pub receive_error_unchanged :
    (g : Gateway) (env : Surroundings) (msg : InboundMessage) (e : ReceiveError)
    → (receive g env msg).0 ≡ err e
    → (receive g env msg).1 ≡ g
unfolding receive admit
receive_error_unchanged g env msg e h =
    ground (arith, enqueue_error_unchanged g.conversations (env.callback 2) msg)

-- A message has an effect only if its route is valid, its channel registered, its ID and its text not
-- blank, its chat direct or a group, and its sender may use the account.
pub receive_gate :
    (g : Gateway) (env : Surroundings) (msg : InboundMessage)
    → ((receive g env msg).1 ≡ g)
      ⊎ ((validate msg.route ≡ true)
          × (contains g.channels msg.route.channel ≡ true)
          × (is_blank msg.id ≡ false)
          × (is_blank msg.text ≡ false)
          × ((msg.chat_type ≡ direct) ⊎ (msg.chat_type ≡ group))
          × ((can_use g.authorizer msg).allowed ≡ true))
unfolding receive admit
receive_gate g env msg = ground arith

-- A message in a group that does not mention the bot reaches no conversation.
pub group_needs_mention :
    (g : Gateway) (env : Surroundings) (msg : InboundMessage)
    → msg.chat_type ≡ group
    → msg.mentioned_bot ≡ false
    → (receive g env msg).1.conversations ≡ g.conversations
unfolding receive admit
group_needs_mention g env msg h k = ground arith

pub remembered :
    (g : Gateway) (env : Surroundings) (msg : InboundMessage) (o : Outcome)
    → (receive g env msg).0 ≡ ok o
    → o ≢ dropped
    → (receive g env msg).1.seen ≡ remember g.seen (dedup_key msg) env.now
unfolding receive admit
remembered g env msg o h ne = ground arith

pub duplicate_ignored :
    (g : Gateway) (env : Surroundings) (msg : InboundMessage)
    → seen_contains g.seen (dedup_key msg) env.now ≡ true
    → ((receive g env msg).1 ≡ g) × ((i : ℕ) → (receive g env msg).0 ≢ ok (accepted i))
unfolding receive admit
duplicate_ignored g env msg h = (ground arith, λ i e. ground arith)
