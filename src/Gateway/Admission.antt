-- ===== src/Gateway/Admission.antt =====
-- internal/gateway/gateway.go: the way of an inbound message, `Receive` and `admit`, as the admission
-- mutex orders them. The proofs are in Laws.
pub mod Laws
pub mod Once
pub mod Examples
use go_tiny_claw.Base.{
  ℕ, Bool, true, false, ◌&&◌, ◌||◌, not, List, [], ◌∷◌, Option, none, some, if◌then◌else◌, Text,
  codes, is_blank, contains, text_eq, Result, ok, err, CtxErr, Ctx,
}
use go_tiny_claw.Channel.{InboundMessage, ChatType, direct, group, validate}
use go_tiny_claw.Access.{Authorizer, can_use}
use go_tiny_claw.Approval.{ApprovalManager}
use go_tiny_claw.Gateway.Conversations.{Manager, EnqueueError, enqueue}
use go_tiny_claw.Gateway.Dedup.{Seen, dedup_key, seen_contains, remember}
use go_tiny_claw.Gateway.Commands.{CommandRouter, handle}

-- `Gateway`; `channels` are the IDs of the registered adapters.
pub record Gateway : Type 0 where
  pub channels : List Text
  pub authorizer : Authorizer
  pub conversations : Manager
  pub sessions : ℕ → Option Text
  pub approvals : Option ApprovalManager
  pub seen : Seen

-- What the surroundings decide during one call: the callback's context at each look, the gateway's
-- at the start of `admit`, the time, and whether the call that waits for a reply has lost its context.
pub record Surroundings : Type 0 where
  pub callback : Ctx
  pub gateway : Option CtxErr
  pub now : ℕ
  pub expired : Bool

pub data ReceiveError : Type 0 where
  context_done : CtxErr → ReceiveError
  invalid_route id_required invalid_chat_type not_registered : ReceiveError
  not_enqueued : EnqueueError → ReceiveError

-- Without an error a message is dropped, consumed as a command, or accepted by a conversation.
pub data Outcome : Type 0 where
  dropped consumed : Outcome
  accepted : ℕ → Outcome

abbrev pub Received : Type 0
Received = Result ReceiveError Outcome × Gateway

router : Gateway → CommandRouter
router g = record {
  approvals = g.approvals;
  conversations = g.conversations;
  sessions = g.sessions;
  authorizer = g.authorizer;
}

abbrev is_group : ChatType → Bool
is_group group = true
is_group t = false

abbrev is_known_chat : ChatType → Bool
is_known_chat direct = true
is_known_chat group = true
is_known_chat t = false

after_enqueue : Gateway → InboundMessage → ℕ → Result EnqueueError ℕ × Manager → Received
after_enqueue g msg now (err e, m) = (err (not_enqueued e), record g { conversations = m })
after_enqueue g msg now (ok i, m) =
    (ok (accepted i), record g { conversations = m; seen = remember g.seen (dedup_key msg) now })

after_command : Gateway → Surroundings → InboundMessage → Bool × Option ApprovalManager → Received
after_command g env msg (true, approvals) = (
  ok consumed,
  record g { approvals = approvals; seen = remember g.seen (dedup_key msg) env.now },
)
after_command g env msg (false, approvals) =
    if is_group msg.chat_type && not msg.mentioned_bot
    then (ok dropped, g)
    else after_enqueue g msg env.now (enqueue g.conversations (env.callback 2) msg)

admit_live : Gateway → Surroundings → InboundMessage → Received
admit_live g env msg =
    if is_blank msg.text
    then (ok dropped, g)
    else if seen_contains g.seen (dedup_key msg) env.now
    then (ok dropped, g)
    else after_command g env msg (handle (router g) msg env.expired)

abbrev unless_done : Option CtxErr → Gateway → Received → Received
unless_done none g r = r
unless_done (some e) g r = (err (context_done e), g)

-- `admit`
unfoldable pub admit : Gateway → Surroundings → InboundMessage → Received
unfolding admit_live after_command after_enqueue router
admit g env msg = unless_done env.gateway g (unless_done (env.callback 1) g (admit_live g env msg))

receive_live : Gateway → Surroundings → InboundMessage → Received
receive_live g env msg =
    if not (validate msg.route)
    then (err invalid_route, g)
    else if is_blank msg.id
    then (err id_required, g)
    else if not (is_known_chat msg.chat_type)
    then (err invalid_chat_type, g)
    else if not (contains g.channels msg.route.channel)
    then (err not_registered, g)
    else if not (can_use g.authorizer msg).allowed
    then (ok dropped, g)
    else admit g env msg

-- `Receive`, up to the notice of acceptance, which is delivered outside the lock.
unfoldable pub receive : Gateway → Surroundings → InboundMessage → Received
unfolding receive_live
receive g env msg = unless_done (env.callback 0) g (receive_live g env msg)
