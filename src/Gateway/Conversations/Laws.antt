-- ===== src/Gateway/Conversations/Laws.antt =====
-- What the conversation manager promises to its callers, under every interleaving.
use go_tiny_claw.Base.{
  ℕ, ◌<◌, true, false, List, [], ◌∷◌, ◌++◌, Option, none, some, ◌≡◌, refl, arith, lookup,
  append-nil, length, ok, err, text_eq, ◌≤◌, inl, inr, CtxErr, is_ok,
}
use go_tiny_claw.Channel.{InboundMessage, build_session_key}
use go_tiny_claw.Gateway.Conversations.{
  Conversation, Manager, new_conversation, conversation_queue_size, enqueue, find_or_create,
  admit_to, conversation_closing, queue_full, set_object, seq_next,
}
use go_tiny_claw.Gateway.Conversations.Events.{ended, Event, run_conversations}
use go_tiny_claw.Gateway.Conversations.Invariant.{is_ended}
use go_tiny_claw.Gateway.Conversations.Admissions.{run_conversations-Inv, enqueue-cases}

-- Two conversations of the same session key whose workers have not ended are the same one: a session
-- has one worker, and so one writer, also while it is being closed.
pub one_worker_per_key :
    (es : List Event) (i j : ℕ) (c d : Conversation)
    → (run_conversations es).manager.objects i ≡ some c
    → (run_conversations es).manager.objects j ≡ some d
    → is_ended ((run_conversations es).phase i) ≡ false
    → is_ended ((run_conversations es).phase j) ≡ false
    → c.key ≡ d.key
    → i ≡ j
one_worker_per_key es i j c d hi hj p q e =
    ground (
      arith,
      (run_conversations-Inv es).live_mapped i c,
      (run_conversations-Inv es).live_mapped j d,
    )

-- An idle eviction loses no message: when it has ended, every message that the conversation ever
-- admitted has been handed to its worker, in the order of admission.
pub eviction_loses_nothing :
    (es : List Event) (i : ℕ) (c : Conversation)
    → (run_conversations es).manager.objects i ≡ some c
    → (run_conversations es).phase i ≡ ended true
    → (run_conversations es).admitted i ≡ (run_conversations es).taken i
eviction_loses_nothing es i c h p = ground (
  arith,
  (run_conversations-Inv es).fifo i c,
  (run_conversations-Inv es).evicted_empty i c,
  append-nil ((run_conversations es).taken i),
)

-- While the gateway runs, a message of a session that has a conversation is refused and changes
-- nothing if that conversation is closing, or has a full queue; otherwise it is put last in
-- that conversation's queue, the sequence number moves on, and nothing else changes.
pub enqueue_found :
    (m : Manager) (msg : InboundMessage) (i : ℕ) (c : Conversation)
    → m.stopped ≡ none
    → lookup m.conversations (build_session_key msg.route) ≡ some i
    → m.objects i ≡ some c
    → (c.closing ≡ true → enqueue m none msg ≡ (err conversation_closing, m))
      × (c.closing ≡ false
          → conversation_queue_size ≤ length c.queue
          → enqueue m none msg ≡ (err queue_full, m))
      × (c.closing ≡ false
          → length c.queue < conversation_queue_size
          → enqueue m none msg ≡ (
            ok i,
            set_object m i
                (record c { queue = c.queue ++ msg ∷ []; activity_seq = seq_next c.activity_seq }),
          ))
unfolding enqueue find_or_create admit_to
enqueue_found m msg i c running found here =
    (λ e. ground arith, λ e f. ground arith, λ e f. ground arith)

admit_error_unchanged :
    (m : Manager) (i : ℕ) (o : Option Conversation) (msg : InboundMessage)
    → is_ok (admit_to m i o msg).0 ≡ false
    → (admit_to m i o msg).1 ≡ m
unfolding admit_to
admit_error_unchanged m i none msg h = refl
admit_error_unchanged m i (some c) msg h = ground arith

-- A new conversation takes its first message.
new_not_refused :
    (m : Manager) (i : ℕ) (msg : InboundMessage)
    → is_ok (admit_to m i (some (new_conversation msg.route)) msg).0 ≡ true
unfolding admit_to
new_not_refused m i msg = refl

-- A message that is refused leaves every conversation, queue and worker as it was.
pub enqueue_error_unchanged :
    (m : Manager) (c : Option CtxErr) (msg : InboundMessage)
    → is_ok (enqueue m c msg).0 ≡ false
    → (enqueue m c msg).1 ≡ m
enqueue_error_unchanged m c msg h = elim (enqueue-cases m c msg) [
  | inl (x, f) ↦ rw f
  | inr (inl (i, g, f)) ↦ rw f (admit_error_unchanged m i (m.objects i) msg (rw f at h))
  | inr (inr (g, f)) ↦ cc (rw f at h, new_not_refused _ _ msg)
]
