-- ===== src/Gateway/Conversations/Admissions.antt =====
-- internal/gateway/manager.go: the invariant of the conversation manager under admissions, and under
-- all events.
use go_tiny_claw.Base.{
  ℕ, suc, ◌<◌, true, false, List, [], ◌∷◌, ◌++◌, Option, none, some, ◌==◌, ◌≡◌, refl, ◌⊎◌, inl, inr,
  arith, lookup, insert, ==_iff, CtxErr, Text, length, Option-cases, text_eq, ok, err, Bool-cases,
  ltb, ltb→lt,
}
use go_tiny_claw.Channel.{InboundMessage, build_session_key}
use go_tiny_claw.Gateway.Conversations.{
  Conversation, Manager, EnqueueError, conversation_queue_size, find_or_create, admit_to, enqueue,
  new_conversation, put_object, set_object, seq_next, queue_full, context_error,
  conversation_closing,
}
use go_tiny_claw.Gateway.Conversations.Events.{
  World, Event, admit, receive, notice_stop, begin_teardown, finish_teardown, timer_fired, stop,
  step, run_conversations, after_admit,
}
use go_tiny_claw.Gateway.Conversations.Invariant.{
  Inv, start-Inv, created, created-Inv, admitted_to, admitted_to-Inv,
}
use go_tiny_claw.Gateway.Conversations.Steps.{on_object-Inv}

==_refl : (n : ℕ) → (n == n) ≡ true
==_refl n = (==_iff n n).1 refl

refused :
    (w : World) (msg : InboundMessage) (e : EnqueueError) → after_admit w msg (err e, w.manager) ≡ w
unfolding after_admit
refused w msg e = rw (==_refl w.manager.next)

queued :
    (w : World) (v : Inv w) (i : ℕ) (c : Conversation) (msg : InboundMessage) (seq : ℕ)
    → after_admit w msg (
      ok i,
      set_object w.manager i (record c { queue = c.queue ++ msg ∷ []; activity_seq = seq }),
    )
      ≡ admitted_to w v i c msg seq
unfolding after_admit admitted_to
queued w v i c msg seq = rw (==_refl w.manager.next)

-- Admission to a conversation refuses and changes nothing, or queues the message.
pub admit_to-cases :
    (m : Manager) (i : ℕ) (c : Conversation) (msg : InboundMessage)
    → ((e : EnqueueError) × (admit_to m i (some c) msg ≡ (err e, m)))
      ⊎ ((c.closing ≡ false)
          × (length c.queue < conversation_queue_size)
          × (admit_to m i (some c) msg ≡ (
            ok i,
            set_object m i
                (record c { queue = c.queue ++ msg ∷ []; activity_seq = seq_next c.activity_seq }),
          )))
unfolding admit_to
admit_to-cases m i c msg = elim (Bool-cases c.closing) [
  | inl e ↦ inl (conversation_closing, ground arith)
  | inr e ↦ elim (Bool-cases (ltb (length c.queue) conversation_queue_size)) [
    | inl f ↦ inr (e, ltb→lt _ _ f, ground arith)
    | inr f ↦ inl (queue_full, ground arith)
  ]
]

-- Admission to a conversation that the map already had.
admit_to-Inv :
    (w : World)
    → Inv w
    → (i : ℕ) (c : Conversation) (msg : InboundMessage) → w.manager.objects i ≡ some c
    → Inv (after_admit w msg (admit_to w.manager i (some c) msg))
admit_to-Inv w v i c msg here = elim (admit_to-cases w.manager i c msg) [
  | inl (e, f) ↦ rw f (rw (refused w msg e) v)
  | inr (open_now, room, f) ↦
      let seq = seq_next c.activity_seq in
      rw f (rw (queued w v i c msg seq) (admitted_to-Inv w v i c msg seq here open_now room))
]

-- Admission to a conversation that was made for the message.
admit_new-Inv :
    (w : World)
    → (v : Inv w) → (msg : InboundMessage)
    → lookup w.manager.conversations (build_session_key msg.route) ≡ none
    → Inv (
        after_admit w msg (
          admit_to
            (created w v msg).manager
            w.manager.next
            (some (new_conversation msg.route))
            msg))
unfolding created after_admit admit_to admitted_to
admit_new-Inv w v msg free =
    let c = new_conversation msg.route in
    let next_ne : (suc w.manager.next == w.manager.next) ≡ false = ground arith in
    let here : (w.manager.next == w.manager.next) ≡ true = ==_refl w.manager.next in
    rw next_ne (
      admitted_to-Inv (created w v msg) (created-Inv w v msg free) w.manager.next c msg 1 (rw here)
        refl (omega arith))

mapped_object :
    (w : World)
    → Inv w
    → (k : Text) (i : ℕ) → lookup w.manager.conversations k ≡ some i
    → (c : Conversation) × (w.manager.objects i ≡ some c) × (c.key ≡ k)
mapped_object w v k i e = elim (Option-cases (w.manager.objects i)) [
  | inl f ↦ ground (arith, v.mapped_live k i)
  | inr (c, f) ↦ (c, f, ground (arith, v.mapped_live k i))
]

found-Inv :
    (w : World)
    → Inv w
    → (msg : InboundMessage) (i : ℕ)
    → lookup w.manager.conversations (build_session_key msg.route) ≡ some i
    → Inv (after_admit w msg (admit_to w.manager i (w.manager.objects i) msg))
found-Inv w v msg i e =
    let (c, f, same) = mapped_object w v (build_session_key msg.route) i e in
    rw f (admit_to-Inv w v i c msg f)

-- What `enqueue` comes to: a context error, or an admission to the found or the new conversation.
pub enqueue-cases :
    (m : Manager) (ctx_err : Option CtxErr) (msg : InboundMessage)
    → ((e : EnqueueError) × (enqueue m ctx_err msg ≡ (err e, m)))
      ⊎ ((i : ℕ) × (lookup m.conversations (build_session_key msg.route) ≡ some i)
          × (enqueue m ctx_err msg ≡ admit_to m i (m.objects i) msg))
      ⊎ ((lookup m.conversations (build_session_key msg.route) ≡ none)
          × (enqueue m ctx_err msg
              ≡ admit_to
                  (record {
                    stopped = m.stopped;
                    conversations = insert m.conversations (build_session_key msg.route) m.next;
                    objects = put_object m.objects m.next (new_conversation msg.route);
                    next = suc m.next;
                  })
                  m.next
                  (some (new_conversation msg.route))
                  msg))
unfolding enqueue find_or_create
enqueue-cases m (some e) msg = elim (Option-cases m.stopped) [
  | inl f ↦ inl (context_error e, ground arith)
  | inr (x, f) ↦ inl (context_error x, ground arith)
]
enqueue-cases m none msg = elim (Option-cases m.stopped) [
  | inl f ↦ elim (Option-cases (lookup m.conversations (build_session_key msg.route))) [
    | inl g ↦ inr (inr (g, ground (arith, ==_refl m.next)))
    | inr (i, g) ↦ inr (inl (i, g, ground arith))
  ]
  | inr (x, f) ↦ inl (context_error x, ground arith)
]

admit-Inv :
    (w : World) (ctx_err : Option CtxErr) (msg : InboundMessage)
    → Inv w
    → Inv (after_admit w msg (enqueue w.manager ctx_err msg))
unfolding created
admit-Inv w ctx_err msg v = elim (enqueue-cases w.manager ctx_err msg) [
  | inl (e, f) ↦ rw f (rw (refused w msg e) v)
  | inr (inl (i, g, f)) ↦ rw f (found-Inv w v msg i g)
  | inr (inr (g, f)) ↦ rw f (admit_new-Inv w v msg g)
]

step-Inv : (w : World) (e : Event) → Inv w → Inv (step w e)
unfolding step
step-Inv w (admit ctx_err msg) v = admit-Inv w ctx_err msg v
step-Inv w (stop e) v = record {
  bounded = v.bounded;
  fifo = v.fifo;
  started = v.started;
  live_mapped = v.live_mapped;
  mapped_live = v.mapped_live;
  looping_open = v.looping_open;
  evicted_empty = v.evicted_empty;
  fresh = v.fresh;
}
step-Inv w (receive i) v = on_object-Inv w v i (receive i)
step-Inv w (notice_stop i) v = on_object-Inv w v i (notice_stop i)
step-Inv w (begin_teardown i) v = on_object-Inv w v i (begin_teardown i)
step-Inv w (finish_teardown i) v = on_object-Inv w v i (finish_teardown i)
step-Inv w (timer_fired i seq) v = on_object-Inv w v i (timer_fired i seq)

-- Under every interleaving of admissions, workers, timers and the shutdown: queues stay within their
-- size; what a conversation has handed to its worker and what is queued are its admissions in order;
-- a session key leads to its one conversation whose worker has not ended; a looping worker's
-- conversation is open; an evicted one is closing with an empty queue.
pub run_conversations-Inv : (es : List Event) → Inv (run_conversations es)
unfolding run_conversations
run_conversations-Inv [] = start-Inv
run_conversations-Inv (e ∷ es) = step-Inv (run_conversations es) e (run_conversations-Inv es)
