-- ===== src/Gateway/Conversations/Invariant.antt =====
-- What holds between two locked operations of the conversation manager, under every interleaving.
use go_tiny_claw.Base.{
  ℕ, suc, ◌≤◌, ◌<◌, Bool, true, false, [], ◌∷◌, ◌++◌, Option, none, some, ◌≡◌, ◌≢◌, refl, arith,
  lookup, insert, lookup-insert, ≟_iff, Text, length, length-append, append_assoc, text_eq,
}
use go_tiny_claw.Channel.{InboundMessage, build_session_key}
use go_tiny_claw.Gateway.Conversations.{
  Conversation, conversation_queue_size, new_conversation, put_object, set_object,
}
use go_tiny_claw.Gateway.Conversations.Events.{
  Phase, absent, looping, leaving, closing_session, ended, World, start, put,
}

abbrev pub is_ended : Phase → Bool
is_ended (ended b) = true
is_ended p = false

abbrev pub is_evicted : Phase → Bool
is_evicted (leaving b) = b
is_evicted (closing_session b) = b
is_evicted (ended b) = b
is_evicted p = false

abbrev pub key_at : Option Conversation → Option Text
key_at none = none
key_at (some c) = some c.key

pub record Inv (w : World) : Type 0 where
  pub bounded :
      (i : ℕ) (c : Conversation)
      → w.manager.objects i ≡ some c
      → length c.queue ≤ conversation_queue_size
  pub fifo :
      (i : ℕ) (c : Conversation)
      → w.manager.objects i ≡ some c
      → w.admitted i ≡ w.taken i ++ c.queue
  pub started : (i : ℕ) (c : Conversation) → w.manager.objects i ≡ some c → w.phase i ≢ absent
  pub live_mapped :
      (i : ℕ) (c : Conversation)
      → w.manager.objects i ≡ some c
      → is_ended (w.phase i) ≡ false
      → lookup w.manager.conversations c.key ≡ some i
  pub mapped_live :
      (k : Text) (i : ℕ)
      → lookup w.manager.conversations k ≡ some i
      → (is_ended (w.phase i) ≡ false) × (key_at (w.manager.objects i) ≡ some k)
  pub looping_open :
      (i : ℕ) (c : Conversation)
      → w.manager.objects i ≡ some c
      → w.phase i ≡ looping
      → c.closing ≡ false
  pub evicted_empty :
      (i : ℕ) (c : Conversation)
      → w.manager.objects i ≡ some c
      → is_evicted (w.phase i) ≡ true
      → (c.closing ≡ true) × (c.queue ≡ [])
  pub fresh :
      (i : ℕ)
      → w.manager.next ≤ i
      → (w.manager.objects i ≡ none) × (w.admitted i ≡ []) × (w.taken i ≡ [])

pub start-Inv : Inv start
unfolding start lookup
start-Inv = record {
  bounded = λ i c e. ground arith;
  fifo = λ i c e. ground arith;
  started = λ i c e. ground arith;
  live_mapped = λ i c e f. ground arith;
  mapped_live = λ k i e. ground arith;
  looping_open = λ i c e f. ground arith;
  evicted_empty = λ i c e f. ground arith;
  fresh = λ i h. (refl, refl, refl);
}

module _ (w : World) (v : Inv w) where
  -- The world with the conversation that `enqueue` makes for a route without one.
  unfoldable pub created : InboundMessage → World
  created msg =
      let n = w.manager.next in
      let key = build_session_key msg.route in
      record w {
        manager = record {
          stopped = w.manager.stopped;
          conversations = insert w.manager.conversations key n;
          objects = put_object w.manager.objects n (new_conversation msg.route);
          next = suc n;
        };
        phase = put w.phase n looping;
      }

  pub created-Inv :
      (msg : InboundMessage)
      → lookup w.manager.conversations (build_session_key msg.route) ≡ none
      → Inv (created msg)
  unfolding created
  created-Inv msg free =
      let n = w.manager.next in
      let key = build_session_key msg.route in
      let m = w.manager.conversations in
      record {
        bounded = λ i c e. ground (arith, v.bounded i c);
        fifo = λ i c e. ground (arith, v.fifo i c, v.fresh n);
        started = λ i c e. ground (arith, v.started i c);
        live_mapped = λ i c e f.
            ground (arith, v.live_mapped i c, lookup-insert m key c.key n, ≟_iff key c.key);
        mapped_live = λ k i e.
            ground (
              arith,
              v.mapped_live k i,
              lookup-insert m key k n,
              ≟_iff key k,
              v.fresh i,
              v.fresh n,
            );
        looping_open = λ i c e f. ground (arith, v.looping_open i c);
        evicted_empty = λ i c e f. ground (arith, v.evicted_empty i c);
        fresh = λ i h. ground (arith, v.fresh i);
      }

  -- The world with a message put into an open conversation's queue.
  unfoldable pub admitted_to : ℕ → Conversation → InboundMessage → ℕ → World
  admitted_to i c msg seq = record w {
    manager = set_object w.manager i (record c { queue = c.queue ++ msg ∷ []; activity_seq = seq });
    admitted = put w.admitted i (w.admitted i ++ msg ∷ []);
  }

  pub admitted_to-Inv :
      (i : ℕ) (c : Conversation) (msg : InboundMessage) (seq : ℕ)
      → w.manager.objects i ≡ some c
      → c.closing ≡ false
      → length c.queue < conversation_queue_size
      → Inv (admitted_to i c msg seq)
  unfolding admitted_to
  admitted_to-Inv i c msg seq here open_now room = record {
    bounded = λ j d e. ground (arith, v.bounded j d, length-append c.queue (msg ∷ []));
    fifo = λ j d e.
        ground (arith, v.fifo j d, v.fifo i c, append_assoc (w.taken i) c.queue (msg ∷ []));
    started = λ j d e. ground (arith, v.started j d, v.started i c);
    live_mapped = λ j d e f. ground (arith, v.live_mapped j d, v.live_mapped i c);
    mapped_live = λ k j e. ground (arith, v.mapped_live k j);
    looping_open = λ j d e f. ground (arith, v.looping_open j d);
    evicted_empty = λ j d e f. ground (arith, v.evicted_empty j d, v.evicted_empty i c);
    fresh = λ j h. ground (arith, v.fresh j);
  }
