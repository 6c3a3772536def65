-- ===== src/Gateway/Conversations/Steps.antt =====
-- internal/gateway/lifecycle.go: the invariant of the conversation manager under the steps of a worker.
use go_tiny_claw.Base.{
  ℕ, Bool, false, List, [], ◌∷◌, Option, none, some, ◌≡◌, refl, inl, inr, arith, lookup-delete,
  ≟_iff, append_assoc, text_eq, Bool-cases, is_some,
}
use go_tiny_claw.Channel.{InboundMessage}
use go_tiny_claw.Gateway.Conversations.{Conversation, begin_eviction, begin_close, finish_eviction}
use go_tiny_claw.Gateway.Conversations.Events.{
  Phase, looping, leaving, closing_session, ended, World, Event, receive, notice_stop,
  begin_teardown, finish_teardown, timer_fired, receive_from, after_timer, worker_step, on_object,
  put,
}
use go_tiny_claw.Gateway.Conversations.Invariant.{Inv}

module _ (w : World) (v : Inv w) (i : ℕ) (c : Conversation)
    (here : w.manager.objects i ≡ some c) where
  receive-Inv :
      (msg : InboundMessage) (rest : List InboundMessage)
      → w.phase i ≡ looping
      → c.queue ≡ msg ∷ rest
      → Inv (receive_from w i c (msg ∷ rest))
  unfolding receive_from
  receive-Inv msg rest p q = record {
    bounded = λ j d e. ground (arith, v.bounded j d, v.bounded i c);
    fifo =
        λ j d e. ground (arith, v.fifo j d, v.fifo i c, append_assoc (w.taken i) (msg ∷ []) rest);
    started = λ j d e. ground (arith, v.started j d, v.started i c);
    live_mapped = λ j d e f. ground (arith, v.live_mapped j d, v.live_mapped i c);
    mapped_live = λ k j e. ground (arith, v.mapped_live k j);
    looping_open = λ j d e f. ground (arith, v.looping_open j d, v.looping_open i c);
    evicted_empty = λ j d e f. ground (arith, v.evicted_empty j d, v.evicted_empty i c);
    fresh = λ j h. ground (arith, v.fresh j);
  }

  timer-Inv :
      (seq : ℕ) → w.phase i ≡ looping → Inv (after_timer w i (begin_eviction w.manager i c seq))
  unfolding after_timer begin_eviction
  timer-Inv seq p = record {
    bounded = λ j d e. ground (arith, v.bounded j d, v.bounded i c);
    fifo = λ j d e. ground (arith, v.fifo j d, v.fifo i c);
    started = λ j d e. ground (arith, v.started j d, v.started i c);
    live_mapped = λ j d e f. ground (arith, v.live_mapped j d, v.live_mapped i c);
    mapped_live = λ k j e. ground (arith, v.mapped_live k j);
    looping_open = λ j d e f. ground (arith, v.looping_open j d);
    evicted_empty = λ j d e f. ground (arith, v.evicted_empty j d);
    fresh = λ j h. ground (arith, v.fresh j);
  }

  notice-Inv : w.phase i ≡ looping → Inv (record w { phase = put w.phase i (leaving false) })
  notice-Inv p = record {
    bounded = v.bounded;
    fifo = v.fifo;
    started = λ j d e. ground (arith, v.started j d);
    live_mapped = λ j d e f. ground (arith, v.live_mapped j d);
    mapped_live = λ k j e. ground (arith, v.mapped_live k j);
    looping_open = λ j d e f. ground (arith, v.looping_open j d);
    evicted_empty = λ j d e f. ground (arith, v.evicted_empty j d);
    fresh = v.fresh;
  }

  close-Inv :
      (b : Bool)
      → w.phase i ≡ leaving b
      → Inv (record w {
        manager = begin_close w.manager i c;
        phase = put w.phase i (closing_session b);
      })
  unfolding begin_close
  close-Inv b p = record {
    bounded = λ j d e. ground (arith, v.bounded j d, v.bounded i c);
    fifo = λ j d e. ground (arith, v.fifo j d, v.fifo i c);
    started = λ j d e. ground (arith, v.started j d);
    live_mapped = λ j d e f. ground (arith, v.live_mapped j d, v.live_mapped i c);
    mapped_live = λ k j e. ground (arith, v.mapped_live k j);
    looping_open = λ j d e f. ground (arith, v.looping_open j d);
    evicted_empty = λ j d e f. ground (arith, v.evicted_empty j d, v.evicted_empty i c);
    fresh = λ j h. ground (arith, v.fresh j);
  }

  finish-Inv :
      (b : Bool)
      → w.phase i ≡ closing_session b
      → Inv (record w {
        manager = (finish_eviction w.manager i c).1;
        phase = put w.phase i (ended b);
      })
  unfolding finish_eviction
  finish-Inv b p =
      let m = w.manager.conversations in
      record {
        bounded = λ j d e. ground (arith, v.bounded j d, v.bounded i c);
        fifo = λ j d e. ground (arith, v.fifo j d, v.fifo i c);
        started = λ j d e. ground (arith, v.started j d);
        live_mapped = λ j d e f. ground (
          arith,
          v.live_mapped j d,
          v.live_mapped i c,
          lookup-delete m c.key d.key,
          ≟_iff c.key d.key,
        );
        mapped_live = λ k j e.
            ground
              (arith, v.mapped_live k j, v.live_mapped i c, lookup-delete m c.key k, ≟_iff c.key k);
        looping_open = λ j d e f. ground (arith, v.looping_open j d);
        evicted_empty = λ j d e f. ground (arith, v.evicted_empty j d, v.evicted_empty i c);
        fresh = λ j h. ground (arith, v.fresh j);
      }

  receive-cases :
      (q : List InboundMessage) → c.queue ≡ q → w.phase i ≡ looping → Inv (receive_from w i c q)
  unfolding receive_from
  receive-cases [] f p = v
  receive-cases (msg ∷ rest) f p = receive-Inv msg rest p f

  worker_step-Inv : (p : Phase) (e : Event) → w.phase i ≡ p → Inv (worker_step w i c p e)
  unfolding worker_step
  worker_step-Inv looping (receive _) q = receive-cases c.queue refl q
  worker_step-Inv looping (timer_fired _ seq) q = timer-Inv seq q
  worker_step-Inv looping (notice_stop _) q = elim (Bool-cases (is_some w.manager.stopped)) [
    | inl e ↦ rw e (notice-Inv q)
    | inr e ↦ rw e v
  ]
  worker_step-Inv (leaving b) (begin_teardown _) q = close-Inv b q
  worker_step-Inv (closing_session b) (finish_teardown _) q = finish-Inv b q
  worker_step-Inv _ _ q = v

nothing-Inv : (w : World) → Inv w → (i : ℕ) (e : Event) → Inv (on_object w i none e)
unfolding on_object
nothing-Inv w v i e = v

object-Inv :
    (w : World)
    → Inv w
    → (i : ℕ) (c : Conversation) → w.manager.objects i ≡ some c
    → (e : Event) → Inv (on_object w i (some c) e)
unfolding on_object
object-Inv w v i c f e = worker_step-Inv w v i c f (w.phase i) e refl

pub on_object-Inv :
    (w : World) → Inv w → (i : ℕ) (e : Event) → Inv (on_object w i (w.manager.objects i) e)
on_object-Inv w v i e = go (w.manager.objects i) refl
  where
    go : (o : Option Conversation) → w.manager.objects i ≡ o → Inv (on_object w i o e)
    go none f = nothing-Inv w v i e
    go (some c) f = object-Inv w v i c f e
