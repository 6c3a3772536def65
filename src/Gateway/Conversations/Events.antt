-- ===== src/Gateway/Conversations/Events.antt =====
-- The worker of each conversation (`Conversation.run`) and the admissions around it, in any order.
use go_tiny_claw.Base.{
  ℕ, Bool, true, false, List, [], ◌∷◌, ◌++◌, Option, none, some, if◌then◌else◌, ◌==◌, Result, ok,
  err, CtxErr, is_some,
}
use go_tiny_claw.Channel.{InboundMessage}
use go_tiny_claw.Gateway.Conversations.{
  Conversation, Manager, EnqueueError, set_object, enqueue, begin_eviction, begin_close,
  finish_eviction,
}

-- Where the worker stands: in its loop, past it (with the flag `evicted`), past the first lock of
-- `closeRuntime`, or ended. A number without a conversation is `absent`.
pub data Phase : Type 0 where
  absent looping : Phase
  leaving closing_session ended : Bool → Phase

-- The manager, its workers, and what each conversation has admitted and handed to its worker.
pub record World : Type 0 where
  pub manager : Manager
  pub phase : ℕ → Phase
  pub admitted : ℕ → List InboundMessage
  pub taken : ℕ → List InboundMessage

-- The timer's event carries the sequence number that the worker saw when it armed the timer; any number
-- may come, more than `idleSequence` gives.
pub data Event : Type 0 where
  admit : Option CtxErr → InboundMessage → Event
  receive notice_stop begin_teardown finish_teardown : ℕ → Event
  timer_fired : ℕ → ℕ → Event
  stop : CtxErr → Event

abbrev pub put {ℓ} : {A : Type ℓ} → (ℕ → A) → ℕ → A → ℕ → A
put f i a j = if i == j then a else f j

-- `go c.run(m.ctx, m)`, for a conversation that `enqueue` has made.
abbrev pub start_worker : World → Manager → ℕ → Phase
start_worker w m = if m.next == w.manager.next then w.phase else put w.phase w.manager.next looping

unfoldable pub after_admit : World → InboundMessage → Result EnqueueError ℕ × Manager → World
after_admit w msg (ok i, m) = record {
  manager = m;
  phase = start_worker w m;
  admitted = put w.admitted i (w.admitted i ++ msg ∷ []);
  taken = w.taken;
}
after_admit w msg (err e, m) = record w { manager = m; phase = start_worker w m }

-- `case msg := <-c.queue`
unfoldable pub receive_from : World → ℕ → Conversation → List InboundMessage → World
receive_from w i c [] = w
receive_from w i c (msg ∷ rest) = record w {
  manager = set_object w.manager i (record c { queue = rest });
  taken = put w.taken i (w.taken i ++ msg ∷ []);
}

unfoldable pub after_timer : World → ℕ → Bool × Manager → World
after_timer w i (false, m) = w
after_timer w i (true, m) = record w { manager = m; phase = put w.phase i (leaving true) }

-- One event of the worker `i`, if it is enabled where the worker stands.
unfoldable pub worker_step : World → ℕ → Conversation → Phase → Event → World
worker_step w i c looping (receive _) = receive_from w i c c.queue
worker_step w i c looping (timer_fired _ seq) = after_timer w i (begin_eviction w.manager i c seq)
worker_step w i c looping (notice_stop _) =
    if is_some w.manager.stopped then record w { phase = put w.phase i (leaving false) } else w
worker_step w i c (leaving evicted) (begin_teardown _) = record w {
  manager = begin_close w.manager i c;
  phase = put w.phase i (closing_session evicted);
}
worker_step w i c (closing_session evicted) (finish_teardown _) = record w {
  manager = (finish_eviction w.manager i c).1;
  phase = put w.phase i (ended evicted);
}
worker_step w i c _ _ = w

unfoldable pub on_object : World → ℕ → Option Conversation → Event → World
on_object w i none e = w
on_object w i (some c) e = worker_step w i c (w.phase i) e

unfoldable pub step : World → Event → World
step w (admit ctx_err msg) = after_admit w msg (enqueue w.manager ctx_err msg)
step w (stop e) = record w { manager = record w.manager { stopped = some e } }
step w (receive i) = on_object w i (w.manager.objects i) (receive i)
step w (notice_stop i) = on_object w i (w.manager.objects i) (notice_stop i)
step w (begin_teardown i) = on_object w i (w.manager.objects i) (begin_teardown i)
step w (finish_teardown i) = on_object w i (w.manager.objects i) (finish_teardown i)
step w (timer_fired i seq) = on_object w i (w.manager.objects i) (timer_fired i seq)

unfoldable pub start : World
start = record {
  manager = record { stopped = none; conversations = []; objects = λ i. none; next = 0 };
  phase = λ i. absent;
  admitted = λ i. [];
  taken = λ i. [];
}

-- A history, its latest event first.
unfoldable pub run_conversations : List Event → World
run_conversations [] = start
run_conversations (e ∷ es) = step (run_conversations es) e
