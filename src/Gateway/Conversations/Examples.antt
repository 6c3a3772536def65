-- ===== src/Gateway/Conversations/Examples.antt =====
-- One message, its worker, and the eviction of the idle conversation.
use go_tiny_claw.Base.{
  ℕ, Bool, true, false, List, [], ◌∷◌, none, some, codes, ◌≡◌, refl, lookup, insert, delete,
  list_beq, text_eq,
}
use go_tiny_claw.Channel.{InboundMessage, Route, direct, build_session_key, query_escape}
use go_tiny_claw.Gateway.Conversations.{
  Conversation, enqueue, find_or_create, admit_to, begin_eviction, begin_close, finish_eviction,
}
use go_tiny_claw.Gateway.Conversations.Events.{
  Event, admit, receive, timer_fired, begin_teardown, finish_teardown, looping, ended,
  run_conversations, step, start, after_admit, receive_from, after_timer, worker_step, on_object,
}
use go_tiny_claw.Gateway.Conversations.Invariant.{Inv}
use go_tiny_claw.Gateway.Conversations.Admissions.{run_conversations-Inv}
use go_tiny_claw.Gateway.Conversations.Laws.{one_worker_per_key, eviction_loses_nothing}

abbrev route : Route
route = record { channel = codes "tg"; account_id = codes "a"; chat_id = codes "c"; thread_id = [] }

abbrev message : InboundMessage
message = record {
  id = codes "m1";
  route = route;
  user_id = codes "7";
  user_name = [];
  chat_type = direct;
  text = codes "hi";
  mentioned_bot = false;
  received_at = 0;
}

abbrev served : List Event
served = receive 0 ∷ admit none message ∷ []

abbrev evicted : List Event
evicted = finish_teardown 0 ∷ begin_teardown 0 ∷ timer_fired 0 1 ∷ served

abbrev conversation : Bool → Bool → Conversation
conversation closing closed = record {
  route = route;
  key = build_session_key route;
  queue = [];
  activity_seq = 1;
  closing = closing;
  closed = closed;
}

served_object : (run_conversations served).manager.objects 0 ≡ some (conversation false false)
unfolding run_conversations step start after_admit enqueue find_or_create admit_to lookup insert
    on_object worker_step receive_from
served_object = refl

evicted_object : (run_conversations evicted).manager.objects 0 ≡ some (conversation true true)
unfolding run_conversations step start after_admit enqueue find_or_create admit_to lookup insert
    on_object worker_step receive_from after_timer begin_eviction begin_close finish_eviction
    list_beq build_session_key query_escape delete
evicted_object = refl

evicted_ended : (run_conversations evicted).phase 0 ≡ ended true
unfolding run_conversations step start after_admit enqueue find_or_create admit_to lookup insert
    on_object worker_step receive_from after_timer begin_eviction begin_close finish_eviction
    list_beq build_session_key query_escape delete
evicted_ended = refl

served_live : (run_conversations served).phase 0 ≡ looping
unfolding run_conversations step start after_admit enqueue find_or_create admit_to lookup insert
    on_object worker_step receive_from
served_live = refl

run_conversations-Inv_example : Inv (run_conversations evicted)
run_conversations-Inv_example = run_conversations-Inv evicted

one_worker_per_key_example : ◌≡◌ {A = ℕ} 0 0
one_worker_per_key_example =
    one_worker_per_key served 0 0 (conversation false false) (conversation false false)
      served_object served_object (rw served_live) (rw served_live) refl

eviction_loses_nothing_example :
    (run_conversations evicted).admitted 0 ≡ (run_conversations evicted).taken 0
eviction_loses_nothing_example =
    eviction_loses_nothing evicted 0 (conversation true true) evicted_object evicted_ended
