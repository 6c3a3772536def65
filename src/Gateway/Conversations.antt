-- ===== src/Gateway/Conversations.antt =====
-- internal/gateway/manager.go and lifecycle.go: the map from session keys to conversations, with the
-- lifecycle of each conversation's worker. A pointer is a number into `objects`; a method that holds
-- the manager's mutex is one function, and what happens between two of them is another event. The
-- children hold the interleavings (Events), their invariant and the results.
pub mod Events
pub mod Invariant
pub mod Steps
pub mod Admissions
pub mod Laws
pub mod Examples
use go_tiny_claw.Base.{
  ℕ, suc, ◌+◌, ◌^◌, ◌%◌, Bool, true, false, ◌&&◌, ◌||◌, not, List, [], ◌∷◌, ◌++◌, Option, none,
  some, if◌then◌else◌, ◌==◌, ltb, leb, Text, is_empty, ◌≟◌, text_eq, lookup, insert, delete,
  is_some, Result, ok, err, CtxErr, length,
}
use go_tiny_claw.Channel.{Route, InboundMessage, build_session_key}

abbrev pub conversation_queue_size : ℕ
conversation_queue_size = 64

-- `Conversation`, the part under the manager's mutex.
pub record Conversation : Type 0 where
  pub route : Route
  pub key : Text
  pub queue : List InboundMessage
  pub activity_seq : ℕ
  pub closing : Bool
  pub closed : Bool

pub data EnqueueError : Type 0 where
  context_error : CtxErr → EnqueueError
  conversation_closing queue_full : EnqueueError

-- `ConversationManager`: `stopped` is what its context says, `objects` the conversations that were
-- ever made, `next` the next fresh one.
pub record Manager : Type 0 where
  pub stopped : Option CtxErr
  pub conversations : List (Text × ℕ)
  pub objects : ℕ → Option Conversation
  pub next : ℕ

abbrev pub put_object : (ℕ → Option Conversation) → ℕ → Conversation → ℕ → Option Conversation
put_object o i c j = if i == j then some c else o j

abbrev pub set_object : Manager → ℕ → Conversation → Manager
set_object m i c = record m { objects = put_object m.objects i c }

-- A conversation as `enqueue` makes it.
abbrev pub new_conversation : Route → Conversation
new_conversation r = record {
  route = r;
  key = build_session_key r;
  queue = [];
  activity_seq = 0;
  closing = false;
  closed = false;
}

-- The conversation of a message's route, made if the map has none.
unfoldable pub find_or_create : Manager → InboundMessage → ℕ × Manager
find_or_create m msg =
    let key = build_session_key msg.route in
    elim (lookup m.conversations key) [
      | some i ↦ (i, m)
      | none ↦ (
        m.next,
        record {
          stopped = m.stopped;
          conversations = insert m.conversations key m.next;
          objects = put_object m.objects m.next (new_conversation msg.route);
          next = suc m.next;
        },
      )
    ]

-- `activitySeq` is a uint64.
abbrev pub seq_next : ℕ → ℕ
seq_next n = (n + 1) % 2 ^ 64

-- The rest of `enqueue`, once the conversation is known: it refuses a closing conversation and a
-- full queue. The result is the conversation that took the message.
unfoldable pub admit_to :
    Manager → ℕ → Option Conversation → InboundMessage → Result EnqueueError ℕ × Manager
admit_to m i none msg = (err conversation_closing, m)
admit_to m i (some c) msg =
    if c.closing
    then (err conversation_closing, m)
    else if ltb (length c.queue) conversation_queue_size
    then (
      ok i,
      set_object m i
          (record c { queue = c.queue ++ msg ∷ []; activity_seq = seq_next c.activity_seq }),
    )
    else (err queue_full, m)

enqueue_live : Manager → InboundMessage → Result EnqueueError ℕ × Manager
enqueue_live m msg = let (i, m') = find_or_create m msg in admit_to m' i (m'.objects i) msg

enqueue_under :
    Option CtxErr → Manager → Option CtxErr → InboundMessage → Result EnqueueError ℕ × Manager
enqueue_under (some e) m c msg = (err (context_error e), m)
enqueue_under none m (some e) msg = (err (context_error e), m)
enqueue_under none m none msg = enqueue_live m msg

-- `enqueue`; the second argument is what the caller's context says.
unfoldable pub enqueue : Manager → Option CtxErr → InboundMessage → Result EnqueueError ℕ × Manager
unfolding enqueue_under enqueue_live
enqueue m c msg = enqueue_under m.stopped m c msg

abbrev pub is_object : Option ℕ → ℕ → Bool
is_object none i = false
is_object (some j) i = j == i

-- `beginEviction`, for a conversation that is idle since it had this sequence number.
unfoldable pub begin_eviction : Manager → ℕ → Conversation → ℕ → Bool × Manager
begin_eviction m i c expected =
    if is_some m.stopped
      || not (is_object (lookup m.conversations c.key) i)
      || c.closing
      || not (c.activity_seq == expected)
      || not (is_empty c.queue)
    then (false, m)
    else (true, set_object m i (record c { closing = true }))

-- The first lines of `closeRuntime`.
unfoldable pub begin_close : Manager → ℕ → Conversation → Manager
begin_close m i c = set_object m i (record c { closing = true })

-- `finishEviction`: the entry leaves the map if it is still this conversation's, and `closed` is
-- closed. The result is the number of conversations left.
unfoldable pub finish_eviction : Manager → ℕ → Conversation → ℕ × Manager
finish_eviction m i c =
    let left =
      if is_object (lookup m.conversations c.key) i
      then delete m.conversations c.key
      else m.conversations in
    (
      length left,
      record m {
        conversations = left;
        objects = put_object m.objects i (record c { closed = true });
      },
    )
