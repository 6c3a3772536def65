-- ===== src/Context/Session.antt =====
-- internal/context/session.go: a session and the store that it writes to. `durable` says that the
-- session has a store and `writer` is the lock it holds there, so an operation takes the store and
-- gives the store that it leaves. The addition of two float64 costs is a parameter. A context is asked
-- in turn, first by the session and then by the store.
-- The billing mode, the currency and the totals are the session's `usage`. The callback `onClose` is in
-- Service.
pub mod Laws
pub mod Memory
use go_tiny_claw.Base.{
  ℕ, suc, zero, ◌+◌, ◌-◌, Bool, true, false, ◌&&◌, List, [], ◌∷◌, ◌++◌, Option, none, some,
  if◌then◌else◌, ltb, Text, is_empty, Result, ok, err, ◌>>=◌, Ctx, CtxErr, length, drop, get_elem?,
}
use go_tiny_claw.Schema.{Message, is_user, BillingMode, billing_unset, billing_api, billing_unknown}
use go_tiny_claw.SessionStore.{
  Usage, Event, new_event, usage_recorded, message_events, empty_snapshot,
}
use go_tiny_claw.SessionStore.Memory.{MemoryStore, MemoryError, append, release}

pub data SessionError : Type 0 where
  session_closed : SessionError
  context_ended : CtxErr → SessionError
  not_stored : MemoryError → SessionError

pub record Session : Type 0 where
  pub id : Text
  pub work_dir : Text
  pub created_at : ℕ
  pub provider_id : Text
  pub model_id : Text
  pub auth_type : Text
  pub durable : Bool
  pub writer : Option ℕ
  pub closed : Bool
  pub updated_at : ℕ
  pub usage : Usage
  pub history : List Message

-- `NewSession`
abbrev pub new_session : Text → Text → ℕ → Session
new_session id dir now = record {
  id = id;
  work_dir = dir;
  created_at = now;
  provider_id = [];
  model_id = [];
  auth_type = [];
  durable = false;
  writer = none;
  closed = false;
  updated_at = now;
  usage = record empty_snapshot.usage { billing_mode = billing_unknown };
  history = [];
}

-- `provider.ModelInfo`, as far as the catalog and a session read it; `pricing` is the currency of its
-- prices.
pub record ModelInfo : Type 0 where
  pub provider_id : Text
  pub id : Text
  pub name : Text
  pub billing_mode : BillingMode
  pub pricing : Option Text

-- The currency of a model whose cost is known.
abbrev pub known_currency : BillingMode → Option Text → Option Text
known_currency billing_api (some c) = if is_empty c then none else some c
known_currency mode pricing = none

abbrev pub mode_or_unknown : BillingMode → BillingMode
mode_or_unknown billing_unset = billing_unknown
mode_or_unknown mode = mode

abbrev priced : Usage → Option Text → Usage
priced u none = record u { cost_known = false }
priced u (some c) = record u { cost_known = true; currency = c }

-- `Session.SetModelInfo`
unfoldable pub set_model_info : Session → ModelInfo → Session
set_model_info s model = if s.durable then s else record s {
  provider_id = model.provider_id;
  model_id = model.id;
  usage = record (priced s.usage (known_currency model.billing_mode model.pricing)) {
    billing_mode = mode_or_unknown model.billing_mode;
  };
}

-- `Session.SetAuthType`
abbrev pub set_auth_type : Session → Text → Session
set_auth_type s auth_type = if s.durable then s else record s { auth_type = auth_type }

-- What a call answers, and the session and the store after it.
abbrev pub Outcome : Type 0
Outcome = Result SessionError (Session × MemoryStore)

-- The checks that open `RecordUsage` and `Append`.
abbrev pub if_open : Session → Ctx → Outcome → Outcome
if_open s c done = elim (c 0) [
  | some e ↦ err (context_ended e)
  | none ↦ elim (c 1) [
    | some e ↦ err (context_ended e)
    | none ↦ if s.closed then err session_closed else done
  ]
]

-- The events go to the store, where there is one, before the session changes.
abbrev pub store_first : Session → MemoryStore → Ctx → List Event → Session → Outcome
store_first s m c es t =
    if s.durable
    then elim (append m (λ i. c (suc (suc i))) s.id es) [
      | err e ↦ err (not_stored e)
      | ok n ↦ ok (t, n)
    ]
    else ok (t, m)

-- `Session.Append`; `clock` gives the times of the events and `now` that of the change.
unfoldable pub append_messages : Session → MemoryStore → Ctx → (ℕ → ℕ) → ℕ → List Message → Outcome
append_messages s m c clock now ms = if_open s c (
    store_first s m c (message_events ms clock 0)
      (record s { history = s.history ++ ms; updated_at = now }))

-- `provider.UsageBilling`, as far as `RecordUsage` reads it.
pub record UsageBilling : Type 0 where
  pub estimated_cost : ℕ
  pub cost_known : Bool

-- The totals after a call of the model.
unfoldable pub add_usage : (ℕ → ℕ → ℕ) → Usage → ℕ → ℕ → UsageBilling → Usage
add_usage add_cost u prompt completion billing = record u {
  prompt_tokens = u.prompt_tokens + prompt;
  completion_tokens = u.completion_tokens + completion;
  cost_known = u.cost_known && billing.cost_known;
  estimated_cost =
      if billing.cost_known
      then add_cost u.estimated_cost billing.estimated_cost
      else u.estimated_cost;
}

-- `Session.RecordUsage`
unfoldable pub record_usage :
    (ℕ → ℕ → ℕ) → Session → MemoryStore → Ctx → ℕ → ℕ → ℕ → UsageBilling → Outcome
unfolding add_usage
record_usage add_cost s m c now prompt completion billing =
    let u = add_usage add_cost s.usage prompt completion billing in
    if_open s c (
      store_first s m c (record (new_event usage_recorded now) { usage = some u } ∷ [])
        (record s { usage = u; updated_at = now }))

-- `Session.MarkCostUnknown`
unfoldable pub mark_cost_unknown : (ℕ → ℕ → ℕ) → Session → MemoryStore → Ctx → ℕ → Outcome
unfolding record_usage
mark_cost_unknown add_cost s m c now =
    record_usage add_cost s m c now 0 0 (record { estimated_cost = 0; cost_known = false })

abbrev released : MemoryStore → Text → Option ℕ → MemoryStore
released m id none = m
released m id (some lock) = release m id lock

-- `Session.Close`
unfoldable pub close : Session → MemoryStore → Session × MemoryStore
close s m = if s.closed then (s, m) else (record s { closed = true }, released m s.id s.writer)

-- An ordinary user message, which is not the result of a tool.
abbrev pub is_ordinary : Message → Bool
is_ordinary m = is_user m.role && is_empty m.tool_call_id

abbrev pub ordinary_at : Option Message → Bool
ordinary_at none = false
ordinary_at (some m) = is_ordinary m

-- `findConversationStart`: the loop from `i` down, which ends at 0 for want of a start.
unfoldable pub find_conversation_start : List Message → ℕ → ℕ
find_conversation_start history zero = 0
find_conversation_start history (suc i) =
    let rest = find_conversation_start history i in
    if ordinary_at (get_elem? history (suc i)) then suc i else rest

unfoldable pub memory_start : List Message → ℕ → ℕ
unfolding find_conversation_start
memory_start history limit =
    if ltb limit (length history) && ltb 0 limit
    then find_conversation_start history (length history - limit)
    else 0

-- `GetWorkingMemory`. A limit that is not positive is 0.
unfoldable pub get_working_memory : Session → ℕ → List Message
unfolding memory_start
get_working_memory s limit = drop (memory_start s.history limit) s.history
