-- ===== src/SessionStore.antt =====
-- internal/sessionstore/store.go: the events of a session, the snapshot that they build, and the
-- store in memory. Values are not shared, so the copies that the code makes are the values
-- themselves; a cost is the bit pattern of its float64. The proofs are in Replay (events) and
-- Memory/Laws (the store); the sessions in files are in Log and File.
pub mod Replay
pub mod Memory
pub mod Log
pub mod File
use go_tiny_claw.Base.{
  ℕ, Bool, true, false, ◌||◌, not, List, [], ◌∷◌, ◌++◌, Option, none, some, if◌then◌else◌, ◌==◌,
  Text, is_empty, ◌≟◌, text_eq, Result, ok, err, ◌>>=◌, length,
}
use go_tiny_claw.Schema.{Message, BillingMode, billing_unset}

pub data StoreError : Type 0 where
  not_found corrupted exists in_use id_required canceled : StoreError

pub record Metadata : Type 0 where
  pub id : Text
  pub work_dir : Text
  pub created_at : ℕ
  pub updated_at : ℕ
  pub provider_id : Text
  pub model_id : Text
  pub auth_type : Text
  pub billing_mode : BillingMode
  pub messages : ℕ

-- `sessionstore.Usage`
pub record Usage : Type 0 where
  pub prompt_tokens : ℕ
  pub completion_tokens : ℕ
  pub estimated_cost : ℕ
  pub cost_known : Bool
  pub currency : Text
  pub billing_mode : BillingMode

pub record Snapshot : Type 0 where
  pub metadata : Metadata
  pub history : List Message
  pub usage : Usage

-- The event types that the code names, and any other string.
pub data EventType : Type 0 where
  session_created metadata_updated message_added usage_recorded : EventType
  other_type : Text → EventType

pub record Event : Type 0 where
  pub version : ℕ
  pub type : EventType
  pub timestamp : ℕ
  pub metadata : Option Metadata
  pub message : Option Message
  pub usage : Option Usage

-- `NewEvent`, at the time `now`.
abbrev pub new_event : EventType → ℕ → Event
new_event t now = record {
  version = 1;
  type = t;
  timestamp = now;
  metadata = none;
  message = none;
  usage = none;
}

abbrev or_else : Option Usage → Usage → Usage
or_else none u = u
or_else (some v) u = v

-- The `switch` of `apply`.
unfoldable pub apply_type : Snapshot → Event → EventType → Result StoreError Snapshot
apply_type s e session_created = elim e.metadata [
  | none ↦ err corrupted
  | some m ↦
      if not (is_empty s.metadata.id)
      then err corrupted
      else ok (record s { metadata = m; usage = or_else e.usage s.usage })
]
apply_type s e metadata_updated = elim e.metadata [
  | none ↦ err corrupted
  | some m ↦ if not (m.id ≟ s.metadata.id) then err corrupted else ok (record s { metadata = m })
]
apply_type s e message_added = elim e.message [
  | none ↦ err corrupted
  | some m ↦
      if is_empty s.metadata.id
      then err corrupted
      else ok (record s { history = s.history ++ m ∷ [] })
]
apply_type s e usage_recorded = elim e.usage [
  | none ↦ err corrupted
  | some u ↦ if is_empty s.metadata.id then err corrupted else ok (record s { usage = u })
]
apply_type s e (other_type t) = err corrupted

-- The last lines of `apply`.
abbrev pub stamp : Snapshot → ℕ → Snapshot
stamp s time = record s {
  metadata = record s.metadata { updated_at = time; messages = length s.history };
}

-- `apply`
unfoldable pub apply : Snapshot → Event → Result StoreError Snapshot
apply s e =
    let applied = apply_type s e e.type >>= λ t. ok (stamp t e.timestamp) in
    if e.version == 1 then applied else err corrupted

-- The loops that apply events one after the other.
unfoldable pub apply_all : Snapshot → List Event → Result StoreError Snapshot
apply_all s [] = ok s
apply_all s (e ∷ es) = apply s e >>= λ t. apply_all t es

-- The message events of `creation`; `clock` gives the time of each.
unfoldable pub message_events : List Message → (ℕ → ℕ) → ℕ → List Event
message_events [] clock i = []
message_events (m ∷ ms) clock i =
    record (new_event message_added (clock i)) { message = some m }
    ∷ message_events ms clock (ℕ.suc i)

-- `creation`
unfoldable pub creation : Snapshot → (ℕ → ℕ) → List Event
unfolding message_events
creation s clock =
    record (new_event session_created s.metadata.created_at) {
      metadata = some s.metadata;
      usage = some s.usage;
    }
    ∷ message_events s.history clock 0

-- The zero `Snapshot`.
abbrev pub empty_snapshot : Snapshot
empty_snapshot = record {
  metadata = record {
    id = [];
    work_dir = [];
    created_at = 0;
    updated_at = 0;
    provider_id = [];
    model_id = [];
    auth_type = [];
    billing_mode = billing_unset;
    messages = 0;
  };
  history = [];
  usage = record {
    prompt_tokens = 0;
    completion_tokens = 0;
    estimated_cost = 0;
    cost_known = false;
    currency = [];
    billing_mode = billing_unset;
  };
}
