-- ===== src/Context/Service.antt =====
-- internal/context/service.go: the session service. Sessions are objects, so they are kept in a heap,
-- and the service's map and its callers know them by number. The calls for one ID run one after the
-- other (`lock`), so each is a function. The working directory's `os.Stat` is a parameter: an error or
-- whether it is a directory. The store is the one in memory, so its calls fail only as that one's do,
-- and a writer is always given back.
pub mod Ownership
pub mod Calls
pub mod Ending
pub mod Owner
pub mod Laws
mod Examples
use go_tiny_claw.Base.{
  ℕ, suc, zero, ◌+◌, Bool, true, false, ◌&&◌, List, [], ◌∷◌, Option, none, some, if◌then◌else◌,
  ◌==◌, Text, text_eq, nat_eq, Result, ok, err, Ctx, CtxErr, length, lookup, insert, delete,
}
use go_tiny_claw.SessionStore.{Snapshot, Metadata, StoreError}
use go_tiny_claw.SessionStore.Memory.{
  MemoryStore, MemoryError, context_done, store_error, acquire_writer, release,
}
use go_tiny_claw.SessionStore.Memory
use go_tiny_claw.Context.Session.{
  Session, ModelInfo, new_session, set_model_info, set_auth_type, close,
}

pub record SessionService : Type 0 where
  pub store : MemoryStore
  pub heap : List (ℕ × Session)
  pub sessions : List (Text × ℕ)
  pub next : ℕ

-- `NewSessionService`
abbrev pub new_session_service : MemoryStore → SessionService
new_session_service m = record { store = m; heap = []; sessions = []; next = 0 }

pub data ServiceError : Type 0 where
  store_failed : MemoryError → ServiceError
  no_directory : ℕ → ServiceError
  not_directory : ServiceError

-- `Session.snapshotLocked`
abbrev pub snapshot_of : Session → Snapshot
snapshot_of s = record {
  metadata = record {
    id = s.id;
    work_dir = s.work_dir;
    created_at = s.created_at;
    updated_at = s.updated_at;
    provider_id = s.provider_id;
    model_id = s.model_id;
    auth_type = s.auth_type;
    billing_mode = s.usage.billing_mode;
    messages = length s.history;
  };
  history = s.history;
  usage = s.usage;
}

-- What a call answers, the number of a session, and the service after it.
abbrev pub Answer : Type 0
Answer = Result ServiceError ℕ × SessionService

-- `attach` and the entry in the map: the session has its store and its writer.
unfoldable pub attach : SessionService → MemoryStore → Text → Session → ℕ → Answer
attach v m id s writer = (
  ok v.next,
  record v {
    store = m;
    heap = insert v.heap v.next (record s { durable = true; writer = some writer });
    sessions = insert v.sessions id v.next;
    next = suc v.next;
  },
)

-- The session that `create` makes.
abbrev pub made_session : Text → Text → ℕ → ModelInfo → Text → Session
made_session id dir now model auth_type =
    set_auth_type (set_model_info (new_session id dir now) model) auth_type

unfoldable pub create_held : SessionService → MemoryStore → Ctx → Text → Session → ℕ → Answer
unfolding attach
create_held v m c id s writer = elim (Memory.create m c (snapshot_of s)) [
  | err e ↦ (err (store_failed e), record v { store = release m id writer })
  | ok n ↦ attach v n id s writer
]

-- `create`, at the time `now`.
unfoldable pub create_session : SessionService → Ctx → Text → Text → ℕ → ModelInfo → Text → Answer
unfolding create_held
create_session v c id dir now model auth_type =
    let (r, m) = acquire_writer v.store c id in
    elim r [
      | err e ↦ (err (store_failed e), record v { store = m })
      | ok writer ↦
          create_held v m (λ i. c (i + 2)) id (made_session id dir now model auth_type) writer
    ]

-- The session that a snapshot describes.
abbrev pub loaded_session : Snapshot → Session
loaded_session t = record {
  id = t.metadata.id;
  work_dir = t.metadata.work_dir;
  created_at = t.metadata.created_at;
  provider_id = t.metadata.provider_id;
  model_id = t.metadata.model_id;
  auth_type = t.metadata.auth_type;
  durable = false;
  writer = none;
  closed = false;
  updated_at = t.metadata.updated_at;
  usage = record t.usage { billing_mode = t.metadata.billing_mode };
  history = t.history;
}

unfoldable pub load_held :
    (Text → Result ℕ Bool) → SessionService → MemoryStore → Ctx → Text → ℕ → Answer
unfolding attach
load_held stat v m c id writer = elim (Memory.load m c id) [
  | err e ↦ (err (store_failed e), record v { store = release m id writer })
  | ok t ↦ elim (stat t.metadata.work_dir) [
    | err e ↦ (err (no_directory e), record v { store = release m id writer })
    | ok false ↦ (err not_directory, record v { store = release m id writer })
    | ok true ↦ attach v m id (loaded_session t) writer
  ]
]

-- The open session that the map has for an ID.
abbrev pub open_at : SessionService → Option ℕ → Option ℕ
open_at v none = none
open_at v (some o) = elim (lookup v.heap o) [
  | none ↦ none
  | some s ↦ if s.closed then none else some o
]

unfoldable pub load_new : (Text → Result ℕ Bool) → SessionService → Ctx → Text → Answer
unfolding load_held
load_new stat v c id =
    let (r, m) = acquire_writer v.store c id in
    elim r [
      | err e ↦ (err (store_failed e), record v { store = m })
      | ok writer ↦ load_held stat v m (λ i. c (i + 2)) id writer
    ]

-- `load`, also `Load` and `Resume`.
unfoldable pub load_session : (Text → Result ℕ Bool) → SessionService → Ctx → Text → Answer
unfolding load_new
load_session stat v c id = elim (c 0) [
  | some e ↦ (err (store_failed (context_done e)), v)
  | none ↦ elim (open_at v (lookup v.sessions id)) [
    | some o ↦ (ok o, v)
    | none ↦ load_new stat v (λ i. c (i + 1)) id
  ]
]

-- `errors.Is(err, sessionstore.ErrNotFound)`
abbrev pub is_not_found : Result ServiceError ℕ → Bool
is_not_found (err (store_failed (store_error StoreError.not_found))) = true
is_not_found r = false

-- `GetOrCreate`
unfoldable pub get_or_create :
    (Text → Result ℕ Bool) → SessionService → Ctx → Text → Text → ℕ → ModelInfo → Text → Answer
unfolding load_session create_session
get_or_create stat v c id dir now model auth_type =
    let a = load_session stat v c id in
    if is_not_found a.0 then create_session a.1 (λ i. c (i + 5)) id dir now model auth_type else a

-- `Delete`
unfoldable pub delete_session :
    SessionService → Ctx → Text → Result ServiceError (Unit {0}) × SessionService
delete_session v c id =
    let (r, m) = Memory.remove v.store c id in
    elim r [
      | err e ↦ (err (store_failed e), record v { store = m })
      | ok u ↦ (ok u, record v { store = m; sessions = delete v.sessions id })
    ]

-- `onClose`: the map's entry goes if it is this session's (`CompareAndDelete`).
abbrev pub forget : SessionService → Text → ℕ → Option ℕ → List (Text × ℕ)
forget v id o none = v.sessions
forget v id o (some p) = if p == o then delete v.sessions id else v.sessions

unfoldable pub close_open : SessionService → ℕ → Session → SessionService
unfolding close
close_open v o s =
    let (t, m) = close s v.store in
    record v {
      store = m;
      heap = insert v.heap o t;
      sessions = if s.closed then v.sessions else forget v s.id o (lookup v.sessions s.id);
    }

-- `Session.Close` of a session of the service.
unfoldable pub close_session : SessionService → ℕ → SessionService
unfolding close_open
close_session v o = elim (lookup v.heap o) [ none ↦ v | some s ↦ close_open v o s ]
