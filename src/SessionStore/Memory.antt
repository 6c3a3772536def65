-- ===== src/SessionStore/Memory.antt =====
-- `MemoryStore`: sessions by their IDs, and the writer that holds each ID. A lock is a number.
pub mod Laws
use go_tiny_claw.Base.{
  ℕ, suc, Bool, true, false, List, [], ◌∷◌, Option, none, some, if◌then◌else◌, ◌==◌, Text, is_empty,
  text_eq, Result, ok, err, ◌>>=◌, CtxErr, Ctx, length, lookup, insert, delete, is_some, map,
}
use go_tiny_claw.SessionStore.{Snapshot, Metadata, Event, StoreError, apply_all}

pub data MemoryError : Type 0 where
  context_done : CtxErr → MemoryError
  store_error : StoreError → MemoryError

pub record MemoryStore : Type 0 where
  pub sessions : List (Text × Snapshot)
  pub writers : List (Text × ℕ)
  pub next_lock : ℕ

-- `NewMemoryStore`
abbrev pub new_memory_store : MemoryStore
new_memory_store = record { sessions = []; writers = []; next_lock = 0 }

abbrev pub look : {A : Type 0} → Option CtxErr → Result MemoryError A → Result MemoryError A
look none r = r
look (some e) r = err (context_done e)

abbrev holds : Option ℕ → ℕ → Bool
holds none l = false
holds (some k) l = k == l

-- `memorySessionLock.Release`
unfoldable pub release : MemoryStore → Text → ℕ → MemoryStore
release m id lock =
    if holds (lookup m.writers id) lock then record m { writers = delete m.writers id } else m

acquired : MemoryStore → Option CtxErr → Text → Result MemoryError ℕ × MemoryStore
acquired m (some e) id = (err (context_done e), m)
acquired m none id = (
  ok m.next_lock,
  record m { writers = insert m.writers id m.next_lock; next_lock = suc m.next_lock },
)

acquire_live : MemoryStore → Ctx → Text → Result MemoryError ℕ × MemoryStore
acquire_live m c id =
    if is_some (lookup m.writers id)
    then (err (store_error StoreError.in_use), m)
    else acquired m (c 1) id

-- `AcquireWriter`. A context that ends right after the lock was taken gives it back.
unfoldable pub acquire_writer : MemoryStore → Ctx → Text → Result MemoryError ℕ × MemoryStore
unfolding acquire_live acquired
acquire_writer m c id = elim (c 0) [
  | some e ↦ (err (context_done e), m)
  | none ↦ acquire_live m c id
]

-- `Create`
unfoldable pub create : MemoryStore → Ctx → Snapshot → Result MemoryError MemoryStore
create m c s = look (c 0) (
    if is_empty s.metadata.id
    then err (store_error StoreError.id_required)
    else if is_some (lookup m.sessions s.metadata.id)
    then err (store_error StoreError.exists)
    else ok (record m { sessions = insert m.sessions s.metadata.id s }))

append_to : MemoryStore → Ctx → Text → List Event → Option Snapshot → Result MemoryError MemoryStore
append_to m c id es none = err (store_error StoreError.not_found)
append_to m c id es (some s) = look (c 1) (elim (apply_all s es) [
  | err e ↦ err (store_error e)
  | ok t ↦ look (c 2) (ok (record m { sessions = insert m.sessions id t }))
])

-- `Append`
unfoldable pub append : MemoryStore → Ctx → Text → List Event → Result MemoryError MemoryStore
unfolding append_to
append m c id es = look (c 0) (append_to m c id es (lookup m.sessions id))

-- `Load`
unfoldable pub load : MemoryStore → Ctx → Text → Result MemoryError Snapshot
load m c id =
    look (c 0) (elim (lookup m.sessions id) [
      | none ↦ err (store_error StoreError.not_found)
      | some s ↦ ok s
    ])

-- `List`
unfoldable pub list : MemoryStore → Ctx → Result MemoryError (List Metadata)
list m c =
    look (c 0) (ok (map (λ e. record e.1.metadata { messages = length e.1.history }) m.sessions))

unfoldable pub delete_held :
    MemoryStore → Text → ℕ → Option Snapshot → Result MemoryError (Unit {0}) × MemoryStore
delete_held m id lock none = (err (store_error StoreError.not_found), release m id lock)
delete_held m id lock (some s) =
    (ok tt, release (record m { sessions = delete m.sessions id }) id lock)

-- `Delete`, which takes the writer for as long as it runs.
unfoldable pub remove : MemoryStore → Ctx → Text → Result MemoryError (Unit {0}) × MemoryStore
unfolding delete_held
remove m c id =
    let (r, held) = acquire_writer m c id in
    elim r [ err e ↦ (err e, held) | ok lock ↦ delete_held held id lock (lookup held.sessions id) ]
