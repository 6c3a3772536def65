-- ===== src/SessionStore/File/Lifecycle.antt =====
-- internal/sessionstore/file.go and lock.go: the writer's lock, `Create`, `Load` and `Delete` of one
-- session's file. Create's temporary file is written first and then linked.
use go_tiny_claw.Base.{
  ℕ, ◌+◌, Bool, true, false, not, List, [], ◌∷◌, Option, none, some, if◌then◌else◌, ◌==◌, Text,
  is_empty, is_some, Result, ok, err, Ctx, length,
}
use go_tiny_claw.SessionStore.{Snapshot, StoreError, apply_all, creation, empty_snapshot}
use go_tiny_claw.SessionStore.Log.{Codec, encode}
use go_tiny_claw.SessionStore.File.{
  FileError, context_done, store_error, io_error, short_write, not_encodable, FileState, Disk,
  StoreIo, Outcome, as_io, and_then, join, ctx_error, with_file,
}
use go_tiny_claw.SessionStore.File.Reading.{ensure_loaded}
use go_tiny_claw.SessionStore.File.Appending.{guard_error, releasing}

-- The state that `FileStore.state` makes for a path that it has not seen.
abbrev pub new_file_state : FileState
new_file_state = record {
  loaded = false;
  snapshot = empty_snapshot;
  committed_offset = 0;
  file_size = 0;
  info = 0;
  needs_separator = false;
  needs_recovery = false;
  writer = none;
}

-- `FileStore.AcquireWriter`, which makes the lock `lock`.
unfoldable pub acquire_file_writer :
    FileState → StoreIo → Ctx → ℕ → Result (List FileError) ℕ × FileState
acquire_file_writer st io c lock = elim (and_then (ctx_error (c 0)) (ctx_error (c 1))) [
  | some e ↦ (err (e ∷ []), st)
  | none ↦
      if is_some st.writer
      then (err (store_error StoreError.in_use ∷ []), st)
      else elim io.lock_error [
        | some e ↦ (err (e ∷ []), st)
        | none ↦ elim (c 2) [
          | some e ↦ (err (join (some (context_done e) ∷ as_io io.unlock_error ∷ [])), st)
          | none ↦ (ok lock, record st { writer = some lock })
        ]
      ]
]

-- `fileSessionLock`: a lock knows whether it was released.
pub record FileLock : Type 0 where
  pub lock : ℕ
  pub released : Bool

-- `fileSessionLock.Release`
unfoldable pub release_file_writer :
    FileState → StoreIo → FileLock → List FileError × (FileState × FileLock)
release_file_writer st io l = if l.released then ([], (st, l)) else (
  join (as_io io.unlock_error ∷ []),
  (record st { writer = none }, record l { released = true }),
)

-- What the calls on the temporary file, the link and the directory return in `Create`.
pub record CreateIo : Type 0 where
  pub temp_error : Option ℕ
  pub chmod_error : Option ℕ
  pub write_error : Option ℕ
  pub bytes_written : ℕ
  pub sync_error : Option ℕ
  pub close_error : Option ℕ
  pub link_error : Option ℕ
  pub directory_error : Option ℕ
  pub new_stamp : ℕ

-- The errors of writing the temporary file; `looked` is the context after its `Chmod`.
abbrev pub temp_errors : CreateIo → Option FileError → Text → List FileError
temp_errors io looked bytes = join (
    and_then
      (and_then (and_then (as_io io.chmod_error) looked) (
        and_then (as_io io.write_error)
          (if io.bytes_written == length bytes then none else some short_write)))
      (as_io io.sync_error)
    ∷ as_io io.close_error
    ∷ [])

-- The state of a session just created, of `n` bytes.
abbrev pub created_state : FileState → Snapshot → ℕ → ℕ → FileState
created_state st committed n stamp = record st {
  snapshot = committed;
  committed_offset = n;
  file_size = n;
  info = stamp;
  needs_separator = false;
  needs_recovery = false;
  loaded = true;
}

-- `Create` from the link on: the file is there, complete, or it is not.
unfoldable pub link_created :
    FileState → Disk → StoreIo → CreateIo → Snapshot → Text → Outcome (Unit {0})
link_created st d io cio committed bytes = elim d.content [
  | some text ↦ (err (store_error StoreError.exists ∷ []), (st, d))
  | none ↦ elim cio.link_error [
    | some e ↦ (err (io_error e ∷ []), (st, d))
    | none ↦
        let d' = with_file d bytes cio.new_stamp in
        elim (and_then (as_io cio.directory_error) (as_io io.lstat_error)) [
          | some e ↦ (err (e ∷ []), (st, d'))
          | none ↦ (ok tt, (created_state st committed (length bytes) cio.new_stamp, d'))
        ]
  ]
]

-- `Create` behind the guard. Its looks at the context are 0 (before the file is made) and 1.
unfoldable pub create_guarded :
    Codec → FileState → Disk → StoreIo → CreateIo → Ctx → Snapshot → (ℕ → ℕ) → Outcome (Unit {0})
unfolding link_created
create_guarded cd st d io cio c s clock = elim (apply_all empty_snapshot (creation s clock)) [
  | err e ↦ (err (store_error e ∷ []), (st, d))
  | ok committed ↦ elim (encode cd (creation s clock)) [
    | none ↦ (err (not_encodable ∷ []), (st, d))
    | some bytes ↦ elim (and_then (ctx_error (c 0)) (as_io cio.temp_error)) [
      | some e ↦ (err (e ∷ []), (st, d))
      | none ↦ elim (temp_errors cio (ctx_error (c 1)) bytes) [
        | e ∷ es ↦ (err (e ∷ es), (st, d))
        | [] ↦ link_created st d io cio committed bytes
      ]
    ]
  ]
]

-- `FileStore.Create`; `clock` gives the times of the message events.
unfoldable pub create_file :
    Codec → FileState → Disk → StoreIo → CreateIo → Ctx → Snapshot → (ℕ → ℕ) → Outcome (Unit {0})
unfolding create_guarded
create_file cd st d io cio c s clock = elim (ctx_error (c 0)) [
  | some e ↦ (err (e ∷ []), (st, d))
  | none ↦
      if is_empty s.metadata.id
      then (err (store_error StoreError.id_required ∷ []), (st, d))
      else elim (guard_error st io (c 1)) [
        | some e ↦ (err (e ∷ []), (st, d))
        | none ↦ releasing st io (create_guarded cd st d io cio (λ i. c (i + 2)) s clock)
      ]
]

-- What a call of `Load` returns of what it loaded.
abbrev pub loaded_snapshot : Outcome (Unit {0}) → Outcome Snapshot
loaded_snapshot (err es, o) = (err es, o)
loaded_snapshot (ok u, (st, d)) = (ok st.snapshot, (st, d))

-- `FileStore.Load`: only the owner of the writer's lock trusts what it has cached.
unfoldable pub load_session : Codec → FileState → Disk → StoreIo → Ctx → Text → Outcome Snapshot
load_session cd st d io c id = elim (ctx_error (c 0)) [
  | some e ↦ (err (e ∷ []), (st, d))
  | none ↦
      let loaded =
        loaded_snapshot (ensure_loaded cd st d io (λ i. c (i + 2)) id (not (is_some st.writer))) in
      if st.needs_recovery
      then elim (guard_error st io (c 1)) [
        | some e ↦ (err (e ∷ []), (st, d))
        | none ↦ releasing st io loaded
      ]
      else loaded
]

abbrev removed : FileState → FileState
removed st = record st { loaded = false; needs_recovery = false }

-- `Delete` behind the guard.
unfoldable pub delete_guarded : FileState → Disk → Option ℕ → Option ℕ → Ctx → Outcome (Unit {0})
delete_guarded st d remove_error directory_error c = elim (ctx_error (c 0)) [
  | some e ↦ (err (e ∷ []), (st, d))
  | none ↦ elim d.content [
    | none ↦ (err (store_error StoreError.not_found ∷ []), (st, d))
    | some text ↦ elim remove_error [
      | some e ↦ (err (io_error e ∷ []), (st, d))
      | none ↦ elim directory_error [
        | some e ↦ (err (io_error e ∷ []), (removed st, record d { content = none }))
        | none ↦ (ok tt, (removed st, record d { content = none }))
      ]
    ]
  ]
]

-- `FileStore.Delete`; `remove_error` is that of `os.Remove` on a file that is there.
unfoldable pub delete_file :
    FileState → Disk → StoreIo → Option ℕ → Option ℕ → Ctx → Outcome (Unit {0})
unfolding delete_guarded
delete_file st d io remove_error directory_error c = elim (ctx_error (c 0)) [
  | some e ↦ (err (e ∷ []), (st, d))
  | none ↦
      if is_some st.writer
      then (err (store_error StoreError.in_use ∷ []), (st, d))
      else elim (guard_error st io (c 1)) [
        | some e ↦ (err (e ∷ []), (st, d))
        | none ↦ releasing st io (delete_guarded st d remove_error directory_error (λ i. c (i + 2)))
      ]
]
