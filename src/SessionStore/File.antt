-- ===== src/SessionStore/File.antt =====
-- internal/sessionstore/file.go: one session of a `FileStore`. The file is its content and a number,
-- which stands for its identity and modification time (`os.SameFile` and `ModTime`). Each call of the
-- operating system may fail: the records below give what the calls of one operation return. A
-- failed call leaves the file as it was, but for a write, of which the first bytes may be there.
-- `errors.Join` is a list of errors. A lock is a number.
pub mod Reading
pub mod Appending
pub mod Lifecycle
pub mod Invariant
pub mod Loaded
pub mod Written
pub mod Commits
pub mod Laws
pub mod Created
mod Examples
use go_tiny_claw.Base.{
  ℕ, suc, ◌+◌, ◌-◌, Bool, true, false, ◌&&◌, not, List, [], ◌∷◌, ◌++◌, Option, none, some,
  if◌then◌else◌, ◌==◌, ltb, Text, text_eq, ◌≟◌, is_empty, is_some, Result, ok, err, Ctx, CtxErr,
  length, take, drop, get_elem?,
}
use go_tiny_claw.SessionStore.{Snapshot, Event, StoreError, apply_all}
use go_tiny_claw.SessionStore.Log.{Codec, encode, replay}

pub data FileError : Type 0 where
  context_done : CtxErr → FileError
  store_error : StoreError → FileError
  io_error : ℕ → FileError
  not_exist short_write not_encodable : FileError

-- `fileSessionState`
pub record FileState : Type 0 where
  pub loaded : Bool
  pub snapshot : Snapshot
  pub committed_offset : ℕ
  pub file_size : ℕ
  pub info : ℕ
  pub needs_separator : Bool
  pub needs_recovery : Bool
  pub writer : Option ℕ

pub record Disk : Type 0 where
  pub content : Option Text
  pub stamp : ℕ

-- What the calls on one `appendFile` return: their errors, the bytes that a write leaves in the file,
-- and the identity and modification time that the file has at the end.
pub record FileIo : Type 0 where
  pub open_error : Option ℕ
  pub chmod_error : Option ℕ
  pub truncate_error : Option ℕ
  pub seek_error : Option ℕ
  pub write_error : Option ℕ
  pub bytes_written : ℕ
  pub sync_error : Option ℕ
  pub stat_error : Option ℕ
  pub close_error : Option ℕ
  pub new_stamp : ℕ

-- What the calls of one operation return.
pub record StoreIo : Type 0 where
  pub lock_error : Option FileError
  pub unlock_error : Option ℕ
  pub lstat_error : Option ℕ
  pub read_error : Option ℕ
  pub recovery : FileIo
  pub commit : FileIo
  pub rollback : FileIo

-- What an operation answers, and the state and the file after it.
abbrev pub Outcome : Type 0 → Type 0
Outcome A = Result (List FileError) A × (FileState × Disk)

abbrev pub as_io : Option ℕ → Option FileError
as_io none = none
as_io (some e) = some (io_error e)

-- `if err == nil { err = … }`
abbrev pub and_then : Option FileError → Option FileError → Option FileError
and_then none e = e
and_then (some x) e = some x

-- `errors.Join`
abbrev pub join : List (Option FileError) → List FileError
join [] = []
join (none ∷ es) = join es
join (some e ∷ es) = e ∷ join es

abbrev pub ctx_error : Option CtxErr → Option FileError
ctx_error none = none
ctx_error (some e) = some (context_done e)

abbrev pub with_file : Disk → Text → ℕ → Disk
with_file d text stamp = record d { content = some text; stamp = stamp }

-- The end of a rollback, by the errors joined.
unfoldable pub recover_done : FileState → Disk → ℕ → List FileError → Outcome (Unit {0})
recover_done st d stamp (e ∷ es) = (err (e ∷ es), (st, d))
recover_done st d stamp [] = (
  ok tt,
  (record st { file_size = st.committed_offset; info = stamp; needs_recovery = false }, d),
)

-- The content that a rollback leaves, and its errors.
abbrev pub rolled_back : ℕ → Option ℕ → Text → Text
rolled_back n none text = take n text
rolled_back n (some e) text = text

abbrev pub recover_errors : FileIo → Option ℕ → List FileError
recover_errors io truncate_error = join (
    and_then (as_io truncate_error) (as_io io.sync_error)
    ∷ as_io io.stat_error
    ∷ as_io io.close_error
    ∷ [])

unfoldable pub recover_opened : FileState → Disk → FileIo → Text → Outcome (Unit {0})
unfolding recover_done
recover_opened st d io text =
    recover_done st
      (with_file d (rolled_back st.committed_offset io.truncate_error text) io.new_stamp)
      io.new_stamp (recover_errors io io.truncate_error)

-- `recoverFailedCommit`
unfoldable pub recover_failed_commit : FileState → Disk → FileIo → Outcome (Unit {0})
unfolding recover_opened
recover_failed_commit st d io = elim io.open_error [
  | some e ↦ (err (io_error e ∷ []), (st, d))
  | none ↦ elim d.content [
    | none ↦ (err (not_exist ∷ []), (st, d))
    | some text ↦ recover_opened st d io text
  ]
]
