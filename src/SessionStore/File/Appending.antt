-- ===== src/SessionStore/File/Appending.antt =====
-- internal/sessionstore/file.go: `Append`.
use go_tiny_claw.Base.{
  ℕ, ◌+◌, Bool, true, false, List, [], ◌∷◌, ◌++◌, Option, none, some, if◌then◌else◌, ◌==◌, Text,
  text_eq, is_some, Result, ok, err, Ctx, CtxErr, length, take, drop,
}
use go_tiny_claw.SessionStore.{Snapshot, Event, apply_all}
use go_tiny_claw.SessionStore.Log.{Codec, encode}
use go_tiny_claw.SessionStore.File.{
  FileError, context_done, store_error, io_error, not_exist, short_write, not_encodable, FileState,
  Disk, FileIo, StoreIo, Outcome, as_io, and_then, join, ctx_error, with_file,
  recover_failed_commit,
}
use go_tiny_claw.SessionStore.File.Reading.{ensure_loaded}

-- The first error of `Append` between the opening of the file and its closing.
abbrev pub start_error : Option CtxErr → FileIo → Option FileError
start_error looked io = and_then (ctx_error looked) (as_io io.chmod_error)

abbrev pub seek_failed : FileState → Option CtxErr → FileIo → Option FileError
seek_failed st looked io =
    and_then
      (and_then (start_error looked io)
        (if st.file_size == st.committed_offset then none else as_io io.truncate_error))
      (as_io io.seek_error)

abbrev pub write_result : Text → FileIo → Option FileError
write_result bytes io =
    and_then (as_io io.write_error)
      (if io.bytes_written == length bytes then none else some short_write)

-- The content after the truncation, which goes ahead if it was to and did not fail.
abbrev pub truncated : FileState → Option CtxErr → FileIo → Text → Text
truncated st looked io text =
    if st.file_size == st.committed_offset
    then text
    else if is_some (and_then (start_error looked io) (as_io io.truncate_error))
    then text
    else take st.committed_offset text

-- A write at an offset.
abbrev pub write_at : ℕ → Text → Text → Text
write_at n bytes text = take n text ++ bytes ++ drop (n + length bytes) text

-- The content after the write, of which some first bytes arrive.
unfoldable pub written_content : FileState → Option CtxErr → FileIo → Text → Text → Text
written_content st looked io bytes text =
    let text' = truncated st looked io text in
    if is_some (seek_failed st looked io)
    then text'
    else write_at st.committed_offset (take io.bytes_written bytes) text'

-- The errors of a commit, joined.
unfoldable pub commit_errors : FileState → Option CtxErr → FileIo → Text → List FileError
commit_errors st looked io bytes = join (
    and_then (and_then (seek_failed st looked io) (write_result bytes io)) (as_io io.sync_error)
    ∷ as_io io.stat_error
    ∷ as_io io.close_error
    ∷ [])

-- The rollback of a commit that failed.
unfoldable pub after_rollback : List FileError → Outcome (Unit {0}) → Outcome (Unit {0})
after_rollback es (err fs, o) = (err (es ++ fs), o)
after_rollback es (ok u, o) = (err es, o)

unfoldable pub failed_commit :
    FileState → Disk → StoreIo → Option CtxErr → List FileError → Outcome (Unit {0})
unfolding recover_failed_commit after_rollback
failed_commit st d io looked es =
    if is_some (start_error looked io.commit)
    then (err es, (st, d))
    else after_rollback es
        (recover_failed_commit (record st { needs_recovery = true }) d io.rollback)

-- The state that publishes a batch of `n` bytes.
abbrev pub published : FileState → Snapshot → ℕ → ℕ → FileState
published st next n stamp = record st {
  snapshot = next;
  committed_offset = st.committed_offset + n;
  file_size = st.committed_offset + n;
  info = stamp;
  needs_separator = false;
}

-- The end of a commit, by its errors joined.
unfoldable pub commit_done :
    FileState → Disk → StoreIo → Option CtxErr → ℕ → Snapshot → List FileError → Outcome (Unit {0})
unfolding failed_commit
commit_done st d io looked n next (e ∷ es) = failed_commit st d io looked (e ∷ es)
commit_done st d io looked n next [] = (ok tt, (published st next n io.commit.new_stamp, d))

-- `Append` from the opening of the file on.
unfoldable pub commit_bytes :
    FileState → Disk → StoreIo → Option CtxErr → Text → Snapshot → Text → Outcome (Unit {0})
unfolding written_content commit_errors commit_done
commit_bytes st d io looked bytes next text =
    commit_done st
      (with_file d (written_content st looked io.commit bytes text) io.commit.new_stamp) io looked
      (length bytes) next (commit_errors st looked io.commit bytes)

-- `mutationGuard`: without a writer the lock is taken for the length of the operation.
abbrev pub guard_error : FileState → StoreIo → Option CtxErr → Option FileError
guard_error st io looked = elim looked [
  | some e ↦ some (context_done e)
  | none ↦ if is_some st.writer then none else io.lock_error
]

-- What the guard took is released in the end, and its error joined.
abbrev pub release_error : FileState → StoreIo → List FileError
release_error st io = if is_some st.writer then [] else join (as_io io.unlock_error ∷ [])

abbrev pub released_result :
    {A : Type 0} → List FileError → Result (List FileError) A → Result (List FileError) A
released_result [] r = r
released_result (e ∷ es) (ok a) = err (e ∷ es)
released_result (e ∷ es) (err fs) = err (fs ++ e ∷ es)

abbrev pub releasing : {A : Type 0} → FileState → StoreIo → Outcome A → Outcome A
releasing st io o = (released_result (release_error st io) o.0, o.1)

-- The bytes of a batch, with the newline that a last line lacks.
abbrev pub separated : Bool → Text → Text
separated needed bytes = if needed then b'\n' ∷ bytes else bytes

unfoldable pub open_and_commit :
    FileState → Disk → StoreIo → Ctx → Text → Snapshot → Outcome (Unit {0})
unfolding commit_bytes
open_and_commit st d io c bytes next = elim (c 0) [
  | some e ↦ (err (context_done e ∷ []), (st, d))
  | none ↦ elim io.commit.open_error [
    | some e ↦ (err (io_error e ∷ []), (st, d))
    | none ↦ elim d.content [
      | none ↦ (err (not_exist ∷ []), (st, d))
      | some text ↦ commit_bytes st d io (c 1) bytes next text
    ]
  ]
]

-- `Append` behind `ensureLoaded`.
unfoldable pub append_loaded :
    Codec → FileState → Disk → StoreIo → Ctx → List Event → Outcome (Unit {0})
unfolding open_and_commit
append_loaded cd st d io c [] = (ok tt, (st, d))
append_loaded cd st d io c (e ∷ es) = elim (apply_all st.snapshot (e ∷ es)) [
  | err x ↦ (err (store_error x ∷ []), (st, d))
  | ok next ↦ elim (encode cd (e ∷ es)) [
    | none ↦ (err (not_encodable ∷ []), (st, d))
    | some bytes ↦ open_and_commit st d io c (separated st.needs_separator bytes) next
  ]
]

unfoldable pub append_after :
    Codec → StoreIo → Ctx → List Event → Outcome (Unit {0}) → Outcome (Unit {0})
unfolding append_loaded
append_after cd io c es (err xs, o) = (err xs, o)
append_after cd io c es (ok u, (st, d)) = append_loaded cd st d io c es

-- `FileStore.Append`. Its looks at the context are 0 (itself), 1 (the guard), 2 to 4 (`ensureLoaded`),
-- 5 and 6 (before and after the file is opened).
unfoldable pub append_file :
    Codec → FileState → Disk → StoreIo → Ctx → Text → List Event → Outcome (Unit {0})
unfolding append_after
append_file cd st d io c id es = elim (ctx_error (c 0)) [
  | some e ↦ (err (e ∷ []), (st, d))
  | none ↦ elim (guard_error st io (c 1)) [
    | some e ↦ (err (e ∷ []), (st, d))
    | none ↦ releasing st io (
        append_after cd io (λ i. c (i + 5)) es (ensure_loaded cd st d io (λ i. c (i + 2)) id false))
  ]
]
