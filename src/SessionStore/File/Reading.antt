-- ===== src/SessionStore/File/Reading.antt =====
-- internal/sessionstore/file.go: `ensureLoaded`, by which an operation gets the session's snapshot.
use go_tiny_claw.Base.{
  Bool, true, false, ◌&&◌, not, [], ◌∷◌, none, some, if◌then◌else◌, ◌==◌, ltb, Text, text_eq, ◌≟◌,
  ok, err, Ctx, length,
}
use go_tiny_claw.SessionStore.{StoreError}
use go_tiny_claw.SessionStore.Log.{Codec, replay, last_is_newline}
use go_tiny_claw.SessionStore.File.{
  context_done, store_error, io_error, FileState, Disk, StoreIo, Outcome, recover_failed_commit,
}

-- The end of `ensureLoaded`: the file is read and replayed.
unfoldable pub read_again :
    Codec → FileState → Disk → StoreIo → Ctx → Text → Text → Outcome (Unit {0})
read_again cd st d io c id text = elim io.read_error [
  | some e ↦ (err (io_error e ∷ []), (st, d))
  | none ↦ elim (c 1) [
    | some e ↦ (err (context_done e ∷ []), (st, d))
    | none ↦ elim (replay cd text) [
      | err e ↦ (err (store_error e ∷ []), (st, d))
      | ok r ↦
          if not (r.0.metadata.id ≟ id)
          then (err (store_error StoreError.corrupted ∷ []), (st, d))
          else elim (c 2) [
            | some e ↦ (err (context_done e ∷ []), (st, d))
            | none ↦ (
              ok tt,
              (
                record st {
                  loaded = true;
                  snapshot = r.0;
                  committed_offset = r.1;
                  file_size = length text;
                  info = d.stamp;
                  needs_separator = ltb 0 r.1 && not (last_is_newline text r.1);
                },
                d,
              ),
            )
          ]
    ]
  ]
]

-- The file is the one that was read last, by its size, identity and time.
abbrev pub unchanged : FileState → Disk → Text → Bool
unchanged st d text = st.loaded && (length text == st.file_size) && (d.stamp == st.info)

-- `ensureLoaded` behind its recovery. An error of `sessionFileInfo` other than a missing file is
-- `lstat_error`.
unfoldable pub load_file :
    Codec → FileState → Disk → StoreIo → Ctx → Text → Bool → Outcome (Unit {0})
unfolding read_again
load_file cd st d io c id fresh = elim d.content [
  | none ↦ (err (store_error StoreError.not_found ∷ []), (record st { loaded = false }, d))
  | some text ↦ elim io.lstat_error [
    | some e ↦ (err (io_error e ∷ []), (record st { loaded = false }, d))
    | none ↦
        if not fresh && unchanged st d text
        then elim (c 1) [ some e ↦ (err (context_done e ∷ []), (st, d)) | none ↦ (ok tt, (st, d)) ]
        else read_again cd (record st { loaded = false }) d io c id text
  ]
]

-- The recovery of `ensureLoaded`.
unfoldable pub recovered_first : FileState → Disk → StoreIo → Outcome (Unit {0})
unfolding recover_failed_commit
recovered_first st d io =
    if st.needs_recovery then recover_failed_commit st d io.recovery else (ok tt, (st, d))

unfoldable pub after_recovery :
    Codec → StoreIo → Ctx → Text → Bool → Outcome (Unit {0}) → Outcome (Unit {0})
unfolding load_file
after_recovery cd io c id fresh (err es, o) = (err es, o)
after_recovery cd io c id fresh (ok u, (st, d)) = load_file cd st d io c id fresh

-- `ensureLoaded`
unfoldable pub ensure_loaded :
    Codec → FileState → Disk → StoreIo → Ctx → Text → Bool → Outcome (Unit {0})
unfolding recovered_first after_recovery
ensure_loaded cd st d io c id fresh = elim (c 0) [
  | some e ↦ (err (context_done e ∷ []), (st, d))
  | none ↦ after_recovery cd io c id fresh (recovered_first st d io)
]
