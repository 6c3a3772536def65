-- ===== src/SessionStore/File/Written.antt =====
-- internal/sessionstore/file.go: what a commit leaves in the file.
use go_tiny_claw.Base.{
  ◌+◌, ◌≤◌, true, List, [], ◌∷◌, ◌++◌, Option, none, some, if◌then◌else◌, ◌==◌, ==_iff, Text,
  text_eq, is_some, CtxErr, length, drop, take-take-append, drop-beyond, length-append, append-nil,
  append_assoc, take, ◌≡◌, inl, inr, refl, sym, arith, subst, Bool-cases, length-take, take-length,
  take-take,
}
use go_tiny_claw.SessionStore.Log.{Codec}
use go_tiny_claw.SessionStore.File.{FileState, FileIo, join, and_then, as_io, FileError}
use go_tiny_claw.SessionStore.File.Invariant.{Committed, Committed-cut}
use go_tiny_claw.SessionStore.File.Appending.{
  start_error, seek_failed, truncated, write_result, written_content, commit_errors,
}

and_then-none : (a b : Option FileError) → and_then a b ≡ none → (a ≡ none) × (b ≡ none)
and_then-none none b h = (refl, h)
and_then-none (some x) b h = ground arith

join-none : (a : Option FileError) (es : List (Option FileError)) → join (a ∷ es) ≡ [] → a ≡ none
join-none none es h = refl
join-none (some e) es h = ground arith

-- Nothing that is put behind the committed part changes it.
behind-Committed :
    (cd : Codec) (id : Text) (st : FileState) (text rest : Text)
    → Committed cd id st text
    → Committed cd id st (take st.committed_offset text ++ rest)
behind-Committed cd id st text rest (le, held, same) = (
  omega (
    arith,
    length-append (take st.committed_offset text) rest,
    length-take st.committed_offset text,
  ),
  rw (take-take-append st.committed_offset text rest le) held,
  same,
)

truncated-Committed :
    (cd : Codec) (id : Text) (st : FileState) (looked : Option CtxErr) (io : FileIo) (text : Text)
    → Committed cd id st text
    → Committed cd id st (truncated st looked io text)
truncated-Committed cd id st looked io text committed =
    let cut = Committed-cut cd id st text committed in
    elim (Bool-cases (st.file_size == st.committed_offset)) [
      | inl e ↦ rw e committed
      | inr e ↦
          elim (Bool-cases (is_some (and_then (start_error looked io) (as_io io.truncate_error)))) [
            | inl f ↦ rw (e, f) committed
            | inr f ↦ rw (e, f) cut
          ]
    ]

-- The file after the writing: the committed part is alone or followed by what was there, or some first
-- bytes of the batch are behind it.
pub written_content-Committed :
    (cd : Codec) (id : Text) (st : FileState) (looked : Option CtxErr) (io : FileIo)
    (bytes text : Text)
    → Committed cd id st text
    → Committed cd id st (written_content st looked io bytes text)
unfolding written_content
written_content-Committed cd id st looked io bytes text committed =
    let text' = truncated st looked io text in
    let kept = truncated-Committed cd id st looked io text committed in
    let part = take io.bytes_written bytes in
    let rest = drop (st.committed_offset + length part) text' in
    elim (Bool-cases (is_some (seek_failed st looked io))) [
      | inl e ↦ subst (Committed cd id st) (ground arith) kept
      | inr e ↦
          subst (Committed cd id st) {x = take st.committed_offset text' ++ (part ++ rest)}
            (ground (arith, append_assoc (take st.committed_offset text') part rest))
            (behind-Committed cd id st text' (part ++ rest) kept)
    ]

truncated-cut :
    (st : FileState) (looked : Option CtxErr) (io : FileIo) (text : Text)
    → length text ≡ st.file_size
    → seek_failed st looked io ≡ none
    → truncated st looked io text ≡ take st.committed_offset text
truncated-cut st looked io text size sought =
    elim (Bool-cases (st.file_size == st.committed_offset)) [
      | inl e ↦
          let whole : length text ≡ st.committed_offset =
            ground (arith, ==_iff st.file_size st.committed_offset) in
          rw (e, sym whole) (sym (take-length text))
      | inr e ↦
          let first =
            (and_then-none
              (and_then (start_error looked io)
                (if st.file_size == st.committed_offset then none else as_io io.truncate_error))
              (as_io io.seek_error) sought).0 in
          let went : and_then (start_error looked io) (as_io io.truncate_error) ≡ none =
            ground arith in
          rw (e, went) refl
    ]

-- If nothing failed, the batch stands behind the committed part, and nothing else.
pub written_content-whole :
    (st : FileState) (looked : Option CtxErr) (io : FileIo) (bytes text : Text)
    → st.committed_offset ≤ length text
    → length text ≡ st.file_size
    → commit_errors st looked io bytes ≡ []
    → written_content st looked io bytes text ≡ take st.committed_offset text ++ bytes
unfolding written_content commit_errors
written_content-whole st looked io bytes text le size fine =
    let n = st.committed_offset in
    let (wrote, synced) =
      and_then-none (and_then (seek_failed st looked io) (write_result bytes io))
        (as_io io.sync_error)
        (join-none
          (and_then (and_then (seek_failed st looked io) (write_result bytes io))
            (as_io io.sync_error))
          (as_io io.stat_error ∷ as_io io.close_error ∷ []) fine) in
    let (sought, all_written) =
      and_then-none (seek_failed st looked io) (write_result bytes io) wrote in
    let count : io.bytes_written ≡ length bytes =
      ground (arith, ==_iff io.bytes_written (length bytes)) in
    let cut : truncated st looked io text ≡ take n text =
      truncated-cut st looked io text size sought in
    let part : take io.bytes_written bytes ≡ bytes = rw count (take-length bytes) in
    rw
      (
        sought,
        part,
        cut,
        take-take n text,
        drop-beyond (n + length bytes) (take n text) (omega (arith, length-take n text)),
      )
      (append-nil (take n text ++ bytes))

-- If the commit did not get past its last look at the context, the file is as it was.
pub written_content-unstarted :
    (st : FileState) (looked : Option CtxErr) (io : FileIo) (bytes text : Text)
    → is_some (start_error looked io) ≡ true
    → (written_content st looked io bytes text ≡ text)
unfolding written_content
written_content-unstarted st looked io bytes text started = ground arith
