-- ===== src/SessionStore/File/Invariant.antt =====
-- internal/sessionstore/file.go: what the cached state of a session's file says of the file, and that
-- recovery and `ensureLoaded` keep it.
use go_tiny_claw.Base.{
  ℕ, ◌≤◌, true, false, List, [], ◌∷◌, Option, none, some, Text, text_eq, is_ok, ok, length, take,
  ◌≡◌, ◌⊎◌, inl, inr, refl, sym, arith, subst, Option-cases, length-take, take-length, take-take,
}
use go_tiny_claw.SessionStore.{Snapshot}
use go_tiny_claw.SessionStore.Log.{Codec, replay}
use go_tiny_claw.SessionStore.Log.Held.{Holds, Holds-replay}
use go_tiny_claw.SessionStore.File.{
  FileState, Disk, FileIo, Outcome, recover_failed_commit, recover_opened, recover_done,
  recover_errors, rolled_back, with_file, FileError,
}
use go_tiny_claw.SessionStore.File.Reading.{unchanged}

-- Up to the committed offset, the text is what the cached snapshot was built from.
abbrev pub Committed : Codec → Text → FileState → Text → Type 0
Committed cd id st text =
    (st.committed_offset ≤ length text)
    × Holds cd (take st.committed_offset text) st.needs_separator st.snapshot
    × (st.snapshot.metadata.id ≡ id)

-- The invariant. A commit that is to be rolled back has left the committed part of the file alone; and
-- of a file that looks as it did when it was read or written last, the snapshot is what it replays to.
abbrev pub Inv : Codec → Text → FileState → Disk → Type 0
Inv cd id st d =
    (st.needs_recovery ≡ true → (text : Text) × (d.content ≡ some text) × Committed cd id st text)
    × ((text : Text)
        → st.needs_recovery ≡ false
        → d.content ≡ some text
        → unchanged st d text ≡ true
        → Committed cd id st text × (replay cd text ≡ ok (st.snapshot, st.committed_offset)))

-- The session that the store has: what the file replays to, or the snapshot to which a failed commit is
-- to be rolled back.
abbrev pub View : Codec → Text → FileState → Disk → Snapshot → Type 0
View cd id st d s =
    (st.needs_recovery ≡ true → st.snapshot ≡ s)
    × (st.needs_recovery ≡ false
        → (text : Text) × (n : ℕ) × (d.content ≡ some text) × (replay cd text ≡ ok (s, n)))
    × (s.metadata.id ≡ id)

-- The snapshot is that of the file.
abbrev pub Ready : Codec → Text → FileState → Disk → Type 0
Ready cd id st d =
    (st.needs_recovery ≡ false)
    × (text : Text) × (d.content ≡ some text)
    × Committed cd id st text
    × (replay cd text ≡ ok (st.snapshot, st.committed_offset))
    × (length text ≡ st.file_size)

pub Ready-Inv :
    (cd : Codec) (id : Text) (st : FileState) (d : Disk) → Ready cd id st d → Inv cd id st d
Ready-Inv cd id st d (live, text, at, committed, found, size) = (
  λ e. ground arith,
  λ t e f u.
      subst (λ x. Committed cd id st x × (replay cd x ≡ ok (st.snapshot, st.committed_offset)))
        (ground arith) (committed, found),
)

pub Ready-View :
    (cd : Codec) (id : Text) (st : FileState) (d : Disk)
    → Ready cd id st d
    → View cd id st d st.snapshot
Ready-View cd id st d (live, text, at, committed, found, size) =
    (λ e. refl, λ e. (text, st.committed_offset, at, found), committed.2)

-- The text that a rollback leaves, whether or not it got so far.
pub Committed-cut :
    (cd : Codec) (id : Text) (st : FileState) (text : Text)
    → Committed cd id st text
    → Committed cd id st (take st.committed_offset text)
Committed-cut cd id st text (le, held, same) = (
  omega (arith, length-take st.committed_offset text),
  rw (take-take st.committed_offset text) held,
  same,
)

-- A commit that is to be rolled back.
abbrev pub Pending : Codec → Text → FileState → Disk → Type 0
Pending cd id st d =
    (st.needs_recovery ≡ true) × (text : Text) × (d.content ≡ some text) × Committed cd id st text

abbrev pub Settled : Codec → Text → Snapshot → Outcome (Unit {0}) → Type 0
Settled cd id s o =
    (o.1.0.snapshot ≡ s)
    × (((is_ok o.0 ≡ true) × Ready cd id o.1.0 o.1.1)
        ⊎ ((is_ok o.0 ≡ false) × Pending cd id o.1.0 o.1.1))

recover_done-Settled :
    (cd : Codec) (id : Text) (st : FileState) (d : Disk) (kept : Text) (stamp : ℕ)
    (es : List FileError)
    → st.needs_recovery ≡ true
    → Committed cd id st kept
    → (es ≡ [] → length kept ≡ st.committed_offset)
    → Settled cd id st.snapshot (recover_done st (with_file d kept stamp) stamp es)
unfolding recover_done
recover_done-Settled cd id st d kept stamp (e ∷ es) pending committed cut =
    (refl, inr (refl, (pending, kept, refl, committed)))
recover_done-Settled cd id st d kept stamp [] pending committed cut =
    let size = cut refl in
    let all_there : take st.committed_offset kept ≡ kept = rw (sym size) (take-length kept) in
    let found =
      Holds-replay cd kept st.needs_separator st.snapshot
        (subst (λ x. Holds cd x st.needs_separator st.snapshot) all_there committed.1) in
    (refl, inl (refl, (refl, kept, refl, committed, rw (sym size) found, size)))

rolled_back-Committed :
    (cd : Codec) (id : Text) (st : FileState) (io : FileIo) (text : Text) (failed : Option ℕ)
    → Committed cd id st text
    → Committed cd id st (rolled_back st.committed_offset failed text)
      × (recover_errors io failed ≡ []
          → length (rolled_back st.committed_offset failed text) ≡ st.committed_offset)
rolled_back-Committed cd id st io text none committed = (
  Committed-cut cd id st text committed,
  λ e. omega (arith, length-take st.committed_offset text, committed.0),
)
rolled_back-Committed cd id st io text (some e) committed = (committed, λ f. ground arith)

recover_opened-Settled :
    (cd : Codec) (id : Text) (st : FileState) (d : Disk) (io : FileIo) (text : Text)
    → st.needs_recovery ≡ true
    → Committed cd id st text
    → Settled cd id st.snapshot (recover_opened st d io text)
unfolding recover_opened
recover_opened-Settled cd id st d io text pending committed =
    let (kept, cut) = rolled_back-Committed cd id st io text io.truncate_error committed in
    recover_done-Settled cd id st d (rolled_back st.committed_offset io.truncate_error text)
      io.new_stamp (recover_errors io io.truncate_error) pending kept cut

-- A rollback makes the snapshot that of the file, or it leaves all to be done again.
pub recover-Settled :
    (cd : Codec) (id : Text) (st : FileState) (d : Disk) (io : FileIo)
    → Pending cd id st d
    → Settled cd id st.snapshot (recover_failed_commit st d io)
unfolding recover_failed_commit
recover-Settled cd id st d io (pending, text, at, committed) = elim (Option-cases io.open_error) [
  | inr (e, f) ↦ rw f (refl, inr (refl, (pending, text, at, committed)))
  | inl f ↦ rw (f, at) (recover_opened-Settled cd id st d io text pending committed)
]
