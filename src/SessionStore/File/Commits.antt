-- ===== src/SessionStore/File/Commits.antt =====
-- internal/sessionstore/file.go: what a commit, and its rollback, make of a ready state.
use go_tiny_claw.Base.{
  ℕ, ◌+◌, ◌≤◌, true, false, List, [], ◌∷◌, ◌++◌, Option, some, Text, text_eq, is_some, is_ok, ok,
  err, CtxErr, length, length-append, All-map, take, ◌≡◌, ◌⊎◌, inl, inr, refl, sym, ap, ◌∙◌, arith,
  subst, Bool-cases, length-take, take-length,
}
use go_tiny_claw.SessionStore.{Snapshot, Event, apply_all}
use go_tiny_claw.SessionStore.Replay.{apply_all-id}
use go_tiny_claw.SessionStore.Log.Laws.{Survive, encode-written}
use go_tiny_claw.SessionStore.Log.{Codec, encode}
use go_tiny_claw.SessionStore.Log.Held.{Holds, Holds-replay}
use go_tiny_claw.SessionStore.Log.Growing.{Holds-append}
use go_tiny_claw.SessionStore.File.{
  FileState, Disk, StoreIo, Outcome, recover_failed_commit, with_file, FileError,
}
use go_tiny_claw.SessionStore.File.Invariant.{
  Committed, Inv, View, Ready, recover-Settled, Ready-Inv, Ready-View,
}
use go_tiny_claw.SessionStore.File.Loaded.{Settled-Inv}
use go_tiny_claw.SessionStore.File.Written.{
  written_content-Committed, written_content-whole, written_content-unstarted,
}
use go_tiny_claw.SessionStore.File.Appending.{
  start_error, written_content, commit_errors, failed_commit, after_rollback, commit_done,
  commit_bytes, published, separated,
}

-- An operation has added the events to the session `s`, or it has failed and left it.
abbrev pub Adds : Codec → Text → Snapshot → List Event → Outcome (Unit {0}) → Type 0
Adds cd id s es o =
    Inv cd id o.1.0 o.1.1
    × (((is_ok o.0 ≡ true) × (t : Snapshot) × (apply_all s es ≡ ok t) × View cd id o.1.0 o.1.1 t)
        ⊎ ((is_ok o.0 ≡ false) × View cd id o.1.0 o.1.1 s))

pub Adds-as :
    (cd : Codec) (id : Text) (s : Snapshot) (es : List Event) (o p : Outcome (Unit {0}))
    → o ≡ p
    → Adds cd id s es p
    → Adds cd id s es o
Adds-as cd id s es o p e h = subst (Adds cd id s es) (sym e) h

pub refused-Adds :
    (cd : Codec) (id : Text) (st : FileState) (d : Disk) (es : List Event) (e : FileError)
    (fs : List FileError)
    → Ready cd id st d
    → Adds cd id st.snapshot es (err (e ∷ fs), (st, d))
refused-Adds cd id st d es e fs ready =
    (Ready-Inv cd id st d ready, inr (refl, Ready-View cd id st d ready))

after_rollback-Adds :
    (cd : Codec) (id : Text) (s : Snapshot) (es : List Event) (fs : List FileError)
    (o : Outcome (Unit {0}))
    → Inv cd id o.1.0 o.1.1
    → View cd id o.1.0 o.1.1 s
    → Adds cd id s es (after_rollback fs o)
unfolding after_rollback
after_rollback-Adds cd id s es fs (err xs, o) inv view = (inv, inr (refl, view))
after_rollback-Adds cd id s es fs (ok u, o) inv view = (inv, inr (refl, view))

same-text-Ready :
    (cd : Codec) (id : Text) (st : FileState) (d : Disk) (text text' : Text) (stamp : ℕ)
    → Ready cd id st d
    → d.content ≡ some text
    → text' ≡ text
    → Ready cd id st (with_file d text' stamp)
same-text-Ready cd id st d text text' stamp (live, x, at', committed, found, size) at same =
    (live, x, ground arith, committed, found, size)

-- The batch stands in the file: the new state is that of the file.
done-Ready :
    (cd : Codec) (id : Text) (st : FileState) (d : Disk) (text text' bytes : Text) (next : Snapshot)
    (stamp : ℕ)
    → st.needs_recovery ≡ false
    → st.committed_offset ≤ length text
    → text' ≡ take st.committed_offset text ++ bytes
    → next.metadata.id ≡ id
    → Holds cd (take st.committed_offset text ++ bytes) false next
    → Ready cd id (published st next (length bytes) stamp) (with_file d text' stamp)
done-Ready cd id st d text text' bytes next stamp live le whole same held =
    let w = take st.committed_offset text ++ bytes in
    let size : length w ≡ st.committed_offset + length bytes = omega (
      arith,
      length-append (take st.committed_offset text) bytes,
      length-take st.committed_offset text,
    ) in
    let all_there : take (st.committed_offset + length bytes) w ≡ w =
      rw (sym size) (take-length w) in
    (
      live,
      w,
      ap some whole,
      (omega (arith, size), subst (λ x. Holds cd x false next) (sym all_there) held, same),
      Holds-replay cd w false next held ∙ ap (λ n. ok (next, n)) size,
      size,
    )

failed_commit-Adds :
    (cd : Codec) (id : Text) (st : FileState) (d : Disk) (io : StoreIo) (looked : Option CtxErr)
    (text text' : Text) (stamp : ℕ) (es : List Event) (e : FileError) (fs : List FileError)
    → Ready cd id st d
    → d.content ≡ some text
    → Committed cd id st text'
    → (is_some (start_error looked io.commit) ≡ true → text' ≡ text)
    → Adds cd id st.snapshot es (failed_commit st (with_file d text' stamp) io looked (e ∷ fs))
unfolding failed_commit
failed_commit-Adds cd id st d io looked text text' stamp es e fs ready at kept alone =
    let d' = with_file d text' stamp in
    elim (Bool-cases (is_some (start_error looked io.commit))) [
      | inl f ↦
          Adds-as cd id st.snapshot es (failed_commit st d' io looked (e ∷ fs))
            (err (e ∷ fs), (st, d')) (ground arith)
            (refused-Adds cd id st d' es e fs
              (same-text-Ready cd id st d text text' stamp ready at (alone f)))
      | inr f ↦
          let st' = record st { needs_recovery = true } in
          let o = recover_failed_commit st' d' io.rollback in
          let settled = recover-Settled cd id st' d' io.rollback (refl, text', refl, kept) in
          let (_, inv, view) = Settled-Inv cd id st.snapshot o kept.2 settled in
          Adds-as cd id st.snapshot es (failed_commit st d' io looked (e ∷ fs))
            (after_rollback (e ∷ fs) o) (ground arith)
            (after_rollback-Adds cd id st.snapshot es (e ∷ fs) o inv view)
    ]

commit_done-Adds :
    (cd : Codec) (id : Text) (st : FileState) (d : Disk) (io : StoreIo) (looked : Option CtxErr)
    (text text' bytes : Text) (next : Snapshot) (es : List Event) (fs : List FileError)
    → Ready cd id st d
    → d.content ≡ some text
    → Committed cd id st text'
    → (is_some (start_error looked io.commit) ≡ true → text' ≡ text)
    → (fs ≡ [] → text' ≡ take st.committed_offset text ++ bytes)
    → apply_all st.snapshot es ≡ ok next
    → Holds cd (take st.committed_offset text ++ bytes) false next
    → Adds cd id st.snapshot es
        (commit_done st (with_file d text' io.commit.new_stamp) io looked (length bytes) next fs)
unfolding commit_done
commit_done-Adds cd id st d io looked text text' bytes next es (e ∷ fs) ready at kept alone whole
      built held =
    failed_commit-Adds cd id st d io looked text text' io.commit.new_stamp es e fs ready at kept
      alone
commit_done-Adds cd id st d io looked text text' bytes next es [] ready at kept alone whole built
      held =
    let (live, x, at', committed, found, size) = ready in
    let same : x ≡ text = ground arith in
    let le : st.committed_offset ≤ length text =
      subst (λ y. st.committed_offset ≤ length y) same committed.0 in
    let has_id = apply_all-id st.snapshot next es committed.1.7 built ∙ committed.2 in
    let st' = published st next (length bytes) io.commit.new_stamp in
    let d' = with_file d text' io.commit.new_stamp in
    let after =
      done-Ready cd id st d text text' bytes next io.commit.new_stamp live le (whole refl) has_id
        held in
    (Ready-Inv cd id st' d' after, inl (refl, next, built, Ready-View cd id st' d' after))

pub commit_bytes-Adds :
    (cd : Codec) (id : Text) (st : FileState) (d : Disk) (io : StoreIo) (looked : Option CtxErr)
    (text bytes : Text) (next : Snapshot) (es : List Event)
    → Ready cd id st d
    → d.content ≡ some text
    → Survive cd es
    → apply_all st.snapshot es ≡ ok next
    → encode cd es ≡ some bytes
    → Adds cd id st.snapshot es
        (commit_bytes st d io looked (separated st.needs_separator bytes) next text)
unfolding commit_bytes
commit_bytes-Adds cd id st d io looked text bytes next es ready at survive built encoded =
    let (live, x, at', committed, found, size) = ready in
    let same : x ≡ text = ground arith in
    let (ps, events, texts, entries, _) = encode-written cd es bytes survive encoded in
    let grown =
      Holds-append cd (take st.committed_offset x) st.needs_separator st.snapshot next ps
        committed.1 (All-map (λ p h. h.0) ps entries) (rw events built) in
    let all_bytes = separated st.needs_separator bytes in
    commit_done-Adds cd id st d io looked text (written_content st looked io.commit all_bytes text)
      all_bytes next es (commit_errors st looked io.commit all_bytes) ready at
      (written_content-Committed cd id st looked io.commit all_bytes text
        (subst (Committed cd id st) same committed))
      (written_content-unstarted st looked io.commit all_bytes text)
      (written_content-whole st looked io.commit all_bytes text
        (subst (λ y. st.committed_offset ≤ length y) same committed.0)
        (ap length (sym same) ∙ size))
      built
      (subst
        (λ y.
          Holds cd (take st.committed_offset y ++ separated st.needs_separator bytes) false next)
        same
        (subst
          (λ b. Holds cd (take st.committed_offset x ++ separated st.needs_separator b) false next)
          texts grown))
