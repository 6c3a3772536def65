-- ===== src/SessionStore/File/Created.antt =====
-- internal/sessionstore/file.go: a session that is created is there whole, and `Load` gives what the store has.
use go_tiny_claw.Base.{
  ℕ, ◌+◌, true, false, not, List, [], ◌∷◌, none, some, Text, text_eq, is_empty, is_some, is_ok,
  Result, ok, err, Ctx, length, All, All-map, append-nil, ◌≡◌, ◌≢◌, ◌⊎◌, inl, inr, refl, sym, ap,
  ◌∙◌, arith, subst, Bool-cases, Option-cases, List-cases, Result-cases, take-length,
}
use go_tiny_claw.SessionStore.{Snapshot, apply_all}
use go_tiny_claw.SessionStore.Log.Laws.{Survive, Line, encode-written, written}
use go_tiny_claw.SessionStore.Log.{Codec, encode, replay}
use go_tiny_claw.SessionStore.Log.Held.{Holds, Holds-replay}
use go_tiny_claw.SessionStore.File.{
  FileState, Disk, StoreIo, Outcome, and_then, as_io, ctx_error, with_file, FileError, io_error,
  store_error, not_encodable,
}
use go_tiny_claw.SessionStore.File.Invariant.{Inv, View, Ready, Ready-Inv, Ready-View}
use go_tiny_claw.SessionStore.File.Loaded.{Loads, ensure_loaded-Loads}
use go_tiny_claw.SessionStore.Replay.{creation-replays, SameFacts}
use go_tiny_claw.SessionStore.{StoreError, creation, empty_snapshot}
use go_tiny_claw.SessionStore.File.Lifecycle.{
  create_file, create_guarded, link_created, temp_errors, CreateIo, created_state, load_session,
  loaded_snapshot,
}
use go_tiny_claw.SessionStore.File.Laws.{released-bad}
use go_tiny_claw.SessionStore.File.Appending.{
  guard_error, released_result, release_error, releasing, release_error, released_result,
}
use go_tiny_claw.SessionStore.File.Reading.{ensure_loaded}

-- What the text of a session's file holds is the session `s`, as it was created.
abbrev pub HoldsCreated : Codec → Snapshot → Text → Type 0
HoldsCreated cd s text = (t : Snapshot) × (replay cd text ≡ ok (t, length text)) × SameFacts s t

created-Holds :
    (cd : Codec) (s committed : Snapshot) (clock : ℕ → ℕ) (bytes : Text)
    → s.metadata.id ≢ []
    → Survive cd (creation s clock)
    → apply_all empty_snapshot (creation s clock) ≡ ok committed
    → encode cd (creation s clock) ≡ some bytes
    → Holds cd bytes false committed × SameFacts s committed
created-Holds cd s committed clock bytes id survive built encoded =
    let (ps, events, texts, entries, _) =
      encode-written cd (creation s clock) bytes survive encoded in
    let (t, replayed, same) = creation-replays s clock id in
    let is : t ≡ committed = ground arith in
    let facts = subst (SameFacts s) is same in
    (
      (
        ps,
        none,
        subst (All (Line cd)) (sym (append-nil ps)) (All-map (λ p h. h.0) ps entries),
        tt,
        append-nil (written ps) ∙ texts,
        rw (append-nil ps, events) built,
        refl,
        λ e. id (sym (ap (λ m. m.id) facts.2) ∙ e),
      ),
      facts,
    )

-- What `Create` leaves of the file `d`: the file as it was and an error, or the session in a new file.
abbrev pub Created : Codec → Disk → Snapshot → Outcome (Unit {0}) → Type 0
Created cd d s o =
    ((o.1.1.content ≡ d.content) × (is_ok o.0 ≡ false))
    ⊎ ((text : Text) × (d.content ≡ none)
        × (o.1.1.content ≡ some text)
        × HoldsCreated cd s text
        × (is_ok o.0 ≡ true → Ready cd s.metadata.id o.1.0 o.1.1))

Created-as :
    (cd : Codec) (d : Disk) (s : Snapshot) (o p : Outcome (Unit {0}))
    → o ≡ p
    → Created cd d s p
    → Created cd d s o
Created-as cd d s o p e h = subst (Created cd d s) (sym e) h

released-good :
    (es : List FileError) (r : Result (List FileError) (Unit {0}))
    → is_ok (released_result es r) ≡ true
    → is_ok r ≡ true
released-good [] r h = h
released-good (e ∷ es) (ok u) h = refl
released-good (e ∷ es) (err fs) h = ground arith

releasing-Created :
    (cd : Codec) (d : Disk) (s : Snapshot) (st : FileState) (io : StoreIo) (o : Outcome (Unit {0}))
    → Created cd d s o
    → Created cd d s (releasing st io o)
releasing-Created cd d s st io o (inl (same, bad)) =
    inl (same, released-bad (release_error st io) o.0 bad)
releasing-Created cd d s st io o (inr (text, absent, there, held, good)) =
    inr (text, absent, there, held, λ e. good (released-good (release_error st io) o.0 e))

link_created-Created :
    (cd : Codec) (st : FileState) (d : Disk) (io : StoreIo) (cio : CreateIo)
    (s committed : Snapshot) (bytes : Text)
    → Holds cd bytes false committed
    → SameFacts s committed
    → Created cd d s (link_created st d io cio committed bytes)
unfolding link_created
link_created-Created cd st d io cio s committed bytes held facts =
    let o = link_created st d io cio committed bytes in
    let found = Holds-replay cd bytes false committed held in
    let same = ap (λ m. m.id) facts.2 in
    let d' = with_file d bytes cio.new_stamp in
    let st' = created_state st committed (length bytes) cio.new_stamp in
    elim (Option-cases d.content) [
      | inr (text, e) ↦
          Created-as cd d s o (err (store_error StoreError.exists ∷ []), (st, d)) (ground arith)
            (inl (refl, refl))
      | inl e ↦ elim (Option-cases cio.link_error) [
        | inr (x, f) ↦
            Created-as cd d s o (err (io_error x ∷ []), (st, d)) (ground arith) (inl (refl, refl))
        | inl f ↦
            elim (Option-cases (and_then (as_io cio.directory_error) (as_io io.lstat_error))) [
              | inr (x, g) ↦
                  Created-as cd d s o (err (x ∷ []), (st, d')) (ground arith)
                    (inr (bytes, e, refl, (committed, found, facts), λ k. ground arith))
              | inl g ↦
                  Created-as cd d s o (ok tt, (st', d')) (ground arith)
                    (inr (
                      bytes,
                      e,
                      refl,
                      (committed, found, facts),
                      λ k. (
                        refl,
                        bytes,
                        refl,
                        (
                          omega arith,
                          subst (λ x. Holds cd x false committed) (sym (take-length bytes)) held,
                          same,
                        ),
                        found,
                        refl,
                      ),
                    ))
            ]
      ]
    ]

create_guarded-Created :
    (cd : Codec) (st : FileState) (d : Disk) (io : StoreIo) (cio : CreateIo) (c : Ctx)
    (s : Snapshot) (clock : ℕ → ℕ)
    → s.metadata.id ≢ []
    → Survive cd (creation s clock)
    → Created cd d s (create_guarded cd st d io cio c s clock)
unfolding create_guarded
create_guarded-Created cd st d io cio c s clock id survive =
    let o = create_guarded cd st d io cio c s clock in
    let refused : (e : FileError) (es : List FileError)
        → o ≡ (err (e ∷ es), (st, d))
        → Created cd d s o =
      λ e es f. Created-as cd d s o (err (e ∷ es), (st, d)) f (inl (refl, refl)) in
    elim (Result-cases (apply_all empty_snapshot (creation s clock))) [
      | inr (x, f) ↦ refused (store_error x) [] (ground arith)
      | inl (committed, f) ↦ elim (Option-cases (encode cd (creation s clock))) [
        | inl g ↦ refused not_encodable [] (ground arith)
        | inr (bytes, g) ↦ elim (Option-cases (and_then (ctx_error (c 0)) (as_io cio.temp_error))) [
          | inr (x, h) ↦ refused x [] (ground arith)
          | inl h ↦ elim (List-cases (temp_errors cio (ctx_error (c 1)) bytes)) [
            | inr (x, xs, k) ↦ refused x xs (ground arith)
            | inl k ↦
                let (held, facts) = created-Holds cd s committed clock bytes id survive f g in
                Created-as cd d s o (link_created st d io cio committed bytes) (ground arith)
                  (link_created-Created cd st d io cio s committed bytes held facts)
          ]
        ]
      ]
    ]

-- `Create` writes the session whole or not at all. Either the file is as it was and `Create` fails, or
-- there was no file and there is one now that replays to the session (but for its update time),
-- whatever calls of the operating system fail; and if `Create` succeeds, the cached state is that of
-- the file. The events are such that JSON gives them back.
pub create_file_whole :
    (cd : Codec) (st : FileState) (d : Disk) (io : StoreIo) (cio : CreateIo) (c : Ctx)
    (s : Snapshot) (clock : ℕ → ℕ)
    → Survive cd (creation s clock)
    → Created cd d s (create_file cd st d io cio c s clock)
unfolding create_file
create_file_whole cd st d io cio c s clock survive =
    let o = create_file cd st d io cio c s clock in
    let refused : (e : FileError) → o ≡ (err (e ∷ []), (st, d)) → Created cd d s o =
      λ e f. Created-as cd d s o (err (e ∷ []), (st, d)) f (inl (refl, refl)) in
    elim (Option-cases (ctx_error (c 0))) [
      | inr (x, f) ↦ refused x (ground arith)
      | inl f ↦ elim (Bool-cases (is_empty s.metadata.id)) [
        | inl g ↦ refused (store_error StoreError.id_required) (ground arith)
        | inr g ↦ elim (Option-cases (guard_error st io (c 1))) [
          | inr (x, h) ↦ refused x (ground arith)
          | inl h ↦
              let made = create_guarded cd st d io cio (λ i. c (i + 2)) s clock in
              Created-as cd d s o (releasing st io made) (ground arith) (
                releasing-Created cd d s st io made (
                  create_guarded-Created cd st d io cio (λ i. c (i + 2)) s clock (ground arith)
                    survive))
        ]
      ]
    ]

-- An operation has returned the session `s`, or it has failed, and the store has it still.
abbrev pub Fetched : Codec → Text → Snapshot → Outcome Snapshot → Type 0
Fetched cd id s o =
    Inv cd id o.1.0 o.1.1 × View cd id o.1.0 o.1.1 s × ((o.0 ≡ ok s) ⊎ (is_ok o.0 ≡ false))

loaded_snapshot-Fetched :
    (cd : Codec) (id : Text) (s : Snapshot) (o : Outcome (Unit {0}))
    → Loads cd id s o
    → Fetched cd id s (loaded_snapshot o)
loaded_snapshot-Fetched cd id s (err es, o) (inl (good, ready, same)) = ground arith
loaded_snapshot-Fetched cd id s (err es, o) (inr (bad, inv, view)) = (inv, view, inr refl)
loaded_snapshot-Fetched cd id s (ok u, (st, d)) (inl (good, ready, same)) = (
  Ready-Inv cd id st d ready,
  subst (View cd id st d) same (Ready-View cd id st d ready),
  inl (ap ok same),
)
loaded_snapshot-Fetched cd id s (ok u, o) (inr (bad, inv, view)) = ground arith

released-Fetched :
    (s : Snapshot) (es : List FileError) (r : Result (List FileError) Snapshot)
    → (r ≡ ok s) ⊎ (is_ok r ≡ false)
    → (released_result es r ≡ ok s) ⊎ (is_ok (released_result es r) ≡ false)
released-Fetched s [] r h = h
released-Fetched s (e ∷ es) (ok t) h = inr refl
released-Fetched s (e ∷ es) (err fs) h = inr refl

-- What `Load` returns is the session that the store has, and whether it fails or not, it leaves it
-- there and keeps the invariant of the cached state.
pub load_session_agrees :
    (cd : Codec) (st : FileState) (d : Disk) (io : StoreIo) (c : Ctx) (id : Text) (s : Snapshot)
    → Inv cd id st d
    → View cd id st d s
    → Fetched cd id s (load_session cd st d io c id)
unfolding load_session
load_session_agrees cd st d io c id s inv view =
    let o = load_session cd st d io c id in
    let loaded = ensure_loaded cd st d io (λ i. c (i + 2)) id (not (is_some st.writer)) in
    let fetched =
      loaded_snapshot-Fetched cd id s loaded
        (ensure_loaded-Loads cd st d io (λ i. c (i + 2)) id (not (is_some st.writer)) s inv view) in
    let thus : (p : Outcome Snapshot) → o ≡ p → Fetched cd id s p → Fetched cd id s o =
      λ p e h. subst (Fetched cd id s) (sym e) h in
    elim (Option-cases (ctx_error (c 0))) [
      | inr (e, f) ↦ thus (err (e ∷ []), (st, d)) (ground arith) (inv, view, inr refl)
      | inl f ↦ elim (Bool-cases st.needs_recovery) [
        | inr g ↦ thus (loaded_snapshot loaded) (ground arith) fetched
        | inl g ↦ elim (Option-cases (guard_error st io (c 1))) [
          | inr (e, h) ↦ thus (err (e ∷ []), (st, d)) (ground arith) (inv, view, inr refl)
          | inl h ↦ thus (releasing st io (loaded_snapshot loaded)) (ground arith) (
            fetched.0,
            fetched.1,
            released-Fetched s (release_error st io) (loaded_snapshot loaded).0 fetched.2,
          )
        ]
      ]
    ]
