-- ===== src/SessionStore/File/Laws.antt =====
-- internal/sessionstore/file.go: an append is atomic, whatever the operating system does.
use go_tiny_claw.Base.{
  ◌+◌, true, false, List, [], ◌∷◌, none, Text, text_eq, is_ok, Result, ok, err, Ctx, ◌≡◌, ◌⊎◌, inl,
  inr, refl, sym, arith, subst, Option-cases, Result-cases,
}
use go_tiny_claw.SessionStore.{Snapshot, Event, apply_all}
use go_tiny_claw.SessionStore.Log.Laws.{Survive}
use go_tiny_claw.SessionStore.Log.{Codec, encode}
use go_tiny_claw.SessionStore.File.{
  FileState, Disk, StoreIo, Outcome, ctx_error, FileError, io_error, context_done, store_error,
  not_encodable,
}
use go_tiny_claw.SessionStore.File.Invariant.{Inv, View, Ready, Ready-Inv, Ready-View}
use go_tiny_claw.SessionStore.File.Loaded.{Loads, ensure_loaded-Loads}
use go_tiny_claw.SessionStore.File.Appending.{
  commit_bytes, open_and_commit, append_loaded, append_after, append_file, guard_error, separated,
  releasing, release_error, released_result,
}
use go_tiny_claw.SessionStore.File.Reading.{ensure_loaded}
use go_tiny_claw.SessionStore.File.Commits.{Adds, Adds-as, refused-Adds, commit_bytes-Adds}

append_loaded-Adds :
    (cd : Codec) (id : Text) (st : FileState) (d : Disk) (io : StoreIo) (c : Ctx) (es : List Event)
    → Ready cd id st d
    → Survive cd es
    → Adds cd id st.snapshot es (append_loaded cd st d io c es)
unfolding append_loaded open_and_commit apply_all
append_loaded-Adds cd id st d io c [] ready survive =
    (Ready-Inv cd id st d ready, inl (refl, st.snapshot, refl, Ready-View cd id st d ready))
append_loaded-Adds cd id st d io c (x ∷ es) ready survive =
    let o = append_loaded cd st d io c (x ∷ es) in
    let text = ready.1 in
    let at = ready.2 in
    let refused : (e : FileError)
        → o ≡ (err (e ∷ []), (st, d))
        → Adds cd id st.snapshot (x ∷ es) o =
      λ e f.
        Adds-as cd id st.snapshot (x ∷ es) o (err (e ∷ []), (st, d)) f
          (refused-Adds cd id st d (x ∷ es) e [] ready) in
    elim (Result-cases (apply_all st.snapshot (x ∷ es))) [
      | inr (e, f) ↦ refused (store_error e) (ground arith)
      | inl (next, f) ↦ elim (Option-cases (encode cd (x ∷ es))) [
        | inl g ↦ refused not_encodable (ground arith)
        | inr (bytes, g) ↦ elim (Option-cases (c 0)) [
          | inr (e, h) ↦ refused (context_done e) (ground arith)
          | inl h ↦ elim (Option-cases io.commit.open_error) [
            | inr (e, k) ↦ refused (io_error e) (ground arith)
            | inl k ↦
                Adds-as cd id st.snapshot (x ∷ es) o
                  (commit_bytes st d io (c 1) (separated st.needs_separator bytes) next text)
                  (ground arith)
                  (commit_bytes-Adds cd id st d io (c 1) text bytes next (x ∷ es) ready at survive f
                    g)
          ]
        ]
      ]
    ]

append_after-Adds :
    (cd : Codec) (id : Text) (s : Snapshot) (io : StoreIo) (c : Ctx) (es : List Event)
    (o : Outcome (Unit {0}))
    → Loads cd id s o
    → Survive cd es
    → Adds cd id s es (append_after cd io c es o)
unfolding append_after
append_after-Adds cd id s io c es (err xs, o) (inl (good, ready, same)) survive = ground arith
append_after-Adds cd id s io c es (err xs, o) (inr (bad, inv, view)) survive =
    (inv, inr (refl, view))
append_after-Adds cd id s io c es (ok u, (st, d)) (inl (good, ready, same)) survive =
    subst (λ x. Adds cd id x es (append_loaded cd st d io c es)) same
      (append_loaded-Adds cd id st d io c es ready survive)
append_after-Adds cd id s io c es (ok u, o) (inr (bad, inv, view)) survive = ground arith

-- What `append_file` did to the session `s`: all of the events or nothing.
abbrev pub Appended : Codec → Text → FileState → Snapshot → List Event → Outcome (Unit {0}) → Type 0
Appended cd id st s es o =
    Inv cd id o.1.0 o.1.1
    × (((t : Snapshot) × (apply_all s es ≡ ok t)
          × View cd id o.1.0 o.1.1 t
          × (is_ok o.0 ≡ true ⊎ st.writer ≡ none))
        ⊎ ((is_ok o.0 ≡ false) × View cd id o.1.0 o.1.1 s))

pub released-bad :
    (es : List FileError) (r : Result (List FileError) (Unit {0}))
    → is_ok r ≡ false
    → is_ok (released_result es r) ≡ false
released-bad [] r h = h
released-bad (e ∷ es) (ok u) h = refl
released-bad (e ∷ es) (err fs) h = refl

releasing-Appended :
    (cd : Codec) (id : Text) (st : FileState) (s : Snapshot) (es : List Event) (io : StoreIo)
    (o : Outcome (Unit {0}))
    → Adds cd id s es o
    → Appended cd id st s es (releasing st io o)
releasing-Appended cd id st s es io o (inv, how) = (
  inv,
  elim how [
    | inl (good, t, built, view) ↦ inl (
      t,
      built,
      view,
      elim (Option-cases st.writer) [ inl e ↦ inr e | inr (w, e) ↦ inl (ground arith) ],
    )
    | inr (bad, view) ↦ inr (released-bad (release_error st io) o.0 bad, view)
  ],
)

-- An append is atomic, whatever fails. If the session that the store has is `s`, then `Append` either
-- adds all of its events to it or leaves it as it was, and says which, whatever calls of the operating
-- system fail at whatever place and however many bytes of the batch reach the file, and even if the
-- rollback fails too; with the writer's lock held, an error means that nothing was added (without it,
-- an error may also come from giving back the lock of the operation). The cached state keeps its
-- invariant. The events are such that JSON gives them back.
pub append_file_atomic :
    (cd : Codec) (st : FileState) (d : Disk) (io : StoreIo) (c : Ctx) (id : Text) (es : List Event)
    (s : Snapshot)
    → Inv cd id st d
    → View cd id st d s
    → Survive cd es
    → Appended cd id st s es (append_file cd st d io c id es)
unfolding append_file
append_file_atomic cd st d io c id es s inv view survive =
    let o = append_file cd st d io c id es in
    let thus : (p : Outcome (Unit {0}))
        → o ≡ p
        → Appended cd id st s es p
        → Appended cd id st s es o =
      λ p e h. subst (Appended cd id st s es) (sym e) h in
    elim (Option-cases (ctx_error (c 0))) [
      | inr (e, f) ↦ thus (err (e ∷ []), (st, d)) (ground arith) (inv, inr (refl, view))
      | inl f ↦ elim (Option-cases (guard_error st io (c 1))) [
        | inr (e, g) ↦ thus (err (e ∷ []), (st, d)) (ground arith) (inv, inr (refl, view))
        | inl g ↦
            let loaded = ensure_loaded cd st d io (λ i. c (i + 2)) id false in
            let added = append_after cd io (λ i. c (i + 5)) es loaded in
            thus (releasing st io added) (ground arith) (
              releasing-Appended cd id st s es io added (
                append_after-Adds cd id s io (λ i. c (i + 5)) es loaded
                  (ensure_loaded-Loads cd st d io (λ i. c (i + 2)) id false s inv view) survive))
      ]
    ]
