-- ===== src/SessionStore/File/Loaded.antt =====
-- internal/sessionstore/file.go: what `ensureLoaded` gets an operation, and keeps where it fails.
use go_tiny_claw.Base.{
  ℕ, suc, ◌-◌, ◌≤◌, Bool, true, false, ◌&&◌, not, List, [], ◌∷◌, some, ==_iff, ltb, Text, text_eq,
  ≟_iff, is_ok, ok, err, Ctx, length, take, get_elem?, ◌≡◌, ◌⊎◌, inl, inr, refl, sym, ap, ◌∙◌,
  arith, subst, Bool-cases, Option-cases, length-take,
}
use go_tiny_claw.SessionStore.{Snapshot}
use go_tiny_claw.SessionStore.Log.{Codec, replay, is_newline, last_is_newline}
use go_tiny_claw.SessionStore.Log.Held.{Holds, replay-Holds, replay_le}
use go_tiny_claw.SessionStore.Log.Growing.{Holds-end}
use go_tiny_claw.SessionStore.File.{
  FileState, Disk, StoreIo, Outcome, recover_failed_commit, FileError, io_error, context_done,
}
use go_tiny_claw.SessionStore.File.Invariant.{
  Committed, Inv, View, Ready, Settled, recover-Settled, Ready-Inv, Ready-View,
}
use go_tiny_claw.SessionStore.File.Reading.{
  recovered_first, after_recovery, unchanged, ensure_loaded, load_file, read_again,
}

-- An operation has the session `s`, or it has failed and left it.
abbrev pub Loads : Codec → Text → Snapshot → Outcome (Unit {0}) → Type 0
Loads cd id s o =
    ((is_ok o.0 ≡ true) × Ready cd id o.1.0 o.1.1 × (o.1.0.snapshot ≡ s))
    ⊎ ((is_ok o.0 ≡ false) × Inv cd id o.1.0 o.1.1 × View cd id o.1.0 o.1.1 s)

Loads-as :
    (cd : Codec) (id : Text) (s : Snapshot) (o p : Outcome (Unit {0}))
    → o ≡ p
    → Loads cd id s p
    → Loads cd id s o
Loads-as cd id s o p e h = subst (Loads cd id s) (sym e) h

-- A state that is not loaded is not believed.
unloaded-Inv :
    (cd : Codec) (id : Text) (st : FileState) (d : Disk)
    → st.needs_recovery ≡ false
    → st.loaded ≡ false
    → Inv cd id st d
unloaded-Inv cd id st d live out = (λ e. ground arith, λ t e f u. ground arith)

live-View :
    (cd : Codec) (id text : Text) (st : FileState) (d : Disk) (s : Snapshot) (n : ℕ)
    → st.needs_recovery ≡ false
    → d.content ≡ some text
    → replay cd text ≡ ok (s, n)
    → s.metadata.id ≡ id
    → View cd id st d s
live-View cd id text st d s n live at found same =
    (λ e. ground arith, λ e. (text, n, at, found), same)

get_elem?-take : (n : ℕ) (xs : Text) → get_elem? (take (suc n) xs) n ≡ get_elem? xs n
get_elem?-take n [] = refl
get_elem?-take ℕ.zero (x ∷ xs) = refl
get_elem?-take (suc n) (x ∷ xs) = get_elem?-take n xs

-- The code looks at the last committed byte where it stands in the whole text.
last-cut :
    (n : ℕ) (text : Text)
    → n ≤ length text
    → (ltb 0 (length (take n text)) && not (last_is_newline (take n text) (length (take n text))))
      ≡ (ltb 0 n && not (last_is_newline text n))
last-cut ℕ.zero text h = refl
last-cut (suc n) text h =
    let size : length (take (suc n) text) ≡ suc n = omega (arith, length-take (suc n) text) in
    let back : suc n - 1 ≡ n = omega arith in
    ap (λ k. ltb 0 k && not (is_newline (get_elem? (take (suc n) text) (k - 1)))) size
    ∙ ap (λ k. ltb 0 (suc n) && not (is_newline (get_elem? (take (suc n) text) k))) back
    ∙ ap (λ o. ltb 0 (suc n) && not (is_newline o)) (get_elem?-take n text)
    ∙ sym (ap (λ k. ltb 0 (suc n) && not (is_newline (get_elem? text k))) back)

-- What is replayed is committed.
replayed-Committed :
    (cd : Codec) (id text : Text) (st : FileState) (s : Snapshot) (n : ℕ) (size info : ℕ)
    → replay cd text ≡ ok (s, n)
    → s.metadata.id ≡ id
    → Committed cd id
        (record st {
          loaded = true;
          snapshot = s;
          committed_offset = n;
          file_size = size;
          info = info;
          needs_separator = ltb 0 n && not (last_is_newline text n);
        })
        text
replayed-Committed cd id text st s n size info found same =
    let (bare_end, held, whole) = replay-Holds cd text s n found in
    let le = replay_le cd text s n found in
    let shown = Holds-end cd (take n text) bare_end s held in
    (le, subst (λ b. Holds cd (take n text) b s) (shown ∙ last-cut n text le) held, same)

read_again-Loads :
    (cd : Codec) (st : FileState) (d : Disk) (io : StoreIo) (c : Ctx) (id text : Text)
    (s : Snapshot) (n : ℕ)
    → st.needs_recovery ≡ false
    → st.loaded ≡ false
    → d.content ≡ some text
    → replay cd text ≡ ok (s, n)
    → s.metadata.id ≡ id
    → Loads cd id s (read_again cd st d io c id text)
unfolding read_again
read_again-Loads cd st d io c id text s n live out at found same =
    let is_it = (≟_iff s.metadata.id id).1 same in
    let left : (es : List FileError)
        → read_again cd st d io c id text ≡ (err es, (st, d))
        → Loads cd id s (read_again cd st d io c id text) =
      λ es e.
        Loads-as cd id s (read_again cd st d io c id text) (err es, (st, d)) e
          (inr (
            refl,
            unloaded-Inv cd id st d live out,
            live-View cd id text st d s n live at found same,
          )) in
    elim (Option-cases io.read_error) [
      | inr (e, f) ↦ left (io_error e ∷ []) (ground arith)
      | inl f ↦ elim (Option-cases (c 1)) [
        | inr (e, g) ↦ left (context_done e ∷ []) (ground arith)
        | inl g ↦ elim (Option-cases (c 2)) [
          | inr (e, h) ↦ left (context_done e ∷ []) (ground arith)
          | inl h ↦
              Loads-as cd id s (read_again cd st d io c id text)
                ((
                  ok tt,
                  (
                    record st {
                      loaded = true;
                      snapshot = s;
                      committed_offset = n;
                      file_size = length text;
                      info = d.stamp;
                      needs_separator = ltb 0 n && not (last_is_newline text n);
                    },
                    d,
                  ),
                ))
                (ground arith)
                (inl (
                  refl,
                  (
                    live,
                    text,
                    at,
                    replayed-Committed cd id text st s n (length text) d.stamp found same,
                    found,
                    refl,
                  ),
                  refl,
                ))
        ]
      ]
    ]

load_file-Loads :
    (cd : Codec) (st : FileState) (d : Disk) (io : StoreIo) (c : Ctx) (id : Text) (fresh : Bool)
    (s : Snapshot)
    → st.needs_recovery ≡ false
    → Inv cd id st d
    → View cd id st d s
    → Loads cd id s (load_file cd st d io c id fresh)
unfolding load_file
load_file-Loads cd st d io c id fresh s live inv view =
    let (text, n, at, found) = view.1 live in
    let out = record st { loaded = false } in
    elim (Option-cases io.lstat_error) [
      | inr (e, f) ↦
          Loads-as cd id s (load_file cd st d io c id fresh) ((err (io_error e ∷ []), (out, d)))
            (ground arith)
            (inr (
              refl,
              unloaded-Inv cd id out d live refl,
              live-View cd id text out d s n live at found view.2,
            ))
      | inl f ↦ elim (Bool-cases (not fresh && unchanged st d text)) [
        | inr g ↦
            Loads-as cd id s (load_file cd st d io c id fresh) (read_again cd out d io c id text)
              (ground arith) (read_again-Loads cd out d io c id text s n live refl at found view.2)
        | inl g ↦ elim (Option-cases (c 1)) [
          | inr (e, h) ↦
              Loads-as cd id s (load_file cd st d io c id fresh)
                ((err (context_done e ∷ []), (st, d))) (ground arith) (inr (refl, inv, view))
          | inl h ↦
              let (committed, found') = inv.1 text live at (ground arith) in
              let size : length text ≡ st.file_size =
                ground (arith, ==_iff (length text) st.file_size) in
              let same : st.snapshot ≡ s = ground arith in
              Loads-as cd id s (load_file cd st d io c id fresh) ((ok tt, (st, d))) (ground arith)
                (inl (refl, (live, text, at, committed, found', size), same))
        ]
      ]
    ]

after_recovery-Loads :
    (cd : Codec) (io : StoreIo) (c : Ctx) (id : Text) (fresh : Bool) (s : Snapshot)
    (o : Outcome (Unit {0}))
    → (is_ok o.0 ≡ true → o.1.0.needs_recovery ≡ false)
    → Inv cd id o.1.0 o.1.1
    → View cd id o.1.0 o.1.1 s
    → Loads cd id s (after_recovery cd io c id fresh o)
unfolding after_recovery
after_recovery-Loads cd io c id fresh s (err es, o) live inv view = inr (refl, inv, view)
after_recovery-Loads cd io c id fresh s (ok u, (st, d)) live inv view =
    load_file-Loads cd st d io c id fresh s (live refl) inv view

-- What a rollback leaves.
pub Settled-Inv :
    (cd : Codec) (id : Text) (s : Snapshot) (o : Outcome (Unit {0}))
    → s.metadata.id ≡ id
    → Settled cd id s o
    → (is_ok o.0 ≡ true → o.1.0.needs_recovery ≡ false)
      × Inv cd id o.1.0 o.1.1
      × View cd id o.1.0 o.1.1 s
Settled-Inv cd id s o same (kept, how) = elim how [
  | inl (good, ready) ↦ (
    λ e. ready.0,
    Ready-Inv cd id o.1.0 o.1.1 ready,
    subst (View cd id o.1.0 o.1.1) kept (Ready-View cd id o.1.0 o.1.1 ready),
  )
  | inr (bad, (pending, text, at, committed)) ↦ (
    λ e. ground arith,
    (λ e. (text, at, committed), λ t e f u. ground arith),
    (λ e. kept, λ e. ground arith, same),
  )
]

-- `ensureLoaded` either gives the session that the store has, read from the file or known to be in it,
-- or it fails and changes nothing of it.
pub ensure_loaded-Loads :
    (cd : Codec) (st : FileState) (d : Disk) (io : StoreIo) (c : Ctx) (id : Text) (fresh : Bool)
    (s : Snapshot)
    → Inv cd id st d
    → View cd id st d s
    → Loads cd id s (ensure_loaded cd st d io c id fresh)
unfolding ensure_loaded recovered_first
ensure_loaded-Loads cd st d io c id fresh s inv view = elim (Option-cases (c 0)) [
  | inr (e, f) ↦
      Loads-as cd id s (ensure_loaded cd st d io c id fresh) ((err (context_done e ∷ []), (st, d)))
        (ground arith) (inr (refl, inv, view))
  | inl f ↦ elim (Bool-cases st.needs_recovery) [
    | inr g ↦
        Loads-as cd id s (ensure_loaded cd st d io c id fresh)
          (after_recovery cd io c id fresh (ok tt, (st, d))) (ground arith)
          (after_recovery-Loads cd io c id fresh s (ok tt, (st, d)) (λ e. g) inv view)
    | inl g ↦
        let (text, at, committed) = inv.0 g in
        let o = recover_failed_commit st d io.recovery in
        let settled = recover-Settled cd id st d io.recovery (g, text, at, committed) in
        let (live, inv', view') = Settled-Inv cd id st.snapshot o committed.2 settled in
        Loads-as cd id s (ensure_loaded cd st d io c id fresh) (after_recovery cd io c id fresh o)
          (ground arith)
          (after_recovery-Loads cd io c id fresh s o live inv'
            (subst (View cd id o.1.0 o.1.1) (view.0 g) view'))
  ]
]
