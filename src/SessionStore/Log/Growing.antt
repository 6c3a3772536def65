-- ===== src/SessionStore/Log/Growing.antt =====
-- internal/sessionstore/file.go: how a file that holds a session grows, and how it ends.
use go_tiny_claw.Base.{
  ℕ, suc, ◌-◌, Bool, true, false, ◌&&◌, List, [], ◌∷◌, ◌++◌, Option, none, some, Text, is_empty,
  if◌then◌else◌, is_some, ok, length, get_elem?, All, IsLine, ◌≡◌, refl, arith, subst, append_assoc,
  append-nil, map-append, All-append, All-split, sym, ap, ◌∙◌, ltb, not,
}
use go_tiny_claw.SessionStore.{Snapshot, Event, apply_all, empty_snapshot}
use go_tiny_claw.SessionStore.Log.Held.{Holds, bare, listed}
use go_tiny_claw.SessionStore.Log.Laws.{Line, events_of, written, written-append}
use go_tiny_claw.SessionStore.Replay.{apply_all-append, apply_all-id}
use go_tiny_claw.SessionStore.Log.{is_newline, last_is_newline, Codec}

written-rest :
    (ps : List (Text × Event)) (last : Option (Text × Event)) (qs : List (Text × Event))
    → written (ps ++ listed last ++ qs)
      ≡ written ps ++ bare last ++ (if is_some last then b'\n' ∷ written qs else written qs)
unfolding written
written-rest ps none qs = rw (append-nil ps, append-nil (written ps), written-append ps qs) refl
written-rest ps (some p) qs =
    rw
      (
        append_assoc ps (p ∷ []) qs,
        written-append ps (p ∷ qs),
        append_assoc (written ps) p.0 (b'\n' ∷ written qs),
      )
      refl

-- A batch written behind what a text holds, and behind the newline that it may lack, is held too.
pub Holds-append :
    (c : Codec) (text : Text) (bare_end : Bool) (s t : Snapshot) (qs : List (Text × Event))
    → Holds c text bare_end s
    → All (Line c) qs
    → apply_all s (events_of qs) ≡ ok t
    → Holds c (text ++ (if bare_end then b'\n' ∷ written qs else written qs)) false t
Holds-append c text bare_end s t qs (ps, last, lines, filled, texts, built, kind, id) more f =
    let all_events = map-append (λ (p : Text × Event). p.1) (ps ++ listed last) qs in
    (
      ps ++ listed last ++ qs,
      none,
      subst (All (Line c)) (sym (append-nil (ps ++ listed last ++ qs)))
          (All-append (Line c) (ps ++ listed last) qs lines more),
      tt,
      rw (append-nil (written (ps ++ listed last ++ qs)), written-rest ps last qs, texts, kind)
          refl,
      rw
          (
            append-nil (ps ++ listed last ++ qs),
            all_events,
            apply_all-append empty_snapshot (events_of (ps ++ listed last)) (events_of qs),
            built,
          )
          f,
      refl,
      λ e. id (sym (apply_all-id s t (events_of qs) id f) ∙ e),
    )

last-cons :
    (x : ℕ) (r : Text)
    → is_empty r ≡ false
    → last_is_newline (x ∷ r) (length (x ∷ r)) ≡ last_is_newline r (length r)
last-cons x [] h = ground arith
last-cons x (y ∷ r) h =
    let one : suc (suc (length r)) - 1 ≡ suc (length r) = omega arith in
    let other : suc (length r) - 1 ≡ length r = omega arith in
    ap (λ k. is_newline (get_elem? (x ∷ y ∷ r) k)) one
    ∙ sym (ap (λ k. is_newline (get_elem? (y ∷ r) k)) other)

append-filled : (xs ys : Text) → is_empty ys ≡ false → is_empty (xs ++ ys) ≡ false
append-filled [] ys h = h
append-filled (x ∷ xs) ys h = refl

filled-length : (xs : Text) → is_empty xs ≡ false → ltb 0 (length xs) ≡ true
filled-length [] h = ground arith
filled-length (x ∷ xs) h = ground arith

last-append :
    (xs ys : Text)
    → is_empty ys ≡ false
    → last_is_newline (xs ++ ys) (length (xs ++ ys)) ≡ last_is_newline ys (length ys)
last-append [] ys h = refl
last-append (x ∷ xs) ys h = last-cons x (xs ++ ys) (append-filled xs ys h) ∙ last-append xs ys h

last-IsLine : (l : Text) → is_empty l ≡ false → IsLine l → last_is_newline l (length l) ≡ false
last-IsLine [] h a = ground arith
last-IsLine (b ∷ []) h a = a.0
last-IsLine (b ∷ d ∷ l) h a = last-cons b (d ∷ l) refl ∙ last-IsLine (d ∷ l) refl a.1

last-written :
    (p : Text × Event) (ps : List (Text × Event))
    → last_is_newline (written (p ∷ ps)) (length (written (p ∷ ps))) ≡ true
unfolding written
last-written p [] = last-append p.0 (b'\n' ∷ []) refl
last-written p (q ∷ ps) =
    last-append p.0 (b'\n' ∷ written (q ∷ ps)) refl
    ∙ last-append (b'\n' ∷ []) (written (q ∷ ps)) (append-filled q.0 (b'\n' ∷ written ps) refl)
    ∙ last-written q ps

-- Whether the last line lacks its newline shows in the last byte.
pub Holds-end :
    (c : Codec) (text : Text) (bare_end : Bool) (s : Snapshot)
    → Holds c text bare_end s
    → bare_end ≡ (ltb 0 (length text) && not (last_is_newline text (length text)))
unfolding written
Holds-end c text bare_end s ([], none, lines, filled, texts, built, kind, id) =
    rw (kind, sym texts) refl
Holds-end c text bare_end s (p ∷ ps, none, lines, filled, texts, built, kind, id) =
    rw (kind, sym texts, append-nil (written (p ∷ ps)), last-written p ps) (ground arith)
Holds-end c text bare_end s (ps, some p, lines, filled, texts, built, kind, id) =
    let at_end = last-append (written ps) p.0 filled in
    let line = last-IsLine p.0 filled (All-split (Line c) ps (p ∷ []) lines).1.0.0 in
    rw (kind, sym texts, at_end, line)
      (rw (filled-length (written ps ++ p.0) (append-filled (written ps) p.0 filled)) refl)
