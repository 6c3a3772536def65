-- ===== src/SessionStore/Log/Held.antt =====
-- internal/sessionstore/file.go: the sessions that files hold, and that `replay` finds them.
use go_tiny_claw.Base.{
  ℕ, ◌+◌, ◌≤◌, min, Bool, true, false, ◌&&◌, List, [], ◌∷◌, ◌++◌, Option, none, some, Text,
  is_empty, if◌then◌else◌, is_some, join_lines, split_lines-IsLine, join_lines-split_lines, ok,
  length, take, All, IsLine, split_lines, split_lines-nonempty, take-append, take-length, ◌≡◌, ◌≢◌,
  ◌⊎◌, inl, inr, refl, arith, subst, Option-cases, Result-cases, append_assoc, length-append,
  append-nil, map-append, All-split, sym, ap, ◌∙◌, Bool-cases,
}
use go_tiny_claw.SessionStore.{Snapshot, Event, apply, apply_all, empty_snapshot}
use go_tiny_claw.SessionStore.Log.Laws.{
  Line, events_of, written, replay_lines-written, finish-id, replay_lines-torn, replay_lines-last,
}
use go_tiny_claw.SessionStore.Replay.{apply_all-append}
use go_tiny_claw.SessionStore.Log.{Codec, finish, replay_lines, replay}

abbrev pub listed : Option (Text × Event) → List (Text × Event)
listed none = []
listed (some p) = p ∷ []

-- A last line without its newline.
abbrev pub bare : Option (Text × Event) → Text
bare none = []
bare (some p) = p.0

abbrev pub HasText : Option (Text × Event) → Type 0
HasText none = Unit
HasText (some p) = is_empty p.0 ≡ false

-- The text holds the session: it is lines of which each gives an event, the last perhaps without its
-- newline (`bare_end`), and the events build the snapshot, which has an ID.
abbrev pub Holds : Codec → Text → Bool → Snapshot → Type 0
Holds c text bare_end s =
    (ps : List (Text × Event)) × (last : Option (Text × Event)) × All (Line c) (ps ++ listed last)
    × HasText last
    × (written ps ++ bare last ≡ text)
    × (apply_all empty_snapshot (events_of (ps ++ listed last)) ≡ ok s)
    × (bare_end ≡ is_some last)
    × (s.metadata.id ≢ [])

-- What the loop of `replay` has read when it ends well.
abbrev Read : Codec → Snapshot → ℕ → Text → Snapshot → ℕ → Type 0
Read c s offset text t n =
    (ps : List (Text × Event)) × (last : Option (Text × Event)) × (tail : Text) × All (Line c)
      (ps ++ listed last)
    × HasText last
    × (written ps ++ (bare last ++ tail) ≡ text)
    × (is_some last ≡ true → tail ≡ [])
    × (apply_all s (events_of (ps ++ listed last)) ≡ ok t)
    × (n ≡ offset + length (written ps) + (if is_some last then length (bare last) + 1 else 0))
    × (t.metadata.id ≢ [])

finish-Read :
    (c : Codec) (s t : Snapshot) (offset n : ℕ) (text : Text)
    → finish s offset ≡ ok (t, n)
    → Read c s offset text t n
unfolding finish written apply_all
finish-Read c s t offset n text h =
    ([], none, text, tt, tt, refl, λ e. ground arith, ground arith, ground arith, λ e. ground arith)

-- What one turn of the loop did.
turn_read :
    (c : Codec) (s t : Snapshot) (offset n : ℕ) (l : Text) (ls : List Text)
    → replay_lines c s offset (l ∷ ls) ≡ ok (t, n)
    → (finish s offset ≡ ok (t, n))
      ⊎ ((e : Event) × (u : Snapshot) × (c.decode_event l ≡ some e)
          × (apply s e ≡ ok u)
          × (replay_lines c u (offset + length l + 1) ls ≡ ok (t, n))
          × (is_empty ls ≡ true → is_empty l ≡ false))
unfolding replay_lines
turn_read c s t offset n l ls h = elim (Bool-cases (is_empty l && is_empty ls)) [
  | inl e ↦ inl (ground arith)
  | inr e ↦ elim (Option-cases (c.decode_event l)) [
    | inl f ↦ inl (ground arith)
    | inr (x, f) ↦ elim (Result-cases (apply s x)) [
      | inr (y, g) ↦ ground arith
      | inl (u, g) ↦ inr (x, u, f, g, ground arith, λ k. ground arith)
    ]
  ]
]

last-Read :
    (c : Codec) (s t u : Snapshot) (offset n : ℕ) (l : Text) (e : Event)
    → IsLine l
    → c.decode_event l ≡ some e
    → apply s e ≡ ok u
    → finish u (offset + length l + 1) ≡ ok (t, n)
    → is_empty l ≡ false
    → Read c s offset l t n
unfolding finish written apply_all
last-Read c s t u offset n l e a f g h filled = (
  [],
  some (l, e),
  [],
  ((a, f), tt),
  filled,
  append-nil l,
  λ k. refl,
  rw g (ground arith),
  ground arith,
  λ k. ground arith,
)

line-Read :
    (c : Codec) (s t u : Snapshot) (offset n : ℕ) (l rest : Text) (e : Event)
    → IsLine l
    → c.decode_event l ≡ some e
    → apply s e ≡ ok u
    → Read c u (offset + length l + 1) rest t n
    → Read c s offset (l ++ b'\n' ∷ rest) t n
unfolding written apply_all
line-Read c s t u offset n l rest e a f g
      (ps, last, tail, lines, filled, texts, cut, built, count, id) =
    (
      (l, e) ∷ ps,
      last,
      tail,
      ((a, f), lines),
      filled,
      append_assoc l (b'\n' ∷ written ps) (bare last ++ tail) ∙ ap (λ x. l ++ b'\n' ∷ x) texts,
      cut,
      rw g built,
      omega (arith, count, length-append l (b'\n' ∷ written ps)),
      id,
    )

replay_lines-Read :
    (c : Codec) (s t : Snapshot) (offset n : ℕ) (l : Text) (ls : List Text)
    → All IsLine (l ∷ ls)
    → replay_lines c s offset (l ∷ ls) ≡ ok (t, n)
    → Read c s offset (join_lines (l ∷ ls)) t n
unfolding join_lines replay_lines
replay_lines-Read c s t offset n l [] a h = elim (turn_read c s t offset n l [] h) [
  | inl f ↦ finish-Read c s t offset n l f
  | inr (e, u, f, g, k, filled) ↦ last-Read c s t u offset n l e a.0 f g k (filled refl)
]
replay_lines-Read c s t offset n l (k ∷ ls) a h = elim (turn_read c s t offset n l (k ∷ ls) h) [
  | inl f ↦ finish-Read c s t offset n (join_lines (l ∷ k ∷ ls)) f
  | inr (e, u, f, g, r, filled) ↦
      line-Read c s t u offset n l (join_lines (k ∷ ls)) e a.0 f g
        (replay_lines-Read c u t (offset + length l + 1) n k ls a.1 r)
]

lines-Read :
    (c : Codec) (s t : Snapshot) (offset n : ℕ) (ls : List Text)
    → is_empty ls ≡ false
    → All IsLine ls
    → replay_lines c s offset ls ≡ ok (t, n)
    → Read c s offset (join_lines ls) t n
lines-Read c s t offset n [] e a h = ground arith
lines-Read c s t offset n (l ∷ ls) e a h = replay_lines-Read c s t offset n l ls a h

Read-Holds :
    (c : Codec) (text : Text) (s : Snapshot) (m : ℕ)
    → Read c empty_snapshot 0 text s m
    → (bare_end : Bool) × Holds c (take (min m (length text)) text) bare_end s
      × (bare_end ≡ true → min m (length text) ≡ length text)
Read-Holds c text s m (ps, none, tail, lines, filled, texts, cut, built, count, id) =
    let at : min m (length text) ≡ length (written ps) =
      omega (arith, ap (λ x. length x) texts, length-append (written ps) tail) in
    let cut_there : take (length (written ps)) text ≡ written ps =
      rw (sym texts) (take-append (written ps) tail) in
    (
      false,
      (
        ps,
        none,
        lines,
        tt,
        append-nil (written ps) ∙ sym (ap (λ k. take k text) at ∙ cut_there),
        built,
        refl,
        id,
      ),
      λ e. ground arith,
    )
Read-Holds c text s m (ps, some p, tail, lines, filled, texts, cut, built, count, id) =
    let ends_there : written ps ++ p.0 ≡ text =
      ap (λ x. written ps ++ x) (sym (append-nil p.0) ∙ ap (λ x. p.0 ++ x) (sym (cut refl)))
      ∙ texts in
    let at : min m (length text) ≡ length text =
      omega (arith, ap (λ x. length x) ends_there, length-append (written ps) p.0) in
    let all_there : take (length text) text ≡ text = take-length text in
    (
      true,
      (
        ps,
        some p,
        lines,
        filled,
        ends_there ∙ sym (ap (λ k. take k text) at ∙ all_there),
        built,
        refl,
        id,
      ),
      λ e. at,
    )

-- What `replay` accepts holds the snapshot that it returns, up to the offset that it returns.
pub replay-Holds :
    (c : Codec) (text : Text) (s : Snapshot) (n : ℕ)
    → replay c text ≡ ok (s, n)
    → (bare_end : Bool) × Holds c (take n text) bare_end s × (bare_end ≡ true → n ≡ length text)
unfolding replay
replay-Holds c text s n h =
    elim (Result-cases (replay_lines c empty_snapshot 0 (split_lines text))) [
      | inr (x, e) ↦ ground arith
      | inl ((t, m), e) ↦
          let read =
            lines-Read c empty_snapshot t 0 m (split_lines text) (split_lines-nonempty text)
              (split_lines-IsLine text) e in
          let at : n ≡ min m (length text) = ground arith in
          let same : s ≡ t = ground arith in
          rw (at, same)
            (Read-Holds c text t m
              (subst (λ x. Read c empty_snapshot 0 x t m) (join_lines-split_lines text) read))
    ]

apply_all-listed :
    (s t : Snapshot) (ps : List (Text × Event)) (last : Option (Text × Event))
    → apply_all s (events_of (ps ++ listed last)) ≡ ok t
    → (u : Snapshot) × (apply_all s (events_of ps) ≡ ok u)
      × (apply_all u (events_of (listed last)) ≡ ok t)
apply_all-listed s t ps last h =
    let split : apply_all s (events_of ps ++ events_of (listed last)) ≡ ok t =
      rw (sym (map-append (λ p. p.1) ps (listed last))) h in
    let both = sym (apply_all-append s (events_of ps) (events_of (listed last))) ∙ split in
    elim (Result-cases (apply_all s (events_of ps))) [
      | inl (u, e) ↦ (u, e, ground arith)
      | inr (x, e) ↦ ground arith
    ]

replay_lines-rest :
    (c : Codec) (u s : Snapshot) (offset : ℕ) (last : Option (Text × Event))
    → All (Line c) (listed last)
    → HasText last
    → apply_all u (events_of (listed last)) ≡ ok s
    → replay_lines c u offset (split_lines (bare last))
      ≡ finish s (offset + (if is_some last then length (bare last) + 1 else 0))
unfolding replay_lines apply_all
replay_lines-rest c u s offset none a f h =
    let none_read : offset + 0 ≡ offset = omega arith in
    let same : u ≡ s = ground arith in
    rw (none_read, same) (replay_lines-torn c s offset [] tt (inl refl))
replay_lines-rest c u s offset (some p) a f h =
    replay_lines-last c u s offset p a.0 f
      (elim (Result-cases (apply u p.1)) [ inl (t, e) ↦ ground arith | inr (x, e) ↦ ground arith ])

held-length :
    (k : ℕ) (last : Option (Text × Event))
    → min (0 + k + (if is_some last then length (bare last) + 1 else 0)) (k + length (bare last))
      ≡ k + length (bare last)
held-length k none = omega arith
held-length k (some p) = omega arith

-- `replay` gives back what a text holds.
pub Holds-replay :
    (c : Codec) (text : Text) (bare_end : Bool) (s : Snapshot)
    → Holds c text bare_end s
    → replay c text ≡ ok (s, length text)
unfolding replay finish
Holds-replay c text bare_end s (ps, last, lines, filled, texts, built, kind, id) =
    let (u, first, second) = apply_all-listed empty_snapshot s ps last built in
    let (a, b) = All-split (Line c) ps (listed last) lines in
    let end' = 0 + length (written ps) + (if is_some last then length (bare last) + 1 else 0) in
    let read = replay_lines-written c empty_snapshot u 0 ps (bare last) a first in
    let rest = replay_lines-rest c u s (0 + length (written ps)) last b filled second in
    rw (sym texts, read, rest, finish-id s end' id, length-append (written ps) (bare last))
      (ap (λ n. ok (s, n)) (held-length (length (written ps)) last))

pub replay_le :
    (c : Codec) (text : Text) (s : Snapshot) (n : ℕ) → replay c text ≡ ok (s, n) → n ≤ length text
unfolding replay
replay_le c text s n h = elim (Result-cases (replay_lines c empty_snapshot 0 (split_lines text))) [
  | inr (x, e) ↦ ground arith
  | inl (r, e) ↦ let at : min r.1 (length text) ≡ n = ground arith in omega (arith, at)
]
