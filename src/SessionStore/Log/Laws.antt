-- ===== src/SessionStore/Log/Laws.antt =====
-- internal/sessionstore/file.go: what is written is read again, wherever the file is torn.
use go_tiny_claw.Base.{
  ℕ, ◌+◌, ◌<◌, Bool, false, ◌&&◌, List, [], ◌∷◌, ◌++◌, none, some, Text, is_empty, ok, length, take,
  map, All, IsLine, split_lines, split_lines-line, split_lines-last, split_lines-nonempty, ◌≡◌, ◌≢◌,
  ◌⊎◌, inl, inr, refl, arith, Option-cases, Result-cases, append_assoc, length-append, ap,
}
use go_tiny_claw.SessionStore.{Snapshot, Event, apply, apply_all}
use go_tiny_claw.SessionStore.Log.{Codec, encode, finish, replay_lines}

-- A line of a file and the event that it gives.
abbrev pub Line : Codec → Text × Event → Type 0
Line c p = IsLine p.0 × (c.decode_event p.0 ≡ some p.1)

-- A line that the code wrote for an event: it is one line, it gives the event back, no beginning of it
-- gives any, and it is not empty.
abbrev pub Entry : Codec → Text × Event → Type 0
Entry c p =
    Line c p
    × ((k : ℕ) → k < length p.0 → c.decode_event (take k p.0) ≡ none)
    × (is_empty p.0 ≡ false)

abbrev pub Encoded : Codec → Text × Event → Type 0
Encoded c p = c.encode_event p.1 ≡ some p.0

abbrev pub events_of : List (Text × Event) → List Event
events_of ps = map (λ p. p.1) ps

-- The text of a list of entries.
unfoldable pub written : List (Text × Event) → Text
written [] = []
written (p ∷ ps) = p.0 ++ b'\n' ∷ written ps

-- The events survive JSON: what is encoded is an entry. (JSON keeps all but invalid UTF-8.)
abbrev pub Survive : Codec → List Event → Type 0
Survive c es = All (λ e. (l : Text) → c.encode_event e ≡ some l → Entry c (l, e)) es

pub written-append : (ps qs : List (Text × Event)) → written (ps ++ qs) ≡ written ps ++ written qs
unfolding written
written-append [] qs = refl
written-append (p ∷ ps) qs =
    rw (written-append ps qs, append_assoc p.0 (b'\n' ∷ written ps) (written qs))

-- What `encode` gives for events that survive is the text of their entries.
pub encode-written :
    (c : Codec) (es : List Event) (text : Text)
    → Survive c es
    → encode c es ≡ some text
    → (ps : List (Text × Event)) × (events_of ps ≡ es)
      × (written ps ≡ text)
      × All (Entry c) ps
      × All (Encoded c) ps
unfolding encode written
encode-written c [] text h e = ([], refl, ground arith, tt, tt)
encode-written c (x ∷ es) text h e = elim (Option-cases (c.encode_event x)) [
  | inl f ↦ ground arith
  | inr (l, f) ↦ elim (Option-cases (encode c es)) [
    | inl g ↦ ground arith
    | inr (rest, g) ↦
        let (ps, events, texts, entries, encoded) = encode-written c es rest h.1 g in
        ((l, x) ∷ ps, ap (◌∷◌ x) events, ground arith, (h.0 l f, entries), (f, encoded))
  ]
]

&&_false : (b : Bool) → (b && false) ≡ false
&&_false b = ground arith

-- The loop reads an entry and goes on behind it.
pub replay_lines-Line :
    (c : Codec) (s t : Snapshot) (offset : ℕ) (p : Text × Event) (rest : Text)
    → Line c p
    → apply s p.1 ≡ ok t
    → replay_lines c s offset (split_lines (p.0 ++ b'\n' ∷ rest))
      ≡ replay_lines c t (offset + length p.0 + 1) (split_lines rest)
unfolding replay_lines
replay_lines-Line c s t offset p rest h f =
    rw (split_lines-line p.0 rest h.0, split_lines-nonempty rest, &&_false (is_empty p.0), h.1, f)
      refl

-- The loop reads a list of entries and goes on behind them.
pub replay_lines-written :
    (c : Codec) (s t : Snapshot) (offset : ℕ) (ps : List (Text × Event)) (rest : Text)
    → All (Line c) ps
    → apply_all s (events_of ps) ≡ ok t
    → replay_lines c s offset (split_lines (written ps ++ rest))
      ≡ replay_lines c t (offset + length (written ps)) (split_lines rest)
unfolding written apply_all
replay_lines-written c s t offset [] rest h f =
    let same : s ≡ t = ground arith in
    let none_read : offset + 0 ≡ offset = omega arith in rw (same, none_read) refl
replay_lines-written c s t offset (p ∷ ps) rest h f = elim (Result-cases (apply s p.1)) [
  | inr (x, g) ↦ ground arith
  | inl (u, g) ↦
      let f' : apply_all u (events_of ps) ≡ ok t = ground arith in
      let read = replay_lines-Line c s u offset p (written ps ++ rest) h.0 g in
      let others = replay_lines-written c u t (offset + length p.0 + 1) ps rest h.1 f' in
      let counted = length-append p.0 (b'\n' ∷ written ps) in
      let total : offset + length p.0 + 1 + length (written ps)
          ≡ offset + length (p.0 ++ b'\n' ∷ written ps) =
        omega (arith, counted) in
      rw (append_assoc p.0 (b'\n' ∷ written ps) rest, read, others, total) refl
]

-- A last line that is empty or torn is not read.
pub replay_lines-torn :
    (c : Codec) (s : Snapshot) (offset : ℕ) (l : Text)
    → IsLine l
    → (l ≡ []) ⊎ (c.decode_event l ≡ none)
    → replay_lines c s offset (split_lines l) ≡ finish s offset
unfolding replay_lines
replay_lines-torn c s offset l h torn =
    rw (split_lines-last l h) (elim torn [ inl e ↦ ground arith | inr e ↦ ground arith ])

-- A last line that lacks only its newline is read.
pub replay_lines-last :
    (c : Codec) (s t : Snapshot) (offset : ℕ) (p : Text × Event)
    → Line c p
    → is_empty p.0 ≡ false
    → apply s p.1 ≡ ok t
    → replay_lines c s offset (split_lines p.0) ≡ finish t (offset + (length p.0 + 1))
unfolding replay_lines
replay_lines-last c s t offset p h filled f =
    let total : offset + length p.0 + 1 ≡ offset + (length p.0 + 1) = omega arith in
    rw (split_lines-last p.0 h.0, filled, h.1, f, total) refl

pub finish-id : (u : Snapshot) (n : ℕ) → u.metadata.id ≢ [] → finish u n ≡ ok (u, n)
unfolding finish
finish-id u n h = ground arith
