-- ===== src/SessionStore/Log/Replayed.antt =====
-- internal/sessionstore/file.go: what `replay` makes of the files that the code writes.
use go_tiny_claw.Base.{
  ℕ, suc, zero, ◌+◌, ◌≤◌, min, List, [], ◌∷◌, ◌++◌, some, Text, ok, ◌>>=◌, length, take, map, All,
  split_lines, ◌≡◌, ◌≢◌, refl, arith, length-map, All-map, sym, ap, ◌∙◌,
}
use go_tiny_claw.SessionStore.{Snapshot, Event, apply_all, empty_snapshot}
use go_tiny_claw.SessionStore.Log.Laws.{
  Entry, Encoded, events_of, written, Survive, encode-written, replay_lines-written, finish-id,
}
use go_tiny_claw.SessionStore.Log.Recovery.{recovered}
use go_tiny_claw.SessionStore.Replay.{apply_all-id}
use go_tiny_claw.SessionStore.Log.{Codec, encode, replay_lines, replay}

take-map : {A B : Type 0} (f : A → B) (k : ℕ) (xs : List A) → map f (take k xs) ≡ take k (map f xs)
take-map f zero xs = refl
take-map f (suc k) [] = refl
take-map f (suc k) (x ∷ xs) = ap (◌∷◌ (f x)) (take-map f k xs)

encode-entries :
    (c : Codec) (ps : List (Text × Event))
    → All (Encoded c) ps
    → encode c (events_of ps) ≡ some (written ps)
unfolding encode written
encode-entries c [] h = refl
encode-entries c (p ∷ ps) h = rw (h.0, encode-entries c ps h.1) refl

All-take {ℓ κ} : {A : Type ℓ} (P : A → Type κ) (k : ℕ) (xs : List A) → All P xs → All P (take k xs)
All-take P zero xs h = tt
All-take P (suc k) [] h = tt
All-take P (suc k) (x ∷ xs) h = (h.0, All-take P k xs h.1)

-- The first events encode to the text of the first entries.
encode-take :
    (c : Codec) (ps : List (Text × Event)) (k : ℕ)
    → All (Encoded c) ps
    → encode c (take k (events_of ps)) ≡ some (written (take k ps))
encode-take c ps k a =
    rw (sym (take-map (λ p. p.1) k ps)) (encode-entries c (take k ps) (All-take (Encoded c) k ps a))

-- What a file that holds the text and the first `k` bytes of what `fs` encode to replays to: what the
-- first `j` of `fs` build on `s`.
abbrev pub Crashed : Codec → Snapshot → Text → List Event → Text → ℕ → Type 0
Crashed c s text fs more k =
    (j : ℕ) × (u : Snapshot) × (w : Text) × (j ≤ length fs)
    × (apply_all s (take j fs) ≡ ok u)
    × (encode c (take j fs) ≡ some w)
    × (length w ≤ suc k)
    × ((i : ℕ) (v : Text)
        → i ≤ length fs
        → encode c (take i fs) ≡ some v
        → length v ≤ suc k
        → i ≤ j)
    × (replay c (text ++ take k more)
        ≡ ok (u, min (length text + length w) (length (text ++ take k more))))

replay-cut :
    (c : Codec) (ps qs : List (Text × Event)) (s t : Snapshot) (k : ℕ)
    → All (Entry c) ps
    → All (Entry c) qs
    → All (Encoded c) qs
    → apply_all empty_snapshot (events_of ps) ≡ ok s
    → apply_all s (events_of qs) ≡ ok t
    → s.metadata.id ≢ []
    → Crashed c s (written ps) (events_of qs) (written qs) k
unfolding replay
replay-cut c ps qs s t k a b d f f' id =
    let (j, u, few, built, fits, most, read) = recovered c s t (length (written ps)) k qs b f' in
    let first =
      replay_lines-written c empty_snapshot s 0 ps (take k (written qs)) (All-map (λ p h. h.0) ps a)
        f in
    let first' : replay_lines c empty_snapshot 0 (split_lines (written ps ++ take k (written qs)))
        ≡ replay_lines c s (length (written ps)) (split_lines (take k (written qs))) =
      first ∙ ap (λ n. replay_lines c s n (split_lines (take k (written qs)))) (omega arith) in
    let kept = apply_all-id s u (events_of (take j qs)) id built in
    let counted = length-map (λ (p : Text × Event). p.1) qs in
    let has_id : u.metadata.id ≢ [] = λ e. id (sym kept ∙ e) in
    (
      j,
      u,
      written (take j qs),
      omega (arith, counted),
      rw (sym (take-map (λ p. p.1) j qs)) built,
      encode-take c qs j d,
      fits,
      λ i v x y z. most i (omega (arith, counted)) (ground (arith, encode-take c qs i d)),
      ap (λ r. r >>= λ o. ok (o.0, min o.1 (length (written ps ++ take k (written qs)))))
          (first' ∙ read ∙ finish-id u (length (written ps) + length (written (take j qs))) has_id),
    )

-- Any crash in the middle of an append: the file then holds the events that were committed and the
-- first `k` bytes of those being written. It replays to the committed snapshot with some first `j` of
-- the new events applied, namely those whose lines were written whole (the last newline not counted),
-- and to the offset behind them; nothing committed is lost and no torn event is read. The events are
-- such that JSON gives them back.
pub replay_crash :
    (c : Codec) (es fs : List Event) (text more : Text) (s t : Snapshot) (k : ℕ)
    → Survive c es
    → Survive c fs
    → encode c es ≡ some text
    → encode c fs ≡ some more
    → apply_all empty_snapshot es ≡ ok s
    → apply_all s fs ≡ ok t
    → s.metadata.id ≢ []
    → Crashed c s text fs more k
replay_crash c es fs text more s t k sv sv' h h' f f' id =
    let (ps, events, texts, entries, _) = encode-written c es text sv h in
    let (qs, events', texts', entries', encoded) = encode-written c fs more sv' h' in
    rw (sym texts, sym texts', sym events')
      (replay-cut c ps qs s t k entries entries' encoded (ground arith) (ground arith) id)
