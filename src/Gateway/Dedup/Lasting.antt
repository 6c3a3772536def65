-- ===== src/Gateway/Dedup/Lasting.antt =====
-- internal/gateway/dedup.go: how long a key lasts in the table while others come.
use go_tiny_claw.Base.{
  All-map, ℕ, suc, ◌+◌, ◌≤◌, ◌<◌, false, [], ◌∷◌, none, some, if◌then◌else◌, ltb, leb, Text,
  is_empty, text_eq, lookup, insert, delete, length, ◌≡◌, ◌≢◌, ◌⊎◌, inl, inr, refl, arith, ◌≟◌,
  lookup-insert, lookup-delete, ≟_iff, ≟_refl, All, Bool-cases, insert-All, delete-All,
}
use go_tiny_claw.Gateway.Dedup.{Seen, max_seen_messages, oldest_from, make_room, remember}
use go_tiny_claw.Gateway.Dedup.Laws.{IsMap, remember_keeps}

-- How many entries are newer than `t`.
unfoldable pub newer : ℕ → Seen → ℕ
newer t [] = 0
newer t ((k, s) ∷ seen) = let n = newer t seen in if ltb t s then suc n else n

newer-insert :
    (t : ℕ) (seen : Seen) (k : Text) (s : ℕ)
    → newer t (insert seen k s) ≤ newer t seen + (if ltb t s then 1 else 0)
unfolding newer insert
newer-insert t [] k s = ground arith
newer-insert t ((j, u) ∷ seen) k s = ground (arith, newer-insert t seen k s)

newer-delete : (t : ℕ) (seen : Seen) (k : Text) → newer t (delete seen k) ≤ newer t seen
unfolding newer delete
newer-delete t [] k = ground arith
newer-delete t ((j, u) ∷ seen) k = ground (arith, newer-delete t seen k)

newer_none : (t : ℕ) (seen : Seen) → All (λ e. e.1 < t) seen → newer t seen ≡ 0
unfolding newer
newer_none t [] h = refl
newer_none t ((j, u) ∷ seen) (h, hs) = ground (arith, newer_none t seen hs)

insert-IsMap : (seen : Seen) (k : Text) (s : ℕ) → IsMap seen → IsMap (insert seen k s)
unfolding insert lookup
insert-IsMap [] k s h = (refl, tt)
insert-IsMap ((j, u) ∷ seen) k s (h, hs) = elim (Bool-cases (j ≟ k)) [
  | inl e ↦ rw e (h, hs)
  | inr e ↦
      rw e
        (ground (arith, lookup-insert seen k j s, ≟_iff k j, ≟_iff j k), insert-IsMap seen k s hs)
]

delete-IsMap : (seen : Seen) (k : Text) → IsMap seen → IsMap (delete seen k)
unfolding delete
delete-IsMap [] k h = tt
delete-IsMap ((j, u) ∷ seen) k (h, hs) = elim (Bool-cases (j ≟ k)) [
  | inl e ↦ rw e (delete-IsMap seen k hs)
  | inr e ↦ rw e (ground (arith, lookup-delete seen k j), delete-IsMap seen k hs)
]

-- An entry with a key; if its time is `t`, it is that of `key`.
abbrev pub Apart : Text → ℕ → Text × ℕ → Type 0
Apart key t e = (is_empty e.0 ≡ false) × ((e.0 ≡ key) ⊎ (e.1 < t) ⊎ (t < e.1))

-- The key is in the table since `t`, and at most `n` entries are newer.
abbrev pub Lasts : Text → ℕ → ℕ → Seen → Type 0
Lasts key t n seen =
    (lookup seen key ≡ some t) × IsMap seen × All (Apart key t) seen × (newer t seen ≤ n)

make_room-All : (P : Text × ℕ → Type 0) (seen : Seen) → All P seen → All P (make_room seen)
unfolding make_room
make_room-All P seen h = elim (Bool-cases (leb max_seen_messages (length seen))) [
  | inl e ↦ rw e (delete-All P seen (oldest_from seen [] 0).0 h)
  | inr e ↦ rw e h
]

make_room-IsMap : (seen : Seen) → IsMap seen → IsMap (make_room seen)
unfolding make_room
make_room-IsMap seen h = elim (Bool-cases (leb max_seen_messages (length seen))) [
  | inl e ↦ rw e (delete-IsMap seen (oldest_from seen [] 0).0 h)
  | inr e ↦ rw e h
]

newer-make_room : (t : ℕ) (seen : Seen) → newer t (make_room seen) ≤ newer t seen
unfolding make_room
newer-make_room t seen = ground (
  arith,
  newer-delete t seen (oldest_from seen [] 0).0,
  Bool-cases (leb max_seen_messages (length seen)),
)

-- If no entry is older than that of the key, all others are newer.
newer_others :
    (key : Text) (t : ℕ) (seen : Seen)
    → IsMap seen
    → All (Apart key t) seen
    → ((i : Text) (s : ℕ) → lookup seen i ≡ some s → t ≤ s)
    → lookup seen key ≡ none
    → length seen ≤ newer t seen
unfolding newer lookup
newer_others key t [] m h least gone = ground arith
newer_others key t ((j, u) ∷ seen) (m, ms) ((x, y), hs) least gone =
    let ih =
      newer_others key t seen ms hs (λ i s f. least i s (ground (arith, ≟_iff j i)))
        (ground arith) in
    let at : t ≤ u = least j u (ground (arith, ≟_refl j)) in ground (arith, ih, ≟_iff j key)

newer_key :
    (key : Text) (t : ℕ) (seen : Seen)
    → IsMap seen
    → All (Apart key t) seen
    → ((i : Text) (s : ℕ) → lookup seen i ≡ some s → t ≤ s)
    → length seen ≤ newer t seen + 1
unfolding newer lookup
newer_key key t [] m h least = ground arith
newer_key key t ((j, u) ∷ seen) (m, ms) ((x, y), hs) least =
    let tail : (i : Text) (s : ℕ) → lookup seen i ≡ some s → t ≤ s =
      λ i s f. least i s (ground (arith, ≟_iff j i)) in
    let at : t ≤ u = least j u (ground (arith, ≟_refl j)) in
    elim (Bool-cases (j ≟ key)) [
      | inl e ↦
          let gone : lookup seen key ≡ none = ground (arith, ≟_iff j key) in
          ground (arith, newer_others key t seen ms hs tail gone)
      | inr e ↦ ground (arith, newer_key key t seen ms hs tail, ≟_iff j key)
    ]

-- A remembered key lasts while another comes, unless 4095 newer ones are in the table.
pub remember-Lasts :
    (key k : Text) (t n now : ℕ) (seen : Seen)
    → Lasts key t n seen
    → k ≢ key
    → is_empty k ≡ false
    → t < now
    → n + 1 < max_seen_messages
    → Lasts key t (suc n) (remember seen k now)
unfolding remember
remember-Lasts key k t n now seen (at, m, apart, few) ne filled later room = (
  elim (remember_keeps seen k key now t m (All-map (λ e h. h.0) seen apart) ne at) [
    | inl h ↦ h
    | inr (full, least) ↦ ground (arith, newer_key key t seen m apart least)
  ],
  insert-IsMap (make_room seen) k now (make_room-IsMap seen m),
  insert-All (Apart key t) (make_room seen) k now (make_room-All (Apart key t) seen apart)
      (filled, inr (inr later)),
  ground (arith, newer-insert t (make_room seen) k now, newer-make_room t seen),
)

-- The key that is remembered last.
pub remember-Lasts_now :
    (key : Text) (now : ℕ) (seen : Seen)
    → IsMap seen
    → All (λ e. (is_empty e.0 ≡ false) × (e.1 < now)) seen
    → is_empty key ≡ false
    → Lasts key now 0 (remember seen key now)
unfolding remember
remember-Lasts_now key now seen m h filled = (
  ground (arith, lookup-insert (make_room seen) key key now, ≟_refl key),
  insert-IsMap (make_room seen) key now (make_room-IsMap seen m),
  insert-All (Apart key now) (make_room seen) key now
      (make_room-All (Apart key now) seen (All-map (λ e x. (x.0, inr (inl x.1))) seen h))
      (filled, inl refl),
  ground (
    arith,
    newer-insert now (make_room seen) key now,
    newer-make_room now seen,
    newer_none now seen (All-map (λ e x. x.1) seen h),
  ),
)
