-- ===== src/Gateway/Dedup/Laws.antt =====
-- internal/gateway/dedup.go: the laws of the table of message keys.
use go_tiny_claw.Base.{
  ℕ, ◌+◌, ◌≤◌, ◌<◌, true, false, [], ◌∷◌, none, some, if◌then◌else◌, ltb, leb, Text, is_empty,
  text_eq, lookup, delete, length, ◌≡◌, ◌≢◌, ◌⊎◌, inl, inr, refl, arith, ◌↔◌, ◌≟◌, lookup-insert,
  lookup-delete, length-insert_le, length-delete_found, ≟_iff, ≟_refl, is_some, All, Bool-cases,
  leb→le, sym, ◌||◌,
}
use go_tiny_claw.Gateway.Dedup.{
  Seen, max_seen_messages, seen_ttl, seen_contains, oldest_from, make_room, remember,
}

oldest_from-found :
    (seen : Seen) (key : Text) (oldest : ℕ)
    → let k = (oldest_from seen key oldest).0 in (k ≡ key) ⊎ (is_some (lookup seen k) ≡ true)
unfolding oldest_from lookup
oldest_from-found [] key oldest = inl refl
oldest_from-found ((id, at_time) ∷ rest) key oldest =
    let older = is_empty key || ltb at_time oldest in
    let key' = if older then id else key in
    let oldest' = if older then at_time else oldest in
    let k = (oldest_from rest key' oldest').0 in
    elim (oldest_from-found rest key' oldest') [
      | inl e ↦ elim (Bool-cases older) [
        | inl o ↦ inr (ground (arith, ≟_iff id k))
        | inr o ↦ inl (ground arith)
      ]
      | inr f ↦ inr (ground (arith, ≟_iff id k))
    ]

oldest-found :
    (id : Text) (at_time : ℕ) (rest : Seen)
    → is_some (lookup ((id, at_time) ∷ rest) (oldest_from ((id, at_time) ∷ rest) [] 0).0) ≡ true
unfolding oldest_from lookup
oldest-found id at_time rest =
    let k = (oldest_from rest id at_time).0 in
    ground (arith, oldest_from-found rest id at_time, ≟_iff id k)

make_room-lt :
    (seen : Seen) → length seen ≤ max_seen_messages → length (make_room seen) < max_seen_messages
unfolding make_room
make_room-lt [] h = ground arith
make_room-lt ((id, at_time) ∷ rest) h = ground (
  arith,
  length-delete_found ((id, at_time) ∷ rest) (oldest_from ((id, at_time) ∷ rest) [] 0).0
      (oldest-found id at_time rest),
)

-- The table never holds more than its bound.
pub remember_bounded :
    (seen : Seen) (key : Text) (now : ℕ)
    → length seen ≤ max_seen_messages
    → length (remember seen key now) ≤ max_seen_messages
unfolding remember
remember_bounded seen key now h =
    omega (arith, length-insert_le (make_room seen) key now, make_room-lt seen h)

oldest_from-le :
    (seen : Seen) (key : Text) (oldest : ℕ)
    → All (λ e. is_empty e.0 ≡ false) seen
    → ((is_empty key ≡ false) → (oldest_from seen key oldest).1 ≤ oldest)
      × ((j : Text) (t : ℕ) → lookup seen j ≡ some t → (oldest_from seen key oldest).1 ≤ t)
unfolding oldest_from lookup
oldest_from-le [] key oldest h = (λ e. omega arith, λ j t e. ground arith)
oldest_from-le ((id, at_time) ∷ rest) key oldest h =
    let older = is_empty key || ltb at_time oldest in
    let key' = if older then id else key in
    let oldest' = if older then at_time else oldest in
    let ih = oldest_from-le rest key' oldest' h.1 in
    (λ e. ground (arith, ih.0), λ j t e. ground (arith, ih.0, ih.1 j t))

-- A remembered key is recognised until 24 hours have passed, and not after.
pub remember-contains :
    (seen : Seen) (key : Text) (now later : ℕ)
    → (seen_contains (remember seen key now) key later ≡ true) ↔ (later < now + seen_ttl)
unfolding seen_contains remember
remember-contains seen key now later =
    ground (arith, lookup-insert (make_room seen) key key now, ≟_refl key)

-- A map: no key has two entries.
abbrev pub IsMap : Seen → Type 0
IsMap [] = Unit
IsMap (e ∷ rest) = (lookup rest e.0 ≡ none) × IsMap rest

oldest_from-lookup :
    (seen : Seen) (key : Text) (oldest : ℕ)
    → IsMap seen
    → let r = oldest_from seen key oldest in
      ((r.0 ≡ key) × (r.1 ≡ oldest)) ⊎ (lookup seen r.0 ≡ some r.1)
unfolding oldest_from lookup
oldest_from-lookup [] key oldest h = inl (refl, refl)
oldest_from-lookup ((id, at_time) ∷ rest) key oldest h =
    let older = is_empty key || ltb at_time oldest in
    let key' = if older then id else key in
    let oldest' = if older then at_time else oldest in
    let r = oldest_from rest key' oldest' in
    elim (oldest_from-lookup rest key' oldest' h.1) [
      | inl (e, f) ↦ elim (Bool-cases older) [
        | inl o ↦ inr (ground (arith, ≟_iff id r.0))
        | inr o ↦ inl (ground arith, ground arith)
      ]
      | inr g ↦ inr (ground (arith, ≟_iff id r.0))
    ]

oldest-lookup :
    (id : Text) (at_time : ℕ) (rest : Seen)
    → IsMap ((id, at_time) ∷ rest)
    → let r = oldest_from ((id, at_time) ∷ rest) [] 0 in
      lookup ((id, at_time) ∷ rest) r.0 ≡ some r.1
unfolding oldest_from lookup
oldest-lookup id at_time rest h =
    let r = oldest_from rest id at_time in
    ground (arith, oldest_from-lookup rest id at_time h.1, ≟_iff id r.0)

oldest-step :
    (id : Text) (at_time : ℕ) (rest : Seen) (j : Text) (t : ℕ)
    → IsMap ((id, at_time) ∷ rest)
    → lookup ((id, at_time) ∷ rest) j ≡ some t
    → j ≡ (oldest_from ((id, at_time) ∷ rest) [] 0).0
    → t ≡ (oldest_from ((id, at_time) ∷ rest) [] 0).1
oldest-step id at_time rest j t h e f = cc (oldest-lookup id at_time rest h)

oldest-time :
    (seen : Seen) (j : Text) (t : ℕ)
    → IsMap seen
    → lookup seen j ≡ some t
    → j ≡ (oldest_from seen [] 0).0
    → t ≡ (oldest_from seen [] 0).1
unfolding lookup
oldest-time [] j t h e f = ground arith
oldest-time ((id, at_time) ∷ rest) j t h e f = oldest-step id at_time rest j t h e f

-- Remembering one key keeps every other entry, but for one entry when the table is full, and that
-- entry is then no younger than any in the table. (The table is a map, and its keys are nonempty, as
-- those of messages are.)
pub remember_keeps :
    (seen : Seen) (key j : Text) (now t : ℕ)
    → IsMap seen
    → All (λ e. is_empty e.0 ≡ false) seen
    → key ≢ j
    → lookup seen j ≡ some t
    → (lookup (remember seen key now) j ≡ some t)
      ⊎ ((max_seen_messages ≤ length seen) × ((i : Text) (s : ℕ) → lookup seen i ≡ some s → t ≤ s))
unfolding remember make_room
remember_keeps seen key j now t unique nonempty ne here =
    elim (Bool-cases (leb max_seen_messages (length seen))) [
      | inl full ↦ elim (Bool-cases ((oldest_from seen [] 0).0 ≟ j)) [
        | inl e ↦
            let same = oldest-time seen j t unique here (sym ((≟_iff _ j).0 e)) in
            inr (
              leb→le _ _ full,
              λ i s f. omega (arith, same, (oldest_from-le seen [] 0 nonempty).1 i s f),
            )
        | inr e ↦ inl (
            ground (
              arith,
              lookup-insert (delete seen (oldest_from seen [] 0).0) key j now,
              lookup-delete seen (oldest_from seen [] 0).0 j,
              ≟_iff key j,
            ))
      ]
      | inr room ↦ inl (ground (arith, lookup-insert seen key j now, ≟_iff key j))
    ]
