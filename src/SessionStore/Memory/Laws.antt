-- ===== src/SessionStore/Memory/Laws.antt =====
-- What the store in memory promises.
use go_tiny_claw.Base.{
  ℕ, List, [], ◌++◌, none, some, if◌then◌else◌, Text, text_eq, ok, err, ◌>>=◌, Ctx, background,
  lookup, insert, ◌≡◌, ◌≢◌, ◌≟◌, arith, lookup-insert, lookup-delete, insert-insert, ≟_refl,
  Option-cases, Result-cases, inl, inr,
}
use go_tiny_claw.SessionStore.{Snapshot, Event, StoreError, apply_all}
use go_tiny_claw.SessionStore.Replay.{apply_all-append}
use go_tiny_claw.SessionStore.Memory.{
  MemoryStore, store_error, release, acquire_writer, create, append, load, remove,
}

-- An append that succeeds has applied all of its events to the session as it was, in order; it leaves
-- the other sessions and the writers alone. (One that fails has no new store.)
pub append_atomic :
    (m n : MemoryStore) (c : Ctx) (id j : Text) (es : List Event)
    → append m c id es ≡ ok n
    → (s : Snapshot) × (t : Snapshot) × (lookup m.sessions id ≡ some s)
      × (apply_all s es ≡ ok t)
      × (lookup n.sessions j ≡ (if id ≟ j then some t else lookup m.sessions j))
      × (n.writers ≡ m.writers)
unfolding append
append_atomic m n c id j es h = elim (Option-cases (lookup m.sessions id)) [
  | inl e ↦ ground arith
  | inr (s, e) ↦ elim (Result-cases (apply_all s es)) [
    | inr (x, f) ↦ ground arith
    | inl (t, f) ↦ (s, t, e, f, ground (arith, lookup-insert m.sessions id j t), ground arith)
  ]
]

append-known :
    (m : MemoryStore) (id : Text) (es : List Event) (s : Snapshot)
    → lookup m.sessions id ≡ some s
    → append m background id es ≡ elim (apply_all s es) [
      | err e ↦ err (store_error e)
      | ok t ↦ ok (record m { sessions = insert m.sessions id t })
    ]
unfolding append
append-known m id es s h = ground arith

-- Events written in two calls are the same as in one, errors included.
pub append-append :
    (m : MemoryStore) (id : Text) (es fs : List Event)
    → append m background id (es ++ fs)
      ≡ (append m background id es >>= λ n. append n background id fs)
unfolding append
append-append m id es fs = elim (Option-cases (lookup m.sessions id)) [
  | inl e ↦ ground arith
  | inr (s, e) ↦ elim (Result-cases (apply_all s es)) [
    | inr (x, f) ↦ ground (arith, apply_all-append s es fs)
    | inl (t, f) ↦ elim (Result-cases (apply_all t fs)) [
      | inr (y, g) ↦
          ground (arith, apply_all-append s es fs, lookup-insert m.sessions id id t, ≟_refl id)
      | inl (u, g) ↦ ground (
        arith,
        apply_all-append s es fs,
        lookup-insert m.sessions id id t,
        ≟_refl id,
        insert-insert m.sessions id t u,
      )
    ]
  ]
]

-- A session has one writer. While its lock is held nobody else gets one, and the session cannot be
-- deleted; a lock that is not this one frees nothing; and releasing this one frees the session.
pub writer_exclusive :
    (m n : MemoryStore) (c d : Ctx) (id : Text) (lock other : ℕ)
    → acquire_writer m c id ≡ (ok lock, n)
    → d 0 ≡ none
    → other ≢ lock
    → (lookup m.writers id ≡ none)
      × (acquire_writer n d id ≡ (err (store_error StoreError.in_use), n))
      × (remove n d id ≡ (err (store_error StoreError.in_use), n))
      × (release n id other ≡ n)
      × (lookup (release n id lock).writers id ≡ none)
unfolding acquire_writer release remove
writer_exclusive m n c d id lock other h live ne =
    let held = lookup-insert m.writers id id lock in
    let free = lookup-delete n.writers id id in
    let same = ≟_refl id in
    (
      ground arith,
      ground (arith, held, same),
      ground (arith, held, same),
      ground (arith, held, same),
      ground (arith, held, same, free),
    )

-- A created session loads as it was given, and a second creation under its ID is refused; so is one
-- without an ID.
pub create-load :
    (m n : MemoryStore) (c : Ctx) (s t : Snapshot)
    → create m c s ≡ ok n
    → (load n background s.metadata.id ≡ ok s)
      × (s.metadata.id ≢ [])
      × (t.metadata.id ≡ s.metadata.id
          → create n background t ≡ err (store_error StoreError.exists))
unfolding create load
create-load m n c s t h =
    let stored = lookup-insert m.sessions s.metadata.id s.metadata.id s in
    let same = ≟_refl s.metadata.id in
    (ground (arith, stored, same), ground arith, λ e. ground (arith, stored, same))
