-- ===== src/Context/Service/Ownership.antt =====
-- internal/context/service.go: who owns a session, and that taking a writer keeps it so.
use go_tiny_claw.Base.{
  ℕ, ◌≤◌, Bool, true, false, [], none, some, if◌then◌else◌, ◌==◌, ==_iff, Text, text_eq, nat_eq,
  ◌≟◌, ≟_iff, ≟_refl, is_some, Result, ok, err, Ctx, lookup, insert, lookup-insert, lookup-delete,
  ◌≡◌, ◌≢◌, ◌⊎◌, inl, inr, refl, sym, ap, subst, ◌∙◌, arith, Option-cases, Result-cases, Bool-cases,
}
use go_tiny_claw.SessionStore.{Snapshot, StoreError}
use go_tiny_claw.SessionStore.Memory
use go_tiny_claw.SessionStore.Memory.{MemoryStore, acquire_writer, release, store_error}
use go_tiny_claw.Context.Session.{Session}
use go_tiny_claw.Context.Service.{
  SessionService, attach, create_held, load_held, loaded_session, snapshot_of,
}

-- Every stored session stands under its own ID, which is not empty.
abbrev pub Named : MemoryStore → Type 0
Named m =
    (id : Text) (t : Snapshot)
    → lookup m.sessions id ≡ some t
    → (t.metadata.id ≡ id) × (t.metadata.id ≢ [])

-- An open session holds the writer of its ID, and the map knows it.
abbrev pub Owns : SessionService → ℕ → Session → Type 0
Owns v o s =
    (lookup v.store.writers s.id ≡ s.writer)
    × (is_some s.writer ≡ true)
    × (lookup v.sessions s.id ≡ some o)

-- What the map has is an open session of that ID.
abbrev pub IsOpen : SessionService → Text → ℕ → Type 0
IsOpen v id o = (s : Session) × (lookup v.heap o ≡ some s) × (s.id ≡ id) × (s.closed ≡ false)

-- The invariant of the service.
abbrev pub Inv : SessionService → Type 0
Inv v =
    ((o : ℕ) (s : Session) → lookup v.heap o ≡ some s → s.closed ≡ false → Owns v o s)
    × ((o : ℕ) → v.next ≤ o → lookup v.heap o ≡ none)
    × ((id : Text) (o : ℕ) → lookup v.sessions id ≡ some o → IsOpen v id o)
    × Named v.store

-- A change of the store that leaves each writer as it was.
pub Inv-store :
    (v : SessionService) (m : MemoryStore)
    → Inv v
    → ((id : Text) → lookup m.writers id ≡ lookup v.store.writers id)
    → Named m
    → Inv (record v { store = m })
Inv-store v m (owns, fresh, opens, named) same named' = (
  λ o s h live.
      let (held, some_writer, at) = owns o s h live in (same s.id ∙ held, some_writer, at),
  fresh,
  opens,
  named',
)

attach-Owns :
    (v : SessionService) (m : MemoryStore) (id : Text) (s t : Session) (writer o : ℕ)
    → Inv v
    → s.id ≡ id
    → lookup v.store.writers id ≡ none
    → ((j : Text) → lookup m.writers j ≡ (if id ≟ j then some writer else lookup v.store.writers j))
    → lookup (insert v.heap v.next (record s { durable = true; writer = some writer })) o ≡ some t
    → t.closed ≡ false
    → (lookup m.writers t.id ≡ t.writer)
      × (is_some t.writer ≡ true)
      × (lookup (insert v.sessions id v.next) t.id ≡ some o)
attach-Owns v m id s t writer o (owns, fresh, opens, named) at free held h live =
    let s' = record s { durable = true; writer = some writer } in
    let found = lookup-insert v.heap v.next o s' in
    let mapped = lookup-insert v.sessions id t.id v.next in
    elim (Bool-cases (v.next == o)) [
      | inl e ↦
          let same : s' ≡ t = ground arith in
          let named_so : t.id ≡ id = ap (λ x. x.id) (sym same) ∙ at in
          let its : t.writer ≡ some writer = ap (λ x. x.writer) (sym same) in
          let is_it = (≟_iff id t.id).1 (sym named_so) in
          (
            held t.id ∙ (rw is_it (sym its)),
            rw its refl,
            mapped ∙ (rw is_it (ap some (ground (arith, ==_iff v.next o)))),
          )
      | inr e ↦
          let (old, some_writer, there) = owns o t (ground arith) live in
          let other : (id ≟ t.id) ≡ false = ground (arith, ≟_iff id t.id) in
          (held t.id ∙ (rw other old), some_writer, mapped ∙ (rw other there))
    ]

attach-IsOpen :
    (v : SessionService) (m : MemoryStore) (id j : Text) (s : Session) (writer o : ℕ)
    → Inv v
    → s.id ≡ id
    → s.closed ≡ false
    → lookup (insert v.sessions id v.next) j ≡ some o
    → (t : Session) × (lookup
          (insert v.heap v.next (record s { durable = true; writer = some writer }))
          o
        ≡ some t)
      × (t.id ≡ j)
      × (t.closed ≡ false)
attach-IsOpen v m id j s writer o (owns, fresh, opens, named) at live h =
    let s' = record s { durable = true; writer = some writer } in
    let found = lookup-insert v.heap v.next o s' in
    let mapped = lookup-insert v.sessions id j v.next in
    elim (Bool-cases (id ≟ j)) [
      | inl e ↦ (s', ground (arith, ==_iff v.next o), ground (arith, ≟_iff id j), live)
      | inr e ↦
          let (t, there, same, live') = opens j o (ground arith) in
          (t, ground (arith, fresh o, ==_iff v.next o), same, live')
    ]

Inv-attach :
    (v : SessionService) (m : MemoryStore) (id : Text) (s : Session) (writer : ℕ)
    → Inv v
    → Named m
    → s.id ≡ id
    → s.closed ≡ false
    → lookup v.store.writers id ≡ none
    → ((j : Text) → lookup m.writers j ≡ (if id ≟ j then some writer else lookup v.store.writers j))
    → Inv (attach v m id s writer).1
unfolding attach
Inv-attach v m id s writer inv named' at live free held = (
  λ o t h l. attach-Owns v m id s t writer o inv at free held h l,
  λ o h. ground (
    arith,
    lookup-insert v.heap v.next o (record s { durable = true; writer = some writer }),
    ==_iff v.next o,
    inv.1 o,
  ),
  λ j o h. attach-IsOpen v m id j s writer o inv at live h,
  named',
)

-- What `AcquireWriter` does to the store.
pub acquire-lem :
    (m : MemoryStore) (c : Ctx) (id : Text)
    → let (r, n) = acquire_writer m c id in
      ((w : ℕ) × (r ≡ ok w)
        × (lookup m.writers id ≡ none)
        × (n.sessions ≡ m.sessions)
        × ((j : Text) → lookup n.writers j ≡ (if id ≟ j then some w else lookup m.writers j)))
      ⊎ ((e : Memory.MemoryError) × (r ≡ err e) × (n ≡ m))
unfolding acquire_writer
acquire-lem m c id = elim (Option-cases (c 0)) [
  | inr (e, f) ↦ inr (Memory.context_done e, ground arith, ground arith)
  | inl f ↦ elim (Option-cases (lookup m.writers id)) [
    | inr (w, g) ↦ inr (store_error StoreError.in_use, ground arith, ground arith)
    | inl g ↦ elim (Option-cases (c 1)) [
      | inr (e, h) ↦ inr (Memory.context_done e, ground arith, ground arith)
      | inl h ↦ inl (
        m.next_lock,
        ground arith,
        g,
        ground arith,
        λ j. ground (arith, lookup-insert m.writers id j m.next_lock),
      )
    ]
  ]
]

-- A writer that was just taken and is given back.
pub released-same :
    (m n : MemoryStore) (id : Text) (w : ℕ)
    → lookup m.writers id ≡ none
    → ((j : Text) → lookup n.writers j ≡ (if id ≟ j then some w else lookup m.writers j))
    → (j : Text) → lookup (release n id w).writers j ≡ lookup m.writers j
unfolding release
released-same m n id w free held j =
    ground (arith, held id, held j, ≟_refl id, lookup-delete n.writers id j, ==_iff w w, ≟_iff id j)

pub release-Named : (n : MemoryStore) (id : Text) (w : ℕ) → Named n → Named (release n id w)
unfolding release
release-Named n id w named j t h = named j t (ground arith)

create-Named :
    (n k : MemoryStore) (c : Ctx) (s : Snapshot)
    → Named n
    → Memory.create n c s ≡ ok k
    → Named k × (k.writers ≡ n.writers)
unfolding Memory.create
create-Named n k c s named h = (
  λ j t f. (
    ground (arith, named j t, lookup-insert n.sessions s.metadata.id j s, ≟_iff s.metadata.id j),
    λ e.
        ground
          (arith, named j t, lookup-insert n.sessions s.metadata.id j s, ≟_iff s.metadata.id j),
  ),
  ground arith,
)

-- A session that a call takes the writer for: it stands, attached, or the writer is given back.
held-Inv :
    (v : SessionService) (n : MemoryStore) (id : Text) (w : ℕ)
    → Inv v
    → Named n
    → lookup v.store.writers id ≡ none
    → ((j : Text) → lookup n.writers j ≡ (if id ≟ j then some w else lookup v.store.writers j))
    → Inv (record v { store = release n id w })
held-Inv v n id w inv named free held =
    Inv-store v (release n id w) inv (released-same v.store n id w free held)
      (release-Named n id w named)

pub load-found :
    (m : MemoryStore) (c : Ctx) (id : Text) (t : Snapshot)
    → Memory.load m c id ≡ ok t
    → lookup m.sessions id ≡ some t
unfolding Memory.load
load-found m c id t h = elim (Option-cases (c 0)) [
  | inr (e, f) ↦ ground arith
  | inl f ↦ elim (Option-cases (lookup m.sessions id)) [
    | inl g ↦ ground arith
    | inr (u, g) ↦ ground arith
  ]
]

pub load_held-Inv :
    (stat : Text → Result ℕ Bool) (v : SessionService) (n : MemoryStore) (c : Ctx) (id : Text)
    (w : ℕ)
    → Inv v
    → n.sessions ≡ v.store.sessions
    → lookup v.store.writers id ≡ none
    → ((j : Text) → lookup n.writers j ≡ (if id ≟ j then some w else lookup v.store.writers j))
    → Inv (load_held stat v n c id w).1
unfolding load_held Memory.load
load_held-Inv stat v n c id w inv same free held =
    let named : Named n = λ j t h. inv.3 j t (ap (λ x. lookup x j) (sym same) ∙ h) in
    let given_back = held-Inv v n id w inv named free held in
    let thus : (x : SessionService)
        → (load_held stat v n c id w).1 ≡ x
        → Inv x
        → Inv (load_held stat v n c id w).1 =
      λ x e h. subst Inv (sym e) h in
    let back = record v { store = release n id w } in
    elim (Result-cases (Memory.load n c id)) [
      | inr (e, f) ↦ thus back (ground arith) given_back
      | inl (t, f) ↦ elim (Result-cases (stat t.metadata.work_dir)) [
        | inr (e, g) ↦ thus back (ground arith) given_back
        | inl (dir, g) ↦ elim (Bool-cases dir) [
          | inr h ↦ thus back (ground arith) given_back
          | inl h ↦
              let at : lookup n.sessions id ≡ some t = load-found n c id t f in
              thus (attach v n id (loaded_session t) w).1 (ground arith)
                (Inv-attach v n id (loaded_session t) w inv named (named id t at).0 refl free held)
        ]
      ]
    ]

pub create_held-Inv :
    (v : SessionService) (n : MemoryStore) (c : Ctx) (id : Text) (s : Session) (w : ℕ)
    → Inv v
    → s.id ≡ id
    → s.closed ≡ false
    → n.sessions ≡ v.store.sessions
    → lookup v.store.writers id ≡ none
    → ((j : Text) → lookup n.writers j ≡ (if id ≟ j then some w else lookup v.store.writers j))
    → Inv (create_held v n c id s w).1
unfolding create_held
create_held-Inv v n c id s w inv at live same free held =
    let named : Named n = λ j t h. inv.3 j t (ap (λ x. lookup x j) (sym same) ∙ h) in
    let thus : (x : SessionService)
        → (create_held v n c id s w).1 ≡ x
        → Inv x
        → Inv (create_held v n c id s w).1 =
      λ x e h. subst Inv (sym e) h in
    elim (Result-cases (Memory.create n c (snapshot_of s))) [
      | inr (e, f) ↦
          thus (record v { store = release n id w }) (ground arith)
            (held-Inv v n id w inv named free held)
      | inl (k, f) ↦
          let (named', writers) = create-Named n k c (snapshot_of s) named f in
          thus (attach v k id s w).1 (ground arith) (
            Inv-attach v k id s w inv named' at live free
              (λ j. ap (λ x. lookup x j) writers ∙ held j))
    ]
