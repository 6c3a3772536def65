-- ===== src/Context/Service/Ending.antt =====
-- internal/context/service.go and session.go: deleting and closing sessions keep the ownership.
use go_tiny_claw.Base.{
  ℕ, true, false, none, some, ◌==◌, ==_iff, Text, text_eq, nat_eq, ◌≟◌, ≟_iff, is_some, Result, ok,
  err, Ctx, lookup, insert, delete, lookup-insert, lookup-delete, ◌≡◌, ◌⊎◌, inl, inr, refl, sym, ap,
  subst, ◌∙◌, arith, Option-cases, Bool-cases,
}
use go_tiny_claw.SessionStore.{StoreError}
use go_tiny_claw.SessionStore.Memory
use go_tiny_claw.SessionStore.Memory.{MemoryStore, acquire_writer, release, store_error}
use go_tiny_claw.Context.Session.{Session, close}
use go_tiny_claw.Context.Service.Ownership.{
  released-same, release-Named, Named, Inv, Inv-store, acquire-lem,
}
use go_tiny_claw.Context.Service.{SessionService, delete_session, close_session, close_open}

-- What `Delete` of the store does.
abbrev Removed : MemoryStore → Text → Result Memory.MemoryError (Unit {0}) × MemoryStore → Type 0
Removed m id p =
    ((j : Text) → lookup p.1.writers j ≡ lookup m.writers j)
    × Named p.1
    × (((p.0 ≡ ok tt) × (lookup m.writers id ≡ none)) ⊎ ((e : Memory.MemoryError) × (p.0 ≡ err e)))

remove-Removed :
    (m : MemoryStore) (c : Ctx) (id : Text) → Named m → Removed m id (Memory.remove m c id)
unfolding Memory.remove Memory.delete_held
remove-Removed m c id named =
    let n = (acquire_writer m c id).1 in
    let o = Memory.remove m c id in
    elim (acquire-lem m c id) [
      | inr (e, f, same) ↦
          subst (Removed m id) (sym {a = o} {b = (err e, n)} (ground arith))
            (λ j. ap (λ x. lookup x.writers j) same, subst Named (sym same) named, inr (e, refl))
      | inl (w, f, free, same, held) ↦
          let named_n : Named n = λ j t h. named j t (ap (λ x. lookup x j) (sym same) ∙ h) in
          let n' = record n { sessions = delete n.sessions id } in
          let named' : Named n' =
            λ j t h. named_n j t (ground (arith, lookup-delete n.sessions id j)) in
          elim (Option-cases (lookup n.sessions id)) [
            | inl g ↦
                subst (Removed m id)
                  (sym {a = o} {b = (err (store_error StoreError.not_found), release n id w)}
                    (ground arith))
                  (
                    released-same m n id w free held,
                    release-Named n id w named_n,
                    inr (store_error StoreError.not_found, refl),
                  )
            | inr (t, g) ↦
                subst (Removed m id) (sym {a = o} {b = (ok tt, release n' id w)} (ground arith)) (
                  released-same m n' id w free held,
                  release-Named n' id w named',
                  inl (refl, free),
                )
          ]
    ]

-- A session that nobody has open is forgotten.
Inv-deleted :
    (v : SessionService) (m : MemoryStore) (id : Text)
    → Inv v
    → ((j : Text) → lookup m.writers j ≡ lookup v.store.writers j)
    → Named m
    → lookup v.store.writers id ≡ none
    → Inv (record v { store = m; sessions = delete v.sessions id })
Inv-deleted v m id (owns, fresh, opens, named) same named' free = (
  λ o s h live.
      let (held, some_writer, at) = owns o s h live in
      (
        same s.id ∙ held,
        some_writer,
        ground (arith, lookup-delete v.sessions id s.id, ≟_iff id s.id),
      ),
  fresh,
  λ j o h. opens j o (ground (arith, lookup-delete v.sessions id j)),
  named',
)

pub delete_session-Inv :
    (v : SessionService) (c : Ctx) (id : Text) → Inv v → Inv (delete_session v c id).1
unfolding delete_session
delete_session-Inv v c id inv =
    let after = (delete_session v c id).1 in
    let n = (Memory.remove v.store c id).1 in
    let (same, named, how) = remove-Removed v.store c id inv.3 in
    elim how [
      | inl (f, free) ↦
          subst Inv
            (sym {a = after} {b = record v { store = n; sessions = delete v.sessions id }}
              (ground arith))
            (Inv-deleted v n id inv same named free)
      | inr (e, f) ↦
          subst Inv (sym {a = after} {b = record v { store = n }} (ground arith))
            (Inv-store v n inv same named)
    ]

-- The heap has another session at a number, with the same owner.
pub Inv-heap :
    (v : SessionService) (m : MemoryStore) (o : ℕ) (s t : Session)
    → Inv v
    → lookup v.heap o ≡ some s
    → t.id ≡ s.id
    → t.writer ≡ s.writer
    → t.closed ≡ s.closed
    → ((j : Text) → lookup m.writers j ≡ lookup v.store.writers j)
    → Named m
    → Inv (record v { store = m; heap = insert v.heap o t })
Inv-heap v m o s t (owns, fresh, opens, named) at id writer closed same named' = (
  λ p u h live. elim (Bool-cases (o == p)) [
    | inl e ↦
        let is_t : t ≡ u = ground (arith, lookup-insert v.heap o p t) in
        let (held, some_writer, there) = owns o s at (ground arith) in
        subst
          (λ x.
            (lookup m.writers x.id ≡ x.writer)
            × (is_some x.writer ≡ true)
            × (lookup v.sessions x.id ≡ some p))
          is_t
          (
            ap (λ x. lookup m.writers x) id ∙ same s.id ∙ held ∙ sym writer,
            ap is_some writer ∙ some_writer,
            ap (λ x. lookup v.sessions x) id ∙ there ∙ ap some (ground (arith, ==_iff o p)),
          )
    | inr e ↦
        let (held, some_writer, there) =
          owns p u (ground (arith, lookup-insert v.heap o p t)) live in
        (same u.id ∙ held, some_writer, there)
  ],
  λ p h. ground (arith, lookup-insert v.heap o p t, ==_iff o p, fresh p),
  λ j p h.
      let (u, there, named_so, live) = opens j p h in
      elim (Bool-cases (o == p)) [
        | inl e ↦
            let is_u : s ≡ u = ground (arith, ==_iff o p) in
            (
              t,
              ground (arith, lookup-insert v.heap o p t),
              id ∙ ap (λ x. x.id) is_u ∙ named_so,
              closed ∙ ap (λ x. x.closed) is_u ∙ live,
            )
        | inr e ↦ (u, ground (arith, lookup-insert v.heap o p t), named_so, live)
      ],
  named',
)

-- An open session is closed: its writer is free, and the map forgets it.
Inv-closed :
    (v : SessionService) (o w : ℕ) (s : Session)
    → Inv v
    → lookup v.heap o ≡ some s
    → s.closed ≡ false
    → s.writer ≡ some w
    → Inv (record v {
      store = release v.store s.id w;
      heap = insert v.heap o (record s { closed = true });
      sessions = delete v.sessions s.id;
    })
unfolding release
Inv-closed v o w s (owns, fresh, opens, named) at live its =
    let t = record s { closed = true } in
    let (held, some_writer, there) = owns o s at live in
    (
      λ p u h l.
          let (held', some_writer', there') =
            owns p u (ground (arith, lookup-insert v.heap o p t)) l in
          let other : (s.id ≟ u.id) ≡ false =
            ground (arith, ≟_iff s.id u.id, lookup-insert v.heap o p t, ==_iff o p) in
          (
            ground (arith, lookup-delete v.store.writers s.id u.id),
            some_writer',
            ground (arith, lookup-delete v.sessions s.id u.id),
          ),
      λ p h. ground (arith, lookup-insert v.heap o p t, ==_iff o p, fresh p),
      λ j p h.
          let other : (s.id ≟ j) ≡ false = ground (arith, lookup-delete v.sessions s.id j) in
          let (u, there', named_so, live') =
            opens j p (ground (arith, lookup-delete v.sessions s.id j)) in
          (
            u,
            ground (arith, lookup-insert v.heap o p t, ==_iff o p, ≟_iff s.id j),
            named_so,
            live',
          ),
      release-Named v.store s.id w named,
    )

pub close_session-Inv : (v : SessionService) (o : ℕ) → Inv v → Inv (close_session v o)
unfolding close_session close_open close
close_session-Inv v o inv = elim (Option-cases (lookup v.heap o)) [
  | inl e ↦ subst Inv (sym {a = close_session v o} {b = v} (ground arith)) inv
  | inr (s, e) ↦ elim (Bool-cases s.closed) [
    | inl f ↦
        subst Inv
          (sym {a = close_session v o} {b = record v { heap = insert v.heap o s }} (ground arith))
          (Inv-heap v v.store o s s inv e refl refl refl (λ j. refl) inv.3)
    | inr f ↦
        let (held, some_writer, there) = inv.0 o s e f in
        elim (Option-cases s.writer) [
          | inl g ↦ ground arith
          | inr (w, g) ↦
              let mine = ==_iff o o in
              subst Inv
                (sym {a = close_session v o}
                  {b = record v {
                    store = release v.store s.id w;
                    heap = insert v.heap o (record s { closed = true });
                    sessions = delete v.sessions s.id;
                  }}
                  (ground (arith, mine)))
                (Inv-closed v o w s inv e f g)
        ]
  ]
]
