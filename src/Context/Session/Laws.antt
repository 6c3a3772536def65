-- ===== src/Context/Session/Laws.antt =====
-- internal/context/session.go: the laws of a session beside its store.
use go_tiny_claw.Base.{
  ℕ, suc, ◌+◌, true, false, ◌&&◌, List, [], ◌∷◌, ◌++◌, none, some, Text, text_eq, ok, err, is_ok,
  Ctx, background, length, lookup, ◌≡◌, ◌≢◌, refl, arith, Bool-cases, Result-cases, inl, inr, ◌⊎◌,
  ≟_refl, ≟_iff, ==_iff, lookup-delete,
}
use go_tiny_claw.Schema.{Message}
use go_tiny_claw.SessionStore.{
  Snapshot, Event, apply, apply_type, apply_all, new_event, usage_recorded, message_events, stamp,
}
use go_tiny_claw.SessionStore.Replay.{apply_all-messages}
use go_tiny_claw.SessionStore.Memory.{MemoryStore, append, release}
use go_tiny_claw.SessionStore.Memory.Laws.{append_atomic}
use go_tiny_claw.Context.Session.{
  Session, session_closed, if_open, store_first, UsageBilling, add_usage, append_messages,
  record_usage, close,
}

-- A durable session stands in the store with its history and its usage.
abbrev pub Agrees : Session → MemoryStore → Type 0
Agrees s m =
    s.durable ≡ true
    → (s.id ≢ [])
      × (t : Snapshot) × (lookup m.sessions s.id ≡ some t)
      × (t.metadata.id ≡ s.id)
      × (t.history ≡ s.history)
      × (t.usage ≡ s.usage)
      × (t.metadata.messages ≡ length t.history)

-- What a change that succeeds has done.
pub changed :
    (s u : Session) (m : MemoryStore) (c : Ctx) (es : List Event) (t : Session) (n : MemoryStore)
    → if_open s c (store_first s m c es u) ≡ ok (t, n)
    → (s.closed ≡ false)
      × (t ≡ u)
      × (((s.durable ≡ false) × (n ≡ m))
          ⊎ ((s.durable ≡ true) × (append m (λ i. c (suc (suc i))) s.id es ≡ ok n)))
changed s u m c es t n h = elim (Bool-cases s.durable) [
  | inr e ↦ (ground arith, ground arith, inl (e, ground arith))
  | inl e ↦ (
    ground (arith, Result-cases (append m (λ i. c (suc (suc i))) s.id es)),
    ground (arith, Result-cases (append m (λ i. c (suc (suc i))) s.id es)),
    inr (e, ground (arith, Result-cases (append m (λ i. c (suc (suc i))) s.id es))),
  )
]

-- The events of an append that succeeded have been applied to the session's snapshot.
stored :
    (s : Session) (m n : MemoryStore) (c : Ctx) (es : List Event) (t u : Snapshot) (other : Text)
    → append m c s.id es ≡ ok n
    → lookup m.sessions s.id ≡ some t
    → apply_all t es ≡ ok u
    → (lookup n.sessions s.id ≡ some u)
      × (s.id ≢ other → lookup n.sessions other ≡ lookup m.sessions other)
stored s m n c es t u other h at applied =
    let (t₁, u₁, at₁, applied₁, after, _) = append_atomic m n c s.id s.id es h in
    let (t₂, u₂, at₂, applied₂, others, _) = append_atomic m n c s.id other es h in
    (ground (arith, ≟_refl s.id), λ ne. ground (arith, ≟_iff s.id other))

-- A session that agrees with its store does so after an append, which puts the messages at the end
-- of both and changes no other session and no usage.
pub append_messages-Agrees :
    (s : Session) (m : MemoryStore) (c : Ctx) (clock : ℕ → ℕ) (now : ℕ) (ms : List Message)
    (t : Session) (n : MemoryStore) (other : Text)
    → Agrees s m
    → append_messages s m c clock now ms ≡ ok (t, n)
    → s.id ≢ other
    → Agrees t n
      × (t.history ≡ s.history ++ ms)
      × (t.usage ≡ s.usage)
      × (s.closed ≡ false)
      × (lookup n.sessions other ≡ lookup m.sessions other)
unfolding append_messages
append_messages-Agrees s m c clock now ms t n other a h ne =
    let es = message_events ms clock 0 in
    let u = record s { history = s.history ++ ms; updated_at = now } in
    let (live, same, how) = changed s u m c es t n h in
    elim how [
      | inl (e, f) ↦ (λ d. ground arith, ground arith, ground arith, live, ground arith)
      | inr (e, f) ↦
          let (id, x, at, xid, xh, xu, xn) = a e in
          let (y, applied, (yh, yu, ym)) = apply_all-messages ms clock 0 x (ground arith) xn in
          let (now_at, others) = stored s m n (λ i. c (suc (suc i))) es x y other f at applied in
          (
            λ d. (
              ground arith,
              y,
              ground arith,
              ground arith,
              ground arith,
              ground arith,
              ground arith,
            ),
            ground arith,
            ground arith,
            live,
            others ne,
          )
    ]

-- An append that succeeds puts the messages at the end of the history.
pub append_messages_history :
    (s : Session) (m : MemoryStore) (c : Ctx) (clock : ℕ → ℕ) (now : ℕ) (ms : List Message)
    (t : Session) (n : MemoryStore)
    → append_messages s m c clock now ms ≡ ok (t, n)
    → t.history ≡ s.history ++ ms
unfolding append_messages
append_messages_history s m c clock now ms t n h =
    let u = record s { history = s.history ++ ms; updated_at = now } in
    let (live, same, how) = changed s u m c (message_events ms clock 0) t n h in ground arith

-- A session that agrees with its store does so after the usage of a call is recorded: the tokens are
-- added to the totals of both, the cost stays known only if it was known on both sides, the history
-- is as it was, and no other session changes.
pub record_usage-Agrees :
    (add_cost : ℕ → ℕ → ℕ) (s : Session) (m : MemoryStore) (c : Ctx) (now prompt completion : ℕ)
    (billing : UsageBilling) (t : Session) (n : MemoryStore) (other : Text)
    → Agrees s m
    → record_usage add_cost s m c now prompt completion billing ≡ ok (t, n)
    → s.id ≢ other
    → Agrees t n
      × (t.history ≡ s.history)
      × (t.usage.prompt_tokens ≡ s.usage.prompt_tokens + prompt)
      × (t.usage.completion_tokens ≡ s.usage.completion_tokens + completion)
      × (t.usage.cost_known ≡ (s.usage.cost_known && billing.cost_known))
      × (lookup n.sessions other ≡ lookup m.sessions other)
unfolding record_usage add_usage apply apply_type apply_all
record_usage-Agrees add_cost s m c now prompt completion billing t n other a h ne =
    let v = add_usage add_cost s.usage prompt completion billing in
    let es = record (new_event usage_recorded now) { usage = some v } ∷ [] in
    let u = record s { usage = v; updated_at = now } in
    let (live, same, how) = changed s u m c es t n h in
    elim how [
      | inl (e, f) ↦
          (λ d. ground arith, ground arith, ground arith, ground arith, ground arith, ground arith)
      | inr (e, f) ↦
          let (id, x, at, xid, xh, xu, xn) = a e in
          let y = stamp (record x { usage = v }) now in
          let (now_at, others) =
            stored s m n (λ i. c (suc (suc i))) es x y other f at (ground arith) in
          (
            λ d. (ground arith, y, ground arith, ground arith, ground arith, ground arith, refl),
            ground arith,
            ground arith,
            ground arith,
            ground arith,
            others ne,
          )
    ]

-- An open durable session whose context stays live can always be appended to.
pub append_messages_total :
    (s : Session) (m : MemoryStore) (clock : ℕ → ℕ) (now : ℕ) (ms : List Message)
    → Agrees s m
    → s.closed ≡ false
    → is_ok (append_messages s m background clock now ms) ≡ true
unfolding append_messages append
append_messages_total s m clock now ms a live = elim (Bool-cases s.durable) [
  | inr e ↦ ground arith
  | inl e ↦
      let (id, x, at, xid, xh, xu, xn) = a e in
      let (y, applied, same) = apply_all-messages ms clock 0 x (ground arith) xn in ground arith
]

-- Closing a session ends its changes, without touching what is stored, and frees the writer that it
-- held; closing it again does nothing.
pub close_ends :
    (add_cost : ℕ → ℕ → ℕ) (s : Session) (m : MemoryStore) (clock : ℕ → ℕ)
    (now prompt completion : ℕ) (ms : List Message) (billing : UsageBilling) (lock : ℕ)
    → s.closed ≡ false
    → s.writer ≡ some lock
    → lookup m.writers s.id ≡ some lock
    → let (t, n) = close s m in
      (append_messages t n background clock now ms ≡ err session_closed)
      × (record_usage add_cost t n background now prompt completion billing ≡ err session_closed)
      × (close t n ≡ (t, n))
      × (n.sessions ≡ m.sessions)
      × (lookup n.writers s.id ≡ none)
unfolding close append_messages record_usage release
close_ends add_cost s m clock now prompt completion ms billing lock live w held =
    let freed = lookup-delete m.writers s.id s.id in
    let same = ≟_refl s.id in
    (
      ground arith,
      ground arith,
      ground arith,
      ground (arith, ==_iff lock lock),
      ground (arith, freed, same, ==_iff lock lock),
    )
