-- ===== src/SessionStore/Replay.antt =====
-- internal/sessionstore/store.go: the laws of replaying events.
use go_tiny_claw.Base.{
  ℕ, suc, false, List, [], ◌∷◌, ◌++◌, Option, some, is_empty, text_eq, ok, ◌>>=◌, length, ◌≡◌, ◌≢◌,
  refl, arith, ◌∙◌, ap, append_assoc, append-nil, Result-cases, Option-cases, ≟_iff, inl, inr,
}
use go_tiny_claw.Schema.{Message}
use go_tiny_claw.SessionStore.{
  Snapshot, Event, apply, apply_type, apply_all, message_events, creation, EventType, other_type,
  metadata_updated, usage_recorded, empty_snapshot, stamp, new_event, message_added,
  session_created,
}

-- What a replayed session keeps of the one that was written: all but its update time, and with its
-- messages counted.
abbrev pub SameFacts : Snapshot → Snapshot → Type 0
SameFacts s t =
    (t.history ≡ s.history)
    × (t.usage ≡ s.usage)
    × (t.metadata
        ≡ record s.metadata { updated_at = t.metadata.updated_at; messages = length s.history })

apply-message :
    (s : Snapshot) (m : Message) (time : ℕ)
    → is_empty s.metadata.id ≡ false
    → apply s (record (new_event message_added time) { message = some m })
      ≡ ok (stamp (record s { history = s.history ++ m ∷ [] }) time)
unfolding apply apply_type
apply-message s m time h = rw h

apply-creation :
    (s : Snapshot)
    → apply empty_snapshot (record (new_event session_created s.metadata.created_at) {
      metadata = some s.metadata;
      usage = some s.usage;
    })
      ≡ ok (stamp (record s { history = [] }) s.metadata.created_at)
unfolding apply apply_type
apply-creation s = refl

pub apply_all-messages :
    (ms : List Message) (clock : ℕ → ℕ) (i : ℕ) (s : Snapshot)
    → is_empty s.metadata.id ≡ false
    → s.metadata.messages ≡ length s.history
    → (t : Snapshot) × (apply_all s (message_events ms clock i) ≡ ok t)
      × SameFacts (record s { history = s.history ++ ms }) t
unfolding apply_all message_events
apply_all-messages [] clock i s h n =
    (s, refl, (ground (arith, append-nil s.history), refl, ground (arith, append-nil s.history)))
apply_all-messages (m ∷ ms) clock i s h n =
    let s' = stamp (record s { history = s.history ++ m ∷ [] }) (clock i) in
    let (t, q, same) = apply_all-messages ms clock (suc i) s' h refl in
    let (history, usage, metadata) = same in
    let split = append_assoc s.history (m ∷ []) ms in
    (
      t,
      ap (λ r. r >>= λ u. apply_all u (message_events ms clock (suc i)))
            (apply-message s m (clock i) h)
          ∙ q,
      (history ∙ split, usage, ground (arith, metadata, split)),
    )

-- What `creation` writes, replayed from nothing, gives the session back: its history, its usage and
-- its metadata, but for the time of the last update, and with its messages counted. (The session has
-- an ID, which `Create` asks for.)
pub creation-replays :
    (s : Snapshot) (clock : ℕ → ℕ)
    → s.metadata.id ≢ []
    → (t : Snapshot) × (apply_all empty_snapshot (creation s clock) ≡ ok t) × SameFacts s t
unfolding creation apply_all
creation-replays s clock h =
    let s₀ = stamp (record s { history = [] }) s.metadata.created_at in
    let (t, q, same) = apply_all-messages s.history clock 0 s₀ (ground arith) refl in
    (
      t,
      ap (λ r. r >>= λ u. apply_all u (message_events s.history clock 0)) (apply-creation s) ∙ q,
      same,
    )

pub apply_all-append :
    (s : Snapshot) (es fs : List Event)
    → apply_all s (es ++ fs) ≡ (apply_all s es >>= λ t. apply_all t fs)
unfolding apply_all
apply_all-append s [] fs = refl
apply_all-append s (e ∷ es) fs = elim (Result-cases (apply s e)) [
  | inl (t, f) ↦ rw f (apply_all-append t es fs)
  | inr (x, f) ↦ rw f
]

-- The messages that an event adds.
abbrev pub added_by : EventType → Option Message → List Message
added_by message_added (some m) = m ∷ []
added_by t m = []

apply_type-keeps :
    (s : Snapshot) (e : Event) (type : EventType) (t : Snapshot)
    → apply_type s e type ≡ ok t
    → (t.history ≡ s.history ++ added_by type e.message)
      × (s.metadata.id ≢ [] → t.metadata.id ≡ s.metadata.id)
unfolding apply_type
apply_type-keeps s e message_added t h = ground (arith, append-nil s.history)
apply_type-keeps s e session_created t h = ground (arith, append-nil s.history)
apply_type-keeps s e metadata_updated t h = elim (Option-cases e.metadata) [
  | inl f ↦ ground arith
  | inr (m, f) ↦ ground (arith, append-nil s.history, ≟_iff m.id s.metadata.id)
]
apply_type-keeps s e usage_recorded t h = ground (arith, append-nil s.history)
apply_type-keeps s e (other_type x) t h = ground arith

-- An event that applies keeps the history and adds at most its own message at the end, never changes
-- the ID of a session that has one, and leaves the messages counted.
pub apply-keeps :
    (s : Snapshot) (e : Event) (t : Snapshot)
    → apply s e ≡ ok t
    → (t.history ≡ s.history ++ added_by e.type e.message)
      × (s.metadata.id ≢ [] → t.metadata.id ≡ s.metadata.id)
      × (t.metadata.messages ≡ length t.history)
unfolding apply
apply-keeps s e t h = elim (Result-cases (apply_type s e e.type)) [
  | inl (u, f) ↦
      let k = apply_type-keeps s e e.type u f in
      (ground (arith, k.0), λ n. ground (arith, k.1), ground arith)
  | inr (x, f) ↦ (ground arith, λ n. ground arith, ground arith)
]

-- A session keeps its ID through events that apply.
pub apply_all-id :
    (s t : Snapshot) (es : List Event)
    → s.metadata.id ≢ []
    → apply_all s es ≡ ok t
    → t.metadata.id ≡ s.metadata.id
unfolding apply_all
apply_all-id s t [] h f = ground arith
apply_all-id s t (e ∷ es) h f = elim (Result-cases (apply s e)) [
  | inr (x, g) ↦ ground arith
  | inl (u, g) ↦
      let kept = (apply-keeps s e u g).1 h in
      let others = apply_all-id u t es (ground (arith, kept)) (ground arith) in others ∙ kept
]
