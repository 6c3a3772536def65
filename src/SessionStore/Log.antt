-- ===== src/SessionStore/Log.antt =====
-- internal/sessionstore/file.go: the file of a session, one JSON line for each event. `encode` writes
-- events and `replay` reads a file again, of which the last line may be torn. The JSON of one event
-- is a parameter.
pub mod Laws
pub mod Recovery
pub mod Held
pub mod Growing
pub mod Replayed
use go_tiny_claw.Base.{
  ℕ, suc, ◌+◌, min, Bool, true, false, ◌&&◌, List, [], ◌∷◌, ◌++◌, Option, none, some, if◌then◌else◌,
  Text, is_empty, Result, ok, err, ◌>>=◌, length, split_lines, ◌-◌, ◌==◌, get_elem?,
}
use go_tiny_claw.SessionStore.{Snapshot, Event, StoreError, corrupted, apply, empty_snapshot}

-- `json.Marshal` and `json.Unmarshal` of an event.
pub record Codec : Type 0 where
  pub encode_event : Event → Option Text
  pub decode_event : Text → Option Event

-- `encode`
unfoldable pub encode : Codec → List Event → Option Text
encode c [] = some []
encode c (e ∷ es) = elim (c.encode_event e) [
  | none ↦ none
  | some l ↦ elim (encode c es) [ none ↦ none | some rest ↦ some (l ++ b'\n' ∷ rest) ]
]

-- Nothing but an empty last line follows.
abbrev ends : List Text → Bool
ends [] = true
ends (l ∷ []) = is_empty l
ends (l ∷ k ∷ ls) = false

-- What follows the loop of `replay`.
unfoldable pub finish : Snapshot → ℕ → Result StoreError (Snapshot × ℕ)
finish s offset = if is_empty s.metadata.id then err corrupted else ok (s, offset)

-- The loop of `replay`.
unfoldable pub replay_lines : Codec → Snapshot → ℕ → List Text → Result StoreError (Snapshot × ℕ)
unfolding finish
replay_lines c s offset [] = finish s offset
replay_lines c s offset (l ∷ ls) =
    if is_empty l && is_empty ls then finish s offset else elim (c.decode_event l) [
      | none ↦ if ends ls then finish s offset else err corrupted
      | some e ↦ elim (apply s e) [
        | err x ↦ err x
        | ok t ↦ replay_lines c t (offset + length l + 1) ls
      ]
    ]

-- `replay`
unfoldable pub replay : Codec → Text → Result StoreError (Snapshot × ℕ)
unfolding replay_lines
replay c bytes =
    replay_lines c empty_snapshot 0 (split_lines bytes) >>= λ r. ok (r.0, min r.1 (length bytes))

abbrev pub is_newline : Option ℕ → Bool
is_newline none = false
is_newline (some b) = b == b'\n'

-- `data[n-1] == '\n'`
abbrev pub last_is_newline : Text → ℕ → Bool
last_is_newline text n = is_newline (get_elem? text (n - 1))
