-- ===== src/Gateway/Dedup.antt =====
-- internal/gateway/dedup.go: message IDs seen lately, at most 4096 of them. Times are nanoseconds; a
-- map that a loop ranges over comes in the order of its list. The proofs are in
-- Laws and Key.
pub mod Laws
pub mod Key
pub mod Lasting
use go_tiny_claw.Base.{
  ℕ, ◌+◌, ◌*◌, Bool, true, false, ◌||◌, List, [], ◌∷◌, ◌++◌, Option, none, some, if◌then◌else◌, ltb,
  leb, Text, codes, is_empty, text_eq, lookup, insert, delete, length,
}
use go_tiny_claw.Channel.{InboundMessage, query_escape}

abbrev pub max_seen_messages : ℕ
max_seen_messages = 4096

-- 24 hours
abbrev pub seen_ttl : ℕ
seen_ttl = 86_400_000_000_000

-- `DedupKey`
unfoldable pub dedup_key : InboundMessage → Text
dedup_key msg =
    codes "channel:"
    ++ (query_escape msg.route.channel
        ++ (codes ":account:"
            ++ (query_escape msg.route.account_id ++ (codes ":message:" ++ query_escape msg.id))))

-- `deduplicator`: when each key was last seen.
abbrev pub Seen : Type 0
Seen = List (Text × ℕ)

abbrev pub is_recent : Option ℕ → ℕ → Bool
is_recent none now = false
is_recent (some at_time) now = ltb now (at_time + seen_ttl)

-- `contains`: `now.Sub(at) < seenTTL`
unfoldable pub seen_contains : Seen → Text → ℕ → Bool
seen_contains seen key now = is_recent (lookup seen key) now

-- The loop that looks for the oldest entry; the empty key stands for no entry yet.
unfoldable pub oldest_from : Seen → Text → ℕ → Text × ℕ
oldest_from [] key oldest = (key, oldest)
oldest_from ((id, at_time) ∷ rest) key oldest =
    let older = is_empty key || ltb at_time oldest in
    oldest_from rest (if older then id else key) (if older then at_time else oldest)

-- Room for one more entry.
unfoldable pub make_room : Seen → Seen
make_room seen =
    if leb max_seen_messages (length seen) then delete seen (oldest_from seen [] 0).0 else seen

-- `remember`
unfoldable pub remember : Seen → Text → ℕ → Seen
remember seen key now = insert (make_room seen) key now
