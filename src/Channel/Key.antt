-- ===== src/Channel/Key.antt =====
-- internal/channel/route.go: a session key, read back.
use go_tiny_claw.Base.{[], ◌∷◌, ◌++◌, Text, codes, ◌≡◌, sym, ap, ◌∙◌, append-nil, append_assoc}
use go_tiny_claw.Channel.{Route, query_escape, build_session_key}
use go_tiny_claw.Channel.Escape.{
  IsBytes, after_label, after_label-colon, after_label-end, after_label-nil,
}

-- The fields of a route are Go strings.
pub record IsRoute (r : Route) : Type 0 where
  pub channel_bytes : IsBytes r.channel
  pub account_bytes : IsBytes r.account_id
  pub chat_bytes : IsBytes r.chat_id
  pub thread_bytes : IsBytes r.thread_id

-- The fields of a key, each read from what the one before left.
read_thread : Text → Text → Text → Text × Text → Route
read_thread c a h rest = record { channel = c; account_id = a; chat_id = h; thread_id = rest.0 }

read_chat : Text → Text → Text × Text → Route
unfolding read_thread
read_chat c a h = read_thread c a h.0 (after_label (codes ":thread:") h.1)

read_account : Text → Text × Text → Route
unfolding read_chat
read_account c a = read_chat c a.0 (after_label (codes ":chat:") a.1)

read_channel : Text × Text → Route
unfolding read_account
read_channel c = read_account c.0 (after_label (codes ":account:") c.1)

read_key : Text → Route
unfolding read_channel
read_key k = read_channel (after_label (codes "channel:") k)

thread_part : Text → Text
thread_part [] = []
thread_part (b ∷ bs) = codes ":thread:" ++ (query_escape (b ∷ bs) ++ [])

build_parts :
    (c a h t : Text)
    → build_session_key (record { channel = c; account_id = a; chat_id = h; thread_id = t })
      ≡ codes "channel:"
        ++ (query_escape c
            ++ (codes ":account:"
                ++ (query_escape a ++ (codes ":chat:" ++ (query_escape h ++ thread_part t)))))
unfolding build_session_key thread_part
build_parts c a h [] = simp append-nil
build_parts c a h (b ∷ bs) = simp (append-nil, append_assoc)

read_chat_lem :
    (c a h t : Text)
    → IsBytes h
    → IsBytes t
    → read_chat c a
        (after_label (codes ":chat:") (codes ":chat:" ++ (query_escape h ++ thread_part t)))
      ≡ record { channel = c; account_id = a; chat_id = h; thread_id = t }
unfolding read_chat thread_part
read_chat_lem c a h [] p q =
    ap (read_chat c a) (after_label-end (codes ":chat:") h p)
    ∙ ap (read_thread c a (h ++ [])) after_label-nil
    ∙ rw append-nil
read_chat_lem c a h (b ∷ bs) p q =
    ap (read_chat c a) (after_label-colon (codes ":chat:") h _ p)
    ∙ ap (read_thread c a (h ++ [])) (after_label-end (codes ":thread:") (b ∷ bs) q)
    ∙ simp append-nil

-- Every route can be read back from its key.
read_key-build : (r : Route) → IsRoute r → read_key (build_session_key r) ≡ r
unfolding read_key
read_key-build r p =
    ap read_key (build_parts r.channel r.account_id r.chat_id r.thread_id)
    ∙ ap read_channel (after_label-colon (codes "channel:") r.channel _ p.channel_bytes)
    ∙ ap (read_account (r.channel ++ []))
        (after_label-colon (codes ":account:") r.account_id _ p.account_bytes)
    ∙ simp append-nil
        (read_chat_lem r.channel r.account_id r.chat_id r.thread_id p.chat_bytes p.thread_bytes)

-- Two routes whose fields are Go strings have the same session key only if they are the same route:
-- the escaping keeps the fields apart, and an absent thread apart from a present one.
pub build_session_key-injective :
    (r s : Route) → IsRoute r → IsRoute s → build_session_key r ≡ build_session_key s → r ≡ s
build_session_key-injective r s p q e =
    sym (read_key-build r p) ∙ ap read_key e ∙ read_key-build s q
