-- ===== src/Gateway/Dedup/Key.antt =====
-- internal/gateway/dedup.go: a deduplication key, read back.
use go_tiny_claw.Base.{[], ◌++◌, Text, codes, ◌≡◌, sym, ap, ◌∙◌, append-nil}
use go_tiny_claw.Channel.{InboundMessage, query_escape}
use go_tiny_claw.Channel.Escape.{IsBytes, after_label, after_label-colon, after_label-end}
use go_tiny_claw.Gateway.Dedup.{dedup_key}

-- The identity of a message: its channel, its account and its ID.
pub record Identity : Type 0 where
  pub channel : Text
  pub account_id : Text
  pub id : Text

abbrev pub identity : InboundMessage → Identity
identity msg = record {
  channel = msg.route.channel;
  account_id = msg.route.account_id;
  id = msg.id;
}

-- The three parts are Go strings.
pub record IsIdentity (m : Identity) : Type 0 where
  pub channel_bytes : IsBytes m.channel
  pub account_bytes : IsBytes m.account_id
  pub id_bytes : IsBytes m.id

read_message : Text → Text → Text × Text → Identity
read_message c a r = record { channel = c; account_id = a; id = r.0 }

read_account : Text → Text × Text → Identity
unfolding read_message
read_account c a = read_message c a.0 (after_label (codes ":message:") a.1)

read_channel : Text × Text → Identity
unfolding read_account
read_channel c = read_account c.0 (after_label (codes ":account:") c.1)

read_key : Text → Identity
unfolding read_channel
read_key k = read_channel (after_label (codes "channel:") k)

key_parts :
    (msg : InboundMessage)
    → dedup_key msg
      ≡ codes "channel:"
        ++ (query_escape msg.route.channel
            ++ (codes ":account:"
                ++ (query_escape msg.route.account_id
                    ++ (codes ":message:" ++ (query_escape msg.id ++ [])))))
unfolding dedup_key
key_parts msg = simp append-nil

read_key-dedup_key :
    (msg : InboundMessage) → IsIdentity (identity msg) → read_key (dedup_key msg) ≡ identity msg
unfolding read_key
read_key-dedup_key msg p =
    let m = identity msg in
    ap read_key (key_parts msg)
    ∙ ap read_channel (after_label-colon (codes "channel:") m.channel _ p.channel_bytes)
    ∙ ap (read_account (m.channel ++ []))
        (after_label-colon (codes ":account:") m.account_id _ p.account_bytes)
    ∙ ap (read_message (m.channel ++ []) (m.account_id ++ []))
        (after_label-end (codes ":message:") m.id p.id_bytes)
    ∙ simp append-nil

-- Two messages have the same deduplication key only if channel, account and message ID are the same.
pub dedup_key-injective :
    (m n : InboundMessage)
    → IsIdentity (identity m)
    → IsIdentity (identity n)
    → dedup_key m ≡ dedup_key n
    → identity m ≡ identity n
dedup_key-injective m n p q e =
    sym (read_key-dedup_key m p) ∙ ap read_key e ∙ read_key-dedup_key n q
