-- ===== src/Channel.antt =====
-- internal/channel: routes, messages, the conversation key and the adapter registry. The proofs are
-- in the children: Key (session keys read back), Escape (its encoding).

pub mod Escape
pub mod Key
pub mod Registry
pub mod Examples
use go_tiny_claw.Base.{
  ℕ, Bool, true, false, ◌&&◌, ◌||◌, List, [], ◌∷◌, ◌++◌, Option, none, some, if◌then◌else◌, ◌==◌,
  leb, Text, codes, is_empty, is_blank, ◌+◌, ◌-◌, ◌/◌, ◌%◌, Eq, ◌≟◌, text_eq, ◌≡◌, ◌↔◌, arith,
}

-- `Route` addresses one conversation.
pub record Route : Type 0 where
  pub channel : Text
  pub account_id : Text
  pub chat_id : Text
  pub thread_id : Text

unfoldable pub route_beq : Route → Route → Bool
route_beq r s =
    (r.channel ≟ s.channel)
    && (r.account_id ≟ s.account_id)
    && (r.chat_id ≟ s.chat_id)
    && (r.thread_id ≟ s.thread_id)

pub data ChatType : Type 0 where
  direct group : ChatType
  other : Text → ChatType

pub record InboundMessage : Type 0 where
  pub id : Text
  pub route : Route
  pub user_id : Text
  pub user_name : Text
  pub chat_type : ChatType
  pub text : Text
  pub mentioned_bot : Bool
  pub received_at : ℕ

pub data OutboundKind : Type 0 where
  out_text thinking tool_start tool_result out_error : OutboundKind

pub record OutboundMessage : Type 0 where
  pub kind : OutboundKind
  pub text : Text
  pub tool_name : Text
  pub is_error : Bool

-- `Route.Validate`, `true` for no error.
unfoldable pub validate : Route → Bool
validate r =
    if is_blank r.channel || is_blank r.account_id || is_blank r.chat_id then false else true

-- A byte that `url.QueryEscape` leaves as it is: a letter, a digit, or one of `-_.~`.
abbrev pub is_unreserved : ℕ → Bool
is_unreserved b =
    (leb b'a' b && leb b b'z')
    || (leb b'A' b && leb b b'Z')
    || (leb b'0' b && leb b b'9')
    || (b == b'-')
    || (b == b'_')
    || (b == b'.')
    || (b == b'~')

-- "0123456789ABCDEF"[n]
abbrev pub upper_hex : ℕ → ℕ
upper_hex n = if leb n 9 then b'0' + n else b'A' + (n - 10)

-- One byte under `url.QueryEscape`.
abbrev pub escape_byte : ℕ → Text
escape_byte b =
    if is_unreserved b
    then b ∷ []
    else if b == 32
    then b'+' ∷ []
    else b'%' ∷ upper_hex (b / 16) ∷ upper_hex (b % 16) ∷ []

-- `url.QueryEscape`
unfoldable pub query_escape : Text → Text
query_escape [] = []
query_escape (b ∷ bs) = escape_byte b ++ query_escape bs

-- `BuildSessionKey`
unfoldable pub build_session_key : Route → Text
build_session_key r =
    let key =
      codes "channel:"
      ++ (query_escape r.channel
          ++ (codes ":account:"
              ++ (query_escape r.account_id ++ (codes ":chat:" ++ query_escape r.chat_id)))) in
    if is_empty r.thread_id then key else key ++ (codes ":thread:" ++ query_escape r.thread_id)
