-- ===== src/Channel/Examples.antt =====
-- Two chats of one account.
use go_tiny_claw.Base.{codes, ◌≡◌, refl, arith}
use go_tiny_claw.Channel.{Route}
use go_tiny_claw.Channel.Key.{IsRoute, build_session_key-injective}

abbrev chat : Route
chat = record {
  channel = codes "tg";
  account_id = codes "a:b";
  chat_id = codes "7";
  thread_id = codes "1";
}

chat-IsRoute : IsRoute chat
chat-IsRoute = record {
  channel_bytes = (omega arith, (omega arith, tt));
  account_bytes = (omega arith, (omega arith, (omega arith, tt)));
  chat_bytes = (omega arith, tt);
  thread_bytes = (omega arith, tt);
}

build_session_key-injective_example : chat ≡ chat
build_session_key-injective_example =
    build_session_key-injective chat chat chat-IsRoute chat-IsRoute refl
