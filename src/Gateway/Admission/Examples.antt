-- ===== src/Gateway/Admission/Examples.antt =====
-- A group message that mentions the bot of an open account, and its repetition.
use go_tiny_claw.Base.{
  List, ℕ, true, false, [], ◌∷◌, none, some, codes, text_eq, is_blank, contains, ok, background,
  lookup, insert, list_beq, trim_space, fields, fields_from, ◌≡◌, ◌⊎◌, refl, arith,
}
use go_tiny_claw.Channel.{InboundMessage, direct, group, validate}
use go_tiny_claw.Access.{open_mode, can_use, use_under, policy, normalize_scope}
use go_tiny_claw.Approval.{new_manager}
use go_tiny_claw.Gateway.Conversations.{enqueue, find_or_create, admit_to}
use go_tiny_claw.Gateway.Dedup.{seen_contains}
use go_tiny_claw.Gateway.Commands.{CommandRouter, handle, handle_authorized, Decides}
use go_tiny_claw.Gateway.Admission.{Gateway, Surroundings, accepted, admit, receive}
use go_tiny_claw.Gateway.Admission.Laws.{receive_gate}
use go_tiny_claw.Gateway.Admission.Once.{receive_all, receive_once}

abbrev message : InboundMessage
message = record {
  id = codes "m1";
  route = record {
    channel = codes "tg";
    account_id = codes "a";
    chat_id = codes "c";
    thread_id = [];
  };
  user_id = codes "7";
  user_name = [];
  chat_type = group;
  text = codes "hi";
  mentioned_bot = true;
  received_at = 0;
}

abbrev gateway : Gateway
gateway = record {
  channels = codes "tg" ∷ [];
  authorizer = some (
      (
        record { channel = codes "tg"; account_id = codes "a" },
        record { mode = open_mode; operators = []; approvers = []; group_chats = [] },
      )
      ∷ []);
  conversations = record { stopped = none; conversations = []; objects = λ i. none; next = 0 };
  sessions = λ i. none;
  approvals = some new_manager;
  seen = [];
}

abbrev surroundings : ℕ → Surroundings
surroundings now = record { callback = background; gateway = none; now = now; expired = false }

taken : (receive gateway (surroundings 5) message).0 ≡ ok (accepted 0)
unfolding receive admit validate can_use use_under policy handle enqueue find_or_create admit_to
    lookup insert list_beq trim_space fields_from seen_contains normalize_scope
taken = refl

-- Another message comes in between.
abbrev between : List (Surroundings × InboundMessage)
between = (surroundings 7, record message { id = codes "m2" }) ∷ []

receive_once_example :
    (receive
      (receive_all (receive gateway (surroundings 5) message).1 between)
      (surroundings 9)
      message).1
    ≡ receive_all (receive gateway (surroundings 5) message).1 between
receive_once_example =
    (receive_once gateway (surroundings 5) (surroundings 9) message message (accepted 0) between tt
      tt taken (λ e. cc) ((omega arith, omega arith), tt) (omega arith) refl (omega arith)).0

receive_gate_example :
    ((receive gateway (surroundings 5) message).1 ≡ gateway)
    ⊎ ((validate message.route ≡ true)
        × (contains gateway.channels message.route.channel ≡ true)
        × (is_blank message.id ≡ false)
        × (is_blank message.text ≡ false)
        × ((message.chat_type ≡ direct) ⊎ (message.chat_type ≡ group))
        × ((can_use gateway.authorizer message).allowed ≡ true))
receive_gate_example = receive_gate gateway (surroundings 5) message

abbrev approving : InboundMessage
approving = record message { text = codes "approve 1" }

abbrev router : CommandRouter
router = record {
  approvals = some new_manager;
  conversations = gateway.conversations;
  sessions = gateway.sessions;
  authorizer = gateway.authorizer;
}

handle_authorized_example :
    ((handle router approving false).1 ≡ some new_manager)
    ⊎ Decides router approving false new_manager
        (fields (codes "approve 1"))
        (handle router approving false).1
handle_authorized_example = handle_authorized router approving false new_manager refl
