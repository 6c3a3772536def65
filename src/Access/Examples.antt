-- ===== src/Access/Examples.antt =====
-- A restricted bot account with one operator, who is also the approver.
use go_tiny_claw.Base.{
  List, [], ◌∷◌, some, codes, text_eq, ◌≡◌, refl, inl, inr, All, ok, trim_space, insert, lookup,
  list_beq, true, false,
}
use go_tiny_claw.Channel.{InboundMessage, direct}
use go_tiny_claw.Access.{
  Policy, Scope, CompiledPolicy, Authorizer, restricted, new_authorizer, compile, id_set,
  normalize_scope, policy, can_use,
}
use go_tiny_claw.Access.Rules.{MayUse, can_use_exactly}
use go_tiny_claw.Access.Compiled.{IsComplete, Distinct, InForce, new_authorizer-InForce}

abbrev policies : List (Scope × Policy)
policies =
    (
      record { channel = codes "tg"; account_id = codes " a " },
      record {
        mode = restricted;
        operators = codes "7" ∷ [];
        approvers = codes "7" ∷ [];
        group_chats = [];
      },
    )
    ∷ []

abbrev compiled : CompiledPolicy
compiled = record {
  mode = restricted;
  operators = codes "7" ∷ [];
  approvers = codes "7" ∷ [];
  group_chats = [];
}

abbrev authorizer : Authorizer
authorizer = some ((record { channel = codes "tg"; account_id = codes "a" }, compiled) ∷ [])

abbrev message : InboundMessage
message = record {
  id = codes "m1";
  route = record {
    channel = codes "tg";
    account_id = codes "a";
    chat_id = codes "c";
    thread_id = [];
  };
  user_id = codes "7";
  user_name = [];
  chat_type = direct;
  text = codes "hi";
  mentioned_bot = false;
  received_at = 0;
}

built : new_authorizer policies ≡ ok authorizer
unfolding new_authorizer compile id_set normalize_scope trim_space insert lookup list_beq
built = refl

found : policy authorizer message ≡ some compiled
unfolding policy normalize_scope trim_space lookup list_beq
found = refl

may_use : MayUse compiled message
unfolding trim_space list_beq
may_use = inr ((λ e. cc), refl, inl refl)

can_use_exactly_example : (can_use authorizer message).allowed ≡ true
can_use_exactly_example = (can_use_exactly authorizer message).1 (compiled, found, may_use)

new_authorizer-InForce_example :
    All IsComplete policies × Distinct policies × All (InForce authorizer) policies
new_authorizer-InForce_example = new_authorizer-InForce policies authorizer built
