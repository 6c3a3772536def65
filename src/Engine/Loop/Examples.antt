-- ===== src/Engine/Loop/Examples.antt =====
-- A model that runs one command and then answers, on a session that was stored.
use go_tiny_claw.Base.{
  ℕ, zero, suc, true, false, List, [], ◌∷◌, ◌++◌, none, some, Option, CtxErr, codes, background,
  canceled, lookup, text_eq, list_beq, ◌≡◌, refl,
}
use go_tiny_claw.Schema.{Message, ToolCall, user, assistant, system}
use go_tiny_claw.SessionStore.{empty_snapshot}
use go_tiny_claw.SessionStore.Memory.{MemoryStore}
use go_tiny_claw.Context.Session.{Session}
use go_tiny_claw.Context.Session.Laws.{Agrees}
use go_tiny_claw.Engine.Generate.{ProviderAnswer, responded}
use go_tiny_claw.Engine.Loop.{World, EngineState, run_turn, run}
use go_tiny_claw.Engine.Loop.Turn.{TurnAdds, run_turn_adds}
use go_tiny_claw.Engine.Loop.Run.{RunAdds, run_adds, is_answered, run_cancelled}

abbrev hello : Message
hello = record {
  role = user;
  content = codes "hi";
  tool_calls = [];
  tool_call_id = [];
  usage = none;
}

abbrev command : ToolCall
command = record { id = codes "1"; name = codes "bash"; arguments = codes "ls" }

-- A command in the first turn, and an answer afterwards.
abbrev model : ℕ → ProviderAnswer
model zero = responded (record hello { role = assistant; tool_calls = command ∷ [] })
model (suc n) = responded (record hello { role = assistant; content = codes "done" })

abbrev world : World
world = record {
  think = λ turn i view. responded hello;
  act = λ turn i view. model turn;
  enable_thinking = false;
  run_tool =
      λ turn call. record { tool_call_id = call.id; output = codes "a.go"; is_error = false };
  recover = λ name output. output;
  fingerprint = λ call. call.arguments;
  nudge = λ n name. name;
  estimate = λ m. 1;
  policy = record {
    default_context_window = 0;
    default_reserved_output = 0;
    safety_margin_percent = 0;
    max_tool_result_tokens = 0;
  };
  spec = record { context_window = 100; max_output = 10 };
  tools_overhead = 0;
  no_tools_overhead = 0;
  system = record hello { role = system; content = codes "sys" };
  looks = λ turn. none;
  looks_after = λ turn. none;
  contexts = λ turn i. background;
  clock = λ i. 7;
  now = 9;
}

abbrev open_session : Session
open_session = record {
  id = codes "s";
  work_dir = [];
  created_at = 0;
  provider_id = [];
  model_id = [];
  auth_type = [];
  durable = true;
  writer = some 0;
  closed = false;
  updated_at = 0;
  usage = empty_snapshot.usage;
  history = hello ∷ [];
}

abbrev store : MemoryStore
store = record {
  sessions =
      (
        codes "s",
        record empty_snapshot {
          metadata = record empty_snapshot.metadata { id = codes "s"; messages = 1 };
          history = hello ∷ [];
        },
      )
      ∷ [];
  writers = (codes "s", 0) ∷ [];
  next_lock = 1;
}

abbrev start : EngineState
start = record { session = open_session; store = store; failures = [] }

start-Agrees : Agrees start.session start.store
unfolding lookup list_beq
start-Agrees e = (
  λ h. cc,
  record empty_snapshot {
    metadata = record empty_snapshot.metadata { id = codes "s"; messages = 1 };
    history = hello ∷ [];
  },
  refl,
  refl,
  refl,
  refl,
  refl,
)

run_turn_adds_example :
    (added : List Message) × ((run_turn world 0 start).1.session.history
      ≡ start.session.history ++ added)
    × Agrees (run_turn world 0 start).1.session (run_turn world 0 start).1.store
    × TurnAdds world 0 (run_turn world 0 start).0 added
run_turn_adds_example = run_turn_adds world 0 start start-Agrees

run_adds_example :
    (added : List Message) × ((run world 3 0 start).1.session.history
      ≡ start.session.history ++ added)
    × Agrees (run world 3 0 start).1.session (run world 3 0 start).1.store
    × RunAdds world (run world 3 0 start).0 added
run_adds_example = run_adds world 3 0 start start-Agrees

-- The same world, cancelled before its second turn.
abbrev second : ℕ → Option CtxErr
second zero = none
second (suc n) = some canceled

abbrev cancelled : World
cancelled = record world { looks = second }

run_cancelled_example : is_answered world (run cancelled 2 0 start) ≡ true
run_cancelled_example = run_cancelled cancelled 1 0 start canceled refl
