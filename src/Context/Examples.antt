-- ===== src/Context/Examples.antt =====
-- A session that was stored, and what the model is given of a short history.
use go_tiny_claw.Base.{
  ℕ, ◌+◌, ◌-◌, ◌≤◌, ◌<◌, true, false, [], ◌∷◌, ◌++◌, none, some, codes, text_eq, ok, background,
  lookup, insert, list_beq, length, take, ◌≡◌, ◌≢◌, refl, arith, runes_from,
}
use go_tiny_claw.Schema.{Message, user, assistant}
use go_tiny_claw.SessionStore.{
  Snapshot, apply, apply_type, apply_all, empty_snapshot, message_events,
}
use go_tiny_claw.SessionStore.Memory.{MemoryStore, append}
use go_tiny_claw.Context.Session.{Session, append_messages, get_working_memory}
use go_tiny_claw.Context.Session.Laws.{Agrees, append_messages-Agrees}
use go_tiny_claw.Context.Session.Memory.{get_working_memory_window}
use go_tiny_claw.Context.Budget.{
  ContextPolicy, ModelContextSpec, budget, resolved, estimate_messages,
}
use go_tiny_claw.Context.Units.{
  units, group_from, place, wait_after, open_unit, no_calls, join_last,
}
use go_tiny_claw.Context.Truncate.{truncate, truncate-Best}
use go_tiny_claw.Context.Builder.{
  BuildResult, build, assemble, copied, copies, select, select_group, pick, anchors, count_cut,
  count_marks,
}
use go_tiny_claw.Context.Builder.Laws.{build_fits}
use go_tiny_claw.Context.Builder.Whole.{build_whole}

abbrev hello : Message
hello = record {
  role = user;
  content = codes "hi";
  tool_calls = [];
  tool_call_id = [];
  usage = none;
}

abbrev answer : Message
answer = record hello { role = assistant }

abbrev kept : Snapshot
kept = record empty_snapshot {
  metadata = record empty_snapshot.metadata { id = codes "s"; messages = 1 };
  history = hello ∷ [];
}

abbrev open_session : Session
open_session = record {
  id = codes "s";
  work_dir = [];
  created_at = 0;
  provider_id = [];
  model_id = [];
  auth_type = [];
  durable = true;
  writer = some 0;
  closed = false;
  updated_at = 0;
  usage = empty_snapshot.usage;
  history = hello ∷ [];
}

abbrev store : MemoryStore
store = record { sessions = (codes "s", kept) ∷ []; writers = (codes "s", 0) ∷ []; next_lock = 1 }

named : codes "s" ≢ []
named e = cc

agreed : Agrees open_session store
unfolding lookup list_beq
agreed e = (named, kept, refl, refl, refl, refl, refl)

abbrev after_append : Snapshot
after_append = record kept {
  metadata = record kept.metadata { updated_at = 7; messages = 2 };
  history = hello ∷ answer ∷ [];
}

abbrev grown : Session
grown = record open_session { updated_at = 9; history = hello ∷ answer ∷ [] }

appended :
    append_messages open_session store background (λ i. 7) 9 (answer ∷ [])
    ≡ ok (grown, record store { sessions = (codes "s", after_append) ∷ [] })
unfolding append_messages append apply_all apply apply_type lookup insert list_beq message_events
appended = refl

append_messages-Agrees_example :
    Agrees grown (record store { sessions = (codes "s", after_append) ∷ [] })
append_messages-Agrees_example =
    (append_messages-Agrees open_session store background (λ i. 7) 9 (answer ∷ []) grown
      (record store { sessions = (codes "s", after_append) ∷ [] }) [] agreed appended named).0

get_working_memory_window_example :
    take (2 - length (get_working_memory grown 1)) grown.history ++ get_working_memory grown 1
    ≡ grown.history
get_working_memory_window_example = (get_working_memory_window grown 1).0

abbrev size : Message → ℕ
size m = length m.content

-- A tool result of ten runes.
abbrev long_result : Message
long_result = record hello { content = codes "0123456789"; tool_call_id = codes "c" }

cut : (truncate size long_result 5).1 ≡ true
unfolding truncate runes_from
cut = refl

truncate-Best_example : 5 < size long_result
truncate-Best_example = ((truncate-Best size long_result 5).1 cut).1

abbrev policy : ContextPolicy
policy = record {
  default_context_window = 0;
  default_reserved_output = 0;
  safety_margin_percent = 0;
  max_tool_result_tokens = 0;
}

abbrev model : ModelContextSpec
model = record { context_window = 100; max_output = 10 }

abbrev given : BuildResult
given = record {
  messages = hello ∷ hello ∷ answer ∷ [];
  window_tokens = 100;
  estimated_tokens = 6;
  budget_tokens = 80;
  total_messages = 3;
  included_messages = 3;
  omitted_messages = 0;
  truncated_tool_results = 0;
}

built : build size policy hello (hello ∷ answer ∷ []) model ≡ ok given
unfolding build assemble copied copies truncate budget resolved units group_from wait_after
    open_unit no_calls place anchors pick select select_group estimate_messages count_cut
    count_marks
built = refl

build_fits_example : given.included_messages + given.omitted_messages ≡ 2 + 1
build_fits_example = (build_fits size policy hello (hello ∷ answer ∷ []) model given built).10

cut_up : units (copied size policy (hello ∷ answer ∷ [])) ≡ ok ((hello ∷ answer ∷ []) ∷ [])
unfolding units copied copies truncate resolved group_from wait_after open_unit no_calls place
    join_last
cut_up = refl

room : 0 < (budget policy model).1
unfolding budget resolved
room = omega arith

fits :
    size hello + estimate_messages size (copied size policy (hello ∷ answer ∷ []))
    ≤ (budget policy model).1
unfolding budget resolved copied copies truncate estimate_messages
fits = omega arith

build_whole_example :
    (r : BuildResult) × (build size policy hello (hello ∷ answer ∷ []) model ≡ ok r)
    × (r.messages ≡ hello ∷ copied size policy (hello ∷ answer ∷ []))
    × (r.omitted_messages ≡ 0)
build_whole_example =
    build_whole size policy hello (hello ∷ answer ∷ []) model ((hello ∷ answer ∷ []) ∷ []) cut_up
      room fits
