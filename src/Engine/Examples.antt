-- ===== src/Engine/Examples.antt =====
-- A call that fails for the third time, and a model that answers at once.
use go_tiny_claw.Base.{◌≤◌, true, List, [], ◌∷◌, ◌++◌, none, codes, is_some, background, ◌≡◌, ◌↔◌}
use go_tiny_claw.Schema.{Message, ToolCall, ToolResult, user}
use go_tiny_claw.Context.Budget.{ContextPolicy, ModelContextSpec}
use go_tiny_claw.Engine.Reminder.{check_and_inject, after_results, failures_since, reminder_exactly}
use go_tiny_claw.Engine.Subagent.{Bounded, run_sub, run_sub-Bounded}
use go_tiny_claw.Engine.Generate.{responded, generate, Sent, generate_at_most_twice}

abbrev call : ToolCall
call = record { id = codes "1"; name = codes "bash"; arguments = codes "ls" }

abbrev failure : ToolResult
failure = record { tool_call_id = codes "1"; output = []; is_error = true }

abbrev two_failures : List (ToolCall × ToolResult)
two_failures = (call, failure) ∷ (call, failure) ∷ []

reminder_exactly_example :
    (is_some
        (check_and_inject
          (λ c. c.arguments)
          (λ n t. t)
          (after_results (λ c. c.arguments) (λ n t. t) [] two_failures)
          call
          failure).1
      ≡ true)
    ↔ ((true ≡ true)
        × (3
            ≤ failures_since
                (λ c. c.arguments)
                (λ n t. t)
                0
                (codes "ls")
                (two_failures ++ (call, failure) ∷ [])))
reminder_exactly_example = reminder_exactly (λ c. c.arguments) (λ n t. t) two_failures call failure

abbrev hello : Message
hello = record {
  role = user;
  content = codes "hi";
  tool_calls = [];
  tool_call_id = [];
  usage = none;
}

abbrev policy : ContextPolicy
policy = record {
  default_context_window = 0;
  default_reserved_output = 0;
  safety_margin_percent = 0;
  max_tool_result_tokens = 0;
}

abbrev model : ModelContextSpec
model = record { context_window = 100; max_output = 10 }

generate_at_most_twice_example :
    Sent
      (λ i view. responded hello)
      (λ m. 1)
      policy
      0
      hello
      (hello ∷ [])
      (hello ∷ [])
      model
      (generate
        (λ i view. responded hello)
        (λ m. 1)
        policy
        0
        background
        hello
        (hello ∷ [])
        (hello ∷ [])
        model)
generate_at_most_twice_example =
    generate_at_most_twice (λ i view. responded hello) (λ m. 1) policy 0 background hello
      (hello ∷ []) (hello ∷ []) model

run_sub-Bounded_example :
    Bounded
      (λ t i view. responded hello)
      (λ c. failure)
      (λ n e. e)
      (λ m. 1)
      policy
      0
      model
      (λ t. none)
      (λ t. background)
      hello
      10
      0
      (record hello { content = codes "look" } ∷ [])
      (run_sub
        (λ t i view. responded hello)
        (λ c. failure)
        (λ n e. e)
        (λ m. 1)
        policy
        0
        model
        (λ t. none)
        (λ t. background)
        hello
        (codes "look"))
run_sub-Bounded_example =
    run_sub-Bounded (λ t i view. responded hello) (λ c. failure) (λ n e. e) (λ m. 1) policy 0 model
      (λ t. none) (λ t. background) hello (codes "look")
