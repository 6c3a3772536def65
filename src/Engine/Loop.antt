-- ===== src/Engine/Loop.antt =====
-- internal/engine/loop.go: `runTurn` and `Run`, the loop of the agent on a session. The provider is
-- asked by turn, once for its thinking and once for its action; running a tool, the hint for its error,
-- the reminder's wording and the system prompt are parameters, and so are the looks at the context and
-- the times. The tools run side by side and each result has its place, so they are run in order here.
-- The loop has no bound of its own, so it runs on fuel, and `out_of_fuel` is no answer of the code.
-- Reports and traces are left out.
pub mod Grown
pub mod Turn
pub mod Run
mod Examples
use go_tiny_claw.Base.{
  ℕ, suc, zero, ◌+◌, Bool, true, false, List, [], ◌∷◌, ◌++◌, Option, none, some, if◌then◌else◌,
  Text, is_empty, trim_space, map, Result, ok, err, CtxErr, Ctx,
}
use go_tiny_claw.Schema.{Message, ToolCall, ToolResult, user, assistant}
use go_tiny_claw.SessionStore.Memory.{MemoryStore}
use go_tiny_claw.Context.Session.{Session, SessionError, append_messages, get_working_memory}
use go_tiny_claw.Context.Budget.{ContextPolicy, ModelContextSpec}
use go_tiny_claw.Context.Units.{BuildError}
use go_tiny_claw.Engine.Generate.{ProviderAnswer, GenerateError, build_context, generate}
use go_tiny_claw.Engine.Reminder.{check_and_inject}

pub data TurnError : Type 0 where
  interrupted : CtxErr → TurnError
  no_context : BuildError → TurnError
  thinking_failed action_failed : GenerateError → TurnError
  not_appended : SessionError → TurnError
  out_of_fuel : TurnError

-- What the engine works on: the session, its store, and the failures that the reminder counts.
pub record EngineState : Type 0 where
  pub session : Session
  pub store : MemoryStore
  pub failures : List (Text × ℕ)

abbrev pub Outcome : Type 0 → Type 0
Outcome A = Result TurnError A × EngineState

-- The engine and its world.
pub record World : Type 0 where
  pub think : ℕ → ℕ → List Message → ProviderAnswer
  pub act : ℕ → ℕ → List Message → ProviderAnswer
  pub enable_thinking : Bool
  pub run_tool : ℕ → ToolCall → ToolResult
  pub recover : Text → Text → Text
  pub fingerprint : ToolCall → Text
  pub nudge : ℕ → Text → Text
  pub estimate : Message → ℕ
  pub policy : ContextPolicy
  pub spec : ModelContextSpec
  pub tools_overhead : ℕ
  pub no_tools_overhead : ℕ
  pub system : Message
  pub looks : ℕ → Option CtxErr
  pub looks_after : ℕ → Option CtxErr
  pub contexts : ℕ → ℕ → Ctx
  pub clock : ℕ → ℕ
  pub now : ℕ

module _ (w : World) where
  -- `session.Append` in a turn.
  unfoldable pub append_state : EngineState → Ctx → List Message → Result TurnError EngineState
  append_state st c ms = elim (append_messages st.session st.store c w.clock w.now ms) [
    | err e ↦ err (not_appended e)
    | ok r ↦ ok (record st { session = r.0; store = r.1 })
  ]

  -- The view that the model is given, with the tools.
  abbrev pub view_of : List Message → Result TurnError (List Message)
  view_of history =
      elim (build_context w.estimate w.policy w.tools_overhead w.system history w.spec) [
        | err e ↦ err (no_context e)
        | ok built ↦ ok built.messages
      ]

  -- The history and the view after the thinking phase.
  unfoldable pub thought :
      ℕ → List Message → List Message → Result TurnError (List Message × List Message)
  thought turn history view =
      if w.enable_thinking
      then elim (generate (w.think turn) w.estimate w.policy w.no_tools_overhead (w.contexts turn 0)
          w.system history view w.spec).0 [
            | err e ↦ err (thinking_failed e)
            | ok m ↦
                if is_empty m.content
                then ok (history, view)
                else elim (view_of (history ++ m ∷ [])) [
                  | err e ↦ err e
                  | ok view' ↦ ok (history ++ m ∷ [], view')
                ]
          ]
      else ok (history, view)

  -- The message that the session gets of the model's answer.
  abbrev pub final_message : Message → Message
  final_message m = record {
    role = assistant;
    content = trim_space m.content;
    tool_calls = m.tool_calls;
    tool_call_id = [];
    usage = m.usage;
  }

  -- What the model answers in a turn, by the history of the session.
  unfoldable pub action : ℕ → List Message → Result TurnError Message
  unfolding thought
  action turn history = elim (view_of history) [
    | err e ↦ err e
    | ok view ↦ elim (thought turn history view) [
      | err e ↦ err e
      | ok r ↦
          elim (generate (w.act turn) w.estimate w.policy w.tools_overhead (w.contexts turn 1)
            w.system r.0 r.1 w.spec).0 [
              | err e ↦ err (action_failed e)
              | ok m ↦ ok (final_message m)
            ]
    ]
  ]

  -- The message that answers a tool call.
  abbrev pub observation : ℕ → ToolCall → Message
  observation turn call =
      let result = w.run_tool turn call in
      record {
        role = user;
        content = if result.is_error then w.recover call.name result.output else result.output;
        tool_calls = [];
        tool_call_id = call.id;
        usage = none;
      }

  -- The reminder that may follow the observations.
  unfoldable pub remind : ℕ → EngineState → Option Message → Outcome Bool
  unfolding append_state
  remind turn st none = (ok false, st)
  remind turn st (some m) = elim (append_state st (w.contexts turn 4) (m ∷ [])) [
    | err e ↦ (err e, st)
    | ok st' ↦ (ok false, st')
  ]

  -- The tools' part of a turn. Only the first call is looked at for the reminder.
  unfoldable pub run_tools : ℕ → EngineState → ToolCall → List ToolCall → Outcome Bool
  unfolding remind
  run_tools turn st first rest =
      elim (append_state st (w.contexts turn 3) (map (observation turn) (first ∷ rest))) [
        | err e ↦ (err e, st)
        | ok st' ↦
            let checked =
              check_and_inject w.fingerprint w.nudge st'.failures first (w.run_tool turn first) in
            remind turn (record st' { failures = checked.0 }) checked.1
      ]

  -- What follows the append of the model's message.
  unfoldable pub after_message : ℕ → EngineState → List ToolCall → Outcome Bool
  unfolding run_tools
  after_message turn st [] = elim (w.looks_after turn) [
    | some e ↦ (err (interrupted e), st)
    | none ↦ (ok true, st)
  ]
  after_message turn st (first ∷ rest) =
      let ran = run_tools turn st first rest in
      elim (w.looks_after turn) [ some e ↦ (err (interrupted e), st) | none ↦ ran ]

  unfoldable pub take_message : ℕ → EngineState → Message → Outcome Bool
  unfolding after_message append_state
  take_message turn st m = elim (append_state st (w.contexts turn 2) (m ∷ [])) [
    | err e ↦ (err e, st)
    | ok st' ↦ after_message turn st' m.tool_calls
  ]

  -- `runTurn`: whether the loop is done.
  unfoldable pub run_turn : ℕ → EngineState → Outcome Bool
  unfolding take_message action
  run_turn turn st = elim (action turn (get_working_memory st.session 0)) [
    | err e ↦ (err e, st)
    | ok m ↦ take_message turn st m
  ]

  abbrev continue : (EngineState → Outcome (Unit {0})) → Outcome Bool → Outcome (Unit {0})
  continue next (err e, st) = (err e, st)
  continue next (ok true, st) = (ok tt, st)
  continue next (ok false, st) = next st

  -- `Run`, after the prompt was built, from turn `turn` on.
  unfoldable pub run : ℕ → ℕ → EngineState → Outcome (Unit {0})
  unfolding run_turn
  run zero turn st = (err out_of_fuel, st)
  run (suc fuel) turn st =
      let next = run fuel (suc turn) in
      elim (w.looks turn) [
        | some e ↦ (err (interrupted e), st)
        | none ↦ continue next (run_turn turn st)
      ]
