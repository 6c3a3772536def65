-- ===== src/Engine/Subagent.antt =====
-- internal/engine/loop.go, `RunSub`: the loop of a subagent, of ten turns at most. The tools run side
-- by side and each result has its place, so they are run in order here; running a tool and the hint
-- for its error are parameters, and so is the provider, which is asked by turn. Beside the result
-- stand the turns taken and the history at the end, without the system message.
use go_tiny_claw.Base.{
  ℕ, suc, zero, ◌+◌, ◌≤◌, true, false, List, [], ◌∷◌, ◌++◌, Option, none, some, if◌then◌else◌, Text,
  map, Result, ok, err, CtxErr, Ctx, ◌≡◌, ◌≢◌, arith, append_assoc, append-nil, Bool-cases,
  Option-cases, Result-cases, inl, inr,
}
use go_tiny_claw.Schema.{Message, ToolCall, ToolResult, user}
use go_tiny_claw.Context.Budget.{ContextPolicy, ModelContextSpec}
use go_tiny_claw.Context.Units.{BuildError, no_calls}
use go_tiny_claw.Engine.Generate.{ProviderAnswer, GenerateError, build_context, generate}

pub data SubError : Type 0 where
  interrupted : CtxErr → SubError
  no_context : BuildError → SubError
  inference_failed : GenerateError → SubError
  too_deep : SubError

abbrev pub SubOutcome : Type 0
SubOutcome = Result SubError Text × (ℕ × List Message)

module _ (provider : ℕ → ℕ → List Message → ProviderAnswer) (run_tool : ToolCall → ToolResult)
    (recover : Text → Text → Text) (estimate : Message → ℕ) (p : ContextPolicy) (overhead : ℕ)
    (spec : ModelContextSpec) (live : ℕ → Option CtxErr) (c : ℕ → Ctx) (system : Message) where
  -- The message that answers a tool call.
  unfoldable pub observe : ToolCall → Message
  observe call =
      let result = run_tool call in
      record {
        role = user;
        content = if result.is_error then recover call.name result.output else result.output;
        tool_calls = [];
        tool_call_id = call.id;
        usage = none;
      }

  -- What a turn gets from the model.
  unfoldable pub sub_answer : ℕ → List Message → Result SubError Message
  sub_answer turn history = elim (build_context estimate p overhead system history spec) [
    | err e ↦ err (no_context e)
    | ok built ↦
        elim (generate (provider turn) estimate p overhead (c turn) system history built.messages
          spec).0 [ err e ↦ err (inference_failed e) | ok m ↦ ok m ]
  ]

  -- The loop from turn `turn` on, with `left` turns left.
  unfoldable pub sub_loop : ℕ → ℕ → List Message → SubOutcome
  unfolding sub_answer observe
  sub_loop zero turn history = elim (live turn) [
    | some e ↦ (err (interrupted e), (turn, history))
    | none ↦ (err too_deep, (turn, history))
  ]
  sub_loop (suc left) turn history = elim (live turn) [
    | some e ↦ (err (interrupted e), (turn, history))
    | none ↦ elim (sub_answer turn history) [
      | err e ↦ (err e, (suc turn, history))
      | ok m ↦ elim (no_calls m.tool_calls) [
        | true ↦ (ok m.content, (suc turn, history ++ m ∷ []))
        | false ↦ sub_loop left (suc turn) (history ++ m ∷ map observe m.tool_calls)
      ]
    ]
  ]

  -- `RunSub`, after the prompt was built.
  unfoldable pub run_sub : Text → SubOutcome
  unfolding sub_loop
  run_sub task = sub_loop 10 0 (
      record { role = user; content = task; tool_calls = []; tool_call_id = []; usage = none } ∷ [])

  -- What the loop promises, from a turn and a history on.
  abbrev pub Bounded : ℕ → ℕ → List Message → SubOutcome → Type 0
  Bounded left turn history o =
      (o.1.0 ≤ turn + left)
      × (o.0 ≡ err too_deep → o.1.0 ≡ turn + left)
      × ((added : List Message) × (o.1.1 ≡ history ++ added))
      × ((text : Text)
          → o.0 ≡ ok text
          → (before : List Message) × (m : Message) × (o.1.1 ≡ before ++ m ∷ [])
            × (no_calls m.tool_calls ≡ true)
            × (m.content ≡ text))

  sub_answer-too_deep : (turn : ℕ) (history : List Message) → sub_answer turn history ≢ err too_deep
  unfolding sub_answer
  sub_answer-too_deep turn history h =
      elim (Result-cases (build_context estimate p overhead system history spec)) [
        | inr (e, f) ↦ ground arith
        | inl (built, f) ↦
            elim (Result-cases
              (generate (provider turn) estimate p overhead (c turn) system history built.messages
                spec).0) [ inr (e, g) ↦ ground arith | inl (m, g) ↦ ground arith ]
      ]

  sub_loop-Bounded :
      (left turn : ℕ) (history : List Message)
      → Bounded left turn history (sub_loop left turn history)
  unfolding sub_loop
  sub_loop-Bounded zero turn history = elim (Option-cases (live turn)) [
    | inl e ↦ (
      ground arith,
      λ h. ground arith,
      ([], ground (arith, append-nil history)),
      λ t h. ground arith,
    )
    | inr (x, e) ↦ (
      ground arith,
      λ h. ground arith,
      ([], ground (arith, append-nil history)),
      λ t h. ground arith,
    )
  ]
  sub_loop-Bounded (suc left) turn history = elim (Option-cases (live turn)) [
    | inr (x, e) ↦ (
      ground arith,
      λ h. ground arith,
      ([], ground (arith, append-nil history)),
      λ t h. ground arith,
    )
    | inl e ↦ elim (Result-cases (sub_answer turn history)) [
      | inr (x, f) ↦
          let never = sub_answer-too_deep turn history in
          (
            ground arith,
            λ h. ground (arith, never),
            ([], ground (arith, append-nil history)),
            λ t h. ground arith,
          )
      | inl (m, f) ↦ elim (Bool-cases (no_calls m.tool_calls)) [
        | inl g ↦ (
          ground arith,
          λ h. ground arith,
          (m ∷ [], ground arith),
          λ t h. (history, m, ground arith, g, ground arith),
        )
        | inr g ↦
            let more = m ∷ map observe m.tool_calls in
            let (most, deep, (added, grown), told) =
              sub_loop-Bounded left (suc turn) (history ++ more) in
            (
              ground (arith, most),
              λ h. ground (arith, deep),
              (more ++ added, ground (arith, grown, append_assoc history more added)),
              λ t h.
                  let (before, last, a, b, d) = told t (ground arith) in
                  (before, last, ground (arith, a), b, d),
            )
      ]
    ]
  ]

  -- A subagent takes ten turns at most, and is called back only after ten. Its history grows from the
  -- task that it was given; and what it reports is the content of its last message, which calls no
  -- tool.
  pub run_sub-Bounded :
      (task : Text)
      → Bounded 10 0
          (record { role = user; content = task; tool_calls = []; tool_call_id = []; usage = none }
            ∷ [])
          (run_sub task)
  unfolding run_sub
  run_sub-Bounded task = sub_loop-Bounded 10 0 _
