-- ===== src/Tools/Registry.antt =====
-- internal/tools/registry.go: a tool call passes the middlewares in order and then runs its tool. The
-- tools, the middlewares and the texts of the messages are parameters: a tool gives its output and
-- its error, a middleware whether the call may go on and why not. Beside the result stands whether
-- the tool ran.
use go_tiny_claw.Base.{
  Bool, true, false, List, [], ◌∷◌, ◌++◌, Option, none, some, if◌then◌else◌, Text, text_eq,
  is_empty, lookup, insert, ◌≡◌, ◌↔◌, inl, inr, refl, arith, Option-cases, Bool-cases, All, is_some,
}
use go_tiny_claw.Schema.{ToolCall, ToolResult}

-- `BaseTool.Execute` and `MiddlewareFunc`.
abbrev pub Tool : Type 0
Tool = Text → Text × Option Text

abbrev pub Middleware : Type 0
Middleware = ToolCall → Bool × Text

-- `registryImpl`
pub record ToolRegistry : Type 0 where
  pub tools : List (Text × Tool)
  pub middlewares : List Middleware

-- `Use`
unfoldable pub use_middleware : ToolRegistry → Middleware → ToolRegistry
use_middleware r mw = record r { middlewares = r.middlewares ++ mw ∷ [] }

-- `Register`, under the tool's name; a second tool of the name takes the place of the first.
unfoldable pub register_tool : ToolRegistry → Text → Tool → ToolRegistry
register_tool r name tool = record r { tools = insert r.tools name tool }

-- The loop over the middlewares: the reason of the first that refuses.
unfoldable pub refusal : List Middleware → ToolCall → Option Text
refusal [] call = none
refusal (mw ∷ mws) call =
    let rest = refusal mws call in if (mw call).0 then rest else some (mw call).1

-- How the code words its three messages.
pub record Wording : Type 0 where
  pub unknown_tool : Text → Text
  pub intercepted : Text → Text
  pub failed : Text → Text → Text

abbrev pub wrap : ToolCall → Text → Bool → ToolResult
wrap call output failed = record { tool_call_id = call.id; output = output; is_error = failed }

-- The result of a tool that ran.
unfoldable pub ran : Wording → ToolCall → Text × Option Text → ToolResult
ran w call (output, none) = wrap call output false
ran w call (output, some e) =
    wrap call (if is_empty output then w.failed call.name e else output) true

-- What follows the lookup: the result, and whether the tool ran.
unfoldable pub execute_found : Wording → Tool → ToolCall → Option Text → ToolResult × Bool
unfolding ran
execute_found w tool call (some reason) = (wrap call (w.intercepted reason) true, false)
execute_found w tool call none = (ran w call (tool call.arguments), true)

-- `registryImpl.Execute`
unfoldable pub execute : Wording → ToolRegistry → ToolCall → ToolResult × Bool
unfolding execute_found refusal
execute w r call = elim (lookup r.tools call.name) [
  | none ↦ (wrap call (w.unknown_tool call.name) true, false)
  | some tool ↦ execute_found w tool call (refusal r.middlewares call)
]

refusal_allows :
    (mws : List Middleware) (call : ToolCall)
    → (refusal mws call ≡ none → All (λ mw. (mw call).0 ≡ true) mws)
      × (All (λ mw. (mw call).0 ≡ true) mws → refusal mws call ≡ none)
unfolding refusal
refusal_allows [] call = (λ h. tt, λ h. refl)
refusal_allows (mw ∷ mws) call =
    let (f, g) = refusal_allows mws call in
    elim (Bool-cases (mw call).0) [
      | inl e ↦ (λ h. (e, f (ground arith)), λ h. ground (arith, g h.1))
      | inr e ↦ (λ h. ground arith, λ h. ground arith)
    ]

-- A tool runs exactly if it is registered and every middleware lets the call pass.
pub execute_guarded :
    (w : Wording) (r : ToolRegistry) (call : ToolCall)
    → ((execute w r call).1 ≡ true)
      ↔ ((is_some (lookup r.tools call.name) ≡ true) × All (λ mw. (mw call).0 ≡ true) r.middlewares)
unfolding execute
execute_guarded w r call =
    let (f, g) = refusal_allows r.middlewares call in
    elim (Option-cases (lookup r.tools call.name)) [
      | inl e ↦ (λ h. ground arith, λ h. ground arith)
      | inr (tool, e) ↦ elim (Option-cases (refusal r.middlewares call)) [
        | inl n ↦ (λ h. (ground arith, f n), λ h. ground arith)
        | inr (x, n) ↦ (λ h. ground arith, λ h. ground (arith, g h.1))
      ]
    ]

-- The result of a call bears the call's ID on every path. It is no error exactly if the tool ran and
-- gave none, and then it is the tool's output; and what a failing tool still printed is kept.
pub execute_answers :
    (w : Wording) (r : ToolRegistry) (call : ToolCall) (tool : Tool)
    → lookup r.tools call.name ≡ some tool
    → let (result, ran) = execute w r call in
      (result.tool_call_id ≡ call.id)
      × (result.is_error ≡ false → (ran ≡ true) × (tool call.arguments ≡ (result.output, none)))
      × (ran ≡ true → (tool call.arguments).1 ≡ none → result.is_error ≡ false)
      × (ran ≡ true
          → is_empty (tool call.arguments).0 ≡ false
          → result.output ≡ (tool call.arguments).0)
unfolding execute ran
execute_answers w r call tool e = elim (Option-cases (refusal r.middlewares call)) [
  | inr (x, n) ↦ (ground arith, λ h. ground arith, λ h k. ground arith, λ h k. ground arith)
  | inl n ↦ elim (Option-cases (tool call.arguments).1) [
    | inl f ↦ (ground arith, λ h. ground arith, λ h k. ground arith, λ h k. ground arith)
    | inr (x, f) ↦ (ground arith, λ h. ground arith, λ h k. ground arith, λ h k. ground arith)
  ]
]
