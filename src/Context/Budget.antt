-- ===== src/Context/Budget.antt =====
-- internal/context/estimator.go and policy.go. A number that is not positive is 0.
use go_tiny_claw.Base.{
  ℕ, ◌+◌, ◌-◌, ◌*◌, ◌/◌, ◌≤◌, ◌<◌, Bool, ◌&&◌, ◌||◌, List, [], ◌∷◌, ◌++◌, if◌then◌else◌, ◌==◌, leb,
  Text, runes, codes, is_ascii_space, ◌≡◌, arith,
}
use go_tiny_claw.Schema.{Message, Role, ToolCall, system, user, assistant, other_role}

-- A letter, a digit or a space below 128.
abbrev is_plain : ℕ → Bool
is_plain b =
    (leb b'a' b && leb b b'z')
    || (leb b'A' b && leb b b'Z')
    || (leb b'0' b && leb b b'9')
    || is_ascii_space b

-- The quarters of a token that one rune counts: any rune from 128 on counts 8, in the four scripts
-- that the code names and elsewhere.
unfoldable pub rune_quarters : Text → ℕ
rune_quarters [] = 0
rune_quarters (b ∷ []) = if is_plain b then 2 else if leb b 127 then 4 else 8
rune_quarters (b ∷ c ∷ r) = 8

unfoldable pub quarters : List Text → ℕ
unfolding rune_quarters
quarters [] = 0
quarters (r ∷ rs) = rune_quarters r + quarters rs

-- `estimateText`
unfoldable pub estimate_text : Text → ℕ
unfolding quarters
estimate_text s = (quarters (runes s) + 3) / 4

abbrev pub role_text : Role → Text
role_text system = codes "system"
role_text user = codes "user"
role_text assistant = codes "assistant"
role_text (other_role t) = t

unfoldable pub estimate_calls : List ToolCall → ℕ
estimate_calls [] = 0
estimate_calls (c ∷ cs) =
    12 + estimate_text c.id + estimate_text c.name + estimate_text c.arguments + estimate_calls cs

-- `HeuristicEstimator.EstimateMessage`
unfoldable pub estimate_message : Message → ℕ
unfolding estimate_calls
estimate_message m =
    8
    + estimate_text (role_text m.role)
    + estimate_text m.content
    + estimate_text m.tool_call_id
    + estimate_calls m.tool_calls

-- `EstimateMessages`, for any estimate of one message.
unfoldable pub estimate_messages : (Message → ℕ) → List Message → ℕ
estimate_messages estimate [] = 0
estimate_messages estimate (m ∷ ms) = estimate m + estimate_messages estimate ms

pub record ContextPolicy : Type 0 where
  pub default_context_window : ℕ
  pub default_reserved_output : ℕ
  pub safety_margin_percent : ℕ
  pub max_tool_result_tokens : ℕ

pub record ModelContextSpec : Type 0 where
  pub context_window : ℕ
  pub max_output : ℕ

abbrev pub or_default : ℕ → ℕ → ℕ
or_default n d = if n == 0 then d else n

-- `ContextPolicy.Resolved`
unfoldable pub resolved : ContextPolicy → ContextPolicy
resolved p = record {
  default_context_window = or_default p.default_context_window 32768;
  default_reserved_output = or_default p.default_reserved_output 4096;
  safety_margin_percent = or_default p.safety_margin_percent 10;
  max_tool_result_tokens = or_default p.max_tool_result_tokens 4096;
}

-- `ContextPolicy.Budget`: the window and the input budget. The code's budget may be negative, which
-- its callers treat as 0.
unfoldable pub budget : ContextPolicy → ModelContextSpec → ℕ × ℕ
unfolding resolved
budget p m =
    let q = resolved p in
    let window = or_default m.context_window q.default_context_window in
    let output = or_default m.max_output q.default_reserved_output in
    (window, window - output - (window * q.safety_margin_percent + 99) / 100)

-- Where there is an input budget, it leaves room in the window for the output and the whole margin,
-- rounded up: input, output and margin fill the window exactly, and the margin is at least its
-- percentage and less than a token more.
pub budget_fills_window :
    (p : ContextPolicy) (m : ModelContextSpec)
    → 0 < (budget p m).1
    → let q = resolved p in
      let window = (budget p m).0 in
      let output = or_default m.max_output q.default_reserved_output in
      let margin = window - output - (budget p m).1 in
      ((budget p m).1 + output + margin ≡ window)
      × (window * q.safety_margin_percent ≤ 100 * margin)
      × (100 * margin < window * q.safety_margin_percent + 100)
unfolding budget
budget_fills_window p m h = (omega arith, omega arith, omega arith)

pub estimate_messages-append :
    (estimate : Message → ℕ) (ms ns : List Message)
    → estimate_messages estimate (ms ++ ns)
      ≡ estimate_messages estimate ms + estimate_messages estimate ns
unfolding estimate_messages
estimate_messages-append estimate [] ns = omega arith
estimate_messages-append estimate (m ∷ ms) ns =
    omega (arith, estimate_messages-append estimate ms ns)
