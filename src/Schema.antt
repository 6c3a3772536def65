-- ===== src/Schema.antt =====
-- internal/schema/message.go, and the billing mode of internal/provider/model.go. Token counts are
-- not negative; JSON arguments are their bytes.
use go_tiny_claw.Base.{ℕ, Bool, true, false, List, Option, Text}

-- `Role` is a string: `other_role` is any but the three that the code names.
pub data Role : Type 0 where
  system user assistant : Role
  other_role : Text → Role

abbrev pub is_user : Role → Bool
is_user user = true
is_user r = false

abbrev pub is_assistant : Role → Bool
is_assistant assistant = true
is_assistant r = false

-- `schema.Usage`
pub record TokenUsage : Type 0 where
  pub prompt_tokens : ℕ
  pub completion_tokens : ℕ
  pub cached_prompt_tokens : ℕ

pub record ToolCall : Type 0 where
  pub id : Text
  pub name : Text
  pub arguments : Text

pub record Message : Type 0 where
  pub role : Role
  pub content : Text
  pub tool_calls : List ToolCall
  pub tool_call_id : Text
  pub usage : Option TokenUsage

pub record ToolResult : Type 0 where
  pub tool_call_id : Text
  pub output : Text
  pub is_error : Bool

pub data BillingMode : Type 0 where
  billing_unset billing_api billing_subscription billing_unknown : BillingMode
  other_billing : Text → BillingMode
