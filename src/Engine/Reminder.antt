-- ===== src/Engine/Reminder.antt =====
-- internal/engine/reminder.go: failures of a tool call are counted by the call's fingerprint, until
-- any call succeeds. The fingerprint, an MD5 sum in the code, is a parameter, and so is the wording.
use go_tiny_claw.Base.{
  ℕ, suc, ◌≤◌, true, false, not, List, [], ◌∷◌, ◌++◌, Option, none, some, if◌then◌else◌, leb, Text,
  text_eq, ◌≟◌, ≟_refl, ≟_iff, lookup, insert, lookup-insert, is_some, ◌≡◌, ◌↔◌, inl, inr, refl,
  arith, ap, ◌∙◌, Bool-cases,
}
use go_tiny_claw.Schema.{Message, ToolCall, ToolResult, user}

module _ (fingerprint : ToolCall → Text) (nudge : ℕ → Text → Text) where
  abbrev pub or_zero : Option ℕ → ℕ
  or_zero none = 0
  or_zero (some n) = n

  -- The message of the reminder.
  abbrev pub reminder : ToolCall → ℕ → Message
  reminder call n = record {
    role = user;
    content = nudge n call.name;
    tool_calls = [];
    tool_call_id = [];
    usage = none;
  }

  -- `CheckAndInject`: the counters after a result, and the message, if there is one.
  unfoldable pub check_and_inject :
      List (Text × ℕ) → ToolCall → ToolResult → List (Text × ℕ) × Option Message
  check_and_inject failures call result =
      let count = suc (or_zero (lookup failures (fingerprint call))) in
      elim result.is_error [
        | false ↦ ([], none)
        | true ↦ (
          insert failures (fingerprint call) count,
          if leb 3 count then some (reminder call count) else none,
        )
      ]

  -- The counters after a series of results.
  unfoldable pub after_results : List (Text × ℕ) → List (ToolCall × ToolResult) → List (Text × ℕ)
  unfolding check_and_inject
  after_results failures [] = failures
  after_results failures ((c, r) ∷ rs) = after_results (check_and_inject failures c r).0 rs

  -- The failures of a fingerprint since the last success, `n` before the series.
  unfoldable pub failures_since : ℕ → Text → List (ToolCall × ToolResult) → ℕ
  failures_since n f [] = n
  failures_since n f ((c, r) ∷ rs) =
      failures_since (if not r.is_error then 0 else if fingerprint c ≟ f then suc n else n) f rs

  -- The counter of a fingerprint after one result.
  counted :
      (failures : List (Text × ℕ)) (call : ToolCall) (result : ToolResult) (f : Text)
      → or_zero (lookup (check_and_inject failures call result).0 f)
        ≡ failures_since (or_zero (lookup failures f)) f ((call, result) ∷ [])
  unfolding check_and_inject failures_since lookup
  counted failures call result f =
      let put =
        lookup-insert failures (fingerprint call) f
          (suc (or_zero (lookup failures (fingerprint call)))) in
      elim (Bool-cases (fingerprint call ≟ f)) [
        | inl e ↦ elim (Bool-cases result.is_error) [
          | inl h ↦ ground (arith, put, ≟_iff (fingerprint call) f)
          | inr h ↦ ground (arith, put)
        ]
        | inr e ↦ elim (Bool-cases result.is_error) [
          | inl h ↦ ground (arith, put)
          | inr h ↦ ground (arith, put)
        ]
      ]

  failures_since-append :
      (n : ℕ) (f : Text) (rs qs : List (ToolCall × ToolResult))
      → failures_since n f (rs ++ qs) ≡ failures_since (failures_since n f rs) f qs
  unfolding failures_since
  failures_since-append n f [] qs = refl
  failures_since-append n f ((c, r) ∷ rs) qs =
      failures_since-append (if not r.is_error then 0 else if fingerprint c ≟ f then suc n else n) f
        rs qs

  after_results_count :
      (failures : List (Text × ℕ)) (f : Text) (rs : List (ToolCall × ToolResult))
      → or_zero (lookup (after_results failures rs) f)
        ≡ failures_since (or_zero (lookup failures f)) f rs
  unfolding after_results check_and_inject failures_since
  after_results_count failures f [] = refl
  after_results_count failures f ((c, r) ∷ rs) =
      after_results_count (check_and_inject failures c r).0 f rs
      ∙ ap (λ n. failures_since n f rs) (counted failures c r f)

  -- After any series of results, a reminder comes exactly if this call fails and calls with its
  -- fingerprint have now failed three times or more since the last success of any call, whatever other
  -- calls failed in between: the failures need not be consecutive.
  pub reminder_exactly :
      (rs : List (ToolCall × ToolResult)) (call : ToolCall) (result : ToolResult)
      → (is_some (check_and_inject (after_results [] rs) call result).1 ≡ true) ↔ (
          (result.is_error ≡ true)
          × (3 ≤ failures_since 0 (fingerprint call) (rs ++ (call, result) ∷ [])))
  unfolding check_and_inject failures_since lookup
  reminder_exactly rs call result =
      let f = fingerprint call in
      let before = after_results_count [] f rs in
      let all = failures_since-append 0 f rs ((call, result) ∷ []) in
      let same = ≟_refl f in
      elim (Bool-cases result.is_error) [
        | inr e ↦ (λ h. ground arith, λ h. ground arith)
        | inl e ↦ elim (Bool-cases (leb 3 (suc (or_zero (lookup (after_results [] rs) f))))) [
          | inl g ↦ (λ h. (e, ground (arith, before, all, same)), λ h. ground arith)
          | inr g ↦ (λ h. ground arith, λ h. ground (arith, before, all, same))
        ]
      ]
