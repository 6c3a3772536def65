-- ===== src/Access/Rules.antt =====
-- Who passes `CanUse` and `CanApprove`.
use go_tiny_claw.Base.{
  true, [], none, some, trim_space, ◌≡◌, ◌≢◌, ◌↔◌, ◌⊎◌, inl, inr, arith, contains, Option-cases,
  text_eq,
}
use go_tiny_claw.Channel.{InboundMessage, direct, group}
use go_tiny_claw.Access.{
  open_mode, restricted, CompiledPolicy, Authorizer, policy, can_use, can_approve, use_under,
  approve_under, policy_not_found, deny,
}

-- The rule that a policy states: the account is open, or the sender is an operator and writes
-- directly or in a listed group.
abbrev pub MayUse : CompiledPolicy → InboundMessage → Type 0
MayUse p msg =
    (p.mode ≡ open_mode)
    ⊎ ((trim_space msg.user_id ≢ [])
        × (contains p.operators (trim_space msg.user_id) ≡ true)
        × ((msg.chat_type ≡ direct)
            ⊎ ((msg.chat_type ≡ group)
                × (contains p.group_chats (trim_space msg.route.chat_id) ≡ true))))

use_under-MayUse :
    (p : CompiledPolicy) (msg : InboundMessage) → ((use_under p msg).allowed ≡ true) ↔ MayUse p msg
unfolding use_under
use_under-MayUse p msg = ground arith

-- `CanUse` allows a message exactly when its account has a policy whose rule the message meets.
pub can_use_exactly :
    (a : Authorizer) (msg : InboundMessage)
    → ((can_use a msg).allowed ≡ true)
      ↔ ((p : CompiledPolicy) × (policy a msg ≡ some p) × MayUse p msg)
unfolding can_use
can_use_exactly a msg = elim (Option-cases (policy a msg)) [
  | inl e ↦ (λ h. ground arith, λ (q, f, m). ground arith)
  | inr (p, e) ↦ (
    λ h. (p, e, (use_under-MayUse p msg).0 (ground arith)),
    λ (q, f, m). ground (arith, (use_under-MayUse q msg).1 m),
  )
]

-- `CanApprove` allows exactly what `CanUse` allows from a sender who is an approver of the account,
-- or whose account is not restricted.
pub can_approve_exactly :
    (a : Authorizer) (msg : InboundMessage) (p : CompiledPolicy)
    → policy a msg ≡ some p
    → ((can_approve a msg).allowed ≡ true) ↔ (
        ((can_use a msg).allowed ≡ true)
        × ((p.mode ≢ restricted) ⊎ (contains p.approvers (trim_space msg.user_id) ≡ true)))
unfolding can_approve approve_under
can_approve_exactly a msg p h = ground arith

-- A message to an account without a policy is refused, for use and for approval.
pub missing_policy_closed :
    (a : Authorizer) (msg : InboundMessage)
    → policy a msg ≡ none
    → (can_use a msg ≡ deny policy_not_found) × (can_approve a msg ≡ deny policy_not_found)
unfolding can_use can_approve
missing_policy_closed a msg h = ground arith
