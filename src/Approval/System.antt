-- ===== src/Approval/System.antt =====
-- The manager among concurrent calls: `Wait` calls that are blocked, replies and wake-ups, in any
-- order that the mutex allows. A history has its latest event first.
use go_tiny_claw.Base.{
  ℕ, Bool, false, List, [], ◌∷◌, Option, none, some, if◌then◌else◌, ◌==◌, ◌≡◌, Result, ok, err,
  CtxErr, ◌⊎◌, lookup, lookup,
}
use go_tiny_claw.Approval.{
  Key, key_eq, ApprovalResult, Request, Denial, ApprovalManager, new_manager, key_of, wait_begin,
  Wake, verdict, wait_cleanup, resolve,
}

pub data Event : Type 0 where
  ask : Option CtxErr → Request → Bool → Event
  reply : Key → ApprovalResult → Bool → Event
  wake : ℕ → Wake → Event

-- The key for which each ticket's call still waits.
pub record System : Type 0 where
  pub manager : ApprovalManager
  pub waiters : ℕ → Option Key

abbrev pub put_waiter : (ℕ → Option Key) → ℕ → Option Key → ℕ → Option Key
put_waiter w t k u = if t == u then k else w u

pub asked : System → Key → Result Denial (ℕ × ApprovalManager) → System
asked s k (err e) = s
asked s k (ok (t, m)) = record { manager = m; waiters = put_waiter s.waiters t (some k) }

-- The call with ticket `t` returns, if it waits and can.
pub woken : System → ℕ → Option Key → Wake → Option (Result Denial ApprovalResult) × System
woken s t none w = (none, s)
woken s t (some k) w = elim (verdict (s.manager.results t) w) [
  | none ↦ (none, s)
  | some v ↦ (
    some v,
    record { manager = wait_cleanup s.manager k t; waiters = put_waiter s.waiters t none },
  )
]

unfoldable pub finish : System → ℕ → Wake → Option (Result Denial ApprovalResult) × System
unfolding woken
finish s t w = woken s t (s.waiters t) w

unfoldable pub step : System → Event → System
unfolding asked
step s (ask ctx_err req available) =
    asked s (key_of req) (wait_begin s.manager ctx_err req available)
step s (reply k r expired) = record s { manager = (resolve s.manager k r expired).1 }
step s (wake t w) = (finish s t w).1

unfoldable pub run_approvals : List Event → System
run_approvals [] = record { manager = new_manager; waiters = λ t. none }
run_approvals (e ∷ es) = step (run_approvals es) e

-- At some point of the history the ticket was the one that waited under this key, and a reply with this
-- result then came to it, which found the context of its call alive.
abbrev pub Replied : List Event → ℕ → Key → ApprovalResult → Type 0
Replied [] t k r = ⊥
Replied (e ∷ es) t k r =
    ((e ≡ reply k r false) × (lookup (run_approvals es).manager.pending_tasks k ≡ some t))
    ⊎ Replied es t k r
