-- ===== src/Approval.antt =====
-- internal/approval: the registry of requests that wait for a human, as the mutex orders its
-- operations. A `*pendingApproval` is a ticket number; its one-place result channel is a cell of
-- `results`. What a clock, a notifier or a cancellation decides comes as an argument. The children
-- hold the system of waiting calls (System), its invariant (Invariant) and the results (Laws);
-- Danger is the policy that decides which calls ask.
pub mod System
pub mod Invariant
pub mod Laws
pub mod Danger
pub mod Patterns
pub mod Examples
use go_tiny_claw.Base.{
  ℕ, suc, Bool, true, false, ◌&&◌, ◌||◌, not, List, [], ◌∷◌, Option, none, some, if◌then◌else◌,
  ◌==◌, Text, is_empty, ◌≟◌, ≟_iff, Eq, text_eq, ◌≡◌, ◌↔◌, arith, lookup, insert, delete, is_some,
  Result, ok, err, ◌>>=◌, ◌>>◌, guard, CtxErr,
}
use go_tiny_claw.Channel.{Route, validate}

pub record Key : Type 0 where
  pub session_id : Text
  pub task_id : Text

pub key_beq_iff :
    (a b : Key) → (((a.session_id ≟ b.session_id) && (a.task_id ≟ b.task_id)) ≡ true) ↔ (a ≡ b)
key_beq_iff a b = ground (arith, ≟_iff a.session_id b.session_id, ≟_iff a.task_id b.task_id)

instance abbrev pub key_eq : Eq Key
key_eq = record {
  beq = λ a b. (a.session_id ≟ b.session_id) && (a.task_id ≟ b.task_id);
  beq_iff = key_beq_iff;
}

pub record ApprovalResult : Type 0 where
  pub allowed : Bool
  pub reason : Text

pub record Request : Type 0 where
  pub session_id : Text
  pub route : Route
  pub task_id : Text
  pub tool_name : Text
  pub args : Text

-- Why `Wait` denies without a human's answer.
pub data Denial : Type 0 where
  context_done : CtxErr → Denial
  ids_required invalid_route unavailable duplicate_task notify_failed : Denial

-- `ApprovalManager`: the ticket that waits under each key, the result that each channel holds, and
-- the next fresh ticket.
pub record ApprovalManager : Type 0 where
  pub pending_tasks : List (Key × ℕ)
  pub results : ℕ → Option ApprovalResult
  pub next_ticket : ℕ

-- `NewApprovalManager`
abbrev pub new_manager : ApprovalManager
new_manager = record { pending_tasks = []; results = λ t. none; next_ticket = 0 }

abbrev pub key_of : Request → Key
key_of req = record { session_id = req.session_id; task_id = req.task_id }

abbrev pub no_context_error : Option CtxErr → Result Denial (Unit {0})
no_context_error none = ok tt
no_context_error (some e) = err (context_done e)

-- The tests of `Wait` before it registers. `available` says that the manager and the notifier are
-- there, `ctx_err` what the context says at the start.
unfoldable pub check_request : Option CtxErr → Request → Bool → Result Denial (Unit {0})
check_request ctx_err req available = do
  no_context_error ctx_err
  guard (not (is_empty req.session_id || is_empty req.task_id)) ids_required
  guard (validate req.route) invalid_route
  guard available unavailable

-- `Wait` up to the notification: the ticket under which the request now waits.
unfoldable pub wait_begin :
    ApprovalManager → Option CtxErr → Request → Bool → Result Denial (ℕ × ApprovalManager)
wait_begin m ctx_err req available = do
  check_request ctx_err req available
  guard (not (is_some (lookup m.pending_tasks (key_of req)))) duplicate_task
  ok (
    m.next_ticket,
    record m {
      pending_tasks = insert m.pending_tasks (key_of req) m.next_ticket;
      next_ticket = suc m.next_ticket;
    },
  )

abbrev pub is_ticket : Option ℕ → ℕ → Bool
is_ticket none t = false
is_ticket (some u) t = u == t

-- The deferred cleanup: an old waiter cannot remove a later request under its key.
unfoldable pub wait_cleanup : ApprovalManager → Key → ℕ → ApprovalManager
wait_cleanup m k t =
    if is_ticket (lookup m.pending_tasks k) t
    then record m { pending_tasks = delete m.pending_tasks k }
    else m

-- What ends the wait: the notification failed, the context ended, or the channel gave a result (and
-- the context was then looked at once more).
pub data Wake : Type 0 where
  notification_error : Wake
  context_ended : CtxErr → Wake
  received : Option CtxErr → Wake

-- The verdict of `Wait` when it wakes; `none` while the channel is still empty.
unfoldable pub verdict : Option ApprovalResult → Wake → Option (Result Denial ApprovalResult)
verdict buffered notification_error = some (err notify_failed)
verdict buffered (context_ended e) = some (err (context_done e))
verdict none (received ctx_err) = none
verdict (some r) (received none) = some (ok r)
verdict (some r) (received (some e)) = some (err (context_done e))

abbrev pub put_result : (ℕ → Option ApprovalResult) → ℕ → ApprovalResult → ℕ → Option ApprovalResult
put_result results t r u = if t == u then some r else results u

-- The nonblocking send into the channel of a request that was taken out of the map.
unfoldable pub send_result : ApprovalManager → ℕ → ApprovalResult → Bool × ApprovalManager
send_result m t r =
    if is_some (m.results t)
    then (false, m)
    else (true, record m { results = put_result m.results t r })

resolve_found : ApprovalManager → Key → Option ℕ → ApprovalResult → Bool → Bool × ApprovalManager
resolve_found m k none r expired = (false, m)
resolve_found m k (some t) r expired =
    let m' = record m { pending_tasks = delete m.pending_tasks k } in
    if expired then (false, m') else send_result m' t r

-- `Resolve`; `expired` says that the waiting call's context has ended.
unfoldable pub resolve : ApprovalManager → Key → ApprovalResult → Bool → Bool × ApprovalManager
unfolding resolve_found send_result
resolve m k r expired = resolve_found m k (lookup m.pending_tasks k) r expired
