-- ===== src/Approval/Laws.antt =====
-- What the approval manager promises its callers.
use go_tiny_claw.Base.{
  All, ◌++◌, ◌∷◌, [], ==_iff, ℕ, Bool, true, false, List, none, some, ◌≡◌, ◌≢◌, inl, inr, arith,
  lookup, lookup-delete, ≟_iff, ≟_refl, ok, Option-cases,
}
use go_tiny_claw.Approval.{
  Key, key_eq, ApprovalResult, ApprovalManager, Wake, received, verdict, resolve, wait_begin,
  wait_cleanup,
}
use go_tiny_claw.Approval.System.{
  System, Event, ask, wake, reply, finish, step, run_approvals, Replied,
}
use go_tiny_claw.Approval.Invariant.{run_approvals-Inv}

-- Under every schedule, a call of `Wait` that returns a human's verdict does so for a reply with that
-- verdict that came while this very call was the one that waited under its session and task, and that
-- found its context alive; and its context had not ended when it read the verdict.
pub verdict_needs_reply :
    (es : List Event) (t : ℕ) (w : Wake) (r : ApprovalResult)
    → (finish (run_approvals es) t w).0 ≡ some (ok r)
    → (k : Key) × ((run_approvals es).waiters t ≡ some k) × Replied es t k r × (w ≡ received none)
unfolding finish verdict
verdict_needs_reply es t w r e = elim (Option-cases ((run_approvals es).waiters t)) [
  | inl none_waits ↦ ground arith
  | inr (k, waits) ↦ (k, waits, ground (arith, (run_approvals-Inv es).answered t k r), ground arith)
]

-- An event that is not a wake-up of this ticket's call.
abbrev pub Sleeps : ℕ → Event → Type 0
Sleeps t (wake u w) = u ≢ t
Sleeps t e = Unit

-- The call with this ticket waits for this key, and its channel has this result.
abbrev Answered : System → ℕ → Key → ApprovalResult → Type 0
Answered s t k r = (s.waiters t ≡ some k) × (s.manager.results t ≡ some r)

step-Answered :
    (es : List Event) (e : Event) (t : ℕ) (k : Key) (r : ApprovalResult)
    → Sleeps t e
    → Answered (run_approvals es) t k r
    → Answered (step (run_approvals es) e) t k r
unfolding step resolve finish wait_begin wait_cleanup
step-Answered es (ask c req available) t k r sleeps (waits, has) =
    (ground (arith, (run_approvals-Inv es).waiters_fresh t), ground arith)
step-Answered es (reply j q expired) t k r sleeps (waits, has) = (
  waits,
  ground (
    arith,
    (run_approvals-Inv es).pending_empty j t,
    Option-cases (lookup (run_approvals es).manager.pending_tasks j),
  ),
)
step-Answered es (wake u w) t k r sleeps (waits, has) = (ground (arith, ==_iff u t), ground arith)

later-Answered :
    (later es : List Event) (t : ℕ) (k : Key) (r : ApprovalResult)
    → All (Sleeps t) later
    → Answered (run_approvals es) t k r
    → Answered (run_approvals (later ++ es)) t k r
unfolding run_approvals
later-Answered [] es t k r sleeps h = h
later-Answered (e ∷ later) es t k r sleeps h =
    step-Answered (later ++ es) e t k r sleeps.0 (later-Answered later es t k r sleeps.1 h)

-- Under every schedule, a reply to a request that waits and whose context is alive is taken; and
-- whatever happens then before the waiting call wakes up, other requests, other replies, also to the
-- same session and task, and other calls' ends, the call returns that reply when it reads its channel
-- with its context alive. (A history has its latest event first.)
pub reply_delivered :
    (later es : List Event) (k : Key) (t : ℕ) (r : ApprovalResult)
    → lookup (run_approvals es).manager.pending_tasks k ≡ some t
    → All (Sleeps t) later
    → ((resolve (run_approvals es).manager k r false).0 ≡ true)
      × ((finish (run_approvals (later ++ reply k r false ∷ es)) t (received none)).0 ≡ some (ok r))
unfolding resolve finish step verdict run_approvals
reply_delivered later es k t r e sleeps =
    let empty = (run_approvals-Inv es).pending_empty k t e in
    let waits = (run_approvals-Inv es).pending_waits k t e in
    let (still, has) =
      later-Answered later (reply k r false ∷ es) t k r sleeps (waits, ground arith) in
    (ground arith, ground arith)

-- A reply takes its request out of the registry, whatever becomes of it, so a second reply to the
-- same session and task is refused and changes nothing.
pub resolve_once :
    (m : ApprovalManager) (k : Key) (r s : ApprovalResult) (expired late : Bool)
    → let m' = (resolve m k r expired).1 in resolve m' k s late ≡ (false, m')
unfolding resolve
resolve_once m k r s expired late = elim (Option-cases (lookup m.pending_tasks k)) [
  | inl e ↦ ground arith
  | inr (t, e) ↦ ground (arith, lookup-delete m.pending_tasks k k, ≟_refl k)
]

-- A reply touches no other session or task: their registrations stay, and only the channel of the
-- request that it took may change.
pub resolve_isolated :
    (m : ApprovalManager) (k j : Key) (r : ApprovalResult) (expired : Bool) (u : ℕ)
    → k ≢ j
    → (lookup (resolve m k r expired).1.pending_tasks j ≡ lookup m.pending_tasks j)
      × (lookup m.pending_tasks k ≢ some u → (resolve m k r expired).1.results u ≡ m.results u)
unfolding resolve
resolve_isolated m k j r expired u h = elim (Option-cases (lookup m.pending_tasks k)) [
  | inl e ↦ ground arith
  | inr (t, e) ↦ ground (arith, lookup-delete m.pending_tasks k j, ≟_iff k j)
]
