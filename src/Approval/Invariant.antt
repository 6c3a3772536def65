-- ===== src/Approval/Invariant.antt =====
-- What holds between two operations of the approval manager, under every schedule.
use go_tiny_claw.Base.{
  ℕ, ◌≤◌, ◌<◌, Bool, List, [], ◌∷◌, Option, none, some, ◌≡◌, refl, inl, inr, Option-cases, arith,
  lookup, lookup-insert, lookup-delete, ≟_iff, CtxErr,
}
use go_tiny_claw.Approval.{
  Key, key_eq, ApprovalResult, Request, key_of, wait_begin, Wake, wait_cleanup, resolve,
}
use go_tiny_claw.Approval.System.{
  Event, ask, reply, wake, System, finish, step, run_approvals, Replied,
}

pub record Inv (s : System) (es : List Event) : Type 0 where
  pub pending_fresh :
      (k : Key) (t : ℕ) → lookup s.manager.pending_tasks k ≡ some t → t < s.manager.next_ticket
  pub pending_waits :
      (k : Key) (t : ℕ) → lookup s.manager.pending_tasks k ≡ some t → s.waiters t ≡ some k
  pub pending_empty :
      (k : Key) (t : ℕ) → lookup s.manager.pending_tasks k ≡ some t → s.manager.results t ≡ none
  pub results_fresh : (t : ℕ) → s.manager.next_ticket ≤ t → s.manager.results t ≡ none
  pub waiters_fresh : (t : ℕ) → s.manager.next_ticket ≤ t → s.waiters t ≡ none
  pub answered :
      (t : ℕ) (k : Key) (r : ApprovalResult)
      → s.waiters t ≡ some k
      → s.manager.results t ≡ some r
      → Replied es t k r

run_approvals-nil : Inv (run_approvals []) []
unfolding run_approvals lookup
run_approvals-nil = record {
  pending_fresh = λ k t e. ground arith;
  pending_waits = λ k t e. ground arith;
  pending_empty = λ k t e. ground arith;
  results_fresh = λ t h. refl;
  waiters_fresh = λ t h. refl;
  answered = λ t k r e f. ground arith;
}

module _ (es : List Event) (v : Inv (run_approvals es) es) where
  abbrev s : System
  s = run_approvals es

  ask-Inv :
      (c : Option CtxErr) (req : Request) (available : Bool)
      → Inv (step s (ask c req available)) (ask c req available ∷ es)
  unfolding step wait_begin
  ask-Inv c req available =
      let k₀ = key_of req in
      let m = s.manager in
      let n = m.next_ticket in
      record {
        pending_fresh =
            λ k t e. ground (arith, lookup-insert m.pending_tasks k₀ k n, v.pending_fresh k t);
        pending_waits = λ k t e. ground (
          arith,
          lookup-insert m.pending_tasks k₀ k n,
          ≟_iff k₀ k,
          v.pending_fresh k t,
          v.pending_waits k t,
        );
        pending_empty = λ k t e.
            ground
              (arith, lookup-insert m.pending_tasks k₀ k n, v.results_fresh n, v.pending_empty k t);
        results_fresh = λ t h. ground (arith, v.results_fresh t);
        waiters_fresh = λ t h. ground (arith, v.waiters_fresh t);
        answered = λ t k r e f. ground (arith, v.answered t k r, v.results_fresh n);
      }

  reply-Inv :
      (k₀ : Key) (r₀ : ApprovalResult) (expired : Bool)
      → Inv (step s (reply k₀ r₀ expired)) (reply k₀ r₀ expired ∷ es)
  unfolding step resolve
  reply-Inv k₀ r₀ expired = elim (Option-cases (lookup s.manager.pending_tasks k₀)) [
    | inl e₀ ↦ record {
      pending_fresh = λ k t e. ground (arith, v.pending_fresh k t);
      pending_waits = λ k t e. ground (arith, v.pending_waits k t);
      pending_empty = λ k t e. ground (arith, v.pending_empty k t);
      results_fresh = λ t h. ground (arith, v.results_fresh t);
      waiters_fresh = λ t h. ground (arith, v.waiters_fresh t);
      answered = λ t k r e f. ground (arith, v.answered t k r);
    }
    | inr (t₀, e₀) ↦
        let p = s.manager.pending_tasks in
        record {
          pending_fresh = λ k t e. ground (arith, lookup-delete p k₀ k, v.pending_fresh k t);
          pending_waits = λ k t e. ground (arith, lookup-delete p k₀ k, v.pending_waits k t);
          pending_empty = λ k t e. ground (
            arith,
            lookup-delete p k₀ k,
            ≟_iff k₀ k,
            v.pending_empty k t,
            v.pending_waits k t,
            v.pending_waits k₀ t₀,
          );
          results_fresh = λ t h. ground (arith, v.results_fresh t, v.pending_fresh k₀ t₀);
          waiters_fresh = λ t h. ground (arith, v.waiters_fresh t);
          answered = λ t k r e f.
              ground (arith, v.answered t k r, v.pending_waits k₀ t₀, v.pending_empty k₀ t₀);
        }
  ]

  wake-Inv : (t₀ : ℕ) (w : Wake) → Inv (step s (wake t₀ w)) (wake t₀ w ∷ es)
  unfolding step finish wait_cleanup
  wake-Inv t₀ w = elim (Option-cases (s.waiters t₀)) [
    | inl e₀ ↦ record {
      pending_fresh = λ k t e. ground (arith, v.pending_fresh k t);
      pending_waits = λ k t e. ground (arith, v.pending_waits k t);
      pending_empty = λ k t e. ground (arith, v.pending_empty k t);
      results_fresh = λ t h. ground (arith, v.results_fresh t);
      waiters_fresh = λ t h. ground (arith, v.waiters_fresh t);
      answered = λ t k r e f. ground (arith, v.answered t k r);
    }
    | inr (k₀, e₀) ↦
        let p = s.manager.pending_tasks in
        record {
          pending_fresh = λ k t e. ground (arith, lookup-delete p k₀ k, v.pending_fresh k t);
          pending_waits =
              λ k t e. ground (arith, lookup-delete p k₀ k, ≟_iff k₀ k, v.pending_waits k t);
          pending_empty = λ k t e. ground (arith, lookup-delete p k₀ k, v.pending_empty k t);
          results_fresh = λ t h. ground (arith, v.results_fresh t);
          waiters_fresh = λ t h. ground (arith, v.waiters_fresh t);
          answered = λ t k r e f. ground (arith, v.answered t k r);
        }
  ]

step-Inv :
    (es : List Event) (e : Event)
    → Inv (run_approvals es) es
    → Inv (step (run_approvals es) e) (e ∷ es)
step-Inv es (ask c req available) v = ask-Inv es v c req available
step-Inv es (reply k r expired) v = reply-Inv es v k r expired
step-Inv es (wake t w) v = wake-Inv es v t w

-- Under every schedule: each waiting request has a ticket of its own with an empty channel, and a
-- channel holds a result only if a reply put it there that came to its own ticket.
pub run_approvals-Inv : (es : List Event) → Inv (run_approvals es) es
unfolding run_approvals
run_approvals-Inv [] = run_approvals-nil
run_approvals-Inv (e ∷ es) = step-Inv es e (run_approvals-Inv es)
