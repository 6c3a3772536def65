-- ===== src/Gateway/Supervisor.antt =====
-- internal/gateway/supervisor.go: an adapter is started again whenever it stops. Times are
-- nanoseconds; what one start brings (`Attempt`) and the jitter are given from outside.
use go_tiny_claw.Base.{
  ℕ, suc, zero, ◌*◌, ◌^◌, ◌≤◌, ◌<◌, min, max, ◌||◌, List, [], ◌∷◌, Option, none, some,
  if◌then◌else◌, ◌==◌, leb, CtxErr, ◌≡◌, arith, ap, subst, sym, ◌∙◌, inl, inr, Option-cases,
}

-- `adapterRetryPolicy`
pub record RetryPolicy : Type 0 where
  pub initial : ℕ
  pub max_delay : ℕ
  pub stable_after : ℕ
  pub jitter : Option (ℕ → ℕ)

-- `next`
unfoldable pub next_backoff : RetryPolicy → ℕ → ℕ → ℕ
next_backoff p previous uptime =
    if previous == 0 || leb p.stable_after uptime then p.initial else min (previous * 2) p.max_delay

-- How `Start` ended: for good, or with an error (or none) and perhaps the platform's hint.
pub data Failure : Type 0 where
  permanent : Failure
  stopped : Option ℕ → Failure

-- One turn of the loop: the context before the start, after it and after the wait.
pub record Attempt : Type 0 where
  pub before : Option CtxErr
  pub after : Option CtxErr
  pub failure : Failure
  pub uptime : ℕ
  pub waited : Option CtxErr

pub data Ending : Type 0 where
  ended : CtxErr → Ending
  failed_permanently running : Ending

abbrev pub jittered : RetryPolicy → Option (ℕ → ℕ) → ℕ → ℕ
jittered p none d = d
jittered p (some j) d = min (j d) p.max_delay

abbrev pub at_least : Option ℕ → ℕ → ℕ
at_least none d = d
at_least (some hint) d = max d hint

unfoldable pub delay_of : RetryPolicy → ℕ → Option ℕ → ℕ
delay_of p backoff hint = at_least hint (jittered p p.jitter backoff)

-- A turn that ends the loop, or the backoff and the delay with which it waits.
unfoldable pub turn : RetryPolicy → ℕ → Attempt → Option Ending × (ℕ × ℕ)
unfolding next_backoff delay_of
turn p backoff a = elim a.before [
  | some e ↦ (some (ended e), (backoff, 0))
  | none ↦ elim a.after [
    | some e ↦ (some (ended e), (backoff, 0))
    | none ↦ elim a.failure [
      | permanent ↦ (some failed_permanently, (backoff, 0))
      | stopped hint ↦
          let next = next_backoff p backoff a.uptime in
          (elim a.waited [ some e ↦ some (ended e) | none ↦ none ], (next, delay_of p next hint))
    ]
  ]
]

-- `supervise`, on the attempts that the world brings: the delays waited, and how it ended.
unfoldable pub supervise : RetryPolicy → ℕ → List Attempt → List ℕ × Ending
unfolding turn
supervise p backoff [] = ([], running)
supervise p backoff (a ∷ more) =
    let (end, (next, delay)) = turn p backoff a in
    let rest = supervise p next more in
    elim end [ some e ↦ ([], e) | none ↦ (delay ∷ rest.0, rest.1) ]

-- The backoff after as many quick failures in a row.
unfoldable pub backoff_after : RetryPolicy → ℕ → ℕ
unfolding next_backoff
backoff_after p zero = 0
backoff_after p (suc k) = next_backoff p (backoff_after p k) 0

doubled : (a k : ℕ) → a * 2 ^ suc k ≡ a * 2 ^ k * 2
doubled a k = grind arith

doubled-positive : (a k : ℕ) → 0 < a → 0 < a * 2 ^ k
doubled-positive a zero h = omega arith
doubled-positive a (suc k) h = omega (arith, doubled a k, doubled-positive a k h)

delay_of_bounded :
    (p : RetryPolicy) (backoff : ℕ) (hint : Option ℕ)
    → backoff ≤ p.max_delay
    → (delay_of p backoff hint ≤ at_least hint p.max_delay)
      × ((h : ℕ) → hint ≡ some h → h ≤ delay_of p backoff hint)
unfolding delay_of
delay_of_bounded p backoff none m = elim (Option-cases p.jitter) [
  | inl e ↦ (ground arith, λ h f. ground arith)
  | inr (j, e) ↦ (ground arith, λ h f. ground arith)
]
delay_of_bounded p backoff (some x) m = elim (Option-cases p.jitter) [
  | inl e ↦ (ground arith, λ h f. ground arith)
  | inr (j, e) ↦ (ground arith, λ h f. ground arith)
]

next_backoff_bounded :
    (p : RetryPolicy) (previous uptime : ℕ)
    → p.initial ≤ p.max_delay
    → (next_backoff p previous uptime ≤ p.max_delay)
      × (p.stable_after ≤ uptime → next_backoff p previous uptime ≡ p.initial)
unfolding next_backoff
next_backoff_bounded p previous uptime m = (ground arith, λ h. ground arith)

-- Without a stable run the backoff doubles from the first delay up to the greatest: after `k + 1`
-- quick failures it is the smaller of the first delay times 2 ^ k and the greatest delay.
pub backoff_doubles :
    (p : RetryPolicy) (k : ℕ)
    → 0 < p.initial
    → p.initial ≤ p.max_delay
    → 0 < p.stable_after
    → backoff_after p (suc k) ≡ min (p.initial * 2 ^ k) p.max_delay
unfolding backoff_after next_backoff
backoff_doubles p zero h m s = omega arith
backoff_doubles p (suc k) h m s =
    let ih = backoff_doubles p k h m s in
    let positive = doubled-positive p.initial k h in
    let twice = doubled p.initial k in ground (arith, ih, positive, twice)

-- A turn that goes on waits at least as long as the platform asks, and without such a request at most
-- the greatest delay, which the backoff does not pass either; and a stable run before the failure
-- starts again from the first delay.
pub turn_bounded :
    (p : RetryPolicy) (backoff : ℕ) (a : Attempt) (hint : Option ℕ)
    → p.initial ≤ p.max_delay
    → (turn p backoff a).0 ≡ none
    → a.failure ≡ stopped hint
    → let (next, delay) = (turn p backoff a).1 in
      (next ≤ p.max_delay)
      × (delay ≤ at_least hint p.max_delay)
      × ((h : ℕ) → hint ≡ some h → h ≤ delay)
      × (p.stable_after ≤ a.uptime → next ≡ p.initial)
unfolding turn
turn_bounded p backoff a hint m e f =
    let waiting : (turn p backoff a).1
        ≡ (next_backoff p backoff a.uptime, delay_of p (next_backoff p backoff a.uptime) hint) =
      elim (Option-cases a.before) [
        | inr (x, g) ↦ ground arith
        | inl g ↦ elim (Option-cases a.after) [ inr (x, k) ↦ ground arith | inl k ↦ ground arith ]
      ] in
    let (small, stable) = next_backoff_bounded p backoff a.uptime m in
    let (most, least) = delay_of_bounded p (next_backoff p backoff a.uptime) hint small in
    (
      ground (arith, waiting),
      ground (arith, waiting),
      λ h k. subst (λ w. h ≤ w.1) (sym waiting) (least h k),
      λ h. ap (λ w. w.0) waiting ∙ stable h,
    )
