-- ===== src/Delivery.antt =====
-- internal/delivery: which reports a channel shows (policy.go), and how a channel's reporter keeps its
-- messages behind the notices that a task was accepted (reporter.go). A notice is known by its number,
-- and `notices` says of each whether its `done` is still to be called, as `sync.OnceFunc` does.
use go_tiny_claw.Base.{
  ℕ, suc, zero, ◌+◌, ◌-◌, ◌<◌, Bool, true, false, ◌||◌, List, [], ◌∷◌, ◌++◌, Option, none, some,
  if◌then◌else◌, ◌==◌, Text, text_eq, codes, ◌≟◌, Result, ok, err, get_elem?, ◌≡◌, ◌↔◌, refl, arith,
  ap, Bool-cases, inl, inr,
}

pub data ReportMode : Type 0 where
  mode_unset quiet compact verbose : ReportMode

-- `ParseReportMode`
unfoldable pub parse_report_mode : Text → Result Text ReportMode
parse_report_mode value =
    if value ≟ [] || value ≟ codes "compact"
    then ok compact
    else if value ≟ codes "quiet"
    then ok quiet
    else if value ≟ codes "verbose"
    then ok verbose
    else err value

-- `ShowAccepted`
unfoldable pub show_accepted : ReportMode → Bool
show_accepted mode_unset = true
show_accepted compact = true
show_accepted m = false

-- `ChannelReporter`: `waiting` says that `acceptedDone` is a channel.
pub record ChannelReporter : Type 0 where
  pub mode : ReportMode
  pub pending : ℕ
  pub waiting : Bool
  pub notices : List Bool

-- `NewChannelReporter`
unfoldable pub new_channel_reporter : ReportMode → ChannelReporter
new_channel_reporter m = record { mode = m; pending = 0; waiting = false; notices = [] }

-- `PrepareAccepted`: a notice is reserved, unless the mode shows none.
unfoldable pub prepare_accepted : ChannelReporter → ChannelReporter
unfolding show_accepted
prepare_accepted r =
    if show_accepted r.mode
    then record r {
      pending = suc r.pending;
      waiting = r.pending == 0 || r.waiting;
      notices = r.notices ++ true ∷ [];
    }
    else r

unfoldable pub clear : ℕ → List Bool → List Bool
clear i [] = []
clear zero (b ∷ bs) = false ∷ bs
clear (suc i) (b ∷ bs) = b ∷ clear i bs

abbrev pub is_open : Option Bool → Bool
is_open none = false
is_open (some b) = b

-- `done` of a notice, which the notice calls when it was sent or failed, and a refused task at once.
unfoldable pub complete : ChannelReporter → ℕ → ChannelReporter
unfolding clear
complete r i =
    if is_open (get_elem? r.notices i)
    then record r {
      pending = r.pending - 1;
      waiting = if r.pending - 1 == 0 then false else r.waiting;
      notices = clear i r.notices;
    }
    else r

-- `send` goes on to deliver at once, without waiting.
abbrev pub can_send : ChannelReporter → Bool
can_send r = if r.waiting then false else true

pub data Step : Type 0 where
  prepared : Step
  completed : ℕ → Step

unfoldable pub run_reporter : ChannelReporter → List Step → ChannelReporter
unfolding prepare_accepted complete
run_reporter r [] = r
run_reporter r (prepared ∷ ss) = run_reporter (prepare_accepted r) ss
run_reporter r (completed i ∷ ss) = run_reporter (complete r i) ss

-- How many notices are open.
unfoldable pub open_notices : List Bool → ℕ
open_notices [] = 0
open_notices (b ∷ bs) = let rest = open_notices bs in if b then suc rest else rest

open_notices-append :
    (bs cs : List Bool) → open_notices (bs ++ cs) ≡ open_notices bs + open_notices cs
unfolding open_notices
open_notices-append [] cs = omega arith
open_notices-append (true ∷ bs) cs = omega (arith, open_notices-append bs cs)
open_notices-append (false ∷ bs) cs = omega (arith, open_notices-append bs cs)

open_notices-clear :
    (i : ℕ) (bs : List Bool)
    → is_open (get_elem? bs i) ≡ true
    → open_notices bs ≡ suc (open_notices (clear i bs))
unfolding open_notices clear
open_notices-clear i [] h = ground arith
open_notices-clear zero (b ∷ bs) h = ground arith
open_notices-clear (suc i) (true ∷ bs) h = ap suc (open_notices-clear i bs h)
open_notices-clear (suc i) (false ∷ bs) h = open_notices-clear i bs h

-- The counter is the number of open notices, and there is a channel to wait on while it is not 0.
abbrev pub Counted : ChannelReporter → Type 0
Counted r = (r.pending ≡ open_notices r.notices) × ((r.waiting ≡ true) ↔ (0 < r.pending))

prepare_accepted-Counted : (r : ChannelReporter) → Counted r → Counted (prepare_accepted r)
unfolding prepare_accepted open_notices
prepare_accepted-Counted r h = elim (Bool-cases (show_accepted r.mode)) [
  | inl e ↦
      let more = open_notices-append r.notices (true ∷ []) in
      (ground (arith, more), (λ k. ground arith, λ k. ground (arith, h.1.1)))
  | inr e ↦ (ground arith, (λ k. ground (arith, h.1.0), λ k. ground (arith, h.1.1)))
]

complete-Counted : (r : ChannelReporter) (i : ℕ) → Counted r → Counted (complete r i)
unfolding complete
complete-Counted r i h = elim (Bool-cases (is_open (get_elem? r.notices i))) [
  | inl e ↦
      let fewer = open_notices-clear i r.notices e in
      (ground (arith, fewer), (λ k. ground (arith, h.1.0), λ k. ground (arith, h.1.1)))
  | inr e ↦ (ground arith, (λ k. ground (arith, h.1.0), λ k. ground (arith, h.1.1)))
]

run_reporter-Counted :
    (r : ChannelReporter) (ss : List Step) → Counted r → Counted (run_reporter r ss)
unfolding run_reporter
run_reporter-Counted r [] h = h
run_reporter-Counted r (prepared ∷ ss) h =
    run_reporter-Counted (prepare_accepted r) ss (prepare_accepted-Counted r h)
run_reporter-Counted r (completed i ∷ ss) h =
    run_reporter-Counted (complete r i) ss (complete-Counted r i h)

-- Whatever notices were reserved and completed, in any order and however often each was completed, a
-- message of the reporter goes out at once exactly if no notice is open; otherwise it waits.
pub send_waits_for_notices :
    (m : ReportMode) (ss : List Step)
    → let r = run_reporter (new_channel_reporter m) ss in
      (can_send r ≡ true) ↔ (open_notices r.notices ≡ 0)
unfolding new_channel_reporter open_notices
send_waits_for_notices m ss =
    let r = run_reporter (new_channel_reporter m) ss in
    let (count, channel) =
      run_reporter-Counted (new_channel_reporter m) ss
        (refl, (λ h. ground arith, λ h. ground arith)) in
    elim (Bool-cases r.waiting) [
      | inl e ↦ (λ h. ground arith, λ h. ground (arith, channel.0 e))
      | inr e ↦ (
        λ h. elim (Bool-cases (r.pending == 0)) [
          | inl f ↦ ground arith
          | inr f ↦ ground (arith, channel.1)
        ],
        λ h. ground arith,
      )
    ]
