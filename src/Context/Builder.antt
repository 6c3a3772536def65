-- ===== src/Context/Builder.antt =====
-- internal/context/builder.go, `Build`: the messages that the model is given. The groups are chosen
-- from the last to the first, so the loops are recursions that do the later groups before the first;
-- `stopped` is the code's `break`. The counts beside an error are left out.
pub mod Selected
pub mod Laws
pub mod Whole
use go_tiny_claw.Base.{
  ℕ, suc, ◌+◌, ◌-◌, Bool, true, false, ◌&&◌, ◌||◌, not, List, [], ◌∷◌, ◌++◌, if◌then◌else◌, ◌==◌,
  leb, ltb, Result, ok, err, ◌>>=◌, map, any, take, drop, length, is_empty,
}
use go_tiny_claw.Schema.{Message}
use go_tiny_claw.Context.Session.{is_ordinary}
use go_tiny_claw.Context.Budget.{
  ContextPolicy, ModelContextSpec, budget, resolved, estimate_messages,
}
use go_tiny_claw.Context.Units.{
  BuildError, tool_chain, invalid_window, system_exceeds, request_exceeds, latest_exceeds, units,
}
use go_tiny_claw.Context.Truncate.{truncate}

pub record BuildResult : Type 0 where
  pub messages : List Message
  pub window_tokens : ℕ
  pub estimated_tokens : ℕ
  pub budget_tokens : ℕ
  pub total_messages : ℕ
  pub included_messages : ℕ
  pub omitted_messages : ℕ
  pub truncated_tool_results : ℕ

abbrev pub opens_ordinary : List Message → Bool
opens_ordinary [] = false
opens_ordinary (m ∷ ms) = is_ordinary m

-- The last group that opens with an ordinary user message is the anchor.
unfoldable pub anchors : List (List Message) → List Bool
anchors [] = []
anchors (g ∷ gs) = let rest = anchors gs in (opens_ordinary g && not (any (λ b. b) rest)) ∷ rest

-- The groups that the flags select.
unfoldable pub pick : List Bool → List (List Message) → List Message
pick [] gs = []
pick (b ∷ bs) [] = []
pick (b ∷ bs) (g ∷ gs) = let rest = pick bs gs in if b then g ++ rest else rest

-- The state of the loop that selects: the tokens used, the flags of the groups passed, and whether
-- it has stopped.
pub record Selection : Type 0 where
  pub used : ℕ
  pub flags : List Bool
  pub stopped : Bool

abbrev pub flagged : Selection → Bool → ℕ → Selection
flagged s b n = record s { flags = b ∷ s.flags; used = s.used + n }

module _ (estimate : Message → ℕ) (limit : ℕ) where
  -- One turn of the loop; `last` says that the group is the last of all.
  unfoldable pub select_group : Selection → List Message → Bool → Bool → Result BuildError Selection
  select_group s g anchor last =
      let n = estimate_messages estimate g in
      if anchor || s.stopped
      then ok (flagged s anchor 0)
      else if ltb limit (s.used + n)
      then (if last then err latest_exceeds else ok (record (flagged s false 0) { stopped = true }))
      else ok (flagged s true n)

  unfoldable pub select : ℕ → List (List Message) → List Bool → Result BuildError Selection
  unfolding select_group
  select start (g ∷ gs) (k ∷ ks) = select start gs ks >>= λ s. select_group s g k (is_empty gs)
  select start gs ks = ok (record { used = start; flags = []; stopped = false })

-- How many of the selected messages were truncated: `marks` says it of each message.
unfoldable pub count_marks : List Bool → ℕ
count_marks [] = 0
count_marks (b ∷ bs) = let rest = count_marks bs in if b then suc rest else rest

unfoldable pub count_cut : List Bool → List (List Message) → List Bool → ℕ
unfolding count_marks
count_cut (b ∷ bs) (g ∷ gs) marks =
    let rest = count_cut bs gs (drop (length g) marks) in
    if b then count_marks (take (length g) marks) + rest else rest
count_cut bs gs marks = 0

-- The copies that `Build` makes, each with whether it was truncated.
unfoldable pub copies : (Message → ℕ) → ContextPolicy → List Message → List (Message × Bool)
unfolding truncate resolved
copies estimate p history =
    map (λ m. truncate estimate m (resolved p).max_tool_result_tokens) history

unfoldable pub copied : (Message → ℕ) → ContextPolicy → List Message → List Message
unfolding copies
copied estimate p history = map (λ c. c.0) (copies estimate p history)

-- The selection and the counts, once the history is cut into groups.
unfoldable pub assemble :
    (Message → ℕ)
    → ℕ × ℕ
    → Message
    → ℕ
    → List Bool
    → List (List Message)
    → Result BuildError BuildResult
unfolding anchors pick select count_cut
assemble estimate wb system total marks groups =
    let start = estimate system + estimate_messages estimate (pick (anchors groups) groups) in
    if ltb wb.1 start
    then err request_exceeds
    else (select estimate wb.1 start groups (anchors groups) >>= λ s.
        let messages = system ∷ pick s.flags groups in
        ok (record {
          messages = messages;
          window_tokens = wb.0;
          estimated_tokens = s.used;
          budget_tokens = wb.1;
          total_messages = total;
          included_messages = length messages;
          omitted_messages = total - length messages;
          truncated_tool_results = count_cut s.flags groups marks;
        }))

-- `Build`. The policy's resolution is idempotent, so the stored policy need not be resolved before.
unfoldable pub build :
    (Message → ℕ)
    → ContextPolicy
    → Message
    → List Message
    → ModelContextSpec
    → Result BuildError BuildResult
unfolding copied assemble
build estimate p system history model =
    let wb = budget p model in
    let cs = copies estimate p history in
    if wb.1 == 0
    then err invalid_window
    else if ltb wb.1 (estimate system)
    then err system_exceeds
    else (units (copied estimate p history) >>= λ groups.
        assemble estimate wb system (length history + 1) (map (λ c. c.1) cs) groups)
