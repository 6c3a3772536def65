-- ===== src/Context/Builder/Whole.antt =====
-- internal/context/builder.go: `Build` of a history for which there is room.
use go_tiny_claw.Base.{
  ℕ, ◌+◌, ◌-◌, ◌≤◌, ◌<◌, Bool, true, false, List, [], ◌∷◌, ◌++◌, ltb, ok, map, length, flatten, ◌≡◌,
  inl, inr, refl, arith, Bool-cases, ap,
}
use go_tiny_claw.Schema.{Message}
use go_tiny_claw.Context.Budget.{
  ContextPolicy, ModelContextSpec, budget, estimate_messages, estimate_messages-append,
}
use go_tiny_claw.Context.Units.{units}
use go_tiny_claw.Context.Units.Laws.{units_whole}
use go_tiny_claw.Context.Builder.Laws.{length-anchors, length-copied}
use go_tiny_claw.Context.Builder.{
  BuildResult, Selection, anchors, pick, select, select_group, copied, assemble, build, count_cut,
  flagged, copies,
}

-- With room for everything, every flag is set.
select-all :
    (estimate : Message → ℕ) (limit start : ℕ) (gs : List (List Message)) (ks : List Bool)
    → length ks ≡ length gs
    → start + estimate_messages estimate (flatten gs)
      ≤ limit + estimate_messages estimate (pick ks gs)
    → start ≤ limit
    → (s : Selection) × (select estimate limit start gs ks ≡ ok s)
      × (s.stopped ≡ false)
      × (pick s.flags gs ≡ flatten gs)
      × (s.used + estimate_messages estimate (pick ks gs)
          ≡ start + estimate_messages estimate (flatten gs))
unfolding select select_group pick flatten
select-all estimate limit start [] [] n h l =
    (record { used = start; flags = []; stopped = false }, refl, refl, refl, refl)
select-all estimate limit start [] (k ∷ ks) n h l = ground arith
select-all estimate limit start (g ∷ gs) [] n h l = ground arith
select-all estimate limit start (g ∷ gs) (true ∷ ks) n h l =
    let u = estimate_messages-append estimate g (pick ks gs) in
    let v = estimate_messages-append estimate g (flatten gs) in
    let (s, e, live, picked, used) =
      select-all estimate limit start gs ks (ground arith) (omega (arith, u, v, h)) l in
    (flagged s true 0, ground arith, ground arith, ap (◌++◌ g) picked, omega (arith, u, v, used))
select-all estimate limit start (g ∷ gs) (false ∷ ks) n h l =
    let v = estimate_messages-append estimate g (flatten gs) in
    let (s, e, live, picked, used) =
      select-all estimate limit start gs ks (ground arith) (omega (arith, v, h)) l in
    (
      flagged s true (estimate_messages estimate g),
      ground (arith, v),
      ground arith,
      ap (◌++◌ g) picked,
      omega (arith, v, used),
    )

pick-estimate :
    (estimate : Message → ℕ) (bs : List Bool) (gs : List (List Message))
    → estimate_messages estimate (pick bs gs) ≤ estimate_messages estimate (flatten gs)
unfolding pick flatten estimate_messages
pick-estimate estimate [] gs = omega arith
pick-estimate estimate (b ∷ bs) [] = omega arith
pick-estimate estimate (true ∷ bs) (g ∷ gs) = omega (
  arith,
  pick-estimate estimate bs gs,
  estimate_messages-append estimate g (pick bs gs),
  estimate_messages-append estimate g (flatten gs),
)
pick-estimate estimate (false ∷ bs) (g ∷ gs) =
    omega (arith, pick-estimate estimate bs gs, estimate_messages-append estimate g (flatten gs))

-- Where the tool chains of a history are whole and it fits the input budget with the system prompt,
-- `Build` succeeds and leaves nothing out.
pub build_whole :
    (estimate : Message → ℕ) (p : ContextPolicy) (system : Message) (history : List Message)
    (model : ModelContextSpec) (groups : List (List Message))
    → units (copied estimate p history) ≡ ok groups
    → 0 < (budget p model).1
    → estimate system + estimate_messages estimate (copied estimate p history) ≤ (budget p model).1
    → (r : BuildResult) × (build estimate p system history model ≡ ok r)
      × (r.messages ≡ system ∷ copied estimate p history)
      × (r.omitted_messages ≡ 0)
unfolding build assemble
build_whole estimate p system history model groups e room fits =
    let limit = (budget p model).1 in
    let wb = budget p model in
    let anchored = estimate_messages estimate (pick (anchors groups) groups) in
    let (whole, legal) = units_whole (copied estimate p history) groups e in
    let all = ap (estimate_messages estimate) whole in
    let small = pick-estimate estimate (anchors groups) groups in
    let start = estimate system + anchored in
    let start_fits : start ≤ limit = omega (arith, small, all, fits) in
    let (s, f, live, picked, used) =
      select-all estimate limit start groups (anchors groups) (length-anchors groups)
        (omega (arith, all, fits)) start_fits in
    let many = length-copied estimate p history in
    elim (Bool-cases (ltb limit start)) [
      | inl g ↦ ground arith
      | inr g ↦ (
        record {
          messages = system ∷ pick s.flags groups;
          window_tokens = wb.0;
          estimated_tokens = s.used;
          budget_tokens = wb.1;
          total_messages = length history + 1;
          included_messages = length (system ∷ pick s.flags groups);
          omitted_messages = length history + 1 - length (system ∷ pick s.flags groups);
          truncated_tool_results =
              count_cut s.flags groups (map (λ c. c.1) (copies estimate p history));
        },
        ground arith,
        ground (arith, picked, whole),
        ground (arith, many, ap length picked, ap length whole),
      )
    ]
