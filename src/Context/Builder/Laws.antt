-- ===== src/Context/Builder/Laws.antt =====
-- internal/context/builder.go: the laws of `Build`.
use go_tiny_claw.Base.{
  ℕ, suc, ◌+◌, ◌≤◌, Bool, List, [], ◌∷◌, ok, length, flatten, ◌≡◌, inl, inr, refl, arith,
  Result-cases, ap,
}
use go_tiny_claw.Schema.{Message}
use go_tiny_claw.Context.Budget.{ContextPolicy, ModelContextSpec, budget, estimate_messages}
use go_tiny_claw.Context.Units.{units}
use go_tiny_claw.Context.Units.Laws.{Legal, units_whole}
use go_tiny_claw.Context.Builder.{
  BuildResult, anchors, pick, select, copied, assemble, build, copies,
}
use go_tiny_claw.Context.Builder.Selected.{
  pick-Legal, pick-length, KeepsLast, select-KeepsLast, select_sound, KeepsRequest,
  anchors-KeepsRequest,
}

pub length-anchors : (gs : List (List Message)) → length (anchors gs) ≡ length gs
unfolding anchors
length-anchors [] = refl
length-anchors (g ∷ gs) = ap suc (length-anchors gs)

pub length-copied :
    (estimate : Message → ℕ) (p : ContextPolicy) (history : List Message)
    → length (copied estimate p history) ≡ length history
unfolding copied copies
length-copied estimate p [] = refl
length-copied estimate p (m ∷ ms) = ap suc (length-copied estimate p ms)

-- What `Build` gives the model: the system prompt and some of the turns that the history is cut into,
-- whole and in order, so that no tool chain is cut; among them the last turn, and the last that opens
-- with an ordinary message of the user. The token count it reports is the estimate of those messages,
-- and it is within the input budget; and the messages are counted.
pub build_fits :
    (estimate : Message → ℕ) (p : ContextPolicy) (system : Message) (history : List Message)
    (model : ModelContextSpec) (r : BuildResult)
    → build estimate p system history model ≡ ok r
    → (groups : List (List Message)) × (flags : List Bool) × (units (copied estimate p history)
        ≡ ok groups)
      × (flatten groups ≡ copied estimate p history)
      × (r.messages ≡ system ∷ pick flags groups)
      × KeepsRequest groups flags
      × KeepsLast flags
      × Legal (pick flags groups)
      × (r.estimated_tokens ≡ estimate_messages estimate r.messages)
      × (r.estimated_tokens ≤ (budget p model).1)
      × (r.included_messages + r.omitted_messages ≡ length history + 1)
unfolding build assemble estimate_messages
build_fits estimate p system history model r h =
    elim (Result-cases (units (copied estimate p history))) [
      | inr (x, e) ↦ ground arith
      | inl (groups, e) ↦
          let limit = (budget p model).1 in
          let start = estimate system + estimate_messages estimate (pick (anchors groups) groups) in
          elim (Result-cases (select estimate limit start groups (anchors groups))) [
            | inr (x, f) ↦ ground arith
            | inl (s, f) ↦
                let (sum, within, keeps, size) =
                  select_sound estimate limit start groups (anchors groups) s
                    (length-anchors groups) (ground arith) f in
                let (whole, legal) = units_whole (copied estimate p history) groups e in
                let few = pick-length s.flags groups in
                let many = length-copied estimate p history in
                (
                  groups,
                  s.flags,
                  e,
                  whole,
                  ground arith,
                  anchors-KeepsRequest groups s.flags keeps size,
                  select-KeepsLast estimate limit start groups (anchors groups) s
                      (length-anchors groups) f,
                  pick-Legal s.flags groups legal,
                  ground (arith, sum),
                  ground arith,
                  ground (arith, few, many, ap length whole),
                )
          ]
    ]
