-- ===== src/Engine/Generate.antt =====
-- internal/engine/context.go: the input of the model and its call, which is tried a second time with
-- a smaller window if the provider says that the context is too long. The provider and the size of
-- the tools' JSON are parameters. A window that the code's subtraction would make negative is 0.
use go_tiny_claw.Base.{
  ℕ, ◌+◌, ◌-◌, ◌*◌, ◌/◌, List, [], ◌∷◌, Option, none, some, Text, Result, ok, err, ◌>>=◌, CtxErr,
  Ctx, ◌≡◌, ◌⊎◌, inl, inr, refl, arith, Option-cases,
}
use go_tiny_claw.Schema.{Message}
use go_tiny_claw.Context.Budget.{ContextPolicy, ModelContextSpec, budget, resolved}
use go_tiny_claw.Context.Units.{BuildError}
use go_tiny_claw.Context.Builder.{BuildResult, build}

-- What the provider may answer: a message or none, an error that names a context limit, or another.
pub data ProviderAnswer : Type 0 where
  responded : Message → ProviderAnswer
  no_response : ProviderAnswer
  context_limit other_failure : Text → ProviderAnswer

pub data GenerateError : Type 0 where
  ended : CtxErr → GenerateError
  not_built : BuildError → GenerateError
  provider_failed : Text → GenerateError
  responded_nothing : GenerateError

-- `buildContext`: the tools, of `overhead` tokens, take their room from the input.
unfoldable pub build_context :
    (Message → ℕ)
    → ContextPolicy
    → ℕ
    → Message
    → List Message
    → ModelContextSpec
    → Result BuildError BuildResult
build_context estimate p overhead system history spec =
    let wb = budget p spec in
    let adjusted : ModelContextSpec = record {
      context_window = wb.0;
      max_output = wb.0 - (wb.0 * (resolved p).safety_margin_percent + 99) / 100 - wb.1 + overhead;
    } in
    build estimate p system history adjusted >>= λ r.
    ok (record r { estimated_tokens = r.estimated_tokens + overhead; budget_tokens = wb.1 })

-- The last lines of `generate`.
unfoldable pub conclude : ProviderAnswer → Result GenerateError Message
conclude (responded m) = ok m
conclude no_response = err responded_nothing
conclude (context_limit e) = err (provider_failed e)
conclude (other_failure e) = err (provider_failed e)

conclude-ok : (a : ProviderAnswer) (m : Message) → conclude a ≡ ok m → a ≡ responded m
unfolding conclude
conclude-ok (responded n) m h = ground arith
conclude-ok no_response m h = ground arith
conclude-ok (context_limit e) m h = ground arith
conclude-ok (other_failure e) m h = ground arith

module _ (provider : ℕ → List Message → ProviderAnswer) (estimate : Message → ℕ) (p : ContextPolicy)
    (overhead : ℕ) where
  -- The second try: its context is looked at once more, and the views sent are listed.
  unfoldable pub retry :
      Option CtxErr
      → Result BuildError BuildResult
      → List Message
      → Result GenerateError Message × List (List Message)
  unfolding conclude
  retry late (err e) view = (err (not_built e), view ∷ [])
  retry (some e) (ok r) view = (err (ended e), view ∷ [])
  retry none (ok r) view = (conclude (provider 1 r.messages), view ∷ r.messages ∷ [])

  unfoldable pub after_first :
      Ctx
      → Message
      → List Message
      → List Message
      → ModelContextSpec
      → ProviderAnswer
      → Result GenerateError Message × List (List Message)
  unfolding retry build_context
  after_first c system history view spec (context_limit e) =
      let smaller : ModelContextSpec = record spec { context_window = (budget p spec).0 * 3 / 4 } in
      retry (c 1) (build_context estimate p overhead system history smaller) view
  after_first c system history view spec answer = (conclude answer, view ∷ [])

  -- `generate`: the answer, and the views that the provider was sent.
  unfoldable pub generate :
      Ctx
      → Message
      → List Message
      → List Message
      → ModelContextSpec
      → Result GenerateError Message × List (List Message)
  unfolding after_first
  generate c system history view spec = elim (c 0) [
    | some e ↦ (err (ended e), [])
    | none ↦ after_first c system history view spec (provider 0 view)
  ]

  -- What was sent and answered, as `generate_at_most_twice` has it.
  abbrev pub Sent :
      Message
      → List Message
      → List Message
      → ModelContextSpec
      → Result GenerateError Message × List (List Message)
      → Type 0
  Sent system history view spec (answer, views) =
      ((views ≡ [])
        ⊎ ((views ≡ view ∷ [])
            ⊎ ((e : Text) × (r : BuildResult) × (provider 0 view ≡ context_limit e)
                × (build_context estimate p overhead system history
                      (record spec { context_window = (budget p spec).0 * 3 / 4 })
                    ≡ ok r)
                × (views ≡ view ∷ r.messages ∷ []))))
      × ((m : Message)
          → answer ≡ ok m
          → (provider 0 view ≡ responded m)
            ⊎ ((r : BuildResult) × (views ≡ view ∷ r.messages ∷ [])
                × (provider 1 r.messages ≡ responded m)))

  retry-Sent :
      (late : Option CtxErr) (system : Message) (history view : List Message)
      (spec : ModelContextSpec) (x : Text) (b : Result BuildError BuildResult)
      → provider 0 view ≡ context_limit x
      → build_context estimate p overhead system history
          (record spec { context_window = (budget p spec).0 * 3 / 4 })
        ≡ b
      → Sent system history view spec (retry late b view)
  unfolding retry
  retry-Sent late system history view spec x (err e) h f = (inr (inl refl), λ n e. ground arith)
  retry-Sent (some z) system history view spec x (ok r) h f = (inr (inl refl), λ n e. ground arith)
  retry-Sent none system history view spec x (ok r) h f =
      (inr (inr (x, r, h, f, refl)), λ n e. inr (r, refl, conclude-ok (provider 1 r.messages) n e))

  after_first-Sent :
      (c : Ctx) (system : Message) (history view : List Message) (spec : ModelContextSpec)
      (a : ProviderAnswer)
      → provider 0 view ≡ a
      → Sent system history view spec (after_first c system history view spec a)
  unfolding after_first conclude
  after_first-Sent c system history view spec (responded m) h =
      (inr (inl refl), λ n e. inl (ground arith))
  after_first-Sent c system history view spec no_response h = (inr (inl refl), λ n e. ground arith)
  after_first-Sent c system history view spec (other_failure x) h =
      (inr (inl refl), λ n e. ground arith)
  after_first-Sent c system history view spec (context_limit x) h =
      let smaller : ModelContextSpec = record spec { context_window = (budget p spec).0 * 3 / 4 } in
      retry-Sent (c 1) system history view spec x
        (build_context estimate p overhead system history smaller) h refl

  -- The provider is called at most twice. The first call has the view that is given. There is a
  -- second only if the first met a context limit, and it has the messages that were built for three
  -- quarters of the window. A message that is answered is the provider's, to the last of the calls.
  pub generate_at_most_twice :
      (c : Ctx) (system : Message) (history view : List Message) (spec : ModelContextSpec)
      → Sent system history view spec (generate c system history view spec)
  unfolding generate
  generate_at_most_twice c system history view spec = elim (Option-cases (c 0)) [
    | inl e ↦ rw (generate, e) (after_first-Sent c system history view spec (provider 0 view) refl)
    | inr (x, e) ↦ rw (generate, e) (inl refl, λ m h. ground arith)
  ]
