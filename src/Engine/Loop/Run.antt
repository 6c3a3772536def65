-- ===== src/Engine/Loop/Run.antt =====
-- internal/engine/loop.go: what a run adds to the session, and that it ends when it is cancelled.
use go_tiny_claw.Base.{
  ℕ, suc, zero, ◌+◌, Bool, true, false, List, [], ◌∷◌, ◌++◌, some, Result, ok, err, CtxErr, ◌≡◌,
  inl, inr, refl, sym, ap, subst, ◌∙◌, arith, append_assoc, Option-cases,
}
use go_tiny_claw.Schema.{Message}
use go_tiny_claw.Context.Session.Laws.{Agrees}
use go_tiny_claw.Context.Units.{no_calls}
use go_tiny_claw.Engine.Loop.{
  World, EngineState, Outcome, TurnError, interrupted, run_turn, run, continue,
}
use go_tiny_claw.Engine.Loop.Grown.{Answers, Grew, Grew-trans, Grew-refl, timely}
use go_tiny_claw.Engine.Loop.Turn.{Turned, run_turn-Turned}

module _ (w : World) where
  -- What a run adds, by its answer.
  abbrev pub RunAdds : Result TurnError (Unit {0}) → List Message → Type 0
  RunAdds (ok u) added =
      (before : List Message) × (m : Message) × (added ≡ before ++ m ∷ [])
      × ((turn : ℕ) × Answers w turn m)
      × (no_calls m.tool_calls ≡ true)
  RunAdds (err e) added = Unit

  abbrev pub Ran : EngineState → Outcome (Unit {0}) → Type 0
  Ran st o = (added : List Message) × Grew st added o.1 × RunAdds o.0 added

  Ran-after :
      (a b : EngineState) (xs : List Message) (o : Outcome (Unit {0}))
      → Grew a xs b
      → Ran b o
      → Ran a o
  Ran-after a b xs (ok u, c) g (ys, k, (before, m, e, r, n)) = (
    xs ++ ys,
    Grew-trans w a b c xs ys g k,
    (xs ++ before, m, ap (λ z. xs ++ z) e ∙ sym (append_assoc xs before (m ∷ [])), r, n),
  )
  Ran-after a b xs (err e, c) g (ys, k, u) = (xs ++ ys, Grew-trans w a b c xs ys g k, tt)

  continue-adds :
      (turn : ℕ) (st : EngineState) (next : EngineState → Outcome (Unit {0})) (o : Outcome Bool)
      → ((u : EngineState) → Ran u (next u))
      → Turned w turn st o
      → Ran st (continue w next o)
  continue-adds turn st next (ok true, u) rest (added, k, (m, e, a, n)) =
      (added, k, ([], m, e, (turn, a), n))
  continue-adds turn st next (ok false, u) rest (added, k, t) =
      Ran-after st u added (next u) k (rest u)
  continue-adds turn st next (err e, u) rest (added, k, t) = (added, k, tt)

  run-Ran : (fuel turn : ℕ) (st : EngineState) → Ran st (run w fuel turn st)
  unfolding run
  run-Ran zero turn st = ([], Grew-refl w st, tt)
  run-Ran (suc fuel) turn st = elim (Option-cases (w.looks turn)) [
    | inr (e, f) ↦
        let step : run w (suc fuel) turn st ≡ (err (interrupted e), st) = ground arith in
        subst (Ran st) (sym step) ([], Grew-refl w st, tt)
    | inl f ↦
        let step : run w (suc fuel) turn st
            ≡ continue w (run w fuel (suc turn)) (run_turn w turn st) =
          ground arith in
        subst (Ran st) (sym step) (
          continue-adds turn st (run w fuel (suc turn)) (run_turn w turn st)
            (run-Ran fuel (suc turn)) (run_turn-Turned w turn st))
  ]

  -- Of a session that agrees with its store, a run leaves the history in front, and the session agrees
  -- with its store afterwards, whether the run goes well or fails. If it goes well, the last that it
  -- has added is the provider's answer in a turn, without tool calls.
  pub run_adds :
      (fuel turn : ℕ) (st : EngineState)
      → Agrees st.session st.store
      → (added : List Message) × ((run w fuel turn st).1.session.history
          ≡ st.session.history ++ added)
        × Agrees (run w fuel turn st).1.session (run w fuel turn st).1.store
        × RunAdds (run w fuel turn st).0 added
  run_adds fuel turn st a = let (added, (h, k), t) = run-Ran fuel turn st in (added, h, k a, t)

  -- Whether a run ended with an answer of the code's.
  abbrev pub is_answered : Outcome (Unit {0}) → Bool
  is_answered (ok u, st) = true
  is_answered (err e, st) = timely e

  continue-is_answered :
      (turn : ℕ) (st : EngineState) (next : EngineState → Outcome (Unit {0})) (o : Outcome Bool)
      → ((u : EngineState) → is_answered (next u) ≡ true)
      → Turned w turn st o
      → is_answered (continue w next o) ≡ true
  continue-is_answered turn st next (ok true, u) after (added, k, t) = refl
  continue-is_answered turn st next (ok false, u) after (added, k, t) = after u
  continue-is_answered turn st next (err e, u) after (added, k, (q, how)) = q

  -- A run that is cancelled before its (n + 1)-th turn ends by then: fuel for n + 1 turns is enough
  -- for an answer of the code, whatever the model and the tools do.
  pub run_cancelled :
      (n turn : ℕ) (st : EngineState) (e : CtxErr)
      → w.looks (turn + n) ≡ some e
      → is_answered (run w (suc n) turn st) ≡ true
  unfolding run timely
  run_cancelled zero turn st e h = let at : w.looks turn ≡ some e = ground arith in ground arith
  run_cancelled (suc n) turn st e h = elim (Option-cases (w.looks turn)) [
    | inr (x, f) ↦
        let step : run w (suc (suc n)) turn st ≡ (err (interrupted x), st) = ground arith in
        subst (λ o. is_answered o ≡ true) (sym step) refl
    | inl f ↦
        let step : run w (suc (suc n)) turn st
            ≡ continue w (run w (suc n) (suc turn)) (run_turn w turn st) =
          ground arith in
        let later : w.looks (suc turn + n) ≡ some e = ground arith in
        subst (λ o. is_answered o ≡ true) (sym step)
          (continue-is_answered turn st (run w (suc n) (suc turn)) (run_turn w turn st)
            (λ u. run_cancelled n (suc turn) u e later) (run_turn-Turned w turn st))
  ]
