-- ===== src/Engine/Loop/Turn.antt =====
-- internal/engine/loop.go: what a turn adds to the session.
use go_tiny_claw.Base.{
  if◌then◌else◌, ℕ, ◌≤◌, Bool, true, false, List, [], ◌∷◌, ◌++◌, Option, none, some, map, Result,
  ok, err, length, ◌≡◌, ◌⊎◌, inl, inr, refl, sym, ap, subst, arith, append-nil, Option-cases,
  Result-cases,
}
use go_tiny_claw.Schema.{is_user, Message, ToolCall}
use go_tiny_claw.Context.Session.{get_working_memory}
use go_tiny_claw.Context.Session.Laws.{Agrees}
use go_tiny_claw.Context.Units.{no_calls}
use go_tiny_claw.Engine.Reminder.{check_and_inject}
use go_tiny_claw.Engine.Loop.{
  World, EngineState, Outcome, TurnError, interrupted, append_state, action, observation, remind,
  run_tools, after_message, take_message, run_turn,
}
use go_tiny_claw.Engine.Loop.Grown.{
  Answers, Grew, timely, append_state-Grew, append_state-timely, Grew-trans, Grew-refl,
  action-Answers, action-timely,
}

module _ (w : World) where
  -- One observation for each call, in their order: the user's message that answers it with the output of
  -- the tool, and a hint for the error if it failed.
  abbrev pub Observed : ℕ → List ToolCall → List Message → Type 0
  Observed turn [] [] = Unit
  Observed turn [] (m ∷ ms) = ⊥
  Observed turn (c ∷ cs) [] = ⊥
  Observed turn (c ∷ cs) (m ∷ ms) =
      (m.tool_call_id ≡ c.id)
      × (is_user m.role ≡ true)
      × (no_calls m.tool_calls ≡ true)
      × (m.content ≡ (
          if (w.run_tool turn c).is_error
          then w.recover c.name (w.run_tool turn c).output
          else (w.run_tool turn c).output))
      × Observed turn cs ms

  map-Observed : (turn : ℕ) (cs : List ToolCall) → Observed turn cs (map (observation w turn) cs)
  unfolding no_calls
  map-Observed turn [] = tt
  map-Observed turn (c ∷ cs) = (refl, refl, refl, refl, map-Observed turn cs)

  -- What a turn adds, by its answer: the model's message alone at the end of the run; the message, one
  -- observation for each of its calls, in their order, and perhaps a reminder, if the run goes on; and
  -- a beginning of these if the turn fails.
  abbrev pub TurnAdds : ℕ → Result TurnError Bool → List Message → Type 0
  TurnAdds turn (ok true) added =
      (m : Message) × (added ≡ m ∷ []) × Answers w turn m × (no_calls m.tool_calls ≡ true)
  TurnAdds turn (ok false) added =
      (m : Message) × (seen : List Message) × (reminder : List Message) × (added
        ≡ m ∷ seen ++ reminder)
      × Observed turn m.tool_calls seen
      × Answers w turn m
      × (no_calls m.tool_calls ≡ false)
      × (length reminder ≤ 1)
  TurnAdds turn (err e) added =
      (timely e ≡ true)
      × ((added ≡ [])
          ⊎ ((m : Message) × Answers w turn m
              × ((added ≡ m ∷ [])
                  ⊎ ((seen : List Message) × (added ≡ m ∷ seen)
                      × Observed turn m.tool_calls seen))))

  abbrev pub Turned : ℕ → EngineState → Outcome Bool → Type 0
  Turned turn st o = (added : List Message) × Grew st added o.1 × TurnAdds turn o.0 added

  -- What the tools' part adds to the session, by its answer.
  ToolsAdd : ℕ → List ToolCall → Result TurnError Bool → List Message → Type 0
  ToolsAdd turn calls (ok true) added = (added ≡ []) × (no_calls calls ≡ true)
  ToolsAdd turn calls (ok false) added =
      (reminder : List Message) × (added ≡ map (observation w turn) calls ++ reminder)
      × (no_calls calls ≡ false)
      × (length reminder ≤ 1)
  ToolsAdd turn calls (err e) added =
      (timely e ≡ true) × ((added ≡ []) ⊎ (added ≡ map (observation w turn) calls))

  ToolsRun : ℕ → List ToolCall → EngineState → Outcome Bool → Type 0
  ToolsRun turn calls st o =
      (added : List Message) × Grew st added o.1 × ToolsAdd turn calls o.0 added

  -- The reminder after the observations, which st got as st'.
  remind-adds :
      (turn : ℕ) (st st' : EngineState) (first : ToolCall) (rest : List ToolCall)
      (o : Option Message)
      → Grew st (map (observation w turn) (first ∷ rest)) st'
      → ToolsRun turn (first ∷ rest) st (remind w turn st' o)
  unfolding remind timely ToolsRun ToolsAdd no_calls
  remind-adds turn st st' first rest none g =
      (map (observation w turn) (first ∷ rest), g, ([], sym (append-nil _), refl, ground arith))
  remind-adds turn st st' first rest (some m) g =
      elim (Result-cases (append_state w st' (w.contexts turn 4) (m ∷ []))) [
        | inr (e, f) ↦
            let step : remind w turn st' (some m) ≡ (err e, st') = ground arith in
            subst (ToolsRun turn (first ∷ rest) st) (sym step) (
              map (observation w turn) (first ∷ rest),
              g,
              (append_state-timely w st' e (w.contexts turn 4) (m ∷ []) f, inr refl),
            )
        | inl (u, f) ↦
            let step : remind w turn st' (some m) ≡ (ok false, u) = ground arith in
            subst (ToolsRun turn (first ∷ rest) st) (sym step) (
              map (observation w turn) (first ∷ rest) ++ m ∷ [],
              Grew-trans w st st' u (map (observation w turn) (first ∷ rest)) (m ∷ []) g
                  (append_state-Grew w st' u (w.contexts turn 4) (m ∷ []) f),
              (m ∷ [], refl, refl, ground arith),
            )
      ]

  run_tools-adds :
      (turn : ℕ) (st : EngineState) (first : ToolCall) (rest : List ToolCall)
      → ToolsRun turn (first ∷ rest) st (run_tools w turn st first rest)
  unfolding run_tools timely ToolsRun ToolsAdd
  run_tools-adds turn st first rest =
      let seen = map (observation w turn) (first ∷ rest) in
      elim (Result-cases (append_state w st (w.contexts turn 3) seen)) [
        | inr (e, f) ↦
            let step : run_tools w turn st first rest ≡ (err e, st) = ground arith in
            subst (ToolsRun turn (first ∷ rest) st) (sym step) (
              [],
              Grew-refl w st,
              (append_state-timely w st e (w.contexts turn 3) seen f, inl refl),
            )
        | inl (u, f) ↦
            let checked =
              check_and_inject w.fingerprint w.nudge u.failures first (w.run_tool turn first) in
            let step : run_tools w turn st first rest
                ≡ remind w turn (record u { failures = checked.0 }) checked.1 =
              ground arith in
            subst (ToolsRun turn (first ∷ rest) st) (sym step) (
              remind-adds turn st (record u { failures = checked.0 }) first rest checked.1
                (append_state-Grew w st u (w.contexts turn 3) seen f))
      ]

  after_message-adds :
      (turn : ℕ) (st : EngineState) (calls : List ToolCall)
      → ToolsRun turn calls st (after_message w turn st calls)
  unfolding after_message timely ToolsRun ToolsAdd no_calls
  after_message-adds turn st [] = elim (Option-cases (w.looks_after turn)) [
    | inl f ↦
        let step : after_message w turn st [] ≡ (ok true, st) = ground arith in
        subst (ToolsRun turn [] st) (sym step) ([], Grew-refl w st, (refl, refl))
    | inr (e, f) ↦
        let step : after_message w turn st [] ≡ (err (interrupted e), st) = ground arith in
        subst (ToolsRun turn [] st) (sym step) ([], Grew-refl w st, (refl, inl refl))
  ]
  after_message-adds turn st (first ∷ rest) = elim (Option-cases (w.looks_after turn)) [
    | inl f ↦
        let step : after_message w turn st (first ∷ rest) ≡ run_tools w turn st first rest =
          ground arith in
        subst (ToolsRun turn (first ∷ rest) st) (sym step) (run_tools-adds turn st first rest)
    | inr (e, f) ↦
        let step : after_message w turn st (first ∷ rest) ≡ (err (interrupted e), st) =
          ground arith in
        subst (ToolsRun turn (first ∷ rest) st) (sym step) ([], Grew-refl w st, (refl, inl refl))
  ]

  -- The tools' part, after the message m of the model.
  joined :
      (turn : ℕ) (st st' : EngineState) (m : Message) (o : Outcome Bool)
      → Answers w turn m
      → Grew st (m ∷ []) st'
      → ToolsRun turn m.tool_calls st' o
      → Turned turn st o
  unfolding ToolsRun ToolsAdd
  joined turn st st' m (ok true, u) a g (added, k, (e, n)) =
      (m ∷ added, Grew-trans w st st' u (m ∷ []) added g k, (m, ap (λ x. m ∷ x) e, a, n))
  joined turn st st' m (ok false, u) a g (added, k, (r, e, n, le)) = (
    m ∷ added,
    Grew-trans w st st' u (m ∷ []) added g k,
    (
      m,
      map (observation w turn) m.tool_calls,
      r,
      ap (λ x. m ∷ x) e,
      map-Observed turn m.tool_calls,
      a,
      n,
      le,
    ),
  )
  joined turn st st' m (err x, u) a g (added, k, (q, inl e)) = (
    m ∷ added,
    Grew-trans w st st' u (m ∷ []) added g k,
    (q, inr (m, a, inl (ap (λ y. m ∷ y) e))),
  )
  joined turn st st' m (err x, u) a g (added, k, (q, inr e)) = (
    m ∷ added,
    Grew-trans w st st' u (m ∷ []) added g k,
    (
      q,
      inr (
        m,
        a,
        inr (
          map (observation w turn) m.tool_calls,
          ap (λ y. m ∷ y) e,
          map-Observed turn m.tool_calls,
        ),
      ),
    ),
  )

  take_message-adds :
      (turn : ℕ) (st : EngineState) (m : Message)
      → Answers w turn m
      → Turned turn st (take_message w turn st m)
  unfolding take_message timely
  take_message-adds turn st m a =
      elim (Result-cases (append_state w st (w.contexts turn 2) (m ∷ []))) [
        | inr (e, f) ↦
            let step : take_message w turn st m ≡ (err e, st) = ground arith in
            subst (Turned turn st) (sym step) (
              [],
              Grew-refl w st,
              (append_state-timely w st e (w.contexts turn 2) (m ∷ []) f, inl refl),
            )
        | inl (u, f) ↦
            let step : take_message w turn st m ≡ after_message w turn u m.tool_calls =
              ground arith in
            subst (Turned turn st) (sym step) (
              joined turn st u m (after_message w turn u m.tool_calls) a
                (append_state-Grew w st u (w.contexts turn 2) (m ∷ []) f)
                (after_message-adds turn u m.tool_calls))
      ]

  pub run_turn-Turned : (turn : ℕ) (st : EngineState) → Turned turn st (run_turn w turn st)
  unfolding run_turn timely action
  run_turn-Turned turn st = elim (Result-cases (action w turn (get_working_memory st.session 0))) [
    | inr (e, f) ↦
        let step : run_turn w turn st ≡ (err e, st) = ground arith in
        subst (Turned turn st) (sym step)
          ([], Grew-refl w st, (action-timely w turn _ e f, inl refl))
    | inl (m, f) ↦
        let step : run_turn w turn st ≡ take_message w turn st m = ground arith in
        subst (Turned turn st) (sym step) (
          take_message-adds turn st m (action-Answers w turn (get_working_memory st.session 0) m f))
  ]

  -- Of a session that agrees with its store, a turn leaves the history in front, and the session agrees
  -- with its store afterwards. What it adds begins with what the provider answered in this turn: its
  -- text, but for the space around it, its tool calls and its usage. At the end of the loop that is all,
  -- and it has no calls; if the loop goes on, it has calls, one observation follows for each of them in
  -- their order, and at most one reminder; and if the turn fails, it has added nothing, or the answer
  -- alone, or the answer with all of its observations.
  pub run_turn_adds :
      (turn : ℕ) (st : EngineState)
      → Agrees st.session st.store
      → (added : List Message) × ((run_turn w turn st).1.session.history
          ≡ st.session.history ++ added)
        × Agrees (run_turn w turn st).1.session (run_turn w turn st).1.store
        × TurnAdds turn (run_turn w turn st).0 added
  run_turn_adds turn st a = let (added, (h, k), t) = run_turn-Turned turn st in (added, h, k a, t)
