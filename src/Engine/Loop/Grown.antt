-- ===== src/Engine/Loop/Grown.antt =====
-- internal/engine/loop.go: what an append adds to the session, and what an answer of the model is.
use go_tiny_claw.Base.{
  refl, trim_space, ℕ, Bool, true, false, List, [], ◌∷◌, ◌++◌, Text, ok, err, Ctx, length, ◌≡◌, ◌≢◌,
  inl, inr, sym, ap, subst, ◌∙◌, arith, append_assoc, append-nil, Result-cases, Bool-cases,
  is_empty,
}
use go_tiny_claw.Schema.{Message, is_assistant}
use go_tiny_claw.Context.Session.{append_messages}
use go_tiny_claw.Context.Session.Laws.{Agrees, append_messages-Agrees, append_messages_history}
use go_tiny_claw.Engine.Generate.{build_context, generate, responded, generate_at_most_twice}
use go_tiny_claw.Engine.Loop.{
  final_message, World, EngineState, TurnError, interrupted, out_of_fuel, no_context,
  thinking_failed, action_failed, not_appended, append_state, action, thought, view_of,
}

longer_ne : (id : Text) → id ≢ 0 ∷ id
longer_ne id h =
    let same : length id ≡ length (0 ∷ id) = ap (λ x. length x) h in ground (arith, same)

-- The session has grown by these messages, and agrees with its store if it did before.
abbrev pub Grew : EngineState → List Message → EngineState → Type 0
Grew st added st' =
    (st'.session.history ≡ st.session.history ++ added)
    × (Agrees st.session st.store → Agrees st'.session st'.store)

-- Whether an error is one of the code's.
unfoldable pub timely : TurnError → Bool
timely out_of_fuel = false
timely (interrupted e) = true
timely (no_context e) = true
timely (thinking_failed e) = true
timely (action_failed e) = true
timely (not_appended e) = true

module _ (w : World) where
  pub append_state-Grew :
      (st st' : EngineState) (c : Ctx) (ms : List Message)
      → append_state w st c ms ≡ ok st'
      → Grew st ms st'
  unfolding append_state
  append_state-Grew st st' c ms h =
      elim (Result-cases (append_messages st.session st.store c w.clock w.now ms)) [
        | inr (e, f) ↦ ground arith
        | inl ((t, n), f) ↦
            let step : st' ≡ record st { session = t; store = n } = ground arith in
            subst (Grew st ms) (sym step) (
              append_messages_history st.session st.store c w.clock w.now ms t n f,
              λ a.
                  (append_messages-Agrees st.session st.store c w.clock w.now ms t n
                    (0 ∷ st.session.id) a f (longer_ne st.session.id)).0,
            )
      ]

  pub append_state-timely :
      (st : EngineState) (e : TurnError) (c : Ctx) (ms : List Message)
      → append_state w st c ms ≡ err e
      → timely e ≡ true
  unfolding append_state timely
  append_state-timely st e c ms h =
      ground (arith, Result-cases (append_messages st.session st.store c w.clock w.now ms))

  pub Grew-trans :
      (a b c : EngineState) (xs ys : List Message) → Grew a xs b → Grew b ys c → Grew a (xs ++ ys) c
  Grew-trans a b c xs ys (f, k) (g, l) =
      (g ∙ ap (λ h. h ++ ys) f ∙ append_assoc a.session.history xs ys, λ h. l (k h))

  pub Grew-refl : (a : EngineState) → Grew a [] a
  Grew-refl a = (sym (append-nil a.session.history), λ h. h)

  -- A message of the session is the provider's answer in this turn: its text, but for the space around
  -- it, its tool calls and its usage, as the message of an assistant.
  abbrev pub Answers : ℕ → Message → Type 0
  Answers turn m =
      (answer : Message) × (i : ℕ) × (view : List Message) × (w.act turn i view ≡ responded answer)
      × (m.content ≡ trim_space answer.content)
      × (m.tool_calls ≡ answer.tool_calls)
      × (m.usage ≡ answer.usage)
      × (m.tool_call_id ≡ [])
      × (is_assistant m.role ≡ true)

  final-Answers :
      (turn i : ℕ) (view : List Message) (answer m : Message)
      → w.act turn i view ≡ responded answer
      → final_message w answer ≡ m
      → Answers turn m
  final-Answers turn i view answer m h same =
      subst (Answers turn) same (answer, i, view, h, refl, refl, refl, refl, refl)

  pub action-Answers :
      (turn : ℕ) (history : List Message) (m : Message)
      → action w turn history ≡ ok m
      → Answers turn m
  unfolding action
  action-Answers turn history m h = elim (Result-cases (view_of w history)) [
    | inr (e, f) ↦ ground arith
    | inl (view, f) ↦ elim (Result-cases (thought w turn history view)) [
      | inr (e, g) ↦ ground arith
      | inl (r, g) ↦
          let answer =
            generate (w.act turn) w.estimate w.policy w.tools_overhead (w.contexts turn 1) w.system
              r.0 r.1 w.spec in
          let sent =
            generate_at_most_twice (w.act turn) w.estimate w.policy w.tools_overhead
              (w.contexts turn 1) w.system r.0 r.1 w.spec in
          elim (Result-cases answer.0) [
            | inr (e, k) ↦ ground arith
            | inl (raw, k) ↦
                let same : final_message w raw ≡ m = ground arith in
                elim (sent.1 raw k) [
                  | inl at ↦ final-Answers turn 0 r.1 raw m at same
                  | inr (smaller, views, at) ↦ final-Answers turn 1 smaller.messages raw m at same
                ]
          ]
    ]
  ]

  view_of-timely :
      (history : List Message) (e : TurnError) → view_of w history ≡ err e → timely e ≡ true
  unfolding timely
  view_of-timely history e h = ground (
    arith,
    Result-cases (build_context w.estimate w.policy w.tools_overhead w.system history w.spec),
  )

  thought-timely :
      (turn : ℕ) (history view : List Message) (e : TurnError)
      → thought w turn history view ≡ err e
      → timely e ≡ true
  unfolding thought timely
  thought-timely turn history view e h = elim (Bool-cases w.enable_thinking) [
    | inr f ↦ ground arith
    | inl f ↦
        let answer =
          generate (w.think turn) w.estimate w.policy w.no_tools_overhead (w.contexts turn 0)
            w.system history view w.spec in
        elim (Result-cases answer.0) [
          | inr (x, g) ↦ ground arith
          | inl (m, g) ↦ elim (Result-cases (view_of w (history ++ m ∷ []))) [
            | inr (x, k) ↦
                let known : timely x ≡ true = view_of-timely (history ++ m ∷ []) x k in
                ground (arith, Bool-cases (is_empty m.content))
            | inl (v, k) ↦ ground (arith, Bool-cases (is_empty m.content))
          ]
        ]
  ]

  pub action-timely :
      (turn : ℕ) (history : List Message) (e : TurnError)
      → action w turn history ≡ err e
      → timely e ≡ true
  unfolding action timely
  action-timely turn history e h = elim (Result-cases (view_of w history)) [
    | inr (x, f) ↦ let known : timely x ≡ true = view_of-timely history x f in ground arith
    | inl (view, f) ↦ elim (Result-cases (thought w turn history view)) [
      | inr (x, g) ↦
          let known : timely x ≡ true = thought-timely turn history view x g in ground arith
      | inl (r, g) ↦
          let answer =
            generate (w.act turn) w.estimate w.policy w.tools_overhead (w.contexts turn 1) w.system
              r.0 r.1 w.spec in
          ground (arith, Result-cases answer.0)
    ]
  ]
