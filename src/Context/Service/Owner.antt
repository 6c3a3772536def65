-- ===== src/Context/Service/Owner.antt =====
-- internal/context/service.go: in any order of its calls, an open session has one owner.
use go_tiny_claw.Base.{
  ℕ, suc, Bool, false, List, [], ◌∷◌, ◌++◌, none, some, Text, text_eq, nat_eq, ◌≟◌, ≟_iff, Result,
  ok, err, Ctx, lookup, insert, ◌≡◌, inl, inr, refl, sym, ap, subst, ◌∙◌, arith, Option-cases,
  Result-cases, Bool-cases,
}
use go_tiny_claw.Schema.{Message}
use go_tiny_claw.SessionStore.{Event, new_event, usage_recorded, message_events, StoreError}
use go_tiny_claw.SessionStore.Replay.{apply_all-id}
use go_tiny_claw.SessionStore.Memory
use go_tiny_claw.SessionStore.Memory.{MemoryStore, acquire_writer, release, store_error}
use go_tiny_claw.SessionStore.Memory.Laws.{append_atomic}
use go_tiny_claw.Context.Session.Laws.{changed}
use go_tiny_claw.Context.Session.{
  Session, ModelInfo, UsageBilling, if_open, store_first, add_usage, append_messages, record_usage,
  mark_cost_unknown, set_model_info, set_auth_type,
}
use go_tiny_claw.Context.Service.Calls.{
  create_session-Inv, load_session-Inv, get_or_create-Inv, append_to_session, Call, create_call,
  load_call, get_call, delete_call, close_call, append_call, call, run_calls, record_in_session,
  mark_in_session, identify_session, record_call, mark_call, identify_call,
}
use go_tiny_claw.Context.Service.Ownership.{Named, Inv}
use go_tiny_claw.Context.Service.{SessionService, new_session_service}
use go_tiny_claw.Context.Service.Ending.{delete_session-Inv, Inv-heap, close_session-Inv}

-- An append leaves the writers, and the sessions under their names.
append-Named :
    (m n : MemoryStore) (c : Ctx) (id : Text) (es : List Event)
    → Named m
    → Memory.append m c id es ≡ ok n
    → Named n × ((j : Text) → lookup n.writers j ≡ lookup m.writers j)
append-Named m n c id es named h = (
  λ j x f.
      let (a, b, at, applied, after, _) = append_atomic m n c id j es h in
      let (named_a, filled) = named id a at in
      let kept = apply_all-id a b es filled applied in
      elim (Bool-cases (id ≟ j)) [
        | inl e ↦
            let is_b : b ≡ x = ground arith in
            let same : id ≡ j = ground (arith, ≟_iff id j) in
            (
              sym (ap (λ y. y.metadata.id) is_b) ∙ kept ∙ named_a ∙ same,
              λ g. filled (sym kept ∙ ap (λ y. y.metadata.id) is_b ∙ g),
            )
        | inr e ↦ named j x (ground arith)
      ],
  λ j. ap (λ y. lookup y j) (append_atomic m n c id id es h).5,
)

-- A change of a session that was stored first, and keeps its ID, its writer and whether it is closed.
changed-Inv :
    (v : SessionService) (o : ℕ) (s u t : Session) (n : MemoryStore) (c : Ctx) (es : List Event)
    → Inv v
    → lookup v.heap o ≡ some s
    → (u.id ≡ s.id) × (u.writer ≡ s.writer) × (u.closed ≡ s.closed)
    → if_open s c (store_first s v.store c es u) ≡ ok (t, n)
    → Inv (record v { store = n; heap = insert v.heap o t })
changed-Inv v o s u t n c es inv e (id, writer, closed) f =
    let (live, same, how) = changed s u v.store c es t n f in
    let there =
      Inv-heap v n o s t inv e (ap (λ x. x.id) same ∙ id) (ap (λ x. x.writer) same ∙ writer)
        (ap (λ x. x.closed) same ∙ closed) in
    elim how [
      | inl (g, k) ↦ there (λ j. ap (λ x. lookup x.writers j) k) (subst Named (sym k) inv.3)
      | inr (g, k) ↦
          let (named, writers) = append-Named v.store n (λ i. c (suc (suc i))) s.id es inv.3 k in
          there writers named
    ]

append_to_session-Inv :
    (v : SessionService) (o : ℕ) (c : Ctx) (clock : ℕ → ℕ) (now : ℕ) (ms : List Message)
    → Inv v
    → Inv (append_to_session v o c clock now ms)
unfolding append_to_session append_messages
append_to_session-Inv v o c clock now ms inv =
    let after = append_to_session v o c clock now ms in
    elim (Option-cases (lookup v.heap o)) [
      | inl e ↦ subst Inv (sym {a = after} {b = v} (ground arith)) inv
      | inr (s, e) ↦ elim (Result-cases (append_messages s v.store c clock now ms)) [
        | inr (x, f) ↦ subst Inv (sym {a = after} {b = v} (ground arith)) inv
        | inl ((t, n), f) ↦
            subst Inv
              (sym {a = after} {b = record v { store = n; heap = insert v.heap o t }}
                (ground arith))
              (changed-Inv v o s (record s { history = s.history ++ ms; updated_at = now }) t n c
                (message_events ms clock 0) inv e (refl, refl, refl) f)
      ]
    ]

record_in_session-Inv :
    (v : SessionService) (o : ℕ) (add_cost : ℕ → ℕ → ℕ) (c : Ctx) (now prompt completion : ℕ)
    (billing : UsageBilling)
    → Inv v
    → Inv (record_in_session v o add_cost c now prompt completion billing)
unfolding record_in_session record_usage
record_in_session-Inv v o add_cost c now prompt completion billing inv =
    let after = record_in_session v o add_cost c now prompt completion billing in
    elim (Option-cases (lookup v.heap o)) [
      | inl e ↦ subst Inv (sym {a = after} {b = v} (ground arith)) inv
      | inr (s, e) ↦
          let u = add_usage add_cost s.usage prompt completion billing in
          let es = record (new_event usage_recorded now) { usage = some u } ∷ [] in
          elim (Result-cases (record_usage add_cost s v.store c now prompt completion billing)) [
            | inr (x, f) ↦ subst Inv (sym {a = after} {b = v} (ground arith)) inv
            | inl ((t, n), f) ↦
                subst Inv
                  (sym {a = after} {b = record v { store = n; heap = insert v.heap o t }}
                    (ground arith))
                  (changed-Inv v o s (record s { usage = u; updated_at = now }) t n c es inv e
                    (refl, refl, refl) f)
          ]
    ]

mark_in_session-Inv :
    (v : SessionService) (o : ℕ) (add_cost : ℕ → ℕ → ℕ) (c : Ctx) (now : ℕ)
    → Inv v
    → Inv (mark_in_session v o add_cost c now)
unfolding mark_in_session record_in_session mark_cost_unknown
mark_in_session-Inv v o add_cost c now inv =
    record_in_session-Inv v o add_cost c now 0 0 (record { estimated_cost = 0; cost_known = false })
      inv

identify_session-Inv :
    (v : SessionService) (o : ℕ) (model : ModelInfo) (auth_type : Text)
    → Inv v
    → Inv (identify_session v o model auth_type)
unfolding identify_session set_model_info
identify_session-Inv v o model auth_type inv =
    let after = identify_session v o model auth_type in
    elim (Option-cases (lookup v.heap o)) [
      | inl e ↦ subst Inv (sym {a = after} {b = v} (ground arith)) inv
      | inr (s, e) ↦
          let t = set_auth_type (set_model_info s model) auth_type in
          let kept : (t.id ≡ s.id) × (t.writer ≡ s.writer) × (t.closed ≡ s.closed) = (
            ground (arith, Bool-cases s.durable),
            ground (arith, Bool-cases s.durable),
            ground (arith, Bool-cases s.durable),
          ) in
          subst Inv (sym {a = after} {b = record v { heap = insert v.heap o t }} (ground arith))
            (Inv-heap v v.store o s t inv e kept.0 kept.1 kept.2 (λ j. refl) inv.3)
    ]

call-Inv :
    (stat : Text → Result ℕ Bool) (v : SessionService) (x : Call) → Inv v → Inv (call stat v x)
unfolding call
call-Inv stat v (create_call c id dir now model auth_type) inv =
    create_session-Inv v c id dir now model auth_type inv
call-Inv stat v (load_call c id) inv = load_session-Inv stat v c id inv
call-Inv stat v (get_call c id dir now model auth_type) inv =
    get_or_create-Inv stat v c id dir now model auth_type inv
call-Inv stat v (delete_call c id) inv = delete_session-Inv v c id inv
call-Inv stat v (close_call o) inv = close_session-Inv v o inv
call-Inv stat v (append_call o c clock now ms) inv = append_to_session-Inv v o c clock now ms inv
call-Inv stat v (record_call o add_cost c now prompt completion billing) inv =
    record_in_session-Inv v o add_cost c now prompt completion billing inv
call-Inv stat v (mark_call o add_cost c now) inv = mark_in_session-Inv v o add_cost c now inv
call-Inv stat v (identify_call o model auth_type) inv = identify_session-Inv v o model auth_type inv

-- Whatever calls are made of a session service over the store in memory and of its sessions, to create,
-- load, delete, close or append, to record usage or to name the model, in whatever order and whichever of
-- them fail, its invariant holds: an open session holds the writer of its ID in the store and is the one that
-- the map has, what the map has is open, and every stored session stands under its own ID.
pub run_calls-Inv :
    (stat : Text → Result ℕ Bool) (xs : List Call) (v : SessionService)
    → Inv v
    → Inv (run_calls stat v xs)
unfolding run_calls
run_calls-Inv stat [] v inv = inv
run_calls-Inv stat (x ∷ xs) v inv = run_calls-Inv stat xs (call stat v x) (call-Inv stat v x inv)

-- Two open sessions with one ID are the same object, whatever calls were made of a service whose store
-- was in order and which had no session yet; and while it is open nobody else gets its writer.
pub one_owner :
    (stat : Text → Result ℕ Bool) (xs : List Call) (m : MemoryStore) (o p : ℕ) (s t : Session)
    (c : Ctx)
    → Named m
    → let v = run_calls stat (new_session_service m) xs in
      lookup v.heap o ≡ some s
      → lookup v.heap p ≡ some t
      → s.closed ≡ false
      → t.closed ≡ false
      → s.id ≡ t.id
      → c 0 ≡ none
      → (o ≡ p) × (acquire_writer v.store c s.id ≡ (err (store_error StoreError.in_use), v.store))
unfolding acquire_writer lookup
one_owner stat xs m o p s t c named at_o at_p live_o live_p same look =
    let v = run_calls stat (new_session_service m) xs in
    let inv =
      run_calls-Inv stat xs (new_session_service m)
        (λ i u h l. ground arith, λ i h. refl, λ id i h. ground arith, named) in
    let (held, some_writer, there) = inv.0 o s at_o live_o in
    let (_, _, there') = inv.0 p t at_p live_p in
    let one : some o ≡ some p = sym there ∙ ap (λ x. lookup v.sessions x) same ∙ there' in
    (ground arith, ground arith)
