-- ===== src/Context/Service/Calls.antt =====
-- internal/context/service.go: the calls of the service and of its sessions, and that those that open
-- sessions keep the invariant.
use go_tiny_claw.Base.{
  ℕ, ◌+◌, Bool, false, List, [], ◌∷◌, none, some, Text, text_eq, nat_eq, Result, ok, err, Ctx,
  lookup, insert, ◌≡◌, inl, inr, refl, sym, ap, subst, arith, Option-cases, Bool-cases,
}
use go_tiny_claw.Schema.{Message}
use go_tiny_claw.SessionStore.Memory.{acquire_writer}
use go_tiny_claw.Context.Session.{
  ModelInfo, UsageBilling, append_messages, record_usage, mark_cost_unknown, set_model_info,
  set_auth_type,
}
use go_tiny_claw.Context.Service.Ownership.{
  Named, Inv, Inv-store, acquire-lem, load_held-Inv, create_held-Inv,
}
use go_tiny_claw.Context.Service.{
  SessionService, create_held, create_session, load_held, load_new, load_session, get_or_create,
  delete_session, close_session, open_at, made_session, is_not_found,
}

-- `Session.Append` of a session of the service.
unfoldable pub append_to_session :
    SessionService → ℕ → Ctx → (ℕ → ℕ) → ℕ → List Message → SessionService
append_to_session v o c clock now ms = elim (lookup v.heap o) [
  | none ↦ v
  | some s ↦ elim (append_messages s v.store c clock now ms) [
    | err e ↦ v
    | ok r ↦ record v { store = r.1; heap = insert v.heap o r.0 }
  ]
]

-- `Session.RecordUsage` and `Session.MarkCostUnknown` of a session of the service.
unfoldable pub record_in_session :
    SessionService → ℕ → (ℕ → ℕ → ℕ) → Ctx → ℕ → ℕ → ℕ → UsageBilling → SessionService
record_in_session v o add_cost c now prompt completion billing = elim (lookup v.heap o) [
  | none ↦ v
  | some s ↦ elim (record_usage add_cost s v.store c now prompt completion billing) [
    | err e ↦ v
    | ok r ↦ record v { store = r.1; heap = insert v.heap o r.0 }
  ]
]

unfoldable pub mark_in_session : SessionService → ℕ → (ℕ → ℕ → ℕ) → Ctx → ℕ → SessionService
mark_in_session v o add_cost c now = elim (lookup v.heap o) [
  | none ↦ v
  | some s ↦ elim (mark_cost_unknown add_cost s v.store c now) [
    | err e ↦ v
    | ok r ↦ record v { store = r.1; heap = insert v.heap o r.0 }
  ]
]

-- `Session.SetModelInfo` and `Session.SetAuthType` of a session of the service.
unfoldable pub identify_session : SessionService → ℕ → ModelInfo → Text → SessionService
identify_session v o model auth_type = elim (lookup v.heap o) [
  | none ↦ v
  | some s ↦ record v { heap = insert v.heap o (set_auth_type (set_model_info s model) auth_type) }
]

-- The calls.
pub data Call : Type 0 where
  create_call : Ctx → Text → Text → ℕ → ModelInfo → Text → Call
  load_call : Ctx → Text → Call
  get_call : Ctx → Text → Text → ℕ → ModelInfo → Text → Call
  delete_call : Ctx → Text → Call
  close_call : ℕ → Call
  append_call : ℕ → Ctx → (ℕ → ℕ) → ℕ → List Message → Call
  record_call : ℕ → (ℕ → ℕ → ℕ) → Ctx → ℕ → ℕ → ℕ → UsageBilling → Call
  mark_call : ℕ → (ℕ → ℕ → ℕ) → Ctx → ℕ → Call
  identify_call : ℕ → ModelInfo → Text → Call

unfoldable pub call : (Text → Result ℕ Bool) → SessionService → Call → SessionService
unfolding create_session load_session get_or_create delete_session close_session append_to_session
    record_in_session mark_in_session identify_session
call stat v (create_call c id dir now model auth_type) =
    (create_session v c id dir now model auth_type).1
call stat v (load_call c id) = (load_session stat v c id).1
call stat v (get_call c id dir now model auth_type) =
    (get_or_create stat v c id dir now model auth_type).1
call stat v (delete_call c id) = (delete_session v c id).1
call stat v (close_call o) = close_session v o
call stat v (append_call o c clock now ms) = append_to_session v o c clock now ms
call stat v (record_call o add_cost c now prompt completion billing) =
    record_in_session v o add_cost c now prompt completion billing
call stat v (mark_call o add_cost c now) = mark_in_session v o add_cost c now
call stat v (identify_call o model auth_type) = identify_session v o model auth_type

unfoldable pub run_calls : (Text → Result ℕ Bool) → SessionService → List Call → SessionService
unfolding call
run_calls stat v [] = v
run_calls stat v (x ∷ xs) = run_calls stat (call stat v x) xs

made_session_lem :
    (id dir : Text) (now : ℕ) (model : ModelInfo) (auth_type : Text)
    → ((made_session id dir now model auth_type).id ≡ id)
      × ((made_session id dir now model auth_type).closed ≡ false)
unfolding set_model_info
made_session_lem id dir now model auth_type = (refl, refl)

pub create_session-Inv :
    (v : SessionService) (c : Ctx) (id dir : Text) (now : ℕ) (model : ModelInfo) (auth_type : Text)
    → Inv v
    → Inv (create_session v c id dir now model auth_type).1
unfolding create_session
create_session-Inv v c id dir now model auth_type inv =
    let s = made_session id dir now model auth_type in
    let after = (create_session v c id dir now model auth_type).1 in
    let n = (acquire_writer v.store c id).1 in
    elim (acquire-lem v.store c id) [
      | inr (e, f, same) ↦ subst Inv (sym {a = after} {b = record v { store = n }} (ground arith)) (
          Inv-store v n inv (λ j. ap (λ m. lookup m.writers j) same) (subst Named (sym same) inv.3))
      | inl (w, f, free, same, held) ↦
          subst Inv
            (sym {a = after} {b = (create_held v n (λ i. c (i + 2)) id s w).1} (ground arith))
            (create_held-Inv v n (λ i. c (i + 2)) id s w inv
              (made_session_lem id dir now model auth_type).0
              (made_session_lem id dir now model auth_type).1 same free held)
    ]

load_new-Inv :
    (stat : Text → Result ℕ Bool) (v : SessionService) (c : Ctx) (id : Text)
    → Inv v
    → Inv (load_new stat v c id).1
unfolding load_new
load_new-Inv stat v c id inv =
    let after = (load_new stat v c id).1 in
    let n = (acquire_writer v.store c id).1 in
    elim (acquire-lem v.store c id) [
      | inr (e, f, same) ↦ subst Inv (sym {a = after} {b = record v { store = n }} (ground arith)) (
          Inv-store v n inv (λ j. ap (λ m. lookup m.writers j) same) (subst Named (sym same) inv.3))
      | inl (w, f, free, same, held) ↦
          subst Inv
            (sym {a = after} {b = (load_held stat v n (λ i. c (i + 2)) id w).1} (ground arith))
            (load_held-Inv stat v n (λ i. c (i + 2)) id w inv same free held)
    ]

pub load_session-Inv :
    (stat : Text → Result ℕ Bool) (v : SessionService) (c : Ctx) (id : Text)
    → Inv v
    → Inv (load_session stat v c id).1
unfolding load_session
load_session-Inv stat v c id inv =
    let after = (load_session stat v c id).1 in
    elim (Option-cases (c 0)) [
      | inr (e, f) ↦ subst Inv (sym {a = after} {b = v} (ground arith)) inv
      | inl f ↦ elim (Option-cases (open_at v (lookup v.sessions id))) [
        | inr (o, g) ↦ subst Inv (sym {a = after} {b = v} (ground arith)) inv
        | inl g ↦
            subst Inv (sym {a = after} {b = (load_new stat v (λ i. c (i + 1)) id).1} (ground arith))
              (load_new-Inv stat v (λ i. c (i + 1)) id inv)
      ]
    ]

pub get_or_create-Inv :
    (stat : Text → Result ℕ Bool) (v : SessionService) (c : Ctx) (id dir : Text) (now : ℕ)
    (model : ModelInfo) (auth_type : Text)
    → Inv v
    → Inv (get_or_create stat v c id dir now model auth_type).1
unfolding get_or_create
get_or_create-Inv stat v c id dir now model auth_type inv =
    let a = load_session stat v c id in
    let after = (get_or_create stat v c id dir now model auth_type).1 in
    let inv' = load_session-Inv stat v c id inv in
    elim (Bool-cases (is_not_found a.0)) [
      | inl e ↦
          subst Inv
            (sym {a = after}
              {b = (create_session a.1 (λ i. c (i + 5)) id dir now model auth_type).1}
              (ground arith))
            (create_session-Inv a.1 (λ i. c (i + 5)) id dir now model auth_type inv')
      | inr e ↦ subst Inv (sym {a = after} {b = a.1} (ground arith)) inv'
    ]
