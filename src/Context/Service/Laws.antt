-- ===== src/Context/Service/Laws.antt =====
-- internal/context/service.go: what a call that opens a session leaves, when it fails and when it
-- resumes a stored session.
use go_tiny_claw.Base.{
  ℕ, suc, ◌+◌, Bool, true, false, none, some, if◌then◌else◌, ==_iff, Text, text_eq, nat_eq, ◌≟◌,
  ≟_refl, Result, ok, err, Ctx, background, is_ok, length, lookup, insert, lookup-insert, ◌≡◌, inl,
  inr, refl, sym, ap, ap₂, subst, ◌∙◌, arith, Option-cases, Result-cases, Bool-cases,
}
use go_tiny_claw.SessionStore.{Snapshot}
use go_tiny_claw.SessionStore.Memory
use go_tiny_claw.SessionStore.Memory.{MemoryStore, acquire_writer, release, store_error}
use go_tiny_claw.Context.Session.Laws.{Agrees}
use go_tiny_claw.Context.Session.{ModelInfo}
use go_tiny_claw.Context.Service.Ownership.{released-same, Inv, acquire-lem}
use go_tiny_claw.Context.Service.{
  SessionService, ServiceError, Answer, attach, create_held, create_session, load_held, load_new,
  load_session, get_or_create, open_at, made_session, loaded_session, snapshot_of, is_not_found,
}

-- No writer, no stored session, no object and no entry of the map has changed.
abbrev pub Clean : SessionService → SessionService → Type 0
Clean v w =
    ((j : Text) → lookup w.store.writers j ≡ lookup v.store.writers j)
    × (w.store.sessions ≡ v.store.sessions)
    × (w.heap ≡ v.heap)
    × (w.sessions ≡ v.sessions)

abbrev pub CleanIfRefused : SessionService → Answer → Type 0
CleanIfRefused v a = is_ok a.0 ≡ false → Clean v a.1

Clean-refl : (v : SessionService) → Clean v v
Clean-refl v = (λ j. refl, refl, refl, refl)

Clean-trans : (u v w : SessionService) → Clean u v → Clean v w → Clean u w
Clean-trans u v w (a, b, c, d) (e, f, g, h) = (λ j. e j ∙ a j, f ∙ b, g ∙ c, h ∙ d)

-- A call that took the writer and gave it back.
given_back-Clean :
    (v : SessionService) (n : MemoryStore) (id : Text) (w : ℕ)
    → n.sessions ≡ v.store.sessions
    → lookup v.store.writers id ≡ none
    → ((j : Text) → lookup n.writers j ≡ (if id ≟ j then some w else lookup v.store.writers j))
    → Clean v (record v { store = release n id w })
unfolding release
given_back-Clean v n id w same free held =
    (released-same v.store n id w free held, ground arith, refl, refl)

create_session-Clean :
    (v : SessionService) (c : Ctx) (id dir : Text) (now : ℕ) (model : ModelInfo) (auth_type : Text)
    → CleanIfRefused v (create_session v c id dir now model auth_type)
unfolding create_session create_held attach
create_session-Clean v c id dir now model auth_type bad =
    let s = made_session id dir now model auth_type in
    let after = create_session v c id dir now model auth_type in
    let n = (acquire_writer v.store c id).1 in
    elim (acquire-lem v.store c id) [
      | inr (e, f, same) ↦
          subst (Clean v) (sym {a = after.1} {b = record v { store = n }} (ground arith))
            (λ j. ap (λ m. lookup m.writers j) same, ap (λ m. m.sessions) same, refl, refl)
      | inl (w, f, free, same, held) ↦
          elim (Result-cases (Memory.create n (λ i. c (i + 2)) (snapshot_of s))) [
            | inl (k, g) ↦ ground arith
            | inr (e, g) ↦
                subst (Clean v)
                  (sym {a = after.1} {b = record v { store = release n id w }} (ground arith))
                  (given_back-Clean v n id w same free held)
          ]
    ]

load_new-Clean :
    (stat : Text → Result ℕ Bool) (v : SessionService) (c : Ctx) (id : Text)
    → CleanIfRefused v (load_new stat v c id)
unfolding load_new load_held attach
load_new-Clean stat v c id bad =
    let after = load_new stat v c id in
    let n = (acquire_writer v.store c id).1 in
    elim (acquire-lem v.store c id) [
      | inr (e, f, same) ↦
          subst (Clean v) (sym {a = after.1} {b = record v { store = n }} (ground arith))
            (λ j. ap (λ m. lookup m.writers j) same, ap (λ m. m.sessions) same, refl, refl)
      | inl (w, f, free, same, held) ↦
          let back = given_back-Clean v n id w same free held in
          let thus : after.1 ≡ record v { store = release n id w } → Clean v after.1 =
            λ e. subst (Clean v) (sym e) back in
          elim (Result-cases (Memory.load n (λ i. c (i + 2)) id)) [
            | inr (e, g) ↦ thus (ground arith)
            | inl (t, g) ↦ elim (Result-cases (stat t.metadata.work_dir)) [
              | inr (e, h) ↦ thus (ground arith)
              | inl (dir, h) ↦ elim (Bool-cases dir) [
                | inr k ↦ thus (ground arith)
                | inl k ↦ ground arith
              ]
            ]
          ]
    ]

load_session-Clean :
    (stat : Text → Result ℕ Bool) (v : SessionService) (c : Ctx) (id : Text)
    → CleanIfRefused v (load_session stat v c id)
unfolding load_session
load_session-Clean stat v c id bad =
    let after = load_session stat v c id in
    elim (Option-cases (c 0)) [
      | inr (e, f) ↦ subst (Clean v) (sym {a = after.1} {b = v} (ground arith)) (Clean-refl v)
      | inl f ↦ elim (Option-cases (open_at v (lookup v.sessions id))) [
        | inr (o, g) ↦ ground arith
        | inl g ↦
            subst (Clean v)
              (sym {a = after.1} {b = (load_new stat v (λ i. c (i + 1)) id).1} (ground arith))
              (load_new-Clean stat v (λ i. c (i + 1)) id (ground arith))
      ]
    ]

not_found-refused : (r : Result ServiceError ℕ) → is_not_found r ≡ true → is_ok r ≡ false
not_found-refused (ok o) h = ground arith
not_found-refused (err e) h = refl

-- Over the store in memory, whose release of a writer cannot fail, a session that `GetOrCreate` cannot
-- open leaves nothing behind: whether the writer is held, the store refuses, the working directory is
-- missing, or the context ends at any look, each writer, each stored session and what the service knows
-- is as it was.
pub get_or_create-Clean :
    (stat : Text → Result ℕ Bool) (v : SessionService) (c : Ctx) (id dir : Text) (now : ℕ)
    (model : ModelInfo) (auth_type : Text)
    → is_ok (get_or_create stat v c id dir now model auth_type).0 ≡ false
    → Clean v (get_or_create stat v c id dir now model auth_type).1
unfolding get_or_create
get_or_create-Clean stat v c id dir now model auth_type bad =
    let a = load_session stat v c id in
    let after = get_or_create stat v c id dir now model auth_type in
    let made = create_session a.1 (λ i. c (i + 5)) id dir now model auth_type in
    elim (Bool-cases (is_not_found a.0)) [
      | inr e ↦
          subst (Clean v) (sym {a = after.1} {b = a.1} (ground arith))
            (load_session-Clean stat v c id (ground arith))
      | inl e ↦ subst (Clean v) (sym {a = after.1} {b = made.1} (ground arith)) (
          Clean-trans v a.1 made.1 (load_session-Clean stat v c id (not_found-refused a.0 e))
            (create_session-Clean a.1 (λ i. c (i + 5)) id dir now model auth_type (ground arith)))
    ]

-- The session that is attached is a new object, and it is the stored one.
abbrev pub Restored : SessionService → Text → Snapshot → Answer → Type 0
Restored v id t a =
    let s = record (loaded_session t) { durable = true; writer = some v.store.next_lock } in
    (a.0 ≡ ok v.next)
    × (lookup a.1.heap v.next ≡ some s)
    × (lookup a.1.store.writers id ≡ some v.store.next_lock)
    × (snapshot_of s ≡ t)
    × Agrees s a.1.store

unopened :
    (v : SessionService) (id : Text)
    → Inv v
    → lookup v.store.writers id ≡ none
    → lookup v.sessions id ≡ none
unopened v id inv free = elim (Option-cases (lookup v.sessions id)) [
  | inl e ↦ e
  | inr (o, e) ↦
      let (s, at, same, live) = inv.2 id o e in
      let (held, some_writer, there) = inv.0 o s at live in
      let its : s.writer ≡ none = sym held ∙ ap (λ x. lookup v.store.writers x) same ∙ free in
      ground arith
]

-- A stored session that nobody has open is resumed as it was stored, if its working directory is there:
-- a new object with its history, its totals and its model, which owns the writer and agrees with the
-- store. (A session writes the same billing mode in its metadata and its usage, and the store counts
-- the messages.)
pub load_session_restores :
    (stat : Text → Result ℕ Bool) (v : SessionService) (id : Text) (t : Snapshot)
    → Inv v
    → lookup v.store.sessions id ≡ some t
    → lookup v.store.writers id ≡ none
    → stat t.metadata.work_dir ≡ ok true
    → t.usage.billing_mode ≡ t.metadata.billing_mode
    → t.metadata.messages ≡ length t.history
    → Restored v id t (load_session stat v background id)
unfolding load_session load_new load_held attach acquire_writer Memory.load
load_session_restores stat v id t inv at free dir mode counted =
    let lock = v.store.next_lock in
    let m = record v.store { writers = insert v.store.writers id lock; next_lock = suc lock } in
    let unknown = unopened v id inv free in
    let (named, filled) = inv.3 id t at in
    let s = record (loaded_session t) { durable = true; writer = some lock } in
    let u = record t.usage { billing_mode = t.metadata.billing_mode } in
    let usage : t.usage ≡ u = ap (λ b. record t.usage { billing_mode = b }) mode in
    subst (Restored v id t)
      (sym {a = load_session stat v background id} {b = attach v m id (loaded_session t) lock}
        (ground arith))
      (
        refl,
        ground (arith, lookup-insert v.heap v.next v.next s, ==_iff v.next v.next),
        ground (arith, lookup-insert v.store.writers id id lock, ≟_refl id),
        ap₂
            (λ b k. record t {
              metadata = record t.metadata { messages = k };
              usage = record t.usage { billing_mode = b };
            })
            (sym mode) (sym counted),
        λ d.
            (filled, t, ap (λ x. lookup v.store.sessions x) named ∙ at, refl, refl, usage, counted),
      )
