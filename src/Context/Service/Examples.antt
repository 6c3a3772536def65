-- ===== src/Context/Service/Examples.antt =====
-- A service that opens a session, closes it and resumes it.
use go_tiny_claw.Base.{
  ℕ, Bool, true, false, List, [], ◌∷◌, none, some, Text, text_eq, nat_eq, codes, Result, ok, err,
  is_ok, background, lookup, insert, delete, list_beq, ◌≡◌, refl, arith,
}
use go_tiny_claw.Schema.{billing_api}
use go_tiny_claw.SessionStore.{StoreError, Snapshot}
use go_tiny_claw.SessionStore.Memory
use go_tiny_claw.SessionStore.Memory.{new_memory_store, acquire_writer, store_error, release}
use go_tiny_claw.Context.Session.{ModelInfo, Session, set_model_info, close}
use go_tiny_claw.Context.Service.{
  SessionService, new_session_service, create_session, create_held, load_session, load_new,
  load_held, attach, close_session, close_open, get_or_create, snapshot_of, made_session,
}
use go_tiny_claw.Context.Service.Calls.{Call, create_call, load_call, close_call, call, run_calls}
use go_tiny_claw.Context.Service.Ownership.{Inv, Named}
use go_tiny_claw.Context.Service.Owner.{run_calls-Inv, one_owner}
use go_tiny_claw.Context.Service.Laws.{Clean, get_or_create-Clean, Restored, load_session_restores}

abbrev model : ModelInfo
model = record {
  provider_id = codes "p";
  id = codes "m";
  name = codes "M";
  billing_mode = billing_api;
  pricing = some (codes "USD");
}

abbrev stat : Text → Result ℕ Bool
stat dir = ok true

abbrev calls : List Call
calls =
    create_call background (codes "s") (codes "/w") 5 model (codes "key")
    ∷ close_call 0
    ∷ load_call background (codes "s")
    ∷ []

empty-Named : Named new_memory_store
unfolding lookup
empty-Named id t h = ground arith

empty-Inv : Inv (new_session_service new_memory_store)
unfolding lookup
empty-Inv = (λ o s h live. ground arith, λ o h. refl, λ id o h. ground arith, empty-Named)

run_calls-Inv_example : Inv (run_calls stat (new_session_service new_memory_store) calls)
run_calls-Inv_example = run_calls-Inv stat calls (new_session_service new_memory_store) empty-Inv

abbrev resumed : Session
unfolding set_model_info
resumed = record (made_session (codes "s") (codes "/w") 5 model (codes "key")) {
  durable = true;
  writer = some 1;
}

resumed_at_1 :
    lookup (run_calls stat (new_session_service new_memory_store) calls).heap 1 ≡ some resumed
unfolding run_calls call create_session create_held load_session load_new load_held attach
    close_session close_open close acquire_writer release Memory.create Memory.load lookup insert
    delete list_beq set_model_info resumed
resumed_at_1 = refl

one_owner_example :
    ◌≡◌ {A = ℕ} 1 1
    × (acquire_writer
          (run_calls stat (new_session_service new_memory_store) calls).store
          background
          (codes "s")
        ≡ (
          err (store_error StoreError.in_use),
          (run_calls stat (new_session_service new_memory_store) calls).store,
        ))
unfolding resumed
one_owner_example =
    one_owner stat calls new_memory_store 1 1 resumed resumed background empty-Named resumed_at_1
      resumed_at_1 refl refl refl refl

-- The service after the session was closed.
abbrev closed : SessionService
closed =
    run_calls stat (new_session_service new_memory_store)
      (create_call background (codes "s") (codes "/w") 5 model (codes "key") ∷ close_call 0 ∷ [])

closed-Inv : Inv closed
closed-Inv =
    run_calls-Inv stat
      (create_call background (codes "s") (codes "/w") 5 model (codes "key") ∷ close_call 0 ∷ [])
      (new_session_service new_memory_store) empty-Inv

abbrev kept : Snapshot
unfolding set_model_info
kept = snapshot_of (made_session (codes "s") (codes "/w") 5 model (codes "key"))

kept_stored : lookup closed.store.sessions (codes "s") ≡ some kept
unfolding run_calls call create_session create_held attach close_session close_open close
    acquire_writer release Memory.create lookup insert delete list_beq set_model_info kept
kept_stored = refl

writer_free : lookup closed.store.writers (codes "s") ≡ none
unfolding run_calls call create_session create_held attach close_session close_open close
    acquire_writer release Memory.create lookup insert delete list_beq set_model_info
writer_free = refl

load_session_restores_example :
    Restored closed (codes "s") kept (load_session stat closed background (codes "s"))
unfolding kept set_model_info
load_session_restores_example =
    load_session_restores stat closed (codes "s") kept closed-Inv kept_stored writer_free refl refl
      refl

-- The directory of the session is a file.
abbrev no_dir : Text → Result ℕ Bool
no_dir dir = ok false

refused :
    is_ok (get_or_create no_dir closed background (codes "s") (codes "/w") 6 model (codes "key")).0
    ≡ false
unfolding run_calls call create_session create_held attach close_session close_open close
    acquire_writer release Memory.create lookup insert delete list_beq set_model_info get_or_create
    load_session load_new load_held Memory.load
refused = refl

get_or_create-Clean_example :
    Clean closed
      (get_or_create no_dir closed background (codes "s") (codes "/w") 6 model (codes "key")).1
get_or_create-Clean_example =
    get_or_create-Clean no_dir closed background (codes "s") (codes "/w") 6 model (codes "key")
      refused
