-- ===== src/Gateway/Sessions/Examples.antt =====
-- A service without sessions that counts its calls, and a legacy mapping.
use go_tiny_claw.Base.{
  ℕ, suc, true, [], Text, codes, Result, ok, err, ◌≡◌, refl, list_beq, trim_space,
}
use go_tiny_claw.Channel.{Route, validate, build_session_key, query_escape}
use go_tiny_claw.Gateway.Sessions.{
  ServiceError, not_found, resolve_session, after_key, after_legacy, create_new,
  resolve_never_forks,
}

abbrev resume : ℕ → Text → Result ServiceError Text × ℕ
resume w id = (err not_found, suc w)

abbrev create : ℕ → Text → Result ServiceError Text × ℕ
create w id = (ok id, suc w)

abbrev legacy : Route → Text
legacy r = codes "old"

abbrev route : Route
route = record { channel = codes "tg"; account_id = codes "a"; chat_id = codes "7"; thread_id = [] }

forked : (resolve_session resume create legacy 0 route).1 ≡ true
unfolding resolve_session after_key after_legacy create_new validate build_session_key query_escape
    list_beq trim_space
forked = refl

resolve_never_forks_example : (resume 0 (build_session_key route)).0 ≡ err not_found
resolve_never_forks_example = (resolve_never_forks resume create legacy 0 route forked).1
