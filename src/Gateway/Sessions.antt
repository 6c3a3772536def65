-- ===== src/Gateway/Sessions.antt =====
-- internal/gateway/session.go: how the session of a route is found. The session service is a
-- parameter: what it answers in a state, and the state after it. An empty text is no legacy ID. The
-- flag beside the result says whether a session was asked to be created. The check that the service
-- is there at all is left out.
pub mod Examples
use go_tiny_claw.Base.{
  ℕ, Bool, true, false, ◌||◌, List, [], ◌∷◌, Option, none, some, if◌then◌else◌, Text, text_eq, ◌≟◌,
  is_empty, Result, ok, err, ◌≡◌, ◌⊎◌, inl, inr, refl, arith, Bool-cases,
}
use go_tiny_claw.Channel.{Route, validate, build_session_key}

-- The errors of the service: that there is no such session, and all others, which are numbered.
pub data ServiceError : Type 0 where
  not_found : ServiceError
  other : ℕ → ServiceError

pub data ResolveError : Type 0 where
  invalid_route : ResolveError
  service_error : ServiceError → ResolveError

module _ {W S : Type 0} (resume create : W → Text → Result ServiceError S × W)
    (legacy_id : Route → Text) where
  abbrev pub answered : Result ServiceError S → Result ResolveError S
  answered (ok s) = ok s
  answered (err e) = err (service_error e)

  -- What `Create` gives.
  unfoldable pub create_new : W → Text → (Result ResolveError S × W) × Bool
  create_new w key = ((answered (create w key).0, (create w key).1), true)

  -- After the legacy ID was asked for.
  unfoldable pub after_legacy :
      Text → Result ServiceError S × W → (Result ResolveError S × W) × Bool
  unfolding create_new
  after_legacy key (err not_found, w) = create_new w key
  after_legacy key (err (other n), w) = ((err (service_error (other n)), w), false)
  after_legacy key (ok s, w) = ((ok s, w), false)

  -- After the session key was asked for.
  unfoldable pub after_key :
      Text → Text → Result ServiceError S × W → (Result ResolveError S × W) × Bool
  unfolding after_legacy create_new
  after_key key legacy (err not_found, w) = elim (is_empty legacy || legacy ≟ key) [
    | true ↦ create_new w key
    | false ↦ after_legacy key (resume w legacy)
  ]
  after_key key legacy (err (other n), w) = ((err (service_error (other n)), w), false)
  after_key key legacy (ok s, w) = ((ok s, w), false)

  -- `Resolve`
  unfoldable pub resolve_session : W → Route → (Result ResolveError S × W) × Bool
  unfolding after_key
  resolve_session w route = elim (validate route) [
    | false ↦ ((err invalid_route, w), false)
    | true ↦
        after_key (build_session_key route) (legacy_id route) (resume w (build_session_key route))
  ]

  after_legacy-not_found :
      (key : Text) (a : Result ServiceError S × W)
      → (after_legacy key a).1 ≡ true
      → a.0 ≡ err not_found
  unfolding after_legacy
  after_legacy-not_found key (err not_found, w) h = refl
  after_legacy-not_found key (err (other n), w) h = ground arith
  after_legacy-not_found key (ok s, w) h = ground arith

  after_key-not_found :
      (key legacy : Text) (a : Result ServiceError S × W)
      → (after_key key legacy a).1 ≡ true
      → (a.0 ≡ err not_found)
        × ((is_empty legacy || legacy ≟ key) ≡ false → (resume a.1 legacy).0 ≡ err not_found)
  unfolding after_key
  after_key-not_found key legacy (err not_found, w) h =
      (refl, λ g. after_legacy-not_found key (resume w legacy) (ground arith))
  after_key-not_found key legacy (err (other n), w) h = (ground arith, λ g. ground arith)
  after_key-not_found key legacy (ok s, w) h = (ground arith, λ g. ground arith)

  -- A session is created only for a valid route, and only if the service has none under the route's
  -- key nor under a legacy ID of its own; a stored session that is damaged, in use, or not loaded for
  -- another reason is never doubled by a new one.
  pub resolve_never_forks :
      (w : W) (route : Route)
      → (resolve_session w route).1 ≡ true
      → let key = build_session_key route in
        let legacy = legacy_id route in
        (validate route ≡ true)
        × ((resume w key).0 ≡ err not_found)
        × ((is_empty legacy || legacy ≟ key) ≡ false
            → (resume (resume w key).1 legacy).0 ≡ err not_found)
  unfolding resolve_session
  resolve_never_forks w route h = elim (Bool-cases (validate route)) [
    | inr e ↦ (ground arith, ground arith, λ g. ground arith)
    | inl e ↦
        let k =
          after_key-not_found (build_session_key route) (legacy_id route)
            (resume w (build_session_key route)) (ground arith) in
        (e, k.0, k.1)
  ]
