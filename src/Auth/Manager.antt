-- ===== src/Auth/Manager.antt =====
-- internal/auth/manager.go: the calls that give out, refresh, save and delete credentials. The looks of
-- a call at the context are numbered; `now` is asked in the same way.
use go_tiny_claw.Base.{
  ℕ, Bool, true, false, ◌&&◌, ◌||◌, not, Option, none, some, if◌then◌else◌, Text, text_eq, ◌≟◌,
  codes, is_empty, is_some, Result, ok, err, is_ok, ◌>>◌, ◌>>=◌, guard, Ctx, CtxErr, insert, delete,
}
use go_tiny_claw.Auth.Credential.{
  CredentialType, credential_none, accepts, same_type, OauthCredential, Credential, api_key, oauth,
  type_of, has_scope, refresh_allowed, expired, expiring, validate,
}
use go_tiny_claw.Auth.Policies.{
  AuthError, Policy, Manager, StoreErrors, policy_of, passes, valid, looks, load_stored, env_key,
  resolve, context_done, not_accepted, not_found, check_failed, entitlement_failed, store_failed,
  missing_credential, refresh_deferred, refresh_unavailable, refresh_failed, registration_changed,
  refresh_invalid,
}

-- `sameRegistration`
abbrev pub same_registration : OauthCredential → OauthCredential → Bool
same_registration saved next =
    (is_empty saved.client_id || (saved.client_id ≟ next.client_id))
    && (is_empty saved.subject || ((saved.subject ≟ next.subject) && (saved.issuer ≟ next.issuer)))
    && (is_empty saved.ext_agent_host_id || (saved.ext_agent_host_id ≟ next.ext_agent_host_id))

-- What a call answers, and the manager after it.
abbrev pub Answer : Type 0 → Type 0
Answer A = Result AuthError A × Manager

-- `store.Save`
abbrev pub save : Manager → StoreErrors → Text → Credential → Answer (Unit {0})
save m io id c = elim io.save_error [
  | some e ↦ (err (store_failed e), m)
  | none ↦ (ok tt, record m { store = insert m.store id c })
]

-- The rest of `GetCredential` once the credential is refreshed.
unfoldable pub keep_refreshed :
    Manager
    → StoreErrors
    → (ℕ → ℕ)
    → Text
    → Policy
    → OauthCredential
    → OauthCredential
    → Answer Credential
keep_refreshed m io now id p old updated =
    let fit =
      guard (same_registration old updated) registration_changed
      >> (if not (is_ok (validate (oauth updated))) || expired updated (now 3)
          then err refresh_invalid
          else ok tt)
      >> passes p.check check_failed (oauth updated) in
    elim fit [
      | err e ↦ (err e, m)
      | ok u ↦ elim io.save_error [
        | some e ↦ (err (store_failed e), m)
        | none ↦ (
          passes p.can_use entitlement_failed (oauth updated) >> ok (oauth updated),
          record m { store = insert m.store id (oauth updated) },
        )
      ]
    ]

-- `GetCredential` with an OAuth credential that is about to expire.
unfoldable pub refresh_credential :
    Manager
    → StoreErrors
    → Option CtxErr
    → (ℕ → ℕ)
    → Text
    → Policy
    → OauthCredential
    → Answer Credential
unfolding keep_refreshed
refresh_credential m io looked now id p c =
    if not (refresh_allowed c (now 1))
    then (if expired c (now 2) then err refresh_deferred else ok (oauth c), m)
    else elim p.refresh [
      | none ↦ (err refresh_unavailable, m)
      | some f ↦ if is_empty c.refresh_token then (err refresh_unavailable, m) else elim (f c) [
        | none ↦ (elim looked [ some e ↦ err (context_done e) | none ↦ err refresh_failed ], m)
        | some updated ↦ keep_refreshed m io now id p c updated
      ]
    ]

unfoldable pub use_resolved :
    Manager → StoreErrors → Option CtxErr → (ℕ → ℕ) → Text → Policy → Credential → Answer Credential
unfolding refresh_credential
use_resolved m io looked now id p (oauth c) =
    let r = refresh_credential m io looked now id p c in
    if expiring c (now 0) then r else (ok (oauth c), m)
use_resolved m io looked now id p c = (ok c, m)

-- `Manager.GetCredential`. It looks at the context when it takes the lock (0 and 1), when it resolves
-- (2) and after a refresh that failed (3).
unfoldable pub get_credential :
    Manager → StoreErrors → Ctx → (ℕ → ℕ) → (Text → Text) → Text → Answer Credential
unfolding resolve use_resolved
get_credential m io c now getenv id = elim (policy_of m id) [
  | err e ↦ (err e, m)
  | ok p ↦ elim (looks (c 0) >> looks (c 1) >> resolve m io (c 2) getenv id p) [
    | err e ↦ (err e, m)
    | ok cred ↦ elim (passes p.can_use entitlement_failed cred) [
      | err e ↦ (err e, m)
      | ok u ↦ use_resolved m io (c 3) now id p cred
    ]
  ]
]

-- The saved registration that a login would replace.
abbrev pub keeps_registration :
    Result AuthError Credential → Credential → Result AuthError (Unit {0})
keeps_registration (ok (oauth saved)) (oauth next) =
    guard (same_registration saved next) registration_changed
keeps_registration (err not_found) (oauth next) = ok tt
keeps_registration (err e) (oauth next) = err e
keeps_registration r c = ok tt

-- `Manager.Login`
unfoldable pub login : Manager → StoreErrors → Ctx → Text → Credential → Answer (Unit {0})
login m io c id cred = elim (policy_of m id) [
  | err e ↦ (err e, m)
  | ok p ↦
      elim (guard
          (accepts p.methods (type_of cred) && not (same_type (type_of cred) credential_none))
          not_accepted
        >> looks (c 0)
        >> looks (c 1)
        >> valid cred
        >> passes p.check check_failed cred
        >> keeps_registration (load_stored m io id) cred) [
          | err e ↦ (err e, m)
          | ok u ↦ save m io id cred
        ]
]

-- `Manager.Logout`
unfoldable pub logout : Manager → StoreErrors → Ctx → Text → Answer (Unit {0})
logout m io c id = elim (policy_of m id >>= λ p. looks (c 0) >> looks (c 1)) [
  | err e ↦ (err e, m)
  | ok u ↦ elim io.delete_error [
    | some e ↦ (err (store_failed e), m)
    | none ↦ (ok tt, record m { store = delete m.store id })
  ]
]

-- `Manager.LoginFromEnv`
unfoldable pub login_from_env :
    Manager → StoreErrors → Ctx → (Text → Text) → Text → Answer (Unit {0})
unfolding login
login_from_env m io c getenv id = elim (policy_of m id) [
  | err e ↦ (err e, m)
  | ok p ↦ elim (env_key getenv p.env_vars) [
    | none ↦ (err missing_credential, m)
    | some key ↦ login m io c id (api_key key)
  ]
]

-- `Manager.StoredCredential`
unfoldable pub stored_credential : Manager → StoreErrors → Ctx → Text → Result AuthError Credential
stored_credential m io c id =
    policy_of m id >>= λ p. looks (c 0) >> looks (c 1) >> load_stored m io id

-- `CredentialInfo`, but for the source.
pub record CredentialInfo : Type 0 where
  pub type : CredentialType
  pub available : Bool
  pub expires_at : ℕ
  pub needs_refresh : Bool
  pub plan_usage : Bool
  pub refresh_blocked : Bool

abbrev info_of : Credential → (ℕ → ℕ) → CredentialInfo
info_of (oauth c) now = record {
  type = type_of (oauth c);
  available = true;
  expires_at = c.expires_at;
  needs_refresh = expiring c (now 0);
  plan_usage = has_scope c (codes "chatgpt.tokens.use.direct");
  refresh_blocked = expiring c (now 0) && not (refresh_allowed c (now 1));
}
info_of c now = record {
  type = type_of c;
  available = true;
  expires_at = 0;
  needs_refresh = false;
  plan_usage = false;
  refresh_blocked = false;
}

-- Why a credential cannot be used without going online.
abbrev offline_error : Policy → Credential → (ℕ → ℕ) → CredentialInfo → Result AuthError (Unit {0})
offline_error p (oauth c) now info =
    if info.refresh_blocked && expired c (now 2)
    then err refresh_deferred
    else if info.needs_refresh
        && not info.refresh_blocked
        && (is_empty c.refresh_token || not (is_some p.refresh))
    then err refresh_unavailable
    else ok tt
offline_error p c now info = ok tt

-- `Manager.Inspect`: what is known of the credential, and the error.
unfoldable pub inspect :
    Manager
    → StoreErrors
    → Ctx
    → (ℕ → ℕ)
    → (Text → Text)
    → Text
    → Result AuthError (CredentialInfo × Option AuthError)
unfolding resolve
inspect m io c now getenv id = policy_of m id >>= λ p. resolve m io (c 0) getenv id p >>= λ cred.
    let info = info_of cred now in
    elim (offline_error p cred now info >> passes p.can_use entitlement_failed cred) [
      | ok u ↦ ok (info, none)
      | err e ↦ ok (record info { available = false }, some e)
    ]
