-- ===== src/Auth/Policies.antt =====
-- internal/auth/manager.go: the policies of the providers, and how a credential is found. A provider's
-- checks, its refresh function and the environment are parameters.
use go_tiny_claw.Base.{
  ℕ, Bool, false, ◌&&◌, ◌||◌, not, List, [], ◌∷◌, Option, none, some, if◌then◌else◌, ◌==◌, leb,
  Text, text_eq, is_empty, is_some, trim_space, all, Result, ok, err, ◌>>◌, guard, CtxErr, lookup,
  insert,
}
use go_tiny_claw.Auth.Credential.{
  CredentialType, credential_none, credential_api_key, accepts, OauthCredential, Credential,
  no_credential, api_key, type_of, CredentialError, validate,
}

pub data AuthError : Type 0 where
  context_done : CtxErr → AuthError
  bad_provider_id duplicate_policy unknown_provider : AuthError
  not_accepted not_found : AuthError
  invalid : CredentialError → AuthError
  check_failed entitlement_failed : ℕ → AuthError
  store_failed : ℕ → AuthError
  missing_credential : AuthError
  refresh_deferred refresh_unavailable refresh_failed registration_changed refresh_invalid :
      AuthError

-- `Policy`
pub record Policy : Type 0 where
  pub methods : List CredentialType
  pub env_vars : List Text
  pub refresh : Option (OauthCredential → Option OauthCredential)
  pub check : Option (Credential → Option ℕ)
  pub can_use : Option (Credential → Option ℕ)

pub record Manager : Type 0 where
  pub policies : List (Text × Policy)
  pub store : List (Text × Credential)

-- What the calls of the store return.
pub record StoreErrors : Type 0 where
  pub load_error : Option ℕ
  pub save_error : Option ℕ
  pub delete_error : Option ℕ

-- `[a-z0-9]`
abbrev pub is_id_start : ℕ → Bool
is_id_start b = (leb b'a' b && leb b b'z') || (leb b'0' b && leb b b'9')

-- `idPattern`: ^[a-z0-9][a-z0-9_-]*$
abbrev pub is_provider_id : Text → Bool
is_provider_id [] = false
is_provider_id (b ∷ bs) = is_id_start b && all (λ x. is_id_start x || (x == b'_') || (x == b'-')) bs

-- `Manager.Register`
unfoldable pub register_policy : Manager → Text → Policy → Result AuthError Manager
register_policy m id p =
    if not (is_provider_id id)
    then err bad_provider_id
    else if is_some (lookup m.policies id)
    then err duplicate_policy
    else ok (record m { policies = insert m.policies id p })

-- `Manager.policy`
abbrev pub policy_of : Manager → Text → Result AuthError Policy
policy_of m id = elim (lookup m.policies id) [ none ↦ err unknown_provider | some p ↦ ok p ]

-- A check that a policy may have.
abbrev pub passes :
    Option (Credential → Option ℕ) → (ℕ → AuthError) → Credential → Result AuthError (Unit {0})
passes none fail c = ok tt
passes (some f) fail c = elim (f c) [ none ↦ ok tt | some e ↦ err (fail e) ]

abbrev pub valid : Credential → Result AuthError (Unit {0})
valid c = elim (validate c) [ ok u ↦ ok u | err e ↦ err (invalid e) ]

abbrev pub looks : Option CtxErr → Result AuthError (Unit {0})
looks none = ok tt
looks (some e) = err (context_done e)

abbrev pub found_or : Option ℕ → Option Credential → Result AuthError Credential
found_or (some e) o = err (store_failed e)
found_or none none = err not_found
found_or none (some c) = ok c

-- `store.Load`
abbrev pub load_stored : Manager → StoreErrors → Text → Result AuthError Credential
load_stored m io id = found_or io.load_error (lookup m.store id)

-- The first API key that the environment has.
abbrev pub env_key : (Text → Text) → List Text → Option Text
env_key getenv [] = none
env_key getenv (v ∷ vs) =
    let key = trim_space (getenv v) in
    let rest = env_key getenv vs in if is_empty key then rest else some key

-- A stored credential that the policy lets through.
unfoldable pub accept_stored : Policy → Credential → Result AuthError Credential
accept_stored p c =
    guard (accepts p.methods (type_of c)) not_accepted
    >> valid c
    >> passes p.check check_failed c
    >> ok c

-- What stands in for a credential that is not stored.
unfoldable pub from_env : (Text → Text) → Policy → Result AuthError Credential
from_env getenv p =
    if accepts p.methods credential_api_key
    then elim (env_key getenv p.env_vars) [
      | none ↦ err missing_credential
      | some key ↦ valid (api_key key) >> ok (api_key key)
    ]
    else err missing_credential

abbrev pub resolve_loaded :
    (Text → Text) → Policy → Result AuthError Credential → Result AuthError Credential
resolve_loaded getenv p (ok c) = accept_stored p c
resolve_loaded getenv p (err not_found) = from_env getenv p
resolve_loaded getenv p (err e) = err e

-- `Manager.resolve`, but for the name of the source.
unfoldable pub resolve :
    Manager
    → StoreErrors
    → Option CtxErr
    → (Text → Text)
    → Text
    → Policy
    → Result AuthError Credential
unfolding accept_stored from_env
resolve m io looked getenv id p =
    looks looked
    >> (if accepts p.methods credential_none
        then ok no_credential
        else resolve_loaded getenv p (load_stored m io id))
