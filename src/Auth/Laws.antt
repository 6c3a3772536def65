-- ===== src/Auth/Laws.antt =====
-- internal/auth/manager.go: what a credential that the manager gives out, or saves, has been through.
use go_tiny_claw.Base.{
  ℕ, Bool, true, false, Option, none, some, if◌then◌else◌, Text, text_eq, Result, ok, err, is_ok,
  ◌>>◌, guard, CtxErr, lookup, ◌≡◌, ◌⊎◌, inl, inr, refl, sym, ap, subst, ◌∙◌, arith, Bool-cases,
  Option-cases, Result-cases,
}
use go_tiny_claw.Auth.Credential.{
  credential_none, credential_api_key, accepts, Credential, no_credential, api_key, oauth, type_of,
  expired, expiring, refresh_allowed, validate,
}
use go_tiny_claw.Auth.Policies.{
  Manager, Policy, StoreErrors, AuthError, passes, valid, looks, load_stored, env_key,
  accept_stored, from_env, resolve, resolve_loaded, check_failed, not_found, not_accepted,
}

-- The policy takes a credential of this type, and it is well formed.
abbrev pub Accepted : Policy → Credential → Type 0
Accepted p cred = (accepts p.methods (type_of cred) ≡ true) × (is_ok (validate cred) ≡ true)

-- An OAuth credential that is given out as it was stored does not expire soon, by the first look at the
-- time; or its refresh is not allowed yet by the second look, and it has not expired by the third.
abbrev pub Timely : (ℕ → ℕ) → Credential → Type 0
Timely now (oauth c) =
    (expiring c (now 0) ≡ false)
    ⊎ ((refresh_allowed c (now 1) ≡ false) × (expired c (now 2) ≡ false))
Timely now cred = Unit

validate_none : is_ok (validate no_credential) ≡ true
unfolding validate
validate_none = refl

pub >>_both :
    {A : Type 0} (a : Result AuthError (Unit {0})) (b : Result AuthError A) (x : A)
    → (a >> b) ≡ ok x
    → (is_ok a ≡ true) × (b ≡ ok x)
>>_both (ok u) b x h = (refl, h)
>>_both (err e) b x h = ground arith

pub >>_ok :
    (a b : Result AuthError (Unit {0}))
    → is_ok (a >> b) ≡ true
    → (is_ok a ≡ true) × (is_ok b ≡ true)
>>_ok (ok u) b h = (refl, h)
>>_ok (err e) b h = ground arith

pub guard-ok : (b : Bool) (e : AuthError) → is_ok (guard b e) ≡ true → b ≡ true
guard-ok true e h = refl
guard-ok false e h = h

pub valid-ok : (c : Credential) → is_ok (valid c) ≡ true → is_ok (validate c) ≡ true
valid-ok c h = elim (Result-cases (validate c)) [
  | inl (u, e) ↦ ground arith
  | inr (x, e) ↦ ground arith
]

accept_stored-Accepted :
    (p : Policy) (c cred : Credential)
    → accept_stored p c ≡ ok cred
    → (c ≡ cred) × Accepted p cred × (is_ok (passes p.check check_failed cred) ≡ true)
unfolding accept_stored
accept_stored-Accepted p c cred h =
    let (fine, same) =
      >>_both
        (guard (accepts p.methods (type_of c)) not_accepted
          >> valid c
          >> passes p.check check_failed c)
        (ok c) cred h in
    let (first, checked) =
      >>_ok (guard (accepts p.methods (type_of c)) not_accepted >> valid c)
        (passes p.check check_failed c) fine in
    let (accepted, well) =
      >>_ok (guard (accepts p.methods (type_of c)) not_accepted) (valid c) first in
    let it_is : c ≡ cred = ground arith in
    (
      it_is,
      subst (Accepted p) it_is
          (guard-ok (accepts p.methods (type_of c)) not_accepted accepted, valid-ok c well),
      subst (λ x. is_ok (passes p.check check_failed x) ≡ true) it_is checked,
    )

from_env-Accepted :
    (getenv : Text → Text) (p : Policy) (cred : Credential)
    → from_env getenv p ≡ ok cred
    → (key : Text) × (cred ≡ api_key key) × (env_key getenv p.env_vars ≡ some key) × Accepted p cred
unfolding from_env
from_env-Accepted getenv p cred h = elim (Bool-cases (accepts p.methods credential_api_key)) [
  | inr e ↦ ground arith
  | inl e ↦ elim (Option-cases (env_key getenv p.env_vars)) [
    | inl f ↦ ground arith
    | inr (key, f) ↦
        let (well, same) = >>_both (valid (api_key key)) (ok (api_key key)) cred (ground arith) in
        let it_is : api_key key ≡ cred = ground arith in
        (key, sym it_is, f, subst (Accepted p) it_is (e, valid-ok (api_key key) well))
  ]
]

-- Where a credential comes from: none is needed, it is the stored one and past the policy's check, or
-- nothing is stored and the environment has the key.
abbrev pub Source : Manager → (Text → Text) → Text → Policy → Credential → Type 0
Source m getenv id p cred =
    (cred ≡ no_credential)
    ⊎ ((lookup m.store id ≡ some cred) × (is_ok (passes p.check check_failed cred) ≡ true))
    ⊎ ((key : Text) × (cred ≡ api_key key)
        × (lookup m.store id ≡ none)
        × (env_key getenv p.env_vars ≡ some key))

-- What `resolve` finds.
abbrev pub Found : Manager → (Text → Text) → Text → Policy → Credential → Type 0
Found m getenv id p cred = Accepted p cred × Source m getenv id p cred

resolve_loaded-Found :
    (m : Manager) (getenv : Text → Text) (id : Text) (p : Policy) (r : Result AuthError Credential)
    (cred : Credential)
    → ((c : Credential) → r ≡ ok c → lookup m.store id ≡ some c)
    → (r ≡ err not_found → lookup m.store id ≡ none)
    → resolve_loaded getenv p r ≡ ok cred
    → Found m getenv id p cred
resolve_loaded-Found m getenv id p (ok c) cred at missing h =
    let (same, accepted, checked) = accept_stored-Accepted p c cred h in
    (accepted, inr (inl (at c refl ∙ ap some same, checked)))
resolve_loaded-Found m getenv id p (err not_found) cred at missing h =
    let (key, is_key, env, accepted) = from_env-Accepted getenv p cred h in
    (accepted, inr (inr (key, is_key, missing refl, env)))
resolve_loaded-Found m getenv id p (err e) cred at missing h = ground arith

load_stored-missing :
    (m : Manager) (io : StoreErrors) (id : Text)
    → load_stored m io id ≡ err not_found
    → lookup m.store id ≡ none
load_stored-missing m io id h = elim (Option-cases io.load_error) [
  | inr (e, f) ↦ ground arith
  | inl f ↦ elim (Option-cases (lookup m.store id)) [ inl g ↦ g | inr (x, g) ↦ ground arith ]
]

load_stored-at :
    (m : Manager) (io : StoreErrors) (id : Text) (c : Credential)
    → load_stored m io id ≡ ok c
    → lookup m.store id ≡ some c
load_stored-at m io id c h = elim (Option-cases io.load_error) [
  | inr (e, f) ↦ ground arith
  | inl f ↦ elim (Option-cases (lookup m.store id)) [
    | inl g ↦ ground arith
    | inr (x, g) ↦ ground arith
  ]
]

pub resolve-Found :
    (m : Manager) (io : StoreErrors) (looked : Option CtxErr) (getenv : Text → Text) (id : Text)
    (p : Policy) (cred : Credential)
    → resolve m io looked getenv id p ≡ ok cred
    → Found m getenv id p cred
unfolding resolve
resolve-Found m io looked getenv id p cred h =
    let (live, rest) =
      >>_both (looks looked)
        (if accepts p.methods credential_none
          then ok no_credential
          else resolve_loaded getenv p (load_stored m io id))
        cred h in
    elim (Bool-cases (accepts p.methods credential_none)) [
      | inl e ↦
          let it_is : no_credential ≡ cred = ground arith in
          (subst (Accepted p) it_is (e, validate_none), inl (sym it_is))
      | inr e ↦
          resolve_loaded-Found m getenv id p (load_stored m io id) cred (load_stored-at m io id)
            (load_stored-missing m io id) (ground arith)
    ]
