-- ===== src/Auth/Granted.antt =====
-- internal/auth/manager.go: what `GetCredential` gives out and `Login` saves.
use go_tiny_claw.Base.{
  ℕ, true, false, ◌&&◌, not, Option, none, some, Text, text_eq, Result, ok, err, is_ok, ◌>>◌, guard,
  Ctx, CtxErr, lookup, insert, ◌≡◌, ◌⊎◌, inl, inr, refl, sym, subst, arith, Bool-cases,
  Option-cases, Result-cases,
}
use go_tiny_claw.Auth.Credential.{
  credential_none, accepts, same_type, Credential, no_credential, api_key, oauth, type_of, expiring,
}
use go_tiny_claw.Auth.Laws.{Accepted, Found, resolve-Found, >>_both, >>_ok, valid-ok, guard-ok}
use go_tiny_claw.Auth.Policies.{
  Manager, Policy, StoreErrors, AuthError, passes, valid, looks, load_stored, found_or, resolve,
  entitlement_failed, check_failed, not_accepted, registration_changed, store_failed,
  unknown_provider,
}
use go_tiny_claw.Auth.Manager.{
  Answer, same_registration, use_resolved, get_credential, login, keeps_registration,
}
use go_tiny_claw.Auth.Refreshed.{
  Granted, Entitled, refused-Granted, kept-Granted, refresh_credential-Granted,
}

use_resolved-Granted :
    (m : Manager) (io : StoreErrors) (looked : Option CtxErr) (now : ℕ → ℕ) (getenv : Text → Text)
    (id : Text) (p : Policy) (cred : Credential)
    → Found m getenv id p cred
    → Entitled p cred
    → Granted m getenv id p now (use_resolved m io looked now id p cred)
unfolding use_resolved
use_resolved-Granted m io looked now getenv id p no_credential found entitled =
    kept-Granted m getenv id p now (ok no_credential, m) no_credential refl found entitled tt
use_resolved-Granted m io looked now getenv id p (api_key key) found entitled =
    kept-Granted m getenv id p now (ok (api_key key), m) (api_key key) refl found entitled tt
use_resolved-Granted m io looked now getenv id p (oauth c) (accepted, inl e) entitled = ground arith
use_resolved-Granted m io looked now getenv id p (oauth c) (accepted, inr (inr (key, e, at, env)))
      entitled =
    ground arith
use_resolved-Granted m io looked now getenv id p (oauth c) (accepted, inr (inl (at, past)))
      entitled =
    let found : Found m getenv id p (oauth c) = (accepted, inr (inl (at, past))) in
    elim (Bool-cases (expiring c (now 0))) [
      | inl e ↦ rw e (refresh_credential-Granted m getenv id p now io looked c at found entitled e)
      | inr e ↦
          rw e
            (kept-Granted m getenv id p now (ok (oauth c), m) (oauth c) refl found entitled (inl e))
    ]

-- `GetCredential` ends in one of three ways. It fails and changes nothing. Or it gives out, and changes
-- nothing, a credential that the policy accepts and entitles to, that is well formed, and that needs
-- none, or is the stored one and past the policy's check, or comes from the environment where nothing is
-- stored; an OAuth credential among these does not expire soon, or has not expired and may not be
-- refreshed yet. Or the stored OAuth credential expires soon and the policy's refresh brought a new one
-- for it, of the same account and registration, well formed, past the check and not expired, which is
-- saved for this provider; it is given out if the policy still entitles to it, and otherwise the call
-- fails.
pub get_credential-Granted :
    (m : Manager) (io : StoreErrors) (c : Ctx) (now : ℕ → ℕ) (getenv : Text → Text) (id : Text)
    (p : Policy)
    → lookup m.policies id ≡ some p
    → Granted m getenv id p now (get_credential m io c now getenv id)
unfolding get_credential
get_credential-Granted m io c now getenv id p at =
    let o = get_credential m io c now getenv id in
    let found = resolve m io (c 2) getenv id p in
    elim (Result-cases (looks (c 0) >> looks (c 1) >> found)) [
      | inr (e, f) ↦ refused-Granted m getenv id p now o e (ground arith)
      | inl (cred, f) ↦ elim (Result-cases (passes p.can_use entitlement_failed cred)) [
        | inr (e, g) ↦ refused-Granted m getenv id p now o e (ground arith)
        | inl (u, g) ↦
            let (_, it) = >>_both (looks (c 0) >> looks (c 1)) found cred f in
            let step : o ≡ use_resolved m io (c 3) now id p cred = ground arith in
            subst (Granted m getenv id p now) (sym step) (
              use_resolved-Granted m io (c 3) now getenv id p cred
                (resolve-Found m io (c 2) getenv id p cred it) (ground arith))
      ]
    ]

-- A login does not replace an OAuth credential of another account or registration.
abbrev pub SameAccount : Option Credential → Credential → Type 0
SameAccount (some (oauth old)) (oauth new) = same_registration old new ≡ true
SameAccount o cred = Unit

keeps-SameAccount :
    (load_error : Option ℕ) (o : Option Credential) (cred : Credential)
    → is_ok (keeps_registration (found_or load_error o) cred) ≡ true
    → SameAccount o cred
keeps-SameAccount e none cred h = tt
keeps-SameAccount e (some no_credential) cred h = tt
keeps-SameAccount e (some (api_key key)) cred h = tt
keeps-SameAccount e (some (oauth old)) no_credential h = tt
keeps-SameAccount e (some (oauth old)) (api_key key) h = tt
keeps-SameAccount none (some (oauth old)) (oauth new) h =
    guard-ok (same_registration old new) registration_changed h
keeps-SameAccount (some e) (some (oauth old)) (oauth new) h = ground arith

-- What a login may do: fail and change nothing, or succeed and save the credential.
abbrev pub LoggedIn : Manager → Text → Credential → Answer (Unit {0}) → Type 0
LoggedIn m id cred o =
    ((is_ok o.0 ≡ false) × (o.1 ≡ m))
    ⊎ ((p : Policy) × (is_ok o.0 ≡ true)
        × (lookup m.policies id ≡ some p)
        × Accepted p cred
        × (is_ok (passes p.check check_failed cred) ≡ true)
        × (o.1 ≡ record m { store = insert m.store id cred })
        × SameAccount (lookup m.store id) cred)

-- A login that succeeds saves the credential for this provider and no other; it is of a type that the
-- policy takes, well formed and past the policy's check, and it does not replace an OAuth credential of
-- another account or registration. A login that fails changes nothing.
pub login_guarded :
    (m : Manager) (io : StoreErrors) (c : Ctx) (id : Text) (cred : Credential)
    → LoggedIn m id cred (login m io c id cred)
unfolding login
login_guarded m io c id cred =
    let o = login m io c id cred in
    let refused : (e : AuthError) → o ≡ (err e, m) → LoggedIn m id cred o =
      λ e f. subst (LoggedIn m id cred) (sym {a = o} {b = (err e, m)} f) (inl (refl, refl)) in
    elim (Option-cases (lookup m.policies id)) [
      | inl e ↦ refused unknown_provider (ground arith)
      | inr (p, at) ↦
          let takes =
            guard
              (accepts p.methods (type_of cred) && not (same_type (type_of cred) credential_none))
              not_accepted in
          let checked = passes p.check check_failed cred in
          let kept = keeps_registration (load_stored m io id) cred in
          let fit : Result AuthError (Unit {0}) =
            takes >> looks (c 0) >> looks (c 1) >> valid cred >> checked >> kept in
          elim (Result-cases fit) [
            | inr (e, f) ↦ refused e (ground arith)
            | inl (u, f) ↦ elim (Option-cases io.save_error) [
              | inr (e, g) ↦ refused (store_failed e) (ground arith)
              | inl g ↦
                  let (h₁, same) =
                    >>_ok (takes >> looks (c 0) >> looks (c 1) >> valid cred >> checked) kept
                      (ground arith) in
                  let (h₂, past) =
                    >>_ok (takes >> looks (c 0) >> looks (c 1) >> valid cred) checked h₁ in
                  let (h₃, well) = >>_ok (takes >> looks (c 0) >> looks (c 1)) (valid cred) h₂ in
                  let (h₄, _) = >>_ok (takes >> looks (c 0)) (looks (c 1)) h₃ in
                  let (h₅, _) = >>_ok takes (looks (c 0)) h₄ in
                  let both =
                    guard-ok
                      (accepts p.methods (type_of cred)
                        && not (same_type (type_of cred) credential_none))
                      not_accepted h₅ in
                  subst (LoggedIn m id cred)
                    (sym {a = o} {b = (ok tt, record m { store = insert m.store id cred })}
                      (ground arith))
                    (inr (
                      p,
                      refl,
                      at,
                      (ground arith, valid-ok cred well),
                      past,
                      refl,
                      keeps-SameAccount io.load_error (lookup m.store id) cred same,
                    ))
            ]
          ]
    ]
