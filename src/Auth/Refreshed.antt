-- ===== src/Auth/Refreshed.antt =====
-- internal/auth/manager.go: what a refresh gives.
use go_tiny_claw.Base.{
  ℕ, true, false, ◌||◌, not, Option, some, if◌then◌else◌, Text, text_eq, is_empty, Result, ok, err,
  is_ok, ◌>>◌, guard, CtxErr, lookup, insert, ◌≡◌, ◌⊎◌, inl, inr, refl, sym, subst, arith,
  Bool-cases, Option-cases, Result-cases,
}
use go_tiny_claw.Auth.Credential.{
  credential_oauth, accepts, OauthCredential, Credential, oauth, refresh_allowed, expired, expiring,
  validate,
}
use go_tiny_claw.Auth.Laws.{Found, Timely, >>_ok, guard-ok}
use go_tiny_claw.Auth.Policies.{
  Manager, Policy, StoreErrors, AuthError, passes, entitlement_failed, check_failed,
  registration_changed, refresh_invalid, store_failed, refresh_deferred, refresh_unavailable,
  refresh_failed, context_done,
}
use go_tiny_claw.Auth.Manager.{Answer, same_registration, keep_refreshed, refresh_credential}

-- What a refresh brought, and what it saved: the stored credential expires soon and may be refreshed; the
-- policy's refresh gave the new one for it, which is of the same registration, well formed, past the
-- policy's check, and not expired at the fourth look at the time.
abbrev pub Refreshed :
    Manager → Text → Policy → (ℕ → ℕ) → Manager → OauthCredential → OauthCredential → Type 0
Refreshed m id p now n old new =
    (lookup m.store id ≡ some (oauth old))
    × (expiring old (now 0) ≡ true)
    × (refresh_allowed old (now 1) ≡ true)
    × ((f : OauthCredential → Option OauthCredential) × (p.refresh ≡ some f) × (f old ≡ some new))
    × (same_registration old new ≡ true)
    × (is_ok (validate (oauth new)) ≡ true)
    × (is_ok (passes p.check check_failed (oauth new)) ≡ true)
    × (expired new (now 3) ≡ false)
    × (n ≡ record m { store = insert m.store id (oauth new) })

-- The policy entitles to a credential.
abbrev pub Entitled : Policy → Credential → Type 0
Entitled p cred = is_ok (passes p.can_use entitlement_failed cred) ≡ true

-- The three ways in which a call that gives out a credential may end.
abbrev pub Granted : Manager → (Text → Text) → Text → Policy → (ℕ → ℕ) → Answer Credential → Type 0
Granted m getenv id p now o =
    ((is_ok o.0 ≡ false) × (o.1 ≡ m))
    ⊎ ((cred : Credential) × (o.0 ≡ ok cred)
        × (o.1 ≡ m)
        × Found m getenv id p cred
        × Entitled p cred
        × Timely now cred)
    ⊎ ((old : OauthCredential) × (new : OauthCredential) × Refreshed m id p now o.1 old new
        × (accepts p.methods credential_oauth ≡ true)
        × (((o.0 ≡ ok (oauth new)) × Entitled p (oauth new))
            ⊎ ((is_ok o.0 ≡ false)
                × (is_ok (passes p.can_use entitlement_failed (oauth new)) ≡ false))))

module _ (m : Manager) (getenv : Text → Text) (id : Text) (p : Policy) (now : ℕ → ℕ) where
  pub refused-Granted :
      (o : Answer Credential) (e : AuthError) → o ≡ (err e, m) → Granted m getenv id p now o
  refused-Granted o e h = subst (Granted m getenv id p now) (sym h) (inl (refl, refl))

  pub kept-Granted :
      (o : Answer Credential) (c : Credential)
      → o ≡ (ok c, m)
      → Found m getenv id p c
      → Entitled p c
      → Timely now c
      → Granted m getenv id p now o
  kept-Granted o c h found entitled timely =
      subst (Granted m getenv id p now) (sym h) (inr (inl (c, refl, refl, found, entitled, timely)))

  entitled-answer :
      (r : Result AuthError (Unit {0})) (c : Credential)
      → (((r >> ok c) ≡ ok c) × (is_ok r ≡ true))
        ⊎ ((is_ok (r >> ok c) ≡ false) × (is_ok r ≡ false))
  entitled-answer (ok u) c = inl (refl, refl)
  entitled-answer (err e) c = inr (refl, refl)

  keep_refreshed-Granted :
      (io : StoreErrors) (f : OauthCredential → Option OauthCredential) (old new : OauthCredential)
      → lookup m.store id ≡ some (oauth old)
      → accepts p.methods credential_oauth ≡ true
      → expiring old (now 0) ≡ true
      → refresh_allowed old (now 1) ≡ true
      → p.refresh ≡ some f
      → f old ≡ some new
      → Granted m getenv id p now (keep_refreshed m io now id p old new)
  unfolding keep_refreshed
  keep_refreshed-Granted io f old new at takes soon may its brought =
      let o = keep_refreshed m io now id p old new in
      let bad = not (is_ok (validate (oauth new))) || expired new (now 3) in
      let first = guard (same_registration old new) registration_changed in
      let second = if bad then err refresh_invalid else ok tt in
      let checked = passes p.check check_failed (oauth new) in
      let fit : Result AuthError (Unit {0}) = first >> second >> checked in
      elim (Result-cases fit) [
        | inr (e, g) ↦ refused-Granted o e (ground arith)
        | inl (u, g) ↦ elim (Option-cases io.save_error) [
          | inr (e, h) ↦ refused-Granted o (store_failed e) (ground arith)
          | inl h ↦
              let (both, past) = >>_ok (first >> second) checked (ground arith) in
              let (same, fine) = >>_ok first second both in
              let good : bad ≡ false = ground arith in
              let saved : Manager = record m { store = insert m.store id (oauth new) } in
              let allowed = passes p.can_use entitlement_failed (oauth new) in
              let step : o ≡ (allowed >> ok (oauth new), saved) = ground arith in
              subst (Granted m getenv id p now) (sym step) (
                inr (
                  inr (
                    old,
                    new,
                    (
                      at,
                      soon,
                      may,
                      (f, its, brought),
                      guard-ok (same_registration old new) registration_changed same,
                      ground arith,
                      past,
                      ground arith,
                      refl,
                    ),
                    takes,
                    entitled-answer allowed (oauth new),
                  )))
        ]
      ]

  pub refresh_credential-Granted :
      (io : StoreErrors) (looked : Option CtxErr) (c : OauthCredential)
      → lookup m.store id ≡ some (oauth c)
      → Found m getenv id p (oauth c)
      → Entitled p (oauth c)
      → expiring c (now 0) ≡ true
      → Granted m getenv id p now (refresh_credential m io looked now id p c)
  unfolding refresh_credential
  refresh_credential-Granted io looked c at found entitled soon =
      let o = refresh_credential m io looked now id p c in
      elim (Bool-cases (refresh_allowed c (now 1))) [
        | inr e ↦ elim (Bool-cases (expired c (now 2))) [
          | inl f ↦ refused-Granted o refresh_deferred (ground arith)
          | inr f ↦ kept-Granted o (oauth c) (ground arith) found entitled (inr (e, f))
        ]
        | inl e ↦ elim (Option-cases p.refresh) [
          | inl f ↦ refused-Granted o refresh_unavailable (ground arith)
          | inr (r, f) ↦ elim (Bool-cases (is_empty c.refresh_token)) [
            | inl g ↦ refused-Granted o refresh_unavailable (ground arith)
            | inr g ↦ elim (Option-cases (r c)) [
              | inl h ↦ elim (Option-cases looked) [
                | inl k ↦ refused-Granted o refresh_failed (ground arith)
                | inr (x, k) ↦ refused-Granted o (context_done x) (ground arith)
              ]
              | inr (new, h) ↦
                  let step : o ≡ keep_refreshed m io now id p c new = ground arith in
                  subst (Granted m getenv id p now) (sym step)
                    (keep_refreshed-Granted io r c new at found.0.0 soon e f h)
            ]
          ]
        ]
      ]
