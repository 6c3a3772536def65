-- ===== src/Auth/Examples.antt =====
-- A provider with an OAuth credential that is refreshed, and a login under another account.
use go_tiny_claw.Base.{
  [], ◌∷◌, none, some, codes, text_eq, ok, err, background, lookup, insert, list_beq, trim_space,
  ◌≡◌, refl,
}
use go_tiny_claw.Auth.Credential.{credential_oauth, OauthCredential, oauth, validate}
use go_tiny_claw.Auth.Policies.{
  Manager, Policy, StoreErrors, resolve, accept_stored, registration_changed,
}
use go_tiny_claw.Auth.Manager.{
  get_credential, use_resolved, refresh_credential, keep_refreshed, login,
}
use go_tiny_claw.Auth.Refreshed.{Granted}
use go_tiny_claw.Auth.Granted.{get_credential-Granted, LoggedIn, login_guarded}

abbrev old : OauthCredential
old = record {
  access_token = codes "a";
  refresh_token = codes "r";
  id_token = [];
  expires_at = 100;
  earliest_refresh_at = 0;
  expires_in = 0;
  client_id = codes "c";
  ext_agent_host_id = [];
  issuer = codes "i";
  subject = codes "u";
  email = [];
  scopes = none;
  token_type = codes "Bearer";
  account_id = [];
  scope = [];
}

abbrev new : OauthCredential
new = record old { access_token = codes "b"; expires_at = 100000000000 }

abbrev policy : Policy
policy = record {
  methods = credential_oauth ∷ [];
  env_vars = [];
  refresh = some (λ c. some new);
  check = none;
  can_use = none;
}

abbrev manager : Manager
manager = record { policies = (codes "p", policy) ∷ []; store = (codes "p", oauth old) ∷ [] }

abbrev no_errors : StoreErrors
no_errors = record { load_error = none; save_error = none; delete_error = none }

known : lookup manager.policies (codes "p") ≡ some policy
unfolding lookup list_beq
known = refl

get_credential-Granted_example :
    Granted manager
      (λ v. [])
      (codes "p")
      policy
      (λ i. 50)
      (get_credential manager no_errors background (λ i. 50) (λ v. []) (codes "p"))
get_credential-Granted_example =
    get_credential-Granted manager no_errors background (λ i. 50) (λ v. []) (codes "p") policy known

-- The credential is about to expire, so it is refreshed and saved.
refreshed_test :
    get_credential manager no_errors background (λ i. 50) (λ v. []) (codes "p")
    ≡ (ok (oauth new), record manager { store = (codes "p", oauth new) ∷ [] })
unfolding get_credential resolve accept_stored use_resolved refresh_credential keep_refreshed
    validate lookup insert list_beq trim_space
refreshed_test = refl

login_guarded_example :
    LoggedIn manager
      (codes "p")
      (oauth (record new { subject = codes "v" }))
      (login manager no_errors background (codes "p") (oauth (record new { subject = codes "v" })))
login_guarded_example =
    login_guarded manager no_errors background (codes "p")
      (oauth (record new { subject = codes "v" }))

-- Another subject: the login is refused.
switched_test :
    login manager no_errors background (codes "p") (oauth (record new { subject = codes "v" }))
    ≡ (err registration_changed, manager)
unfolding login validate lookup insert list_beq
switched_test = refl
