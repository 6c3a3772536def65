-- ===== src/Auth/Credential.antt =====
-- internal/auth/credential.go
use go_tiny_claw.Base.{
  ℕ, ◌+◌, Bool, true, false, ◌&&◌, ◌||◌, not, List, ◌++◌, Option, none, some, if◌then◌else◌, ◌==◌,
  leb, Text, text_eq, ◌≟◌, codes, is_empty, is_blank, contains, fields, any, map, Result, ok, err,
}

pub data CredentialType : Type 0 where
  credential_none credential_api_key credential_oauth : CredentialType

abbrev pub same_type : CredentialType → CredentialType → Bool
same_type credential_none credential_none = true
same_type credential_api_key credential_api_key = true
same_type credential_oauth credential_oauth = true
same_type t u = false

-- `slices.Contains` of a policy's methods.
abbrev pub accepts : List CredentialType → CredentialType → Bool
accepts methods t = any (same_type t) methods

pub record OauthCredential : Type 0 where
  pub access_token : Text
  pub refresh_token : Text
  pub id_token : Text
  pub expires_at : ℕ
  pub earliest_refresh_at : ℕ
  pub expires_in : ℕ
  pub client_id : Text
  pub ext_agent_host_id : Text
  pub issuer : Text
  pub subject : Text
  pub email : Text
  pub scopes : Option (List Text)
  pub token_type : Text
  pub account_id : Text
  pub scope : Text

pub data Credential : Type 0 where
  no_credential : Credential
  api_key : Text → Credential
  oauth : OauthCredential → Credential

-- The `Type` methods.
abbrev pub type_of : Credential → CredentialType
type_of no_credential = credential_none
type_of (api_key key) = credential_api_key
type_of (oauth c) = credential_oauth

-- `GrantedScopes`
abbrev pub granted_scopes : OauthCredential → List Text
granted_scopes c = elim c.scopes [ none ↦ fields c.scope | some scopes ↦ scopes ]

-- `HasScope`
abbrev pub has_scope : OauthCredential → Text → Bool
has_scope c scope = contains (granted_scopes c) scope

-- `RefreshAllowed`
abbrev pub refresh_allowed : OauthCredential → ℕ → Bool
refresh_allowed c now = leb c.earliest_refresh_at now

-- `Expired`
abbrev pub expired : OauthCredential → ℕ → Bool
expired c now = leb c.expires_at now

-- `time.Minute`
abbrev pub minute : ℕ
minute = 60000000000

-- `Expiring`
abbrev pub expiring : OauthCredential → ℕ → Bool
expiring c now = leb c.expires_at (now + minute)

-- `DynamicClientID`
abbrev pub dynamic_client_id : Text
dynamic_client_id = codes "dynamic_agent_client"

-- `strings.ContainsAny(s, "\r\n")`
abbrev pub breaks_line : Text → Bool
breaks_line s = any (λ b. (b == b'\r') || (b == b'\n')) s

-- An ASCII letter in lower case.
abbrev lower : ℕ → ℕ
lower b = if leb b'A' b && leb b b'Z' then b + 32 else b

-- `strings.EqualFold(s, "Bearer")`: no letter of the word has a fold outside ASCII.
abbrev is_bearer : Text → Bool
is_bearer s = map lower s ≟ codes "bearer"

pub data CredentialError : Type 0 where
  invalid_api_key invalid_oauth unsupported_token_type : CredentialError

-- `Validate`
unfoldable pub validate : Credential → Result CredentialError (Unit {0})
validate no_credential = ok tt
validate (api_key key) = if is_blank key || breaks_line key then err invalid_api_key else ok tt
validate (oauth c) =
    if is_empty c.access_token
      || breaks_line (
          c.access_token ++ c.account_id ++ c.refresh_token ++ c.id_token ++ c.client_id
          ++ c.ext_agent_host_id ++ c.issuer ++ c.subject ++ c.email)
      || (c.expires_at == 0)
      || (c.client_id ≟ dynamic_client_id)
    then err invalid_oauth
    else if not (is_empty c.token_type) && not (is_bearer c.token_type)
    then err unsupported_token_type
    else ok tt
