-- ===== src/Accounts/Login.antt =====
-- api/auth_api.py: logging in, in one step or two, and enrolling a second factor.
pub mod Answers
pub mod Steps
use contract_agent_capstone.Prelude.{
  ℕ, ◌++◌, Bool, true, false, not, ◌&&◌, Option, none, some, is_some, List, if◌then◌else◌,
}
use contract_agent_capstone.Prelude.Text.{Text, codes, is_empty}
use contract_agent_capstone.Exec.{
  Result, ok, err, Exec, ◌>>=◌, ◌>>◌, pure, raise, or_raise, raise_if, gets,
}
use contract_agent_capstone.Governance.Http.{HttpError, http}
use contract_agent_capstone.Governance.Token.{
  Jwt, TokenIdentity, create_access_token, default_token_expiry, truthy,
}
use contract_agent_capstone.Governance.Mfa.{verify_totp_code, default_valid_window}
use contract_agent_capstone.Accounts.Crypto.{Crypto}
use contract_agent_capstone.Accounts.Users.{UserAccount, verify_credentials, get_user_by_username}
use contract_agent_capstone.Accounts.Totp.{
  TotpState, get_totp_state, record_totp_step_used, set_pending_totp_secret,
  get_decrypted_totp_secret, enable_mfa, consume_backup_code,
}
use contract_agent_capstone.Accounts.App.{PendingCache, App, write_graph}

pub record TokenResponse : Type 0 where
  pub access_token : Option Text
  pub expires_in : Option ℕ
  pub mfa_required : Bool
  pub mfa_token : Option Text

abbrev pub mfa_pending_ttl_seconds : ℕ
mfa_pending_ttl_seconds = 300

abbrev pub pending_key : Text → Text
pending_key mfa_token = codes "mfa_pending:" ++ mfa_token

abbrev pub is_enabled : Option TotpState → Bool
is_enabled none = false
is_enabled (some t) = t.mfa_enabled

abbrev pub no_username : HttpError
no_username = http 400 (codes "This token has no associated username - log in again")

abbrev pub no_setup : HttpError
no_setup = http 400 (codes "No pending MFA setup - call POST /mfa/setup first")

abbrev pub bad_code : HttpError
bad_code = http 401 (codes "Invalid, expired, or already-used code")

module _ (K : Crypto) (J : Jwt) (P : PendingCache) where
  abbrev pub granted : ℕ → UserAccount → TokenResponse
  granted now account = record {
    access_token =
        some
          (create_access_token J now account.tenant_id account.role none (some account.username));
    expires_in = some default_token_expiry;
    mfa_required = false;
    mfa_token = none;
  }

  abbrev pub challenge : Text → TokenResponse
  challenge mfa_token = record {
    access_token = none;
    expires_in = none;
    mfa_required = true;
    mfa_token = some mfa_token;
  }

  abbrev pub set_pending : ℕ → Text → Option Text → ℕ → Exec (App P) HttpError Unit
  set_pending now key value ttl s =
      (ok tt, record s { pending = P.set now key value ttl s.pending })

  -- An exception that no handler names.
  abbrev pub unhandled : HttpError
  unhandled = http 500 (codes "Internal Server Error")

  abbrev pub or_unhandled : {A : Type 0} → Result Text A → Exec (App P) HttpError A
  or_unhandled (ok a) = pure a
  or_unhandled (err message) = raise unhandled

  -- `issue_token`; a challenge's token is drawn by `secrets.token_urlsafe`.
  unfoldable pub issue_token : Text → ℕ → Text → Text → Exec (App P) HttpError TokenResponse
  issue_token drawn now username password = do
    checked ← gets (λ s. verify_credentials K username password s.graph)
    found ← or_unhandled checked
    account ← or_raise found (http 401 (codes "Incorrect username or password"))
    totp_state ← gets (λ s. get_totp_state account.username s.graph)
    if is_enabled totp_state
        then (do
          set_pending now (pending_key drawn) (some account.username) mfa_pending_ttl_seconds
          pure (challenge drawn))
        else pure (granted now account)

  abbrev pub or_missing : HttpError → Option (Option Text) → Exec (App P) HttpError Text
  or_missing e none = raise e
  or_missing e (some none) = raise unhandled
  or_missing e (some (some secret)) = pure secret

  unfoldable pub mfa_setup : Text → Text → TokenIdentity → Exec (App P) HttpError Text
  mfa_setup nonce secret identity = do
    username ← or_raise (truthy identity.username) no_username
    write_graph P (set_pending_totp_secret K nonce username secret)
    pure secret

  -- The codes and their salts are drawn by `secrets` and bcrypt; `current` is the clock's step.
  unfoldable pub mfa_confirm :
      (ℕ → Text) → List Text → ℕ → Text → TokenIdentity → Exec (App P) HttpError (List Text)
  mfa_confirm salt drawn current code identity = do
    username ← or_raise (truthy identity.username) no_username
    stored ← gets (λ s. get_decrypted_totp_secret K username s.graph)
    secret ← or_missing no_setup stored
    raise_if (is_empty secret) no_setup
    found ← or_unhandled (verify_totp_code K.totp_at secret code none default_valid_window current)
    step ← or_raise found (http 401 (codes "Invalid or expired code"))
    write_graph P (enable_mfa K salt username drawn)
    write_graph P (record_totp_step_used username step)
    pure drawn

  -- The consuming write, as a step of a handler.
  unfoldable pub try_backup_code : Text → Text → Exec (App P) HttpError Bool
  try_backup_code username code s =
      let (spent, g) = consume_backup_code K username code s.graph in
      or_unhandled spent (record s { graph = g })

  -- A code of the authenticator, or failing that a backup code.
  unfoldable pub second_factor : Text → Text → Option ℕ → Exec (App P) HttpError Unit
  second_factor username code (some step) = write_graph P (record_totp_step_used username step)
  second_factor username code none = do
    spent ← try_backup_code username code
    if spent then pure tt else raise bad_code

  abbrev pub last_step : Option TotpState → Option ℕ
  last_step none = none
  last_step (some t) = t.mfa_last_used_step

  abbrev pub has_secret : Option TotpState → Bool
  has_secret none = false
  has_secret (some t) = is_some (truthy t.totp_secret_encrypted)

  -- What `mfa_verify` does once it has taken the pending login off the cache.
  unfoldable pub verify_pending : ℕ → ℕ → Text → Text → Exec (App P) HttpError TokenResponse
  verify_pending now current username code = do
    totp_state ← gets (λ s. get_totp_state username s.graph)
    raise_if (not (is_enabled totp_state && has_secret totp_state))
        (http 401 (codes "MFA is not enabled for this account"))
    stored ← gets (λ s. get_decrypted_totp_secret K username s.graph)
    secret ← or_missing unhandled stored
    step ←
        or_unhandled (
          verify_totp_code K.totp_at secret code (last_step totp_state) default_valid_window
            current)
    second_factor username code step
    found ← gets (λ s. get_user_by_username K username s.graph)
    account ← or_raise found (http 401 (codes "Account no longer exists"))
    pure (granted now account)

  unfoldable pub mfa_verify : ℕ → ℕ → Text → Text → Exec (App P) HttpError TokenResponse
  mfa_verify now current mfa_token code = do
    pending ← gets (λ s. P.get now (pending_key mfa_token) s.pending)
    username ← or_raise pending (http 401 (codes "Unknown or expired MFA challenge"))
    set_pending now (pending_key mfa_token) none 1
    verify_pending now current username code
