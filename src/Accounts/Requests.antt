-- ===== src/Accounts/Requests.antt =====
-- The routes of api/auth_api.py and api/sso_api.py that change the accounts, as the steps of one state.
pub mod Named
pub mod Names
use contract_agent_capstone.Prelude.{ℕ, Bool, Option, List, [], ◌∷◌}
use contract_agent_capstone.Prelude.Text.{Text}
use contract_agent_capstone.Exec.{Result}
use contract_agent_capstone.Governance.Token.{Jwt, TokenIdentity}
use contract_agent_capstone.Accounts.Crypto.{Crypto}
use contract_agent_capstone.Accounts.App.{PendingCache, App}
use contract_agent_capstone.Accounts.Members.{register, accept_invite, post_invite}
use contract_agent_capstone.Accounts.Login.{issue_token, mfa_setup, mfa_confirm, mfa_verify}
use contract_agent_capstone.Accounts.Sso.{OidcError, OidcCallbackResult, oidc_callback}

-- A request, with the time and the random values that its handler draws.
pub data Request : Type 0 where
  registers : (salt username password tenant_id role : Text) → Request
  accepts : (salt : Text) (now : ℕ) (token username password : Text) → Request
  invites : (drawn : Text) (now : ℕ) (header : Option Text) (email role : Text) → Request
  logs_in : (drawn : Text) (now : ℕ) (username password : Text) → Request
  sets_up : (nonce secret : Text) (identity : TokenIdentity) → Request
  confirms :
      (salt : ℕ → Text) (drawn : List Text) (current : ℕ) (code : Text) (identity : TokenIdentity)
      → Request
  verifies : (now current : ℕ) (mfa_token code : Text) → Request
  signs_in : (suffix : Text) (now : ℕ) (outcome : Result OidcError OidcCallbackResult) → Request

module _ (K : Crypto) (P : PendingCache) (J : Jwt)
    (send_email : Text → Text → Text → Text → Bool) where
  unfoldable pub serve : Request → App P → App P
  serve (registers salt username password tenant_id role) s =
      (register K P salt username password tenant_id role s).1
  serve (accepts salt now token username password) s =
      (accept_invite K P salt now token username password s).1
  serve (invites drawn now header email role) s =
      (post_invite K P J send_email drawn now header email role s).1
  serve (logs_in drawn now username password) s =
      (issue_token K J P drawn now username password s).1
  serve (sets_up nonce secret identity) s = (mfa_setup K J P nonce secret identity s).1
  serve (confirms salt drawn current code identity) s =
      (mfa_confirm K J P salt drawn current code identity s).1
  serve (verifies now current mfa_token code) s = (mfa_verify K J P now current mfa_token code s).1
  serve (signs_in suffix now outcome) s = (oidc_callback K J P suffix now outcome s).1

  unfoldable pub serve_all : List Request → App P → App P
  serve_all [] s = s
  serve_all (r ∷ rs) s = serve_all rs (serve r s)
