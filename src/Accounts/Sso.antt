-- ===== src/Accounts/Sso.antt =====
-- api/sso_api.py: the callback of a Google sign-in. The exchange of the code for a verified
-- identity (governance/oidc.py, Google and PyJWT) is a parameter, by its outcome.
pub mod Username
use contract_agent_capstone.Prelude.{
  ℕ, Bool, not, Option, none, some, [], ◌∷◌, ◌++◌, length, take, keep, ltb, ◌==◌, nat_eq,
  if◌then◌else◌,
}
use contract_agent_capstone.Prelude.Text.{Text, codes, text_eq, lower}
use contract_agent_capstone.Exec.{
  Result, ok, err, Exec, ◌>>=◌, ◌>>◌, pure, or_raise, raise_if, gets,
}
use contract_agent_capstone.Governance.Http.{HttpError, http}
use contract_agent_capstone.Governance.Token.{Jwt, truthy}
use contract_agent_capstone.Accounts.Graph.{Graph}
use contract_agent_capstone.Accounts.Crypto.{Crypto}
use contract_agent_capstone.Accounts.Users.{
  UserAccount, CreateError, username_exists, username_char, create_sso_user, get_user_by_sso,
}
use contract_agent_capstone.Accounts.Invites.{InviteRecord}
use contract_agent_capstone.Accounts.App.{PendingCache, App, no_invite}
use contract_agent_capstone.Accounts.Members.{take_invite}
use contract_agent_capstone.Accounts.Login.{TokenResponse, granted}

pub record OidcIdentity : Type 0 where
  pub sub : Text
  pub email : Text
  pub email_verified : Bool

pub record OidcCallbackResult : Type 0 where
  pub identity : OidcIdentity
  pub invite_token : Option Text

pub data OidcError : Type 0 where
  token_error config_error : Text → OidcError

abbrev pub oidc_failed : OidcError → HttpError
oidc_failed (token_error t) = http 401 t
oidc_failed (config_error t) = http 503 t

abbrev pub google : Text
google = codes "google"

-- `email.split("@", 1)[0]`
unfoldable pub local_part : Text → Text
local_part [] = []
local_part (c ∷ s) = let rest = local_part s in if c == b'@' then [] else c ∷ rest

-- `t or default`
abbrev pub or_text : Text → Text → Text
or_text [] d = d
or_text (c ∷ t) d = c ∷ t

-- `(cleaned + "000")[:3]` where it is shorter than 3.
abbrev pub padded : Text → Text
padded t = if ltb (length t) 3 then take 3 (t ++ codes "000") else t

-- `_username_from_email`
unfoldable pub username_from_email : Text → Text
username_from_email email =
    take 64 (padded (or_text (keep username_char (local_part email)) (codes "user")))

module _ (K : Crypto) (J : Jwt) (P : PendingCache) where
  -- `_create_sso_account_with_unique_username`: on a taken name once more, with a drawn suffix;
  -- what the second attempt raises is not handled but by its type.
  unfoldable pub create_unique :
      Text → InviteRecord → OidcIdentity → Exec Graph CreateError UserAccount
  create_unique suffix invite identity g =
      let username = username_from_email identity.email in
      let again =
        create_sso_user K (username ++ (codes "." ++ suffix)) invite.tenant_id invite.role
          identity.email google identity.sub in
      let (r, g') =
        create_sso_user K username invite.tenant_id invite.role identity.email google identity.sub
          g in
      elim r [
        | ok account ↦ (ok account, g')
        | err e ↦ elim e [ username_exists t ↦ again g' | other ↦ (err other, g') ]
      ]

  -- No clause around it: every error is a server error.
  unfoldable pub create_linked :
      Text → InviteRecord → OidcIdentity → Exec (App P) HttpError UserAccount
  create_linked suffix invite identity s =
      let (r, g) = create_unique suffix invite identity s.graph in
      (
        elim r [ ok a ↦ ok a | err e ↦ err (http 500 (codes "Internal Server Error")) ],
        record s { graph = g },
      )

  -- The sign-in of an identity with no account yet.
  unfoldable pub join_by_invite :
      Text → ℕ → OidcCallbackResult → Exec (App P) HttpError TokenResponse
  join_by_invite suffix now result = do
    token ← or_raise (truthy result.invite_token) (
        http 403
          (codes "No account linked to this Google identity and no invite was used to sign in"))
    found ← take_invite K P now token
    invite ← or_raise found no_invite
    raise_if (not (lower invite.email == lower result.identity.email))
        (http 403 (codes "Invite email does not match the Google account used to sign in"))
    account ← create_linked suffix invite result.identity
    pure (granted K J P now account)

  unfoldable pub sign_in : Text → ℕ → OidcCallbackResult → Exec (App P) HttpError TokenResponse
  sign_in suffix now result = do
    raise_if (not result.identity.email_verified)
        (http 401 (codes "Google account email is not verified"))
    existing ← gets (λ s. get_user_by_sso K google result.identity.sub s.graph)
    elim existing [
      | some account ↦ pure (granted K J P now account)
      | none ↦ join_by_invite suffix now result
    ]

  unfoldable pub oidc_callback :
      Text → ℕ → Result OidcError OidcCallbackResult → Exec (App P) HttpError TokenResponse
  oidc_callback suffix now (err e) s = (err (oidc_failed e), s)
  oidc_callback suffix now (ok result) s = sign_in suffix now result s
