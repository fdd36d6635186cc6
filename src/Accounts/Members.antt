-- ===== src/Accounts/Members.antt =====
-- api/auth_api.py: how accounts come to be, by self-service registration and by invites.
pub mod Joining
pub mod Inviting
use contract_agent_capstone.Prelude.{ℕ, Bool, true, false, Option, none, some, ◌++◌}
use contract_agent_capstone.Prelude.Text.{Text, codes, upper}
use contract_agent_capstone.Exec.{ok, err, Exec, ◌>>=◌, pure, or_raise, gets}
use contract_agent_capstone.Governance.Http.{HttpError, http}
use contract_agent_capstone.Governance.Rbac.{parse_role, role_value, manage_users}
use contract_agent_capstone.Governance.Token.{Jwt, TokenIdentity, requires_permission, truthy}
use contract_agent_capstone.Accounts.Crypto.{Crypto}
use contract_agent_capstone.Accounts.Users.{UserAccount, create_user}
use contract_agent_capstone.Accounts.Invites.{
  InviteRecord, default_invite_ttl_days, create_invite, get_invite, consume_invite,
}
use contract_agent_capstone.Accounts.App.{
  PendingCache, App, on_graph, create_failed, bad_role, no_invite,
}

pub record InviteCreateResponse : Type 0 where
  pub email : Text
  pub tenant_id : Text
  pub role : Text
  pub email_sent : Bool

pub record InvitePreviewResponse : Type 0 where
  pub email : Text
  pub tenant_id : Text
  pub role : Text

module _ (K : Crypto) (P : PendingCache) where
  -- `register` on its payload: username, password, tenant and role.
  unfoldable pub register : Text → Text → Text → Text → Text → Exec (App P) HttpError UserAccount
  register salt username password tenant_id role = do
    r ← or_raise (parse_role (upper role)) (bad_role role)
    on_graph P create_failed
        (create_user K salt username password tenant_id (role_value r) none true)

  -- The consuming write, as a step of a handler.
  unfoldable pub take_invite : ℕ → Text → Exec (App P) HttpError (Option InviteRecord)
  take_invite now token s =
      let (found, g) = consume_invite K now token s.graph in (ok found, record s { graph = g })

  unfoldable pub preview_invite : ℕ → Text → Exec (App P) HttpError InvitePreviewResponse
  preview_invite now token = do
    found ← gets (λ s. get_invite K now token s.graph)
    invite ← or_raise found no_invite
    pure (record { email = invite.email; tenant_id = invite.tenant_id; role = invite.role })

  -- The tenant and the role come from the invite that is stored.
  unfoldable pub accept_invite : Text → ℕ → Text → Text → Text → Exec (App P) HttpError UserAccount
  accept_invite salt now token username password = do
    found ← take_invite now token
    invite ← or_raise found no_invite
    on_graph P create_failed (
        create_user K salt username password invite.tenant_id invite.role (some invite.email) false)

  module _ (J : Jwt) (send_email : Text → Text → Text → Text → Bool) where
    -- `identity.username or f"tenant:{identity.tenant_id}"`
    abbrev pub inviter : TokenIdentity → Text
    inviter i = elim (truthy i.username) [ some u ↦ u | none ↦ codes "tenant:" ++ i.tenant_id ]

    -- The route behind `Depends(requires_permission(Permission.MANAGE_USERS))`; the e-mail service
    -- says whether it could send.
    unfoldable pub invite_as :
        Text → ℕ → Text → Text → TokenIdentity → Exec (App P) HttpError InviteCreateResponse
    invite_as drawn now email role identity = do
      r ← or_raise (parse_role (upper role)) (bad_role role)
      raw_token ←
          on_graph P (λ (t : Text). http 500 t)
            (create_invite K drawn now email identity.tenant_id (role_value r) (inviter identity)
              default_invite_ttl_days)
      pure (record {
        email = email;
        tenant_id = identity.tenant_id;
        role = role_value r;
        email_sent = send_email email identity.tenant_id (role_value r) raw_token;
      })

    unfoldable pub post_invite :
        Text → ℕ → Option Text → Text → Text → Exec (App P) HttpError InviteCreateResponse
    post_invite drawn now header email role s =
        elim (requires_permission J manage_users now header) [
          | err e ↦ (err e, s)
          | ok identity ↦ invite_as drawn now email role identity s
        ]
