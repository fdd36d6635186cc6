-- ===== src/Accounts/Members/Inviting.antt =====
-- Who may invite, and for which tenant.
use contract_agent_capstone.Prelude.{
  ℕ, ◌+◌, ◌*◌, ◌++◌, Option, ◌≡◌, refl, Bool, none, some, inl, inr, arith,
}
use contract_agent_capstone.Prelude.Text.{Text, codes, upper, strip, lower}
use contract_agent_capstone.Exec.{Result, ok, err, Result-cases}
use contract_agent_capstone.Governance.Http.{HttpError}
use contract_agent_capstone.Governance.Rbac.{admin, parse_role, manage_users}
use contract_agent_capstone.Governance.Rbac.Laws.{privileged_is_admin}
use contract_agent_capstone.Governance.Token.{Jwt, Claims, TokenIdentity, requires_permission}
use contract_agent_capstone.Governance.Token.Laws.{requires_permission_token}
use contract_agent_capstone.Accounts.Graph.{Invite, add_invite}
use contract_agent_capstone.Accounts.Crypto.{Crypto}
use contract_agent_capstone.Accounts.Invites.{create_invite, default_invite_ttl_days}
use contract_agent_capstone.Accounts.App.{PendingCache, App, on_graph}
use contract_agent_capstone.Accounts.Members.{InviteCreateResponse, inviter, invite_as, post_invite}

module _ (K : Crypto) (P : PendingCache) (J : Jwt)
    (send_email : Text → Text → Text → Text → Bool) where
  -- The invite that a request stores for an identity.
  abbrev pub issued : Text → ℕ → Text → TokenIdentity → Text → Invite
  issued drawn now email identity role = record {
    token_hash = K.sha256 drawn;
    email = lower (strip email);
    tenant_id = identity.tenant_id;
    role = role;
    invited_by = inviter K P J send_email identity;
    expires_at = now + default_invite_ttl_days * (24 * 3600);
    used_at = none;
  }

  -- An error leaves the state as it was; otherwise one invite for the caller's tenant was stored.
  abbrev Invited :
      Text
      → ℕ
      → Text
      → TokenIdentity
      → App P
      → Result HttpError InviteCreateResponse × App P
      → Type 0
  Invited drawn now email identity s (err e, s') = s' ≡ s
  Invited drawn now email identity s (ok r, s') =
      (r.tenant_id ≡ identity.tenant_id)
      × (s' ≡ record s { graph = add_invite (issued drawn now email identity r.role) s.graph })

  invite_as-Invited :
      (drawn : Text) (now : ℕ) (email role : Text) (identity : TokenIdentity) (s : App P)
      → Invited drawn now email identity s
          (invite_as K P J send_email drawn now email role identity s)
  unfolding invite_as create_invite on_graph
  invite_as-Invited drawn now email role identity s = ground arith

  -- What a request for an invite did. An error left the state as it was. Otherwise the request came
  -- with a header whose token decodes to an administrator's claims, and the one change is an invite
  -- for the tenant that those claims name.
  abbrev pub InvitedBy :
      Text → ℕ → Option Text → Text → App P → Result HttpError InviteCreateResponse × App P → Type 0
  InvitedBy drawn now header email s (err e, s') = s' ≡ s
  InvitedBy drawn now header email s (ok r, s') =
      (token : Text) × (c : Claims) × (identity : TokenIdentity) × (header
        ≡ some (codes "Bearer " ++ token))
      × (J.decode now token ≡ ok c)
      × (c.tenant_id ≡ some identity.tenant_id)
      × (c.role ≡ some identity.role)
      × (c.username ≡ identity.username)
      × (parse_role (upper identity.role) ≡ some admin)
      × (r.tenant_id ≡ identity.tenant_id)
      × (s' ≡ record s { graph = add_invite (issued drawn now email identity r.role) s.graph })

  after_check :
      (drawn : Text) (now : ℕ) (header : Option Text) (email : Text) (identity : TokenIdentity)
      (s : App P) (r : Result HttpError InviteCreateResponse × App P)
      → requires_permission J manage_users now header ≡ ok identity
      → Invited drawn now email identity s r
      → InvitedBy drawn now header email s r
  after_check drawn now header email identity s (err e, s') h i = i
  after_check drawn now header email identity s (ok r, s') h (t, g) =
      let (token, c, role, carried, (decodes, tenant, named, user, parsed, granted)) =
        requires_permission_token J manage_users now header identity h in
      (
        token,
        c,
        identity,
        carried,
        decodes,
        tenant,
        named,
        user,
        rw parsed (rw (privileged_is_admin role manage_users (inr (inr refl)) granted)),
        t,
        g,
      )

  -- An invite is stored just for a request with a header whose token decodes to an administrator's
  -- claims, and it is for the tenant that those claims name; a refused request, one without a
  -- header included, changes nothing.
  pub post_invite_own_tenant :
      (drawn : Text) (now : ℕ) (header : Option Text) (email role : Text) (s : App P)
      → InvitedBy drawn now header email s
          (post_invite K P J send_email drawn now header email role s)
  unfolding post_invite
  post_invite_own_tenant drawn now header email role s =
      elim (Result-cases (requires_permission J manage_users now header)) [
        | inr (e, h) ↦ rw (h, post_invite)
        | inl (i, h) ↦
            rw (h, post_invite)
              (after_check drawn now header email i s _ h
                (invite_as-Invited drawn now email role i s))
      ]
