-- ===== src/Accounts/Members/Joining.antt =====
-- How accounts come to be: registering for a tenant of one's own, and spending an invite.
use contract_agent_capstone.Prelude.{
  ℕ, ◌≤◌, ◌≡◌, refl, true, false, none, some, inl, inr, Option-cases, [], arith,
}
use contract_agent_capstone.Prelude.Text.{Text, upper, strip}
use contract_agent_capstone.Exec.{Result, ok, err, Result-cases}
use contract_agent_capstone.Governance.Http.{HttpError}
use contract_agent_capstone.Governance.Rbac.{parse_role, role_value}
use contract_agent_capstone.Accounts.Graph.{User, Graph, match_username, match_tenant, add_user}
use contract_agent_capstone.Accounts.Crypto.{Crypto}
use contract_agent_capstone.Accounts.Users.{UserAccount, password_user, create_user}
use contract_agent_capstone.Accounts.Users.Created.{create_user-Created}
use contract_agent_capstone.Accounts.Invites.{InviteRecord, consume_invite}
use contract_agent_capstone.Accounts.Invites.SingleUse.{consume_once}
use contract_agent_capstone.Accounts.App.{PendingCache, App, on_graph, no_invite}
use contract_agent_capstone.Accounts.Members.{register, take_invite, accept_invite}

module _ (K : Crypto) (P : PendingCache) where
  -- After an error nothing changed. Otherwise the tenant had no member and the name was free, and
  -- the one change is the node of the account returned, which is of that tenant.
  abbrev pub Registered :
      Text → Text → Text → Text → App P → Result HttpError UserAccount × App P → Type 0
  Registered salt username password tenant_id s (err e, s') = s' ≡ s
  Registered salt username password tenant_id s (ok a, s') =
      (a.tenant_id ≡ tenant_id)
      × (a.username ≡ strip username)
      × (match_tenant tenant_id s.graph ≡ [])
      × (match_username a.username s.graph ≡ [])
      × (s'.pending ≡ s.pending)
      × (s'.graph
          ≡ add_user (password_user K salt (strip username) password tenant_id a.role none) s.graph)

  -- Self-service registration gives out an account just for a tenant that has no member yet, under
  -- a name that is free; it adds that one node, and any refusal leaves the state as it was.
  pub register_bootstraps :
      (salt username password tenant_id role : Text) (s : App P)
      → Registered salt username password tenant_id s
          (register K P salt username password tenant_id role s)
  unfolding register on_graph
  register_bootstraps salt username password tenant_id role s =
      elim (Option-cases (parse_role (upper role))) [
        | inl e ↦ rw (e, register)
        | inr (r, e) ↦
            let made =
              create_user-Created K salt username password tenant_id (role_value r) none true
                s.graph in
            ground (arith, e, made)
      ]

  -- After an error no user was added. Otherwise an invite was consumed, and the node added is of
  -- the tenant and the role which that invite names.
  abbrev pub Joined :
      Text → ℕ → Text → Text → Text → App P → Result HttpError UserAccount × App P → Type 0
  Joined salt now token username password s (err e, s') =
      s'.graph ≡ (consume_invite K now token s.graph).1
  Joined salt now token username password s (ok a, s') =
      (i : InviteRecord) × ((consume_invite K now token s.graph).0 ≡ some i)
      × (a.tenant_id ≡ i.tenant_id)
      × (a.role ≡ i.role)
      × (s'.graph
          ≡ add_user
              (password_user K salt (strip username) password i.tenant_id i.role (some i.email))
              (consume_invite K now token s.graph).1)

  -- Accepting an invite gives an account of the tenant and the role that the invite names,
  -- whatever the request says; the invite is spent also when the account cannot be created.
  pub accept_invite-Joined :
      (salt : Text) (now : ℕ) (token username password : Text) (s : App P)
      → Joined salt now token username password s
          (accept_invite K P salt now token username password s)
  unfolding accept_invite take_invite on_graph
  accept_invite-Joined salt now token username password s =
      elim (Option-cases ((consume_invite K now token s.graph).0)) [
        | inl e ↦ rw (e, accept_invite, take_invite)
        | inr (i, e) ↦
            let made =
              create_user-Created K salt username password i.tenant_id i.role (some i.email) false
                (consume_invite K now token s.graph).1 in
            elim (Result-cases (
              (create_user K salt username password i.tenant_id i.role (some i.email) false
                (consume_invite K now token s.graph).1).0)) [
                  | inl (a, c) ↦
                      rw (e, accept_invite, take_invite, on_graph, c)
                        (
                          i,
                          ground (arith, e),
                          ground (arith, e, made, c),
                          ground (arith, e, made, c),
                          ground (arith, e, made, c),
                        )
                  | inr (x, c) ↦
                      rw (e, accept_invite, take_invite, on_graph, c) (ground (arith, e, made, c))
                ]
      ]

  -- Consuming an invite does not look at the accounts.
  consume-add_user :
      (now : ℕ) (token : Text) (u : User) (g : Graph)
      → consume_invite K now token (add_user u g)
        ≡ ((consume_invite K now token g).0, add_user u (consume_invite K now token g).1)
  unfolding consume_invite add_user
  consume-add_user now token u g = refl

  -- A token that has been spent by an acceptance is dead in the state that this leaves.
  Joined-consume :
      (salt : Text) (now later : ℕ) (token username password : Text) (s : App P)
      (r : Result HttpError UserAccount × App P)
      → now ≤ later
      → Joined salt now token username password s r
      → consume_invite K later token r.1.graph ≡ (none, r.1.graph)
  Joined-consume salt now later token username password s (err e, s') le h =
      rw h (consume_once K now later token s.graph le)
  Joined-consume salt now later token username password s (ok a, s') le (i, _, _, _, h) =
      rw (h, consume-add_user) (rw (consume_once K now later token s.graph le))

  refused :
      (salt : Text) (now : ℕ) (token username password : Text) (s : App P)
      → consume_invite K now token s.graph ≡ (none, s.graph)
      → accept_invite K P salt now token username password s ≡ (err no_invite, s)
  unfolding accept_invite take_invite
  refused salt now token username password s h = ground (arith, h)

  -- Whatever became of the first acceptance of an invite's token, a later one is answered with
  -- status 404 and changes nothing.
  pub accept_invite_once :
      (salt salt' : Text) (now later : ℕ) (token username password username' password' : Text)
      (s : App P)
      → now ≤ later
      → let s' = (accept_invite K P salt now token username password s).1 in
        accept_invite K P salt' later token username' password' s' ≡ (err no_invite, s')
  accept_invite_once salt salt' now later token username password username' password' s le =
      refused salt' later token username' password'
        (accept_invite K P salt now token username password s).1
        (Joined-consume salt now later token username password s
          (accept_invite K P salt now token username password s) le
          (accept_invite-Joined salt now token username password s))
