-- ===== src/Tests/Accounts.antt =====
-- Accounts, invites and logins, with the libraries of the fixtures.
use contract_agent_capstone.Prelude.{◌≡◌, refl, Bool, true, none, some, [], ◌∷◌, arith}
use contract_agent_capstone.Prelude.Text.{Text, codes, text_eq, strip, upper}
use contract_agent_capstone.Exec.{ok, err}
use contract_agent_capstone.Governance.Rbac.{parse_role}
use contract_agent_capstone.Governance.Token.{create_access_token}
use contract_agent_capstone.Governance.Token.Laws.{bearer}
use contract_agent_capstone.Accounts.Graph.{Invite, match_invite, match_username, match_tenant}
use contract_agent_capstone.Accounts.Users.{
  UserAccount, create_user, check_unused, check_bootstrap, tenant_has_any_users, store,
  valid_username,
}
use contract_agent_capstone.Accounts.Invites.{record_of, get_invite, consume_invite}
use contract_agent_capstone.Accounts.Invites.SingleUse.{preview-consume}
use contract_agent_capstone.Accounts.App.{App, no_invite, on_graph}
use contract_agent_capstone.Accounts.Members.{register, accept_invite, post_invite}
use contract_agent_capstone.Accounts.Members.Joining.{
  Registered, register_bootstraps, Joined, accept_invite-Joined, accept_invite_once,
}
use contract_agent_capstone.Accounts.Members.Inviting.{InvitedBy, post_invite_own_tenant}
use contract_agent_capstone.Accounts.Login.{granted, issue_token, mfa_verify, pending_key}
use contract_agent_capstone.Accounts.Login.Steps.{
  LoggedIn, issue_token-LoggedIn, unknown_challenge, mfa_verify_once, register_then_login,
}
use contract_agent_capstone.Accounts.Graph.Rows.{IsUnique}
use contract_agent_capstone.Accounts.Sso.{OidcIdentity, username_from_email}
use contract_agent_capstone.Accounts.Sso.Username.{username_from_email-valid_username}
use contract_agent_capstone.Accounts.Requests.{registers, accepts, signs_in, serve_all}
use contract_agent_capstone.Accounts.Requests.Names.{serve_all-IsUnique}
use contract_agent_capstone.Tests.Fixtures.{
  plain_jwt, plain_crypto, plain_crypto-IsCorrect, plain_cache, plain_cache-IsKept, Pending,
}

abbrev ann : Text
ann = codes "ann.b"

abbrev secret_word : Text
secret_word = codes "password1"

abbrev acme : Text
acme = codes "acme"

abbrev no_pending : Pending
no_pending j = none

abbrev start : App plain_cache
start = record { graph = record { users = []; invites = [] }; pending = no_pending }

abbrev invite : Invite
invite = record {
  token_hash = codes "tok";
  email = codes "bob@x.y";
  tenant_id = acme;
  role = codes "AUDITOR";
  invited_by = ann;
  expires_at = 500;
  used_at = none;
}

abbrev invited : App plain_cache
invited = record { graph = record { users = []; invites = invite ∷ [] }; pending = no_pending }

abbrev admin_header : Text
unfolding create_access_token
admin_header = bearer (create_access_token plain_jwt 10 acme (codes "ADMIN") none (some ann))

preview-consume_example :
    (consume_invite plain_crypto 100 (codes "tok") invited.graph).0
    ≡ some (record (record_of invite) { used_at = some 100 })
unfolding get_invite match_invite
preview-consume_example =
    preview-consume plain_crypto 100 (codes "tok") invited.graph (record_of invite) refl
      (λ h. ground (arith, h))

register_bootstraps_example :
    Registered plain_crypto plain_cache [] ann secret_word acme start
      (register plain_crypto plain_cache [] ann secret_word acme (codes "admin") start)
register_bootstraps_example =
    register_bootstraps plain_crypto plain_cache [] ann secret_word acme (codes "admin") start

accept_invite-Joined_example :
    Joined plain_crypto plain_cache [] 100 (codes "tok") (codes "bob") secret_word invited (
      accept_invite plain_crypto plain_cache [] 100 (codes "tok") (codes "bob") secret_word invited)
accept_invite-Joined_example =
    accept_invite-Joined plain_crypto plain_cache [] 100 (codes "tok") (codes "bob") secret_word
      invited

accept_invite_once_example :
    let s' =
      (accept_invite plain_crypto plain_cache [] 100
        (codes "tok")
        (codes "bob")
        secret_word
        invited).1 in
    accept_invite plain_crypto plain_cache [] 120 (codes "tok") (codes "eve") secret_word s'
    ≡ (err no_invite, s')
accept_invite_once_example =
    accept_invite_once plain_crypto plain_cache [] [] 100 120 (codes "tok") (codes "bob")
      secret_word (codes "eve") secret_word invited (omega arith)

abbrev sent : Text → Text → Text → Text → Bool
sent email tenant_id role token = true

post_invite_own_tenant_example :
    InvitedBy plain_crypto plain_cache plain_jwt sent
      (codes "tok")
      20
      (some admin_header)
      (codes "bob@x.y")
      start
      (post_invite plain_crypto plain_cache plain_jwt sent
        (codes "tok")
        20
        (some admin_header)
        (codes "bob@x.y")
        (codes "auditor")
        start)
post_invite_own_tenant_example =
    post_invite_own_tenant plain_crypto plain_cache plain_jwt sent (codes "tok") 20
      (some admin_header) (codes "bob@x.y") (codes "auditor") start

issue_token-LoggedIn_example :
    LoggedIn plain_crypto plain_jwt plain_cache
      (codes "c")
      30
      ann
      secret_word
      start
      (issue_token plain_crypto plain_jwt plain_cache (codes "c") 30 ann secret_word start)
issue_token-LoggedIn_example =
    issue_token-LoggedIn plain_crypto plain_jwt plain_cache (codes "c") 30 ann secret_word start

abbrev challenged : App plain_cache
challenged = record start {
  pending = plain_cache.set 30 (pending_key (codes "c")) (some ann) 300 no_pending;
}

mfa_verify_once_example :
    let s' =
      (mfa_verify plain_crypto plain_jwt plain_cache 40 1 (codes "c") (codes "1") challenged).1 in
    mfa_verify plain_crypto plain_jwt plain_cache 41 1 (codes "c") (codes "2") s'
    ≡ (err unknown_challenge, s')
mfa_verify_once_example =
    mfa_verify_once plain_crypto plain_jwt plain_cache plain_cache-IsKept 40 1 41 1 (codes "c")
      (codes "1") (codes "2") challenged (λ h. cc)

abbrev ann_account : UserAccount
ann_account = record { username = ann; tenant_id = acme; role = codes "ADMIN" }

register_then_login_example :
    let s' = (register plain_crypto plain_cache [] ann secret_word acme (codes "admin") start).1 in
    issue_token plain_crypto plain_jwt plain_cache (codes "c") 30 ann secret_word s'
    ≡ (ok (granted plain_crypto plain_jwt plain_cache 30 ann_account), s')
unfolding register on_graph create_user check_unused check_bootstrap tenant_has_any_users store
    valid_username strip upper parse_role match_username match_tenant
register_then_login_example =
    register_then_login plain_crypto plain_jwt plain_cache plain_crypto-IsCorrect [] ann secret_word
      acme (codes "admin") (codes "c") 30 start ann_account refl

abbrev bob : OidcIdentity
bob = record { sub = codes "42"; email = codes "bob@x.y"; email_verified = true }

serve_all-IsUnique_example :
    IsUnique
      (serve_all plain_crypto plain_cache plain_jwt sent
        (registers [] ann secret_word acme (codes "admin")
          ∷ accepts [] 100 (codes "tok") (codes "ann.b") secret_word
          ∷ signs_in
              (codes "x")
              120
              (ok (record { identity = bob; invite_token = some (codes "tok") }))
          ∷ [])
        invited).graph.users
serve_all-IsUnique_example =
    serve_all-IsUnique plain_crypto plain_cache plain_jwt sent
      (registers [] ann secret_word acme (codes "admin")
        ∷ accepts [] 100 (codes "tok") (codes "ann.b") secret_word
        ∷ signs_in (codes "x") 120
            (ok (record { identity = bob; invite_token = some (codes "tok") }))
        ∷ [])
      invited tt

username_from_email-valid_username_example :
    valid_username (username_from_email (codes "a b@x.y")) ≡ true
username_from_email-valid_username_example = username_from_email-valid_username (codes "a b@x.y")
