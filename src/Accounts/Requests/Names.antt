-- ===== src/Accounts/Requests/Names.antt =====
-- The names of the accounts along a sequence of requests.
use contract_agent_capstone.Prelude.{
  ℕ, ◌++◌, ◌≡◌, Bool, true, false, Option, none, some, List, [], ◌∷◌, inl, inr, arith, Option-cases,
}
use contract_agent_capstone.Prelude.Text.{codes, Text, upper}
use contract_agent_capstone.Exec.{Result, ok, err, Result-cases}
use contract_agent_capstone.Governance.Rbac.{parse_role, role_value}
use contract_agent_capstone.Governance.Token.{Jwt, TokenIdentity, truthy}
use contract_agent_capstone.Accounts.Graph.{Graph, add_invite}
use contract_agent_capstone.Accounts.Graph.Rows.{IsUnique}
use contract_agent_capstone.Governance.Mfa.{verify_totp_code, default_valid_window}
use contract_agent_capstone.Accounts.Crypto.{Crypto}
use contract_agent_capstone.Accounts.Users.{create_sso_user}
use contract_agent_capstone.Accounts.Users.Created.{create_user-Created, create_sso_user-Created}
use contract_agent_capstone.Accounts.Totp.{
  get_decrypted_totp_secret, get_totp_state, enable_mfa, consume_backup_code,
}
use contract_agent_capstone.Accounts.Invites.{InviteRecord, consume_invite, create_invite}
use contract_agent_capstone.Accounts.App.{PendingCache, App, on_graph}
use contract_agent_capstone.Accounts.Members.{
  register, accept_invite, take_invite, post_invite, invite_as,
}
use contract_agent_capstone.Accounts.Login.{
  last_step, pending_key, issue_token, mfa_setup, mfa_confirm, mfa_verify, verify_pending,
  second_factor, try_backup_code,
}
use contract_agent_capstone.Accounts.Sso.{
  OidcIdentity, OidcError, OidcCallbackResult, google, username_from_email, create_unique,
  create_linked, join_by_invite, sign_in, oidc_callback,
}
use contract_agent_capstone.Accounts.Requests.{
  Request, registers, accepts, invites, logs_in, sets_up, confirms, verifies, signs_in, serve,
  serve_all,
}
use contract_agent_capstone.Accounts.Requests.Named.{
  IsNamed, Created-IsNamed, record_totp_step_used-IsNamed, consume_invite-IsNamed,
  enable_mfa-IsNamed, consume_backup_code-IsNamed, set_pending-IsNamed,
}

module _ (K : Crypto) (P : PendingCache) (J : Jwt)
    (send_email : Text → Text → Text → Text → Bool) where
  register-IsNamed :
      (salt username password tenant_id role : Text) (s : App P)
      → IsNamed s.graph
      → IsNamed (register K P salt username password tenant_id role s).1.graph
  unfolding register on_graph
  register-IsNamed salt username password tenant_id role s w =
      elim (Option-cases (parse_role (upper role))) [
        | inl e ↦ rw (e, register) w
        | inr (r, e) ↦
            rw (e, register)
              (Created-IsNamed true _ s.graph _
                (create_user-Created K salt username password tenant_id (role_value r) none true
                  s.graph)
                w)
      ]

  accept_invite-IsNamed :
      (salt : Text) (now : ℕ) (token username password : Text) (s : App P)
      → IsNamed s.graph
      → IsNamed (accept_invite K P salt now token username password s).1.graph
  unfolding accept_invite take_invite on_graph
  accept_invite-IsNamed salt now token username password s w =
      let g = (consume_invite K now token s.graph).1 in
      let w' = consume_invite-IsNamed K now token s.graph w in
      elim (Option-cases ((consume_invite K now token s.graph).0)) [
        | inl e ↦ rw (e, accept_invite, take_invite) w'
        | inr (i, e) ↦
            rw (e, accept_invite, take_invite)
              (Created-IsNamed false _ g _
                (create_user-Created K salt username password i.tenant_id i.role (some i.email)
                  false g)
                w')
      ]

  post_invite_users :
      (drawn : Text) (now : ℕ) (header : Option Text) (email role : Text) (s : App P)
      → (post_invite K P J send_email drawn now header email role s).1.graph.users ≡ s.graph.users
  unfolding post_invite invite_as on_graph create_invite add_invite
  post_invite_users drawn now header email role s = ground arith

  issue_token_graph :
      (drawn : Text) (now : ℕ) (username password : Text) (s : App P)
      → (issue_token K J P drawn now username password s).1.graph ≡ s.graph
  unfolding issue_token
  issue_token_graph drawn now username password s = ground arith

  mfa_setup-IsNamed :
      (nonce secret : Text) (identity : TokenIdentity) (s : App P)
      → IsNamed s.graph
      → IsNamed (mfa_setup K J P nonce secret identity s).1.graph
  unfolding mfa_setup
  mfa_setup-IsNamed nonce secret identity s w = elim (Option-cases (truthy identity.username)) [
    | inl e ↦ rw (e, mfa_setup) w
    | inr (u, e) ↦ rw (e, mfa_setup) (set_pending-IsNamed K nonce u secret s.graph w)
  ]

  mfa_confirm-IsNamed :
      (salt : ℕ → Text) (drawn : List Text) (current : ℕ) (code : Text) (identity : TokenIdentity)
      (s : App P)
      → IsNamed s.graph
      → IsNamed (mfa_confirm K J P salt drawn current code identity s).1.graph
  unfolding mfa_confirm
  mfa_confirm-IsNamed salt drawn current code identity s w =
      elim (Option-cases (truthy identity.username)) [
        | inl e ↦ rw (e, mfa_confirm) w
        | inr (u, e) ↦ elim (Option-cases (get_decrypted_totp_secret K u s.graph)) [
          | inl d ↦ ground (arith, e, d, w)
          | inr (o, d) ↦ elim (Option-cases o) [
            | inl x ↦ ground (arith, e, d, x, w)
            | inr (secret, x) ↦
                elim (Result-cases
                  (verify_totp_code K.totp_at secret code none default_valid_window current)) [
                    | inr (m, v) ↦ ground (arith, e, d, x, v, w)
                    | inl (none, v) ↦ ground (arith, e, d, x, v, w)
                    | inl (some step, v) ↦
                        let on = enable_mfa-IsNamed K salt u drawn s.graph w in
                        let used =
                          record_totp_step_used-IsNamed u step (enable_mfa K salt u drawn s.graph)
                            on in
                        ground (arith, e, d, x, v, used)
                  ]
          ]
        ]
      ]

  second_factor-IsNamed :
      (username code : Text) (step : Option ℕ) (s : App P)
      → IsNamed s.graph
      → IsNamed (second_factor K J P username code step s).1.graph
  unfolding second_factor try_backup_code
  second_factor-IsNamed username code (some step) s w =
      record_totp_step_used-IsNamed username step s.graph w
  second_factor-IsNamed username code none s w =
      let w' = consume_backup_code-IsNamed K username code s.graph w in
      elim (Result-cases ((consume_backup_code K username code s.graph).0)) [
        | inr (m, e) ↦ ground (arith, e, w')
        | inl (true, e) ↦ ground (arith, e, w')
        | inl (false, e) ↦ ground (arith, e, w')
      ]

  verify_pending-IsNamed :
      (now current : ℕ) (username code : Text) (s : App P)
      → IsNamed s.graph
      → IsNamed (verify_pending K J P now current username code s).1.graph
  unfolding verify_pending
  verify_pending-IsNamed now current username code s w =
      let state = get_totp_state username s.graph in
      elim (Option-cases (get_decrypted_totp_secret K username s.graph)) [
        | inl d ↦ ground (arith, d, w)
        | inr (o, d) ↦ elim (Option-cases o) [
          | inl x ↦ ground (arith, d, x, w)
          | inr (secret, x) ↦
              elim (Result-cases (
                verify_totp_code K.totp_at secret code (last_step K J P state) default_valid_window
                  current)) [
                    | inr (m, v) ↦ ground (arith, d, x, v, w)
                    | inl (step, v) ↦
                        let after = second_factor-IsNamed username code step s w in
                        ground (arith, d, x, v, w, after)
                  ]
        ]
      ]

  mfa_verify-IsNamed :
      (now current : ℕ) (mfa_token code : Text) (s : App P)
      → IsNamed s.graph
      → IsNamed (mfa_verify K J P now current mfa_token code s).1.graph
  unfolding mfa_verify
  mfa_verify-IsNamed now current mfa_token code s w =
      elim (Option-cases (P.get now (pending_key mfa_token) s.pending)) [
        | inl e ↦ rw (e, mfa_verify) w
        | inr (u, e) ↦ rw (e, mfa_verify) (verify_pending-IsNamed now current u code _ w)
      ]

  create_unique-IsNamed :
      (suffix : Text) (invite : InviteRecord) (identity : OidcIdentity) (g : Graph)
      → IsNamed g
      → IsNamed (create_unique K J P suffix invite identity g).1
  unfolding create_unique
  create_unique-IsNamed suffix invite identity g w =
      let name = username_from_email identity.email in
      let longer = name ++ (codes "." ++ suffix) in
      let create = λ (n : Text).
        create_sso_user K n invite.tenant_id invite.role identity.email google identity.sub in
      let created = λ (n : Text).
        create_sso_user-Created K n invite.tenant_id invite.role identity.email google
          identity.sub in
      let first_try = Created-IsNamed false _ g _ (created name g) w in
      let again =
        Created-IsNamed false _ (create name g).1 _ (created longer (create name g).1) first_try in
      ground (arith, first_try, again)

  join_by_invite-IsNamed :
      (suffix : Text) (now : ℕ) (result : OidcCallbackResult) (s : App P)
      → IsNamed s.graph
      → IsNamed (join_by_invite K J P suffix now result s).1.graph
  unfolding join_by_invite take_invite create_linked
  join_by_invite-IsNamed suffix now result s w = elim (Option-cases (truthy result.invite_token)) [
    | inl e ↦ rw (e, join_by_invite) w
    | inr (token, e) ↦
        let w' = consume_invite-IsNamed K now token s.graph w in
        elim (Option-cases ((consume_invite K now token s.graph).0)) [
          | inl f ↦ ground (arith, e, f, w')
          | inr (i, f) ↦
              let made =
                create_unique-IsNamed suffix i result.identity
                  (consume_invite K now token s.graph).1 w' in
              ground (arith, e, f, w', made)
        ]
  ]

  oidc_callback-IsNamed :
      (suffix : Text) (now : ℕ) (outcome : Result OidcError OidcCallbackResult) (s : App P)
      → IsNamed s.graph
      → IsNamed (oidc_callback K J P suffix now outcome s).1.graph
  unfolding oidc_callback sign_in
  oidc_callback-IsNamed suffix now (err e) s w = w
  oidc_callback-IsNamed suffix now (ok result) s w =
      ground (arith, w, join_by_invite-IsNamed suffix now result s w)

  serve-IsNamed :
      (r : Request) (s : App P) → IsNamed s.graph → IsNamed (serve K P J send_email r s).graph
  unfolding serve
  serve-IsNamed (registers salt username password tenant_id role) s w =
      register-IsNamed salt username password tenant_id role s w
  serve-IsNamed (accepts salt now token username password) s w =
      accept_invite-IsNamed salt now token username password s w
  serve-IsNamed (invites drawn now header email role) s w = record {
    unique = rw (post_invite_users drawn now header email role s) w.unique;
  }
  serve-IsNamed (logs_in drawn now username password) s w =
      rw (issue_token_graph drawn now username password s) w
  serve-IsNamed (sets_up nonce secret identity) s w = mfa_setup-IsNamed nonce secret identity s w
  serve-IsNamed (confirms salt drawn current code identity) s w =
      mfa_confirm-IsNamed salt drawn current code identity s w
  serve-IsNamed (verifies now current mfa_token code) s w =
      mfa_verify-IsNamed now current mfa_token code s w
  serve-IsNamed (signs_in suffix now outcome) s w = oidc_callback-IsNamed suffix now outcome s w

  serve_all-IsNamed :
      (rs : List Request) (s : App P)
      → IsNamed s.graph
      → IsNamed (serve_all K P J send_email rs s).graph
  unfolding serve_all
  serve_all-IsNamed [] s w = w
  serve_all-IsNamed (r ∷ rs) s w =
      serve_all-IsNamed rs (serve K P J send_email r s) (serve-IsNamed r s w)

  -- Where no two users have one name, whatever requests are served one after the other, by any of the
  -- routes, no two users have one name afterwards.
  pub serve_all-IsUnique :
      (requests : List Request) (s : App P)
      → IsUnique s.graph.users
      → IsUnique (serve_all K P J send_email requests s).graph.users
  serve_all-IsUnique requests s w = (serve_all-IsNamed requests s (record { unique = w })).unique
