-- ===== src/Accounts/Login/Steps.antt =====
-- What logging in gives out, and when.
use mathlib.Core.Path.{subst}
use mathlib.Core.List.{Memᴰ}
use contract_agent_capstone.Governance.Rbac.{parse_role, role_value}
use contract_agent_capstone.Prelude.{
  ap, ◌∙◌, ℕ, ◌≡◌, ◌≢◌, refl, true, none, some, inl, inr, ◌⊎◌, Option-cases, Bool-cases, [], ◌∷◌,
  arith, beq_refl,
}
use contract_agent_capstone.Prelude.Text.{Text, codes, strip, upper, text_eq}
use contract_agent_capstone.Exec.{Result, ok, err}
use contract_agent_capstone.Governance.Http.{HttpError, http}
use contract_agent_capstone.Governance.Token.{Jwt, truthy}
use contract_agent_capstone.Accounts.Graph.{User, Graph, first_row, named, match_username, add_user}
use contract_agent_capstone.Accounts.Graph.Rows.{keep-append}
use contract_agent_capstone.Accounts.Crypto.{Crypto, IsCorrect}
use contract_agent_capstone.Accounts.Users.Created.{create_user_hashed}
use contract_agent_capstone.Accounts.Users.{
  UserAccount, account_of, password_user, verify_credentials,
}
use contract_agent_capstone.Accounts.Totp.{get_totp_state}
use contract_agent_capstone.Accounts.App.{PendingCache, IsKept, App, on_graph}
use contract_agent_capstone.Accounts.Members.{register}
use contract_agent_capstone.Accounts.Members.Joining.{Registered, register_bootstraps}
use contract_agent_capstone.Accounts.Login.{
  TokenResponse, unhandled, pending_key, granted, issue_token, try_backup_code, second_factor,
  verify_pending, mfa_verify,
}
use contract_agent_capstone.Accounts.Login.Answers.{
  HasPassword, Answered, truthy-some, found_by_name, answer-Answered, failed_with, one_row, no_hash,
  other_hash, raised,
}

abbrev pub unknown_challenge : HttpError
unknown_challenge = http 401 (codes "Unknown or expired MFA challenge")

module _ (K : Crypto) (J : Jwt) (P : PendingCache) where
  -- An error leaves everything as it was: bcrypt raised, or the first node of the name, if there is
  -- one, does not have the password. Otherwise a node of the name has it, and gets its answer.
  abbrev pub LoggedIn :
      Text → ℕ → Text → Text → App P → Result HttpError TokenResponse × App P → Type 0
  LoggedIn drawn now username password s (err e, s') =
      (s' ≡ s)
      × (((e ≡ unhandled K J P) × (message : Text) × (K.refused password ≡ some message))
          ⊎ ((e ≡ http 401 (codes "Incorrect username or password"))
              × ((u : User)
                  → first_row (match_username (strip username) s.graph) ≡ some u
                  → ¬ HasPassword K J P password u)))
  LoggedIn drawn now username password s (ok r, s') =
      (u : User) × Memᴰ u s.graph.users
      × (u.username ≡ strip username)
      × HasPassword K J P password u
      × Answered K J P drawn now s u r s'

  -- Logging in by password gives an access token, for a day and with the claims of the account, just
  -- to an account of that name whose hash the password fits and that has no second factor enabled;
  -- with one, it gives a challenge alone, for five minutes. Otherwise it is an error that changes
  -- nothing: the first node of the name does not have the password, or bcrypt refused it.
  pub issue_token-LoggedIn :
      (drawn : Text) (now : ℕ) (username password : Text) (s : App P)
      → LoggedIn drawn now username password s (issue_token K J P drawn now username password s)
  unfolding verify_credentials
  issue_token-LoggedIn drawn now username password s =
      elim (Option-cases (first_row (match_username (strip username) s.graph))) [
        | inl e ↦
            rw (failed_with K J P drawn now username password s (ground (arith, e)))
              (refl, inr (refl, λ u h. cc))
        | inr (u, e) ↦ elim (Option-cases (truthy u.password_hash)) [
          | inl n ↦ rw (failed_with K J P drawn now username password s (ground (arith, e, n))) (
            refl,
            inr (
              refl,
              λ v h p.
                  no_hash K J P password u n
                    (subst (HasPassword K J P password) (one_row K J P h e) p),
            ),
          )
          | inr (hash, n) ↦ elim (Option-cases (K.refused password)) [
            | inr (m, x) ↦
                rw (raised K J P drawn now username password s m (ground (arith, e, n, x)))
                  (refl, inl (refl, m, x))
            | inl x ↦ elim (Bool-cases (K.checkpw password hash)) [
              | inr c ↦
                  rw (failed_with K J P drawn now username password s (ground (arith, e, n, x, c)))
                    (
                      refl,
                      inr (
                        refl,
                        λ v h p.
                            other_hash K J P password u hash n c
                              (subst (HasPassword K J P password) (one_row K J P h e) p),
                      ),
                    )
              | inl c ↦
                  let (there, name) = found_by_name K J P (strip username) u s.graph e in
                  let (stored, filled) = truthy-some K J P u.password_hash hash n in
                  let (r, run, answered) =
                    answer-Answered K J P drawn now username password s u
                      (ap (λ t. first_row (match_username t s.graph)) name ∙ e)
                      (ground (arith, e, n, x, c)) in
                  rw run (u, there, name, (hash, stored, filled, c), answered)
            ]
          ]
        ]
      ]

  verify_pending-pending :
      (now current : ℕ) (username code : Text) (s : App P)
      → (verify_pending K J P now current username code s).1.pending ≡ s.pending
  unfolding verify_pending second_factor try_backup_code
  verify_pending-pending now current username code s = ground arith

  module _ (Kept : IsKept P) where
    -- A challenge's token is worth one attempt: whatever the first answer to it was, a later one
    -- has status 401 and changes nothing.
    pub mfa_verify_once :
        (now current later current' : ℕ) (mfa_token code code' : Text) (s : App P)
        → P.get now (pending_key mfa_token) s.pending ≢ none
        → let s' = (mfa_verify K J P now current mfa_token code s).1 in
          mfa_verify K J P later current' mfa_token code' s' ≡ (err unknown_challenge, s')
    unfolding mfa_verify
    mfa_verify_once now current later current' mfa_token code code' s there =
        elim (Option-cases (P.get now (pending_key mfa_token) s.pending)) [
          | inl e ↦ absurd (there e)
          | inr (u, e) ↦
              let taken : App P = record s {
                pending = P.set now (pending_key mfa_token) none 1 s.pending;
              } in
              let same = verify_pending-pending now current u code taken in
              let gone = Kept.get-set_null now later 1 (pending_key mfa_token) s.pending in
              ground (arith, e, same, gone)
        ]

  -- The node that was just added under a free name is the one that its name finds.
  match_username-add_user :
      (u : User) (g : Graph)
      → match_username u.username g ≡ []
      → match_username u.username (add_user u g) ≡ u ∷ []
  unfolding match_username add_user
  match_username-add_user u g h =
      rw (keep-append (named u.username) g.users (u ∷ []), h) (rw (beq_refl u.username))

  module _ (C : IsCorrect K) where
    login_after :
        (salt username password tenant_id role drawn : Text) (now : ℕ) (s s' : App P)
        → let u = password_user K salt (strip username) password tenant_id role none in
          match_username (strip username) s.graph ≡ []
          → K.refused password ≡ none
          → s'.graph ≡ add_user u s.graph
          → issue_token K J P drawn now username password s'
            ≡ (ok (granted K J P now (account_of u)), s')
    unfolding issue_token verify_credentials get_totp_state
    login_after salt username password tenant_id role drawn now s s' free short added =
        let u = password_user K salt (strip username) password tenant_id role none in
        let found = match_username-add_user u s.graph free in
        let fits = C.checkpw-hashpw password salt short in
        let there = C.hashpw_ne password salt in ground (arith, added, found, fits, there, short)

    registered_hashed :
        (salt username password tenant_id role : Text) (s : App P) (a : UserAccount)
        → (register K P salt username password tenant_id role s).0 ≡ ok a
        → K.refused password ≡ none
    unfolding register on_graph
    registered_hashed salt username password tenant_id role s a h =
        elim (Option-cases (parse_role (upper role))) [
          | inl e ↦ ground (arith, e, h)
          | inr (r, e) ↦
              create_user_hashed K salt username password tenant_id (role_value r) none true s.graph
                a (ground (arith, e, h))
        ]

    -- The account that a registration returns can log in at once with the same name and password,
    -- and gets an access token for its tenant and role, in a state that does not change.
    pub register_then_login :
        (salt username password tenant_id role drawn : Text) (now : ℕ) (s : App P) (a : UserAccount)
        → (register K P salt username password tenant_id role s).0 ≡ ok a
        → let s' = (register K P salt username password tenant_id role s).1 in
          issue_token K J P drawn now username password s' ≡ (ok (granted K J P now a), s')
    register_then_login salt username password tenant_id role drawn now s a h' =
        go (register K P salt username password tenant_id role s)
          (register_bootstraps K P salt username password tenant_id role s) h'
      where
        go :
            (r : Result HttpError UserAccount × App P)
            → Registered K P salt username password tenant_id s r
            → r.0 ≡ ok a
            → issue_token K J P drawn now username password r.1 ≡ (ok (granted K J P now a), r.1)
        go (err e, s') w h = cc
        go (ok b, s') (t, n, _, free, _, added) h =
            let short = registered_hashed salt username password tenant_id role s a h' in
            let free' : match_username (strip username) s.graph ≡ [] = rw n at free in
            let after =
              login_after salt username password tenant_id b.role drawn now s s' free' short
                added in
            let same : a ≡ b = cc in ground (arith, t, n, after, same)
