-- ===== src/Accounts/Login/Answers.antt =====
-- What logging in answers, by what checking the password came to.
use mathlib.Core.Bool.{false≢true}
use mathlib.Core.List.{Memᴰ}
use contract_agent_capstone.Prelude.{
  sym, ap, ◌∙◌, ℕ, ◌+◌, ◌++◌, Option, if◌then◌else◌, beq→eq, ◌≡◌, ◌≢◌, refl, true, false, none,
  some, inl, inr, ◌⊎◌, Bool-cases, [], ◌∷◌, arith,
}
use contract_agent_capstone.Prelude.Text.{Text, codes, is_empty, text_eq}
use contract_agent_capstone.Exec.{ok, err}
use contract_agent_capstone.Governance.Http.{http}
use contract_agent_capstone.Governance.Token.{Jwt, Claims, truthy, create_access_token}
use contract_agent_capstone.Accounts.Graph.{User, Graph, first_row, named, match_username}
use contract_agent_capstone.Accounts.Graph.Rows.{first_row-keep}
use contract_agent_capstone.Accounts.Crypto.{Crypto}
use contract_agent_capstone.Accounts.Users.{account_of, verify_credentials}
use contract_agent_capstone.Accounts.Totp.{get_totp_state}
use contract_agent_capstone.Accounts.App.{PendingCache, App}
use contract_agent_capstone.Accounts.Login.{
  TokenResponse, unhandled, granted, challenge, issue_token,
}

module _ (K : Crypto) (J : Jwt) (P : PendingCache) where
  -- The hash that a node has for a password.
  abbrev pub HasPassword : Text → User → Type 0
  HasPassword password u =
      (hash : Text) × (u.password_hash ≡ some hash) × (hash ≢ []) × (K.checkpw password hash ≡ true)

  -- The claims of an access token for an account: its own, for a day.
  abbrev pub claims_for : ℕ → User → Claims
  claims_for now u = record {
    tenant_id = some u.tenant_id;
    role = some u.role;
    username = if is_empty u.username then none else some u.username;
    iat = now;
    exp = now + 86400;
  }

  -- The answer to an account: with a second factor enabled, a challenge that the cache keeps for
  -- five minutes, and no access token; without, its access token, and nothing changed.
  abbrev pub Answered : Text → ℕ → App P → User → TokenResponse → App P → Type 0
  Answered drawn now s u r s' =
      ((u.mfa_enabled ≡ true)
        × (r.access_token ≡ none)
        × (r.mfa_required ≡ true)
        × (r.mfa_token ≡ some drawn)
        × (s' ≡ record s {
          pending = P.set now (codes "mfa_pending:" ++ drawn) (some u.username) 300 s.pending;
        }))
      ⊎ ((u.mfa_enabled ≡ false)
          × (r.access_token ≡ some (J.encode (claims_for now u)))
          × (r.mfa_required ≡ false)
          × (r.mfa_token ≡ none)
          × (s' ≡ s))

  truthy-none : (o : Option Text) (hash : Text) → truthy o ≡ none → o ≡ some hash → hash ≡ []
  truthy-none none hash h e = cc
  truthy-none (some []) hash h e = cc
  truthy-none (some (c ∷ t)) hash h e = cc

  pub truthy-some :
      (o : Option Text) (hash : Text) → truthy o ≡ some hash → (o ≡ some hash) × (hash ≢ [])
  truthy-some none hash h = cc
  truthy-some (some []) hash h = cc
  truthy-some (some (c ∷ t)) hash h = (h, λ e. cc)

  pub found_by_name :
      (name : Text) (u : User) (g : Graph)
      → first_row (match_username name g) ≡ some u
      → Memᴰ u g.users × (u.username ≡ name)
  unfolding match_username
  found_by_name name u g h =
      let (there, same) = first_row-keep (named name) u g.users h in
      (there, beq→eq u.username name same)

  -- What an account gets once its password was checked.
  pub answer-Answered :
      (drawn : Text) (now : ℕ) (username password : Text) (s : App P) (u : User)
      → first_row (match_username u.username s.graph) ≡ some u
      → verify_credentials K username password s.graph ≡ ok (some (account_of u))
      → let run = issue_token K J P drawn now username password s in
        (r : TokenResponse) × (run ≡ (ok r, run.1)) × Answered drawn now s u r run.1
  unfolding issue_token get_totp_state create_access_token
  answer-Answered drawn now username password s u named checked = elim (Bool-cases u.mfa_enabled) [
    | inl f ↦ (
      challenge K J P drawn,
      ground (arith, named, checked, f),
      inl (f, refl, refl, refl, ground (arith, named, checked, f)),
    )
    | inr f ↦ (
      granted K J P now (account_of u),
      ground (arith, named, checked, f),
      inr (f, ground arith, refl, refl, ground (arith, named, checked, f)),
    )
  ]

  pub failed_with :
      (drawn : Text) (now : ℕ) (username password : Text) (s : App P)
      → verify_credentials K username password s.graph ≡ ok none
      → issue_token K J P drawn now username password s
        ≡ (err (http 401 (codes "Incorrect username or password")), s)
  unfolding issue_token
  failed_with drawn now username password s h = ground (arith, h)

  pub one_row : {o : Option User} {u v : User} → o ≡ some v → o ≡ some u → v ≡ u
  one_row h e = cc

  pub no_hash :
      (password : Text) (u : User) → truthy u.password_hash ≡ none → ¬ HasPassword password u
  no_hash password u n (hash, stored, filled, fits) =
      filled (truthy-none u.password_hash hash n stored)

  pub other_hash :
      (password : Text) (u : User) (hash : Text)
      → truthy u.password_hash ≡ some hash
      → K.checkpw password hash ≡ false
      → ¬ HasPassword password u
  other_hash password u hash n c (hash', stored, filled, fits) =
      let (there, _) = truthy-some u.password_hash hash n in
      let same : hash' ≡ hash = cc (stored, there) in
      false≢true (sym c ∙ (ap (K.checkpw password) (sym same) ∙ fits))

  pub raised :
      (drawn : Text) (now : ℕ) (username password : Text) (s : App P) (message : Text)
      → verify_credentials K username password s.graph ≡ err message
      → issue_token K J P drawn now username password s ≡ (err (unhandled K J P), s)
  unfolding issue_token
  raised drawn now username password s message h = ground (arith, h)
