-- ===== src/Accounts/Users/Created.antt =====
-- What creating an account does to the graph.
use contract_agent_capstone.Prelude.{
  ◌≡◌, Bool, true, false, Option, none, inl, inr, [], arith, Option-cases,
}
use contract_agent_capstone.Prelude.Text.{Text, strip}
use contract_agent_capstone.Exec.{Result, ok, err}
use contract_agent_capstone.Accounts.Graph.{User, Graph, match_username, match_tenant, add_user}
use contract_agent_capstone.Accounts.Crypto.{Crypto}
use contract_agent_capstone.Accounts.Users.{
  CreateError, UserAccount, valid_username, account_of, check_unused, check_bootstrap,
  tenant_has_any_users, store, password_user, sso_user, create_user, create_sso_user,
}

-- The graph is as it was after an error. Otherwise the node `u` was added and its account returned;
-- its name is well formed and was free, and where the bootstrap rule holds, no node of the tenant
-- was there.
abbrev pub Created : Bool → User → Graph → Result CreateError UserAccount × Graph → Type 0
Created enforce u g (err e, g') = g' ≡ g
Created enforce u g (ok a, g') =
    (g' ≡ add_user u g)
    × (a ≡ account_of u)
    × (match_username u.username g ≡ [])
    × (valid_username u.username ≡ true)
    × (enforce ≡ true → match_tenant u.tenant_id g ≡ [])

module _ (K : Crypto) where
  -- Creating an account with a password adds exactly the node of that account, under the stripped
  -- name, or changes nothing.
  pub create_user-Created :
      (salt given password tenant_id role : Text) (email : Option Text) (enforce : Bool) (g : Graph)
      → Created enforce
          (password_user K salt (strip given) password tenant_id role email)
          g
          (create_user K salt given password tenant_id role email enforce g)
  unfolding create_user check_unused check_bootstrap tenant_has_any_users store
  create_user-Created salt given password tenant_id role email enforce g = ground arith

  -- An account that was created has a password that could be hashed.
  pub create_user_hashed :
      (salt given password tenant_id role : Text) (email : Option Text) (enforce : Bool) (g : Graph)
      (a : UserAccount)
      → (create_user K salt given password tenant_id role email enforce g).0 ≡ ok a
      → K.refused password ≡ none
  unfolding create_user check_unused check_bootstrap tenant_has_any_users store
  create_user_hashed salt given password tenant_id role email enforce g a h =
      elim (Option-cases (K.refused password)) [ inl e ↦ e | inr (m, e) ↦ ground (arith, e, h) ]

  -- So does creating one for a single sign-on identity.
  pub create_sso_user-Created :
      (given tenant_id role email provider subject : Text) (g : Graph)
      → Created false
          (sso_user K (strip given) tenant_id role email provider subject)
          g
          (create_sso_user K given tenant_id role email provider subject g)
  unfolding create_sso_user check_unused store
  create_sso_user-Created given tenant_id role email provider subject g = ground arith
