-- ===== src/Accounts/Graph.antt =====
-- The nodes that the Cypher queries of the two repositories name, and what the clauses of those
-- queries do to them: MATCH by equal properties, WHERE, SET on every match, CREATE.
pub mod Rows
use contract_agent_capstone.Prelude.{
  ℕ, Bool, true, false, Option, none, some, List, [], ◌∷◌, ◌++◌, keep, any, ◌==◌, if◌then◌else◌,
}
use contract_agent_capstone.Prelude.Text.{Text, text_eq}

-- `(:User {…})`; a property that was never set is `none`.
pub record User : Type 0 where
  pub username : Text
  pub password_hash : Option Text
  pub tenant_id : Text
  pub role : Text
  pub email : Option Text
  pub sso_provider : Option Text
  pub sso_subject : Option Text
  pub totp_secret_encrypted : Option Text
  pub mfa_enabled : Bool
  pub mfa_last_used_step : Option ℕ
  pub backup_codes_hashed : List Text

-- `(:Invite {…})`
pub record Invite : Type 0 where
  pub token_hash : Text
  pub email : Text
  pub tenant_id : Text
  pub role : Text
  pub invited_by : Text
  pub expires_at : ℕ
  pub used_at : Option ℕ

pub record Graph : Type 0 where
  pub users : List User
  pub invites : List Invite

-- `MATCH (u:User {username: $username})`
abbrev pub named : Text → User → Bool
named username u = u.username == username

-- A property that is set, and equal to the parameter.
abbrev pub has_value : Option Text → Text → Bool
has_value none v = false
has_value (some x) v = x == v

-- `SET` on every node that matches.
module _ {ℓ} {A : Type ℓ} where
  abbrev pub update : (A → Bool) → (A → A) → List A → List A
  update p f [] = []
  update p f (x ∷ xs) = (if p x then f x else x) ∷ update p f xs

  -- The first row of a result, or `None` for an empty one.
  abbrev pub first_row : List A → Option A
  first_row [] = none
  first_row (x ∷ _) = some x

unfoldable pub match_username : Text → Graph → List User
match_username username g = keep (named username) g.users

unfoldable pub match_tenant : Text → Graph → List User
match_tenant tenant_id g = keep (λ u. u.tenant_id == tenant_id) g.users

unfoldable pub match_sso : Text → Text → Graph → List User
match_sso provider subject g =
    keep (λ u. if has_value u.sso_provider provider then has_value u.sso_subject subject else false)
      g.users

unfoldable pub set_user : Text → (User → User) → Graph → Graph
set_user username f g = record g { users = update (named username) f g.users }

unfoldable pub add_user : User → Graph → Graph
add_user u g = record g { users = g.users ++ (u ∷ []) }

abbrev pub with_hash : Text → Invite → Bool
with_hash token_hash i = i.token_hash == token_hash

unfoldable pub match_invite : Text → Graph → List Invite
match_invite token_hash g = keep (with_hash token_hash) g.invites

unfoldable pub add_invite : Invite → Graph → Graph
add_invite i g = record g { invites = g.invites ++ (i ∷ []) }
