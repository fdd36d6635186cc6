-- ===== src/Accounts/Requests/Named.antt =====
-- Graphs in which no two users have one name, and the writes of the repositories.
use contract_agent_capstone.Prelude.{
  Bool, Option, none, some, List, [], ◌∷◌, ℕ, ◌≡◌, refl, Bool, List, first,
}
use contract_agent_capstone.Prelude.Text.{Text}
use contract_agent_capstone.Exec.{Result, ok, err}
use contract_agent_capstone.Accounts.Graph.{
  first_row, User, Graph, named, set_user, add_user, match_username,
}
use contract_agent_capstone.Accounts.Graph.Rows.{IsUnique, IsUnique-update, IsUnique-add}
use contract_agent_capstone.Accounts.Crypto.{Crypto}
use contract_agent_capstone.Accounts.Users.{UserAccount, CreateError}
use contract_agent_capstone.Accounts.Users.Created.{Created}
use contract_agent_capstone.Accounts.Totp.{
  spend, check_codes, stored_codes, record_totp_step_used, set_pending_totp_secret, enable_mfa,
  consume_backup_code,
}
use contract_agent_capstone.Accounts.Invites.{consume_invite}

-- No two users of the graph have one name.
pub record IsNamed (g : Graph) : Type 0 where
  pub unique : IsUnique g.users

pub Created-IsNamed :
    (enforce : Bool) (u : User) (g : Graph) (r : Result CreateError UserAccount × Graph)
    → Created enforce u g r
    → IsNamed g
    → IsNamed r.1
unfolding add_user match_username
Created-IsNamed enforce u g (err e, g') h w = rw h w
Created-IsNamed enforce u g (ok a, g') (added, _, free, _, _) w =
    rw added (record { unique = IsUnique-add u g.users free w.unique })

pub set_user-IsNamed :
    (name : Text) (f : User → User) (g : Graph)
    → ((u : User) → (f u).username ≡ u.username)
    → IsNamed g
    → IsNamed (set_user name f g)
unfolding set_user
set_user-IsNamed name f g same w = record {
  unique = IsUnique-update (named name) f g.users same w.unique;
}

pub record_totp_step_used-IsNamed :
    (name : Text) (step : ℕ) (g : Graph) → IsNamed g → IsNamed (record_totp_step_used name step g)
unfolding record_totp_step_used
record_totp_step_used-IsNamed name step g w = set_user-IsNamed name _ g (λ u. refl) w

module _ (K : Crypto) where
  pub consume_invite-IsNamed :
      (now : ℕ) (token : Text) (g : Graph) → IsNamed g → IsNamed (consume_invite K now token g).1
  unfolding consume_invite
  consume_invite-IsNamed now token g w = record { unique = w.unique }

  pub enable_mfa-IsNamed :
      (salt : ℕ → Text) (name : Text) (backup_codes : List Text) (g : Graph)
      → IsNamed g
      → IsNamed (enable_mfa K salt name backup_codes g)
  unfolding enable_mfa
  enable_mfa-IsNamed salt name backup_codes g w = set_user-IsNamed name _ g (λ u. refl) w

  spend-IsNamed :
      (name : Text) (matched : Option Text) (g : Graph)
      → IsNamed g
      → IsNamed (spend K name matched g).1
  spend-IsNamed name none g w = w
  spend-IsNamed name (some hash) g w = set_user-IsNamed name _ g (λ u. refl) w

  check_codes-IsNamed :
      (refused : Option Text) (stored : List Text) (spent : Bool × Graph) (g : Graph)
      → IsNamed g
      → IsNamed spent.1
      → IsNamed (check_codes K refused stored spent g).1
  check_codes-IsNamed none stored (b, g') g w w' = w'
  check_codes-IsNamed (some message) [] spent g w w' = w
  check_codes-IsNamed (some message) (h ∷ hs) spent g w w' = w

  pub consume_backup_code-IsNamed :
      (name code : Text) (g : Graph) → IsNamed g → IsNamed (consume_backup_code K name code g).1
  unfolding consume_backup_code
  consume_backup_code-IsNamed name code g w =
      let stored = stored_codes K (first_row (match_username name g)) in
      let matched = first (λ h. K.checkpw code h) stored in
      check_codes-IsNamed (K.refused code) stored (spend K name matched g) g w
        (spend-IsNamed name matched g w)

  pub set_pending-IsNamed :
      (nonce name secret : Text) (g : Graph)
      → IsNamed g
      → IsNamed (set_pending_totp_secret K nonce name secret g)
  unfolding set_pending_totp_secret
  set_pending-IsNamed nonce name secret g w = set_user-IsNamed name _ g (λ u. refl) w
