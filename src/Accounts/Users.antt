-- ===== src/Accounts/Users.antt =====
-- backend/infrastructure/user_repository.py: `UserRepository`, method by method.
pub mod Created
use mathlib.Core.Option
use contract_agent_capstone.Prelude.{
  ℕ, Bool, true, false, not, ◌&&◌, ◌||◌, Option, none, some, List, [], ◌∷◌, map, length, all, first,
  keep, ltb, leb, ◌==◌, nat_eq, if◌then◌else◌,
}
use contract_agent_capstone.Prelude.Text.{Text, codes, text_eq, strip, is_empty}
use contract_agent_capstone.Exec.{
  Result, ok, err, Exec, ◌>>=◌, ◌>>◌, pure, raise, raise_if, gets, modify,
}
use contract_agent_capstone.Governance.Token.{truthy}
use contract_agent_capstone.Accounts.Graph.{
  User, Graph, first_row, match_username, match_tenant, match_sso, set_user, add_user,
}
use contract_agent_capstone.Accounts.Crypto.{Crypto}

-- The exceptions that creating an account raises, with their argument.
pub data CreateError : Type 0 where
  username_exists tenant_provisioned value_error : Text → CreateError

pub record UserAccount : Type 0 where
  pub username : Text
  pub tenant_id : Text
  pub role : Text

-- `[a-zA-Z0-9_.-]`
abbrev pub username_char : ℕ → Bool
username_char c =
    (leb b'a' c && leb c b'z')
    || (leb b'A' c && leb c b'Z')
    || (leb b'0' c && leb c b'9')
    || c == b'_'
    || c == b'.'
    || c == b'-'

-- `_USERNAME_RE.match` on a stripped text, which has no newline at its end.
unfoldable pub valid_username : Text → Bool
valid_username t = leb 3 (length t) && leb (length t) 64 && all username_char t

abbrev pub min_password_length : ℕ
min_password_length = 8

abbrev pub account_of : User → UserAccount
account_of u = record { username = u.username; tenant_id = u.tenant_id; role = u.role }

abbrev bad_username : CreateError
bad_username =
    value_error
      (codes "username must be 3-64 characters, using only letters, numbers, '.', '_', or '-'")

abbrev pub is_present {ℓ} : {A : Type ℓ} → List A → Bool
is_present [] = false
is_present (_ ∷ _) = true

unfoldable pub check_unused : Text → Exec Graph CreateError Unit
check_unused username = do
  existing ← gets (match_username username)
  raise_if (is_present existing) (username_exists username)

unfoldable pub tenant_has_any_users : Text → Graph → Bool
tenant_has_any_users tenant_id g = is_present (match_tenant tenant_id g)

unfoldable pub check_bootstrap : Text → Bool → Exec Graph CreateError Unit
check_bootstrap tenant_id enforce = do
  provisioned ← gets (tenant_has_any_users tenant_id)
  raise_if (enforce && provisioned) (tenant_provisioned tenant_id)

-- The `ValueError` of hashing a password, if there is one.
abbrev pub refuse : Option Text → Exec Graph CreateError Unit
refuse none = pure tt
refuse (some message) = raise (value_error message)

-- The CREATE query, and the account that is returned.
unfoldable pub store : User → Exec Graph CreateError UserAccount
store u = do modify (add_user u); pure (account_of u)

-- `create_user`, with the salt that bcrypt draws. The username is stripped first.
module _ (K : Crypto) where
  abbrev pub password_user : Text → Text → Text → Text → Text → Option Text → User
  password_user salt username password tenant_id role email = record {
    username = username;
    password_hash = some (K.hashpw password salt);
    tenant_id = tenant_id;
    role = role;
    email = email;
    sso_provider = none;
    sso_subject = none;
    totp_secret_encrypted = none;
    mfa_enabled = false;
    mfa_last_used_step = none;
    backup_codes_hashed = [];
  }

  unfoldable pub create_user :
      Text → Text → Text → Text → Text → Option Text → Bool → Exec Graph CreateError UserAccount
  create_user salt given password tenant_id role email enforce = do
    let username = strip given
    raise_if (not (valid_username username)) bad_username
    raise_if (ltb (length password) min_password_length)
        (value_error (codes "password must be at least 8 characters"))
    raise_if (is_empty (strip tenant_id)) (value_error (codes "tenant_id must not be empty"))
    check_unused username
    check_bootstrap tenant_id enforce
    refuse (K.refused password)
    store (password_user salt username password tenant_id role email)

  abbrev pub sso_user : Text → Text → Text → Text → Text → Text → User
  sso_user username tenant_id role email provider subject = record {
    username = username;
    password_hash = none;
    tenant_id = tenant_id;
    role = role;
    email = some email;
    sso_provider = some provider;
    sso_subject = some subject;
    totp_secret_encrypted = none;
    mfa_enabled = false;
    mfa_last_used_step = none;
    backup_codes_hashed = [];
  }

  unfoldable pub create_sso_user :
      Text → Text → Text → Text → Text → Text → Exec Graph CreateError UserAccount
  create_sso_user given tenant_id role email sso_provider sso_subject = do
    let username = strip given
    raise_if (not (valid_username username)) bad_username
    raise_if (is_empty (strip tenant_id)) (value_error (codes "tenant_id must not be empty"))
    check_unused username
    store (sso_user username tenant_id role email sso_provider sso_subject)

  unfoldable pub get_user_by_sso : Text → Text → Graph → Option UserAccount
  get_user_by_sso provider subject g =
      Option.map account_of (first_row (match_sso provider subject g))

  unfoldable pub get_user_by_username : Text → Graph → Option UserAccount
  get_user_by_username username g = Option.map account_of (first_row (match_username username g))

  -- Checking a password against the hash of a node; an error is the `ValueError` of bcrypt.
  abbrev pub verified : Text → Option User → Result Text (Option UserAccount)
  verified password none = ok none
  verified password (some u) = elim (truthy u.password_hash) [
    | none ↦ ok none
    | some hash ↦ elim (K.refused password) [
      | some message ↦ err message
      | none ↦ ok (if K.checkpw password hash then some (account_of u) else none)
    ]
  ]

  unfoldable pub verify_credentials : Text → Text → Graph → Result Text (Option UserAccount)
  verify_credentials username password g =
      verified password (first_row (match_username (strip username) g))
