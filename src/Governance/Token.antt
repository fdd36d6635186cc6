-- ===== src/Governance/Token.antt =====
-- backend/governance/auth.py and `requires_permission` of rbac.py: tokens are issued, and every
-- guarded request is held to the claims of one. PyJWT is a parameter, and times are in seconds.
pub mod Laws
use contract_agent_capstone.Prelude.{
  ℕ, suc, zero, ◌+◌, ◌*◌, ◌≤◌, ◌<◌, ◌≡◌, Bool, true, false, Option, none, some, [], ◌∷◌, ◌++◌, drop,
  length, if◌then◌else◌,
}
use contract_agent_capstone.Prelude.Text.{Text, codes, upper, starts_with, is_empty}
use contract_agent_capstone.Exec.{Result, ok, err}
use contract_agent_capstone.Governance.Http.{HttpError, http}
use contract_agent_capstone.Governance.Rbac.{
  UserRole, parse_role, role_value, Permission, has_permission,
}

-- The payload of a token; a claim that is not there is `none`.
pub record Claims : Type 0 where
  pub tenant_id : Option Text
  pub role : Option Text
  pub username : Option Text
  pub iat : ℕ
  pub exp : ℕ

pub data DecodeError : Type 0 where
  expired_signature : DecodeError
  invalid_token : Text → DecodeError

-- `jwt.encode` and `jwt.decode` under the configured secret, the latter at a time.
pub record Jwt : Type 0 where
  pub encode : Claims → Text
  pub decode : ℕ → Text → Result DecodeError Claims

-- `ImmatureSignatureError`, for a token that is said to be issued later.
abbrev pub immature : Text
immature = codes "The token is not yet valid (iat)"

-- What is relied on: a token of this service is refused before the time it was issued at, reads
-- back from then on until it expires, and then no more.
pub record IsSigned (J : Jwt) : Type 0 where
  pub decode_immature :
      (now : ℕ) (c : Claims)
      → now < c.iat
      → J.decode now (J.encode c) ≡ err (invalid_token immature)
  pub decode-encode :
      (now : ℕ) (c : Claims) → c.iat ≤ now → now < c.exp → J.decode now (J.encode c) ≡ ok c
  pub decode_expired :
      (now : ℕ) (c : Claims)
      → c.iat ≤ now
      → c.exp ≤ now
      → J.decode now (J.encode c) ≡ err expired_signature

pub record TokenIdentity : Type 0 where
  pub tenant_id : Text
  pub role : Text
  pub username : Option Text

abbrev pub default_token_expiry : ℕ
default_token_expiry = 24 * 3600

-- `expires_delta or DEFAULT_TOKEN_EXPIRY`: a delta of zero is falsy.
abbrev pub or_default_expiry : Option ℕ → ℕ
or_default_expiry none = default_token_expiry
or_default_expiry (some zero) = default_token_expiry
or_default_expiry (some (suc n)) = suc n

-- A claim that is absent or empty.
abbrev pub truthy : Option Text → Option Text
truthy none = none
truthy (some t) = if is_empty t then none else some t

module _ (J : Jwt) where
  unfoldable pub create_access_token : ℕ → Text → Text → Option ℕ → Option Text → Text
  create_access_token now tenant_id role expires_delta username = J.encode (record {
    tenant_id = some tenant_id;
    role = some role;
    username = truthy username;
    iat = now;
    exp = now + or_default_expiry expires_delta;
  })

  -- The claims that a request needs.
  unfoldable pub identity_of : Claims → Result HttpError TokenIdentity
  identity_of c = elim (truthy c.tenant_id) [
    | none ↦ err (http 401 (codes "Token is missing tenant_id/role claims"))
    | some tenant_id ↦ elim (truthy c.role) [
      | none ↦ err (http 401 (codes "Token is missing tenant_id/role claims"))
      | some role ↦ ok (record { tenant_id = tenant_id; role = role; username = c.username })
    ]
  ]

  abbrev pub decoded : Result DecodeError Claims → Result HttpError TokenIdentity
  decoded (ok c) = identity_of c
  decoded (err expired_signature) = err (http 401 (codes "Token has expired"))
  decoded (err (invalid_token e)) = err (http 401 (codes "Invalid token: " ++ e))

  abbrev missing_header : Text
  missing_header = codes "Missing or malformed Authorization header - expected 'Bearer <token>'"

  unfoldable pub get_current_identity : ℕ → Option Text → Result HttpError TokenIdentity
  get_current_identity now none = err (http 401 (missing_header))
  get_current_identity now (some header) =
      if starts_with header (codes "Bearer ")
      then decoded (J.decode now (drop (length (codes "Bearer ")) header))
      else err (http 401 (missing_header))

  -- The detail does not spell the permission.
  abbrev denied : UserRole → Text
  denied role = codes "permission which is not assigned to role " ++ role_value role

  -- `permission_dependency`, once the identity is known.
  unfoldable pub check_permission : Permission → TokenIdentity → Result HttpError TokenIdentity
  check_permission permission identity = elim (parse_role (upper identity.role)) [
    | none ↦ err (http 401 (codes "Invalid role claim in token: " ++ identity.role))
    | some role ↦
        if has_permission role permission then ok identity else err (http 403 (denied role))
  ]

  unfoldable pub requires_permission : Permission → ℕ → Option Text → Result HttpError TokenIdentity
  requires_permission permission now header = elim (get_current_identity now header) [
    | ok identity ↦ check_permission permission identity
    | err e ↦ err e
  ]
