-- ===== src/Governance/Oidc.antt =====
-- backend/governance/oidc.py: the authorization-code flow against Google. The HTTP calls, the
-- decoding of a signed token and the registry of claims are parameters, by what they come to.
pub mod Once
use contract_agent_capstone.Prelude.{
  ℕ, Bool, true, false, Option, none, some, List, [], ◌∷◌, ◌++◌, leb, if◌then◌else◌,
}
use contract_agent_capstone.Prelude.Text.{Text, codes, is_empty}
use contract_agent_capstone.Exec.{Result, ok, err}
use contract_agent_capstone.Cache.Client.{Exception}
use contract_agent_capstone.Analysis.{get_or}

-- What is stored under a state until its callback.
pub record Stored : Type 0 where
  pub code_verifier : Text
  pub invite_token : Option Text

-- `RedisCache` on the keys of states: `get now key`, and `set now key value ttl`.
pub record StateCache : Type 1 where
  pub State : Type 0
  pub get : ℕ → Text → State → Option Stored
  pub set : ℕ → Text → Option Stored → ℕ → State → State

pub record Identity : Type 0 where
  pub sub : Text
  pub email : Text
  pub email_verified : Bool

pub record CallbackResult : Type 0 where
  pub identity : Identity
  pub invite_token : Option Text

pub data Failure : Type 0 where
  config_error token_error : Text → Failure
  unhandled : Exception → Failure

-- The claims of a token with a valid signature.
pub record IdClaims : Type 0 where
  pub iss : Option Text
  pub aud : Option Text
  pub exp : Option ℕ
  pub sub : Option Text
  pub email : Option Text
  pub email_verified : Bool

pub record Response : Type 0 where
  pub status_code : ℕ
  pub text : Text
  pub id_token : Option Text

-- The environment and Google's endpoints.
pub record Google : Type 0 where
  pub client_id : Option Text
  pub client_secret : Option Text
  pub token_endpoint : Result Exception Text
  pub authorization_endpoint : Result Exception Text
  -- The form that is posted has the endpoint, the client, its secret, the code and the verifier.
  pub post : Text → Text → Text → Text → Text → Result Text Response
  pub jwks_error : Option Exception
  pub decode : Text → Result Text IdClaims
  -- What the registry finds wrong, for the issuers and the audience, at a time.
  pub registry_error : List Text → Text → ℕ → IdClaims → Option Text

abbrev pub google_issuers : List Text
google_issuers = codes "https://accounts.google.com" ∷ codes "accounts.google.com" ∷ []

abbrev pub sso_state_ttl_seconds : ℕ
sso_state_ttl_seconds = 600

abbrev pub state_key : Text → Text
state_key state = codes "oidc_state:" ++ state

-- An environment variable that is unset or empty.
abbrev pub required : Text → Option Text → Result Failure Text
required name none = err (config_error (name ++ codes " not set"))
required name (some v) = if is_empty v then err (config_error (name ++ codes " not set")) else ok v

abbrev pub state_unknown : Failure
state_unknown = token_error (codes "Unknown, expired, or already-used state parameter")

abbrev identity_of : Option Text → IdClaims → Result Failure Identity
identity_of none claims = err (token_error (codes "ID token is missing the 'sub' claim"))
identity_of (some sub) claims =
    if is_empty sub
    then err (token_error (codes "ID token is missing the 'sub' claim"))
    else ok (record {
      sub = sub;
      email = get_or [] claims.email;
      email_verified = claims.email_verified;
    })

module _ (G : Google) where
  abbrev pub check_claims : ℕ → IdClaims → Text → Result Failure Identity
  check_claims now claims audience = elim (G.registry_error google_issuers audience now claims) [
    | some e ↦ err (token_error (codes "ID token claims validation failed: " ++ e))
    | none ↦ identity_of claims.sub claims
  ]

  unfoldable pub verify_id_token : ℕ → Text → Result Failure Identity
  verify_id_token now id_token = elim G.jwks_error [
    | some e ↦ err (unhandled e)
    | none ↦ elim (G.decode id_token) [
      | err e ↦ err (token_error (codes "ID token signature verification failed: " ++ e))
      | ok claims ↦ elim (required (codes "GOOGLE_OAUTH_CLIENT_ID") G.client_id) [
        | err e ↦ err e
        | ok audience ↦ check_claims now claims audience
      ]
    ]
  ]

  abbrev with_invite : Option Text → Result Failure Identity → Result Failure CallbackResult
  with_invite invite (err e) = err e
  with_invite invite (ok identity) = ok (record { identity = identity; invite_token = invite })

  abbrev rejected : Response → Failure
  rejected r = token_error (codes "Token exchange rejected by Google: " ++ r.text)

  abbrev no_id_token : Failure
  no_id_token = token_error (codes "Token response did not include an id_token")

  abbrev pub read_response : ℕ → Option Text → Response → Result Failure CallbackResult
  read_response now invite r = if leb 400 r.status_code then err (rejected r) else elim r.id_token [
    | none ↦ err no_id_token
    | some id_token ↦
        if is_empty id_token
        then err no_id_token
        else with_invite invite (verify_id_token now id_token)
  ]

  -- From the stored entry on; it is spent already.
  unfoldable pub exchange_stored : ℕ → Text → Stored → Result Failure CallbackResult
  exchange_stored now code stored = elim G.token_endpoint [
    | err e ↦ err (unhandled e)
    | ok endpoint ↦ elim (required (codes "GOOGLE_OAUTH_CLIENT_ID") G.client_id) [
      | err e ↦ err e
      | ok client ↦ elim (required (codes "GOOGLE_OAUTH_CLIENT_SECRET") G.client_secret) [
        | err e ↦ err e
        | ok secret ↦ elim (G.post endpoint client secret code stored.code_verifier) [
          | err e ↦ err (token_error (codes "Token exchange request failed: " ++ e))
          | ok r ↦ read_response now stored.invite_token r
        ]
      ]
    ]
  ]

  module _ (C : StateCache) where
    -- The state is stored before anything can raise; `state` and `verifier` are drawn at random,
    -- and `url` makes the text of the address.
    unfoldable pub build_authorization_url :
        (url : Text → Text → Text → Text → Text)
        → ℕ
        → Text
        → Text
        → Option Text
        → C.State
        → Result Failure Text × C.State
    build_authorization_url url now state verifier invite_token s =
        let stored : Stored = record { code_verifier = verifier; invite_token = invite_token } in
        let s' = C.set now (state_key state) (some stored) sso_state_ttl_seconds s in
        elim (required (codes "GOOGLE_OAUTH_CLIENT_ID") G.client_id) [
          | err e ↦ (err e, s')
          | ok client ↦ elim G.authorization_endpoint [
            | err e ↦ (err (unhandled e), s')
            | ok endpoint ↦ (ok (url endpoint client state verifier), s')
          ]
        ]

    unfoldable pub exchange_code_for_identity :
        ℕ → Text → Text → C.State → Result Failure CallbackResult × C.State
    exchange_code_for_identity now code state s = elim (C.get now (state_key state) s) [
      | none ↦ (err state_unknown, s)
      | some stored ↦ (exchange_stored now code stored, C.set now (state_key state) none 1 s)
    ]
