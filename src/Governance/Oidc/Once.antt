-- ===== src/Governance/Oidc/Once.antt =====
-- What an exchange does to its state, and what its identity rests on.
use contract_agent_capstone.Prelude.{
  ℕ, ◌≤◌, ◌≡◌, ap, ◌∙◌, ◌++◌, inl, inr, true, false, Option, none, some, List, arith, contains,
  Option-cases,
}
use contract_agent_capstone.Prelude.Text.{Text, codes, text_eq, is_empty}
use contract_agent_capstone.Exec.{Result, ok, err, Result-cases}
use contract_agent_capstone.Governance.Oidc.{
  Stored, StateCache, Failure, token_error, Response, read_response, Google, IdClaims, Identity,
  CallbackResult, google_issuers, required, state_key, state_unknown, verify_id_token,
  exchange_stored, exchange_code_for_identity,
}

-- What is relied on: null reads as nothing, and what is gone does not come back by itself.
pub record IsForgetful (C : StateCache) : Type 0 where
  pub get-set_null :
      (now later ttl : ℕ) (k : Text) (s : C.State) → C.get later k (C.set now k none ttl s) ≡ none
  pub get_later :
      (now later : ℕ) (k : Text) (s : C.State)
      → now ≤ later
      → C.get now k s ≡ none
      → C.get later k s ≡ none

-- What is relied on of the registry: no error means an issuer of the list and that audience.
pub record IsStrict (G : Google) : Type 0 where
  pub issuer :
      (issuers : List Text) (audience : Text) (now : ℕ) (c : IdClaims)
      → G.registry_error issuers audience now c ≡ none
      → (iss : Text) × (c.iss ≡ some iss) × (contains issuers iss ≡ true)
  pub audience :
      (issuers : List Text) (audience : Text) (now : ℕ) (c : IdClaims)
      → G.registry_error issuers audience now c ≡ none
      → c.aud ≡ some audience

-- Whatever came of the first callback with a state, and whatever codes are presented, a later one
-- with that state is refused and changes nothing.
pub exchange_once :
    (G : Google) (C : StateCache)
    → IsForgetful C
    → (now later : ℕ) (code code' state : Text) (s : C.State) → now ≤ later
    → exchange_code_for_identity G C later code' state
        (exchange_code_for_identity G C now code state s).1
      ≡ (err state_unknown, (exchange_code_for_identity G C now code state s).1)
unfolding exchange_code_for_identity
exchange_once G C L now later code code' state s h =
    elim (Option-cases (C.get now (state_key state) s)) [
      | inl e ↦ ground (arith, e, L.get_later now later (state_key state) s h e)
      | inr (stored, e) ↦ ground (arith, e, L.get-set_null now later 1 (state_key state) s)
    ]

-- The claims that stand behind an exchanged identity.
abbrev pub IsVouched : Google → CallbackResult → Type 0
IsVouched G r =
    (id_token : Text) × (c : IdClaims) × (iss : Text) × (G.decode id_token ≡ ok c)
    × (c.iss ≡ some iss)
    × (contains google_issuers iss ≡ true)
    × (c.aud ≡ G.client_id)
    × (c.sub ≡ some r.identity.sub)
    × (is_empty r.identity.sub ≡ false)
    × (c.email_verified ≡ r.identity.email_verified)

vouched :
    (G : Google) (now : ℕ) (id_token : Text) (c : IdClaims) (client sub : Text) (i : Identity)
    → G.decode id_token ≡ ok c
    → G.client_id ≡ some client
    → G.registry_error google_issuers client now c ≡ none
    → c.sub ≡ some sub
    → verify_id_token G now id_token ≡ ok i
    → (c.sub ≡ some i.sub) × (is_empty i.sub ≡ false) × (c.email_verified ≡ i.email_verified)
unfolding verify_id_token
vouched G now id_token c client sub i p q r t h =
    (ground (arith, p, q, r, t, h), ground (arith, p, q, r, t, h), ground (arith, p, q, r, t, h))

identity-IsVouched :
    (G : Google)
    → IsStrict G
    → (now : ℕ) (id_token : Text) (i : Identity) (invite : Option Text)
    → verify_id_token G now id_token ≡ ok i
    → IsVouched G (record { identity = i; invite_token = invite })
unfolding verify_id_token
identity-IsVouched G L now id_token i invite h = elim (Result-cases (G.decode id_token)) [
  | inr (e, p) ↦ ground (arith, p, h)
  | inl (c, p) ↦ elim (Option-cases G.client_id) [
    | inl q ↦ ground (arith, p, q, h)
    | inr (client, q) ↦ elim (Option-cases (G.registry_error google_issuers client now c)) [
      | inr (e, r) ↦ ground (arith, p, q, r, h)
      | inl r ↦ elim (Option-cases c.sub) [
        | inl t ↦ ground (arith, p, q, r, t, h)
        | inr (sub, t) ↦
            let (iss, named, listed) = L.issuer google_issuers client now c r in
            let aimed : c.aud ≡ G.client_id =
              ground (arith, q, L.audience google_issuers client now c r) in
            let (subject, filled, checked) = vouched G now id_token c client sub i p q r t h in
            (id_token, c, iss, p, named, listed, aimed, subject, filled, checked)
      ]
    ]
  ]
]

read_verified :
    (G : Google) (now : ℕ) (invite : Option Text) (response : Response) (r : CallbackResult)
    → read_response G now invite response ≡ ok r
    → (id_token : Text) × (invite ≡ r.invite_token)
      × (verify_id_token G now id_token ≡ ok r.identity)
read_verified G now invite response r h = elim (Option-cases response.id_token) [
  | inl e ↦ ground (arith, e, h)
  | inr (id_token, e) ↦ elim (Result-cases (verify_id_token G now id_token)) [
    | inr (f, v) ↦ ground (arith, e, v, h)
    | inl (i, v) ↦
        let same : record { identity = i; invite_token = invite } ≡ r = ground (arith, e, v, h) in
        (id_token, ap (λ x. x.invite_token) same, v ∙ ap (λ x. ok x.identity) same)
  ]
]

posted :
    (G : Google) (now : ℕ) (code endpoint : Text) (stored : Stored) (r : CallbackResult)
    → G.token_endpoint ≡ ok endpoint
    → exchange_stored G now code stored ≡ ok r
    → (response : Response) × (read_response G now stored.invite_token response ≡ ok r)
unfolding exchange_stored verify_id_token
posted G now code endpoint stored r a h =
    let client = required (codes "GOOGLE_OAUTH_CLIENT_ID") G.client_id in
    let secret = required (codes "GOOGLE_OAUTH_CLIENT_SECRET") G.client_secret in
    go client secret (rw a at h)
  where
    go :
        (client secret : Result Failure Text)
        → elim client [
          | err e ↦ err e
          | ok c ↦ elim secret [
            | err e ↦ err e
            | ok d ↦ elim (G.post endpoint c d code stored.code_verifier) [
              | err e ↦ err (token_error (codes "Token exchange request failed: " ++ e))
              | ok response ↦ read_response G now stored.invite_token response
            ]
          ]
        ]
          ≡ ok r
        → (response : Response) × (read_response G now stored.invite_token response ≡ ok r)
    go (err e) secret h = cc
    go (ok c) (err e) h = cc
    go (ok c) (ok d) h = elim (Result-cases (G.post endpoint c d code stored.code_verifier)) [
      | inl (response, p) ↦ (response, rw p at h)
      | inr (e, p) ↦ ground (arith, p, h)
    ]

exchanged :
    (G : Google) (now : ℕ) (code : Text) (stored : Stored) (r : CallbackResult)
    → exchange_stored G now code stored ≡ ok r
    → (id_token : Text) × (stored.invite_token ≡ r.invite_token)
      × (verify_id_token G now id_token ≡ ok r.identity)
unfolding exchange_stored
exchanged G now code stored r h = elim (Result-cases G.token_endpoint) [
  | inr (e, a) ↦ ground (arith, a, h)
  | inl (endpoint, a) ↦
      let (response, p) = posted G now code endpoint stored r a h in
      read_verified G now stored.invite_token response r p
]

-- An identity comes only of a state that was stored, with the invite stored under it, and of a
-- signed token of Google's for this client, whose subject it names.
pub exchange-IsVouched :
    (G : Google) (C : StateCache)
    → IsStrict G
    → (now : ℕ) (code state : Text) (s : C.State) (r : CallbackResult)
    → (exchange_code_for_identity G C now code state s).0 ≡ ok r
    → ((stored : Stored) × (C.get now (state_key state) s ≡ some stored)
        × (stored.invite_token ≡ r.invite_token))
      × IsVouched G r
unfolding exchange_code_for_identity
exchange-IsVouched G C L now code state s r h =
    elim (Option-cases (C.get now (state_key state) s)) [
      | inl e ↦ ground (arith, e, h)
      | inr (stored, e) ↦
          let found : exchange_stored G now code stored ≡ ok r = ground (arith, e, h) in
          let (id_token, same, proved) = exchanged G now code stored r found in
          ((stored, e, same), identity-IsVouched G L now id_token r.identity r.invite_token proved)
    ]
