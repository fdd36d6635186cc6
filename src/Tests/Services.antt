-- ===== src/Tests/Services.antt =====
-- The trackers on the in-process store, and the exchange with Google, on concrete inputs.
use contract_agent_capstone.Prelude.{
  ℕ, ◌≡◌, refl, inl, inr, true, Option, none, some, List, [], ◌∷◌, arith, length, ◌==◌,
  if◌then◌else◌, nat_eq, contains, Bool-cases,
}
use contract_agent_capstone.Prelude.Text.{Text, codes, text_eq}
use contract_agent_capstone.Prelude.Dict.{lookup, insert}
use contract_agent_capstone.Exec.{ok, err}
use contract_agent_capstone.Cache.Client.{number}
use contract_agent_capstone.Cache.Slices.{slice}
use contract_agent_capstone.Cache.Memory.{Store}
use contract_agent_capstone.Policy.Evaluation.{sorted, insert_text}
use contract_agent_capstone.Monitoring.Hallucination.{
  record_checks, read_category, get_summary, total_key, flagged_key,
}
use contract_agent_capstone.Monitoring.Latency.{
  record_duration, read_operation, insert_sample, sort_samples, percentile,
}
use contract_agent_capstone.Governance.Oidc.{
  Stored, StateCache, Google, IdClaims, CallbackResult, state_key, state_unknown, verify_id_token,
  exchange_stored, exchange_code_for_identity,
}
use contract_agent_capstone.Governance.Oidc.Once.{
  IsForgetful, IsStrict, IsVouched, exchange_once, exchange-IsVouched,
}

-- Seven checks, of which two were flagged, so far.
abbrev counting : Store
counting =
    (total_key (codes "policy_citation"), number 7)
    ∷ (flagged_key (codes "policy_citation"), number 2)
    ∷ []

total_counts : lookup (total_key (codes "policy_citation")) counting ≡ some (number 7)
unfolding lookup
total_counts = refl

flagged_counts : lookup (flagged_key (codes "policy_citation")) counting ≡ some (number 2)
unfolding lookup
flagged_counts = refl

summed :
    (get_summary (record_checks (codes "policy_citation") 3 1 counting)).0
    ≡ record { total = 10; flagged = 3 }
unfolding get_summary read_category record_checks sorted insert_text lookup insert
summed = refl

abbrev read_two : Text → ℕ
read_two t = length t

median :
    (read_operation read_two
      (record_duration (codes "op") (codes "aaa") (record_duration (codes "op") (codes "a") []))
      (codes "op")).p50
    ≡ 3
unfolding read_operation record_duration percentile sort_samples insert_sample lookup insert slice
median = refl

-- States are kept as a function of the key; the time to live plays no part.
abbrev States : Type 0
States = Text → Option Stored

abbrev states : StateCache
states = record {
  State = States;
  get = λ now k s. s k;
  set = λ now k v ttl s. λ j. if k == j then v else s j;
}

states-IsForgetful : IsForgetful states
states-IsForgetful = record {
  get-set_null = λ now later ttl k s. ground (arith, text_eq.same_iff k k);
  get_later = λ now later k s le h. h;
}

abbrev entry : Stored
entry = record { code_verifier = codes "v"; invite_token = some (codes "invite") }

abbrev waiting : States
waiting j = if state_key (codes "s") == j then some entry else none

abbrev ann_claims : IdClaims
ann_claims = record {
  iss = some (codes "accounts.google.com");
  aud = some (codes "client");
  exp = some 500;
  sub = some (codes "42");
  email = some (codes "ann@x.org");
  email_verified = true;
}

-- A registry that checks the issuer and the audience.
abbrev vets : List Text → Text → Option Text → Option Text → Option Text
vets issuers audience (some iss) (some aud) =
    if contains issuers iss
    then (if aud == audience then none else some (codes "aud"))
    else some (codes "iss")
vets issuers audience _ _ = some (codes "missing")

abbrev google_endpoints : Google
google_endpoints = record {
  client_id = some (codes "client");
  client_secret = some (codes "secret");
  token_endpoint = ok (codes "token");
  authorization_endpoint = ok (codes "auth");
  post = λ endpoint client secret code verifier.
      ok (record { status_code = 200; text = []; id_token = some (codes "jwt") });
  jwks_error = none;
  decode = λ t. ok ann_claims;
  registry_error = λ issuers audience now c. vets issuers audience c.iss c.aud;
}

vets_sound :
    (issuers : List Text) (audience : Text) (iss aud : Option Text)
    → vets issuers audience iss aud ≡ none
    → ((i : Text) × (iss ≡ some i) × (contains issuers i ≡ true)) × (aud ≡ some audience)
vets_sound issuers audience none none h = cc
vets_sound issuers audience none (some a) h = cc
vets_sound issuers audience (some i) none h = cc
vets_sound issuers audience (some i) (some a) h = elim (Bool-cases (contains issuers i)) [
  | inr p ↦ ground (arith, p, h)
  | inl p ↦ elim (Bool-cases (a == audience)) [
    | inr q ↦ ground (arith, p, q, h)
    | inl q ↦ ((i, refl, p), ground (arith, text_eq.same_iff a audience, q))
  ]
]

google-IsStrict : IsStrict google_endpoints
google-IsStrict = record {
  issuer = λ issuers audience now c h. (vets_sound issuers audience c.iss c.aud h).0;
  audience = λ issuers audience now c h. (vets_sound issuers audience c.iss c.aud h).1;
}

exchange_once_example :
    exchange_code_for_identity google_endpoints states 20
      (codes "c2")
      (codes "s")
      (exchange_code_for_identity google_endpoints states 10 (codes "c1") (codes "s") waiting).1
    ≡ (
      err state_unknown,
      (exchange_code_for_identity google_endpoints states 10 (codes "c1") (codes "s") waiting).1,
    )
exchange_once_example =
    exchange_once google_endpoints states states-IsForgetful 10 20 (codes "c1") (codes "c2")
      (codes "s") waiting (omega arith)

abbrev ann : CallbackResult
ann = record {
  identity = record { sub = codes "42"; email = codes "ann@x.org"; email_verified = true };
  invite_token = some (codes "invite");
}

ann_signs_in :
    (exchange_code_for_identity google_endpoints states 10 (codes "c1") (codes "s") waiting).0
    ≡ ok ann
unfolding exchange_code_for_identity exchange_stored verify_id_token
ann_signs_in = refl

exchange-IsVouched_example :
    ((stored : Stored) × (states.get 10 (state_key (codes "s")) waiting ≡ some stored)
      × (stored.invite_token ≡ ann.invite_token))
    × IsVouched google_endpoints ann
exchange-IsVouched_example =
    exchange-IsVouched google_endpoints states google-IsStrict 10 (codes "c1") (codes "s") waiting
      ann ann_signs_in
