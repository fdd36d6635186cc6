-- ===== src/Tests/Fixtures.antt =====
-- Concrete libraries behind the parameters: a signing scheme, a hash, a cache of pending logins.
use contract_agent_capstone.Prelude.{
  ℕ, zero, suc, ◌+◌, ◌≡◌, refl, ap, Option, none, some, [], ◌∷◌, ◌++◌, length, take, drop, ltb,
  ◌==◌, beq_refl, ne→beq, arith, if◌then◌else◌,
}
use contract_agent_capstone.Prelude.Text.{Text, text_eq}
use contract_agent_capstone.Exec.{Result, ok, err}
use contract_agent_capstone.Governance.Token.{
  Claims, DecodeError, expired_signature, invalid_token, immature, Jwt, IsSigned,
}
use contract_agent_capstone.Accounts.Crypto.{Crypto, IsCorrect}
use contract_agent_capstone.Accounts.App.{PendingCache, IsKept}

-- An optional text in front of the rest of a list, and how it is read back.
abbrev put : Option Text → Text → Text
put none r = 0 ∷ r
put (some t) r = suc (length t) ∷ (t ++ r)

abbrev grab : Text → Option (Option Text × Text)
grab [] = none
grab (zero ∷ r) = some (none, r)
grab (suc n ∷ r) = some (some (take n r), drop n r)

take-append : (t r : Text) → take (length t) (t ++ r) ≡ t
take-append [] r = refl
take-append (c ∷ t) r = ap (λ s. c ∷ s) (take-append t r)

drop-append : (t r : Text) → drop (length t) (t ++ r) ≡ r
drop-append [] r = refl
drop-append (c ∷ t) r = drop-append t r

grab-put : (o : Option Text) (r : Text) → grab (put o r) ≡ some (o, r)
grab-put none r = refl
grab-put (some t) r = rw (take-append t r) (rw (drop-append t r))

abbrev broken : Result DecodeError Claims
broken = err (invalid_token [])

abbrev parts : ℕ → ℕ → Text → Result DecodeError Claims
parts iat exp t = elim (grab t) [
  | none ↦ broken
  | some (tenant_id, t1) ↦ elim (grab t1) [
    | none ↦ broken
    | some (role, t2) ↦ elim (grab t2) [
      | none ↦ broken
      | some (username, _) ↦
          ok (record {
            tenant_id = tenant_id;
            role = role;
            username = username;
            iat = iat;
            exp = exp;
          })
    ]
  ]
]

-- Claims written out, with no signature.
abbrev pub plain_jwt : Jwt
plain_jwt = record {
  encode = λ c. c.iat ∷ c.exp ∷ put c.tenant_id (put c.role (put c.username []));
  decode = λ now t. elim t [
    | [] ↦ broken
    | iat ∷ rest ↦ elim rest [
      | [] ↦ broken
      | exp ∷ claims ↦
          if ltb now iat
          then err (invalid_token immature)
          else (if ltb now exp then parts iat exp claims else err expired_signature)
    ]
  ];
}

pub plain_jwt-IsSigned : IsSigned plain_jwt
plain_jwt-IsSigned = record {
  decode_immature = λ now c early. ground (arith, early);
  decode-encode = λ now c issued h. ground (
    arith,
    issued,
    h,
    grab-put c.tenant_id (put c.role (put c.username [])),
    grab-put c.role (put c.username []),
    grab-put c.username [],
  );
  decode_expired = λ now c issued h. ground (arith, issued, h);
}

-- A hash is the password behind a mark, and the cipher is the identity.
abbrev pub plain_crypto : Crypto
plain_crypto = record {
  hashpw = λ password salt. 0 ∷ password;
  checkpw = λ password hash. (0 ∷ password) == hash;
  refused = λ password. if ltb 72 (length password) then some [] else none;
  encrypt = λ nonce secret. secret;
  decrypt = λ t. some t;
  sha256 = λ t. t;
  totp_at = λ secret step. step ∷ [];
}

pub plain_crypto-IsCorrect : IsCorrect plain_crypto
plain_crypto-IsCorrect = record {
  checkpw-hashpw = λ password salt h. beq_refl (0 ∷ password);
  hashpw_ne = λ password salt h. cc;
  decrypt-encrypt = λ nonce secret. refl;
}

-- Values with the time at which they are gone.
abbrev pub Pending : Type 0
Pending = Text → Option (Option Text × ℕ)

abbrev live : ℕ → Option (Option Text × ℕ) → Option Text
live now none = none
live now (some (v, gone)) = if ltb now gone then v else none

abbrev pub plain_cache : PendingCache
plain_cache = record {
  State = Pending;
  get = λ now k s. live now (s k);
  set = λ now k v ttl s j. if k == j then some (v, now + ttl) else s j;
}

pub plain_cache-IsKept : IsKept plain_cache
plain_cache-IsKept = record {
  get-set_live = λ now later ttl k v s a b. ground (arith, b, beq_refl k);
  get-set_null = λ now later ttl k s. ground (arith, beq_refl k);
  get-set_ne = λ now later ttl k j v s h. ground (arith, ne→beq k j h);
}
