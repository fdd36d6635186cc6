-- ===== src/Governance/Token/Laws.antt =====
-- What a request needs to get through.
use contract_agent_capstone.Prelude.{
  ℕ, ◌+◌, ◌≤◌, ◌<◌, ◌≡◌, refl, sym, ap, length, beq→eq, nat_eq, ◌≢◌, true, Option, none, some, inl,
  inr, Bool-cases, Option-cases, [], ◌∷◌, ◌++◌, drop, arith,
}
use mathlib.Core.Path.{subst}
use contract_agent_capstone.Prelude.Text.{Text, codes, upper, starts_with}
use contract_agent_capstone.Exec.{ok, err, Result-cases}
use contract_agent_capstone.Governance.Http.{http}
use contract_agent_capstone.Governance.Rbac.{UserRole, parse_role, Permission, has_permission}
use contract_agent_capstone.Governance.Token.{
  Claims, DecodeError, expired_signature, invalid_token, immature, Jwt, IsSigned, TokenIdentity,
  or_default_expiry, truthy, create_access_token, identity_of, decoded, get_current_identity,
  check_permission, requires_permission,
}

abbrev pub bearer : Text → Text
bearer token = codes "Bearer " ++ token

truthy_ne : (t : Text) → t ≢ [] → truthy (some t) ≡ some t
truthy_ne [] h = absurd (h refl)
truthy_ne (c ∷ t) h = refl

truthy-eq-some : (o : Option Text) {t : Text} → truthy o ≡ some t → o ≡ some t
truthy-eq-some none h = cc
truthy-eq-some (some []) h = cc
truthy-eq-some (some (c ∷ t)) h = h

token_in : Option Text → Text
token_in none = []
token_in (some header) = drop 7 header

starts_with-drop : (p s : Text) → starts_with s p ≡ true → s ≡ p ++ drop (length p) s
unfolding starts_with
starts_with-drop [] s h = refl
starts_with-drop (d ∷ p) [] h = cc
starts_with-drop (d ∷ p) (c ∷ s) h =
    let head : c ≡ d = beq→eq c d (ground (arith, h)) in
    rw (sym head) (ap (λ r. c ∷ r) (starts_with-drop p s (ground (arith, h))))

module _ (J : Jwt) (S : IsSigned J) where
  -- A token issued for a tenant, a role and a user reads back as exactly that identity from the time
  -- of its issue until it expires; from then on, and before its issue, it is refused with status 401.
  pub issued_token_reads_back :
      (issued now : ℕ) (tenant_id role username : Text) (delta : Option ℕ)
      → tenant_id ≢ []
      → role ≢ []
      → username ≢ []
      → let header =
          some (bearer (create_access_token J issued tenant_id role delta (some username))) in
        (issued ≤ now
          → now < issued + or_default_expiry delta
          → get_current_identity J now header
            ≡ ok (record { tenant_id = tenant_id; role = role; username = some username }))
        × (now < issued
            → get_current_identity J now header
              ≡ err (http 401 (codes "Invalid token: " ++ immature)))
        × (issued + or_default_expiry delta ≤ now
            → get_current_identity J now header ≡ err (http 401 (codes "Token has expired")))
  unfolding get_current_identity create_access_token identity_of starts_with
  issued_token_reads_back issued now tenant_id role username delta t r u =
      let c : Claims = record {
        tenant_id = some tenant_id;
        role = some role;
        username = some username;
        iat = issued;
        exp = issued + or_default_expiry delta;
      } in
      ground (
        arith,
        truthy_ne tenant_id t,
        truthy_ne role r,
        truthy_ne username u,
        S.decode_immature now c,
        S.decode-encode now c,
        S.decode_expired now c,
      )

module _ (J : Jwt) where
  identity_of-eq-ok :
      (c : Claims) (i : TokenIdentity)
      → identity_of J c ≡ ok i
      → (c.tenant_id ≡ some i.tenant_id) × (c.role ≡ some i.role) × (c.username ≡ i.username)
  unfolding identity_of
  identity_of-eq-ok c i h =
      ground
        (arith, truthy-eq-some c.tenant_id {t = i.tenant_id}, truthy-eq-some c.role {t = i.role})

  get_current_identity-eq-ok :
      (now : ℕ) (header : Text) (i : TokenIdentity)
      → get_current_identity J now (some header) ≡ ok i
      → (starts_with header (codes "Bearer ") ≡ true)
        × ((c : Claims) × (J.decode now (drop 7 header) ≡ ok c) × (identity_of J c ≡ ok i))
  unfolding get_current_identity
  get_current_identity-eq-ok now header i h =
      elim (Bool-cases (starts_with header (codes "Bearer "))) [
        | inr other ↦ cc (rw (other, get_current_identity) at h)
        | inl bearing ↦ elim (Result-cases (J.decode now (drop 7 header))) [
          | inl (c, e) ↦ (bearing, (c, e, rw (bearing, e, get_current_identity) at h))
          | inr (x, e) ↦ absurd (refused x (rw (bearing, e, get_current_identity) at h))
        ]
      ]
    where
      refused : (x : DecodeError) → decoded J (err x) ≡ ok i → ⊥
      refused expired_signature h = cc
      refused (invalid_token t) h = cc

  check_permission-eq-ok :
      (p : Permission) (i j : TokenIdentity)
      → check_permission J p i ≡ ok j
      → (i ≡ j)
        × ((role : UserRole) × (parse_role (upper i.role) ≡ some role)
            × (has_permission role p ≡ true))
  unfolding check_permission
  check_permission-eq-ok p i j h = elim (Option-cases (parse_role (upper i.role))) [
    | inl e ↦ cc (rw (e, check_permission) at h)
    | inr (role, e) ↦ elim (Bool-cases (has_permission role p)) [
      | inl g ↦ (ground arith, (role, e, g))
      | inr g ↦ cc (rw (e, g, check_permission) at h)
    ]
  ]

  -- The claims that an identity was read from, with a role that has the permission.
  abbrev pub Vouches : Permission → ℕ → Text → Claims → UserRole → TokenIdentity → Type 0
  Vouches permission now token c role identity =
      (J.decode now token ≡ ok c)
      × (c.tenant_id ≡ some identity.tenant_id)
      × (c.role ≡ some identity.role)
      × (c.username ≡ identity.username)
      × (parse_role (upper identity.role) ≡ some role)
      × (has_permission role permission ≡ true)

  without_header :
      (permission : Permission) (now : ℕ) (identity : TokenIdentity)
      → requires_permission J permission now none ≢ ok identity
  unfolding requires_permission get_current_identity
  without_header permission now identity h = cc

  pub requires_permission_token :
      (permission : Permission) (now : ℕ) (header : Option Text) (identity : TokenIdentity)
      → requires_permission J permission now header ≡ ok identity
      → (token : Text) × (c : Claims) × (role : UserRole) × (header
          ≡ some (codes "Bearer " ++ token))
        × Vouches permission now token c role identity
  unfolding requires_permission
  requires_permission_token permission now none identity h =
      absurd (without_header permission now identity h)
  requires_permission_token permission now (some header) identity h =
      elim (Result-cases (get_current_identity J now (some header))) [
        | inr (x, e) ↦ cc (rw (e, requires_permission) at h)
        | inl (i, e) ↦
            let (same, (role, parsed, granted)) =
              check_permission-eq-ok permission i identity (rw (e, requires_permission) at h) in
            let (bearing, (c, d, read)) = get_current_identity-eq-ok now header i e in
            let (t, r, u) = identity_of-eq-ok c i read in
            (
              drop 7 header,
              c,
              role,
              ap some (starts_with-drop (codes "Bearer ") header bearing),
              subst (Vouches permission now (drop 7 header) c role) same
                  (d, t, r, u, parsed, granted),
            )
      ]

  -- A request that passes `requires_permission` carried a token that decodes at that time and
  -- names that tenant and role among its claims, and the role,
  -- read without regard to case, is one that has the permission.
  pub requires_permission_sound :
      (permission : Permission) (now : ℕ) (header : Text) (identity : TokenIdentity)
      → requires_permission J permission now (some header) ≡ ok identity
      → (c : Claims) × (role : UserRole) × (J.decode now (drop 7 header) ≡ ok c)
        × (c.tenant_id ≡ some identity.tenant_id)
        × (c.role ≡ some identity.role)
        × (parse_role (upper identity.role) ≡ some role)
        × (has_permission role permission ≡ true)
  unfolding token_in
  requires_permission_sound permission now header identity h =
      let (token, c, role, carried, (d, t, r, _, parsed, granted)) =
        requires_permission_token permission now (some header) identity h in
      let same : drop 7 header ≡ token = ap token_in carried in
      (c, role, rw same d, t, r, parsed, granted)
