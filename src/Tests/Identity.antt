-- ===== src/Tests/Identity.antt =====
-- Roles, tokens and codes, with the libraries of the fixtures.
use contract_agent_capstone.Prelude.{
  ℕ, ◌+◌, ◌≤◌, ◌<◌, ◌≡◌, refl, true, Option, none, some, [], ◌∷◌, ◌++◌, drop, arith,
}
use contract_agent_capstone.Prelude.Text.{Text, codes, text_eq, upper, starts_with}
use contract_agent_capstone.Exec.{ok, err}
use contract_agent_capstone.Governance.Http.{http}
use contract_agent_capstone.Governance.Rbac.{
  UserRole, parse_role, manage_users, has_permission, role_permissions,
}
use contract_agent_capstone.Governance.Token.{
  immature, Claims, TokenIdentity, default_token_expiry, create_access_token, get_current_identity,
  requires_permission, identity_of, check_permission,
}
use contract_agent_capstone.Governance.Token.Laws.{
  bearer, issued_token_reads_back, requires_permission_sound,
}
use contract_agent_capstone.Governance.Mfa.{scan, not_ascii, verify_totp_code}
use contract_agent_capstone.Governance.Mfa.Window.{Accepts, verify_totp_code-Accepts}
use contract_agent_capstone.Governance.Mfa.Replay.{replay_after_next}
use contract_agent_capstone.Tests.Fixtures.{plain_jwt, plain_jwt-IsSigned, plain_crypto}

abbrev ann : Text
ann = codes "ann.b"

abbrev secret_word : Text
secret_word = codes "password1"

abbrev acme : Text
acme = codes "acme"

issued_token_reads_back_example :
    let header =
      some (bearer (create_access_token plain_jwt 10 acme (codes "ADMIN") none (some ann))) in
    (10 ≤ 20
      → 20 < 10 + default_token_expiry
      → get_current_identity plain_jwt 20 header
        ≡ ok (record { tenant_id = acme; role = codes "ADMIN"; username = some ann }))
    × (20 < 10
        → get_current_identity plain_jwt 20 header
          ≡ err (http 401 (codes "Invalid token: " ++ immature)))
    × (10 + default_token_expiry ≤ 20
        → get_current_identity plain_jwt 20 header ≡ err (http 401 (codes "Token has expired")))
issued_token_reads_back_example =
    issued_token_reads_back plain_jwt plain_jwt-IsSigned 10 20 acme (codes "ADMIN") ann none
      (λ h. cc) (λ h. cc) (λ h. cc)

abbrev admin_header : Text
unfolding create_access_token
admin_header = bearer (create_access_token plain_jwt 10 acme (codes "ADMIN") none (some ann))

abbrev admin_identity : TokenIdentity
admin_identity = record { tenant_id = acme; role = codes "ADMIN"; username = some ann }

requires_permission_sound_example :
    (c : Claims) × (role : UserRole) × (plain_jwt.decode 20 (drop 7 admin_header) ≡ ok c)
    × (c.tenant_id ≡ some acme)
    × (c.role ≡ some (codes "ADMIN"))
    × (parse_role (upper (codes "ADMIN")) ≡ some role)
    × (has_permission role manage_users ≡ true)
unfolding requires_permission get_current_identity identity_of check_permission create_access_token
    starts_with upper parse_role has_permission role_permissions admin_header
requires_permission_sound_example =
    requires_permission_sound plain_jwt manage_users 20 admin_header admin_identity refl

verify_totp_code-Accepts_example :
    Accepts plain_crypto.totp_at secret_word
      (8 ∷ [])
      (some 6)
      1
      7
      (verify_totp_code plain_crypto.totp_at secret_word (8 ∷ []) (some 6) 1 7)
verify_totp_code-Accepts_example =
    verify_totp_code-Accepts plain_crypto.totp_at secret_word (8 ∷ []) (some 6) 1 7 (omega arith)

replay_after_next_example :
    let verify = λ (k : ℕ) (last : Option ℕ).
      verify_totp_code plain_crypto.totp_at secret_word
        (plain_crypto.totp_at secret_word k)
        last
        1
        8 in
    (verify 7 none ≡ ok (some 7))
    × (verify 7 (some 7) ≡ ok none)
    × (verify 8 (some 7) ≡ ok (some 8))
    × (verify 7 (some 8) ≡ ok (some 7))
replay_after_next_example =
    replay_after_next plain_crypto.totp_at secret_word 7 refl refl (λ h. ground (arith, h))
      (λ h. ground (arith, h))

-- A code that cannot be compared raises.
foreign_code :
    verify_totp_code plain_crypto.totp_at secret_word (233 ∷ []) (some 6) 1 7 ≡ err not_ascii
unfolding verify_totp_code scan
foreign_code = refl
