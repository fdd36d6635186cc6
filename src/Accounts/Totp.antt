-- ===== src/Accounts/Totp.antt =====
-- The second-factor methods of `UserRepository` in backend/infrastructure/user_repository.py.
use mathlib.Core.Option
use contract_agent_capstone.Prelude.{
  ℕ, ◌+◌, Bool, true, false, not, Option, none, some, List, [], ◌∷◌, first, keep, ◌==◌,
}
use contract_agent_capstone.Prelude.Text.{Text, text_eq}
use contract_agent_capstone.Exec.{Result, ok, err}
use contract_agent_capstone.Governance.Token.{truthy}
use contract_agent_capstone.Accounts.Graph.{User, Graph, first_row, match_username, set_user}
use contract_agent_capstone.Accounts.Crypto.{Crypto}

pub record TotpState : Type 0 where
  pub totp_secret_encrypted : Option Text
  pub mfa_enabled : Bool
  pub mfa_last_used_step : Option ℕ

abbrev pub totp_state_of : User → TotpState
totp_state_of u = record {
  totp_secret_encrypted = u.totp_secret_encrypted;
  mfa_enabled = u.mfa_enabled;
  mfa_last_used_step = u.mfa_last_used_step;
}

unfoldable pub get_totp_state : Text → Graph → Option TotpState
get_totp_state username g = Option.map totp_state_of (first_row (match_username username g))

unfoldable pub record_totp_step_used : Text → ℕ → Graph → Graph
record_totp_step_used username step =
    set_user username (λ u. record u { mfa_last_used_step = some step })

module _ (K : Crypto) where
  -- A new secret is stored encrypted, and the second factor is off until it is confirmed.
  unfoldable pub set_pending_totp_secret : Text → Text → Text → Graph → Graph
  set_pending_totp_secret nonce username secret =
      let encrypted = K.encrypt nonce secret in
      set_user username
        (λ u. record u { totp_secret_encrypted = some encrypted; mfa_enabled = false })

  -- The inner `none` is a `DecryptionError`.
  unfoldable pub get_decrypted_totp_secret : Text → Graph → Option (Option Text)
  get_decrypted_totp_secret username g = elim (get_totp_state username g) [
    | none ↦ none
    | some state ↦ Option.map K.decrypt (truthy state.totp_secret_encrypted)
  ]

  -- Each code is hashed with a salt of its own.
  abbrev pub hash_codes : (ℕ → Text) → ℕ → List Text → List Text
  hash_codes salt n [] = []
  hash_codes salt n (c ∷ cs) = K.hashpw c (salt n) ∷ hash_codes salt (n + 1) cs

  unfoldable pub enable_mfa : (ℕ → Text) → Text → List Text → Graph → Graph
  enable_mfa salt username backup_codes =
      let hashed = hash_codes salt 0 backup_codes in
      set_user username (λ u. record u { mfa_enabled = true; backup_codes_hashed = hashed })

  abbrev pub stored_codes : Option User → List Text
  stored_codes none = []
  stored_codes (some u) = u.backup_codes_hashed

  -- Every copy of the hash that matched is taken out.
  abbrev pub spend : Text → Option Text → Graph → Bool × Graph
  spend username none g = (false, g)
  spend username (some matched) g =
      let stored = stored_codes (first_row (match_username username g)) in
      (
        true,
        set_user username
            (λ u. record u { backup_codes_hashed = keep (λ h. not (h == matched)) stored }) g,
      )

  -- Checking a code of any length against the hashes raises once there is a hash to check.
  abbrev pub check_codes : Option Text → List Text → Bool × Graph → Graph → Result Text Bool × Graph
  check_codes none stored (spent, g') g = (ok spent, g')
  check_codes (some message) [] spent g = (ok false, g)
  check_codes (some message) (_ ∷ _) spent g = (err message, g)

  unfoldable pub consume_backup_code : Text → Text → Graph → Result Text Bool × Graph
  consume_backup_code username code g =
      let stored = stored_codes (first_row (match_username username g)) in
      let spent = spend username (first (λ h. K.checkpw code h) stored) g in
      check_codes (K.refused code) stored spent g
