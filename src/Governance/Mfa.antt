-- ===== src/Governance/Mfa.antt =====
-- backend/governance/mfa.py: `verify_totp_code`. pyotp is a parameter: the code of a secret at a
-- time step. The clock stands at a step, and `current` is at least the window, so that no step is
-- negative.
pub mod Window
pub mod Replay
use contract_agent_capstone.Prelude.{
  ℕ, zero, suc, ◌+◌, ◌-◌, ◌*◌, Bool, true, false, Option, none, some, List, [], ◌∷◌, ◌&&◌, not, all,
  ltb, ◌==◌, nat_eq, if◌then◌else◌,
}
use contract_agent_capstone.Prelude.Text.{Text, codes, text_eq}
use contract_agent_capstone.Exec.{Result, ok, err}

abbrev pub default_valid_window : ℕ
default_valid_window = 1

abbrev pub backup_code_count : ℕ
backup_code_count = 10

-- `step == last_used_step`
abbrev pub is_used : Option ℕ → ℕ → Bool
is_used none step = false
is_used (some last) step = step == last

abbrev pub is_ascii : Text → Bool
is_ascii = all λ c. ltb c 128

-- The `TypeError` of `hmac.compare_digest`; the codes of pyotp are digits.
abbrev pub not_ascii : Text
not_ascii = codes "comparing strings with non-ASCII characters is not supported"

module _ (totp_at : Text → ℕ → Text) where
  -- The loop over `range(step, step + count)`.
  unfoldable pub scan : Text → Text → Option ℕ → ℕ → ℕ → Result Text (Option ℕ)
  scan secret code last step zero = ok none
  scan secret code last step (suc count) =
      let rest = scan secret code last (step + 1) count in
      if is_used last step
      then rest
      else (if not (is_ascii code)
          then err not_ascii
          else (if totp_at secret step == code then ok (some step) else rest))

  unfoldable pub verify_totp_code : Text → Text → Option ℕ → ℕ → ℕ → Result Text (Option ℕ)
  verify_totp_code secret code last_used_step valid_window current =
      scan secret code last_used_step (current - valid_window) (2 * valid_window + 1)
