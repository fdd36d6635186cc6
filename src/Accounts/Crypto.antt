-- ===== src/Accounts/Crypto.antt =====
-- The libraries behind the two repositories: bcrypt, the Fernet cipher of `FieldEncryptor`, sha256
-- and pyotp. Salts, nonces and tokens come in as arguments.
use contract_agent_capstone.Prelude.{ℕ, none, ◌≡◌, ◌≢◌, [], Bool, true, Option, some}
use contract_agent_capstone.Prelude.Text.{Text}

pub record Crypto : Type 0 where
  -- `bcrypt.hashpw(password, salt)` and `bcrypt.checkpw(password, hash)`
  pub hashpw : Text → Text → Text
  pub checkpw : Text → Text → Bool
  -- The message of the `ValueError` with which both refuse a password, one that is too long.
  pub refused : Text → Option Text
  -- `none` stands for a `DecryptionError`.
  pub encrypt : Text → Text → Text
  pub decrypt : Text → Option Text
  pub sha256 : Text → Text
  pub totp_at : Text → ℕ → Text

-- What is relied on: a password that is not refused checks against its own hash, which is not empty, and a secret is
-- recovered.
pub record IsCorrect (K : Crypto) : Type 0 where
  pub checkpw-hashpw :
      (password salt : Text)
      → K.refused password ≡ none
      → K.checkpw password (K.hashpw password salt) ≡ true
  pub hashpw_ne : (password salt : Text) → K.hashpw password salt ≢ []
  pub decrypt-encrypt : (nonce secret : Text) → K.decrypt (K.encrypt nonce secret) ≡ some secret
