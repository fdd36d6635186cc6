-- ===== src/Accounts/Invites.antt =====
-- backend/infrastructure/invite_repository.py: `InviteRepository`. Times are in seconds.
pub mod SingleUse
use mathlib.Core.Option
use contract_agent_capstone.Prelude.{
  ℕ, ◌+◌, ◌*◌, Bool, true, false, ◌&&◌, Option, none, some, List, [], ◌∷◌, ltb, keep, if◌then◌else◌,
}
use contract_agent_capstone.Prelude.Text.{Text, codes, strip, lower, is_empty}
use contract_agent_capstone.Exec.{Result, ok, err, Exec, ◌>>=◌, ◌>>◌, pure, raise_if, modify}
use contract_agent_capstone.Accounts.Graph.{
  Invite, Graph, first_row, update, with_hash, match_invite, add_invite,
}
use contract_agent_capstone.Accounts.Crypto.{Crypto}

abbrev pub default_invite_ttl_days : ℕ
default_invite_ttl_days = 7

pub record InviteRecord : Type 0 where
  pub email : Text
  pub tenant_id : Text
  pub role : Text
  pub invited_by : Text
  pub expires_at : ℕ
  pub used_at : Option ℕ

-- `_row_to_record`
abbrev pub record_of : Invite → InviteRecord
record_of i = record {
  email = i.email;
  tenant_id = i.tenant_id;
  role = i.role;
  invited_by = i.invited_by;
  expires_at = i.expires_at;
  used_at = i.used_at;
}

abbrev pub is_unused : Option ℕ → Bool
is_unused none = true
is_unused (some _) = false

-- The text of a `ValueError`.
abbrev pub InviteError : Type 0
InviteError = Text

module _ (K : Crypto) where
  -- The token is what `secrets.token_urlsafe` draws; only its hash is stored.
  unfoldable pub create_invite :
      Text → ℕ → Text → Text → Text → Text → ℕ → Exec Graph InviteError Text
  create_invite raw_token now given tenant_id role invited_by ttl_days = do
    let email = lower (strip given)
    raise_if (is_empty email) (codes "email must not be empty")
    raise_if (is_empty (strip tenant_id)) (codes "tenant_id must not be empty")
    modify (
        add_invite (record {
          token_hash = K.sha256 raw_token;
          email = email;
          tenant_id = tenant_id;
          role = role;
          invited_by = invited_by;
          expires_at = now + ttl_days * (24 * 3600);
          used_at = none;
        }))
    pure raw_token

  -- `record.used_at is not None or record.expires_at < now` gives `None`.
  abbrev pub previewed : ℕ → Option Invite → Option InviteRecord
  previewed now none = none
  previewed now (some i) =
      if is_unused i.used_at
      then (if ltb i.expires_at now then none else some (record_of i))
      else none

  unfoldable pub get_invite : ℕ → Text → Graph → Option InviteRecord
  get_invite now raw_token g = previewed now (first_row (match_invite (K.sha256 raw_token) g))

  -- The WHERE of `consume_invite`, with its MATCH.
  abbrev pub consumable : ℕ → Text → Invite → Bool
  consumable now token_hash i =
      with_hash token_hash i && (is_unused i.used_at && ltb now i.expires_at)

  abbrev pub use_at : ℕ → Invite → Invite
  use_at now i = record i { used_at = some now }

  -- One write: the nodes that match are marked and returned as they are afterwards.
  unfoldable pub consume_invite : ℕ → Text → Graph → Option InviteRecord × Graph
  consume_invite now raw_token g =
      let test = consumable now (K.sha256 raw_token) in
      (
        Option.map (λ i. record_of (use_at now i)) (first_row (keep test g.invites)),
        record g { invites = update test (use_at now) g.invites },
      )
