-- ===== src/Guards.antt =====
-- backend/governance/base.py, prompt_guard.py and output_guard.py: chains of validators in front of
-- and behind the language model. The audit log of a denial, which never changes the result, is not
-- modelled; of the metadata, only the redacted content is.
pub mod Pii
pub mod Validators
pub mod Passing
use contract_agent_capstone.Prelude.{
  Bool, true, false, Option, none, some, List, [], ◌∷◌, if◌then◌else◌,
}
use contract_agent_capstone.Prelude.Text.{Text}

pub record GuardResult : Type 0 where
  pub is_safe : Bool
  pub violation_type : Option Text
  pub message : Option Text
  pub redacted_content : Option Text

abbrev pub safe : GuardResult
safe = record { is_safe = true; violation_type = none; message = none; redacted_content = none }

abbrev pub unsafe : Text → Text → GuardResult
unsafe kind message = record {
  is_safe = false;
  violation_type = some kind;
  message = some message;
  redacted_content = none;
}

abbrev pub Validator : Type 0
Validator = Text → GuardResult

-- A validator and those that were set after it.
unfoldable pub validate_chain : Validator → List Validator → Text → GuardResult
validate_chain v [] t = v t
validate_chain v (w ∷ ws) t =
    let next = validate_chain w ws t in if (v t).is_safe then next else v t
