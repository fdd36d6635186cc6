-- ===== src/Policy.antt =====
-- The checking of clauses against policy rules: backend/domain/policies/, the rules with a
-- threshold in backend/agents/deterministic_policy_rules.py, and the evaluation by a model.
pub mod Numbers
pub mod Table
pub mod Defaults
pub mod Repository
pub mod Resolver
pub mod Evaluation
pub mod Checker
use contract_agent_capstone.Prelude.{ℕ, Bool, List}
use contract_agent_capstone.Prelude.Text.{Text}

pub record PolicyRule : Type 0 where
  pub id : Text
  pub rule_text : Text
  pub rule_type : Text
  pub applies_to : List Text
  pub severity : Text
  pub section_reference : Text

-- A violation before it is tied to its clause; the confidence is in hundredths.
pub record Found : Type 0 where
  pub rule_id : Text
  pub issue : Text
  pub severity : Text
  pub suggested_fix : Text
  pub confidence : ℕ
