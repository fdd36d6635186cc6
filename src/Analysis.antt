-- ===== src/Analysis.antt =====
-- The deterministic tools of the analysis, in backend/agents/: what a clause and a violation are,
-- the risk score, the redlines, and the quality grade. Scores are in hundredths.
pub mod Risk
pub mod Redlines
pub mod Grade
use contract_agent_capstone.Prelude.{ℕ, Bool, true, false, Option, none, some, List}
use contract_agent_capstone.Prelude.Text.{Text}

-- The dictionaries that pass between the steps; `none` is a key that is not there.
pub record Clause : Type 0 where
  pub clause_id : Text
  pub clause_type : Text
  pub content : Text
  pub confidence_score : Option ℕ
  pub grounded : Option Bool

pub record Violation : Type 0 where
  pub rule_id : Option Text
  pub issue : Option Text
  pub severity : Option Text
  pub suggested_fix : Option Text
  pub clause_id : Option Text
  pub clause_type : Option Text
  pub clause_content : Option Text
  pub clause_grounded : Option Bool

-- `d.get(key, default)`
abbrev pub get_or {ℓ} : {A : Type ℓ} → A → Option A → A
get_or d none = d
get_or d (some a) = a
