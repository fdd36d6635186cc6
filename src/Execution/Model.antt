-- ===== src/Execution/Model.antt =====
-- What the steps of a plan give and read, and the tools behind them.
use contract_agent_capstone.Prelude.{ℕ, Bool, Option, none, List, []}
use contract_agent_capstone.Prelude.Text.{Text, text_eq}
use contract_agent_capstone.Exec.{Result}
use contract_agent_capstone.Planning.{ExecutionStep}
use contract_agent_capstone.Analysis.{Clause, Violation}
use contract_agent_capstone.Analysis.Risk.{RiskAssessment}
use contract_agent_capstone.Analysis.Redlines.{Redline, Validation}
use contract_agent_capstone.Analysis.Grade.{Status}

-- The result of the policy check, with its own status.
pub record PolicyCheck : Type 0 where
  pub violations : List Violation
  pub failed_clause_ids : List Text
  pub status : Status

-- The part of the mitigation's result that later steps read; some tools enhance no clauses.
pub record CuadMitigation : Type 0 where
  pub analysis_method : Text
  pub enhanced_clauses : Option (List Clause)

pub data Output : Type 0 where
  clauses_out : List Clause → Output
  policy_out : PolicyCheck → Output
  risk_out : RiskAssessment → Output
  redlines_out : List Redline → Output
  validation_out : Validation → Output
  cuad_out : CuadMitigation → Output

-- An exception: whether it is a `ResourceExhausted`, and its text.
pub record StepError : Type 0 where
  pub resource_exhausted : Bool
  pub message : Text

pub record ExecutionContext : Type 0 where
  pub contract_text : Text
  pub extracted_clauses : List Clause
  pub policy_violations : List Violation
  pub policy_check_failed_clause_ids : List Text
  pub risk_data : Option RiskAssessment
  pub redline_suggestions : List Redline
  pub validation_results : Option Validation
  pub cuad_analysis_method : Option Text

abbrev pub initial_context : Text → ExecutionContext
initial_context contract_text = record {
  contract_text = contract_text;
  extracted_clauses = [];
  policy_violations = [];
  policy_check_failed_clause_ids = [];
  risk_data = none;
  redline_suggestions = [];
  validation_results = none;
  cuad_analysis_method = none;
}

-- The tools with a language model behind them: each run changes the world.
pub record Tools (W : Type 0) : Type 0 where
  pub clause_detector : Text → W → Result StepError (List Clause) × W
  pub policy_checker : List Clause → W → Result StepError PolicyCheck × W
  pub cuad_tools : ExecutionContext → W → Result StepError CuadMitigation × W
  -- The step's time is up when the retry of that number is about to start.
  pub timed_out : ExecutionStep → ℕ → W → Bool
  -- The state of the circuit breaker in front of the model is "closed".
  pub breaker_closed : W → Bool

-- `success`, the output and the error of an `ExecutionResult`.
abbrev pub ExecutionResult : Type 0
ExecutionResult = Result Text Output
