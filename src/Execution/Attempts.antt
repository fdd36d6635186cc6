-- ===== src/Execution/Attempts.antt =====
-- `StepExecutor`: the attempts of one step.
use contract_agent_capstone.Prelude.{ℕ, zero, suc, Bool, false, ◌||◌, ◌++◌, if◌then◌else◌}
use contract_agent_capstone.Prelude.Text.{Text, codes, text_eq, has_part}
use contract_agent_capstone.Exec.{Result, ok, err}
use contract_agent_capstone.Planning.{
  StepType, extract_clauses, check_policies, assess_risk, generate_redlines, validate_results,
  cuad_mitigation, deviation_analysis, jurisdiction_adaptation, precedent_matching, step_value,
  ExecutionStep,
}
use contract_agent_capstone.Analysis.Risk.{calculate_risk}
use contract_agent_capstone.Analysis.Redlines.{
  Validation, generate_redlines_for, execute_validation,
}
use contract_agent_capstone.Execution.Model.{
  ExecutionContext, ExecutionResult, Output, StepError, Tools, clauses_out, cuad_out, policy_out,
  redlines_out, risk_out, validation_out,
}

unfoldable pub is_quota_exhausted : StepError → Bool
is_quota_exhausted e =
    e.resource_exhausted
    || has_part e.message (codes "RESOURCE_EXHAUSTED")
    || has_part e.message (codes "429")

-- The number of retries after the first attempt.
abbrev pub max_retries : ℕ
max_retries = 2

abbrev pub output_as : {A : Type 0} → (A → Output) → Result StepError A → Result StepError Output
output_as f (ok a) = ok (f a)
output_as f (err e) = err e

abbrev pub plain_error : Text → StepError
plain_error t = record { resource_exhausted = false; message = t }

abbrev pub validated : Result Text Validation → Result StepError Output
validated (ok v) = ok (validation_out v)
validated (err e) = err (plain_error e)

module _ {W : Type 0} (T : Tools W) where
  abbrev unknown_step : StepType → W → Result StepError Output × W
  unknown_step t w = (err (plain_error (codes "Unknown step type: " ++ step_value t)), w)

  -- One attempt, by the type of the step.
  unfoldable pub attempt_step : StepType → ExecutionContext → W → Result StepError Output × W
  attempt_step extract_clauses context w =
      let (r, w') = T.clause_detector context.contract_text w in (output_as clauses_out r, w')
  attempt_step check_policies context w =
      let (r, w') = T.policy_checker context.extracted_clauses w in (output_as policy_out r, w')
  attempt_step assess_risk context w = (ok (risk_out (calculate_risk context.policy_violations)), w)
  attempt_step generate_redlines context w =
      (ok (redlines_out (generate_redlines_for context.policy_violations)), w)
  attempt_step validate_results context w =
      (validated (execute_validation context.risk_data context.policy_violations), w)
  attempt_step cuad_mitigation context w =
      let (r, w') = T.cuad_tools context w in (output_as cuad_out r, w')
  attempt_step deviation_analysis context w = unknown_step deviation_analysis w
  attempt_step jurisdiction_adaptation context w = unknown_step jurisdiction_adaptation w
  attempt_step precedent_matching context w = unknown_step precedent_matching w

  -- The end of one attempt: a result, or an error that is not retried, or what `retry` does.
  unfoldable pub settle :
      Result StepError Output × W → (StepError → W → ExecutionResult × W) → ExecutionResult × W
  settle (ok output, w) retry = (ok output, w)
  settle (err e, w) retry =
      if is_quota_exhausted e
      then (err (codes "Rate limit or quota exceeded - not retrying: " ++ e.message), w)
      else retry e w

  -- The attempts from one of a number on, with as many retries left; `wait_for` can cut them off at
  -- the sleep before a retry.
  unfoldable pub attempts_from : ℕ → ℕ → ExecutionStep → ExecutionContext → W → ExecutionResult × W
  attempts_from zero attempt step context w =
      settle (attempt_step step.step_type context w)
        (λ e w'. (err (codes "Failed after 3 attempts: " ++ e.message), w'))
  attempts_from (suc left) attempt step context w =
      settle (attempt_step step.step_type context w) (λ e w'.
        let retried = attempts_from left (suc attempt) step context w' in
        if T.timed_out step (suc attempt) w' then (err (codes "Step timed out"), w') else retried)

  -- `execute_step`
  unfoldable pub execute_step : ExecutionStep → ExecutionContext → W → ExecutionResult × W
  execute_step step context w = attempts_from max_retries 0 step context w
