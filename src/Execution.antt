-- ===== src/Execution.antt =====
-- backend/agents/planning/execution_engine.py: a plan's steps are executed in turn, each with retries,
-- and the results are put together. The tools that call a language model are an interface; the
-- tracking of the workflow and the publishing of its progress are left out.
pub mod Model
pub mod Attempts
pub mod Retry
pub mod Plan
pub mod Outcome
use contract_agent_capstone.Prelude.{
  ℕ, zero, suc, ◌+◌, Bool, true, false, not, ◌&&◌, ◌||◌, Option, none, some, List, [], ◌∷◌, ◌++◌,
  is_some, ◌==◌, any, all, if◌then◌else◌,
}
use contract_agent_capstone.Prelude.Text.{Text, codes, text_eq, has_part}
use contract_agent_capstone.Prelude.Dict.{Dict, lookup, insert}
use contract_agent_capstone.Exec.{Result, ok, err}
use contract_agent_capstone.Planning.{
  StepType, extract_clauses, check_policies, assess_risk, generate_redlines, validate_results,
  cuad_mitigation, deviation_analysis, jurisdiction_adaptation, precedent_matching, step_value,
  ExecutionStep, ExecutionPlan,
}
use contract_agent_capstone.Analysis.{Clause, Violation, get_or}
use contract_agent_capstone.Analysis.Risk.{RiskLevel, RiskAssessment, calculate_risk}
use contract_agent_capstone.Analysis.Redlines.{
  Redline, Validation, generate_redlines_for, execute_validation,
}
use contract_agent_capstone.Analysis.Grade.{
  Status, success, partial, failed, Grade, is_failed, is_partial, any_status, grade_analysis,
}
use contract_agent_capstone.Execution.Model.{
  CuadMitigation, ExecutionContext, ExecutionResult, Output, PolicyCheck, StepError, Tools,
  clauses_out, cuad_out, initial_context, policy_out, redlines_out, risk_out, validation_out,
}
use contract_agent_capstone.Execution.Attempts.{execute_step}

-- `_wait_for_dependencies`: a result that is not there never comes, since the steps are executed one
-- after the other; that wait has no end.
abbrev pub Finished : Type 0
Finished = Dict Text ExecutionResult

unfoldable pub dependencies_met : ExecutionStep → Finished → Bool
dependencies_met step step_results = all (λ d. is_some (lookup d step_results)) step.dependencies

-- `_compute_step_status`
abbrev pub is_empty_extraction : StepType → Output → Bool
is_empty_extraction extract_clauses (clauses_out []) = true
is_empty_extraction _ _ = false

abbrev pub reported : Output → Status
reported (policy_out p) = p.status
reported _ = success

unfoldable pub compute_step_status : Bool → StepType → ExecutionResult → Status
compute_step_status breaker_closed t (err e) = failed
compute_step_status breaker_closed t (ok output) =
    if is_failed (reported output) || is_partial (reported output)
    then reported output
    else (if is_empty_extraction t output && not breaker_closed then failed else success)

-- `_update_context_with_result`, for the output that the step's type has.
unfoldable pub update_context : Output → ExecutionContext → ExecutionContext
update_context (clauses_out clauses) c = record c { extracted_clauses = clauses }
update_context (policy_out p) c = record c {
  policy_violations = p.violations;
  policy_check_failed_clause_ids = p.failed_clause_ids;
}
update_context (risk_out r) c = record c { risk_data = some r }
update_context (redlines_out r) c = record c { redline_suggestions = r }
update_context (validation_out v) c = record c { validation_results = some v }
update_context (cuad_out d) c = record c {
  cuad_analysis_method = some d.analysis_method;
  extracted_clauses = get_or c.extracted_clauses d.enhanced_clauses;
}

abbrev pub update_if_ok : ExecutionResult → ExecutionContext → ExecutionContext
update_if_ok (ok output) c = update_context output c
update_if_ok (err e) c = c

-- What `execute_plan` keeps while it goes through the steps.
pub record Progress (W : Type 0) : Type 0 where
  pub context : ExecutionContext
  pub step_results : Finished
  pub step_status : Dict Text Status
  pub world : W

module _ {W : Type 0} (T : Tools W) where
  -- The body of the loop, once the dependencies are there.
  unfoldable pub run_step : ExecutionStep → Progress W → Progress W
  run_step step p =
      let (r, w) = execute_step T step p.context p.world in
      record {
        context = update_if_ok r p.context;
        step_results = insert step.step_id r p.step_results;
        step_status =
            insert (step_value step.step_type)
              (compute_step_status (T.breaker_closed w) step.step_type r) p.step_status;
        world = w;
      }

  -- The loop over the steps; `none` is a wait without end.
  unfoldable pub run_steps : List ExecutionStep → Progress W → Option (Progress W)
  run_steps [] p = some p
  run_steps (step ∷ steps) p =
      let rest = run_steps steps (run_step step p) in
      if dependencies_met step p.step_results then rest else none

pub record FinalResult : Type 0 where
  pub clauses : List Clause
  pub violations : List Violation
  pub risk_assessment : Option RiskAssessment
  pub redlines : List Redline
  pub validation : Option Validation
  pub analysis_method : Option Text
  pub node_status : Dict Text Status
  pub processing_complete : Bool
  pub escalated : Bool
  pub quality_grade : Grade

unfoldable pub format_final_results : ExecutionContext → Dict Text Status → FinalResult
format_final_results c step_status =
    let any_failed = any_status (λ s. is_failed s || is_partial s) step_status in
    record {
      clauses = c.extracted_clauses;
      violations = c.policy_violations;
      risk_assessment = c.risk_data;
      redlines = c.redline_suggestions;
      validation = c.validation_results;
      analysis_method = c.cuad_analysis_method;
      node_status = step_status;
      processing_complete = not any_failed;
      escalated = any_status is_failed step_status;
      quality_grade = grade_analysis step_status (not any_failed) c.extracted_clauses;
    }

unfoldable pub execute_plan :
    {W : Type 0} → Tools W → ExecutionPlan → Text → W → Option (FinalResult × W)
execute_plan T plan contract_text w =
    elim (run_steps T plan.steps (record {
      context = initial_context contract_text;
      step_results = [];
      step_status = [];
      world = w;
    })) [ none ↦ none | some p ↦ some (format_final_results p.context p.step_status, p.world) ]
