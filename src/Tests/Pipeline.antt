-- ===== src/Tests/Pipeline.antt =====
-- The planning agent, the execution engine and the deterministic tools, on small inputs.
use contract_agent_capstone.Prelude.{
  ℕ, ◌+◌, ◌<◌, ◌≡◌, ◌≢◌, ◌⊎◌, refl, true, false, none, some, is_some, [], ◌∷◌, ltb, if◌then◌else◌,
}
use contract_agent_capstone.Prelude.Text.{Text, codes, text_eq, starts_with, has_part, lower}
use contract_agent_capstone.Prelude.Dict.{Dict, lookup}
use contract_agent_capstone.Exec.{ok, err}
use contract_agent_capstone.Planning.{
  simple, select_strategy, analyze_query, create_execution_plan, get_plan_status, step,
  extract_clauses, ExecutionStep,
}
use contract_agent_capstone.Analysis.{Clause, Violation}
use contract_agent_capstone.Analysis.Risk.{calculate_risk, error}
use contract_agent_capstone.Analysis.Risk.Bounds.{
  how_many, is_unexplained, total_risk, IsRated, calculate_risk_level,
}
use contract_agent_capstone.Analysis.Grade.{
  Status, success, partial, failed, grade_c, grade_f, core_failed,
}
use contract_agent_capstone.Execution.Model.{Tools, StepError, initial_context}
use contract_agent_capstone.Execution.Attempts.{execute_step}
use contract_agent_capstone.Execution.{execute_plan, format_final_results}
use contract_agent_capstone.Execution.Retry.{Tries, execute_step-Tries}
use contract_agent_capstone.Execution.Plan.{planned_query_completes}
use contract_agent_capstone.Execution.Outcome.{final_grade_never_c, core_failure_escalates}

abbrev query : Text
query = codes "Compare liability"

abbrev stamp : Text
stamp = codes "20250101_000000"

abbrev contract : Text
contract = codes "This agreement"

abbrev overloaded : StepError
overloaded = record { resource_exhausted = false; message = codes "overloaded" }

-- The detector fails twice before it finds nothing; the world counts its calls.
abbrev tools : Tools ℕ
tools = record {
  clause_detector = λ text calls. (if ltb calls 2 then err overloaded else ok [], calls + 1);
  policy_checker = λ clauses calls.
      (ok (record { violations = []; failed_clause_ids = []; status = success }), calls + 1);
  cuad_tools = λ context calls. (
    ok (record { analysis_method = codes "optimized_phase3"; enhanced_clauses = some [] }),
    calls + 1,
  );
  timed_out = λ step attempt calls. false;
  breaker_closed = λ calls. true;
}

abbrev unlimited : Violation
unlimited = record {
  rule_id = some (codes "r1");
  issue = some (codes "Liability is unlimited");
  severity = some (codes "CRITICAL");
  suggested_fix = some (codes "Cap it");
  clause_id = some (codes "c1");
  clause_type = some (codes "Cap On Liability");
  clause_content = some (codes "No cap");
  clause_grounded = some true;
}

abbrev unnamed : Violation
unnamed = record unlimited { issue = none; suggested_fix = none; severity = none }

abbrev clause : Clause
clause = record {
  clause_id = codes "c1";
  clause_type = codes "Cap On Liability";
  content = codes "No cap";
  confidence_score = some 90;
  grounded = some true;
}

planned_query_completes_example :
    is_some (execute_plan tools (create_execution_plan stamp query []).0 contract 0) ≡ true
planned_query_completes_example = planned_query_completes tools query stamp contract [] 0

abbrev extraction : ExecutionStep
extraction = step (codes "step_1") extract_clauses (codes "Extract") []

execute_step-Tries_example :
    Tries tools extraction
      (initial_context contract)
      3
      0
      0
      (execute_step tools extraction (initial_context contract) 0)
execute_step-Tries_example = execute_step-Tries tools extraction (initial_context contract) 0

-- A failed extraction, with everything else done.
abbrev statuses : Dict Text Status
statuses = (codes "extract_clauses", failed) ∷ (codes "check_policies", partial) ∷ []

core_failure_escalates_example :
    let r = format_final_results (initial_context contract) statuses in
    (r.escalated ≡ true) × (r.processing_complete ≡ false) × (r.quality_grade ≡ grade_f)
unfolding core_failed lookup
core_failure_escalates_example = core_failure_escalates (initial_context contract) statuses refl

final_grade_never_c_example :
    (format_final_results (initial_context contract) statuses).quality_grade ≢ grade_c
final_grade_never_c_example = final_grade_never_c (initial_context contract) statuses

calculate_risk_level_example :
    let vs = unlimited ∷ unnamed ∷ [] in
    ((0 < how_many is_unexplained vs)
      × ((calculate_risk vs).overall_risk_score ≡ none)
      × ((calculate_risk vs).risk_level ≡ error))
    ⊎ ((how_many is_unexplained vs ≡ 0) × IsRated (total_risk vs) (calculate_risk vs))
calculate_risk_level_example = calculate_risk_level (unlimited ∷ unnamed ∷ [])

-- A query for a simple plan.
strategy_test : select_strategy (analyze_query (codes "Review this")) ≡ simple
unfolding select_strategy analyze_query has_part starts_with lower
strategy_test = refl

status_test : get_plan_status (codes "simple_1") [] ≡ none
unfolding get_plan_status
status_test = refl
