-- ===== src/Analysis/Redlines.antt =====
-- `RedlineGeneratorTool._run` of agents/intelligence_tools.py, on parsed arguments, and
-- `StepExecutor._execute_validation` of agents/planning/execution_engine.py.
use contract_agent_capstone.Prelude.{
  ℕ, ◌-◌, ◌≡◌, refl, Bool, true, Option, none, some, List, [], ◌∷◌, ◌++◌, map, keep, length, ltb,
  ◌&&◌, ◌==◌, arith, not, if◌then◌else◌, nat_eq,
}
use contract_agent_capstone.Prelude.Text.{Text, codes, text_eq, is_empty}
use contract_agent_capstone.Exec.{Result, ok, err}
use contract_agent_capstone.Analysis.{Violation, get_or}
use contract_agent_capstone.Analysis.Risk.{RiskAssessment, is_critical}

pub record Redline : Type 0 where
  pub original_text : Text
  pub suggested_text : Text
  pub justification : Text
  pub priority : Text
  pub clause_id : Text
  pub clause_grounded : Bool
  pub rule_id : Option Text

abbrev pub redline_of : Violation → Redline
redline_of v = record {
  original_text = get_or [] v.clause_content;
  suggested_text = get_or [] v.suggested_fix;
  justification = get_or [] v.issue;
  priority = get_or (codes "MEDIUM") v.severity;
  clause_id = get_or (codes "unknown") v.clause_id;
  clause_grounded = get_or true v.clause_grounded;
  rule_id = v.rule_id;
}

-- The loop: a violation without a suggested fix is passed over.
unfoldable pub generate_redlines_for : List Violation → List Redline
generate_redlines_for [] = []
generate_redlines_for (v ∷ vs) =
    let rest = generate_redlines_for vs in
    if is_empty (get_or [] v.suggested_fix) then rest else redline_of v ∷ rest

abbrev pub has_fix : Violation → Bool
has_fix v = not (is_empty (get_or [] v.suggested_fix))

-- The redlines are those of the violations that suggest a fix, in their order, one for each.
pub generate_redlines_for-keep :
    (vs : List Violation) → generate_redlines_for vs ≡ map redline_of (keep has_fix vs)
unfolding generate_redlines_for
generate_redlines_for-keep [] = refl
generate_redlines_for-keep (v ∷ vs) = ground (arith, generate_redlines_for-keep vs)

pub record Validation : Type 0 where
  pub validation_score : ℕ
  pub issues : List Text

abbrev pub critical_count : List Violation → ℕ
critical_count violations = length (keep is_critical violations)

-- The checks on a score that is there.
unfoldable pub validate_score : ℕ → List Violation → Validation
validate_score risk_score violations =
    let unbacked = ltb 80 risk_score && critical_count violations == 0 in
    let understated = ltb risk_score 40 && ltb 2 (critical_count violations) in
    record {
      validation_score = (100 - (if unbacked then 30 else 0)) - (if understated then 30 else 0);
      issues =
          (if unbacked then codes "High risk score without critical violations" ∷ [] else [])
          ++ (if understated
              then codes "Low risk score with multiple critical violations" ∷ []
              else []);
    }

-- With no risk data the score is 0; comparing the `None` of a failed assessment raises.
unfoldable pub execute_validation : Option RiskAssessment → List Violation → Result Text Validation
execute_validation none violations = ok (validate_score 0 violations)
execute_validation (some risk) violations = elim risk.overall_risk_score [
  | none ↦ err (codes "'>' not supported between instances of 'NoneType' and 'int'")
  | some score ↦ ok (validate_score score violations)
]
