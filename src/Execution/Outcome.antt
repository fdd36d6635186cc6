-- ===== src/Execution/Outcome.antt =====
-- What the final result says of the steps.
use contract_agent_capstone.Prelude.{◌≡◌, ◌≢◌, true, false, ◌||◌, [], ◌∷◌, arith}
use contract_agent_capstone.Prelude.Text.{Text, codes, text_eq}
use contract_agent_capstone.Prelude.Dict.{Dict, lookup}
use contract_agent_capstone.Analysis.Grade.{
  Status, grade_c, grade_f, is_failed, is_partial, any_status, step_failed, core_failed,
  grade_analysis,
}
use contract_agent_capstone.Execution.Model.{ExecutionContext}
use contract_agent_capstone.Execution.{format_final_results}

any_partial_incomplete :
    (d : Dict Text Status)
    → any_status is_partial d ≡ true
    → any_status (λ s. is_failed s || is_partial s) d ≡ true
any_partial_incomplete [] h = h
any_partial_incomplete ((k, s) ∷ d) h = ground (arith, h, any_partial_incomplete d)

any_failed_incomplete :
    (d : Dict Text Status)
    → any_status is_failed d ≡ true
    → any_status (λ s. is_failed s || is_partial s) d ≡ true
any_failed_incomplete [] h = h
any_failed_incomplete ((k, s) ∷ d) h = ground (arith, h, any_failed_incomplete d)

step_failed-any :
    (name : Text) (d : Dict Text Status) → step_failed name d ≡ true → any_status is_failed d ≡ true
unfolding lookup
step_failed-any name [] h = cc
step_failed-any name ((k, s) ∷ d) h = ground (arith, h, step_failed-any name d)

-- The final result never has the grade C: a partial step makes the processing incomplete, and then the
-- grade is D or worse.
pub final_grade_never_c :
    (c : ExecutionContext) (step_status : Dict Text Status)
    → (format_final_results c step_status).quality_grade ≢ grade_c
unfolding format_final_results grade_analysis
final_grade_never_c c step_status h = ground (arith, h, any_partial_incomplete step_status)

-- When a core step failed, the final result is escalated, is not complete, and has the grade F.
pub core_failure_escalates :
    (c : ExecutionContext) (step_status : Dict Text Status)
    → core_failed step_status ≡ true
    → let r = format_final_results c step_status in
      (r.escalated ≡ true) × (r.processing_complete ≡ false) × (r.quality_grade ≡ grade_f)
unfolding format_final_results grade_analysis core_failed
core_failure_escalates c step_status h = ground (
  arith,
  h,
  step_failed-any (codes "extract_clauses") step_status,
  step_failed-any (codes "check_policies") step_status,
  step_failed-any (codes "assess_risk") step_status,
  any_failed_incomplete step_status,
)
