-- ===== src/Analysis/Grade/Rubric.antt =====
-- What the rubric asks of an analysis.
use contract_agent_capstone.Prelude.{◌≡◌, Bool, true, false, List, arith, ◌↔◌}
use contract_agent_capstone.Prelude.Text.{Text, text_eq}
use contract_agent_capstone.Prelude.Dict.{Dict}
use contract_agent_capstone.Analysis.{Clause}
use contract_agent_capstone.Analysis.Grade.{
  Status, grade_a, is_partial, any_status, core_failed, grounded_below, confidence_low,
  grade_analysis,
}

-- The best grade is given just for an analysis that is complete, in which no step was partial and no
-- core step failed, and whose clauses are nine in ten grounded with a confidence of 0.85 on average.
pub grade_a_iff :
    (node_status : Dict Text Status) (processing_complete : Bool) (clauses : List Clause)
    → (grade_analysis node_status processing_complete clauses ≡ grade_a) ↔ (
        (processing_complete ≡ true)
        × (core_failed node_status ≡ false)
        × (any_status is_partial node_status ≡ false)
        × (grounded_below 5 clauses ≡ false)
        × (grounded_below 9 clauses ≡ false)
        × (confidence_low clauses ≡ false))
unfolding grade_analysis
grade_a_iff node_status processing_complete clauses = ground arith
