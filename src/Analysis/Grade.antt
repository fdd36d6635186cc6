-- ===== src/Analysis/Grade.antt =====
-- backend/agents/supervisor/quality_grader.py: the grade of a finished analysis. A status is kept by
-- the name of the step's type, and the quotients of the two rates are multiplied out.
pub mod Rubric
use contract_agent_capstone.Prelude.{
  ℕ, ◌+◌, ◌*◌, Bool, true, false, not, ◌&&◌, ◌||◌, Option, none, some, List, [], ◌∷◌, length, keep,
  any, ltb, if◌then◌else◌,
}
use contract_agent_capstone.Prelude.Text.{Text, codes, text_eq}
use contract_agent_capstone.Prelude.Dict.{Dict, lookup}
use contract_agent_capstone.Analysis.{Clause, get_or}

pub data Status : Type 0 where
  success partial failed : Status

pub data Grade : Type 0 where
  grade_a grade_b grade_c grade_d grade_f : Grade

abbrev pub is_failed : Status → Bool
is_failed failed = true
is_failed partial = false
is_failed success = false

abbrev pub is_partial : Status → Bool
is_partial partial = true
is_partial failed = false
is_partial success = false

abbrev pub is_grounded : Clause → Bool
is_grounded c = get_or true c.grounded

-- `_grounded_rate(clauses) < t`, for `t` in tenths; of no clauses it is 1.
unfoldable pub grounded_below : ℕ → List Clause → Bool
grounded_below t [] = false
grounded_below t (c ∷ cs) = ltb (10 * length (keep is_grounded (c ∷ cs))) (t * length (c ∷ cs))

-- The scores that are numbers.
unfoldable pub scores : List Clause → List ℕ
scores [] = []
scores (c ∷ cs) =
    let rest = scores cs in elim c.confidence_score [ none ↦ rest | some n ↦ n ∷ rest ]

abbrev pub sum : List ℕ → ℕ
sum [] = 0
sum (n ∷ ns) = n + sum ns

-- `_avg_confidence(clauses) < 0.85`; of no scores it is 1.
unfoldable pub confidence_low : List Clause → Bool
confidence_low cs = ltb (sum (scores cs)) (85 * length (scores cs))

abbrev pub any_status : (Status → Bool) → Dict Text Status → Bool
any_status p [] = false
any_status p ((_, s) ∷ d) = p s || any_status p d

abbrev pub step_failed : Text → Dict Text Status → Bool
step_failed name d = elim (lookup name d) [ none ↦ false | some s ↦ is_failed s ]

unfoldable pub core_failed : Dict Text Status → Bool
core_failed d =
    step_failed (codes "extract_clauses") d
    || step_failed (codes "check_policies") d
    || step_failed (codes "assess_risk") d

-- `grade_analysis`, the grade alone: the first rule that applies.
unfoldable pub grade_analysis : Dict Text Status → Bool → List Clause → Grade
grade_analysis node_status processing_complete clauses =
    if core_failed node_status || grounded_below 5 clauses
    then grade_f
    else (if not processing_complete
        then grade_d
        else (if any_status is_partial node_status && grounded_below 7 clauses
            then grade_d
            else (if any_status is_partial node_status
                then grade_c
                else (if grounded_below 9 clauses || confidence_low clauses
                    then grade_b
                    else grade_a))))
