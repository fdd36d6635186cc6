-- ===== src/Analysis/Risk.antt =====
-- `RiskCalculatorTool._run` of agents/intelligence_tools.py, on parsed arguments.
pub mod Bounds
use contract_agent_capstone.Prelude.{
  ℕ, ◌+◌, Bool, true, false, Option, none, some, List, [], ◌∷◌, ◌++◌, keep, leb, ltb, ◌==◌,
  if◌then◌else◌,
}
use contract_agent_capstone.Prelude.Text.{Text, codes, text_eq}
use contract_agent_capstone.Analysis.{Violation, get_or}

pub data RiskLevel : Type 0 where
  critical high medium low error : RiskLevel

pub record CriticalIssue : Type 0 where
  pub issue : Text
  pub clause_id : Option Text
  pub clause_type : Option Text
  pub clause_grounded : Bool

-- `overall_risk_score` is `none` in the assessment of an error.
pub record RiskAssessment : Type 0 where
  pub overall_risk_score : Option ℕ
  pub risk_level : RiskLevel
  pub critical_issues : List Text
  pub critical_issue_details : List CriticalIssue
  pub recommendations : List Text

-- What one violation adds.
unfoldable pub weight : Violation → ℕ
weight v =
    let severity = get_or (codes "LOW") v.severity in
    if severity == codes "CRITICAL"
    then 25
    else (if severity == codes "HIGH" then 15 else (if severity == codes "MEDIUM" then 10 else 5))

abbrev pub base_risk : ℕ
base_risk = 30

-- The loop over the violations, from a score so far.
unfoldable pub add_risk : ℕ → List Violation → ℕ
add_risk score [] = score
add_risk score (v ∷ vs) = add_risk (score + weight v) vs

-- `min(risk_score, 100.0)`
unfoldable pub capped : ℕ → ℕ
capped n = if leb n 100 then n else 100

unfoldable pub risk_score : List Violation → ℕ
risk_score violations = capped (add_risk base_risk violations)

unfoldable pub risk_level_of : ℕ → RiskLevel
risk_level_of score =
    if leb 80 score
    then critical
    else (if leb 60 score then high else (if leb 40 score then medium else low))

abbrev pub is_critical : Violation → Bool
is_critical v = elim v.severity [ none ↦ false | some s ↦ s == codes "CRITICAL" ]

-- `v["issue"]` of each, which raises when the key is not there.
unfoldable pub issues_of : List Violation → Option (List CriticalIssue)
issues_of [] = some []
issues_of (v ∷ vs) =
    let rest = issues_of vs in
    elim v.issue [
      | none ↦ none
      | some text ↦ elim rest [
        | none ↦ none
        | some details ↦ some (
            record {
              issue = text;
              clause_id = v.clause_id;
              clause_type = v.clause_type;
              clause_grounded = get_or true v.clause_grounded;
            }
            ∷ details)
      ]
    ]

unfoldable pub recommendations_for : List Violation → ℕ → List Text
recommendations_for violations score =
    elim violations [ [] ↦ [] | _ ∷ _ ↦ codes "Address policy violations before signing" ∷ [] ]
    ++ (if ltb 70 score then codes "Requires legal review and approval" ∷ [] else [])

abbrev pub failed_assessment : RiskAssessment
failed_assessment = record {
  overall_risk_score = none;
  risk_level = error;
  critical_issues = [];
  critical_issue_details = [];
  recommendations = codes "Risk calculation failed - manual review required" ∷ [];
}

abbrev pub issue_texts : List CriticalIssue → List Text
issue_texts [] = []
issue_texts (i ∷ is) = i.issue ∷ issue_texts is

unfoldable pub calculate_risk : List Violation → RiskAssessment
calculate_risk violations =
    let score = risk_score violations in
    elim (issues_of (keep is_critical violations)) [
      | none ↦ failed_assessment
      | some details ↦ record {
        overall_risk_score = some score;
        risk_level = risk_level_of score;
        critical_issues = issue_texts details;
        critical_issue_details = details;
        recommendations = recommendations_for violations score;
      }
    ]
