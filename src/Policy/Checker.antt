-- ===== src/Policy/Checker.antt =====
-- `PolicyCheckerTool._run` in backend/agents/intelligence_tools.py: every clause against the table
-- first, and otherwise against the applicable rules. The audit log is not modelled.
pub mod Citing
pub mod Counted
use contract_agent_capstone.Prelude.{
  ℕ, Bool, true, false, Option, none, some, List, [], ◌∷◌, ◌++◌, map, length, ltb, ◌==◌,
  if◌then◌else◌, nat_eq,
}
use contract_agent_capstone.Prelude.Text.{Text}
use contract_agent_capstone.Exec.{Result, ok, err}
use contract_agent_capstone.Cache.Client.{Exception}
use contract_agent_capstone.Analysis.{Clause, Violation, get_or}
use contract_agent_capstone.Analysis.Grade.{Status, success, partial, failed}
use contract_agent_capstone.Execution.Model.{PolicyCheck}
use contract_agent_capstone.Policy.{PolicyRule, Found}
use contract_agent_capstone.Policy.Table.{Formats, evaluate_deterministic}
use contract_agent_capstone.Policy.Evaluation.{Services, evaluate_clause}
use contract_agent_capstone.Policy.Resolver.{GraphReads, get_applicable_rules}

-- `v.update({...})`; nothing later reads the confidence.
abbrev pub attach : Clause → Found → Violation
attach clause v = record {
  rule_id = some v.rule_id;
  issue = some v.issue;
  severity = some v.severity;
  suggested_fix = some v.suggested_fix;
  clause_id = some clause.clause_id;
  clause_type = some clause.clause_type;
  clause_content = some clause.content;
  clause_grounded = some (get_or true clause.grounded);
}

-- What the clauses come to so far: their violations, and the ids of those that failed.
abbrev pub Tally : Type 0
Tally = List Violation × List Text

-- The status from the number of failed clauses and of all clauses.
unfoldable pub eval_status : ℕ → ℕ → Status
eval_status failed_count total =
    if failed_count == 0 then success else (if ltb failed_count total then partial else failed)

abbrev pub failed_check : PolicyCheck
failed_check = record { violations = []; failed_clause_ids = []; status = failed }

abbrev pub checked : List Clause → Option Tally → PolicyCheck
checked clauses none = failed_check
checked clauses (some (violations, failed_clause_ids)) = record {
  violations = violations;
  failed_clause_ids = failed_clause_ids;
  status = eval_status (length failed_clause_ids) (length clauses);
}

module _ {W : Type 0} (F : Formats) (S : Services W) (template : Text → Text → Text → Text) where
  -- A clause that the table does not decide.
  abbrev pub evaluated : Clause → Result Exception (List Found) → Tally
  evaluated clause (ok found) = (map (attach clause) found, [])
  evaluated clause (err e) = ([], clause.clause_id ∷ [])

  -- One turn of the loop; `none` where the table raises, which ends the loop.
  unfoldable pub check_clause : List PolicyRule → Clause → W → Option Tally × W
  check_clause rules clause w = elim (evaluate_deterministic F clause.clause_type clause.content) [
    | none ↦ (none, w)
    | some (some v) ↦ (some (attach clause v ∷ [], []), w)
    | some none ↦
        let (r, w') = evaluate_clause S template clause.clause_type clause.content rules w in
        (some (evaluated clause r), w')
  ]

  abbrev pub add_tally : Tally → Option Tally → Option Tally
  add_tally (vs, ids) none = none
  add_tally (vs, ids) (some (ws, js)) = some (vs ++ ws, ids ++ js)

  unfoldable pub check_clauses : List PolicyRule → List Clause → W → Option Tally × W
  check_clauses rules [] w = (some ([], []), w)
  check_clauses rules (c ∷ cs) w =
      let (o, w1) = check_clause rules c w in
      elim o [
        | none ↦ (none, w1)
        | some t ↦ let (rest, w2) = check_clauses rules cs w1 in (add_tally t rest, w2)
      ]

  -- `none` is a text that is no JSON.
  unfoldable pub policy_checker_run :
      GraphReads → Option Text → Text → Option (List Clause) → W → PolicyCheck × W
  policy_checker_run reads tenant_id contract_type none w = (failed_check, w)
  policy_checker_run reads tenant_id contract_type (some clauses) w =
      let (t, w') = check_clauses (get_applicable_rules reads tenant_id contract_type) clauses w in
      (checked clauses t, w')
