-- ===== src/Policy/Table.antt =====
-- backend/agents/deterministic_policy_rules.py: the rules with one number and a threshold.
pub mod Evidence
use contract_agent_capstone.Prelude.{
  ℕ, ◌≡◌, refl, Bool, true, false, ◌&&◌, ◌||◌, Option, none, some, List, [], ◌∷◌, ◌++◌, ltb, ◌==◌,
  if◌then◌else◌,
}
use contract_agent_capstone.Prelude.Text.{Text, codes, text_eq, is_empty}
use contract_agent_capstone.Prelude.Dict.{Dict, lookup}
use contract_agent_capstone.Exec.{Result, ok, err}
use contract_agent_capstone.Policy.{PolicyRule, Found}
use contract_agent_capstone.Policy.Numbers.{
  Decimal, exceeds_two, exceeds_hundred_thousand, extract_multiplier, extract_dollar_amount,
  extract_days, extract_months,
}

abbrev table_rule : Text → Text → Text → PolicyRule
table_rule id severity rule_text = record {
  id = id;
  rule_text = rule_text;
  rule_type = codes "mandatory";
  applies_to = codes "general" ∷ [];
  severity = severity;
  section_reference = codes "Deterministic policy table";
}

unfoldable pub deterministic_rules : Dict Text PolicyRule
deterministic_rules =
    (
      codes "Cap On Liability",
      table_rule (codes "deterministic_cap_on_liability") (codes "HIGH") (
          codes
            "Liability shall not exceed 2x the total fees paid or payable under the agreement."),
    )
    ∷ (
      codes "Minimum Commitment",
      table_rule (codes "deterministic_minimum_commitment") (codes "MEDIUM") (
          codes
            "Minimum purchase/spend commitments should not exceed $100,000 without Legal approval."),
    )
    ∷ (
      codes "Notice Period To Terminate Renewal",
      table_rule (codes "deterministic_notice_period") (codes "MEDIUM")
          (codes "At least 30 days' notice is required to terminate an auto-renewal."),
    )
    ∷ (
      codes "Warranty Duration",
      table_rule (codes "deterministic_warranty_duration") (codes "MEDIUM")
          (codes "Warranty periods should not exceed 12 months without Legal approval."),
    )
    ∷ (
      codes "Renewal Term",
      table_rule (codes "deterministic_renewal_term") (codes "MEDIUM")
          (codes "Auto-renewal terms should not exceed 12 months without Legal approval."),
    )
    ∷ []

-- How the numbers are printed into an issue: `{value}` of a float, `{value:,.0f}`, and of an int.
pub record Formats : Type 0 where
  pub float_text : Decimal → Text
  pub grouped_text : Decimal → Text
  pub int_text : ℕ → Text

unfoldable pub violation : PolicyRule → Text → Found
violation rule issue = record {
  rule_id = rule.id;
  issue = issue;
  severity = rule.severity;
  suggested_fix = rule.rule_text;
  confidence = 100;
}

-- The issue if the number is there and past the threshold.
abbrev pub issue_if {ℓ} : {A : Type ℓ} → (A → Bool) → (A → Text) → Option A → Option Text
issue_if test issue none = none
issue_if test issue (some v) = if test v then some (issue v) else none

abbrev is_type : Text → Text → Bool
is_type clause_type name = clause_type == name

module _ (F : Formats) where
  abbrev pub multiplier_issue : Decimal → Text
  multiplier_issue v =
      codes "Liability cap of " ++ F.float_text v ++ codes "x fees exceeds the 2x policy maximum."

  abbrev pub dollar_issue : Decimal → Text
  dollar_issue v =
      codes "Minimum commitment of $"
      ++ F.grouped_text v
      ++ codes " exceeds the $100,000 policy threshold."

  abbrev pub days_issue : ℕ → Text
  days_issue v =
      codes "Notice period of " ++ F.int_text v ++ codes " days is below the 30-day policy minimum."

  abbrev pub months_issue : Text → ℕ → Text
  months_issue clause_type v =
      clause_type
      ++ codes " of "
      ++ F.int_text v
      ++ codes " months exceeds the 12-month policy maximum."

  -- `none` where converting the dollar amount raises.
  abbrev pub commitment_issue : Option (Option Decimal) → Option (Option Text)
  commitment_issue none = some none
  commitment_issue (some none) = none
  commitment_issue (some (some v)) =
      some (if exceeds_hundred_thousand v then some (dollar_issue v) else none)

  -- The comparison for one clause type: the issue, nothing, or `none` for an exception.
  unfoldable pub compare_number : Text → Text → Option (Option Text)
  compare_number clause_type clause_text =
      if is_type clause_type (codes "Cap On Liability")
      then some (issue_if exceeds_two multiplier_issue (extract_multiplier clause_text))
      else (if is_type clause_type (codes "Minimum Commitment")
          then commitment_issue (extract_dollar_amount clause_text)
          else (if is_type clause_type (codes "Notice Period To Terminate Renewal")
              then some (issue_if (λ v. ltb v 30) days_issue (extract_days clause_text))
              else (if is_type clause_type (codes "Warranty Duration")
                    || is_type clause_type (codes "Renewal Term")
                  then some (
                      issue_if (λ v. ltb 12 v) (months_issue clause_type)
                        (extract_months clause_text))
                  else some none)))

  -- `none` for an exception, which leaves the function.
  unfoldable pub evaluate_deterministic : Text → Text → Option (Option Found)
  evaluate_deterministic clause_type clause_text =
      if is_empty clause_text then some none else elim (lookup clause_type deterministic_rules) [
        | none ↦ some none
        | some rule ↦ elim (compare_number clause_type clause_text) [
          | none ↦ none
          | some none ↦ some none
          | some (some issue) ↦ some (some (violation rule issue))
        ]
      ]
