-- ===== src/Policy/Defaults.antt =====
-- backend/domain/policies/default_rules.py: the rules for a tenant without any of its own.
use contract_agent_capstone.Prelude.{Bool, ◌||◌, List, [], ◌∷◌, ◌++◌, contains, keep, if◌then◌else◌}
use contract_agent_capstone.Prelude.Text.{Text, codes, text_eq, is_empty}
use contract_agent_capstone.Policy.{PolicyRule}

abbrev default_rule : Text → Text → Text → Text → PolicyRule
default_rule id rule_type severity rule_text = record {
  id = id;
  rule_text = rule_text;
  rule_type = rule_type;
  applies_to = codes "general" ∷ [];
  severity = severity;
  section_reference = codes "Default policy set";
}

unfoldable pub default_policy_rules : List PolicyRule
default_policy_rules =
    default_rule (codes "default_uncapped_liability") (codes "prohibited") (codes "CRITICAL") (
      codes "Liability must not be uncapped/unlimited, or extend to indirect, "
      ++ codes "special, or consequential damages.")
    ∷ default_rule (codes "default_indemnification_scope") (codes "prohibited") (codes "CRITICAL") (
        codes "Indemnification must be mutual and limited to third-party IP "
        ++ codes "infringement, gross negligence, or willful misconduct - not broad, "
        ++ codes "one-sided, or open-ended.")
    ∷ default_rule (codes "default_termination_notice") (codes "mandatory") (codes "HIGH") (
        codes "Termination for convenience must require at least 30 days' written "
        ++ codes "notice, with payment for work already completed.")
    ∷ default_rule (codes "default_ip_assignment_carveout") (codes "mandatory") (codes "CRITICAL") (
        codes "IP assignment must carve out each party's pre-existing IP and "
        ++ codes "reusable tools/methodologies - the counterparty should own only "
        ++ codes "deliverables created specifically for the engagement.")
    ∷ default_rule (codes "default_non_compete_scope") (codes "recommended") (codes "MEDIUM") (
        codes "Non-compete restrictions should be reasonably limited in duration "
        ++ codes "(generally no more than 12-24 months) and in geographic/product scope.")
    ∷ default_rule (codes "default_exclusivity_scope") (codes "recommended") (codes "MEDIUM") (
        codes "Exclusivity commitments should be time-bound and tied to minimum "
        ++ codes "performance/volume commitments from the counterparty, not open-ended.")
    ∷ default_rule (codes "default_assignment_consent") (codes "mandatory") (codes "MEDIUM") (
        codes "Assignment of the agreement, including via change of control, should "
        ++ codes "require prior written consent rather than being freely permitted.")
    ∷ default_rule (codes "default_audit_rights_reasonable") (codes "recommended") (codes "LOW") (
        codes "Audit rights should be limited to reasonable frequency (e.g. annually), "
        ++ codes "business hours, and reasonable advance notice.")
    ∷ []

-- `contract_type in r.applies_to or "general" in r.applies_to`
abbrev pub is_applicable : Text → PolicyRule → Bool
is_applicable contract_type r =
    contains r.applies_to contract_type || contains r.applies_to (codes "general")

unfoldable pub filter_default_rules_by_contract_type : Text → List PolicyRule
filter_default_rules_by_contract_type contract_type =
    let kind = if is_empty contract_type then codes "general" else contract_type in
    keep (is_applicable kind) default_policy_rules
