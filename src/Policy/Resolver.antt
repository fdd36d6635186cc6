-- ===== src/Policy/Resolver.antt =====
-- backend/agents/policy_rule_resolver.py: which rules apply for a tenant and a type of contract.
use contract_agent_capstone.Prelude.{Option, none, some, List, [], ◌∷◌, if◌then◌else◌}
use contract_agent_capstone.Prelude.Text.{Text, is_empty}
use contract_agent_capstone.Exec.{Result, ok, err}
use contract_agent_capstone.Cache.Client.{Exception}
use contract_agent_capstone.Policy.{PolicyRule}
use contract_agent_capstone.Policy.Defaults.{filter_default_rules_by_contract_type}
use contract_agent_capstone.Policy.Repository.{
  PolicyGraph, PolicyDocument, get_policies_by_tenant, get_applicable_policies,
}

-- What the two reads of the graph come to; either may fail.
pub record GraphReads : Type 0 where
  pub for_tenant : Result Exception PolicyGraph
  pub for_rules : Result Exception PolicyGraph

abbrev pub policies_or_defaults :
    Text → Text → Result Exception PolicyGraph → List PolicyDocument → List PolicyRule
policies_or_defaults tenant contract_type reads [] =
    filter_default_rules_by_contract_type contract_type
policies_or_defaults tenant contract_type (err e) (_ ∷ _) =
    filter_default_rules_by_contract_type contract_type
policies_or_defaults tenant contract_type (ok g) (_ ∷ _) =
    get_applicable_policies tenant contract_type g

abbrev pub rules_of_tenant : GraphReads → Text → Text → List PolicyRule
rules_of_tenant reads tenant contract_type = elim reads.for_tenant [
  | err e ↦ filter_default_rules_by_contract_type contract_type
  | ok g ↦
      policies_or_defaults tenant contract_type reads.for_rules (get_policies_by_tenant tenant g)
]

unfoldable pub get_applicable_rules : GraphReads → Option Text → Text → List PolicyRule
get_applicable_rules reads none contract_type = filter_default_rules_by_contract_type contract_type
get_applicable_rules reads (some tenant) contract_type =
    if is_empty tenant
    then filter_default_rules_by_contract_type contract_type
    else rules_of_tenant reads tenant contract_type
