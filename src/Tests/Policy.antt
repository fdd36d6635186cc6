-- ===== src/Tests/Policy.antt =====
-- The policy rules, the evaluation and the policy checker on concrete clauses.
use contract_agent_capstone.Prelude.{
  ◌≡◌, refl, ◌⊎◌, inl, inr, true, false, none, some, List, [], ◌∷◌, ◌++◌, arith, All, ◌==◌, beq→eq,
  Bool-cases, length, nat_eq,
}
use contract_agent_capstone.Prelude.Text.{Text, codes, text_eq, is_space, strip, lower}
use contract_agent_capstone.Prelude.Dict.{Dict, lookup, insert, lookup-insert}
use contract_agent_capstone.Exec.{ok}
use contract_agent_capstone.Analysis.{Clause}
use contract_agent_capstone.Regex.{run, repeat, search_at, search, is_digit, is_word}
use contract_agent_capstone.Policy.{PolicyRule, Found}
use contract_agent_capstone.Policy.Numbers.{
  extract_multiplier, extract_dollar_amount, extract_days, extract_months,
}
use contract_agent_capstone.Policy.Table.{
  Formats, deterministic_rules, violation, compare_number, evaluate_deterministic,
}
use contract_agent_capstone.Policy.Table.Evidence.{Evidence, evaluate_deterministic-Evidence}
use contract_agent_capstone.Policy.Defaults.{
  default_policy_rules, filter_default_rules_by_contract_type,
}
use contract_agent_capstone.Policy.Repository.{
  PolicyGraph, get_applicable_policies, delete_policy, order_by_severity, insert_rule,
}
use contract_agent_capstone.Policy.Repository.Tenants.{delete_keeps_applicable}
use contract_agent_capstone.Policy.Resolver.{GraphReads, get_applicable_rules}
use contract_agent_capstone.Policy.Evaluation.{
  Services, Reply, sorted, insert_text, cache_key, raw_cache_key, build_prompt, evaluate_clause,
}
use contract_agent_capstone.Policy.Checker.{
  eval_status, check_clause, check_clauses, policy_checker_run,
}
use contract_agent_capstone.Policy.Checker.Citing.{Justified, policy_checker_run-Justified}
use contract_agent_capstone.Policy.Evaluation.Honest.{IsFaithful, IsHonest}
use contract_agent_capstone.Policy.Checker.Counted.{Tells, policy_checker_run-Tells}

abbrev formats : Formats
formats = record {
  float_text = λ d. codes "float";
  grouped_text = λ d. codes "grouped";
  int_text = λ n. codes "int";
}

abbrev found : Text → Found
found id = record {
  rule_id = id;
  issue = codes "too open";
  severity = codes "HIGH";
  suggested_fix = codes "narrow it";
  confidence = 90;
}

-- The model cites a default rule and one that no list has.
abbrev reply : Reply
reply = record {
  parsed = some (found (codes "default_non_compete_scope") ∷ found (codes "invented") ∷ []);
  parsing_error = [];
  model_used = codes "gemini";
  from_fallback = false;
}

-- A cache that keeps everything; the digest is the text itself.
abbrev services : Services (Dict Text (List Found))
services = record {
  model_name = codes "gemini";
  is_configured = true;
  cache_enabled = true;
  digest = λ t. t;
  recall = λ k w. lookup k w;
  remember = λ k vs w. insert k vs w;
  record_call = λ model hit fallback w. w;
  record_citations = λ m n w. w;
  invoke = λ prompt w. (ok reply, w);
}

services-IsFaithful : IsFaithful services
services-IsFaithful = record {
  recall-remember = kept;
  recall-record_call = λ k model hit fallback u w h. h;
  recall-record_citations = λ k m n u w h. h;
  recall-invoke = λ k prompt u w h. h;
}
  where
    kept :
        (k j : Text) (u v : List Found) (w : Dict Text (List Found))
        → lookup k (insert j v w) ≡ some u
        → ((k ≡ j) × (u ≡ v)) ⊎ (lookup k w ≡ some u)
    kept k j u v w h = elim (Bool-cases (j == k)) [
      | inl e ↦ inl (ground (arith, beq→eq j k e), ground (arith, lookup-insert j k v w, e, h))
      | inr e ↦ inr (ground (arith, lookup-insert j k v w, e, h))
    ]

abbrev template : Text → Text → Text → Text
template clause_type clause_text rules = clause_type ++ clause_text ++ rules

abbrev short_notice : Clause
short_notice = record {
  clause_id = codes "c1";
  clause_type = codes "Notice Period To Terminate Renewal";
  content = codes "Notice is given 10 days before.";
  confidence_score = some 90;
  grounded = some true;
}

abbrev non_compete : Clause
non_compete = record {
  clause_id = codes "c2";
  clause_type = codes "Non-Compete";
  content = codes "No work for others, ever.";
  confidence_score = some 80;
  grounded = none;
}

abbrev clauses : List Clause
clauses = short_notice ∷ non_compete ∷ []

abbrev empty_reads : GraphReads
empty_reads = record { for_tenant = ok []; for_rules = ok [] }

abbrev no_entries : Dict Text (List Found)
no_entries = []

no_entries-IsHonest : IsHonest services template no_entries
unfolding lookup
no_entries-IsHonest k vs h = cc

policy_checker_run-Justified_example :
    IsHonest services template
      (policy_checker_run formats services template empty_reads
        (some (codes "t"))
        (codes "general")
        (some clauses)
        no_entries).1
    × All
        (Justified services template services-IsFaithful
          (get_applicable_rules empty_reads (some (codes "t")) (codes "general")))
        (policy_checker_run formats services template empty_reads
          (some (codes "t"))
          (codes "general")
          (some clauses)
          no_entries).0.violations
policy_checker_run-Justified_example =
    policy_checker_run-Justified services template services-IsFaithful formats empty_reads
      (some (codes "t")) (codes "general") (some clauses) no_entries no_entries-IsHonest

policy_checker_run-Tells_example :
    Tells 2
      (policy_checker_run formats services template empty_reads none
        (codes "general")
        (some clauses)
        no_entries).0
policy_checker_run-Tells_example =
    policy_checker_run-Tells formats services template empty_reads none (codes "general") clauses
      no_entries

-- The table decides the first clause, and of the citations for the second one is discarded.
two_violations :
    length
      (policy_checker_run formats services template empty_reads none
        (codes "general")
        (some clauses)
        no_entries).0.violations
    ≡ 2
unfolding policy_checker_run check_clauses check_clause evaluate_deterministic compare_number
    extract_days search search_at run repeat is_digit is_word is_space lower strip violation
    deterministic_rules lookup insert evaluate_clause get_applicable_rules
    filter_default_rules_by_contract_type default_policy_rules cache_key raw_cache_key build_prompt
    sorted insert_text eval_status
two_violations = refl

abbrev notice_violation : Found
notice_violation = record {
  rule_id = codes "deterministic_notice_period";
  issue = codes "Notice period of int days is below the 30-day policy minimum.";
  severity = codes "MEDIUM";
  suggested_fix = codes "At least 30 days' notice is required to terminate an auto-renewal.";
  confidence = 100;
}

notice_found :
    evaluate_deterministic formats (codes "Notice Period To Terminate Renewal") short_notice.content
    ≡ some (some notice_violation)
unfolding evaluate_deterministic compare_number extract_days search search_at run repeat is_digit
    is_word is_space lower strip violation deterministic_rules lookup
notice_found = refl

evaluate_deterministic-Evidence_example :
    Evidence (codes "Notice Period To Terminate Renewal") short_notice.content
evaluate_deterministic-Evidence_example =
    evaluate_deterministic-Evidence formats short_notice.content
      (codes "Notice Period To Terminate Renewal") notice_violation notice_found

-- A dollar sign before a comma has no number behind it: converting it raises.
dollar_comma :
    evaluate_deterministic formats (codes "Minimum Commitment") (codes "Paid in US$, monthly.")
    ≡ none
unfolding evaluate_deterministic compare_number extract_dollar_amount search search_at run repeat
    is_digit is_word is_space lower strip deterministic_rules lookup
dollar_comma = refl

cap_of_three :
    extract_multiplier (codes "limited to 2.5 times the fees")
    ≡ some (record { units = 25; places = 1 })
unfolding extract_multiplier search search_at run repeat is_digit is_word is_space lower strip
cap_of_three = refl

two_years : extract_months (codes "a term of 2 Years") ≡ some 24
unfolding extract_months search search_at run repeat is_digit is_word is_space lower strip
two_years = refl

abbrev own_rule : PolicyRule
own_rule = record {
  id = codes "r1";
  rule_text = codes "No auto-renewal.";
  rule_type = codes "prohibited";
  applies_to = codes "msa" ∷ [];
  severity = codes "LOW";
  section_reference = codes "2";
}

abbrev stored_policies : PolicyGraph
stored_policies =
    record {
      id = codes "p1";
      name = codes "Policy";
      tenant_id = codes "t";
      version = codes "1.0";
      checksum = codes "c";
      active = none;
      rules = own_rule ∷ [];
    }
    ∷ []

delete_keeps_applicable_example :
    get_applicable_policies
      (codes "t")
      (codes "msa")
      (delete_policy (codes "p1") (codes "t") stored_policies).1
    ≡ get_applicable_policies (codes "t") (codes "msa") stored_policies
delete_keeps_applicable_example =
    delete_keeps_applicable (codes "t") (codes "p1") (codes "t") (codes "msa") stored_policies

still_there : length (get_applicable_policies (codes "t") (codes "msa") stored_policies) ≡ 1
unfolding get_applicable_policies order_by_severity insert_rule
still_there = refl
