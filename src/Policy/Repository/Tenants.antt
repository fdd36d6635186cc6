-- ===== src/Policy/Repository/Tenants.antt =====
-- The rules that apply for a tenant, and deletion.
use contract_agent_capstone.Prelude.{◌≡◌, refl, inl, inr, List, [], ◌∷◌, keep, Bool-cases}
use contract_agent_capstone.Prelude.Text.{Text, text_eq}
use contract_agent_capstone.Policy.{PolicyRule}
use contract_agent_capstone.Policy.Repository.{
  PolicyGraph, is_policy, is_of_tenant, rules_of, deactivate, get_applicable_policies,
  delete_policy,
}

module _ (tenant : Text) where
  abbrev own_rules : PolicyGraph → List PolicyRule
  own_rules g = rules_of (keep (is_of_tenant tenant) g)

  -- Deactivating leaves the tenant and the rules of every document.
  deactivated_rules :
      (policy_id other : Text) (g : PolicyGraph)
      → own_rules (deactivate policy_id other g) ≡ own_rules g
  unfolding deactivate
  deactivated_rules policy_id other [] = refl
  deactivated_rules policy_id other (p ∷ ps) = elim (Bool-cases (is_policy policy_id other p)) [
    | inl a ↦ elim (Bool-cases (is_of_tenant tenant p)) [
      | inl b ↦ rw (a, b, deactivated_rules policy_id other ps) refl
      | inr b ↦ rw (a, b, deactivated_rules policy_id other ps) refl
    ]
    | inr a ↦ elim (Bool-cases (is_of_tenant tenant p)) [
      | inl b ↦ rw (a, b, deactivated_rules policy_id other ps) refl
      | inr b ↦ rw (a, b, deactivated_rules policy_id other ps) refl
    ]
  ]

  -- Deleting a policy, of this tenant or another, leaves the rules that apply to the contracts of
  -- every tenant as they were.
  pub delete_keeps_applicable :
      (policy_id other contract_type : Text) (g : PolicyGraph)
      → get_applicable_policies tenant contract_type (delete_policy policy_id other g).1
        ≡ get_applicable_policies tenant contract_type g
  unfolding get_applicable_policies delete_policy
  delete_keeps_applicable policy_id other contract_type g =
      rw (deactivated_rules policy_id other g) refl
