-- ===== src/Policy/Repository.antt =====
-- backend/infrastructure/policy_repository.py: the policy documents of the tenants in the graph.
-- The documents stand in the order in which they were created, each with the rules it HAS_RULE.
pub mod Tenants
use contract_agent_capstone.Prelude.{
  ℕ, Bool, true, false, not, ◌&&◌, Option, none, some, List, [], ◌∷◌, ◌++◌, any, keep, first, ltb,
  leb, ◌==◌, if◌then◌else◌, map,
}
use contract_agent_capstone.Prelude.Text.{Text, codes, text_eq}
use contract_agent_capstone.Policy.{PolicyRule}
use contract_agent_capstone.Policy.Defaults.{is_applicable}

pub record PolicyDocument : Type 0 where
  pub id : Text
  pub name : Text
  pub tenant_id : Text
  pub version : Text
  pub checksum : Text
  -- `p.active`, absent on a document that `store_policy_document` made.
  pub active : Option Bool
  pub rules : List PolicyRule

abbrev pub PolicyGraph : Type 0
PolicyGraph = List PolicyDocument

-- `(p:PolicyDocument {id: $policy_id, tenant_id: $tenant_id})`
abbrev pub is_policy : Text → Text → PolicyDocument → Bool
is_policy policy_id tenant_id p = p.id == policy_id && p.tenant_id == tenant_id

abbrev pub is_of_tenant : Text → PolicyDocument → Bool
is_of_tenant tenant_id p = p.tenant_id == tenant_id

abbrev pub rules_of : List PolicyDocument → List PolicyRule
rules_of [] = []
rules_of (p ∷ ps) = p.rules ++ rules_of ps

unfoldable pub get_policy_rules : Text → Text → PolicyGraph → List PolicyRule
get_policy_rules policy_id tenant_id g = rules_of (keep (is_policy policy_id tenant_id) g)

abbrev with_rules : List PolicyRule → PolicyDocument → PolicyDocument
with_rules rules p = record {
  id = p.id;
  name = p.name;
  tenant_id = p.tenant_id;
  version = p.version;
  checksum = p.checksum;
  active = p.active;
  rules = rules;
}

-- The first document of the id with a rule, as the `MATCH` asks for one.
unfoldable pub get_policy_by_id : Text → Text → PolicyGraph → Option PolicyDocument
get_policy_by_id policy_id tenant_id g =
    first (λ p. is_policy policy_id tenant_id p && not (no_rules p.rules)) g
  where
    no_rules : List PolicyRule → Bool
    no_rules [] = true
    no_rules (_ ∷ _) = false

-- Newest first; the rules are read again for each document by its id.
unfoldable pub get_policies_by_tenant : Text → PolicyGraph → List PolicyDocument
get_policies_by_tenant tenant_id g = newest_first (keep (is_of_tenant tenant_id) g)
  where
    read_again : PolicyDocument → PolicyDocument
    read_again p = with_rules (get_policy_rules p.id tenant_id g) p

    newest_first : List PolicyDocument → List PolicyDocument
    newest_first [] = []
    newest_first (p ∷ ps) = newest_first ps ++ (read_again p ∷ [])

-- The `CASE` of the `ORDER BY`.
abbrev pub severity_rank : Text → ℕ
severity_rank s =
    if s == codes "CRITICAL"
    then 1
    else (if s == codes "HIGH" then 2 else (if s == codes "MEDIUM" then 3 else 4))

-- Stable insertion by rank.
unfoldable pub insert_rule : PolicyRule → List PolicyRule → List PolicyRule
insert_rule r [] = r ∷ []
insert_rule r (q ∷ qs) =
    let rest = insert_rule r qs in
    if leb (severity_rank r.severity) (severity_rank q.severity) then r ∷ q ∷ qs else q ∷ rest

unfoldable pub order_by_severity : List PolicyRule → List PolicyRule
order_by_severity [] = []
order_by_severity (r ∷ rs) = insert_rule r (order_by_severity rs)

unfoldable pub get_applicable_policies : Text → Text → PolicyGraph → List PolicyRule
get_applicable_policies tenant_id contract_type g =
    order_by_severity
      (keep (is_applicable contract_type) (rules_of (keep (is_of_tenant tenant_id) g)))

abbrev inactive : PolicyDocument → PolicyDocument
inactive p = record {
  id = p.id;
  name = p.name;
  tenant_id = p.tenant_id;
  version = p.version;
  checksum = p.checksum;
  active = some false;
  rules = p.rules;
}

-- `SET p.active = false` on what matches.
unfoldable pub deactivate : Text → Text → PolicyGraph → PolicyGraph
deactivate policy_id tenant_id =
    map (λ p. if is_policy policy_id tenant_id p then inactive p else p)

unfoldable pub delete_policy : Text → Text → PolicyGraph → Bool × PolicyGraph
delete_policy policy_id tenant_id g =
    (any (is_policy policy_id tenant_id) g, deactivate policy_id tenant_id g)

-- The new documents, one for each that matches, without rules as yet.
abbrev copies : Text → Text → Text → Text → Text → PolicyGraph → PolicyGraph
copies policy_id tenant_id new_id version checksum [] = []
copies policy_id tenant_id new_id version checksum (p ∷ ps) =
    let rest = copies policy_id tenant_id new_id version checksum ps in
    if is_policy policy_id tenant_id p
    then record {
      id = new_id;
      name = p.name;
      tenant_id = p.tenant_id;
      version = version;
      checksum = checksum;
      active = some true;
      rules = [];
    }
      ∷ rest
    else rest

-- Rules that are added to every document of an id.
unfoldable pub add_rules : Text → Text → List PolicyRule → PolicyGraph → PolicyGraph
add_rules policy_id tenant_id rules =
    map (λ p. if is_policy policy_id tenant_id p then with_rules (p.rules ++ rules) p else p)

-- `checksum_of` is the MD5 of the JSON of the rules.
unfoldable pub update_policy_version :
    (List PolicyRule → Text)
    → Text
    → Text
    → Text
    → List PolicyRule
    → PolicyGraph
    → Bool × PolicyGraph
update_policy_version checksum_of policy_id tenant_id new_version updated_rules g =
    let archived = deactivate policy_id tenant_id g in
    let new_id = policy_id ++ codes "_v" ++ new_version in
    let checksum = checksum_of updated_rules in
    let created = copies policy_id tenant_id new_id new_version checksum archived in
    if any (is_policy policy_id tenant_id) g
    then (true, add_rules new_id tenant_id updated_rules (archived ++ created))
    else (false, g)
