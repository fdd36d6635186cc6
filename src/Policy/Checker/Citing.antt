-- ===== src/Policy/Checker/Citing.antt =====
-- What the violations of a policy check cite.
use contract_agent_capstone.Prelude.{
  ◌≡◌, refl, sym, ◌⊎◌, inl, inr, true, Option, none, some, List, [], ◌∷◌, ◌++◌, map, arith, All,
  All-append, Option-cases, contains,
}
use contract_agent_capstone.Prelude.Text.{Text, text_eq}
use contract_agent_capstone.Prelude.Dict.{lookup}
use contract_agent_capstone.Exec.{Result, ok, err}
use contract_agent_capstone.Cache.Client.{Exception}
use contract_agent_capstone.Analysis.{Clause, Violation}
use contract_agent_capstone.Policy.{PolicyRule, Found}
use contract_agent_capstone.Policy.Table.{
  Formats, violation, deterministic_rules, evaluate_deterministic,
}
use contract_agent_capstone.Policy.Evaluation.{
  Services, ids_of, is_offered, cache_key, evaluate_clause,
}
use contract_agent_capstone.Policy.Resolver.{GraphReads, get_applicable_rules}
use contract_agent_capstone.Policy.Checker.{
  attach, evaluated, add_tally, check_clause, check_clauses, policy_checker_run,
}
use contract_agent_capstone.Policy.Evaluation.Honest.{
  IsFaithful, Cited, IsHonest, evaluate_clause-Honestly,
}

tally_same :
    {A B : Type 0} (a c : A) (b d : B) → Path (Option (A × B)) (some (a, b)) (some (c, d)) → a ≡ c
tally_same a c b d h = ground (arith, h)

All-same : {A : Type 0} (Q : A → Type 0) (xs ys : List A) → xs ≡ ys → All Q xs → All Q ys
All-same Q xs ys e h = rw e at h

module _ {W : Type 0} (S : Services W) (template : Text → Text → Text → Text) where
  module _ (L : IsFaithful S) where
    -- A violation of the table's rule for its clause type, or one of a rule in a list that has the
    -- cache key of the clause and the rules to check.
    abbrev pub Justified : List PolicyRule → Violation → Type 0
    Justified rules v =
        (clause_type : Text) × (content : Text) × (id : Text) × (v.clause_type ≡ some clause_type)
        × (v.clause_content ≡ some content)
        × (v.rule_id ≡ some id)
        × (((rule : PolicyRule) × (lookup clause_type deterministic_rules ≡ some rule)
              × (id ≡ rule.id))
            ⊎ ((other_type : Text) × (other_text : Text) × (offered : List PolicyRule) × (cache_key
                    S template clause_type content rules
                  ≡ cache_key S template other_type other_text offered)
                × (contains (ids_of offered) id ≡ true)))

    module _ (F : Formats) (rules : List PolicyRule) where
      Cited→Justified :
          (c : Clause) (other_type other_text : Text) (offered : List PolicyRule) (vs : List Found)
          → cache_key S template c.clause_type c.content rules
            ≡ cache_key S template other_type other_text offered
          → All (λ v. is_offered offered v ≡ true) vs
          → All (Justified rules) (map (attach c) vs)
      Cited→Justified c other_type other_text offered [] same all = tt
      Cited→Justified c other_type other_text offered (v ∷ vs) same (h, all) = (
        (
          c.clause_type,
          c.content,
          v.rule_id,
          refl,
          refl,
          refl,
          inr (other_type, other_text, offered, same, h),
        ),
        Cited→Justified c other_type other_text offered vs same all,
      )

      evaluated-Justified :
          (c : Clause) (r : Result Exception (List Found))
          → ((vs : List Found)
              → r ≡ ok vs
              → Cited S template (cache_key S template c.clause_type c.content rules) vs)
          → All (Justified rules) (evaluated F S template c r).0
      evaluated-Justified c (ok vs) cited =
          let (other_type, other_text, offered, same, all) = cited vs refl in
          Cited→Justified c other_type other_text offered vs same all
      evaluated-Justified c (err e) cited = tt

      -- What the table finds is a violation of its own rule.
      deterministic_rule :
          (clause_type clause_text : Text) (v : Found)
          → evaluate_deterministic F clause_type clause_text ≡ some (some v)
          → (rule : PolicyRule) × (lookup clause_type deterministic_rules ≡ some rule)
            × (v.rule_id ≡ rule.id)
      unfolding evaluate_deterministic violation
      deterministic_rule clause_type clause_text v h =
          elim (Option-cases (lookup clause_type deterministic_rules)) [
            | inl e ↦ ground (arith, e, h)
            | inr (rule, e) ↦ (rule, e, ground (arith, e, h))
          ]

      -- What a step of the loop comes to.
      abbrev Steady : Option (List Violation × List Text) × W → Type 0
      Steady (o, w) =
          IsHonest S template w
          × ((vs : List Violation) (ids : List Text)
              → o ≡ some (vs, ids)
              → All (Justified rules) vs)

      decided :
          (c : Clause) (w : W)
          → IsHonest S template w
          → (o : Option (Option Found)) → evaluate_deterministic F c.clause_type c.content ≡ o
          → Steady (check_clause F S template rules c w)
      unfolding check_clause
      decided c w honest none e =
          let same : check_clause F S template rules c w ≡ (none, w) = ground (arith, e) in
          rw same (honest, λ vs ids h. ground (arith, h))
      decided c w honest (some (some v)) e =
          let same : check_clause F S template rules c w ≡ (some (attach c v ∷ [], []), w) =
            ground (arith, e) in
          let justified : Justified rules (attach c v) = (
            c.clause_type,
            c.content,
            v.rule_id,
            refl,
            refl,
            refl,
            inl (deterministic_rule c.clause_type c.content v e),
          ) in
          let all : All (Justified rules) (attach c v ∷ []) = (justified, tt) in
          rw same (
            honest,
            λ vs ids h.
                All-same (Justified rules) (attach c v ∷ []) vs (tally_same _ vs [] ids h) all,
          )
      decided c w honest (some none) e =
          let (kept, cited) =
            evaluate_clause-Honestly S template L c.clause_type c.content rules w honest in
          let r = (evaluate_clause S template c.clause_type c.content rules w).0 in
          let w' = (evaluate_clause S template c.clause_type c.content rules w).1 in
          let same : check_clause F S template rules c w ≡ (some (evaluated F S template c r), w') =
            ground (arith, e) in
          rw same (
            kept,
            λ vs ids h.
                rw (tally_same (evaluated F S template c r).0 vs _ ids h) at
                  (evaluated-Justified c r cited),
          )

      added :
          (us : List Violation) (ks : List Text) (rest : Option (List Violation × List Text))
          (vs : List Violation) (ids : List Text)
          → All (Justified rules) us
          → ((ws : List Violation) (js : List Text)
              → rest ≡ some (ws, js)
              → All (Justified rules) ws)
          → add_tally F S template (us, ks) rest ≡ some (vs, ids)
          → All (Justified rules) vs
      added us ks none vs ids left right h = ground (arith, h)
      added us ks (some (ws, js)) vs ids left right h =
          rw (tally_same (us ++ ws) vs (ks ++ js) ids h) at
            (All-append (Justified rules) us ws left (right ws js refl))

      check_clause-Steady :
          (c : Clause) (w : W)
          → IsHonest S template w
          → Steady (check_clause F S template rules c w)
      check_clause-Steady c w honest =
          decided c w honest (evaluate_deterministic F c.clause_type c.content) refl

      check_clauses-Steady :
          (cs : List Clause) (w : W)
          → IsHonest S template w
          → Steady (check_clauses F S template rules cs w)
      unfolding check_clauses
      check_clauses-Steady [] w honest =
          (honest, λ vs ids h. rw (sym (tally_same [] vs [] ids h)) tt)
      check_clauses-Steady (c ∷ cs) w honest =
          let one = check_clause-Steady c w honest in
          let others = check_clauses-Steady cs (check_clause F S template rules c w).1 one.0 in
          let w1 = (check_clause F S template rules c w).1 in
          let rest = check_clauses F S template rules cs w1 in
          elim (Option-cases (check_clause F S template rules c w).0) [
            | inl e ↦
                let same : check_clauses F S template rules (c ∷ cs) w ≡ (none, w1) =
                  ground (arith, e) in
                rw same (one.0, λ vs ids h. ground (arith, h))
            | inr ((us, ks), e) ↦
                let same : check_clauses F S template rules (c ∷ cs) w
                    ≡ (add_tally F S template (us, ks) rest.0, rest.1) =
                  ground (arith, e) in
                rw same (others.0, λ vs ids h. added us ks rest.0 vs ids (one.1 us ks e) others.1 h)
          ]

    -- Over a faithful cache that holds nothing dishonest, whatever the model answers and whatever
    -- the clauses are, the check leaves such a cache, and each violation that it reports either is
    -- one of the table's rule for its clause type or cites a rule of a list that has the cache key
    -- of its clause and of the applicable rules.
    pub policy_checker_run-Justified :
        (F : Formats) (reads : GraphReads) (tenant_id : Option Text) (contract_type : Text)
        (input : Option (List Clause)) (w : W)
        → IsHonest S template w
        → IsHonest S template
            (policy_checker_run F S template reads tenant_id contract_type input w).1
          × All
              (Justified (get_applicable_rules reads tenant_id contract_type))
              (policy_checker_run F S template reads tenant_id contract_type input w).0.violations
    unfolding policy_checker_run
    policy_checker_run-Justified F reads tenant_id contract_type none w honest = (honest, tt)
    policy_checker_run-Justified F reads tenant_id contract_type (some cs) w honest =
        let rules = get_applicable_rules reads tenant_id contract_type in
        let (later, justified) = check_clauses-Steady F rules cs w honest in
        elim (Option-cases (check_clauses F S template rules cs w).0) [
          | inl e ↦ rw e (later, tt)
          | inr ((vs, ids), e) ↦ rw e (later, justified vs ids e)
        ]
