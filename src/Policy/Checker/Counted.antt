-- ===== src/Policy/Checker/Counted.antt =====
-- The status of a policy check, the clauses that failed and the violations.
use contract_agent_capstone.Prelude.{
  ℕ, suc, ◌≤◌, ◌<◌, ◌≡◌, refl, inl, inr, Option, none, some, List, [], ◌∷◌, arith, length,
  length-append, Option-cases,
}
use contract_agent_capstone.Prelude.Text.{Text}
use contract_agent_capstone.Exec.{Result, ok, err}
use contract_agent_capstone.Cache.Client.{Exception}
use contract_agent_capstone.Analysis.{Clause}
use contract_agent_capstone.Analysis.Grade.{success, partial, failed}
use contract_agent_capstone.Execution.Model.{PolicyCheck}
use contract_agent_capstone.Policy.{PolicyRule, Found}
use contract_agent_capstone.Policy.Table.{Formats, evaluate_deterministic}
use contract_agent_capstone.Policy.Evaluation.{Services, evaluate_clause}
use contract_agent_capstone.Policy.Resolver.{GraphReads, get_applicable_rules}
use contract_agent_capstone.Policy.Checker.{
  Tally, attach, evaluated, add_tally, check_clause, check_clauses, checked, eval_status,
  policy_checker_run,
}

-- Of `n` clauses no more failed, and if all did there is no violation.
abbrev Fits : ℕ → Option Tally → Type 0
Fits n none = Unit
Fits n (some (vs, ids)) = (length ids ≤ n) × (length ids ≡ n → vs ≡ [])

-- What the status says of the failed clauses and the violations, for `n` clauses.
abbrev pub Tells : ℕ → PolicyCheck → Type 0
Tells n p =
    (p.status ≡ success → p.failed_clause_ids ≡ [])
    × (p.status ≡ partial → (0 < length p.failed_clause_ids) × (length p.failed_clause_ids < n))
    × (p.status ≡ failed → p.violations ≡ [])
    × (length p.failed_clause_ids ≤ n)

empty_length : {A : Type 0} (xs : List A) → length xs ≡ 0 → xs ≡ []
empty_length [] h = refl
empty_length (x ∷ xs) h = ground (arith, h)

checked-Tells :
    (cs : List Clause) (t : Option Tally) → Fits (length cs) t → Tells (length cs) (checked cs t)
unfolding eval_status
checked-Tells cs none fits = ((λ h. cc), (λ h. cc), (λ h. refl), omega arith)
checked-Tells cs (some (vs, ids)) (bound, none_left) = (
  (λ h. empty_length ids (ground (arith, bound, h))),
  (λ h. ground (arith, bound, h)),
  (λ h. none_left (ground (arith, bound, h))),
  bound,
)

module _ {W : Type 0} (F : Formats) (S : Services W) (template : Text → Text → Text → Text)
    (rules : List PolicyRule) where
  add-Fits :
      (n : ℕ) (t : Tally) (rest : Option Tally)
      → Fits 1 (some t)
      → Fits n rest
      → Fits (suc n) (add_tally F S template t rest)
  add-Fits n (vs, ids) none left right = tt
  add-Fits n (vs, ids) (some (ws, js)) (one, none_of_one) (some_left, none_left) = (
    omega (arith, length-append ids js, one, some_left),
    λ h.
        rw
          (
            none_of_one (omega (arith, length-append ids js, one, some_left, h)),
            none_left (omega (arith, length-append ids js, one, some_left, h)),
          )
          refl,
  )

  evaluated-Fits :
      (c : Clause) (r : Result Exception (List Found)) → Fits 1 (some (evaluated F S template c r))
  evaluated-Fits c (ok found) = (omega arith, λ h. ground (arith, h))
  evaluated-Fits c (err e) = (omega arith, λ h. refl)

  check_clause-Fits : (c : Clause) (w : W) → Fits 1 (check_clause F S template rules c w).0
  unfolding check_clause
  check_clause-Fits c w = elim (Option-cases (evaluate_deterministic F c.clause_type c.content)) [
    | inl e ↦
        let same : (check_clause F S template rules c w).0 ≡ none = ground (arith, e) in rw same tt
    | inr (some v, e) ↦
        let same : (check_clause F S template rules c w).0 ≡ some (attach c v ∷ [], []) =
          ground (arith, e) in
        rw same (omega arith, λ h. ground (arith, h))
    | inr (none, e) ↦
        let r = (evaluate_clause S template c.clause_type c.content rules w).0 in
        let same : (check_clause F S template rules c w).0 ≡ some (evaluated F S template c r) =
          ground (arith, e) in
        rw same (evaluated-Fits c r)
  ]

  check_clauses-Fits :
      (cs : List Clause) (w : W) → Fits (length cs) (check_clauses F S template rules cs w).0
  unfolding check_clauses
  check_clauses-Fits [] w = (omega arith, λ h. refl)
  check_clauses-Fits (c ∷ cs) w =
      let rest = (check_clauses F S template rules cs (check_clause F S template rules c w).1).0 in
      elim (Option-cases (check_clause F S template rules c w).0) [
        | inl e ↦
            let same : (check_clauses F S template rules (c ∷ cs) w).0 ≡ none = ground (arith, e) in
            rw same tt
        | inr (t, e) ↦
            let same : (check_clauses F S template rules (c ∷ cs) w).0
                ≡ add_tally F S template t rest =
              ground (arith, e) in
            rw same (
              add-Fits (length cs) t rest (rw e at (check_clause-Fits c w))
                (check_clauses-Fits cs (check_clause F S template rules c w).1))
      ]

-- Whatever the clauses, the model and the cache: no more clauses are listed as failed than there
-- are; after "success" none is, after "partial" at least one and not all are, and a check with the
-- status "failure", be it aborted or without one evaluated clause, reports no violation.
pub policy_checker_run-Tells :
    {W : Type 0} (F : Formats) (S : Services W) (template : Text → Text → Text → Text)
    (reads : GraphReads) (tenant_id : Option Text) (contract_type : Text) (cs : List Clause) (w : W)
    → Tells
        (length cs)
        (policy_checker_run F S template reads tenant_id contract_type (some cs) w).0
unfolding policy_checker_run
policy_checker_run-Tells F S template reads tenant_id contract_type cs w =
    checked-Tells cs
      (check_clauses F S template (get_applicable_rules reads tenant_id contract_type) cs w).0
      (check_clauses-Fits F S template (get_applicable_rules reads tenant_id contract_type) cs w)
