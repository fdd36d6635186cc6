-- ===== src/Planning/Order.antt =====
-- The order of the steps in the plans.
use contract_agent_capstone.Prelude.{
  ◌≡◌, refl, Bool, true, ◌&&◌, List, [], ◌∷◌, all, contains, arith, any,
}
use contract_agent_capstone.Prelude.Text.{Text, codes, text_eq, has_part}
use contract_agent_capstone.Planning.{
  PlanningStrategy, simple, complex, risk_focused, compliance_focused, ExecutionStep, ExecutionPlan,
  simple_plan, complex_plan, analyze_query, select_strategy, create_plan, validates,
  validate_and_refine_plan, create_execution_plan, step_value,
}

-- Each step's dependencies are among the steps done before it.
unfoldable pub runs_in_order : List Text → List ExecutionStep → Bool
runs_in_order done [] = true
runs_in_order done (s ∷ steps) =
    all (λ d. contains done d) s.dependencies && runs_in_order (s.step_id ∷ done) steps

-- The two templates.
templates_run_in_order :
    (strategy : PlanningStrategy) (stamp query : Text)
    → runs_in_order [] (create_plan strategy stamp query).steps ≡ true
unfolding runs_in_order create_plan simple_plan complex_plan
templates_run_in_order simple stamp query = refl
templates_run_in_order complex stamp query = refl
templates_run_in_order risk_focused stamp query = refl
templates_run_in_order compliance_focused stamp query = refl

-- A query whose intent is risk does not get the simple plan.
risky_query_validates :
    (query stamp : Text)
    → has_part (analyze_query query).user_intent (codes "risk") ≡ true
    → any validates (create_plan (select_strategy (analyze_query query)) stamp query).steps ≡ true
unfolding select_strategy create_plan simple_plan complex_plan step_value
risky_query_validates query stamp h = ground (arith, h)

-- Refining a plan that the agent made for a query never adds a step.
pub refining_adds_no_step :
    (query stamp : Text) (history : List ExecutionPlan)
    → (create_execution_plan stamp query history).0.steps
      ≡ (create_plan (select_strategy (analyze_query query)) stamp query).steps
unfolding create_execution_plan validate_and_refine_plan
refining_adds_no_step query stamp history = ground (arith, risky_query_validates query stamp)

-- For every query, each step of the plan depends just on steps that come before it in the plan.
pub created_plan_runs_in_order :
    (query stamp : Text) (history : List ExecutionPlan)
    → runs_in_order [] (create_execution_plan stamp query history).0.steps ≡ true
created_plan_runs_in_order query stamp history =
    rw (refining_adds_no_step query stamp history)
      (templates_run_in_order (select_strategy (analyze_query query)) stamp query)
