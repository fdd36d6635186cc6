-- ===== src/Planning.antt =====
-- backend/agents/planning/planning_agent.py: a query is analysed, a strategy is chosen, and its plan is
-- refined and kept. Scores in hundredths, and the time stamp of a plan's id is an argument.
pub mod Order
use contract_agent_capstone.Prelude.{
  ℕ, ◌+◌, ◌*◌, Bool, true, false, not, ◌&&◌, List, [], ◌∷◌, ◌++◌, Option, none, some, length, any,
  first, keep, map, drop, ◌-◌, ltb, ◌==◌, if◌then◌else◌,
}
use contract_agent_capstone.Prelude.Text.{Text, codes, text_eq, lower, has_part}

pub data PlanningStrategy : Type 0 where
  simple complex risk_focused compliance_focused : PlanningStrategy

pub data StepType : Type 0 where
  extract_clauses check_policies assess_risk generate_redlines validate_results : StepType
  cuad_mitigation deviation_analysis jurisdiction_adaptation precedent_matching : StepType

-- The values of the enum.
unfoldable pub step_value : StepType → Text
step_value extract_clauses = codes "extract_clauses"
step_value check_policies = codes "check_policies"
step_value assess_risk = codes "assess_risk"
step_value generate_redlines = codes "generate_redlines"
step_value validate_results = codes "validate_results"
step_value cuad_mitigation = codes "cuad_mitigation"
step_value deviation_analysis = codes "deviation_analysis"
step_value jurisdiction_adaptation = codes "jurisdiction_adaptation"
step_value precedent_matching = codes "precedent_matching"

pub record ExecutionStep : Type 0 where
  pub step_id : Text
  pub step_type : StepType
  pub description : Text
  pub dependencies : List Text
  pub confidence_threshold : ℕ
  pub timeout_seconds : ℕ

pub record ExecutionPlan : Type 0 where
  pub plan_id : Text
  pub query : Text
  pub strategy : PlanningStrategy
  pub steps : List ExecutionStep
  pub estimated_duration : ℕ
  pub confidence_score : ℕ

-- `query_complexity` is the number of indicators found, which the code divides by that of all.
pub record ReasoningContext : Type 0 where
  pub query_complexity : ℕ
  pub domain_keywords : List Text
  pub user_intent : Text

-- A step with the defaults of its class.
abbrev pub step : Text → StepType → Text → List Text → ExecutionStep
step step_id step_type description dependencies = record {
  step_id = step_id;
  step_type = step_type;
  description = description;
  dependencies = dependencies;
  confidence_threshold = 80;
  timeout_seconds = 30;
}

unfoldable pub simple_plan : Text → Text → ExecutionPlan
simple_plan stamp query = record {
  plan_id = codes "simple_" ++ stamp;
  query = query;
  strategy = simple;
  steps =
      step (codes "step_1") extract_clauses (codes "Extract key contract clauses") []
      ∷ step (codes "step_2") check_policies (codes "Check policy compliance") (codes "step_1" ∷ [])
      ∷ step (codes "step_3") assess_risk (codes "Calculate risk assessment") (codes "step_2" ∷ [])
      ∷ step (codes "step_4") cuad_mitigation (codes "CUAD deviation and jurisdiction analysis")
          (codes "step_3" ∷ [])
      ∷ step (codes "step_5") generate_redlines (codes "Generate redline suggestions")
          (codes "step_4" ∷ [])
      ∷ [];
  estimated_duration = 120;
  confidence_score = 90;
}

unfoldable pub complex_plan : Text → Text → ExecutionPlan
complex_plan stamp query = record {
  plan_id = codes "complex_" ++ stamp;
  query = query;
  strategy = complex;
  steps =
      step (codes "step_1") extract_clauses (codes "Deep clause extraction with validation") []
      ∷ step (codes "step_2a") check_policies (codes "Policy compliance check")
          (codes "step_1" ∷ [])
      ∷ step (codes "step_2b") assess_risk (codes "Initial risk assessment") (codes "step_1" ∷ [])
      ∷ step (codes "step_3") cuad_mitigation (codes "CUAD deviation and jurisdiction analysis")
          (codes "step_2a" ∷ codes "step_2b" ∷ [])
      ∷ step (codes "step_4") validate_results (codes "Cross-validate results")
          (codes "step_3" ∷ [])
      ∷ step (codes "step_5") generate_redlines (codes "Generate comprehensive redlines")
          (codes "step_4" ∷ [])
      ∷ [];
  estimated_duration = 180;
  confidence_score = 95;
}

abbrev pub complexity_indicators : List Text
complexity_indicators =
    codes "compare"
    ∷ codes "analyze"
    ∷ codes "comprehensive"
    ∷ codes "detailed"
    ∷ codes "all"
    ∷ codes "every"
    ∷ []

abbrev pub risk_keywords : List Text
risk_keywords =
    codes "risk" ∷ codes "liability" ∷ codes "exposure" ∷ codes "dangerous" ∷ codes "critical" ∷ []

abbrev pub compliance_keywords : List Text
compliance_keywords =
    codes "policy"
    ∷ codes "compliance"
    ∷ codes "regulation"
    ∷ codes "standard"
    ∷ codes "requirement"
    ∷ []

-- The later of two intents wins; the keywords of both are kept.
unfoldable pub analyze_query : Text → ReasoningContext
analyze_query query =
    let found = λ (k : Text). has_part (lower query) k in
    let risky = any found risk_keywords in
    let regulated = any found compliance_keywords in
    record {
      query_complexity = length (keep found complexity_indicators);
      domain_keywords =
          (if risky then risk_keywords else []) ++ (if regulated then compliance_keywords else []);
      user_intent =
          if regulated
          then codes "compliance_check"
          else (if risky then codes "risk_assessment" else codes "analysis");
    }

-- `query_complexity > t`, for `t` in hundredths, with the division multiplied out.
abbrev pub complexity_over : ℕ → ReasoningContext → Bool
complexity_over t context = ltb (t * length complexity_indicators) (100 * context.query_complexity)

unfoldable pub select_strategy : ReasoningContext → PlanningStrategy
select_strategy context =
    if complexity_over 60 context
    then complex
    else (if has_part context.user_intent (codes "risk")
        then risk_focused
        else (if has_part context.user_intent (codes "compliance")
            then compliance_focused
            else simple))

-- `self.strategies[strategy].create_plan`
unfoldable pub create_plan : PlanningStrategy → Text → Text → ExecutionPlan
create_plan simple stamp query = simple_plan stamp query
create_plan complex stamp query = complex_plan stamp query
create_plan risk_focused stamp query = complex_plan stamp query
create_plan compliance_focused stamp query = complex_plan stamp query

abbrev pub validates : ExecutionStep → Bool
validates s = step_value s.step_type == step_value validate_results

-- `[step.step_id for step in plan.steps[-2:]]`
abbrev last_two : List ExecutionStep → List Text
last_two steps = map (λ (s : ExecutionStep). s.step_id) (drop (length steps - 2) steps)

-- The warnings on missing dependencies change nothing, and are left out.
unfoldable pub validate_and_refine_plan : ExecutionPlan → ReasoningContext → ExecutionPlan
validate_and_refine_plan plan context = record plan {
  confidence_score =
      if complexity_over 80 context && ltb 90 plan.confidence_score
      then 85
      else plan.confidence_score;
  steps =
      if has_part context.user_intent (codes "risk") && not (any validates plan.steps)
      then plan.steps
        ++ (step (codes "validation") validate_results (codes "Validate risk assessment results")
              (last_two plan.steps)
            ∷ [])
      else plan.steps;
}

-- The agent's state is the history of its plans.
unfoldable pub create_execution_plan :
    Text → Text → List ExecutionPlan → ExecutionPlan × List ExecutionPlan
create_execution_plan stamp query execution_history =
    let context = analyze_query query in
    let plan = create_plan (select_strategy context) stamp query in
    let validated_plan = validate_and_refine_plan plan context in
    (validated_plan, execution_history ++ (validated_plan ∷ []))

-- The plan that `get_plan_status` reports on; `none` is its "Plan not found".
unfoldable pub get_plan_status : Text → List ExecutionPlan → Option ExecutionPlan
get_plan_status plan_id execution_history = first (λ p. p.plan_id == plan_id) execution_history
