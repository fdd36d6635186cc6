-- ===== src/Execution/Plan.antt =====
-- Executing a plan whose steps run in order.
use contract_agent_capstone.Prelude.{◌≡◌, refl, true, is_some, List, [], ◌∷◌, all, contains, arith}
use contract_agent_capstone.Prelude.Text.{Text, text_eq}
use contract_agent_capstone.Prelude.Dict.{lookup, lookup-insert}
use contract_agent_capstone.Planning.{ExecutionStep, ExecutionPlan, create_execution_plan}
use contract_agent_capstone.Planning.Order.{runs_in_order, created_plan_runs_in_order}
use contract_agent_capstone.Execution.Model.{Tools, initial_context}
use contract_agent_capstone.Execution.Attempts.{execute_step}
use contract_agent_capstone.Execution.{
  Finished, dependencies_met, Progress, run_step, run_steps, execute_plan,
}

-- Every step that was done has its result.
abbrev AllFinished : List Text → Finished → Type 0
AllFinished done results = (d : Text) → contains done d ≡ true → is_some (lookup d results) ≡ true

-- The dependencies of a step are met when they were done and what was done has its result.
met_from_done :
    (done : List Text) (results : Finished) (ds : List Text)
    → AllFinished done results
    → all (λ d. contains done d) ds ≡ true
    → all (λ d. is_some (lookup d results)) ds ≡ true
met_from_done done results [] f h = refl
met_from_done done results (d ∷ ds) f h = ground (arith, h, f d, met_from_done done results ds f)

module _ {W : Type 0} (T : Tools W) where
  finished_after :
      (s : ExecutionStep) (p : Progress W) (done : List Text)
      → AllFinished done p.step_results
      → AllFinished (s.step_id ∷ done) (run_step T s p).step_results
  unfolding run_step
  finished_after s p done f d h = ground (
    arith,
    h,
    f d,
    lookup-insert s.step_id d (execute_step T s p.context p.world).0 p.step_results,
  )

  run_steps_end :
      (steps : List ExecutionStep) (p : Progress W) (done : List Text)
      → AllFinished done p.step_results
      → runs_in_order done steps ≡ true
      → is_some (run_steps T steps p) ≡ true
  unfolding run_steps runs_in_order dependencies_met
  run_steps_end [] p done f h = refl
  run_steps_end (s ∷ steps) p done f h =
      let here : all (λ d. contains done d) s.dependencies ≡ true = ground (arith, h) in
      let there : runs_in_order (s.step_id ∷ done) steps ≡ true = ground (arith, h) in
      let met = met_from_done done p.step_results s.dependencies f here in
      let rest =
        run_steps_end steps (run_step T s p) (s.step_id ∷ done) (finished_after s p done f) there in
      rw met rest

  -- The analysis of a contract by the plan for any query comes to an end with a result, whatever the
  -- tools do: no step waits for a dependency that never comes.
  pub planned_query_completes :
      (query stamp contract_text : Text) (history : List ExecutionPlan) (w : W)
      → is_some (execute_plan T (create_execution_plan stamp query history).0 contract_text w)
        ≡ true
  unfolding execute_plan
  planned_query_completes query stamp contract_text history w =
      let ended =
        run_steps_end (create_execution_plan stamp query history).0.steps
          (record {
            context = initial_context contract_text;
            step_results = [];
            step_status = [];
            world = w;
          })
          [] (λ d h. cc) (created_plan_runs_in_order query stamp history) in
      ground (arith, ended)
