-- ===== src/Execution/Retry.antt =====
-- What the retries of a step come to.
use contract_agent_capstone.Prelude.{
  ℕ, zero, suc, ◌≡◌, refl, true, false, inl, inr, Bool-cases, ◌++◌, if◌then◌else◌,
}
use contract_agent_capstone.Prelude.Text.{Text, codes}
use contract_agent_capstone.Exec.{Result, ok, err}
use contract_agent_capstone.Planning.{ExecutionStep}
use contract_agent_capstone.Execution.Model.{
  Output, StepError, ExecutionContext, Tools, ExecutionResult,
}
use contract_agent_capstone.Execution.Attempts.{
  is_quota_exhausted, attempt_step, settle, attempts_from, execute_step,
}

module _ {W : Type 0} (T : Tools W) (step : ExecutionStep) (context : ExecutionContext) where
  -- What at most so many attempts give, from the attempt of a number on. The first that succeeds
  -- decides; an exhausted quota, the last failure and a time that is up end in an error; any other
  -- failure is followed by one more attempt.
  pub data Tries : ℕ → ℕ → W → ExecutionResult × W → Type 0 where
    succeeds :
        {left attempt : ℕ} {w w' : W} {o : Output}
        → attempt_step T step.step_type context w ≡ (ok o, w')
        → Tries (suc left) attempt w (ok o, w')
    runs_dry :
        {left attempt : ℕ} {w w' : W} {e : StepError} {t : Text}
        → attempt_step T step.step_type context w ≡ (err e, w')
        → is_quota_exhausted e ≡ true
        → Tries (suc left) attempt w (err t, w')
    gives_up :
        {attempt : ℕ} {w w' : W} {e : StepError} {t : Text}
        → attempt_step T step.step_type context w ≡ (err e, w')
        → is_quota_exhausted e ≡ false
        → Tries 1 attempt w (err t, w')
    runs_late :
        {left attempt : ℕ} {w w' : W} {e : StepError} {t : Text}
        → attempt_step T step.step_type context w ≡ (err e, w')
        → is_quota_exhausted e ≡ false
        → T.timed_out step (suc attempt) w' ≡ true
        → Tries (suc (suc left)) attempt w (err t, w')
    tries_again :
        {left attempt : ℕ} {w w' : W} {e : StepError} {r : ExecutionResult × W}
        → attempt_step T step.step_type context w ≡ (err e, w')
        → is_quota_exhausted e ≡ false
        → T.timed_out step (suc attempt) w' ≡ false
        → Tries (suc left) (suc attempt) w' r
        → Tries (suc (suc left)) attempt w r

  attempts_from-Tries :
      (left attempt : ℕ) (w : W)
      → Tries (suc left) attempt w (attempts_from T left attempt step context w)
  unfolding attempts_from settle
  attempts_from-Tries zero attempt w = go (attempt_step T step.step_type context w) refl
    where
      go :
          (r : Result StepError Output × W)
          → attempt_step T step.step_type context w ≡ r
          → Tries 1 attempt w
              (settle T r (λ e w'. (err (codes "Failed after 3 attempts: " ++ e.message), w')))
      go (ok o, w') h = succeeds h
      go (err e, w') h = elim (Bool-cases (is_quota_exhausted e)) [
        | inl q ↦ rw (q, settle) (runs_dry h q)
        | inr q ↦ rw (q, settle) (gives_up h q)
      ]
  attempts_from-Tries (suc left) attempt w =
      go (attempt_step T step.step_type context w) refl
        (λ w'. attempts_from-Tries left (suc attempt) w')
    where
      go :
          (r : Result StepError Output × W)
          → attempt_step T step.step_type context w ≡ r
          → ((w' : W)
              → Tries
                  (suc left)
                  (suc attempt)
                  w'
                  (attempts_from T left (suc attempt) step context w'))
          → Tries (suc (suc left)) attempt w (
              settle T r (λ e w'.
                let retried = attempts_from T left (suc attempt) step context w' in
                if T.timed_out step (suc attempt) w'
                then (err (codes "Step timed out"), w')
                else retried))
      go (ok o, w') h again = succeeds h
      go (err e, w') h again = elim (Bool-cases (is_quota_exhausted e)) [
        | inl q ↦ rw (q, settle) (runs_dry h q)
        | inr q ↦ elim (Bool-cases (T.timed_out step (suc attempt) w')) [
          | inl l ↦ rw (q, l, settle) (runs_late h q l)
          | inr l ↦ rw (q, l, settle) (tries_again h q l (again w'))
        ]
      ]

  -- A step is attempted three times at most: it gives the first output there is, and it fails at
  -- once when a quota is exhausted, when its time is up, and after the third failure.
  pub execute_step-Tries : (w : W) → Tries 3 0 w (execute_step T step context w)
  unfolding execute_step
  execute_step-Tries w = attempts_from-Tries 2 0 w
