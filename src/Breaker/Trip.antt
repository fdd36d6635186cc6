-- ===== src/Breaker/Trip.antt =====
-- When the breaker trips: the outcomes that it records, in order.
use contract_agent_capstone.Prelude.{ℕ, ◌+◌, ◌≤◌, ◌<◌, ◌≡◌, refl, ◌≢◌, List, [], ◌∷◌, arith}
use contract_agent_capstone.Cache.Client.{Client, IsReachable}
use contract_agent_capstone.Breaker.{CircuitBreaker, record_success, record_failure}
use contract_agent_capstone.Breaker.Fields.{closed, opened, half_open}
use contract_agent_capstone.Breaker.View.{View, succeed, fail, view, IsWellFormed}
use contract_agent_capstone.Breaker.Transitions.{
  record_success-succeed, record_success-IsWellFormed, record_failure-fail,
}

-- The end of a guarded call: it returned, or it raised at that time.
pub data Outcome : Type 0 where
  success : Outcome
  failure : ℕ → Outcome

-- How many failures there were since the last success, after `n` of them.
abbrev pub failures_from : ℕ → List Outcome → ℕ
failures_from n [] = n
failures_from n (success ∷ os) = failures_from 0 os
failures_from n (failure t ∷ os) = failures_from (n + 1) os

-- Open just when the failures in a row have reached the threshold, and not in a trial.
record IsExact (threshold : ℕ) (v : View) : Type 0 where
  not_trial : v.phase ≢ half_open
  trips : v.phase ≡ opened → threshold ≤ v.failures
  tripped : threshold ≤ v.failures → v.phase ≡ opened

IsExact-succeed : (t : ℕ) (v : View) → 0 < t → IsExact t (succeed v)
IsExact-succeed t v h = ground arith

IsExact-fail : (t now : ℕ) (v : View) → IsExact t v → IsExact t (fail t now v)
IsExact-fail t now v h = ground arith

failures-fail :
    (t now : ℕ) (v : View) → v.phase ≢ half_open → (fail t now v).failures ≡ v.failures + 1
failures-fail t now v h = ground arith

module _ (C : Client) (L : IsReachable C) (b : CircuitBreaker) where
  unfoldable pub record_all : List Outcome → C.State → C.State
  record_all [] s = s
  record_all (success ∷ os) s = record_all os (record_success C b s)
  record_all (failure now ∷ os) s = record_all os (record_failure C b now s)

  record_all-IsExact :
      (os : List Outcome) (s : C.State)
      → 0 < b.failure_threshold
      → IsWellFormed C L b s
      → IsExact b.failure_threshold (view C L b s)
      → IsExact b.failure_threshold (view C L b (record_all os s))
        × ((view C L b (record_all os s)).failures ≡ failures_from (view C L b s).failures os)
  unfolding record_all
  record_all-IsExact [] s p w h = (h, refl)
  record_all-IsExact (success ∷ os) s p w h =
      let ih =
        record_all-IsExact os (record_success C b s) p (record_success-IsWellFormed C L b s) (
          rw (record_success-succeed C L b s)
            (IsExact-succeed b.failure_threshold (view C L b s) p)) in
      (ih.0, rw (record_success-succeed C L b s) at ih.1)
  record_all-IsExact (failure now ∷ os) s p w h =
      let (e, w') = record_failure-fail C L b now s w in
      let ih =
        record_all-IsExact os (record_failure C b now s) p w'
          (rw e (IsExact-fail b.failure_threshold now (view C L b s) h)) in
      (ih.0, rw (e, failures-fail b.failure_threshold now (view C L b s) h.not_trial) at ih.1)

  -- From a closed breaker with fewer failures than its threshold, which is positive, whatever
  -- outcomes are recorded: the counter is the number of failures since the last success, and the
  -- breaker is open at the end exactly when that number has reached the threshold.
  pub trips_exactly :
      (os : List Outcome) (s : C.State)
      → 0 < b.failure_threshold
      → IsWellFormed C L b s
      → (view C L b s).phase ≡ closed
      → (view C L b s).failures < b.failure_threshold
      → let v = view C L b (record_all os s) in
        let n = failures_from (view C L b s).failures os in
        (v.failures ≡ n)
        × (v.phase ≡ opened → b.failure_threshold ≤ n)
        × (b.failure_threshold ≤ n → v.phase ≡ opened)
  trips_exactly os s p w c l = ground (arith, record_all-IsExact os s p w)
