-- ===== src/Breaker/Guard.antt =====
-- `guard`: when the guarded call is made at all, and what its outcome does to the breaker.
use contract_agent_capstone.Prelude.{ℕ, ◌+◌, ◌-◌, ◌≤◌, ◌<◌, ◌≡◌, true, arith}
use contract_agent_capstone.Exec.{ok, err, Exec}
use contract_agent_capstone.Cache.Client.{Exception, Client, IsReachable}
use contract_agent_capstone.Breaker.{
  CircuitBreaker, circuit_open, raised, allow_request, retry_after, settle, guard, try_recovery,
  has_elapsed,
}
use contract_agent_capstone.Breaker.Fields.{closed, opened}
use contract_agent_capstone.Breaker.View.{view, IsWellFormed}
use contract_agent_capstone.Breaker.Transitions.{
  get_state_lem, get_opened_at_lem, allow_request-admit, allow_request-IsWellFormed,
  record_success-succeed, record_failure-fail,
}

module _ (C : Client) (L : IsReachable C) (b : CircuitBreaker) where
  -- While the breaker is open and its timeout has not passed, a guarded call is refused: whatever
  -- the call would do, the result is the breaker's own error with the time left, and the store
  -- is as it was.
  pub guard_refuses :
      {A : Type 0} (now later : ℕ) (body : Exec C.State Exception A) (s : C.State)
      → (view C L b s).phase ≡ opened
      → now < (view C L b s).since + b.recovery_timeout_seconds
      → guard C b now later body s
        ≡ (err (circuit_open b.name (b.recovery_timeout_seconds + (view C L b s).since - later)), s)
  unfolding guard allow_request try_recovery has_elapsed retry_after
  guard_refuses now later body s p early =
      ground (arith, get_state_lem C L b s, get_opened_at_lem C L b s)

  -- Outside that, the call is made, on the store that `allow_request` leaves.
  guard_admits :
      {A : Type 0} (now later : ℕ) (body : Exec C.State Exception A) (s : C.State)
      → (allow_request C b now s).0 ≡ true
      → guard C b now later body s ≡ settle C b later (body (allow_request C b now s).1)
  unfolding guard
  guard_admits now later body s h = ground arith

  -- When the timeout has passed, a call of an open breaker that returns closes it and clears its
  -- counter, and the call's value is passed on.
  pub guard_recovers :
      {A : Type 0} (now later : ℕ) (body : Exec C.State Exception A) (s s' : C.State) (a : A)
      → (view C L b s).phase ≡ opened
      → (view C L b s).since + b.recovery_timeout_seconds ≤ now
      → body (allow_request C b now s).1 ≡ (ok a, s')
      → ((guard C b now later body s).0 ≡ ok a)
        × ((view C L b (guard C b now later body s).1).phase ≡ closed)
        × ((view C L b (guard C b now later body s).1).failures ≡ 0)
  unfolding settle
  guard_recovers now later body s s' a p late e = ground (
    arith,
    guard_admits now later body s,
    allow_request-admit C L b now s,
    record_success-succeed C L b s',
  )

  -- When the timeout has passed, a call of an open breaker that raises, and leaves the breaker's
  -- keys alone, opens it again from the time at which it failed; its exception is passed on.
  pub guard_reopens :
      {A : Type 0} (now later : ℕ) (body : Exec C.State Exception A) (s : C.State) (e : Exception)
      → IsWellFormed C L b s
      → (view C L b s).phase ≡ opened
      → (view C L b s).since + b.recovery_timeout_seconds ≤ now
      → body (allow_request C b now s).1 ≡ (err e, (allow_request C b now s).1)
      → ((guard C b now later body s).0 ≡ err (raised e))
        × ((view C L b (guard C b now later body s).1).phase ≡ opened)
        × ((view C L b (guard C b now later body s).1).since ≡ later)
  unfolding settle
  guard_reopens now later body s e w p late r = ground (
    arith,
    guard_admits now later body s,
    allow_request-admit C L b now s,
    allow_request-IsWellFormed C L b now s w,
    record_failure-fail C L b later (allow_request C b now s).1,
  )

  -- A second caller that asks before the trial has ended is let through too, at any later time.
  pub half_open_admits_all :
      (now next : ℕ) (s : C.State)
      → (view C L b s).phase ≡ opened
      → (view C L b s).since + b.recovery_timeout_seconds ≤ now
      → ((allow_request C b now s).0 ≡ true)
        × ((allow_request C b next (allow_request C b now s).1).0 ≡ true)
  half_open_admits_all now next s p late = ground (
    arith,
    allow_request-admit C L b now s,
    allow_request-admit C L b next (allow_request C b now s).1,
  )
