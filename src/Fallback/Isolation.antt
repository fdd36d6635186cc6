-- ===== src/Fallback/Isolation.antt =====
-- Providers behind an open breaker, and breakers that do not share a key.
use contract_agent_capstone.Prelude.{ℕ, ◌+◌, ◌-◌, ◌<◌, ◌≡◌, true, false, some, arith}
use contract_agent_capstone.Exec.{ok, err, Exec}
use contract_agent_capstone.Cache.Client.{Client, IsReachable, Exception}
use contract_agent_capstone.Breaker.{GuardError, circuit_open, guard}
use contract_agent_capstone.Breaker.Fields.{opened}
use contract_agent_capstone.Breaker.View.{view}
use contract_agent_capstone.Breaker.Guard.{guard_refuses}
use contract_agent_capstone.Fallback.{Provider, fell, fatal, attempt}
use contract_agent_capstone.Fallback.Worthy.{is_fallback_worthy}

module _ (C : Client) (Raw : Type 0) where
  -- A configured provider whose breaker is open, before its timeout has passed, falls through with
  -- the breaker's error: its client is not called, whatever it would do, and the store is as it
  -- was.
  pub open_provider_falls :
      (L : IsReachable C) (entered left : ℕ) (p : Provider C Raw) (s : C.State)
      (call : Exec C.State Exception Raw)
      → p.factory ≡ ok (some call)
      → (view C L p.breaker s).phase ≡ opened
      → entered < (view C L p.breaker s).since + p.breaker.recovery_timeout_seconds
      → (attempt C Raw (entered, left) p s).1 ≡ s
        × ((attempt C Raw (entered, left) p s).0
            ≡ fell (
                circuit_open p.breaker.name
                  (p.breaker.recovery_timeout_seconds + (view C L p.breaker s).since - left)))
  unfolding attempt
  open_provider_falls L entered left p s call f o early =
      ground (arith, guard_refuses C L p.breaker entered left call s o early)

  -- A provider's own error ends the chain exactly when it is not one of those that look like the
  -- provider failing to serve.
  pub fatal_unless_worthy :
      (entered left : ℕ) (p : Provider C Raw) (s : C.State) (call : Exec C.State Exception Raw)
      (e : Exception)
      → p.factory ≡ ok (some call)
      → (guard C p.breaker entered left call s).0 ≡ err (GuardError.raised e)
      → ((is_fallback_worthy e ≡ false → (attempt C Raw (entered, left) p s).0 ≡ fatal e))
        × (is_fallback_worthy e ≡ true
            → (attempt C Raw (entered, left) p s).0 ≡ fell (GuardError.raised e))
  unfolding attempt
  fatal_unless_worthy entered left p s call e f g = ground arith
