-- ===== src/Fallback.antt =====
-- backend/agents/llm_fallback_service.py: the chain of providers behind a structured LLM call.
-- The SDKs are a parameter: a provider's factory gives no client, or the call of its client.
pub mod Worthy
pub mod Order
pub mod Isolation
use contract_agent_capstone.Prelude.{
  ℕ, Bool, true, false, Option, none, some, List, [], ◌∷◌, ◌++◌, if◌then◌else◌,
}
use contract_agent_capstone.Prelude.Text.{Text, codes}
use contract_agent_capstone.Exec.{Result, ok, err, Exec}
use contract_agent_capstone.Cache.Client.{Client, Exception}
use contract_agent_capstone.Breaker.{CircuitBreaker, GuardError, circuit_open, guard}
use Worthy.{is_fallback_worthy}

-- `AllProvidersExhaustedError` with the names attempted and the last error, or an error passed on.
pub data ChainError : Type 0 where
  all_exhausted : List Text → Option GuardError → ChainError
  passed_on : Exception → ChainError

module _ (C : Client) (Raw : Type 0) where
  -- One entry of the chain; `factory` is applied to the prompt, schema and timeout already.
  pub record Provider : Type 0 where
    pub name : Text
    pub model : Text
    pub breaker : CircuitBreaker
    pub factory : Result Exception (Option (Exec C.State Exception Raw))

  pub record Served : Type 0 where
    pub raw : Raw
    pub provider : Text
    pub model : Text

  -- `continue` with the error as `last_error`, or `raise`.
  abbrev pub fall_through : GuardError → Option Exception
  fall_through (circuit_open name wait) = none
  fall_through (GuardError.raised e) = if is_fallback_worthy e then none else some e

  -- What one provider comes to: not configured, served, fallen through with an error, or an error
  -- that ends the chain.
  pub data Attempt : Type 0 where
    skipped : Attempt
    served : Raw → Attempt
    fell : GuardError → Attempt
    fatal : Exception → Attempt

  abbrev pub settled : Result GuardError Raw → Attempt
  settled (ok raw) = served raw
  settled (err e) = elim (fall_through e) [ none ↦ fell e | some x ↦ fatal x ]

  -- One turn of the loop; the guard is entered and left at the two times.
  unfoldable pub attempt : ℕ × ℕ → Provider → C.State → Attempt × C.State
  attempt (entered, left) p s = elim p.factory [
    | err e ↦ (fatal e, s)
    | ok none ↦ (skipped, s)
    | ok (some call) ↦ let (r, s') = guard C p.breaker entered left call s in (settled r, s')
  ]

  abbrev pub note : Text → Attempt → List Text → List Text
  note name skipped tried = tried
  note name _ tried = tried ++ (name ∷ [])

  module _ (clock : Text → ℕ × ℕ) where
    -- The loop of `_invoke_chain`, with the names attempted and the last error so far.
    unfoldable pub invoke_from :
        List Text → Option GuardError → List Provider → C.State → Result ChainError Served × C.State
    invoke_from tried last [] s = (err (all_exhausted tried last), s)
    invoke_from tried last (p ∷ ps) s =
        let (a, s') = attempt (clock p.name) p s in
        let tried' = note p.name a tried in
        elim a [
          | skipped ↦ invoke_from tried' last ps s'
          | served raw ↦ (ok (record { raw = raw; provider = p.name; model = p.model }), s')
          | fell e ↦ invoke_from tried' (some e) ps s'
          | fatal e ↦ (err (passed_on e), s')
        ]

    unfoldable pub invoke_chain : List Provider → C.State → Result ChainError Served × C.State
    invoke_chain chain s = invoke_from [] none chain s
