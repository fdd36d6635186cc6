-- ===== src/Breaker/View.antt =====
-- The abstract breaker: three values and their transitions, with no store; and what the store of a
-- breaker stands for.
use contract_agent_capstone.Prelude.{
  ℕ, ◌+◌, Bool, true, false, Option, none, some, leb, if◌then◌else◌,
}
use contract_agent_capstone.Cache.Client.{Value, number, Client, IsReachable}
use contract_agent_capstone.Breaker.{CircuitBreaker, decode_state, decode_time, decode_count}
use contract_agent_capstone.Breaker.Fields.{
  CircuitState, closed, opened, half_open, key, state, failure_count, opened_at,
}

pub record View : Type 0 where
  pub phase : CircuitState
  pub failures : ℕ
  pub since : ℕ

-- A request is let through unless the breaker is open and its timeout has not passed.
abbrev pub admit : ℕ → ℕ → View → Bool × View
admit timeout now v = elim v.phase [
  | closed ↦ (true, v)
  | half_open ↦ (true, v)
  | opened ↦
      if leb (v.since + timeout) now then (true, record v { phase = half_open }) else (false, v)
]

abbrev pub succeed : View → View
succeed v = record v { phase = closed; failures = 0 }

-- One more failure outside a trial.
abbrev pub count_up : ℕ → ℕ → View → View
count_up threshold now v =
    if leb threshold (v.failures + 1)
    then record { phase = opened; failures = v.failures + 1; since = now }
    else record v { failures = v.failures + 1 }

abbrev pub fail : ℕ → ℕ → View → View
fail threshold now v = elim v.phase [
  | half_open ↦ record v { phase = opened; since = now }
  | closed ↦ count_up threshold now v
  | opened ↦ count_up threshold now v
]

-- The counter holds a number, or has never been written.
abbrev pub IsCounter : Option Value → Type 0
IsCounter none = Unit
IsCounter (some (number _)) = Unit
IsCounter (some _) = ⊥

module _ (C : Client) (L : IsReachable C) (b : CircuitBreaker) where
  unfoldable pub view : C.State → View
  view s = record {
    phase = decode_state (L.read s (key b.name state));
    failures = decode_count (L.read s (key b.name failure_count));
    since = decode_time (L.read s (key b.name opened_at));
  }

  abbrev pub IsWellFormed : C.State → Type 0
  IsWellFormed s = IsCounter (L.read s (key b.name failure_count))
