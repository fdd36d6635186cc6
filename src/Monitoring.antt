-- ===== src/Monitoring.antt =====
-- backend/shared/monitoring/: the trackers that count in the shared store, on the in-process one.
-- What a tracker raises is swallowed; what it wrote before stays. Rates are left to the reader.
pub mod Hallucination
pub mod Latency
use contract_agent_capstone.Prelude.{ℕ, Option}
use contract_agent_capstone.Prelude.Text.{Text}
use contract_agent_capstone.Exec.{Result, ok, err, Exec}
use contract_agent_capstone.Cache.Client.{Value, Exception}
use contract_agent_capstone.Cache.Memory.{Store, as_int}

-- `try: ... except Exception: logger.warning(...)`
abbrev pub swallow : {A : Type 0} → Exec Store Exception A → Store → Store
swallow m s = (m s).1

-- `int(value)` of a counter, and 0 where there is none or it is no number.
abbrev pub count_or_zero : Result Exception ℕ → ℕ
count_or_zero (ok n) = n
count_or_zero (err e) = 0

abbrev pub count_of : Option Value → ℕ
count_of v = count_or_zero (as_int v)
