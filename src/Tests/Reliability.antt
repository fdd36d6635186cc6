-- ===== src/Tests/Reliability.antt =====
-- The breaker, the provider chain and the cache, on the in-process store.
use contract_agent_capstone.Prelude.{
  ℕ, ◌+◌, ◌-◌, ◌≤◌, ◌≡◌, refl, true, some, List, [], ◌∷◌, ◌++◌, length, drop, arith,
}
use contract_agent_capstone.Prelude.Text.{Text, codes, text_eq, strip}
use contract_agent_capstone.Prelude.Dict.{lookup, insert}
use contract_agent_capstone.Exec.{ok, err, Exec}
use contract_agent_capstone.Cache.Client.{text, number, Exception}
use contract_agent_capstone.Cache.Slices.{at, last}
use contract_agent_capstone.Cache.Memory.{
  Store, as_list, rpush, ltrim, lrange, setex, ping, incrby, incrbyfloat, sadd, smembers, publish,
}
use contract_agent_capstone.Cache.Memory.Reachable.{memory_client, memory-IsReachable}
use contract_agent_capstone.Cache.Memory.Window.{window_keeps_last}
use contract_agent_capstone.Breaker.{
  CircuitBreaker, circuit_open, allow_request, record_failure, guard, get_status, get_state,
}
use contract_agent_capstone.Breaker.Fields.{
  opened, parse_state, key, state, failure_count, opened_at,
}
use contract_agent_capstone.Breaker.View.{View, admit, fail, view, IsWellFormed}
use contract_agent_capstone.Breaker.Transitions.{allow_request-admit, record_failure-fail}
use contract_agent_capstone.Breaker.Guard.{guard_refuses, half_open_admits_all}
use contract_agent_capstone.Breaker.Trip.{
  success, failure, record_all, failures_from, trips_exactly,
}
use contract_agent_capstone.Fallback.{Provider, invoke_chain}
use contract_agent_capstone.Fallback.Order.{Ending, invoke_chain-Ending}

abbrev gemini : CircuitBreaker
gemini = record { name = codes "gemini"; failure_threshold = 3; recovery_timeout_seconds = 60 }

-- Open since the time 100, with three failures counted.
abbrev open_store : Store
open_store =
    (key gemini.name state, text (codes "open"))
    ∷ (key gemini.name opened_at, number 100)
    ∷ (key gemini.name failure_count, number 3)
    ∷ []

abbrev quota_error : Exception
quota_error = record { name = codes "ResourceExhausted"; message = codes "429 quota" }

abbrev schema_error : Exception
schema_error = record { name = codes "ValueError"; message = codes "bad schema" }

abbrev answers : Exec Store Exception Text
answers s = (ok (codes "yes"), s)

abbrev fails : Exception → Exec Store Exception Text
fails e s = (err e, s)

abbrev observed : Store → View
observed s = view memory_client memory-IsReachable gemini s

record_failure-fail_example :
    (observed (record_failure memory_client gemini 7 []) ≡ fail 3 7 (observed []))
    × IsWellFormed memory_client memory-IsReachable gemini
        (record_failure memory_client gemini 7 [])
unfolding memory-IsReachable lookup
record_failure-fail_example = record_failure-fail memory_client memory-IsReachable gemini 7 [] tt

allow_request-admit_example :
    let (allowed, s') = allow_request memory_client gemini 170 open_store in
    (allowed, observed s') ≡ admit 60 170 (observed open_store)
allow_request-admit_example =
    allow_request-admit memory_client memory-IsReachable gemini 170 open_store

guard_refuses_example :
    guard memory_client gemini 120 125 answers open_store
    ≡ (err (circuit_open gemini.name (60 + (observed open_store).since - 125)), open_store)
unfolding view memory-IsReachable lookup key parse_state
guard_refuses_example =
    guard_refuses memory_client memory-IsReachable gemini 120 125 answers open_store refl
      (omega arith)

half_open_admits_all_example :
    ((allow_request memory_client gemini 170 open_store).0 ≡ true)
    × ((allow_request memory_client gemini 171
          (allow_request memory_client gemini 170 open_store).1).0
        ≡ true)
unfolding view memory-IsReachable lookup key parse_state
half_open_admits_all_example =
    half_open_admits_all memory_client memory-IsReachable gemini 170 171 open_store refl
      (omega arith)

trips_exactly_example :
    let os = failure 1 ∷ success ∷ failure 2 ∷ failure 3 ∷ failure 4 ∷ [] in
    let v = observed (record_all memory_client memory-IsReachable gemini os []) in
    let n = failures_from (observed []).failures os in
    (v.failures ≡ n) × (v.phase ≡ opened → 3 ≤ n) × (3 ≤ n → v.phase ≡ opened)
unfolding view memory-IsReachable lookup
trips_exactly_example =
    trips_exactly memory_client memory-IsReachable gemini
      (failure 1 ∷ success ∷ failure 2 ∷ failure 3 ∷ failure 4 ∷ []) [] (omega arith) tt refl
      (omega arith)

abbrev openai : CircuitBreaker
openai = record { name = codes "openai"; failure_threshold = 3; recovery_timeout_seconds = 60 }

abbrev provider : CircuitBreaker → Exec Store Exception Text → Provider memory_client Text
provider breaker call = record {
  name = breaker.name;
  model = codes "model";
  breaker = breaker;
  factory = ok (some call);
}

abbrev chain : List (Provider memory_client Text)
chain = provider gemini answers ∷ provider openai answers ∷ []

abbrev clock : Text → ℕ × ℕ
clock name = (120, 125)

invoke_chain-Ending_example :
    Ending memory_client Text clock chain open_store
      (invoke_chain memory_client Text clock chain open_store)
invoke_chain-Ending_example = invoke_chain-Ending memory_client Text clock chain open_store

window_keeps_last_example :
    let all = as_list (lookup (codes "k") open_store) ++ (codes "a" ∷ codes "b" ∷ []) in
    let s' =
      (ltrim
        (codes "k")
        (last 0)
        (last 0)
        (rpush (codes "k") (codes "a" ∷ codes "b" ∷ []) open_store).1).1 in
    ((lrange (codes "k") (at 0) (last 0) s').0 ≡ ok (drop (length all - 1) all))
    × (length (drop (length all - 1) all) ≤ 1)
window_keeps_last_example = window_keeps_last (codes "k") (codes "a" ∷ codes "b" ∷ []) 0 open_store

-- The other operations of the store, one after the other.
store_test : (incrby (codes "n") 5 (setex (codes "n") 9 (codes "37") []).1).0 ≡ ok 42
unfolding lookup insert strip
store_test = refl

sets_test :
    (smembers (codes "s") (sadd (codes "s") (codes "a" ∷ codes "b" ∷ codes "a" ∷ []) []).1).0
    ≡ ok (codes "b" ∷ codes "a" ∷ [])
unfolding lookup insert
sets_test = refl

float_test : (incrbyfloat (codes "x") 3 []).0 ≡ ok 3
unfolding lookup
float_test = refl

quiet_test : ((ping []).0 ≡ ok true) × ((publish (codes "c") (codes "m") []).0 ≡ ok 0)
quiet_test = (refl, refl)

status_test : (get_status memory_client gemini open_store).0.failure_count ≡ 3
unfolding get_status get_state lookup key
status_test = refl
