-- ===== src/Breaker.antt =====
-- backend/shared/reliability/circuit_breaker.py: the breaker of one dependency, whose state lives
-- in a key store under the breaker's name. `time.time()` is an argument, in any unit; a method that
-- reads the clock twice has two.
pub mod Fields
pub mod View
pub mod Transitions
pub mod Guard
pub mod Trip
use contract_agent_capstone.Prelude.{
  ℕ, ◌+◌, ◌-◌, Bool, true, false, Option, none, some, [], ◌∷◌, leb, ◌++◌, if◌then◌else◌,
}
use contract_agent_capstone.Prelude.Text.{Text, codes}
use contract_agent_capstone.Exec.{Result, ok, err, Exec, ◌>>=◌, ◌>>◌, pure}
use contract_agent_capstone.Cache.Client.{Value, text, number, Exception, Client}
use Fields.{CircuitState, closed, opened, half_open, state_value, parse_state, key, state}
use Fields.{failure_count, opened_at}

pub record CircuitBreaker : Type 0 where
  pub name : Text
  pub failure_threshold : ℕ
  pub recovery_timeout_seconds : ℕ

-- What `_get_state` makes of what it reads; an empty or an unknown value is CLOSED.
abbrev pub decode_state : Option Value → CircuitState
decode_state (some (text t)) = parse_state t
decode_state _ = closed

-- `float(value) if value else 0.0`
abbrev pub decode_time : Option Value → ℕ
decode_time (some (number t)) = t
decode_time _ = 0

-- `int(value or 0)`
abbrev pub decode_count : Option Value → ℕ
decode_count (some (number n)) = n
decode_count _ = 0

pub record Status : Type 0 where
  pub name : Text
  pub state : CircuitState
  pub failure_count : ℕ
  pub failure_threshold : ℕ

-- What a guarded call raises: the error of an open breaker, or the call's own exception.
pub data GuardError : Type 0 where
  circuit_open : Text → ℕ → GuardError
  raised : Exception → GuardError

-- The value of a read, or the default where it raised.
abbrev pub or_default {ℓ κ} : {A : Type ℓ} {B : Type κ} → (A → B) → B → Result Exception A → B
or_default f d (ok a) = f a
or_default f d (err e) = d

module _ (C : Client) (b : CircuitBreaker) where
  open b use {name, failure_threshold, recovery_timeout_seconds}

  unfoldable pub get_state : C.State → CircuitState × C.State
  get_state s = let (r, s') = C.get (key name state) s in (or_default decode_state closed r, s')

  unfoldable pub get_opened_at : C.State → ℕ × C.State
  get_opened_at s = let (r, s') = C.get (key name opened_at) s in (or_default decode_time 0 r, s')

  -- A write that raises is logged and forgotten.
  unfoldable pub set_state : CircuitState → C.State → C.State
  set_state c s = (C.set (key name state) (text (state_value c)) s).1

  -- `elapsed >= recovery_timeout_seconds`, with the subtraction moved to the other side.
  unfoldable pub has_elapsed : ℕ → ℕ → Bool
  has_elapsed now since = leb (since + recovery_timeout_seconds) now

  -- The OPEN branch of `allow_request`.
  unfoldable pub try_recovery : ℕ → C.State → Bool × C.State
  try_recovery now s =
      let (since, s') = get_opened_at s in
      if has_elapsed now since then (true, set_state half_open s') else (false, s')

  unfoldable pub allow_request : ℕ → C.State → Bool × C.State
  allow_request now s =
      let (c, s') = get_state s in
      elim c [ closed ↦ (true, s') | opened ↦ try_recovery now s' | half_open ↦ (true, s') ]

  unfoldable pub record_success : C.State → C.State
  record_success s =
      ((C.set (key name failure_count) (number 0)
          >> C.set (key name state) (text (state_value closed)))
        s).1

  unfoldable pub trip_open : ℕ → Exec C.State Exception Unit
  trip_open now = do
    C.set (key name state) (text (state_value opened))
    C.set (key name opened_at) (number now)

  -- The CLOSED and OPEN branch of `record_failure`.
  unfoldable pub count_failure : ℕ → Exec C.State Exception Unit
  count_failure now = do
    count ← C.incr (key name failure_count)
    if leb failure_threshold count then trip_open now else pure tt

  -- The body of `record_failure` once the state is read.
  unfoldable pub fail_in : ℕ → CircuitState → Exec C.State Exception Unit
  fail_in now half_open = trip_open now
  fail_in now closed = count_failure now
  fail_in now opened = count_failure now

  unfoldable pub record_failure : ℕ → C.State → C.State
  record_failure now s = let (c, s') = get_state s in (fail_in now c s').1

  unfoldable pub get_status : C.State → Status × C.State
  get_status s =
      let (c, s1) = get_state s in
      let (r, s2) = C.get (key name failure_count) s1 in
      (
        record {
          name = name;
          state = c;
          failure_count = or_default decode_count 0 r;
          failure_threshold = failure_threshold;
        },
        s2,
      )

  -- `max(0.0, recovery_timeout_seconds - (time.time() - opened_at))`
  unfoldable pub retry_after : ℕ → C.State → ℕ × C.State
  retry_after now s =
      let (since, s') = get_opened_at s in (recovery_timeout_seconds + since - now, s')

  -- The end of a `with` block: its outcome is recorded, and passed on unchanged.
  unfoldable pub settle :
      {A : Type 0} → ℕ → Result Exception A × C.State → Result GuardError A × C.State
  settle now (ok a, s) = (ok a, record_success s)
  settle now (err e, s) = (err (raised e), record_failure now s)

  -- `with breaker.guard(): body`, entered at the time `now` and left at the time `later`.
  unfoldable pub guard : {A : Type 0} → ℕ → ℕ → Exec C.State Exception A → Exec C.State GuardError A
  guard now later body s =
      let (allowed, s') = allow_request now s in
      elim allowed [
        | true ↦ settle later (body s')
        | false ↦ let (wait, s2) = retry_after later s' in (err (circuit_open name wait), s2)
      ]
