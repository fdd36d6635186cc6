-- ===== src/Breaker/Transitions.antt =====
-- The operations of the breaker against its abstract transitions.
use contract_agent_capstone.Prelude.{
  ℕ, ◌+◌, ◌≡◌, refl, ap, ◌∙◌, false, Option, none, some, arith, if◌then◌else◌,
}
use contract_agent_capstone.Prelude.Text.{text_eq}
use contract_agent_capstone.Exec.{ok}
use contract_agent_capstone.Cache.Client.{
  Value, text, number, members, items, Client, IsReachable, counted,
}
use contract_agent_capstone.Breaker.{
  CircuitBreaker, decode_count, get_state, get_opened_at, set_state, try_recovery, allow_request,
  has_elapsed, record_success, trip_open, count_failure, fail_in, record_failure,
}
use contract_agent_capstone.Breaker.Fields.{
  CircuitState, closed, opened, half_open, state_value, parse_state-state_value, Field, key,
  field_beq, key-beq, state, failure_count, opened_at,
}
use contract_agent_capstone.Breaker.View.{
  View, admit, succeed, count_up, fail, IsCounter, view, IsWellFormed,
}

IsCounter-counted : (o : Option Value) → IsCounter o → counted o ≡ some (decode_count o + 1)
IsCounter-counted none h = refl
IsCounter-counted (some (number n)) h = refl
IsCounter-counted (some (text _)) h = absurd h
IsCounter-counted (some (members _)) h = absurd h
IsCounter-counted (some (items _)) h = absurd h

module _ (C : Client) (L : IsReachable C) (b : CircuitBreaker) where
  -- A write to one field, as a read of another sees it.
  read-set_field :
      (f g : Field) (v : Value) (s : C.State)
      → L.read (C.set (key b.name f) v s).1 (key b.name g)
        ≡ (if field_beq f g then some v else L.read s (key b.name g))
  read-set_field f g v s =
      rw (L.read-set (key b.name f) (key b.name g) v s) (rw (key-beq b.name f g))

  read-incr_field :
      (f g : Field) (s : C.State) (n : ℕ)
      → counted (L.read s (key b.name f)) ≡ some n
      → L.read (C.incr (key b.name f) s).1 (key b.name g)
        ≡ (if field_beq f g then some (number n) else L.read s (key b.name g))
  read-incr_field f g s n h =
      rw (L.read-incr (key b.name f) (key b.name g) s n h) (rw (key-beq b.name f g))

  pub get_state_lem : (s : C.State) → get_state C b s ≡ ((view C L b s).phase, s)
  unfolding get_state view
  get_state_lem s = rw (L.get_lem (key b.name state) s)

  pub get_opened_at_lem : (s : C.State) → get_opened_at C b s ≡ ((view C L b s).since, s)
  unfolding get_opened_at view
  get_opened_at_lem s = rw (L.get_lem (key b.name opened_at) s)

  view-set_state :
      (c : CircuitState) (s : C.State)
      → view C L b (C.set (key b.name state) (text (state_value c)) s).1
        ≡ record (view C L b s) { phase = c }
  unfolding view
  view-set_state c s = simp (
    read-set_field state state (text (state_value c)) s,
    read-set_field state failure_count (text (state_value c)) s,
    read-set_field state opened_at (text (state_value c)) s,
    parse_state-state_value c,
  )

  set_state-IsWellFormed :
      (f : Field) (v : Value) (s : C.State)
      → field_beq f failure_count ≡ false
      → IsWellFormed C L b s
      → IsWellFormed C L b (C.set (key b.name f) v s).1
  set_state-IsWellFormed f v s ne h = rw (read-set_field f failure_count v s, ne) h

  -- What the two writes of `trip_open` leave.
  trip_open_lem :
      (now : ℕ) (s : C.State)
      → trip_open C b now s ≡ (
        ok tt,
        (C.set
            (key b.name opened_at)
            (number now)
            (C.set (key b.name state) (text (state_value opened)) s).1).1,
      )
  unfolding trip_open
  trip_open_lem now s = ground (
    arith,
    L.set_ok (key b.name state) (text (state_value opened)) s,
    L.set_ok (key b.name opened_at) (number now)
        (C.set (key b.name state) (text (state_value opened)) s).1,
  )

  view-set_opened_at :
      (now : ℕ) (s : C.State)
      → view C L b (C.set (key b.name opened_at) (number now) s).1
        ≡ record (view C L b s) { since = now }
  unfolding view
  view-set_opened_at now s = simp (
    read-set_field opened_at state (number now) s,
    read-set_field opened_at failure_count (number now) s,
    read-set_field opened_at opened_at (number now) s,
  )

  view-set_failure_count :
      (n : ℕ) (s : C.State)
      → view C L b (C.set (key b.name failure_count) (number n) s).1
        ≡ record (view C L b s) { failures = n }
  unfolding view
  view-set_failure_count n s = simp (
    read-set_field failure_count state (number n) s,
    read-set_field failure_count failure_count (number n) s,
    read-set_field failure_count opened_at (number n) s,
  )

  view-trip_open :
      (now : ℕ) (s : C.State)
      → view C L b (trip_open C b now s).1 ≡ record (view C L b s) { phase = opened; since = now }
  view-trip_open now s =
      rw (trip_open_lem now s) (rw view-set_opened_at (rw (view-set_state opened s)))

  trip_open-IsWellFormed :
      (now : ℕ) (s : C.State) → IsWellFormed C L b s → IsWellFormed C L b (trip_open C b now s).1
  trip_open-IsWellFormed now s h =
      rw (trip_open_lem now s)
        (set_state-IsWellFormed opened_at _ _ refl (set_state-IsWellFormed state _ s refl h))

  -- `allow_request` decides, and moves the breaker, as `admit` does.
  pub allow_request-admit :
      (now : ℕ) (s : C.State)
      → let (allowed, s') = allow_request C b now s in
        (allowed, view C L b s') ≡ admit b.recovery_timeout_seconds now (view C L b s)
  unfolding allow_request try_recovery set_state has_elapsed
  allow_request-admit now s =
      ground (arith, get_state_lem s, get_opened_at_lem s, view-set_state half_open s)

  pub allow_request-IsWellFormed :
      (now : ℕ) (s : C.State)
      → IsWellFormed C L b s
      → IsWellFormed C L b (allow_request C b now s).1
  unfolding allow_request try_recovery set_state has_elapsed
  allow_request-IsWellFormed now s h = ground (
    arith,
    h,
    get_state_lem s,
    get_opened_at_lem s,
    set_state-IsWellFormed state (text (state_value half_open)) s,
  )

  record_success_lem :
      (s : C.State)
      → record_success C b s
        ≡ (C.set
            (key b.name state)
            (text (state_value closed))
            (C.set (key b.name failure_count) (number 0) s).1).1
  unfolding record_success
  record_success_lem s = ground (arith, L.set_ok (key b.name failure_count) (number 0) s)

  pub record_success-succeed :
      (s : C.State) → view C L b (record_success C b s) ≡ succeed (view C L b s)
  record_success-succeed s = rw (record_success_lem s) (
      view-set_state closed _
      ∙ ap {A = View} (λ v. record v { phase = closed }) (view-set_failure_count 0 s))

  pub record_success-IsWellFormed : (s : C.State) → IsWellFormed C L b (record_success C b s)
  record_success-IsWellFormed s = rw (record_success_lem s) (
      set_state-IsWellFormed state _ _ refl
        (rw (read-set_field failure_count failure_count (number 0) s) tt))

  -- After `incr` the counter is one higher, and the rest is as it was.
  after_incr :
      (s : C.State)
      → IsWellFormed C L b s
      → let n = (view C L b s).failures + 1 in
        ((C.incr (key b.name failure_count) s).0 ≡ ok n)
        × (view C L b (C.incr (key b.name failure_count) s).1
            ≡ record (view C L b s) { failures = n })
        × IsWellFormed C L b (C.incr (key b.name failure_count) s).1
  unfolding view
  after_incr s h =
      let e = IsCounter-counted (L.read s (key b.name failure_count)) h in
      let n = decode_count (L.read s (key b.name failure_count)) + 1 in
      (
        L.incr_ok (key b.name failure_count) s n e,
        simp (
          read-incr_field failure_count state s n e,
          read-incr_field failure_count failure_count s n e,
          read-incr_field failure_count opened_at s n e,
        ),
        rw (read-incr_field failure_count failure_count s n e) tt,
      )

  count_failure-count_up :
      (now : ℕ) (s : C.State)
      → IsWellFormed C L b s
      → (view C L b (count_failure C b now s).1 ≡ count_up b.failure_threshold now (view C L b s))
        × IsWellFormed C L b (count_failure C b now s).1
  unfolding count_failure
  count_failure-count_up now s h = ground (
    arith,
    after_incr s h,
    view-trip_open now (C.incr (key b.name failure_count) s).1,
    trip_open-IsWellFormed now (C.incr (key b.name failure_count) s).1,
  )

  pub record_failure-fail :
      (now : ℕ) (s : C.State)
      → IsWellFormed C L b s
      → (view C L b (record_failure C b now s) ≡ fail b.failure_threshold now (view C L b s))
        × IsWellFormed C L b (record_failure C b now s)
  unfolding record_failure fail_in
  record_failure-fail now s h = ground (
    arith,
    h,
    get_state_lem s,
    count_failure-count_up now s h,
    view-trip_open now s,
    trip_open-IsWellFormed now s h,
  )
