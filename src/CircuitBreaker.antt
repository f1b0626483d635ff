-- ===== src/CircuitBreaker.antt =====
-- The circuit breaker of an account: crates/antigravity-core/src/proxy/common/circuit_breaker.
-- The write lock makes each method atomic; `now` is the reading of `Instant::now()` in it.
-- Logging (`persist_state_change` only logs) is left out.
pub mod History
pub mod Invariant
pub mod Transitions
pub mod Threshold
pub mod Probe
mod Examples
use antigravity_server.Prelude.{
  Bool, Option, [], elapsed, false, from_secs, if◌then◌else◌, leb, none, some, true, u32, unwrap_or,
  ℕ, ◌%◌, ◌+◌, ◌-◌, ◌^◌, ◌∷◌,
}
use antigravity_server.Prelude.Text.{Text, text}
use antigravity_server.Prelude.Map.{Map, insert, lookup, text_key}

pub record CircuitBreakerConfig : Type 0 where
  pub failure_threshold : ℕ
  pub open_duration : ℕ
  pub success_threshold : ℕ

unfoldable pub default_config : CircuitBreakerConfig
default_config = record {
  failure_threshold = 5;
  open_duration = from_secs 60;
  success_threshold = 2;
}

-- `opened` is the source's `Open`.
pub data CircuitState : Type 0 where
  closed opened half_open : CircuitState

pub record AccountCircuit : Type 0 where
  pub state : CircuitState
  pub consecutive_failures : ℕ
  pub consecutive_successes : ℕ
  pub opened_at : Option ℕ
  pub last_failure_reason : Option Text
  pub half_open_probe_active : Bool

abbrev pub fresh_circuit : AccountCircuit
fresh_circuit = record {
  state = closed;
  consecutive_failures = 0;
  consecutive_successes = 0;
  opened_at = none;
  last_failure_reason = none;
  half_open_probe_active = false;
}

pub record CircuitBreakerManager : Type 0 where
  pub config : CircuitBreakerConfig
  pub circuits : Map Text AccountCircuit
  pub total_trips : ℕ

-- `entry(account_id).or_default()`
abbrev pub circuit_of : CircuitBreakerManager → Text → AccountCircuit
circuit_of m id = unwrap_or (lookup id m.circuits) fresh_circuit

abbrev put_circuit : CircuitBreakerManager → Text → AccountCircuit → CircuitBreakerManager
put_circuit m id c = record m { circuits = insert id c m.circuits }

unfoldable pub with_config : CircuitBreakerConfig → CircuitBreakerManager
with_config config = record { config = config; circuits = []; total_trips = 0 }

abbrev pub probe_in_flight : Text
probe_in_flight = text "Circuit half-open: probe already in flight"

to_half_open : AccountCircuit → AccountCircuit
to_half_open c = record c { state = half_open; consecutive_successes = 0 }

-- Whether the open period is over; a missing `opened_at` never ends it.
has_timed_out : CircuitBreakerConfig → ℕ → Option ℕ → Bool
has_timed_out config now none = false
has_timed_out config now (some at) = leb config.open_duration (elapsed now at)

-- The match of `check` on one circuit: the circuit after it, and the reason of a refusal.
check_in : CircuitState → CircuitBreakerConfig → ℕ → AccountCircuit → AccountCircuit × Option Text
unfolding to_half_open has_timed_out
check_in closed config now c = (c, none)
check_in opened config now c =
    if has_timed_out config now c.opened_at
    then (to_half_open c, none)
    else (c, c.last_failure_reason)
check_in half_open config now c =
    if c.half_open_probe_active
    then (c, some probe_in_flight)
    else (record c { half_open_probe_active = true }, none)

unfoldable pub check : CircuitBreakerManager → Text → ℕ → CircuitBreakerManager × Option Text
unfolding check_in
check m id now =
    let c = circuit_of m id in
    let (c', reason) = check_in c.state m.config now c in (put_circuit m id c', reason)

-- The remaining wait of a circuit that stays open.
open_delay : CircuitBreakerConfig → ℕ → Option ℕ → ℕ
open_delay config now none = config.open_duration
open_delay config now (some at) = config.open_duration - elapsed now at

-- The match of `should_allow`: the circuit after it, and the retry delay of a refusal.
should_allow_in :
    CircuitState → CircuitBreakerConfig → ℕ → AccountCircuit → AccountCircuit × Option ℕ
unfolding to_half_open has_timed_out open_delay
should_allow_in closed config now c = (c, none)
should_allow_in opened config now c =
    if has_timed_out config now c.opened_at
    then (to_half_open c, none)
    else (c, some (open_delay config now c.opened_at))
should_allow_in half_open config now c =
    if c.half_open_probe_active
    then (c, some (from_secs 1))
    else (record c { half_open_probe_active = true }, none)

-- `none` is `Ok(())`, `some d` is `Err(d)`.
unfoldable pub should_allow : CircuitBreakerManager → Text → ℕ → CircuitBreakerManager × Option ℕ
unfolding should_allow_in
should_allow m id now =
    let c = circuit_of m id in
    let (c', delay) = should_allow_in c.state m.config now c in (put_circuit m id c', delay)

close_circuit : AccountCircuit → AccountCircuit
close_circuit c = record c {
  state = closed;
  consecutive_failures = 0;
  consecutive_successes = 0;
  opened_at = none;
  last_failure_reason = none;
}

success_in : CircuitState → CircuitBreakerConfig → AccountCircuit → AccountCircuit
unfolding close_circuit
success_in closed config c = record c { consecutive_failures = 0 }
success_in half_open config c =
    let c' = record c {
      consecutive_successes = u32 (c.consecutive_successes + 1);
      half_open_probe_active = false;
    } in
    if leb config.success_threshold c'.consecutive_successes then close_circuit c' else c'
success_in opened config c = c

unfoldable pub record_success : CircuitBreakerManager → Text → CircuitBreakerManager
unfolding success_in
record_success m id = let c = circuit_of m id in put_circuit m id (success_in c.state m.config c)

-- What every failure notes before the match on the state.
note_failure : Text → AccountCircuit → AccountCircuit
note_failure reason c = record c {
  consecutive_failures = u32 (c.consecutive_failures + 1);
  consecutive_successes = 0;
  last_failure_reason = some reason;
}

-- The circuit after a failure, and how often it tripped.
failure_in : CircuitState → CircuitBreakerConfig → ℕ → AccountCircuit → AccountCircuit × ℕ
failure_in closed config now c =
    if leb config.failure_threshold c.consecutive_failures
    then (record c { state = opened; opened_at = some now }, 1)
    else (c, 0)
failure_in half_open config now c =
    (record c { half_open_probe_active = false; state = opened; opened_at = some now }, 1)
failure_in opened config now c = (c, 0)

unfoldable pub record_failure : CircuitBreakerManager → Text → Text → ℕ → CircuitBreakerManager
unfolding note_failure failure_in
record_failure m id reason now =
    let c = note_failure reason (circuit_of m id) in
    let (c', trips) = failure_in c.state m.config now c in
    record m { circuits = insert id c' m.circuits; total_trips = (m.total_trips + trips) % 2 ^ 64 }

unfoldable pub get_state : CircuitBreakerManager → Text → CircuitState
get_state m id = elim (lookup id m.circuits) [ none ↦ closed | some c ↦ c.state ]

-- Manual reset; an unknown account is left unknown.
unfoldable pub reset : CircuitBreakerManager → Text → CircuitBreakerManager
reset m id = elim (lookup id m.circuits) [ none ↦ m | some c ↦ put_circuit m id fresh_circuit ]

pub record CircuitBreakerSummary : Type 0 where
  pub closed_count : ℕ
  pub open_count : ℕ
  pub half_open_count : ℕ
  pub trips : ℕ

count_state : CircuitState → CircuitBreakerSummary → CircuitBreakerSummary
count_state closed s = record s { closed_count = s.closed_count + 1 }
count_state opened s = record s { open_count = s.open_count + 1 }
count_state half_open s = record s { half_open_count = s.half_open_count + 1 }

summarise : CircuitBreakerSummary → Map Text AccountCircuit → CircuitBreakerSummary
unfolding count_state
summarise s [] = s
summarise s ((id, c) ∷ m) = summarise (count_state c.state s) m

unfoldable pub get_summary : CircuitBreakerManager → CircuitBreakerSummary
unfolding summarise
get_summary m =
    summarise
      (record { closed_count = 0; open_count = 0; half_open_count = 0; trips = m.total_trips })
      m.circuits
