-- ===== src/CircuitBreaker/Examples.antt =====
-- The circuit breaker's theorems at concrete managers and histories.
use antigravity_server.CircuitBreaker.{
  AccountCircuit, CircuitBreakerManager, circuit_of, default_config, half_open, opened,
  should_allow, with_config,
}
use antigravity_server.CircuitBreaker.History.{
  Call, allows, checks, fails, resets, run, step, succeeds, target,
}
use antigravity_server.CircuitBreaker.Invariant.{
  IsConfig, IsManager, IsValid, run-with_config-IsManager,
}
use antigravity_server.CircuitBreaker.Transitions.{step-Edge, Edge}
use antigravity_server.CircuitBreaker.Threshold.{failures, failures-opened}
use antigravity_server.CircuitBreaker.Probe.{half_open-admits_two}
use antigravity_server.Prelude.Map.{lookup, text_key}
use antigravity_server.Prelude.Text.{Text, Text-discrete, text}
use antigravity_server.Prelude.{
  List, [], arith, false, from_secs, length, none, refl, some, ℕ, ◌↔◌, ◌∷◌, ◌≡◌, ◌≢◌, ◌≤◌,
}

abbrev acct : Text
acct = text "a@example.com"

abbrev other : Text
other = text "b@example.com"

abbrev why : Text
why = text "503"

default-IsConfig : IsConfig default_config
unfolding default_config
default-IsConfig = record {
  failures_pos = omega arith;
  failures_fit = omega arith;
  successes_pos = omega arith;
  successes_fit = omega arith;
}

abbrev five_failures : List (Text × ℕ)
five_failures = (why, 10) ∷ (why, 20) ∷ (why, 30) ∷ (why, 40) ∷ (why, 50) ∷ []

abbrev history : List Call
history = fails acct why 10 ∷ succeeds acct ∷ checks other 20 ∷ fails acct why 30 ∷ resets acct ∷ []

-- A manager with one circuit.
abbrev manager : AccountCircuit → CircuitBreakerManager
manager c = record { config = default_config; circuits = (acct, c) ∷ []; total_trips = 1 }

abbrev opened_circuit : AccountCircuit
opened_circuit = record {
  state = opened;
  consecutive_failures = 5;
  consecutive_successes = 0;
  opened_at = some 50;
  last_failure_reason = some why;
  half_open_probe_active = false;
}

abbrev half_open_circuit : AccountCircuit
half_open_circuit = record opened_circuit { state = half_open }

run-with_config-IsManager_example : IsManager (run (with_config default_config) history)
run-with_config-IsManager_example =
    run-with_config-IsManager default_config history default-IsConfig

step-Edge_example :
    let m = manager opened_circuit in
    let call = allows acct 70_000_000_000 in
    (target call ≡ acct
      → Edge m.config (circuit_of m acct) call (circuit_of (step m call) acct).state)
    × (target call ≢ acct → circuit_of (step m call) acct ≡ circuit_of m acct)
step-Edge_example = step-Edge (manager opened_circuit) (allows acct 70_000_000_000) acct

history-IsValid :
    (id : Text)
    → IsValid
        (run (with_config default_config) history).config
        (circuit_of (run (with_config default_config) history) id)
history-IsValid = run-with_config-IsManager default_config history default-IsConfig

failures-opened_example :
    ((circuit_of (run (with_config default_config) (failures acct five_failures)) acct).state
      ≡ opened)
    ↔ (default_config.failure_threshold ≤ length five_failures)
failures-opened_example = failures-opened default_config acct five_failures default-IsConfig

half_open-admits_two_example :
    let first = should_allow (manager opened_circuit) acct 60_000_000_050 in
    let second = should_allow first.0 acct 60_000_000_060 in
    (first.1 ≡ none)
    × (second.1 ≡ none)
    × ((should_allow second.0 acct 60_000_000_070).1 ≡ some (from_secs 1))
unfolding lookup default_config Text-discrete
half_open-admits_two_example =
    half_open-admits_two (manager opened_circuit) acct 50 60_000_000_050 60_000_000_060
      60_000_000_070 refl refl refl (omega arith)
