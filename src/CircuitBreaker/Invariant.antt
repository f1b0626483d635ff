-- ===== src/CircuitBreaker/Invariant.antt =====
-- What holds of every circuit between two calls.
use antigravity_server.Prelude.{
  List, [], arith, false, is_some, ite-keeps, none, refl, true, ◌<◌, ◌^◌, ◌∷◌, ◌≡◌,
}
use antigravity_server.Prelude.Text.{Text}
use antigravity_server.Prelude.Map.{lookup, text_key}
use antigravity_server.CircuitBreaker.{
  AccountCircuit, CircuitBreakerConfig, CircuitBreakerManager, CircuitState, circuit_of, closed,
  fresh_circuit, half_open, opened, with_config,
}
use antigravity_server.CircuitBreaker.History.{
  Call, allows, checks, circuit_of-step, config-step, fails, resets, run, step, step_in, succeeds,
  target,
}

-- Thresholds that a `u32` can reach.
pub record IsConfig (config : CircuitBreakerConfig) : Type 0 where
  pub failures_pos : 0 < config.failure_threshold
  pub failures_fit : config.failure_threshold < 2 ^ 32
  pub successes_pos : 0 < config.success_threshold
  pub successes_fit : config.success_threshold < 2 ^ 32

-- By state: the counters are below their thresholds, only a closed circuit has no opening time
-- and no failure reason at hand, and only a half-open one has a probe in flight.
abbrev pub Holds : CircuitState → CircuitBreakerConfig → AccountCircuit → Type 0
Holds closed config c =
    (c.consecutive_failures < config.failure_threshold)
    × (c.consecutive_successes ≡ 0)
    × (c.opened_at ≡ none)
    × (c.half_open_probe_active ≡ false)
Holds opened config c =
    (c.consecutive_successes ≡ 0)
    × (is_some c.opened_at ≡ true)
    × (is_some c.last_failure_reason ≡ true)
    × (c.half_open_probe_active ≡ false)
Holds half_open config c =
    (c.consecutive_successes < config.success_threshold)
    × (is_some c.opened_at ≡ true)
    × (is_some c.last_failure_reason ≡ true)

abbrev pub IsValid : CircuitBreakerConfig → AccountCircuit → Type 0
IsValid config c = Holds c.state config c

pub fresh_circuit-IsValid :
    {config : CircuitBreakerConfig} → IsConfig config → IsValid config fresh_circuit
fresh_circuit-IsValid k = ground arith

step_in-IsValid_at :
    (config : CircuitBreakerConfig) (call : Call) (s : CircuitState) (c : AccountCircuit)
    → IsConfig config
    → c.state ≡ s
    → Holds s config c
    → IsValid config (step_in config call c)
unfolding step_in
step_in-IsValid_at config (checks id now) s c k e v = ground arith
step_in-IsValid_at config (allows id now) s c k e v = ground arith
step_in-IsValid_at config (succeeds id) s c k e v = ground arith
step_in-IsValid_at config (resets id) s c k e v = ground arith
step_in-IsValid_at config (fails id reason now) s c k e v = ground arith

pub step_in-IsValid :
    (config : CircuitBreakerConfig) (call : Call) (c : AccountCircuit)
    → IsConfig config
    → IsValid config c
    → IsValid config (step_in config call c)
step_in-IsValid config call c k v = step_in-IsValid_at config call c.state c k refl v

-- Every circuit of the manager is valid, those of accounts it has not met included.
abbrev pub IsManager : CircuitBreakerManager → Type 0
IsManager m = (id : Text) → IsValid m.config (circuit_of m id)

pub step-IsManager :
    (m : CircuitBreakerManager) (c : Call) → IsConfig m.config → IsManager m → IsManager (step m c)
step-IsManager m c k v j =
    rw (config-step m c, circuit_of-step m c j)
      (ite-keeps (text_key.dec (target c) j) (IsValid m.config)
        (step_in-IsValid m.config c (circuit_of m (target c)) k (v (target c))) (v j))

run-IsManager :
    (m : CircuitBreakerManager) (cs : List Call)
    → IsConfig m.config
    → IsManager m
    → IsManager (run m cs)
unfolding run
run-IsManager m [] k v = v
run-IsManager m (c ∷ cs) k v =
    run-IsManager (step m c) cs (rw (config-step m c) k) (step-IsManager m c k v)

-- After any history of calls on a new manager whose thresholds fit a `u32` and are not 0,
-- every circuit is valid in the sense of `Holds`.
pub run-with_config-IsManager :
    (config : CircuitBreakerConfig) (cs : List Call)
    → IsConfig config
    → IsManager (run (with_config config) cs)
unfolding with_config lookup
run-with_config-IsManager config cs k =
    run-IsManager (with_config config) cs k (λ id. fresh_circuit-IsValid k)
