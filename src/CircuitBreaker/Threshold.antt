-- ===== src/CircuitBreaker/Threshold.antt =====
-- When a circuit opens and when it closes again.
use antigravity_server.Prelude.Map.{lookup, text_key}
use antigravity_server.Prelude.Text.{Text}
use antigravity_server.Prelude.{
  List, [], ap, arith, inl, length, refl, replicate, suc, zero, ℕ, ◌%◌, ◌+◌, ◌<◌, ◌^◌, ◌↔◌, ◌∙◌,
  ◌∷◌, ◌≡◌, ◌≤◌, ◌⊎◌,
}
use antigravity_server.CircuitBreaker.{
  AccountCircuit, CircuitBreakerConfig, CircuitBreakerManager, CircuitState, check, circuit_of,
  closed, failure_in, half_open, note_failure, opened, record_failure, record_success, reset,
  should_allow, with_config,
}
use antigravity_server.CircuitBreaker.History.{
  Call, allows, checks, circuit_of-step_self, config-step, fails, resets, run, step, step_in,
  succeeds, target,
}
use antigravity_server.CircuitBreaker.Invariant.{IsConfig}

-- A run of failures of one account, with the reasons and times given.
abbrev pub failures : Text → List (Text × ℕ) → List Call
failures id [] = []
failures id ((reason, now) ∷ rs) = fails id reason now ∷ failures id rs

-- A closed circuit counts the failures up to the threshold, and an open one stays open.
abbrev pub Counts : CircuitBreakerConfig → ℕ → AccountCircuit → Type 0
Counts config n c =
    ((n < config.failure_threshold) × (c.state ≡ closed) × (c.consecutive_failures ≡ n))
    ⊎ ((config.failure_threshold ≤ n) × (c.state ≡ opened))

Counts-fails :
    (config : CircuitBreakerConfig) (n : ℕ) (id reason : Text) (now : ℕ) (c : AccountCircuit)
    → IsConfig config
    → Counts config n c
    → Counts config (n + 1) (step_in config (fails id reason now) c)
unfolding step_in
Counts-fails config n id reason now c k h = ground arith

Counts-run :
    (config : CircuitBreakerConfig) (m : CircuitBreakerManager) (id : Text) (n : ℕ)
    (rs : List (Text × ℕ))
    → IsConfig config
    → m.config ≡ config
    → Counts config n (circuit_of m id)
    → Counts config (n + length rs) (circuit_of (run m (failures id rs)) id)
unfolding run
Counts-run config m id n [] k same h = let e : n + 0 ≡ n = omega arith in rw e h
Counts-run config m id n ((reason, now) ∷ rs) k same h =
    let call = fails id reason now in
    let e : n + suc (length rs) ≡ n + 1 + length rs = omega arith in
    let more : Counts config (n + 1) (circuit_of (step m call) id) =
      rw (circuit_of-step_self m call id refl, same)
        (Counts-fails config n id reason now (circuit_of m id) k h) in
    rw e (Counts-run config (step m call) id (n + 1) rs k (config-step m call ∙ same) more)

-- On a new manager, failures of an account with no other call between them open its circuit
-- exactly when there are at least `failure_threshold` of them.
pub failures-opened :
    (config : CircuitBreakerConfig) (id : Text) (rs : List (Text × ℕ))
    → IsConfig config
    → ((circuit_of (run (with_config config) (failures id rs)) id).state ≡ opened)
      ↔ (config.failure_threshold ≤ length rs)
unfolding with_config lookup
failures-opened config id rs k =
    let c : Counts config (0 + length rs)
        (circuit_of (run (with_config config) (failures id rs)) id) =
      Counts-run config (with_config config) id 0 rs k refl (inl (k.failures_pos, refl, refl)) in
    ground (arith, c)

-- A half-open circuit counts the successes up to their threshold, then it is closed.
abbrev pub Recovers : CircuitBreakerConfig → ℕ → AccountCircuit → Type 0
Recovers config n c =
    ((n < config.success_threshold) × (c.state ≡ half_open) × (c.consecutive_successes ≡ n))
    ⊎ ((config.success_threshold ≤ n) × (c.state ≡ closed))

Recovers-succeeds :
    (config : CircuitBreakerConfig) (n : ℕ) (id : Text) (c : AccountCircuit)
    → IsConfig config
    → Recovers config n c
    → Recovers config (n + 1) (step_in config (succeeds id) c)
unfolding step_in
Recovers-succeeds config n id c k h = ground arith

Recovers-run :
    (config : CircuitBreakerConfig) (m : CircuitBreakerManager) (id : Text) (n r : ℕ)
    → IsConfig config
    → m.config ≡ config
    → Recovers config n (circuit_of m id)
    → Recovers config (n + r) (circuit_of (run m (replicate r (succeeds id))) id)
unfolding run
Recovers-run config m id n zero k same h = let e : n + 0 ≡ n = omega arith in rw e h
Recovers-run config m id n (suc r) k same h =
    let call = succeeds id in
    let e : n + suc r ≡ n + 1 + r = omega arith in
    let more : Recovers config (n + 1) (circuit_of (step m call) id) =
      rw (circuit_of-step_self m call id refl, same)
        (Recovers-succeeds config n id (circuit_of m id) k h) in
    rw e (Recovers-run config (step m call) id (n + 1) r k (config-step m call ∙ same) more)

-- From a half-open circuit with no success yet, a run of successes closes it exactly when it has
-- at least `success_threshold` of them.
pub successes-closed :
    (m : CircuitBreakerManager) (id : Text) (r : ℕ)
    → IsConfig m.config
    → (circuit_of m id).state ≡ half_open
    → (circuit_of m id).consecutive_successes ≡ 0
    → ((circuit_of (run m (replicate r (succeeds id))) id).state ≡ closed)
      ↔ (m.config.success_threshold ≤ r)
successes-closed m id r k e z =
    let c : Recovers m.config (0 + r) (circuit_of (run m (replicate r (succeeds id))) id) =
      Recovers-run m.config m id 0 r k refl (inl (k.successes_pos, e, z)) in
    ground (arith, c)

-- 1 where a circuit goes from another state to `opened`.
abbrev pub trip_count : CircuitState → CircuitState → ℕ
trip_count opened t = 0
trip_count s opened = 1
trip_count s t = 0

trips-failure_in :
    (config : CircuitBreakerConfig) (now : ℕ) (c : AccountCircuit) (s : CircuitState)
    → c.state ≡ s
    → (failure_in s config now c).1 ≡ trip_count s (failure_in s config now c).0.state
unfolding failure_in
trips-failure_in config now c closed e = ground arith
trips-failure_in config now c opened e = refl
trips-failure_in config now c half_open e = refl

abbrev pub tripped : Call → CircuitState → CircuitState → ℕ
tripped (fails id reason now) s t = trip_count s t
tripped _ s t = 0

total_trips-fails :
    (m : CircuitBreakerManager) (id reason : Text) (now : ℕ)
    → (record_failure m id reason now).total_trips
      ≡ (m.total_trips
          + trip_count
              (circuit_of m id).state
              (step_in m.config (fails id reason now) (circuit_of m id)).state)
        % 2 ^ 64
unfolding record_failure step_in note_failure
total_trips-fails m id reason now =
    ap (λ t. (m.total_trips + t) % 2 ^ 64)
      (trips-failure_in m.config now (note_failure reason (circuit_of m id)) _ refl)

-- `total_trips` counts the openings of all circuits: a failure adds one exactly where it opens the
-- circuit of its account, wrapping as an `AtomicU64` does, and the other calls leave it.
pub total_trips-step :
    (m : CircuitBreakerManager) (call : Call)
    → m.total_trips < 2 ^ 64
    → (step m call).total_trips
      ≡ (m.total_trips
          + tripped call
              (circuit_of m (target call)).state
              (circuit_of (step m call) (target call)).state)
        % 2 ^ 64
unfolding step check should_allow record_success reset
total_trips-step m (checks id now) h = omega arith
total_trips-step m (allows id now) h = omega arith
total_trips-step m (succeeds id) h = omega arith
total_trips-step m (resets id) h = ground arith
total_trips-step m (fails id reason now) h =
    rw (circuit_of-step_self m (fails id reason now) id refl) (total_trips-fails m id reason now)
