-- ===== src/CircuitBreaker/History.antt =====
-- The calls of the circuit breaker as the steps of a history.
use antigravity_server.Prelude.{
  List, Option-cases, [], ap, arith, if_neg, if_pos, inl, inr, ite, refl, ℕ, ◌∙◌, ◌∷◌, ◌≡◌, ◌≢◌,
}
use antigravity_server.Prelude.Text.{Text}
use antigravity_server.Prelude.Map.{insert, lookup, lookup-insert, text_key}
use antigravity_server.CircuitBreaker.{
  AccountCircuit, CircuitBreakerConfig, CircuitBreakerManager, check, check_in, circuit_of,
  failure_in, fresh_circuit, note_failure, put_circuit, record_failure, record_success, reset,
  should_allow, should_allow_in, success_in,
}

pub data Call : Type 0 where
  checks allows : Text → ℕ → Call
  succeeds resets : Text → Call
  fails : Text → Text → ℕ → Call

abbrev pub target : Call → Text
target (checks id now) = id
target (allows id now) = id
target (succeeds id) = id
target (resets id) = id
target (fails id reason now) = id

unfoldable pub step : CircuitBreakerManager → Call → CircuitBreakerManager
step m (checks id now) = (check m id now).0
step m (allows id now) = (should_allow m id now).0
step m (succeeds id) = record_success m id
step m (resets id) = reset m id
step m (fails id reason now) = record_failure m id reason now

unfoldable pub run : CircuitBreakerManager → List Call → CircuitBreakerManager
run m [] = m
run m (c ∷ cs) = run (step m c) cs

-- What a call does to the circuit of its account.
unfoldable pub step_in : CircuitBreakerConfig → Call → AccountCircuit → AccountCircuit
unfolding check_in should_allow_in success_in note_failure failure_in
step_in config (checks id now) c = (check_in c.state config now c).0
step_in config (allows id now) c = (should_allow_in c.state config now c).0
step_in config (succeeds id) c = success_in c.state config c
step_in config (resets id) c = fresh_circuit
step_in config (fails id reason now) c =
    let c' = note_failure reason c in (failure_in c'.state config now c').0

circuit_of-insert :
    (m : CircuitBreakerManager) (id j : Text) (c : AccountCircuit) (trips : ℕ)
    → circuit_of (record m { circuits = insert id c m.circuits; total_trips = trips }) j
      ≡ ite (text_key.dec id j) c (circuit_of m j)
circuit_of-insert m id j c trips = elim (text_key.dec id j) [
  | yes p ↦ rw (lookup-insert id j c m.circuits, if_pos _ p, if_pos _ p)
  | no n ↦ rw (lookup-insert id j c m.circuits, if_neg _ n, if_neg _ n)
]

pub circuit_of-insert_self :
    (m : CircuitBreakerManager) (id : Text) (c : AccountCircuit)
    → circuit_of (put_circuit m id c) id ≡ c
circuit_of-insert_self m id c =
    circuit_of-insert m id id c m.total_trips ∙ if_pos (text_key.dec id id) refl _ _

circuit_of-reset :
    (m : CircuitBreakerManager) (id j : Text)
    → circuit_of (reset m id) j ≡ ite (text_key.dec id j) fresh_circuit (circuit_of m j)
unfolding reset
circuit_of-reset m id j = elim (Option-cases (lookup id m.circuits)) [
  | inl e ↦ elim (text_key.dec id j) [
    | yes p ↦ rw (if_pos _ p, e, reset) (ground (arith, e, p))
    | no n ↦ rw (if_neg _ n, e, reset)
  ]
  | inr (c, e) ↦ rw (e, reset) (circuit_of-insert m id j fresh_circuit m.total_trips)
]

-- A call acts on the circuit of its account only.
pub circuit_of-step :
    (m : CircuitBreakerManager) (c : Call) (j : Text)
    → circuit_of (step m c) j
      ≡ ite
          (text_key.dec (target c) j)
          (step_in m.config c (circuit_of m (target c)))
          (circuit_of m j)
unfolding step step_in check should_allow record_success record_failure
circuit_of-step m (checks id now) j = circuit_of-insert m id j _ m.total_trips
circuit_of-step m (allows id now) j = circuit_of-insert m id j _ m.total_trips
circuit_of-step m (succeeds id) j = circuit_of-insert m id j _ m.total_trips
circuit_of-step m (resets id) j = circuit_of-reset m id j
circuit_of-step m (fails id reason now) j =
    circuit_of-insert m id j _ (record_failure m id reason now).total_trips

pub circuit_of-step_self :
    (m : CircuitBreakerManager) (c : Call) (j : Text)
    → target c ≡ j
    → circuit_of (step m c) j ≡ step_in m.config c (circuit_of m j)
circuit_of-step_self m c j p =
    circuit_of-step m c j
    ∙ if_pos (text_key.dec (target c) j) p _ _
    ∙ ap (λ k. step_in m.config c (circuit_of m k)) p

pub circuit_of-step_ne :
    (m : CircuitBreakerManager) (c : Call) (j : Text)
    → target c ≢ j
    → circuit_of (step m c) j ≡ circuit_of m j
circuit_of-step_ne m c j n = circuit_of-step m c j ∙ if_neg (text_key.dec (target c) j) n _ _

pub config-step : (m : CircuitBreakerManager) (c : Call) → (step m c).config ≡ m.config
unfolding step check should_allow record_success record_failure reset
config-step m (checks id now) = refl
config-step m (allows id now) = refl
config-step m (succeeds id) = refl
config-step m (resets id) = ground arith
config-step m (fails id reason now) = refl
