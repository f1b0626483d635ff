-- ===== src/CircuitBreaker/Transitions.antt =====
-- The state machine of a circuit: which call moves it where, and what a caller is told.
use antigravity_server.Prelude.Map.{text_key}
use antigravity_server.Prelude.{
  Option, Bool-cases, inl, inr, ◌⊎◌, ◌+◌, u32, true, false, leb, elapsed, if-keeps, ap, arith,
  is_some, none, refl, some, subst, sym, ℕ, ◌-◌, ◌<◌, ◌∙◌, ◌≡◌, ◌≢◌, ◌≤◌,
}
use antigravity_server.Prelude.Text.{Text}
use antigravity_server.CircuitBreaker.{
  AccountCircuit, CircuitBreakerConfig, CircuitBreakerManager, CircuitState, check, check_in,
  circuit_of, success_in, close_circuit, failure_in, note_failure, closed, has_timed_out, half_open,
  opened, put_circuit, should_allow, should_allow_in, to_half_open,
}
use antigravity_server.CircuitBreaker.History.{
  Call, allows, checks, circuit_of-insert_self, circuit_of-step_ne, circuit_of-step_self, fails,
  resets, step, step_in, succeeds, target,
}
use antigravity_server.CircuitBreaker.Invariant.{Holds, IsValid}

-- The open period of a circuit is over.
abbrev pub IsOver : CircuitBreakerConfig → ℕ → Option ℕ → Type 0
IsOver config now none = ⊥
IsOver config now (some at) = config.open_duration ≤ now - at

-- The diagram of the module's documentation, with the manual reset: where a call moves the circuit
-- `c` of its account, and the guard of each edge.
pub data Edge (config : CircuitBreakerConfig) (c : AccountCircuit)
    : Call → CircuitState → Type 0 where
  check_passes : (id : Text) (now : ℕ) → c.state ≢ opened → Edge config c (checks id now) c.state
  check_waits :
      (id : Text) (now : ℕ)
      → c.state ≡ opened
      → ¬ IsOver config now c.opened_at
      → Edge config c (checks id now) c.state
  check_probes :
      (id : Text) (now : ℕ)
      → c.state ≡ opened
      → IsOver config now c.opened_at
      → Edge config c (checks id now) half_open
  allow_passes : (id : Text) (now : ℕ) → c.state ≢ opened → Edge config c (allows id now) c.state
  allow_waits :
      (id : Text) (now : ℕ)
      → c.state ≡ opened
      → ¬ IsOver config now c.opened_at
      → Edge config c (allows id now) c.state
  allow_probes :
      (id : Text) (now : ℕ)
      → c.state ≡ opened
      → IsOver config now c.opened_at
      → Edge config c (allows id now) half_open
  success_noted : (id : Text) → c.state ≢ half_open → Edge config c (succeeds id) c.state
  success_counts :
      (id : Text)
      → c.state ≡ half_open
      → u32 (c.consecutive_successes + 1) < config.success_threshold
      → Edge config c (succeeds id) c.state
  recovers :
      (id : Text)
      → c.state ≡ half_open
      → config.success_threshold ≤ u32 (c.consecutive_successes + 1)
      → Edge config c (succeeds id) closed
  failure_counts :
      (id reason : Text) (now : ℕ)
      → c.state ≡ closed
      → u32 (c.consecutive_failures + 1) < config.failure_threshold
      → Edge config c (fails id reason now) c.state
  trips :
      (id reason : Text) (now : ℕ)
      → c.state ≡ closed
      → config.failure_threshold ≤ u32 (c.consecutive_failures + 1)
      → Edge config c (fails id reason now) opened
  reopens :
      (id reason : Text) (now : ℕ)
      → c.state ≡ half_open
      → Edge config c (fails id reason now) opened
  failure_noted :
      (id reason : Text) (now : ℕ) → c.state ≡ opened → Edge config c (fails id reason now) c.state
  resets_to_closed : (id : Text) → Edge config c (resets id) closed

IsOver-cases :
    (config : CircuitBreakerConfig) (now : ℕ) (o : Option ℕ)
    → ((has_timed_out config now o ≡ true) × IsOver config now o)
      ⊎ ((has_timed_out config now o ≡ false) × ¬ IsOver config now o)
unfolding has_timed_out
IsOver-cases config now none = inr (refl, λ h. h)
IsOver-cases config now (some at) = elim (Bool-cases (leb config.open_duration (elapsed now at))) [
  | inl t ↦ inl (t, ground arith)
  | inr f ↦ inr (f, λ h. ground arith)
]

-- The edges of `check` and of `should_allow`, from the edges of one circuit.
checks-Edge :
    (config : CircuitBreakerConfig) (id : Text) (now : ℕ) (c : AccountCircuit) (s : CircuitState)
    → c.state ≡ s
    → Edge config c (checks id now) (check_in s config now c).0.state
unfolding check_in to_half_open
checks-Edge config id now c closed e = check_passes id now (λ h. ground arith)
checks-Edge config id now c half_open e =
    if-keeps (λ (out : AccountCircuit × Option Text). Edge config c (checks id now) out.0.state)
      c.half_open_probe_active (check_passes id now (λ h. ground arith))
      (check_passes id now (λ h. ground arith))
checks-Edge config id now c opened e = elim (IsOver-cases config now c.opened_at) [
  | inl (t, over) ↦ rw t (check_probes id now e over)
  | inr (f, runs) ↦ rw f (check_waits id now e runs)
]

allows-Edge :
    (config : CircuitBreakerConfig) (id : Text) (now : ℕ) (c : AccountCircuit) (s : CircuitState)
    → c.state ≡ s
    → Edge config c (allows id now) (should_allow_in s config now c).0.state
unfolding should_allow_in to_half_open
allows-Edge config id now c closed e = allow_passes id now (λ h. ground arith)
allows-Edge config id now c half_open e =
    if-keeps (λ (out : AccountCircuit × Option ℕ). Edge config c (allows id now) out.0.state)
      c.half_open_probe_active (allow_passes id now (λ h. ground arith))
      (allow_passes id now (λ h. ground arith))
allows-Edge config id now c opened e = elim (IsOver-cases config now c.opened_at) [
  | inl (t, over) ↦ rw t (allow_probes id now e over)
  | inr (f, runs) ↦ rw f (allow_waits id now e runs)
]

succeeds-Edge :
    (config : CircuitBreakerConfig) (id : Text) (c : AccountCircuit) (s : CircuitState)
    → c.state ≡ s
    → Edge config c (succeeds id) (success_in s config c).state
unfolding success_in close_circuit
succeeds-Edge config id c closed e = success_noted id (λ h. ground arith)
succeeds-Edge config id c opened e = success_noted id (λ h. ground arith)
succeeds-Edge config id c half_open e =
    elim (Bool-cases (leb config.success_threshold (u32 (c.consecutive_successes + 1)))) [
      | inl t ↦ rw t (recovers id e (ground arith))
      | inr f ↦ rw f (success_counts id e (ground arith))
    ]

fails-Edge :
    (config : CircuitBreakerConfig) (id reason : Text) (now : ℕ) (c : AccountCircuit)
    (s : CircuitState)
    → c.state ≡ s
    → Edge config c (fails id reason now) (failure_in s config now (note_failure reason c)).0.state
unfolding failure_in note_failure
fails-Edge config id reason now c opened e = failure_noted id reason now e
fails-Edge config id reason now c half_open e = reopens id reason now e
fails-Edge config id reason now c closed e =
    elim (Bool-cases (leb config.failure_threshold (u32 (c.consecutive_failures + 1)))) [
      | inl t ↦ rw t (trips id reason now e (ground arith))
      | inr f ↦ rw f (failure_counts id reason now e (ground arith))
    ]

Edge-step_in :
    (config : CircuitBreakerConfig) (call : Call) (c : AccountCircuit)
    → Edge config c call (step_in config call c).state
unfolding step_in note_failure
Edge-step_in config (checks id now) c = checks-Edge config id now c c.state refl
Edge-step_in config (allows id now) c = allows-Edge config id now c c.state refl
Edge-step_in config (succeeds id) c = succeeds-Edge config id c c.state refl
Edge-step_in config (resets id) c = resets_to_closed id
Edge-step_in config (fails id reason now) c = fails-Edge config id reason now c c.state refl

-- Every call moves the circuit of its account along an edge of the diagram whose guard holds. An
-- open circuit is probed exactly once its open period is over, a half-open one closes exactly at
-- the success threshold and opens at a failure, a closed one opens exactly at the failure
-- threshold, and a reset closes it. The circuits of all other accounts stay as they were.
pub step-Edge :
    (m : CircuitBreakerManager) (call : Call) (j : Text)
    → (target call ≡ j → Edge m.config (circuit_of m j) call (circuit_of (step m call) j).state)
      × (target call ≢ j → circuit_of (step m call) j ≡ circuit_of m j)
step-Edge m call j = (
  λ p.
      subst (λ c. Edge m.config (circuit_of m j) call c.state)
        (sym (circuit_of-step_self m call j p)) (Edge-step_in m.config call (circuit_of m j)),
  circuit_of-step_ne m call j,
)

check_in-should_allow_in :
    (config : CircuitBreakerConfig) (now : ℕ) (s : CircuitState) (c : AccountCircuit)
    → Holds s config c
    → ((check_in s config now c).0 ≡ (should_allow_in s config now c).0)
      × (is_some (check_in s config now c).1 ≡ is_some (should_allow_in s config now c).1)
unfolding check_in should_allow_in
check_in-should_allow_in config now s c v = ground arith

-- `check` and `should_allow` admit the same requests and leave the same manager behind, where the
-- circuit of the account is valid.
pub check-should_allow :
    (m : CircuitBreakerManager) (id : Text) (now : ℕ)
    → IsValid m.config (circuit_of m id)
    → ((check m id now).0 ≡ (should_allow m id now).0)
      × (is_some (check m id now).1 ≡ is_some (should_allow m id now).1)
unfolding check should_allow
check-should_allow m id now v =
    let (same, told) = check_in-should_allow_in m.config now _ (circuit_of m id) v in
    (ap (put_circuit m id) same, told)

should_allow_in-opened :
    (config : CircuitBreakerConfig) (now at : ℕ) (c : AccountCircuit) (s : CircuitState)
    → s ≡ opened
    → c.opened_at ≡ some at
    → (now - at < config.open_duration
        → should_allow_in s config now c ≡ (c, some (config.open_duration - (now - at))))
      × (config.open_duration ≤ now - at → should_allow_in s config now c ≡ (to_half_open c, none))
unfolding should_allow_in
should_allow_in-opened config now at c s e o = ground arith

-- Open circuit: refused with the rest of the open period while that runs, admitted afterwards.
pub should_allow-opened :
    (m : CircuitBreakerManager) (id : Text) (at now : ℕ)
    → (circuit_of m id).state ≡ opened
    → (circuit_of m id).opened_at ≡ some at
    → (now - at < m.config.open_duration
        → ((should_allow m id now).1 ≡ some (m.config.open_duration - (now - at)))
          × (circuit_of (should_allow m id now).0 id ≡ circuit_of m id))
      × (m.config.open_duration ≤ now - at
          → ((should_allow m id now).1 ≡ none)
            × ((circuit_of (should_allow m id now).0 id).state ≡ half_open))
unfolding should_allow
should_allow-opened m id at now e o =
    let c = circuit_of m id in
    let (early, late) = should_allow_in-opened m.config now at c c.state e o in
    (
      λ h. (ap (λ r. r.1) (early h), circuit_of-insert_self m id _ ∙ ap (λ r. r.0) (early h)),
      λ h. (
        ap (λ r. r.1) (late h),
        ap (λ d. d.state) (circuit_of-insert_self m id _) ∙ ap (λ r. r.0.state) (late h),
      ),
    )
