-- ===== src/CircuitBreaker/Probe.antt =====
-- The probe of a half-open circuit.
use antigravity_server.Prelude.Text.{Text}
use antigravity_server.Prelude.{
  Option, ap, arith, false, from_secs, none, refl, some, subst, sym, true, ℕ, ◌-◌, ◌∙◌, ◌≡◌, ◌≤◌,
}
use antigravity_server.CircuitBreaker.{
  AccountCircuit, CircuitBreakerConfig, CircuitBreakerManager, circuit_of, half_open, opened,
  should_allow, should_allow_in,
}
use antigravity_server.CircuitBreaker.History.{allows, circuit_of-step_self, step, step_in}

-- A probe is in flight.
abbrev pub IsProbed : AccountCircuit → Type 0
IsProbed c = (c.state ≡ half_open) × (c.half_open_probe_active ≡ true)

-- The answer of `should_allow` alone.
answer : CircuitBreakerConfig → ℕ → AccountCircuit → Option ℕ
answer config now c = (should_allow_in c.state config now c).1

answer-IsProbed :
    (config : CircuitBreakerConfig) (now : ℕ) (c : AccountCircuit)
    → IsProbed c
    → answer config now c ≡ some (from_secs 1)
unfolding answer should_allow_in
answer-IsProbed config now c h = ground arith

timed_out :
    (config : CircuitBreakerConfig) (id : Text) (at t u : ℕ) (c : AccountCircuit)
    → c.state ≡ opened
    → c.opened_at ≡ some at
    → c.half_open_probe_active ≡ false
    → config.open_duration ≤ t - at
    → let half = step_in config (allows id t) c in
      (answer config t c ≡ none)
      × (answer config u half ≡ none)
      × IsProbed (step_in config (allows id u) half)
unfolding answer step_in
timed_out config id at t u c e o p h = ground arith

-- Once the open period of an open circuit with no probe noted is over, it admits two requests, not
-- one, before it has any result: the request that makes it half-open is not noted as the probe.
-- The third is refused.
pub half_open-admits_two :
    (m : CircuitBreakerManager) (id : Text) (at t u v : ℕ)
    → (circuit_of m id).state ≡ opened
    → (circuit_of m id).opened_at ≡ some at
    → (circuit_of m id).half_open_probe_active ≡ false
    → m.config.open_duration ≤ t - at
    → let first = should_allow m id t in
      let second = should_allow first.0 id u in
      (first.1 ≡ none) × (second.1 ≡ none) × ((should_allow second.0 id v).1 ≡ some (from_secs 1))
unfolding should_allow step answer
half_open-admits_two m id at t u v e o p h =
    let (one, two, probed) = timed_out m.config id at t u (circuit_of m id) e o p h in
    let m1 = step m (allows id t) in
    let m2 = step m1 (allows id u) in
    let c1 = circuit_of-step_self m (allows id t) id refl in
    let c2 =
      circuit_of-step_self m1 (allows id u) id refl ∙ ap (step_in m.config (allows id u)) c1 in
    (
      one,
      subst (λ c. answer m.config u c ≡ none) (sym c1) two,
      answer-IsProbed m.config v (circuit_of m2 id) (subst IsProbed (sym c2) probed),
    )
