-- ===== src/EndpointHealth.antt =====
-- Failures of an upstream endpoint: crates/antigravity-core/src/proxy/upstream/endpoint_health.rs.
-- `now` is the reading of `Instant::now()` in the method.
pub mod Streaks
mod Examples
use antigravity_server.Prelude.{
  Bool, Option, elapsed, false, from_secs, if◌then◌else◌, ltb, none, some, u32, ℕ, ◌+◌,
}

pub record EndpointHealth : Type 0 where
  pub failures : ℕ
  pub last_failure : Option ℕ

unfoldable pub new : EndpointHealth
new = record { failures = 0; last_failure = none }

unfoldable pub record_failure : EndpointHealth → ℕ → EndpointHealth
record_failure h now = record { failures = u32 (h.failures + 1); last_failure = some now }

unfoldable pub record_success : EndpointHealth → EndpointHealth
record_success h = record h { failures = 0 }

failed_within : ℕ → Option ℕ → ℕ → Bool
failed_within now none window = false
failed_within now (some last) window = ltb (elapsed now last) window

unfoldable pub should_skip : EndpointHealth → ℕ → Bool
unfolding failed_within
should_skip h now =
    if ltb h.failures 5 then false else failed_within now h.last_failure (from_secs 30)
